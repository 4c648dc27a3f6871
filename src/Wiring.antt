-- ===== src/Wiring.antt =====
-- What the settings choose: storage/dependencies.py, queueing/dependencies.py and the `main` of
-- worker/main.py. That a constructor runs once (`lru_cache`) is left out.
pub mod Parsers
use document_agent_api.Common.{
  ℕ, Text, codes, text_eq, Option, none, some, [], Result, ok, err, if◌then◌else◌,
}
use document_agent_api.Models.{Json}
use document_agent_api.Platform.{ObjectStorage, ParseJobQueue}
use document_agent_api.Documents.Objects.{truthy}
use document_agent_api.Storage.{FilePath, FileSystem, local_storage, S3Client, r2_storage}
use document_agent_api.Queueing.{memory_queue, logging_queue}
use document_agent_api.Config.{ℤ, Settings}
use document_agent_api.Worker.Parser.{WorkerParser, Tools, build_parsers}

-- What the constructors connect to: the file system with `Path(root).expanduser()`, boto3's client,
-- the Redis queue of a URL and a name, and the programs that the parsers run.
pub record Machine : Type 1 where
  pub files : FileSystem
  pub path_of : Text → FilePath
  pub s3_client : (endpoint access_key_id secret_access_key region : Text) → S3Client
  pub redis_queue : (redis_url queue_name : Text) → ParseJobQueue
  pub tools :
      (pdftotext_command : Text) (timeout_seconds : ℤ) (document_ai_script : Option Text) → Tools
  pub loads : Text → Option Json

-- What `main` hands to `WorkerRunner` and to `run_forever`.
pub record WorkerSetup : Type 1 where
  pub storage : ObjectStorage
  pub queue : ParseJobQueue
  pub parsers : Text → Option WorkerParser
  pub temp_root : Text
  pub timeout_seconds : ℤ

-- `value or ""`
abbrev or_blank : Option Text → Text
or_blank none = []
or_blank (some t) = t

module _ (M : Machine) where
  -- `get_object_storage`
  unfoldable pub get_object_storage : Settings → ObjectStorage
  get_object_storage s =
      if text_eq s.storage_backend (codes "r2")
      then r2_storage
          (M.s3_client (or_blank s.storage_r2_endpoint) (or_blank s.storage_r2_access_key_id)
            (or_blank s.storage_r2_secret_access_key) s.storage_r2_region)
          (or_blank s.storage_bucket)
      else local_storage M.files (M.files.resolve (M.path_of s.storage_local_root))

  -- `get_parse_job_queue`
  unfoldable pub get_parse_job_queue : Settings → ParseJobQueue
  get_parse_job_queue s =
      if text_eq s.queue_backend (codes "redis")
      then M.redis_queue s.redis_url s.parse_job_queue_name
      else if text_eq s.queue_backend (codes "memory")
      then memory_queue
      else logging_queue

  -- `main`, up to `run_forever`.
  unfoldable pub main : Settings → Result WorkerSetup
  unfolding get_object_storage get_parse_job_queue
  main s =
      elim (build_parsers M.loads
        (M.tools s.pdftotext_command s.parser_timeout_seconds s.document_ai_script_path)
        s.enabled_parser_backends s.document_ai_script_path) [
          | err e ↦ err e
          | ok parsers ↦ ok (record {
            storage = get_object_storage s;
            queue = get_parse_job_queue s;
            parsers = parsers;
            temp_root = s.worker_temp_root;
            timeout_seconds = s.worker_poll_timeout_seconds;
          })
        ]
