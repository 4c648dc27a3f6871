-- ===== src/Tests/Wiring.antt =====
-- The theorems on loaded settings, at the defaults with a secret key.
use document_agent_api.Common.{
  Text, codes, starts_with, ends_with, strip, lower, text_eq, contains, true, false, ◌≡◌, refl,
  none, some, Option, is_some, [], ◌∷◌, ok, err, Result,
}
use document_agent_api.Models.{Json}
use document_agent_api.ParserBackends.{normalize_parser_backend}
use document_agent_api.Documents.Media.{
  determine_source_media_type, source_media_types_by_extension, supported_extensions,
  is_supported_file, is_parser_backend_supported_for_upload,
}
use document_agent_api.Documents.Router.{UploadFile, upload_error}
use document_agent_api.Storage.{FileSystem, S3Client}
use document_agent_api.Queueing.{memory_queue}
use document_agent_api.Config.{
  pos, validate_nonblank, validate_positive, validate_storage_backend, validate_queue_backend,
  validate_enabled_parser_backends, validate_storage_requirements, normalize_optional_text,
  normalize_database_url, normalize_cors_allow_origins,
}
use document_agent_api.Config.Loading.{load_settings}
use document_agent_api.Config.Loading.Sound.{IsLoaded, load_settings-IsLoaded}
use document_agent_api.Worker.Parser.{build_parsers}
use document_agent_api.Wiring.{Machine, WorkerSetup, main, get_object_storage}
use document_agent_api.Wiring.Parsers.{accepted_has_parser}
use document_agent_api.Tests.Texts.{environment, settings}

-- A file system without files.
abbrev no_files : FileSystem
no_files = record {
  Files = Unit;
  resolve = λ path. path;
  make_parent = λ path s. (ok tt, s);
  write_bytes = λ path payload s. (ok tt, s);
  read_bytes = λ path s. (ok [], s);
  exists = λ path s. false;
  unlink = λ path s. (ok tt, s);
}

abbrev no_objects : S3Client
no_objects = record {
  Remote = Unit;
  put_object = λ bucket key body content_type s. (ok tt, s);
  get_object = λ bucket key s. (ok [], s);
  delete_object = λ bucket key s. (ok tt, s);
}

abbrev no_loads : Text → Option Json
no_loads t = none

abbrev machine : Machine
machine = record {
  files = no_files;
  path_of = λ root. root ∷ [];
  s3_client = λ endpoint access_key_id secret_access_key region. no_objects;
  redis_queue = λ redis_url queue_name. memory_queue;
  tools = λ command timeout_seconds script. record {
    convert = some (λ name payload. ok payload);
    pdftotext = λ name payload. ok (record { returncode = 0; stdout = payload; stderr = [] });
    document_ai = none;
  };
  loads = no_loads;
}

defaults_load : load_settings no_loads (λ j. []) strip strip environment ≡ ok settings
unfolding load_settings validate_nonblank strip validate_positive validate_storage_backend contains
    text_eq lower validate_queue_backend validate_enabled_parser_backends
    validate_storage_requirements normalize_optional_text normalize_database_url
    normalize_cors_allow_origins starts_with
defaults_load = refl

load_settings-IsLoaded_example : IsLoaded settings
load_settings-IsLoaded_example =
    load_settings-IsLoaded no_loads (λ j. []) strip strip environment settings defaults_load

-- What `main` hands over, or else the table without parsers.
abbrev setup_of : Result WorkerSetup → WorkerSetup
setup_of (ok setup) = setup
setup_of (err e) = record {
  storage = get_object_storage machine settings;
  queue = memory_queue;
  parsers = λ name. none;
  temp_root = [];
  timeout_seconds = pos 0;
}

abbrev notes : UploadFile
notes = record { filename = codes "a.pdf"; content_type = none; payload = b'%' ∷ [] }

accepted_notes :
    upload_error strip settings.enabled_parser_backends notes (codes "pdftotext") ≡ none
unfolding upload_error strip contains text_eq lower is_supported_file supported_extensions ends_with
    is_parser_backend_supported_for_upload determine_source_media_type
    source_media_types_by_extension
accepted_notes = refl

accepted_has_parser_example :
    (normalize_parser_backend strip (codes "pdftotext") ≡ ok (codes "pdftotext"))
    × (is_some ((setup_of (main machine settings)).parsers (codes "pdftotext")) ≡ true)
unfolding main build_parsers contains text_eq
accepted_has_parser_example =
    accepted_has_parser (λ j. []) strip strip machine environment settings
      (setup_of (main machine settings)) notes (codes "pdftotext") defaults_load refl accepted_notes
