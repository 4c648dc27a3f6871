-- ===== src/ParseJobs.antt =====
-- parse_jobs/service.py: the life of a parse job. Log records are left out.
pub mod Rows
pub mod Router
pub mod Starting
pub mod Persisting
pub mod Creation
use document_agent_api.ParseJobs.Rows.{
  add_job, completed, enqueue_failed, is_queued, job_of, job_payload, job_source_key, marked_failed,
  new_job, set_job, started, update_job,
}
use document_agent_api.Common.{
  ℕ, Text, Bytes, codes, text_eq, Bool, true, false, ◌&&◌, Option, none, some, List, [], ◌∷◌, ◌++◌,
  Result, ok, err, Exn, parse_job_not_found, parse_job_enqueue_error, Exec, pure, raise, catch,
  ◌>>=◌, ◌>>◌, find, map, if◌then◌else◌,
}
use document_agent_api.Models.{
  Json, str, Fields, end, field, Tables, ParseJobModel, JobStatus, queued, processing, succeeded,
  failed,
}
use document_agent_api.Platform.{
  Platform, World, put_bytes, delete_object, enqueue_parse_job, rows, modify, commit, rollback,
  uuid4, utcnow,
}
use document_agent_api.ParserBackends.{normalize_parser_backend}
use document_agent_api.Documents.Names.{sanitize_document_filename}
use document_agent_api.Documents.Reading.{sql_eq}

-- `ParseJobWorkItem`
pub record ParseJobWorkItem : Type 0 where
  pub id : Text
  pub owner_user_id : Text
  pub source_object_key : Text
  pub filename : Text
  pub content_type : Text
  pub parser_backend : Text

-- `ParseJobSummary`
pub record ParseJobSummary : Type 0 where
  pub id : Text
  pub filename : Text
  pub content_type : Text
  pub parser_backend : Text
  pub status : JobStatus
  pub document_id : Option Text
  pub error_code : Option Text
  pub error_message : Option Text
  pub created_at : ℕ
  pub updated_at : ℕ
  pub started_at : Option ℕ
  pub finished_at : Option ℕ

-- `_to_summary`
abbrev pub to_summary : ParseJobModel → ParseJobSummary
to_summary job = record {
  id = job.id;
  filename = job.filename;
  content_type = job.content_type;
  parser_backend = job.parser_backend;
  status = job.status;
  document_id = job.document_id;
  error_code = job.error_code;
  error_message = job.error_message;
  created_at = job.created_at;
  updated_at = job.updated_at;
  started_at = job.started_at;
  finished_at = job.finished_at;
}

abbrev pub lift : {S A : Type 0} → Result A → Exec S A
lift r s = (r, s)

module _ (P : Platform) where
  -- Draws the time, changes the job and commits.
  abbrev pub save_job : Text → (ℕ → ParseJobModel → ParseJobModel) → Exec (World P) Unit
  save_job job_id change w =
      let (now, w1) = utcnow P w in commit P (modify P (set_job job_id (change now)) w1)

  -- `_mark_enqueue_failure`
  unfoldable pub mark_enqueue_failure : Text → Exec (World P) Unit
  mark_enqueue_failure job_id w = elim (job_of job_id (rows P w).parse_jobs) [
    | none ↦ (ok tt, w)
    | some _ ↦ save_job job_id enqueue_failed w
  ]

  -- `_cleanup_source_object_best_effort`
  unfoldable pub cleanup_source_object_best_effort : Text → Exec (World P) Unit
  cleanup_source_object_best_effort key = catch (delete_object P key) (λ _. pure tt)

  -- Up to the commit that makes the job persistent.
  unfoldable pub persist_job :
      (job_id owner filename content_type parser_backend : Text) (file_data : Bytes)
      → Exec (World P) ParseJobModel
  persist_job job_id owner filename content_type parser_backend file_data w =
      let key = job_source_key job_id filename in
      let (r, w1) = put_bytes P key file_data content_type w in
      elim r [
        | err e ↦ (err e, w1)
        | ok _ ↦
            let (created, w2) = utcnow P w1 in
            let (updated, w3) = utcnow P w2 in
            let job =
              new_job job_id owner key filename content_type parser_backend created updated in
            let (c, w4) = commit P (modify P (add_job job) w3) in
            elim c [ ok _ ↦ (ok job, w4) | err e ↦ (err e, w4) ]
      ]

  -- `create_job`. The exception of `_mark_enqueue_failure` itself goes out of the handler.
  unfoldable pub create_job :
      (owner filename content_type parser_backend : Text) (file_data : Bytes)
      → Exec (World P) ParseJobSummary
  unfolding persist_job cleanup_source_object_best_effort mark_enqueue_failure
  create_job owner filename content_type parser_backend file_data w =
      let (job_id, w0) = uuid4 P w in
      let key = job_source_key job_id filename in
      let (r, w1) = persist_job job_id owner filename content_type parser_backend file_data w0 in
      elim r [
        | err e ↦
            (do cleanup_source_object_best_effort key; raise (parse_job_enqueue_error job_id))
              (rollback P w1)
        | ok job ↦
            let (q, w2) =
              enqueue_parse_job P
                (job_payload job_id owner key filename content_type parser_backend) w1 in
            elim q [
              | ok _ ↦ (ok (to_summary job), w2)
              | err e ↦
                  (do mark_enqueue_failure job_id; raise (parse_job_enqueue_error job_id))
                    (rollback P w2)
            ]
      ]

  -- `get_job`
  unfoldable pub get_job : Text → Text → Exec (World P) ParseJobSummary
  get_job job_id owner w =
      elim (find (λ job. text_eq job.id job_id && sql_eq job.owner_user_id owner)
        (rows P w).parse_jobs) [
          | none ↦ (err (parse_job_not_found job_id), w)
          | some job ↦ (ok (to_summary job), w)
        ]

  -- The end of `start_job`, with the fields that its assignments leave alone.
  unfoldable pub work_item : ParseJobModel → Text → Exec (World P) (Option ParseJobWorkItem)
  work_item job owner = do
    parser_backend ← lift (normalize_parser_backend P.unicode_lower job.parser_backend)
    pure (
        some (record {
          id = job.id;
          owner_user_id = owner;
          source_object_key = job.source_object_key;
          filename = job.filename;
          content_type = job.content_type;
          parser_backend = parser_backend;
        }))

  -- `start_job` for the job that is found, and its owner.
  unfoldable pub start_found :
      ParseJobModel → Option Text → Exec (World P) (Option ParseJobWorkItem)
  unfolding work_item
  start_found job none = pure none
  start_found job (some owner) =
      if is_queued job.status then (do save_job job.id started; work_item job owner) else pure none

  -- `start_job`
  unfoldable pub start_job : Text → Exec (World P) (Option ParseJobWorkItem)
  unfolding start_found
  start_job job_id w = elim (job_of job_id (rows P w).parse_jobs) [
    | none ↦ (ok none, w)
    | some job ↦ start_found job job.owner_user_id w
  ]

  -- `complete_job`
  unfoldable pub complete_job : (job_id document_id : Text) → Exec (World P) Unit
  complete_job job_id document_id w = elim (job_of job_id (rows P w).parse_jobs) [
    | none ↦ (err (parse_job_not_found job_id), w)
    | some _ ↦ save_job job_id (λ now. completed now document_id) w
  ]

  -- `fail_job`
  unfoldable pub fail_job : (job_id error_code error_message : Text) → Exec (World P) Unit
  fail_job job_id error_code error_message w = elim (job_of job_id (rows P w).parse_jobs) [
    | none ↦ (err (parse_job_not_found job_id), w)
    | some _ ↦ save_job job_id (λ now. marked_failed now error_code error_message) w
  ]
