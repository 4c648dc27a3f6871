-- ===== src/Worker/Runner.antt =====
-- worker/runner.py. Log records are left out.
pub mod Outcomes
pub mod Success
use document_agent_api.Common.{
  ℕ, zero, suc, Text, Bytes, codes, Bool, true, false, Option, none, some, ◌++◌, Result, ok, err,
  Exn, worker_parse_error, message_of, Exec, pure, raise, ◌>>=◌, ◌>>◌,
}
use document_agent_api.Models.{Json, str, Fields, get_field}
use document_agent_api.Platform.{Platform, World, get_bytes, dequeue_parse_job, rollback}
use document_agent_api.Documents.Names.{path_name}
use document_agent_api.Documents.Schemas.{DocumentParseResponse}
use document_agent_api.Documents.Creating.{create_document_from_parse_result}
use document_agent_api.ParseJobs.{ParseJobWorkItem, start_job, complete_job, fail_job, lift}
use document_agent_api.Worker.Parser.{ParsedDocumentPayload, WorkerParser}

-- `self.parsers`, and writing the input file in the temporary directory, which may raise.
pub record Runner : Type 0 where
  pub parsers : Text → Option WorkerParser
  pub write_input : Text → Bytes → Result (Unit {0})

module _ (P : Platform) (R : Runner) where
  -- `with self.session_factory() as session`: what was not committed is not seen.
  abbrev pub with_session : {A : Type 0} → Exec (World P) A → Exec (World P) A
  with_session m w = m (rollback P w)

  -- `str(raw_job_id)`
  abbrev pub raw_text : Json → Text
  raw_text (str t) = t
  raw_text j = P.str_of j

  -- `UUID(str(payload["job_id"]))`, none where either raises.
  unfoldable pub job_id_of : Fields → Option Text
  job_id_of payload = elim (get_field (codes "job_id") payload) [
    | none ↦ none
    | some raw ↦ P.uuid_of (raw_text raw)
  ]

  unfoldable pub find_parser : ParseJobWorkItem → Result WorkerParser
  find_parser job = elim (R.parsers job.parser_backend) [
    | none ↦ err (
        worker_parse_error (
          codes "unsupported parser backend requested for job "
          ++ (job.id ++ (codes ": " ++ job.parser_backend))))
    | some parser ↦ ok parser
  ]

  -- The first part of the `try` block: from the source object to the parsed payload.
  unfoldable pub parse_source : ParseJobWorkItem → Exec (World P) ParsedDocumentPayload
  unfolding find_parser
  parse_source job = do
    source_data ← get_bytes P job.source_object_key
    lift (R.write_input (path_name job.filename) source_data)
    parser ← lift (find_parser job)
    lift (parser (path_name job.filename) source_data)

  -- The second part, in a session of its own: the document, then the job.
  unfoldable pub store_result : ParseJobWorkItem → ParsedDocumentPayload → Exec (World P) Unit
  store_result job parsed = with_session (do
    created ←
        create_document_from_parse_result P job.owner_user_id job.source_object_key job.filename
          job.content_type parsed.markdown parsed.canonical_json
    complete_job P job.id created.document.id)

  -- `_fail_job`
  unfoldable pub runner_fail_job : (job_id error_message : Text) → Exec (World P) Unit
  runner_fail_job job_id error_message =
      with_session (fail_job P job_id (codes "parse_failed") error_message)

  -- The `try` statement: both `except` clauses fail the job with the text of the exception.
  unfoldable pub process_job : ParseJobWorkItem → Exec (World P) Unit
  unfolding parse_source store_result runner_fail_job
  process_job job w =
      let (r, w1) = (do parsed ← parse_source job; store_result job parsed) w in
      elim r [ ok _ ↦ (ok tt, w1) | err e ↦ runner_fail_job job.id (message_of e) w1 ]

  -- From a message that was taken from the queue; the message is dropped in each case.
  unfoldable pub handle_payload : Fields → Exec (World P) Bool
  unfolding job_id_of process_job
  handle_payload payload = elim (job_id_of payload) [
    | none ↦ pure true
    | some job_id ↦ do
      job ← with_session (start_job P job_id)
      elim job [ none ↦ pure true | some item ↦ do process_job item; pure true ]
  ]

  -- `run_once`
  unfoldable pub run_once : ℕ → Exec (World P) Bool
  unfolding handle_payload
  run_once timeout_seconds = do
    payload ← dequeue_parse_job P timeout_seconds
    elim payload [ none ↦ pure false | some message ↦ handle_payload message ]

  -- The first rounds of `run_forever`, whose loop only an exception leaves.
  unfoldable pub run_forever : (rounds timeout_seconds : ℕ) → Exec (World P) Unit
  unfolding run_once
  run_forever zero timeout_seconds = pure tt
  run_forever (suc rounds) timeout_seconds = do
    run_once timeout_seconds
    run_forever rounds timeout_seconds
