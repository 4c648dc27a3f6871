-- ===== src/ParseJobs/Rows.antt =====
-- The rows of parse jobs in parse_jobs/service.py: the new row, the lookup and the assignments.
use document_agent_api.Common.{
  ℕ, Text, codes, text_eq, Bool, true, false, Option, none, some, List, [], ◌∷◌, ◌++◌, find,
  if◌then◌else◌,
}
use document_agent_api.Models.{
  str, Fields, end, field, Tables, ParseJobModel, JobStatus, queued, processing, succeeded, failed,
}
use document_agent_api.Platform.{}
use document_agent_api.Documents.Names.{sanitize_document_filename}

abbrev pub is_queued : JobStatus → Bool
is_queued queued = true
is_queued _ = false

-- The key of a job's source object.
abbrev pub job_source_key : Text → Text → Text
job_source_key job_id filename =
    codes "parse-jobs/" ++ (job_id ++ (codes "/source/" ++ sanitize_document_filename filename))

-- The message that the worker receives.
abbrev pub job_payload :
    (job_id owner source_object_key filename content_type parser_backend : Text) → Fields
job_payload job_id owner source_object_key filename content_type parser_backend =
    field (codes "job_id") (str job_id) (
      field (codes "owner_user_id") (str owner) (
        field (codes "source_object_key") (str source_object_key) (
          field (codes "filename") (str filename) (
            field (codes "content_type") (str content_type)
              (field (codes "parser_backend") (str parser_backend) end)))))

-- The new `ParseJobModel`, with the times that are drawn when it is flushed.
abbrev pub new_job :
    (job_id owner source_object_key filename content_type parser_backend : Text)
    (created updated : ℕ)
    → ParseJobModel
new_job job_id owner source_object_key filename content_type parser_backend created updated =
    record {
      id = job_id;
      owner_user_id = some owner;
      source_object_key = source_object_key;
      filename = filename;
      content_type = content_type;
      parser_backend = parser_backend;
      status = queued;
      document_id = none;
      error_code = none;
      error_message = none;
      created_at = created;
      updated_at = updated;
      started_at = none;
      finished_at = none;
    }

-- `self.session.add(job)` of a new job.
abbrev pub add_job : ParseJobModel → Tables → Tables
add_job job t = record t { parse_jobs = t.parse_jobs ++ job ∷ [] }

-- The assignments to the job of an id.
unfoldable pub update_job :
    Text → (ParseJobModel → ParseJobModel) → List ParseJobModel → List ParseJobModel
update_job id f [] = []
update_job id f (job ∷ jobs) = (if text_eq job.id id then f job else job) ∷ update_job id f jobs

abbrev pub set_job : Text → (ParseJobModel → ParseJobModel) → Tables → Tables
set_job id f t = record t { parse_jobs = update_job id f t.parse_jobs }

-- `self.session.get(ParseJobModel, id)`
abbrev pub job_of : Text → List ParseJobModel → Option ParseJobModel
job_of id = find (λ job. text_eq job.id id)

-- What `start_job`, `complete_job`, `fail_job` and `_mark_enqueue_failure` assign.
abbrev pub started : ℕ → ParseJobModel → ParseJobModel
started now job = record job {
  status = processing;
  started_at = some now;
  updated_at = now;
  error_code = none;
  error_message = none;
}

abbrev pub completed : ℕ → Text → ParseJobModel → ParseJobModel
completed now document_id job = record job {
  status = succeeded;
  document_id = some document_id;
  finished_at = some now;
  updated_at = now;
  error_code = none;
  error_message = none;
}

abbrev pub marked_failed : ℕ → Text → Text → ParseJobModel → ParseJobModel
marked_failed now error_code error_message job = record job {
  status = failed;
  error_code = some error_code;
  error_message = some error_message;
  finished_at = some now;
  updated_at = now;
}

-- The column `updated_at` has `onupdate=utcnow`.
abbrev pub enqueue_failed : ℕ → ParseJobModel → ParseJobModel
enqueue_failed now job = record job {
  status = failed;
  error_code = some (codes "queue_enqueue_failed");
  error_message = some (codes "The parse job could not be added to the queue.");
  updated_at = now;
}
