-- ===== src/Tests/Jobs.antt =====
-- The theorems on parse jobs, the worker and the queue, at one queued job.
use document_agent_api.Common.{
  ℕ, codes, true, false, ◌≡◌, refl, none, some, List, [], ◌∷◌, ok, length, map, text_eq, ◌++◌,
  if◌then◌else◌, file_not_found, message_of,
}
use document_agent_api.Models.{get_field, Fields, field, str, end, Tables}
use document_agent_api.Common.Utf8.{is_scalar}
use document_agent_api.Platform.{World, saved}
use document_agent_api.ParseJobs.{fail_job, ParseJobWorkItem, create_job, start_job}
use document_agent_api.ParseJobs.Rows.{started, job_of}
use document_agent_api.ParseJobs.Starting
use document_agent_api.ParseJobs.Starting.{start_job_once}
use document_agent_api.ParseJobs.Creation
use document_agent_api.ParseJobs.Creation.{create_job_lem}
use document_agent_api.Queueing.{memory_dequeue}
use document_agent_api.Queueing.Order.{enqueue_all, dequeue_n, enqueue-dequeue}
use document_agent_api.Worker.Runner.{
  store_result, runner_fail_job, Runner, job_id_of, run_once, parse_source, process_job,
}
use document_agent_api.Worker.Runner.Outcomes.{duplicate_ignored, failure_recorded}
use document_agent_api.Worker.Parser.{ParsedDocumentPayload}
use document_agent_api.Worker.Runner.Success.{success_recorded}
use document_agent_api.Documents.Creating.{
  encode_failure, stored_result, create_document_from_parse_result, store_document, upload_all,
}
use document_agent_api.ParseJobs.{complete_job}
use document_agent_api.Models.{DocumentModel, ParseJobModel, obj, succeeded, failed}
use document_agent_api.Tests.Fixture.{memory, laws, world, tables, job_one, get_object, object_of}

start_job_once_example :
    Starting.Outcome laws (codes "j1") world (start_job memory (codes "j1") world)
start_job_once_example = start_job_once laws (codes "j1") world

create_job_lem_example :
    Creation.Outcome laws
      (codes "u2")
      (codes "b.pdf")
      (codes "application/pdf")
      (codes "pdftotext")
      (b'%' ∷ [])
      world
      (create_job memory
        (codes "u2")
        (codes "b.pdf")
        (codes "application/pdf")
        (codes "pdftotext")
        (b'%' ∷ [])
        world)
create_job_lem_example =
    create_job_lem laws (codes "u2") (codes "b.pdf") (codes "application/pdf") (codes "pdftotext")
      (b'%' ∷ []) world refl

abbrev two_messages : List Fields
two_messages =
    field (codes "job_id") (str (codes "j1")) end
    ∷ field (codes "job_id") (str (codes "j2")) end
    ∷ []

enqueue-dequeue_example :
    dequeue_n 5 (length two_messages) (enqueue_all two_messages [])
    ≡ (map (λ p. ok (some p)) two_messages, [])
enqueue-dequeue_example = enqueue-dequeue 5 two_messages

-- A worker whose parsers find nothing.
abbrev pub runner : Runner
runner = record { parsers = λ backend. none; write_input = λ name payload. ok tt }

abbrev pub started_tables : Tables
started_tables = record tables { parse_jobs = started 6 job_one ∷ [] }

-- The state in which a first message has started the job.
abbrev pub started_world : World memory
started_world = record world {
  session = record { working = started_tables; committed = started_tables; broken = false };
}

duplicate_ignored_example :
    let (result, w') = run_once memory runner 5 started_world in
    (result ≡ ok true)
    × (saved memory w' ≡ saved memory started_world)
    × (w'.store ≡ started_world.store)
    × (w'.draws ≡ started_world.draws)
unfolding memory_dequeue job_id_of get_field text_eq
duplicate_ignored_example =
    duplicate_ignored laws runner 5 started_world (field (codes "job_id") (str (codes "j1")) end)
      (codes "j1") refl refl (started 6 job_one, refl, refl)

-- The object of this job is not in the storage.
abbrev lost_item : ParseJobWorkItem
lost_item = record {
  id = codes "j1";
  owner_user_id = codes "u1";
  source_object_key = codes "lost";
  filename = codes "a.pdf";
  content_type = codes "application/pdf";
  parser_backend = codes "pdftotext";
}

failure_recorded_example :
    job_of
      (codes "j1")
      (saved memory (process_job memory runner lost_item started_world).1).parse_jobs
    ≡ some (record (started 6 job_one) {
      status = failed;
      error_code = some (codes "parse_failed");
      error_message = some (message_of (file_not_found (codes "lost")));
      finished_at = some (memory.utcnow 0);
      updated_at = memory.utcnow 0;
    })
unfolding parse_source get_object object_of text_eq process_job runner_fail_job fail_job
failure_recorded_example =
    failure_recorded laws runner lost_item started_world (file_not_found (codes "lost"))
      started_world (started 6 job_one) refl refl refl

-- The result of a parser for the started job.
abbrev parsed : ParsedDocumentPayload
parsed = record { markdown = codes "# A"; canonical_json = obj end }

abbrev stored_world : World memory
stored_world = (store_result memory runner lost_item parsed started_world).1

success_recorded_example :
    (document : DocumentModel) × (now : ℕ) × (document.id ≡ memory.uuid4 0)
    × (document.owner_user_id ≡ some (codes "u1"))
    × (document.source_object_key ≡ some (codes "lost"))
    × (document.filename ≡ codes "a.pdf")
    × (document.content_type ≡ codes "application/pdf")
    × (document.result ≡ some (stored_result document.id))
    × (saved memory stored_world ≡ record started_tables {
      documents = started_tables.documents ++ document ∷ [];
      parse_jobs =
          map {A = ParseJobModel} {B = ParseJobModel}
            (λ (j : ParseJobModel).
              if text_eq j.id (codes "j1")
              then record j {
                status = succeeded;
                document_id = some document.id;
                finished_at = some now;
                updated_at = now;
                error_code = none;
                error_message = none;
              }
              else j)
            started_tables.parse_jobs;
    })
unfolding store_result create_document_from_parse_result store_document upload_all complete_job
    text_eq encode_failure is_scalar
success_recorded_example =
    success_recorded laws runner lost_item parsed started_world stored_world refl
