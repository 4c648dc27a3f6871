-- ===== src/Worker/Runner/Success.antt =====
-- What a parsed job leaves when its result is stored.
use document_agent_api.Common.{
  ℕ, suc, Text, ◌≡◌, some, none, [], ◌∷◌, ◌++◌, map, text_eq, if◌then◌else◌, ok, Option-cases,
  Result-cases, inl, inr, arith,
}
use document_agent_api.Models.{Json, DocumentModel, ParseJobModel, succeeded}
use document_agent_api.Platform.{Platform, World, rows, saved, rollback}
use document_agent_api.Platform.Lawful.{Laws}
use document_agent_api.Documents.Schemas.{DocumentParseResponse}
use document_agent_api.Documents.Creating.{
  stored_result, add_document, markdown_upload, json_upload, store_document,
  create_document_from_parse_result,
}
use document_agent_api.Documents.Creating.Undone.{store_saved}
use document_agent_api.ParseJobs.{ParseJobWorkItem, complete_job}
use document_agent_api.ParseJobs.Rows.{job_of, set_job, completed}
use document_agent_api.ParseJobs.Starting.{saved_commit, update_job-map}
use document_agent_api.Worker.Parser.{ParsedDocumentPayload}
use document_agent_api.Worker.Runner.{Runner, store_result}

module _ {P : Platform} (L : Laws P) where
  -- The document of a parse result that was stored.
  created_row :
      (owner key filename content_type markdown : Text) (json : Json) (w : World P)
      (response : DocumentParseResponse) (w1 : World P)
      → create_document_from_parse_result P owner key filename content_type markdown json w
        ≡ (ok response, w1)
      → (document : DocumentModel) × (document.id ≡ P.uuid4 w.draws)
        × (document.owner_user_id ≡ some owner)
        × (document.source_object_key ≡ some key)
        × (response.document.id ≡ document.id)
        × (document.filename ≡ filename)
        × (document.content_type ≡ content_type)
        × (document.result ≡ some (stored_result document.id))
        × (rows P w1 ≡ add_document document (rows P w))
  unfolding create_document_from_parse_result
  created_row owner key filename content_type markdown json w response w1 h =
      let id = P.uuid4 w.draws in
      let w0 : World P = record w { draws = suc w.draws } in
      let us = markdown_upload P id markdown ∷ json_upload P id json ∷ [] in
      let stored = store_document P us id owner filename content_type key w0 in
      elim (Result-cases stored.0) [
        | inr (e, r) ↦ absurd (ground arith)
        | inl (document, r) ↦
            let done =
              store_saved L us id owner filename content_type key w0 document stored.1 stored.2
                (ground arith) in
            (
              document,
              done.1,
              done.2,
              done.3,
              ground arith,
              done.8,
              done.9,
              ground (arith, done.1, done.5),
              ground (arith, done.4),
            )
      ]

  completed_row :
      (job_id document_id : Text) (w w' : World P)
      → complete_job P job_id document_id w ≡ (ok tt, w')
      → saved P w' ≡ set_job job_id (completed (P.utcnow w.draws) document_id) (rows P w)
  unfolding complete_job
  completed_row job_id document_id w w' h =
      let change = set_job job_id (completed (P.utcnow w.draws) document_id) in
      let w1 : World P = record w { draws = suc w.draws } in
      elim (Option-cases (job_of job_id (rows P w).parse_jobs)) [
        | inl f ↦ absurd (ground arith)
        | inr (job, f) ↦
            elim (Result-cases (P.database.commit (P.database.modify change w.session)).0) [
              | inr (x, c) ↦ absurd (ground arith)
              | inl (_, c) ↦ let done = saved_commit L w1 change c in ground (arith, done)
            ]
      ]

  -- Where storing a parse result returned, the database has exactly two changes: one more document,
  -- of the job's owner and with the job's source object, filename and content type and the keys of
  -- its result, and the job's row with the status `succeeded`, the id of that document, its end and
  -- no error.
  pub success_recorded :
      (R : Runner) (item : ParseJobWorkItem) (parsed : ParsedDocumentPayload) (w w' : World P)
      → store_result P R item parsed w ≡ (ok tt, w')
      → (document : DocumentModel) × (now : ℕ) × (document.id ≡ P.uuid4 w.draws)
        × (document.owner_user_id ≡ some item.owner_user_id)
        × (document.source_object_key ≡ some item.source_object_key)
        × (document.filename ≡ item.filename)
        × (document.content_type ≡ item.content_type)
        × (document.result ≡ some (stored_result document.id))
        × (saved P w' ≡ record (saved P w) {
          documents = (saved P w).documents ++ document ∷ [];
          parse_jobs =
              map {A = ParseJobModel} {B = ParseJobModel}
                (λ (j : ParseJobModel).
                  if text_eq j.id item.id
                  then record j {
                    status = succeeded;
                    document_id = some document.id;
                    finished_at = some now;
                    updated_at = now;
                    error_code = none;
                    error_message = none;
                  }
                  else j)
                (saved P w).parse_jobs;
        })
  unfolding store_result
  success_recorded R item parsed w w' h =
      let w0 = rollback P w in
      let made =
        create_document_from_parse_result P item.owner_user_id item.source_object_key item.filename
          item.content_type parsed.markdown parsed.canonical_json w0 in
      elim (Result-cases made.0) [
        | inr (e, r) ↦ absurd (ground arith)
        | inl (response, r) ↦
            let row =
              created_row item.owner_user_id item.source_object_key item.filename item.content_type
                parsed.markdown parsed.canonical_json w0 response made.1 (ground arith) in
            let done = completed_row item.id response.document.id made.1 w' (ground arith) in
            (
              row.0,
              P.utcnow made.1.draws,
              ground (arith, row.1),
              ground (arith, row.2),
              ground (arith, row.3),
              row.5,
              row.6,
              row.7,
              ground (
                arith,
                done,
                row.4,
                row.8,
                L.database.working-rollback w.session,
                update_job-map item.id (completed (P.utcnow made.1.draws) row.0.id)
                    (saved P w).parse_jobs,
              ),
            )
      ]
