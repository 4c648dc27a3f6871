-- ===== src/ParseJobs/Persisting.antt =====
-- The rows that `create_job` saves: the new job, and the job whose message could not be enqueued.
use document_agent_api.Common.{
  none, suc, Text, Bytes, ◌≡◌, some, ok, err, Exn, Result-cases, inl, inr, arith,
}
use document_agent_api.Models.{ParseJobModel, queued}
use document_agent_api.Platform.{Platform, World, rows, saved, put_bytes}
use document_agent_api.Platform.Lawful.{Laws}
use document_agent_api.Documents.Objects.Cleanup.{at}
use document_agent_api.ParseJobs.{
  mark_enqueue_failure, cleanup_source_object_best_effort, persist_job,
}
use document_agent_api.ParseJobs.Rows.{
  job_source_key, add_job, set_job, job_of, new_job, enqueue_failed,
}

-- A new row of the id: queued, of the owner, with the source object that was stored.
abbrev pub IsNew :
    (job_id owner filename content_type parser_backend : Text) → ParseJobModel → Type 0
IsNew job_id owner filename content_type parser_backend job =
    (job.id ≡ job_id)
    × (job.status ≡ queued)
    × (job.owner_user_id ≡ some owner)
    × (job.source_object_key ≡ job_source_key job_id filename)
    × (job.filename ≡ filename)
    × (job.content_type ≡ content_type)
    × (job.parser_backend ≡ parser_backend)
    × (job.document_id ≡ none)
    × (job.error_code ≡ none)

module _ {P : Platform} (L : Laws P) where
  open L.database use {
    working-modify, committed-modify, working-commit, committed-commit, working-rollback,
    committed-rollback,
  }

  pub persist_saved :
      (job_id owner filename content_type parser_backend : Text) (file_data : Bytes) (w : World P)
      (job : ParseJobModel) (w' : World P)
      → persist_job P job_id owner filename content_type parser_backend file_data w ≡ (ok job, w')
      → IsNew job_id owner filename content_type parser_backend job
        × (saved P w' ≡ add_job job (rows P w))
        × (at L w' (job_source_key job_id filename) ≡ some file_data)
        × (w'.messages ≡ w.messages)
  unfolding persist_job
  persist_saved job_id owner filename content_type parser_backend file_data w job w' h =
      let put = put_bytes P (job_source_key job_id filename) file_data content_type w in
      let made =
        new_job job_id owner (job_source_key job_id filename) filename content_type parser_backend
          (P.utcnow w.draws) (P.utcnow (suc w.draws)) in
      let s = P.database.modify (add_job made) w.session in
      elim (Result-cases put.0) [
        | inr (x, r) ↦ absurd (ground arith)
        | inl (_, r) ↦ elim (Result-cases (P.database.commit s).0) [
          | inr (x, c) ↦ absurd (ground arith)
          | inl (_, c) ↦ (
            (
              ground arith,
              ground arith,
              ground arith,
              ground arith,
              ground arith,
              ground arith,
              ground arith,
              ground arith,
              ground arith,
            ),
            ground (arith, committed-commit s, working-modify (add_job made) w.session),
            ground (
              arith,
              L.storage.put-holds (job_source_key job_id filename) file_data content_type w.store
                  (job_source_key job_id filename),
              L.storage.same_refl (job_source_key job_id filename),
            ),
            ground arith,
          )
        ]
      ]

  pub persist_failed :
      (job_id owner filename content_type parser_backend : Text) (file_data : Bytes) (w : World P)
      (e : Exn) (w' : World P)
      → persist_job P job_id owner filename content_type parser_backend file_data w ≡ (err e, w')
      → saved P w' ≡ saved P w
  unfolding persist_job
  persist_failed job_id owner filename content_type parser_backend file_data w e w' h =
      let put = put_bytes P (job_source_key job_id filename) file_data content_type w in
      let made =
        new_job job_id owner (job_source_key job_id filename) filename content_type parser_backend
          (P.utcnow w.draws) (P.utcnow (suc w.draws)) in
      let s = P.database.modify (add_job made) w.session in
      elim (Result-cases put.0) [
        | inr (x, r) ↦ ground arith
        | inl (_, r) ↦ elim (Result-cases (P.database.commit s).0) [
          | inr (x, c) ↦
              ground (arith, committed-commit s, committed-modify (add_job made) w.session)
          | inl (_, c) ↦ absurd (ground arith)
        ]
      ]

  pub cleanup-session :
      (key : Text) (w : World P) → (cleanup_source_object_best_effort P key w).1.session ≡ w.session
  unfolding cleanup_source_object_best_effort
  cleanup-session key w = elim (Result-cases (P.storage.delete_object key w.store).0) [
    | inl (_, r) ↦ ground arith
    | inr (x, r) ↦ ground arith
  ]

  pub marked :
      (job_id : Text) (w : World P) (found : ParseJobModel) (w' : World P)
      → job_of job_id (rows P w).parse_jobs ≡ some found
      → mark_enqueue_failure P job_id w ≡ (ok tt, w')
      → (saved P w' ≡ set_job job_id (enqueue_failed (P.utcnow w.draws)) (rows P w))
        × (w'.store ≡ w.store)
  unfolding mark_enqueue_failure
  marked job_id w found w' f h =
      let change = set_job job_id (enqueue_failed (P.utcnow w.draws)) in
      let s = P.database.modify change w.session in
      elim (Result-cases (P.database.commit s).0) [
        | inr (x, c) ↦ absurd (ground arith)
        | inl (_, c) ↦
            (ground (arith, committed-commit s, working-modify change w.session), ground arith)
      ]

  pub mark_failed :
      (job_id : Text) (w : World P) (found : ParseJobModel) (e : Exn) (w' : World P)
      → job_of job_id (rows P w).parse_jobs ≡ some found
      → mark_enqueue_failure P job_id w ≡ (err e, w')
      → (s : P.database.Session) × ((P.database.commit s).0 ≡ err e)
        × (saved P w' ≡ saved P w)
        × (w'.store ≡ w.store)
  unfolding mark_enqueue_failure
  mark_failed job_id w found e w' f h =
      let change = set_job job_id (enqueue_failed (P.utcnow w.draws)) in
      let s = P.database.modify change w.session in
      (
        s,
        ground arith,
        ground (arith, committed-commit s, committed-modify change w.session),
        ground arith,
      )
