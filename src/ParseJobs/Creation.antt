-- ===== src/ParseJobs/Creation.antt =====
-- What `create_job` leaves, for each of its outcomes.
use document_agent_api.Common.{
  codes, map, if◌then◌else◌, ℕ, suc, Text, Bytes, text_eq, text_eq_refl, ◌≡◌, refl, some, List, [],
  ◌∷◌, ◌++◌, Result, ok, err, parse_job_enqueue_error, Result-cases, Bool-cases, inl, inr, ◌⊎◌,
  arith,
}
use document_agent_api.Models.{ParseJobModel, failed}
use document_agent_api.Platform.{Platform, World, rows, saved, rollback, enqueue_parse_job}
use document_agent_api.Platform.Lawful.{Laws}
use document_agent_api.Documents.Objects.Cleanup.{at}
use document_agent_api.ParseJobs.{
  ParseJobSummary, to_summary, mark_enqueue_failure, cleanup_source_object_best_effort, persist_job,
  create_job,
}
use document_agent_api.ParseJobs.Persisting.{
  IsNew, persist_saved, persist_failed, cleanup-session, marked, mark_failed,
}
use document_agent_api.ParseJobs.Starting.{update_job-map}
use document_agent_api.ParseJobs.Rows.{job_source_key, job_payload, add_job, job_of, enqueue_failed}

module _ {P : Platform} (L : Laws P) where
  open L.database use {
    working-modify, committed-modify, working-commit, committed-commit, working-rollback,
    committed-rollback,
  }

  -- The new job is the last row of the jobs, and nothing else in the database has changed.
  abbrev pub IsAdded : ParseJobModel → World P → World P → Type 0
  IsAdded job w w' =
      saved P w' ≡ record (saved P w) { parse_jobs = (saved P w).parse_jobs ++ job ∷ [] }

  abbrev pub Outcome :
      (owner filename content_type parser_backend : Text) (file_data : Bytes) (w : World P)
      → Result ParseJobSummary × World P
      → Type 0
  Outcome owner filename content_type parser_backend file_data w (ok summary, w') =
      (job : ParseJobModel) × IsNew (P.uuid4 w.draws) owner filename content_type parser_backend job
      × (summary ≡ to_summary job)
      × IsAdded job w w'
      × (at L w' job.source_object_key ≡ some file_data)
      × (P.queue.enqueue_parse_job
            (job_payload job.id owner job.source_object_key filename job.content_type
              parser_backend)
            w.messages
          ≡ (ok tt, w'.messages))
  Outcome owner filename content_type parser_backend file_data w (err e, w') =
      ((s : P.database.Session) × ((P.database.commit s).0 ≡ err e)
        × (job : ParseJobModel) × IsNew (P.uuid4 w.draws) owner filename content_type parser_backend
            job
        × IsAdded job w w'
        × (at L w' job.source_object_key ≡ some file_data))
      ⊎ (e ≡ parse_job_enqueue_error (P.uuid4 w.draws))
        × ((saved P w' ≡ saved P w)
            ⊎ ((job : ParseJobModel) × IsNew (P.uuid4 w.draws) owner filename content_type
                  parser_backend job
                × (now : ℕ) × (saved P w' ≡ record (saved P w) {
                  parse_jobs =
                      map {A = ParseJobModel} {B = ParseJobModel}
                        (λ (j : ParseJobModel).
                          if text_eq j.id job.id
                          then record j {
                            status = failed;
                            error_code = some (codes "queue_enqueue_failed");
                            error_message =
                                some (codes "The parse job could not be added to the queue.");
                            updated_at = now;
                          }
                          else j)
                        ((saved P w).parse_jobs ++ job ∷ []);
                })
                × (at L w' job.source_object_key ≡ some file_data)))

  job_of-add :
      (jobs : List ParseJobModel) (job : ParseJobModel)
      → (found : ParseJobModel) × (job_of job.id (jobs ++ job ∷ []) ≡ some found)
  job_of-add [] job = (job, ground (arith, text_eq_refl job.id))
  job_of-add (j ∷ jobs) job = elim (Bool-cases (text_eq j.id job.id)) [
    | inl e ↦ (j, ground arith)
    | inr e ↦ let rest = job_of-add jobs job in (rest.0, ground (arith, rest.1))
  ]

  create_kept :
      (owner filename content_type parser_backend : Text) (file_data : Bytes) (w : World P)
      (out : Result ParseJobSummary × World P)
      → rows P w ≡ saved P w
      → create_job P owner filename content_type parser_backend file_data w ≡ out
      → Outcome owner filename content_type parser_backend file_data w out
  unfolding create_job
  create_kept owner filename content_type parser_backend file_data w (ok summary, w') clean h =
      let id = P.uuid4 w.draws in
      let w0 : World P = record w { draws = suc w.draws } in
      let made = persist_job P id owner filename content_type parser_backend file_data w0 in
      elim (Result-cases made.0) [
        | inr (x, r) ↦ absurd (ground arith)
        | inl (job, r) ↦
            let done =
              persist_saved L id owner filename content_type parser_backend file_data w0 job made.1
                (ground arith) in
            let payload =
              job_payload id owner (job_source_key id filename) filename content_type
                parser_backend in
            elim (Result-cases (P.queue.enqueue_parse_job payload made.1.messages).0) [
              | inr (x, q) ↦ absurd (ground arith)
              | inl (_, q) ↦ (
                job,
                done.0,
                ground arith,
                ground (arith, done.1, clean),
                ground (arith, done.0, done.2),
                ground (arith, done.0, done.3),
              )
            ]
      ]
  create_kept owner filename content_type parser_backend file_data w (err e, w') clean h =
      let id = P.uuid4 w.draws in
      let w0 : World P = record w { draws = suc w.draws } in
      let made = persist_job P id owner filename content_type parser_backend file_data w0 in
      elim (Result-cases made.0) [
        | inr (x, r) ↦
            let same =
              persist_failed L id owner filename content_type parser_backend file_data w0 x made.1
                (ground arith) in
            let w2 = rollback P made.1 in
            let key = job_source_key id filename in
            elim (Result-cases (cleanup_source_object_best_effort P key w2).0) [
              | inl (_, c) ↦ inr (
                ground arith,
                inl (
                    ground
                      (arith, cleanup-session L key w2, committed-rollback made.1.session, same)),
              )
              | inr (y, c) ↦ inr (
                ground arith,
                inl (
                    ground
                      (arith, cleanup-session L key w2, committed-rollback made.1.session, same)),
              )
            ]
        | inl (job, r) ↦
            let done =
              persist_saved L id owner filename content_type parser_backend file_data w0 job made.1
                (ground arith) in
            let payload =
              job_payload id owner (job_source_key id filename) filename content_type
                parser_backend in
            elim (Result-cases (P.queue.enqueue_parse_job payload made.1.messages).0) [
              | inl (_, q) ↦ absurd (ground arith)
              | inr (x, q) ↦
                  let w2 = rollback P (enqueue_parse_job P payload made.1).1 in
                  let found = job_of-add (saved P w).parse_jobs job in
                  let back : rows P w2 ≡ add_job job (saved P w) =
                    ground (arith, working-rollback made.1.session, done.1, clean) in
                  let mark = mark_enqueue_failure P id w2 in
                  elim (Result-cases mark.0) [
                    | inl (_, m) ↦
                        let row =
                          marked L id w2 found.0 mark.1 (ground (arith, back, found.1, done.0))
                            (ground arith) in
                        inr (
                          ground arith,
                          inr (
                            job,
                            done.0,
                            P.utcnow w2.draws,
                            ground (
                              arith,
                              row.0,
                              back,
                              done.0,
                              update_job-map job.id (enqueue_failed (P.utcnow w2.draws))
                                  ((saved P w).parse_jobs ++ job ∷ []),
                            ),
                            ground (arith, row.1, done.0, done.2),
                          ),
                        )
                    | inr (y, m) ↦
                        let raised_by =
                          mark_failed L id w2 found.0 y mark.1
                            (ground (arith, back, found.1, done.0)) (ground arith) in
                        inl (
                          raised_by.0,
                          ground (arith, raised_by.1),
                          job,
                          done.0,
                          ground (
                            arith,
                            raised_by.2,
                            done.1,
                            clean,
                            committed-rollback made.1.session,
                          ),
                          ground (arith, raised_by.3, done.0, done.2),
                        )
                  ]
            ]
      ]

  -- `create_job`, in a session without uncommitted changes. Where it returns, the database has one
  -- more row, a queued job of the owner, the storage holds the uploaded data under the job's source
  -- key, and the message that names the job is in the queue. Where it raises `ParseJobEnqueueError`,
  -- the database is as it was, or has the new job as failed, with the error `queue_enqueue_failed` and
  -- its message, and its source object is there. The only other exception is one that a commit
  -- raises: then the new job stays in the database as queued, with its source object.
  pub create_job_lem :
      (owner filename content_type parser_backend : Text) (file_data : Bytes) (w : World P)
      → rows P w ≡ saved P w
      → Outcome owner filename content_type parser_backend file_data w
          (create_job P owner filename content_type parser_backend file_data w)
  create_job_lem owner filename content_type parser_backend file_data w clean =
      create_kept owner filename content_type parser_backend file_data w _ clean refl
