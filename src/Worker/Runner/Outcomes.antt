-- ===== src/Worker/Runner/Outcomes.antt =====
-- Duplicate messages, and jobs whose processing raises.
use document_agent_api.Common.{
  ℕ, suc, Text, codes, true, false, ◌≡◌, refl, ◌∙◌, ap, some, Result, ok, err, Exn, message_of,
  Result-cases, inl, inr, arith, ◌>>=◌,
}
use document_agent_api.Models.{Fields, Tables, ParseJobModel, failed}
use document_agent_api.Platform.{Platform, World, rows, saved, rollback, dequeue_parse_job}
use document_agent_api.Platform.Lawful.{Laws}
use document_agent_api.ParseJobs.{ParseJobWorkItem, fail_job}
use document_agent_api.ParseJobs.Rows.{is_queued, job_of, set_job, marked_failed}
use document_agent_api.ParseJobs.Starting.{job_of-update_job, not_queued, saved_commit}
use document_agent_api.Worker.Runner.{
  Runner, job_id_of, parse_source, store_result, runner_fail_job, process_job, handle_payload,
  run_once,
}

module _ {P : Platform} (L : Laws P) (R : Runner) where
  open L.database use {
    working-modify, committed-modify, working-commit, committed-commit, working-rollback,
    committed-rollback,
  }

  -- A job that another message has started, or that is finished.
  abbrev pub IsStarted : (job_id : Text) → Tables → Type 0
  IsStarted job_id t =
      (job : ParseJobModel) × (job_of job_id t.parse_jobs ≡ some job)
      × (is_queued job.status ≡ false)

  -- A message for a job that was started before is taken from the queue and dropped: `run_once` returns
  -- true, and neither the database nor the storage changes.
  pub duplicate_ignored :
      (timeout : ℕ) (w : World P) (message : Fields) (job_id : Text)
      → (dequeue_parse_job P timeout w).0 ≡ ok (some message)
      → job_id_of P R message ≡ some job_id
      → IsStarted job_id (saved P w)
      → let (result, w') = run_once P R timeout w in
        (result ≡ ok true) × (saved P w' ≡ saved P w) × (w'.store ≡ w.store) × (w'.draws ≡ w.draws)
  unfolding run_once handle_payload
  duplicate_ignored timeout w message job_id d i (job, f, q) =
      let w1 = rollback P (dequeue_parse_job P timeout w).1 in
      let same : rows P w1 ≡ saved P w = working-rollback w.session in
      let n = not_queued L job_id w1 job (ground (arith, same, f)) q in
      (
        ground (arith, d, i, n),
        ground (arith, d, i, n, committed-rollback w.session),
        ground (arith, d, i, n),
        ground (arith, d, i, n),
      )

  failed_row :
      (job_id code message : Text) (w : World P) (job : ParseJobModel)
      → job_of job_id (rows P w).parse_jobs ≡ some job
      → (fail_job P job_id code message w).0 ≡ ok tt
      → job_of job_id (saved P (fail_job P job_id code message w).1).parse_jobs
        ≡ some (marked_failed (P.utcnow w.draws) code message job)
  unfolding fail_job
  failed_row job_id code message w job f r =
      let mark = marked_failed (P.utcnow w.draws) code message in
      let w1 : World P = record w { draws = suc w.draws } in
      elim (Result-cases
        (P.database.commit (P.database.modify (set_job job_id mark) w.session)).0) [
          | inr (x, c) ↦ absurd (ground arith)
          | inl (_, c) ↦
              let done = saved_commit L w1 (set_job job_id mark) c in
              let row = job_of-update_job job_id mark (rows P w).parse_jobs (λ j. refl) in
              ground (arith, done, f, row)
        ]

  -- Where parsing or storing raised and `process_job` returned, the row of the job has the
  -- status `failed`, the error code `parse_failed`, the text of the exception as its error message
  -- and the time as its end; its other columns are as they were.
  pub failure_recorded :
      (item : ParseJobWorkItem) (w : World P) (e : Exn) (w1 : World P) (job : ParseJobModel)
      → (do parsed ← parse_source P R item; store_result P R item parsed) w ≡ (err e, w1)
      → job_of item.id (saved P w1).parse_jobs ≡ some job
      → (process_job P R item w).0 ≡ ok tt
      → job_of item.id (saved P (process_job P R item w).1).parse_jobs
        ≡ some (record job {
          status = failed;
          error_code = some (codes "parse_failed");
          error_message = some (message_of e);
          finished_at = some (P.utcnow w1.draws);
          updated_at = P.utcnow w1.draws;
        })
  unfolding process_job runner_fail_job
  failure_recorded item w e w1 job h f r =
      let same : rows P (rollback P w1) ≡ saved P w1 = working-rollback w1.session in
      let ran : process_job P R item w
          ≡ fail_job P item.id (codes "parse_failed") (message_of e) (rollback P w1) =
        ground (arith, h) in
      ap (λ (o : Result (Unit {0}) × World P). job_of item.id (saved P o.1).parse_jobs) ran
      ∙ failed_row item.id (codes "parse_failed") (message_of e) (rollback P w1) job
          (ground (arith, same, f)) (ground (arith, ran, r))
