-- ===== src/System/Progress.antt =====
-- A round of the worker for a queued job.
use document_agent_api.Common.{
  ℕ, suc, Text, text_eq_iff, codes, Bool, true, ◌≡◌, refl, some, ok, message_of, Result-cases,
  Option-cases, inl, inr, arith,
}
use document_agent_api.Models.{Fields, Tables, ParseJobModel, queued}
use document_agent_api.Platform.{Platform, World, rows, saved, rollback, dequeue_parse_job}
use document_agent_api.Platform.Lawful.{Laws}
use document_agent_api.ParserBackends.{normalize_parser_backend}
use document_agent_api.ParseJobs.{ParseJobWorkItem, start_job, start_found, work_item, fail_job}
use document_agent_api.ParseJobs.Rows.{set_job, job_of, started, completed, marked_failed}
use document_agent_api.ParseJobs.Starting.{
  update_job-map, job_of-update_job, job_of-id, saved_commit,
}
use document_agent_api.Documents.Creating.{add_document}
use document_agent_api.Worker.Runner.{
  Runner, job_id_of, parse_source, store_result, runner_fail_job, process_job, handle_payload,
  run_once,
}
use document_agent_api.Worker.Runner.Success.{success_recorded}
use document_agent_api.System.Sessions.{IsGood, IsGood-same}
use document_agent_api.System.Changes.{IsClosed}
use document_agent_api.System.Finished.{is_finished, has_finished}
use document_agent_api.System.JobTests.{passes, passes-IsClosed, passes-update}
use document_agent_api.System.Rounds.{parse_source-session, store_result-Keeps}

-- The job of the id is there.
unfoldable has_job : Text → Tables → Bool
unfolding passes
has_job = passes (λ job. true)

has_job-IsClosed : (job_id : Text) → IsClosed (has_job job_id)
unfolding has_job
has_job-IsClosed job_id =
    passes-IsClosed (λ job. true) job_id
      (record {
        start = λ job now s h. refl;
        complete = λ job now document_id h. refl;
        fail = λ job now code message h. refl;
        fail_enqueue = λ job now h. refl;
        unlink = λ job id h. refl;
      })

module _ {P : Platform} (L : Laws P)
    (commits : (s : P.database.Session) → (P.database.commit s).0 ≡ ok tt) where
  -- Assignments that finish a job, once they are committed.
  finished_row :
      (job_id : Text) (f : ParseJobModel → ParseJobModel) (t : Tables)
      → ((job : ParseJobModel) → (f job).id ≡ job.id)
      → ((job : ParseJobModel) → is_finished (f job).status ≡ true)
      → has_job job_id t ≡ true
      → has_finished job_id (set_job job_id f t) ≡ true
  unfolding has_job has_finished
  finished_row job_id f t k q h = elim (Option-cases (job_of job_id t.parse_jobs)) [
    | inl n ↦ absurd (ground arith)
    | inr (job, n) ↦ ground (arith, q job, job_of-update_job job_id f t.parse_jobs k)
  ]

  fails :
      (job_id code message : Text) (w : World P)
      → has_job job_id (saved P w) ≡ true
      → let (r, w') = fail_job P job_id code message (rollback P w) in
        (r ≡ ok tt) × (has_finished job_id (saved P w') ≡ true)
  unfolding has_job fail_job
  fails job_id code message w h =
      let w0 = rollback P w in
      let mark = marked_failed (P.utcnow w.draws) code message in
      let w1 : World P = record w0 { draws = suc w.draws } in
      elim (Option-cases (job_of job_id (rows P w0).parse_jobs)) [
        | inl n ↦ absurd (ground (arith, L.database.working-rollback w.session))
        | inr (job, n) ↦
            let c = commits (P.database.modify (set_job job_id mark) w0.session) in
            let done = saved_commit L w1 (set_job job_id mark) c in
            let row =
              finished_row job_id mark (rows P w0) (λ j. refl) (λ j. refl) (ground (arith, n)) in
            (ground (arith, n, c), ground (arith, n, done, row))
      ]

  processed :
      (R : Runner) (item : ParseJobWorkItem) (w : World P)
      → IsGood L (has_job item.id) w
      → let (r, w') = process_job P R item w in
        (r ≡ ok tt) × (has_finished item.id (saved P w') ≡ true)
  unfolding process_job runner_fail_job
  processed R item w g =
      let parsed = parse_source P R item w in
      let g1 : IsGood L (has_job item.id) parsed.1 =
        IsGood-same L (has_job item.id) w parsed.1
          (parse_source-session L (has_job item.id) (has_job-IsClosed item.id) R item w) g in
      elim (Result-cases parsed.0) [
        | inr (x, e) ↦
            let done = fails item.id (codes "parse_failed") (message_of x) parsed.1 g1.1 in
            (ground (arith, done), ground (arith, done))
        | inl (p, e) ↦
            let stored = store_result P R item p parsed.1 in
            let g2 : IsGood L (has_job item.id) stored.1 =
              store_result-Keeps L (has_job item.id) (has_job-IsClosed item.id) R item p parsed.1
                g1 in
            elim (Result-cases stored.0) [
              | inr (x, f) ↦
                  let done = fails item.id (codes "parse_failed") (message_of x) stored.1 g2.1 in
                  (ground (arith, done), ground (arith, done))
              | inl (_, f) ↦
                  let (document, now, i, o, k, named, typed, keys, s) =
                    success_recorded L R item p parsed.1 stored.1 (ground arith) in
                  let row =
                    finished_row item.id (completed now document.id)
                      (add_document document (saved P parsed.1)) (λ j. refl) (λ j. refl)
                      ((has_job-IsClosed item.id).add_document document (saved P parsed.1) g1.1) in
                  let rows_of =
                    update_job-map item.id (completed now document.id)
                      (saved P parsed.1).parse_jobs in
                  (ground arith, ground (arith, s, row, rows_of))
            ]
      ]

  begun :
      (job_id backend : Text) (job : ParseJobModel) (owner : Text) (w : World P)
      → job_of job_id (saved P w).parse_jobs ≡ some job
      → job.status ≡ queued
      → job.owner_user_id ≡ some owner
      → normalize_parser_backend P.unicode_lower job.parser_backend ≡ ok backend
      → let (r, w') = start_job P job_id (rollback P w) in
        (item : ParseJobWorkItem) × (r ≡ ok (some item))
        × (item.id ≡ job_id)
        × IsGood L (has_job job_id) w'
  unfolding start_job start_found work_item has_job
  begun job_id backend job owner w f q o n =
      let w0 = rollback P w in
      let change = set_job job.id (started (P.utcnow w.draws)) in
      let w1 : World P = record w0 { draws = suc w.draws } in
      let c = commits (P.database.modify change w0.session) in
      let done = saved_commit L w1 change c in
      let f0 : job_of job_id (rows P w0).parse_jobs ≡ some job =
        ground (arith, f, L.database.working-rollback w.session) in
      let row =
        passes-update (λ job. true) job_id job.id (started (P.utcnow w.draws))
          (rows P w0).parse_jobs (λ j. refl) (λ j h. refl) (ground (arith, f0)) in
      let id = text_eq_iff job.id job_id in
      let same = job_of-id job_id (saved P w).parse_jobs job f in
      (
        record {
          id = job.id;
          owner_user_id = owner;
          source_object_key = job.source_object_key;
          filename = job.filename;
          content_type = job.content_type;
          parser_backend = backend;
        },
        ground (arith, f0, q, o, n, c),
        ground (arith, id, same),
        (ground (arith, f0, q, o, n, c, done, row), ground (arith, f0, q, o, n, c, done, row)),
      )

  -- Where no commit raises, one round of the worker that takes the message of a queued job, with an
  -- owner and a known parser backend, returns true and leaves the job succeeded or failed, whatever
  -- the parser, the storage and the writing of the input file do.
  pub round-has_finished :
      (R : Runner) (timeout : ℕ) (w : World P) (message : Fields) (job_id backend owner : Text)
      (job : ParseJobModel)
      → (dequeue_parse_job P timeout w).0 ≡ ok (some message)
      → job_id_of P R message ≡ some job_id
      → job_of job_id (saved P w).parse_jobs ≡ some job
      → job.status ≡ queued
      → job.owner_user_id ≡ some owner
      → normalize_parser_backend P.unicode_lower job.parser_backend ≡ ok backend
      → let (r, w') = run_once P R timeout w in
        (r ≡ ok true) × (has_finished job_id (saved P w') ≡ true)
  unfolding run_once handle_payload
  round-has_finished R timeout w message job_id backend owner job d i f q o n =
      let w1 = (dequeue_parse_job P timeout w).1 in
      let (item, r, same, good) = begun job_id backend job owner w1 f q o n in
      let w2 = (start_job P job_id (rollback P w1)).1 in
      let done = processed R item w2 (ground (arith, same, good.0), ground (arith, same, good.1)) in
      (ground (arith, d, i, r, done), ground (arith, d, i, r, done, same))
