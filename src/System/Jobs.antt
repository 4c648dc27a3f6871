-- ===== src/System/Jobs.antt =====
-- The operations of `ParseJobService`, seen through a test of the tables.
use document_agent_api.Common.{
  sym, subst, text_eq_iff, suc, Text, Bytes, Bool, ◌≡◌, some, Result-cases, Option-cases,
  Bool-cases, inl, inr, arith,
}
use document_agent_api.Models.{Tables}
use document_agent_api.Platform.{Platform, World, rows, put_bytes, enqueue_parse_job, rollback}
use document_agent_api.Platform.Lawful.{Laws}
use document_agent_api.ParseJobs.Starting.{job_of-id}
use document_agent_api.ParseJobs.{
  mark_enqueue_failure, cleanup_source_object_best_effort, persist_job, create_job, work_item,
  start_found, start_job, complete_job, fail_job,
}
use document_agent_api.ParseJobs.Rows.{
  is_queued, job_source_key, job_payload, new_job, add_job, set_job, job_of, started, completed,
  marked_failed, enqueue_failed,
}
use document_agent_api.System.Sessions.{Keeps, IsGood-change, IsGood-rollback}
use document_agent_api.System.Changes.{IsClosed}

module _ {P : Platform} (L : Laws P) (c : Tables → Bool) (K : IsClosed c) where
  pub start_job-Keeps : (job_id : Text) → Keeps L c (start_job P job_id)
  unfolding start_job start_found work_item
  start_job-Keeps job_id w g = elim (Option-cases (job_of job_id (rows P w).parse_jobs)) [
    | inl f ↦ ground (arith, g)
    | inr (job, f) ↦ elim (Option-cases job.owner_user_id) [
      | inl o ↦ ground (arith, g)
      | inr (owner, o) ↦
          let w1 : World P = record w { draws = suc w.draws } in
          let same = (text_eq_iff job.id job_id).0 (job_of-id job_id (rows P w).parse_jobs job f) in
          let found : job_of job.id (rows P w).parse_jobs ≡ some job =
            subst (λ t. job_of t (rows P w).parse_jobs ≡ some job) (sym same) f in
          elim (Bool-cases (is_queued job.status)) [
            | inr q ↦ ground (arith, g)
            | inl q ↦
                let changed =
                  IsGood-change L c (set_job job.id (started (P.utcnow w.draws))) w1
                    (K.start job (P.utcnow w.draws) (rows P w) found q g.0) g in
                ground (arith, g, changed)
          ]
    ]
  ]

  pub complete_job-Keeps :
      (job_id document_id : Text) → Keeps L c (complete_job P job_id document_id)
  unfolding complete_job
  complete_job-Keeps job_id document_id w g =
      let w1 : World P = record w { draws = suc w.draws } in
      ground (
        arith,
        g,
        IsGood-change L c (set_job job_id (completed (P.utcnow w.draws) document_id)) w1
            (K.complete job_id (P.utcnow w.draws) document_id (rows P w) g.0) g,
      )

  pub fail_job-Keeps : (job_id code message : Text) → Keeps L c (fail_job P job_id code message)
  unfolding fail_job
  fail_job-Keeps job_id code message w g =
      let w1 : World P = record w { draws = suc w.draws } in
      ground (
        arith,
        g,
        IsGood-change L c (set_job job_id (marked_failed (P.utcnow w.draws) code message)) w1
            (K.fail job_id (P.utcnow w.draws) code message (rows P w) g.0) g,
      )

  mark_enqueue_failure-Keeps : (job_id : Text) → Keeps L c (mark_enqueue_failure P job_id)
  unfolding mark_enqueue_failure
  mark_enqueue_failure-Keeps job_id w g =
      let w1 : World P = record w { draws = suc w.draws } in
      ground (
        arith,
        g,
        IsGood-change L c (set_job job_id (enqueue_failed (P.utcnow w.draws))) w1
            (K.fail_enqueue job_id (P.utcnow w.draws) (rows P w) g.0) g,
      )

  cleanup-Keeps : (key : Text) → Keeps L c (cleanup_source_object_best_effort P key)
  unfolding cleanup_source_object_best_effort
  cleanup-Keeps key w g = ground (arith, g)

  persist_job-Keeps :
      (job_id owner filename content_type backend : Text) (file_data : Bytes)
      → Keeps L c (persist_job P job_id owner filename content_type backend file_data)
  unfolding persist_job
  persist_job-Keeps job_id owner filename content_type backend file_data w g =
      let key = job_source_key job_id filename in
      let w1 = (put_bytes P key file_data content_type w).1 in
      let w3 : World P = record w1 { draws = suc (suc w1.draws) } in
      let job =
        new_job job_id owner key filename content_type backend (P.utcnow w.draws)
          (P.utcnow (suc w.draws)) in
      let added =
        IsGood-change L c (add_job job) w3
          (K.add_job job_id owner key filename content_type backend (P.utcnow w.draws)
            (P.utcnow (suc w.draws)) (rows P w) g.0)
          g in
      ground (arith, g, added)

  pub create_job-Keeps :
      (owner filename content_type backend : Text) (file_data : Bytes)
      → Keeps L c (create_job P owner filename content_type backend file_data)
  unfolding create_job
  create_job-Keeps owner filename content_type backend file_data w g =
      let id = P.uuid4 w.draws in
      let key = job_source_key id filename in
      let w0 : World P = record w { draws = suc w.draws } in
      let made = persist_job P id owner filename content_type backend file_data w0 in
      let kept = persist_job-Keeps id owner filename content_type backend file_data w0 g in
      let sent =
        enqueue_parse_job P (job_payload id owner key filename content_type backend) made.1 in
      let marked =
        mark_enqueue_failure-Keeps id (rollback P sent.1) (IsGood-rollback L c sent.1 kept) in
      let cleaned = cleanup-Keeps key (rollback P made.1) (IsGood-rollback L c made.1 kept) in
      elim (Result-cases made.0) [
        | inl (job, r) ↦ ground (arith, kept, marked)
        | inr (e, r) ↦ ground (arith, kept, cleaned)
      ]
