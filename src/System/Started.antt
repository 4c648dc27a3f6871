-- ===== src/System/Started.antt =====
-- The status of a job over all events.
use document_agent_api.Common.{
  Text, Bool, true, not, ◌≡◌, refl, none, List, Option-cases, inl, inr, arith, ok,
}
use document_agent_api.Models.{Tables}
use document_agent_api.Platform.{Platform, World, rows, saved, rollback}
use document_agent_api.Platform.Lawful.{Laws}
use document_agent_api.ParseJobs.{start_job}
use document_agent_api.ParseJobs.Rows.{is_queued, job_of}
use document_agent_api.ParseJobs.Starting.{not_queued}
use document_agent_api.System.{Event, Service, steps}
use document_agent_api.System.Changes.{IsClosed}
use document_agent_api.System.JobTests.{passes, IsKept, passes-IsClosed}
use document_agent_api.System.Requests.{steps-saved}

-- The job of the id is there, and its status is no longer `queued`.
unfoldable pub has_left_queue : Text → Tables → Bool
unfolding passes
has_left_queue = passes (λ job. not (is_queued job.status))

left_queue-IsKept : IsKept (λ job. not (is_queued job.status))
left_queue-IsKept = record {
  start = λ job now s h. refl;
  complete = λ job now document_id h. refl;
  fail = λ job now code message h. refl;
  fail_enqueue = λ job now h. refl;
  unlink = λ job id h. h;
}

left_queue-IsClosed : (job_id : Text) → IsClosed (has_left_queue job_id)
unfolding has_left_queue
left_queue-IsClosed job_id =
    passes-IsClosed (λ job. not (is_queued job.status)) job_id left_queue-IsKept

-- Whatever sequence of requests and worker rounds the service runs through, a job whose status is no
-- longer `queued` stays in the database and never becomes `queued` again, and after the sequence
-- `start_job` gives nothing for it and changes nothing.
pub steps-has_left_queue :
    {P : Platform} (L : Laws P) (S : Service) (events : List Event) (job_id : Text) (w : World P)
    → has_left_queue job_id (saved P w) ≡ true
    → let w' = steps P S events (rollback P w) in
      (has_left_queue job_id (saved P w') ≡ true)
      × (start_job P job_id (rollback P w') ≡ (ok none, rollback P w'))
unfolding has_left_queue
steps-has_left_queue {P} L S events job_id w h =
    let w' = steps P S events (rollback P w) in
    let kept = steps-saved L (has_left_queue job_id) (left_queue-IsClosed job_id) S events w h in
    (
      kept,
      elim (Option-cases (job_of job_id (rows P (rollback P w')).parse_jobs)) [
        | inl n ↦ absurd (ground (arith, n, kept, L.database.working-rollback w'.session))
        | inr (job, f) ↦
            not_queued L job_id (rollback P w') job f
              (ground (arith, f, kept, L.database.working-rollback w'.session))
      ],
    )
