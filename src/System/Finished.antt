-- ===== src/System/Finished.antt =====
-- A job that is finished, over all events.
use document_agent_api.Common.{Text, Bool, true, false, ◌≡◌, refl, List, arith}
use document_agent_api.Models.{Tables, JobStatus, queued, processing, succeeded, failed}
use document_agent_api.Platform.{Platform, World, saved, rollback}
use document_agent_api.Platform.Lawful.{Laws}
use document_agent_api.ParseJobs.Rows.{is_queued}
use document_agent_api.System.{Event, Service, steps}
use document_agent_api.System.Changes.{IsClosed}
use document_agent_api.System.JobTests.{passes, IsKept, passes-IsClosed}
use document_agent_api.System.Requests.{steps-saved}

abbrev pub is_finished : JobStatus → Bool
is_finished queued = false
is_finished processing = false
is_finished succeeded = true
is_finished failed = true

-- The job of the id is there and has succeeded or failed.
unfoldable pub has_finished : Text → Tables → Bool
unfolding passes
has_finished = passes (λ job. is_finished job.status)

is_not_queued : (s : JobStatus) → is_finished s ≡ true → is_queued s ≡ false
is_not_queued queued h = absurd (ground arith)
is_not_queued processing h = refl
is_not_queued succeeded h = refl
is_not_queued failed h = refl

finished-IsKept : IsKept (λ job. is_finished job.status)
finished-IsKept = record {
  start = λ job now s h. absurd (ground (arith, is_not_queued job.status h));
  complete = λ job now document_id h. refl;
  fail = λ job now code message h. refl;
  fail_enqueue = λ job now h. refl;
  unlink = λ job id h. h;
}

finished-IsClosed : (job_id : Text) → IsClosed (has_finished job_id)
unfolding has_finished
finished-IsClosed job_id = passes-IsClosed (λ job. is_finished job.status) job_id finished-IsKept

-- A job that has succeeded or failed stays in the database as one that has succeeded or failed,
-- whatever sequence of requests and worker rounds the service runs through.
pub steps-has_finished :
    {P : Platform} (L : Laws P) (S : Service) (events : List Event) (job_id : Text) (w : World P)
    → has_finished job_id (saved P w) ≡ true
    → has_finished job_id (saved P (steps P S events (rollback P w))) ≡ true
steps-has_finished {P} L S events job_id w h =
    steps-saved L (has_finished job_id) (finished-IsClosed job_id) S events w h
