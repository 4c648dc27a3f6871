-- ===== src/System/Consistent.antt =====
-- A consistent database, and the events.
use document_agent_api.Common.{
  Text, text_eq, text_eq_iff, Bool, true, false, not, ◌&&◌, ◌≡◌, refl, none, is_some, List, [], ◌∷◌,
  ◌++◌, all, map, inl, inr, ◌⊎◌, arith,
}
use document_agent_api.Models.{
  Tables, UserModel, ParseJobModel, JobStatus, queued, processing, succeeded, failed,
}
use document_agent_api.Platform.{Platform, World, saved, rollback}
use document_agent_api.Platform.Lawful.{Laws}
use document_agent_api.Auth.Rows.{user_of_email}
use document_agent_api.ParseJobs.Rows.{
  update_job, set_job, new_job, started, completed, marked_failed, enqueue_failed,
}
use document_agent_api.System.{Event, Service, steps}
use document_agent_api.Documents.Deleting.{unlinked}
use document_agent_api.System.Changes.{IsClosed}
use document_agent_api.System.Requests.{steps-saved}

-- No two users have one email.
unfoldable pub has_distinct_emails : List UserModel → Bool
has_distinct_emails [] = true
has_distinct_emails (u ∷ users) =
    not (is_some (user_of_email u.email users)) && has_distinct_emails users

-- What the columns of a job say for its status.
unfoldable pub is_well_formed_as : JobStatus → ParseJobModel → Bool
is_well_formed_as queued job =
    not (is_some job.started_at)
    && not (is_some job.finished_at)
    && not (is_some job.document_id)
    && not (is_some job.error_code)
    && not (is_some job.error_message)
is_well_formed_as processing job =
    is_some job.started_at && not (is_some job.error_code) && not (is_some job.error_message)
is_well_formed_as succeeded job =
    is_some job.finished_at && not (is_some job.error_code) && not (is_some job.error_message)
is_well_formed_as failed job = is_some job.error_code && is_some job.error_message

unfoldable pub is_consistent : Tables → Bool
unfolding has_distinct_emails is_well_formed_as
is_consistent t =
    has_distinct_emails t.users && all (λ job. is_well_formed_as job.status job) t.parse_jobs

abbrev is_well_formed : ParseJobModel → Bool
is_well_formed job = is_well_formed_as job.status job

emails-append :
    (e : Text) (users : List UserModel) (u : UserModel)
    → text_eq u.email e ≡ false
    → is_some (user_of_email e (users ++ u ∷ [])) ≡ is_some (user_of_email e users)
emails-append e [] u h = ground arith
emails-append e (v ∷ users) u h = ground (arith, emails-append e users u h)

distinct-append :
    (users : List UserModel) (u : UserModel)
    → user_of_email u.email users ≡ none
    → has_distinct_emails users ≡ true
    → has_distinct_emails (users ++ u ∷ []) ≡ true
unfolding has_distinct_emails
distinct-append [] u n h = refl
distinct-append (v ∷ users) u n h = ground (
  arith,
  text_eq_iff v.email u.email,
  text_eq_iff u.email v.email,
  emails-append v.email users u,
  distinct-append users u,
)

status_cases : (s : JobStatus) → (s ≡ queued) ⊎ (s ≡ processing) ⊎ (s ≡ succeeded) ⊎ (s ≡ failed)
status_cases queued = inl refl
status_cases processing = inr (inl refl)
status_cases succeeded = inr (inr (inl refl))
status_cases failed = inr (inr (inr refl))

all-append :
    (jobs : List ParseJobModel) (job : ParseJobModel)
    → all is_well_formed jobs ≡ true
    → is_well_formed job ≡ true
    → all is_well_formed (jobs ++ job ∷ []) ≡ true
all-append [] job h k = ground arith
all-append (j ∷ jobs) job h k = ground (arith, all-append jobs job)

all-update_job :
    (id : Text) (f : ParseJobModel → ParseJobModel) (jobs : List ParseJobModel)
    → ((job : ParseJobModel) → is_well_formed (f job) ≡ true)
    → all is_well_formed jobs ≡ true
    → all is_well_formed (update_job id f jobs) ≡ true
unfolding update_job
all-update_job id f [] k h = refl
all-update_job id f (j ∷ jobs) k h = ground (arith, k j, all-update_job id f jobs k)

-- A document that is deleted leaves a job well formed.
well_formed-unlinked :
    (id : Text) (job : ParseJobModel)
    → is_well_formed job ≡ true
    → is_well_formed (unlinked id job) ≡ true
unfolding is_well_formed_as
well_formed-unlinked id job h = elim (status_cases job.status) [
  | inl e ↦ ground (arith, e, h)
  | inr (inl e) ↦ ground (arith, e, h)
  | inr (inr (inl e)) ↦ ground (arith, e, h)
  | inr (inr (inr e)) ↦ ground (arith, e, h)
]

all-unlinked :
    (id : Text) (jobs : List ParseJobModel)
    → all is_well_formed jobs ≡ true
    → all is_well_formed (map (unlinked id) jobs) ≡ true
all-unlinked id [] h = refl
all-unlinked id (j ∷ jobs) h = ground (arith, h, well_formed-unlinked id j, all-unlinked id jobs)

changed :
    (id : Text) (f : ParseJobModel → ParseJobModel) (t : Tables)
    → ((job : ParseJobModel) → is_well_formed (f job) ≡ true)
    → is_consistent t ≡ true
    → is_consistent (set_job id f t) ≡ true
unfolding is_consistent
changed id f t k h = ground (arith, h, all-update_job id f t.parse_jobs k)

consistent-IsClosed : IsClosed is_consistent
unfolding is_consistent is_well_formed_as
consistent-IsClosed = record {
  add_user = λ u t n h. ground (arith, h, distinct-append t.users u n);
  add_key = λ k t h. h;
  remove_key = λ id t h. h;
  rename_key = λ id name t h. h;
  add_document = λ d t h. h;
  remove_document = λ id t h. ground (arith, h, all-unlinked id t.parse_jobs);
  add_job = λ id owner key filename content_type backend created updated t h. ground (
    arith,
    h,
    all-append t.parse_jobs (new_job id owner key filename content_type backend created updated),
  );
  start = λ job now t f q h. changed job.id (started now) t (λ job. refl) h;
  complete = λ id now document_id t h. changed id (completed now document_id) t (λ job. refl) h;
  fail = λ id now code message t h. changed id (marked_failed now code message) t (λ job. refl) h;
  fail_enqueue = λ id now t h. changed id (enqueue_failed now) t (λ job. refl) h;
}

-- Whatever sequence of requests and worker rounds the service runs through, and whichever storage
-- calls, queue calls and commits fail on the way, a consistent database stays consistent: no two
-- users have one email, a queued job has neither started nor finished nor an error nor a document, a
-- processing job has a start and no error, a succeeded job has an end and no error, and a failed job has
-- an error code and a message.
pub steps-is_consistent :
    {P : Platform} (L : Laws P) (S : Service) (events : List Event) (w : World P)
    → is_consistent (saved P w) ≡ true
    → is_consistent (saved P (steps P S events (rollback P w))) ≡ true
steps-is_consistent {P} L S events w h =
    steps-saved L is_consistent consistent-IsClosed S events w h
