-- ===== src/System/JobTests.antt =====
-- A test of the job of an id, over the changes that the operations make.
use document_agent_api.Common.{
  ℕ, Text, text_eq, text_eq_iff, Bool, true, false, ◌≡◌, refl, ap, subst, ◌∙◌, Option, none, some,
  List, [], ◌∷◌, ◌++◌, map, Bool-cases, inl, inr, arith,
}
use document_agent_api.Models.{Tables, ParseJobModel}
use document_agent_api.ParseJobs.Rows.{
  is_queued, update_job, set_job, new_job, job_of, started, completed, marked_failed,
  enqueue_failed,
}
use document_agent_api.ParseJobs.Starting.{job_of-update_job}
use document_agent_api.Documents.Deleting.{unlinked}
use document_agent_api.System.Changes.{IsClosed}

abbrev passes_as : (ParseJobModel → Bool) → Option ParseJobModel → Bool
passes_as q none = false
passes_as q (some job) = q job

-- The job of the id is there, and passes.
unfoldable pub passes : (ParseJobModel → Bool) → Text → Tables → Bool
passes q job_id t = passes_as q (job_of job_id t.parse_jobs)

-- No assignment to a job that passes makes it fail; only a queued job is started.
pub record IsKept (q : ParseJobModel → Bool) : Type 0 where
  pub start :
      (job : ParseJobModel) (now : ℕ)
      → is_queued job.status ≡ true
      → q job ≡ true
      → q (started now job) ≡ true
  pub complete :
      (job : ParseJobModel) (now : ℕ) (document_id : Text)
      → q job ≡ true
      → q (completed now document_id job) ≡ true
  pub fail :
      (job : ParseJobModel) (now : ℕ) (code message : Text)
      → q job ≡ true
      → q (marked_failed now code message job) ≡ true
  pub fail_enqueue :
      (job : ParseJobModel) (now : ℕ) → q job ≡ true → q (enqueue_failed now job) ≡ true
  pub unlink : (job : ParseJobModel) (id : Text) → q job ≡ true → q (unlinked id job) ≡ true

module _ (q : ParseJobModel → Bool) (job_id : Text) where
  passes-append :
      (jobs : List ParseJobModel) (job : ParseJobModel)
      → passes_as q (job_of job_id jobs) ≡ true
      → passes_as q (job_of job_id (jobs ++ job ∷ [])) ≡ true
  passes-append [] job h = absurd (ground arith)
  passes-append (j ∷ jobs) job h = ground (arith, passes-append jobs job)

  pub passes-update :
      (id : Text) (f : ParseJobModel → ParseJobModel) (jobs : List ParseJobModel)
      → ((job : ParseJobModel) → (f job).id ≡ job.id)
      → ((job : ParseJobModel) → q job ≡ true → q (f job) ≡ true)
      → passes_as q (job_of job_id jobs) ≡ true
      → passes_as q (job_of job_id (update_job id f jobs)) ≡ true
  unfolding update_job
  passes-update id f [] k p h = h
  passes-update id f (j ∷ jobs) k p h = ground (arith, k j, p j, passes-update id f jobs k p)

  passes-unlinked :
      (K : IsKept q) (id : Text) (jobs : List ParseJobModel)
      → passes_as q (job_of job_id jobs) ≡ true
      → passes_as q (job_of job_id (map (unlinked id) jobs)) ≡ true
  passes-unlinked K id [] h = h
  passes-unlinked K id (j ∷ jobs) h = ground (arith, K.unlink j id, passes-unlinked K id jobs)

  -- Assignments to the jobs of another id.
  job_of-other :
      (id : Text) (f : ParseJobModel → ParseJobModel) (jobs : List ParseJobModel)
      → ((job : ParseJobModel) → (f job).id ≡ job.id)
      → text_eq id job_id ≡ false
      → job_of job_id (update_job id f jobs) ≡ job_of job_id jobs
  unfolding update_job
  job_of-other id f [] k n = refl
  job_of-other id f (j ∷ jobs) k n =
      ground (arith, k j, text_eq_iff j.id id, text_eq_iff id job_id, job_of-other id f jobs k n)

  passes-started :
      (K : IsKept q) (job : ParseJobModel) (now : ℕ) (t : Tables)
      → job_of job.id t.parse_jobs ≡ some job
      → is_queued job.status ≡ true
      → passes q job_id t ≡ true
      → passes q job_id (set_job job.id (started now) t) ≡ true
  unfolding passes
  passes-started K job now t f s h = elim (Bool-cases (text_eq job.id job_id)) [
    | inr n ↦ ap (passes_as q) (job_of-other job.id (started now) t.parse_jobs (λ j. refl) n) ∙ h
    | inl e ↦
        let found : job_of job_id t.parse_jobs ≡ some job =
          subst (λ id. job_of id t.parse_jobs ≡ some job) ((text_eq_iff job.id job_id).0 e) f in
        ground (
          arith,
          found,
          h,
          K.start job now s,
          job_of-update_job job_id (started now) t.parse_jobs (λ j. refl),
          text_eq_iff job.id job_id,
          e,
        )
  ]

  pub passes-IsClosed : IsKept q → IsClosed (passes q job_id)
  unfolding passes
  passes-IsClosed K = record {
    add_user = λ u t n h. h;
    add_key = λ k t h. h;
    remove_key = λ id t h. h;
    rename_key = λ id name t h. h;
    add_document = λ d t h. h;
    remove_document = λ id t h. passes-unlinked K id t.parse_jobs h;
    add_job = λ id owner key filename content_type backend created updated t h.
        passes-append t.parse_jobs
          (new_job id owner key filename content_type backend created updated) h;
    start = λ job now t f s h. passes-started K job now t f s h;
    complete = λ id now document_id t h.
        passes-update id (completed now document_id) t.parse_jobs (λ j. refl)
          (λ j. K.complete j now document_id) h;
    fail = λ id now code message t h.
        passes-update id (marked_failed now code message) t.parse_jobs (λ j. refl)
          (λ j. K.fail j now code message) h;
    fail_enqueue = λ id now t h.
        passes-update id (enqueue_failed now) t.parse_jobs (λ j. refl) (λ j. K.fail_enqueue j now)
          h;
  }
