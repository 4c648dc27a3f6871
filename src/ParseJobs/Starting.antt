-- ===== src/ParseJobs/Starting.antt =====
-- `start_job`, with each of its outcomes.
use document_agent_api.Common.{
  map, if◌then◌else◌, ℕ, suc, Text, text_eq, text_eq_iff, true, false, ◌≡◌, refl, Option, none,
  some, List, [], ◌∷◌, Result, ok, err, Bool-cases, Option-cases, Result-cases, inl, inr, arith,
}
use document_agent_api.Models.{
  Tables, ParseJobModel, JobStatus, queued, processing, succeeded, failed,
}
use document_agent_api.Platform.{Platform, World, rows, saved, modify, commit}
use document_agent_api.Platform.Lawful.{Laws}
use document_agent_api.ParserBackends.{normalize_parser_backend}
use document_agent_api.ParseJobs.{ParseJobWorkItem, work_item, start_found, start_job}
use document_agent_api.ParseJobs.Rows.{is_queued, update_job, set_job, job_of, started}

-- The lookup after assignments that keep the id.
pub job_of-update_job :
    (id : Text) (f : ParseJobModel → ParseJobModel) (jobs : List ParseJobModel)
    → ((job : ParseJobModel) → (f job).id ≡ job.id)
    → job_of id (update_job id f jobs)
      ≡ (elim (job_of id jobs) [ none ↦ none | some job ↦ some (f job) ])
unfolding update_job
job_of-update_job id f [] h = refl
job_of-update_job id f (job ∷ jobs) h = elim (Bool-cases (text_eq job.id id)) [
  | inl e ↦ ground (arith, h job)
  | inr e ↦ ground (arith, job_of-update_job id f jobs h)
]

-- The assignments, as a map over the rows.
pub update_job-map :
    (id : Text) (f : ParseJobModel → ParseJobModel) (jobs : List ParseJobModel)
    → update_job id f jobs ≡ map (λ (j : ParseJobModel). if text_eq j.id id then f j else j) jobs
unfolding update_job
update_job-map id f [] = refl
update_job-map id f (job ∷ jobs) = ground (arith, update_job-map id f jobs)

pub job_of-id :
    (id : Text) (jobs : List ParseJobModel) (job : ParseJobModel)
    → job_of id jobs ≡ some job
    → text_eq job.id id ≡ true
job_of-id id [] job h = absurd (ground arith)
job_of-id id (j ∷ jobs) job h = elim (Bool-cases (text_eq j.id id)) [
  | inl e ↦ ground arith
  | inr e ↦ job_of-id id jobs job (ground arith)
]

is_queued_iff : (s : JobStatus) → is_queued s ≡ true → s ≡ queued
is_queued_iff queued h = refl
is_queued_iff processing h = absurd (ground arith)
is_queued_iff succeeded h = absurd (ground arith)
is_queued_iff failed h = absurd (ground arith)

module _ {P : Platform} (L : Laws P) where
  -- `start_job` for a job that is not queued changes nothing and gives nothing.
  pub not_queued :
      (job_id : Text) (w : World P) (job : ParseJobModel)
      → job_of job_id (rows P w).parse_jobs ≡ some job
      → is_queued job.status ≡ false
      → start_job P job_id w ≡ (ok none, w)
  unfolding start_job start_found
  not_queued job_id w job f q = elim (Option-cases job.owner_user_id) [
    | inl o ↦ ground arith
    | inr (owner, o) ↦ ground arith
  ]

  -- The outcomes of `start_job`. Where it gives a work item, the job was queued and has an owner,
  -- the item names the job's source object, the database has the job as processing from now on,
  -- and starting the job again gives nothing and changes nothing. Where it gives none, nothing
  -- was changed.
  abbrev pub Outcome :
      (job_id : Text) (w : World P) → Result (Option ParseJobWorkItem) × World P → Type 0
  Outcome job_id w (ok none, w') = w' ≡ w
  Outcome job_id w (ok (some item), w') =
      (job : ParseJobModel) × (job_of job_id (rows P w).parse_jobs ≡ some job)
      × (job.status ≡ queued)
      × (job.owner_user_id ≡ some item.owner_user_id)
      × (item.source_object_key ≡ job.source_object_key)
      × (saved P w' ≡ set_job job.id (started (P.utcnow w.draws)) (rows P w))
      × (start_job P job_id w' ≡ (ok none, w'))
  Outcome job_id w (err e, w') = Unit

  open L.database use {working-modify, committed-modify, working-commit, committed-commit}

  pub saved_commit :
      (w : World P) (f : Tables → Tables) (r : (commit P (modify P f w)).0 ≡ ok tt)
      → (rows P (commit P (modify P f w)).1 ≡ f (rows P w))
        × (saved P (commit P (modify P f w)).1 ≡ f (rows P w))
  saved_commit w f r =
      let s = P.database.modify f w.session in
      (
        ground (arith, working-commit s, working-modify f w.session),
        ground (arith, committed-commit s, working-modify f w.session),
      )

  started_again :
      (job_id : Text) (w w' : World P) (job : ParseJobModel) (now : ℕ)
      → job_of job_id (rows P w).parse_jobs ≡ some job
      → rows P w' ≡ set_job job.id (started now) (rows P w)
      → start_job P job_id w' ≡ (ok none, w')
  started_again job_id w w' job now f r =
      not_queued job_id w' (started now job)
        (ground (
          arith,
          r,
          f,
          text_eq_iff job.id job_id,
          job_of-id job_id (rows P w).parse_jobs job f,
          job_of-update_job job.id (started now) (rows P w).parse_jobs (λ j. refl),
        ))
        refl

  found-Outcome :
      (job_id : Text) (w : World P) (job : ParseJobModel) (item : ParseJobWorkItem) (w' : World P)
      → job_of job_id (rows P w).parse_jobs ≡ some job
      → start_job P job_id w ≡ (ok (some item), w')
      → Outcome job_id w (ok (some item), w')
  unfolding start_job start_found work_item
  found-Outcome job_id w job item w' f h = elim (Option-cases job.owner_user_id) [
    | inl o ↦ absurd (ground arith)
    | inr (owner, o) ↦
        let change = set_job job.id (started (P.utcnow w.draws)) in
        let w1 : World P = record w { draws = suc w.draws } in
        let w2 = (commit P (modify P change w1)).1 in
        elim (Bool-cases (is_queued job.status)) [
          | inr q ↦ absurd (ground arith)
          | inl q ↦ elim (Result-cases (P.database.commit (P.database.modify change w.session)).0) [
            | inr (e, c) ↦ absurd (ground arith)
            | inl (_, c) ↦
                elim (Result-cases (normalize_parser_backend P.unicode_lower job.parser_backend)) [
                  | inr (e, n) ↦ absurd (ground arith)
                  | inl (backend, n) ↦
                      let done = saved_commit w1 change c in
                      (
                        job,
                        f,
                        is_queued_iff job.status q,
                        ground arith,
                        ground arith,
                        ground (arith, done),
                        started_again job_id w w' job (P.utcnow w.draws) f (ground (arith, done)),
                      )
                ]
          ]
        ]
  ]

  start_kept :
      (job_id : Text) (w : World P) (out : Result (Option ParseJobWorkItem) × World P)
      → start_job P job_id w ≡ out
      → Outcome job_id w out
  unfolding start_job start_found work_item
  start_kept job_id w (err e, w') h = tt
  start_kept job_id w (ok (some item), w') h =
      elim (Option-cases (job_of job_id (rows P w).parse_jobs)) [
        | inl f ↦ absurd (ground arith)
        | inr (job, f) ↦ found-Outcome job_id w job item w' f h
      ]
  start_kept job_id w (ok none, w') h = elim (Option-cases (job_of job_id (rows P w).parse_jobs)) [
    | inl f ↦ ground arith
    | inr (job, f) ↦ elim (Option-cases job.owner_user_id) [
      | inl o ↦ ground arith
      | inr (owner, o) ↦ elim (Bool-cases (is_queued job.status)) [
        | inr q ↦ ground arith
        | inl q ↦
            let change = set_job job.id (started (P.utcnow w.draws)) in
            elim (Result-cases (P.database.commit (P.database.modify change w.session)).0) [
              | inr (e, c) ↦ absurd (ground arith)
              | inl (_, c) ↦
                  elim (Result-cases
                    (normalize_parser_backend P.unicode_lower job.parser_backend)) [
                      | inr (e, n) ↦ absurd (ground arith)
                      | inl (backend, n) ↦ absurd (ground arith)
                    ]
            ]
      ]
    ]
  ]

  -- `start_job` starts a job once. Where it gives a work item, the job of that id was queued and has
  -- the item's owner, the item names its source object, the database has the job as processing, and
  -- starting it again gives nothing and changes nothing. Where it gives no item, nothing was changed.
  pub start_job_once : (job_id : Text) (w : World P) → Outcome job_id w (start_job P job_id w)
  start_job_once job_id w = start_kept job_id w _ refl
