-- ===== src/System/Sessions.antt =====
-- What each operation does to its session, seen through any test of the tables.
use document_agent_api.Common.{Exec, Result, ok, err, ◌>>=◌, Bool, true, ◌≡◌, arith}
use document_agent_api.Models.{Tables}
use document_agent_api.Platform.{Platform, World, rows, saved, modify, commit, rollback}
use document_agent_api.Platform.Lawful.{Laws}

module _ {P : Platform} (L : Laws P) (c : Tables → Bool) where
  open L.database use {
    working-modify, committed-modify, working-commit, committed-commit, working-rollback,
    committed-rollback,
  }

  -- The test holds of what the session reads and of what the database holds.
  abbrev pub IsGood : World P → Type 0
  IsGood w = (c (rows P w) ≡ true) × (c (saved P w) ≡ true)

  -- An operation keeps the test, whether it returns or raises.
  abbrev pub Keeps : {A : Type 0} → Exec (World P) A → Type 0
  Keeps m = (w : World P) → IsGood w → IsGood (m w).1

  pub IsGood-same : (w w' : World P) → w'.session ≡ w.session → IsGood w → IsGood w'
  IsGood-same w w' e h = (ground (arith, e, h), ground (arith, e, h))

  pub IsGood-modify :
      (f : Tables → Tables) (w : World P)
      → c (f (rows P w)) ≡ true
      → IsGood w
      → IsGood (modify P f w)
  IsGood-modify f w k h =
      (ground (arith, working-modify f w.session), ground (arith, committed-modify f w.session, h))

  pub IsGood-commit : (w : World P) → IsGood w → IsGood (commit P w).1
  IsGood-commit w h =
      (ground (arith, working-commit w.session, h), ground (arith, committed-commit w.session, h))

  -- A change that the test survives, and its commit.
  pub IsGood-change :
      (f : Tables → Tables) (w : World P)
      → c (f (rows P w)) ≡ true
      → IsGood w
      → IsGood (commit P (modify P f w)).1
  IsGood-change f w k h = IsGood-commit (modify P f w) (IsGood-modify f w k h)

  pub IsGood-rollback : (w : World P) → IsGood w → IsGood (rollback P w)
  IsGood-rollback w h = (
    ground (arith, working-rollback w.session, h),
    ground (arith, committed-rollback w.session, h),
  )

  -- One operation after another.
  pub Keeps->>= :
      {A B : Type 0} (m : Exec (World P) A) (f : A → Exec (World P) B)
      → Keeps m
      → ((a : A) → Keeps (f a))
      → Keeps (m >>= f)
  Keeps->>= {A} {B} m f h k w g = after (m w).0 (m w).1 (h w g)
    where
      after :
          (r : Result A) (w' : World P)
          → IsGood w'
          → IsGood (elim r as (λ _. Result B × World P) [ ok a ↦ f a w' | err e ↦ (err e, w') ]).1
      after (ok a) w' g' = k a w' g'
      after (err e) w' g' = g'
