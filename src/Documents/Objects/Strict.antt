-- ===== src/Documents/Objects/Strict.antt =====
-- `_delete_objects_strict`, with each of its outcomes.
use document_agent_api.Common.{
  Text, true, ◌≡◌, refl, subst, none, List, [], Result, ok, err, All, Bool-cases, inl, inr, ◌⊎◌,
  Result-cases, List-cases, arith, Exn, runtime_error,
}
use document_agent_api.Platform.{Platform, World}
use document_agent_api.Platform.Lawful.{Laws}
use document_agent_api.Documents.Objects.{
  Backup, back_up, delete_each, restore_objects_best_effort, strict_message, restore_and_raise,
  delete_or_restore, delete_objects_strict,
}
use document_agent_api.Documents.Objects.Cleanup.{at, touched}
use document_agent_api.Documents.Objects.Restoring.{
  back_up-SameObjects, back_up-IsBackup, no_payload, delete_each-SameOutside, restore-SameObjects,
  delete_each-gone, delete_each-outside, IsBackup, SameObjects, SameOutside,
}

module _ {P : Platform} (L : Laws P) where
  -- What `_delete_objects_strict` promises of the storage, for each of its outcomes.
  abbrev pub Promise : List Text → World P → Result (Backup × List Text) × World P → Type 0
  Promise keys w (ok _, w') =
      All (λ k. at L w' k ≡ none) keys
      × ((j : Text) → (touched L keys j ≡ true) ⊎ (at L w' j ≡ at L w j))
  Promise keys w (err e, w') = (e ≡ runtime_error strict_message) ⊎ SameObjects L w w'

  -- Either the restoration is reported as failed, or it is full.
  pub restore_and_raise-SameObjects :
      {A : Type 0} (w0 : World P) (message : Text) (deleted : List Text) (backup : Backup) (x : Exn)
      (w : World P) (e : Exn) (w' : World P)
      → IsBackup L w0 backup
      → SameOutside L deleted w0 w
      → restore_and_raise P {A = A} message deleted backup x w ≡ (err e, w')
      → (e ≡ runtime_error message) ⊎ SameObjects L w0 w'
  unfolding restore_and_raise
  restore_and_raise-SameObjects w0 message deleted backup x w e' w' b s e =
      elim (List-cases (restore_objects_best_effort P deleted backup w).0) [
        | inl done ↦ inr (λ j. ground (arith, restore-SameObjects L w0 deleted backup w b s done j))
        | inr (y, ys, left) ↦ inl (ground arith)
      ]

  pub raised_not_ok :
      {A : Type 0} (message : Text) (deleted : List Text) (backup : Backup) (x : Exn) (w : World P)
      (a : A) (w' : World P)
      → restore_and_raise P message deleted backup x w ≡ (ok a, w')
      → ⊥
  unfolding restore_and_raise
  raised_not_ok message deleted backup x w a w' e =
      elim (List-cases (restore_objects_best_effort P deleted backup w).0) [
        | inl done ↦ ground arith
        | inr (y, ys, left) ↦ ground arith
      ]

  deleted_all :
      (keys : List Text) (backup : Backup) (w : World P) (out : Backup × List Text) (w' : World P)
      → delete_or_restore P keys backup w ≡ (ok out, w')
      → (delete_each P keys [] w ≡ (ok tt, out.1, w')) × (out.0 ≡ backup)
  unfolding delete_or_restore
  deleted_all keys backup w out w' h = elim (Result-cases (delete_each P keys [] w).0) [
    | inl (_, r) ↦ (ground arith, ground arith)
    | inr (x, r) ↦ absurd (
        raised_not_ok strict_message (delete_each P keys [] w).1 backup x
          (delete_each P keys [] w).2 out w' (ground arith))
  ]

  restored_all :
      (w0 : World P) (keys : List Text) (backup : Backup) (w : World P) (e : Exn) (w' : World P)
      → IsBackup L w0 backup
      → SameObjects L w0 w
      → delete_or_restore P keys backup w ≡ (err e, w')
      → (e ≡ runtime_error strict_message) ⊎ SameObjects L w0 w'
  unfolding delete_or_restore
  restored_all w0 keys backup w e w' b s h = elim (Result-cases (delete_each P keys [] w).0) [
    | inl (_, r) ↦ absurd (ground arith)
    | inr (x, r) ↦
        restore_and_raise-SameObjects {A = Backup × List Text} w0 strict_message
          (delete_each P keys [] w).1 backup x (delete_each P keys [] w).2 e w' b
          (delete_each-SameOutside L w0 keys [] w (λ j _. s j)) (ground arith)
  ]

  pub Promise-kept :
      (keys : List Text) (w : World P) (out : Result (Backup × List Text) × World P)
      → delete_objects_strict P keys w ≡ out
      → Promise keys w out
  unfolding delete_objects_strict
  Promise-kept keys w (ok (bk, ds), w') h = elim (Result-cases (back_up P keys [] w).0) [
    | inl (backup, r) ↦
        let w1 = (back_up P keys [] w).1 in
        let d : delete_each P keys [] w1 ≡ (ok tt, ds, w') =
          (deleted_all keys backup w1 (bk, ds) w' (ground arith)).0 in
        (
          delete_each-gone L keys [] w1 d,
          λ j. elim (Bool-cases (touched L keys j)) [
            | inl t ↦ inl t
            | inr t ↦ inr (
                ground
                  (arith, back_up-SameObjects L keys [] w j, delete_each-outside L keys [] w1 j t))
          ],
        )
    | inr (x, r) ↦ absurd (ground arith)
  ]
  Promise-kept keys w (err e, w') h = elim (Result-cases (back_up P keys [] w).0) [
    | inl (backup, r) ↦
        restored_all w keys backup (back_up P keys [] w).1 e w'
          (back_up-IsBackup L w keys [] backup w (λ j. refl)
            (λ k d. ground (arith, no_payload L k d)) r)
          (back_up-SameObjects L keys [] w) (ground arith)
    | inr (x, r) ↦ inr (λ j. ground (arith, back_up-SameObjects L keys [] w j))
  ]

  -- What a strict deletion that returned has established, for a later restoration.
  pub record Deleted (w : World P) (backup : Backup) (deleted : List Text) (w' : World P)
      : Type 0 where
    pub is_backup : IsBackup L w backup
    pub outside : SameOutside L deleted w w'

  pub Deleted-state :
      (keys : List Text) (w : World P) (backup : Backup) (deleted : List Text) (w' : World P)
      → delete_objects_strict P keys w ≡ (ok (backup, deleted), w')
      → Deleted w backup deleted w'
  unfolding delete_objects_strict
  Deleted-state keys w backup deleted w' h = elim (Result-cases (back_up P keys [] w).0) [
    | inl (b, r) ↦
        let w1 = (back_up P keys [] w).1 in
        let d = deleted_all keys b w1 (backup, deleted) w' (ground arith) in
        record {
          is_backup = rw d.1 (
              back_up-IsBackup L w keys [] b w (λ j. refl) (λ k x. ground (arith, no_payload L k x))
                r);
          outside =
              subst (λ (o : Result (Unit {0}) × List Text × World P). SameOutside L o.1 w o.2) d.0
                (delete_each-SameOutside L w keys [] w1 (λ j _. back_up-SameObjects L keys [] w j));
        }
    | inr (x, r) ↦ absurd (ground arith)
  ]

  -- `_delete_objects_strict` is all or nothing. If it returns, no object is left under its keys and
  -- the other objects are as they were; if it raises anything but the report that the rollback
  -- failed, every object is as it was.
  pub delete_objects_strict_atomic :
      (keys : List Text) (w : World P) → Promise keys w (delete_objects_strict P keys w)
  delete_objects_strict_atomic keys w = Promise-kept keys w _ refl
