-- ===== src/Documents/Objects/Sessions.antt =====
-- The object helpers and the session.
use document_agent_api.Common.{
  Text, ◌≡◌, refl, List, [], ◌∷◌, ◌++◌, Exn, Result-cases, Option-cases, List-cases, inl, inr,
  arith,
}
use document_agent_api.Platform.{Platform, World, put_bytes, get_bytes, delete_object}
use document_agent_api.Documents.Objects.{
  Backup, payload_of, content_type_for_key, back_up, delete_each, restore_objects_best_effort,
  restore_and_raise, delete_or_restore, delete_objects_strict, strict_message,
}

module _ (P : Platform) where
  back_up-session :
      (keys : List Text) (backup : Backup) (w : World P)
      → (back_up P keys backup w).1.session ≡ w.session
  unfolding back_up
  back_up-session [] backup w = refl
  back_up-session (k ∷ keys) backup w = elim (Result-cases (P.storage.get_bytes k w.store).0) [
    | inl (d, e) ↦ ground (arith, back_up-session keys ((k, d) ∷ backup) (get_bytes P k w).1)
    | inr (x, e) ↦ ground (arith, back_up-session keys backup (get_bytes P k w).1)
  ]

  delete_each-session :
      (keys deleted : List Text) (w : World P)
      → (delete_each P keys deleted w).2.session ≡ w.session
  unfolding delete_each
  delete_each-session [] deleted w = refl
  delete_each-session (k ∷ keys) deleted w = ground (
    arith,
    delete_each-session keys (deleted ++ k ∷ []) (delete_object P k w).1,
    delete_each-session keys deleted (delete_object P k w).1,
  )

  restore-session :
      (keys : List Text) (backup : Backup) (w : World P)
      → (restore_objects_best_effort P keys backup w).1.session ≡ w.session
  unfolding restore_objects_best_effort
  restore-session [] backup w = refl
  restore-session (k ∷ keys) backup w = elim (Option-cases (payload_of k backup)) [
    | inl e ↦ ground (arith, restore-session keys backup w)
    | inr (d, e) ↦
        ground (arith, restore-session keys backup (put_bytes P k d (content_type_for_key k) w).1)
  ]

  pub restore_and_raise-session :
      (A : Type 0) (message : Text) (deleted : List Text) (backup : Backup) (x : Exn) (w : World P)
      → (restore_and_raise P {A = A} message deleted backup x w).1.session ≡ w.session
  unfolding restore_and_raise
  restore_and_raise-session A message deleted backup x w =
      elim (List-cases (restore_objects_best_effort P deleted backup w).0) [
        | inl e ↦ ground (arith, restore-session deleted backup w)
        | inr (y, ys, e) ↦ ground (arith, restore-session deleted backup w)
      ]

  delete_or_restore-session :
      (keys : List Text) (backup : Backup) (w : World P)
      → (delete_or_restore P keys backup w).1.session ≡ w.session
  unfolding delete_or_restore
  delete_or_restore-session keys backup w = elim (Result-cases (delete_each P keys [] w).0) [
    | inl (_, e) ↦ ground (arith, delete_each-session keys [] w)
    | inr (x, e) ↦ ground (
      arith,
      delete_each-session keys [] w,
      restore_and_raise-session (Backup × List Text) strict_message (delete_each P keys [] w).1
          backup x (delete_each P keys [] w).2,
    )
  ]

  pub strict-session :
      (keys : List Text) (w : World P) → (delete_objects_strict P keys w).1.session ≡ w.session
  unfolding delete_objects_strict
  strict-session keys w = elim (Result-cases (back_up P keys [] w).0) [
    | inl (b, e) ↦
        ground (
          arith,
          back_up-session keys [] w,
          delete_or_restore-session keys b (back_up P keys [] w).1,
        )
    | inr (x, e) ↦ ground (arith, back_up-session keys [] w)
  ]
