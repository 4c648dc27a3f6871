-- ===== src/Documents/Objects/Cleanup.antt =====
-- `_delete_objects_best_effort`, and what lies in the storage after it.
use document_agent_api.Common.{
  ℕ, zero, suc, Text, Bytes, text_eq_refl, contains, Bool, true, false, ◌&&◌, ◌≡◌, refl, ◌∙◌,
  Option, none, List, [], ◌∷◌, All, any, Bool-cases, inl, inr, ◌⊎◌, arith, if◌then◌else◌,
}
use document_agent_api.Platform.{Platform, World, delete_object}
use document_agent_api.Platform.Lawful.{Laws}
use document_agent_api.Documents.Objects.{try_delete, delete_objects_best_effort}

module _ {P : Platform} (L : Laws P) where
  -- What lies under a key.
  abbrev pub at : World P → Text → Option Bytes
  at w k = L.storage.holds w.store k

  -- One of the keys names the object of `j`.
  abbrev pub touched : List Text → Text → Bool
  touched keys j = any (λ k. L.storage.same k j) keys

  try_delete-holds :
      (n : ℕ) (key : Text) (w : World P) (j : Text)
      → at (try_delete P n key w).1 j
        ≡ (if (try_delete P n key w).0 && L.storage.same key j then none else at w j)
  unfolding try_delete
  try_delete-holds zero key w j = refl
  try_delete-holds (suc n) key w j = ground (
    arith,
    L.storage.delete-holds key w.store j,
    try_delete-holds n key (delete_object P key w).1 j,
  )

  pub try_delete-session :
      (n : ℕ) (key : Text) (w : World P) → (try_delete P n key w).1.session ≡ w.session
  unfolding try_delete
  try_delete-session zero key w = refl
  try_delete-session (suc n) key w =
      ground (arith, try_delete-session n key (delete_object P key w).1)

  -- What no key names stays.
  pub best_effort-others :
      (keys : List Text) (n : ℕ) (w : World P) (j : Text)
      → touched keys j ≡ false
      → at (delete_objects_best_effort P keys n w).1 j ≡ at w j
  unfolding delete_objects_best_effort
  best_effort-others [] n w j h = refl
  best_effort-others (k ∷ keys) n w j h =
      ground (arith, try_delete-holds n k w j, best_effort-others keys n (try_delete P n k w).1 j)

  -- What is gone stays gone.
  best_effort-gone :
      (keys : List Text) (n : ℕ) (w : World P) (j : Text)
      → at w j ≡ none
      → at (delete_objects_best_effort P keys n w).1 j ≡ none
  unfolding delete_objects_best_effort
  best_effort-gone [] n w j h = h
  best_effort-gone (k ∷ keys) n w j h =
      ground (arith, try_delete-holds n k w j, best_effort-gone keys n (try_delete P n k w).1 j)

  pub best_effort-session :
      (keys : List Text) (n : ℕ) (w : World P)
      → (delete_objects_best_effort P keys n w).1.session ≡ w.session
  unfolding delete_objects_best_effort
  best_effort-session [] n w = refl
  best_effort-session (k ∷ keys) n w =
      best_effort-session keys n (try_delete P n k w).1 ∙ try_delete-session n k w

  -- Each key is reported or gone.
  abbrev pub Accounted : List Text → World P → List Text → Type 0
  Accounted failed w keys = All (λ k. (contains k failed ≡ true) ⊎ (at w k ≡ none)) keys

  Accounted-cons :
      (key : Text) (failed : List Text) (w : World P) (keys : List Text)
      → Accounted failed w keys
      → Accounted (key ∷ failed) w keys
  unfolding contains
  Accounted-cons key failed w [] h = tt
  Accounted-cons key failed w (k ∷ keys) (h, hs) =
      (ground arith, Accounted-cons key failed w keys hs)

  Accounted-step :
      (deleted : Bool) (failed : List Text) (w : World P) (key : Text) (keys : List Text)
      → (deleted ≡ true → at w key ≡ none)
      → Accounted failed w keys
      → Accounted (if deleted then failed else key ∷ failed) w (key ∷ keys)
  unfolding contains
  Accounted-step true failed w key keys gone h = (inr (gone refl), h)
  Accounted-step false failed w key keys gone h =
      (inl (rw text_eq_refl refl), Accounted-cons key failed w keys h)

  pub best_effort-Accounted :
      (keys : List Text) (n : ℕ) (w : World P)
      → let (failed, w') = delete_objects_best_effort P keys n w in Accounted failed w' keys
  unfolding delete_objects_best_effort
  best_effort-Accounted [] n w = tt
  best_effort-Accounted (k ∷ keys) n w =
      let w1 = (try_delete P n k w).1 in
      Accounted-step (try_delete P n k w).0 _ (delete_objects_best_effort P keys n w1).1 k keys
        (λ e.
          best_effort-gone keys n w1 k
            (ground (arith, try_delete-holds n k w k, L.storage.same_refl k)))
        (best_effort-Accounted keys n w1)

  -- After a best-effort deletion each of the keys is either reported as failed or its object is
  -- gone, and the objects that no key names are as they were.
  pub best_effort_lem :
      (keys : List Text) (n : ℕ) (w : World P)
      → let (failed, w') = delete_objects_best_effort P keys n w in
        Accounted failed w' keys × ((j : Text) → (touched keys j ≡ true) ⊎ (at w' j ≡ at w j))
  best_effort_lem keys n w = (
    best_effort-Accounted keys n w,
    λ j. elim (Bool-cases (touched keys j)) [
      | inl t ↦ inl t
      | inr t ↦ inr (best_effort-others keys n w j t)
    ],
  )
