-- ===== src/Documents/Creating/Undone.antt =====
-- The `try` block of a creation, and the clean-up after it.
use document_agent_api.Common.{
  Text, contains, true, ◌≡◌, refl, none, some, List, [], ◌∷◌, ok, err, Exn, ◌⊎◌, Result-cases,
  Bool-cases, subst, inl, inr, arith,
}
use document_agent_api.Models.{DocumentModel}
use document_agent_api.Platform.{Platform, World, rows, saved}
use document_agent_api.Platform.Lawful.{Laws}
use document_agent_api.Documents.Objects.{delete_objects_best_effort}
use document_agent_api.Documents.Objects.Cleanup.{
  at, touched, Accounted, best_effort-Accounted, best_effort-others,
}
use document_agent_api.Documents.Creating.{
  Upload, upload_all, new_document, add_document, stored_result, store_document,
}
use document_agent_api.Documents.Creating.Uploads.{
  upload_all-session, upload_keys, Torn, upload_all-others, upload_all-touched,
}

module _ {P : Platform} (L : Laws P) where
  open L.database use {
    working-modify, committed-modify, working-commit, committed-commit, working-rollback,
    committed-rollback,
  }

  gone_under :
      (w : World P) (keys : List Text) (j : Text)
      → Accounted L [] w keys
      → touched L keys j ≡ true
      → at L w j ≡ none
  unfolding contains
  gone_under w [] j h t = absurd (ground arith)
  gone_under w (k ∷ keys) j (h, hs) t = elim (Bool-cases (L.storage.same k j)) [
    | inl e ↦ ground (arith, L.storage.same-holds k j w.store e, h)
    | inr e ↦ gone_under w keys j hs (ground arith)
  ]

  -- Each object is as it was, or its key was one of these, and it is gone or its put raised `e`.
  abbrev pub KeptOrGone : List Text → Exn → World P → World P → Type 0
  KeptOrGone keys e w w' =
      (j : Text)
      → (at L w' j ≡ at L w j) ⊎ ((touched L keys j ≡ true) × ((at L w' j ≡ none) ⊎ Torn L e j))

  pub cleaned_up :
      (us : List Upload) (e : Exn) (w w1 w2 : World P) (uploaded : List Text)
      → (upload_all P us [] w).1 ≡ uploaded
      → (upload_all P us [] w).2.store ≡ w1.store
      → ((x : Exn) → (upload_all P us [] w).0 ≡ err x → x ≡ e)
      → delete_objects_best_effort P uploaded 3 w1 ≡ ([], w2)
      → KeptOrGone (upload_keys L us) e w w2
  cleaned_up us e w w1 w2 uploaded u s x d j = elim (Bool-cases (touched L uploaded j)) [
    | inl t ↦ inr (
      ground (arith, upload_all-touched L us [] w j),
      inl (
          gone_under w2 uploaded j
            (subst (λ o. Accounted L o.0 o.1 uploaded) d (best_effort-Accounted L uploaded 3 w1))
            t),
    )
    | inr t ↦
        let others = best_effort-others L uploaded 3 w1 j t in
        elim (upload_all-others L w us [] w (λ i _. refl) j (ground arith)) [
          | inl h ↦ inl (ground (arith, others, h))
          | inr (y, r, h, torn) ↦ inr (h, inr (subst (λ z. Torn L z j) (x y r) torn))
        ]
  ]

  -- A `try` block that raises leaves the uploads, and a database that a rollback finds as it was.
  pub store_failed :
      (us : List Upload) (document_id owner filename content_type key : Text) (w : World P)
      (e : Exn) (uploaded : List Text) (w1 : World P)
      → store_document P us document_id owner filename content_type key w ≡ (err e, uploaded, w1)
      → ((upload_all P us [] w).1 ≡ uploaded)
        × ((upload_all P us [] w).2.store ≡ w1.store)
        × (saved P w1 ≡ saved P w)
        × ((x : Exn) → (upload_all P us [] w).0 ≡ err x → x ≡ e)
  unfolding store_document
  store_failed us document_id owner filename content_type key w e uploaded w1 h =
      let w0 = (upload_all P us [] w).2 in
      let made =
        new_document P document_id owner filename content_type (some key) none
          (stored_result document_id) w0 in
      let s = P.database.modify (add_document made.0) w0.session in
      elim (Result-cases (upload_all P us [] w).0) [
        | inr (x, r) ↦ (
          ground arith,
          ground arith,
          ground (arith, upload_all-session L us [] w),
          λ y k. ground arith,
        )
        | inl (_, r) ↦ elim (Result-cases (P.database.commit s).0) [
          | inl (_, c) ↦ absurd (ground arith)
          | inr (x, c) ↦ (
            ground arith,
            ground arith,
            ground (
              arith,
              upload_all-session L us [] w,
              committed-commit s,
              committed-modify (add_document made.0) w0.session,
            ),
            λ y k. absurd (ground arith),
          )
        ]
      ]

  pub store_saved :
      (us : List Upload) (document_id owner filename content_type key : Text) (w : World P)
      (document : DocumentModel) (uploaded : List Text) (w1 : World P)
      → store_document P us document_id owner filename content_type key w
        ≡ (ok document, uploaded, w1)
      → (saved P w1 ≡ add_document document (rows P w))
        × (document.id ≡ document_id)
        × (document.owner_user_id ≡ some owner)
        × (document.source_object_key ≡ some key)
        × (rows P w1 ≡ add_document document (rows P w))
        × (document.result ≡ some (stored_result document_id))
        × (w1.store ≡ (upload_all P us [] w).2.store)
        × ((upload_all P us [] w).0 ≡ ok tt)
        × (document.filename ≡ filename)
        × (document.content_type ≡ content_type)
        × (document.file_data ≡ none)
  unfolding store_document
  store_saved us document_id owner filename content_type key w document uploaded w1 h =
      let w0 = (upload_all P us [] w).2 in
      let made =
        new_document P document_id owner filename content_type (some key) none
          (stored_result document_id) w0 in
      let s = P.database.modify (add_document made.0) w0.session in
      elim (Result-cases (upload_all P us [] w).0) [
        | inr (x, r) ↦ absurd (ground arith)
        | inl (_, r) ↦ elim (Result-cases (P.database.commit s).0) [
          | inr (x, c) ↦ absurd (ground arith)
          | inl (_, c) ↦ (
            ground (
              arith,
              upload_all-session L us [] w,
              committed-commit s,
              working-modify (add_document made.0) w0.session,
            ),
            ground arith,
            ground arith,
            ground arith,
            ground (
              arith,
              upload_all-session L us [] w,
              working-commit s,
              working-modify (add_document made.0) w0.session,
            ),
            ground arith,
            ground arith,
            r,
            ground arith,
            ground arith,
            ground arith,
          )
        ]
      ]
