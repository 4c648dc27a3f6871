-- ===== src/Documents/Deleting/Atomic.antt =====
-- `delete_document` over the database and the storage together.
use document_agent_api.Common.{
  Text, true, ◌≡◌, refl, ◌∙◌, ap, none, some, List, [], ◌∷◌, Result, ok, err, Exn, runtime_error,
  Result-cases, Option-cases, Bool-cases, inl, inr, ◌⊎◌, find, All, arith, keep, map, not, text_eq,
  text_eq_iff, Option, subst, sym, ◌≢◌,
}
use document_agent_api.Models.{DocumentModel, ParseJobModel, Tables}
use document_agent_api.Platform.{Platform, World, rows, saved, modify, commit, rollback}
use document_agent_api.Platform.Lawful.{Laws}
use document_agent_api.Documents.Objects.{
  Backup, collect_object_keys, delete_objects_strict, strict_message,
}
use document_agent_api.Documents.Objects.Cleanup.{at, touched}
use document_agent_api.Documents.Objects.Restoring.{SameObjects, SameOutside, IsBackup}
use document_agent_api.Documents.Objects.Strict.{
  restore_and_raise-SameObjects, raised_not_ok, Deleted-state, Promise-kept,
}
use document_agent_api.Documents.Objects.Sessions.{restore_and_raise-session, strict-session}
use document_agent_api.Documents.Reading.{is_owned}
use document_agent_api.Documents.Deleting.{
  without_document, unlinked, remove_document, rollback_message, commit_removal, delete_document,
}

unlinked_lem : (id : Text) (o : Option Text) → without_document id o ≢ some id
unlinked_lem id none h = absurd (ground arith)
unlinked_lem id (some d) h = elim (Bool-cases (text_eq d id)) [
  | inl e ↦ absurd (ground arith)
  | inr n ↦ absurd (ground (arith, text_eq_iff d id))
]

module _ {P : Platform} (L : Laws P) where
  open L.database use {
    working-modify, committed-modify, working-commit, committed-commit, working-rollback,
    committed-rollback,
  }

  -- What `delete_document` promises, for each of its outcomes.
  abbrev pub Promise : Text → Text → World P → Result (Unit {0}) × World P → Type 0
  Promise document_id owner w (ok _, w') =
      (document : DocumentModel) × (find (is_owned document_id owner) (rows P w).documents
        ≡ some document)
      × (saved P w' ≡ record (rows P w) {
        documents = keep (λ d. not (text_eq d.id document.id)) (rows P w).documents;
        parse_jobs =
            map {A = ParseJobModel} {B = ParseJobModel}
              (λ (job : ParseJobModel). record job {
                document_id = without_document document.id job.document_id;
              })
              (rows P w).parse_jobs;
      })
      × All (λ (job : ParseJobModel). job.document_id ≢ some document.id) (saved P w').parse_jobs
      × All (λ k. at L w' k ≡ none) (collect_object_keys document)
      × ((j : Text) → (touched L (collect_object_keys document) j ≡ true) ⊎ (at L w' j ≡ at L w j))
  Promise document_id owner w (err e, w') =
      (e ≡ runtime_error strict_message)
      ⊎ (e ≡ runtime_error rollback_message)
      ⊎ ((saved P w' ≡ saved P w) × SameObjects L w w')

  All-at :
      (w w' : World P) (keys : List Text)
      → ((j : Text) → at L w' j ≡ at L w j)
      → All (λ k. at L w k ≡ none) keys
      → All (λ k. at L w' k ≡ none) keys
  All-at w w' [] s h = tt
  All-at w w' (k ∷ keys) s (h, hs) = (s k ∙ h, All-at w w' keys s hs)

  no_job_refers :
      (id : Text) (jobs : List ParseJobModel)
      → All (λ (job : ParseJobModel). job.document_id ≢ some id) (map (unlinked id) jobs)
  no_job_refers id [] = tt
  no_job_refers id (j ∷ jobs) = (unlinked_lem id j.document_id, no_job_refers id jobs)

  same_session :
      (w w' : World P) → w'.session ≡ w.session → (rows P w' ≡ rows P w) × (saved P w' ≡ saved P w)
  same_session w w' e = (ap P.database.working e, ap P.database.committed e)

  committed_removal :
      (document : DocumentModel) (backup : Backup) (deleted : List Text) (w w' : World P)
      → commit_removal P document (backup, deleted) w ≡ (ok tt, w')
      → (saved P w' ≡ remove_document document.id (rows P w)) × ((j : Text) → at L w' j ≡ at L w j)
  unfolding commit_removal
  committed_removal document backup deleted w w' h =
      let s = P.database.modify (remove_document document.id) w.session in
      elim (Result-cases (P.database.commit s).0) [
        | inl (_, r) ↦ (
          ground
              (arith, committed-commit s, working-modify (remove_document document.id) w.session),
          λ j. ground arith,
        )
        | inr (x, r) ↦ absurd (
            raised_not_ok L {A = Unit {0}} rollback_message deleted backup x
              (rollback P (commit P (modify P (remove_document document.id) w)).1) tt w'
              (ground arith))
      ]

  undone_removal :
      (document : DocumentModel) (w0 : World P) (backup : Backup) (deleted : List Text)
      (w : World P) (e : Exn) (w' : World P)
      → IsBackup L w0 backup
      → SameOutside L deleted w0 w
      → commit_removal P document (backup, deleted) w ≡ (err e, w')
      → (e ≡ runtime_error rollback_message) ⊎ ((saved P w' ≡ saved P w) × SameObjects L w0 w')
  unfolding commit_removal
  undone_removal document w0 backup deleted w e w' b s h =
      let t = P.database.modify (remove_document document.id) w.session in
      let w1 = rollback P (commit P (modify P (remove_document document.id) w)).1 in
      elim (Result-cases (P.database.commit t).0) [
        | inl (_, r) ↦ absurd (ground arith)
        | inr (x, r) ↦
            elim (restore_and_raise-SameObjects L {A = Unit {0}} w0 rollback_message deleted backup
              x w1 e w' b s (ground arith)) [
                | inl reported ↦ inl reported
                | inr same ↦ inr (
                  ground (
                    arith,
                    committed-commit t,
                    committed-modify (remove_document document.id) w.session,
                    committed-rollback (P.database.commit t).1,
                    restore_and_raise-session P Unit rollback_message deleted backup x w1,
                  ),
                  same,
                )
              ]
      ]

  -- The two outcomes for a document that was found.
  deleted_found :
      (document_id owner : Text) (w : World P) (document : DocumentModel) (w' : World P)
      → find (is_owned document_id owner) (rows P w).documents ≡ some document
      → delete_document P document_id owner w ≡ (ok tt, w')
      → Promise document_id owner w (ok tt, w')
  unfolding delete_document
  deleted_found document_id owner w document w' f h =
      let keys = collect_object_keys document in
      let w1 = (delete_objects_strict P keys w).1 in
      elim (Result-cases (delete_objects_strict P keys w).0) [
        | inl ((backup, deleted), r) ↦
            let strict = Promise-kept L keys w (ok (backup, deleted), w1) (ground arith) in
            let removed = committed_removal document backup deleted w1 w' (ground arith) in
            (
              document,
              f,
              ground (arith, removed.0, same_session w w1 (strict-session P keys w)),
              subst
                  (λ (jobs : List ParseJobModel).
                    All (λ (job : ParseJobModel). job.document_id ≢ some document.id) jobs)
                  (sym (ap (λ (t : Tables). t.parse_jobs) removed.0))
                  (no_job_refers document.id (rows P w1).parse_jobs),
              All-at w1 w' keys removed.1 strict.0,
              λ j. elim (strict.1 j) [ inl t ↦ inl t | inr kept ↦ inr (removed.1 j ∙ kept) ],
            )
        | inr (x, r) ↦ absurd (ground arith)
      ]

  delete_kept :
      (document_id owner : Text) (w : World P) (out : Result (Unit {0}) × World P)
      → delete_document P document_id owner w ≡ out
      → Promise document_id owner w out
  unfolding delete_document
  delete_kept document_id owner w (ok u, w') h =
      elim (Option-cases (find (is_owned document_id owner) (rows P w).documents)) [
        | inl f ↦ absurd (ground arith)
        | inr (document, f) ↦ deleted_found document_id owner w document w' f h
      ]
  delete_kept document_id owner w (err e, w') h =
      elim (Option-cases (find (is_owned document_id owner) (rows P w).documents)) [
        | inl f ↦ inr (inr (ground arith, λ j. ground arith))
        | inr (document, f) ↦
            let keys = collect_object_keys document in
            let w1 = (delete_objects_strict P keys w).1 in
            let same = same_session w w1 (strict-session P keys w) in
            elim (Result-cases (delete_objects_strict P keys w).0) [
              | inl ((backup, deleted), r) ↦
                  let state = Deleted-state L keys w backup deleted w1 (ground arith) in
                  let undone =
                    undone_removal document w backup deleted w1 e w' state.is_backup state.outside
                      (ground arith) in
                  elim undone [
                    | inl reported ↦ inr (inl reported)
                    | inr (kept, objects) ↦ inr (inr (kept ∙ same.1, objects))
                  ]
              | inr (x, r) ↦ elim (Promise-kept L keys w (err e, w1) (ground arith)) [
                | inl reported ↦ inl reported
                | inr strict ↦ inr (inr (ground (arith, same), λ j. ground (arith, strict j)))
              ]
            ]
      ]

  -- `delete_document` is all or nothing over the database and the storage. If it returns, a document
  -- of the owner was found, the database is what the session had read without the documents of
  -- that id, its jobs no longer refer to that document and are otherwise the same, no object is left under the document's keys, and other objects are as they were. If it raises
  -- anything but the two reports that a rollback failed, the database and every object are as they
  -- were.
  pub delete_document_atomic :
      (document_id owner : Text) (w : World P)
      → Promise document_id owner w (delete_document P document_id owner w)
  delete_document_atomic document_id owner w = delete_kept document_id owner w _ refl
