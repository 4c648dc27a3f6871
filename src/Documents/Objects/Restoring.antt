-- ===== src/Documents/Objects/Restoring.antt =====
-- What the loops over the keys do to the storage: backing up, deleting and restoring.
use document_agent_api.Common.{
  Text, Bytes, text_eq_iff, false, ◌||◌, ◌≡◌, ◌≢◌, refl, ◌∙◌, sym, none, some, List, [], ◌∷◌, ◌++◌,
  ok, All, inl, inr, Result-cases, Option-cases, arith,
}
use document_agent_api.Platform.{Platform, World, put_bytes, get_bytes, delete_object}
use document_agent_api.Platform.Lawful.{Laws}
use document_agent_api.Documents.Objects.{
  Backup, payload_of, back_up, delete_each, restore_objects_best_effort, content_type_for_key,
}
use document_agent_api.Documents.Objects.Cleanup.{at, touched}

module _ {P : Platform} (L : Laws P) where
  open L.storage use {
    same, same_refl, same-holds, get-holds, get-ok, get-missing, put-holds, delete-holds,
    delete-missing,
  }

  -- Every payload of the backup is what the storage of `w` holds.
  abbrev pub IsBackup : World P → Backup → Type 0
  IsBackup w backup = (k : Text) (d : Bytes) → payload_of k backup ≡ some d → at L w k ≡ some d

  -- The same objects lie under every key.
  abbrev pub SameObjects : World P → World P → Type 0
  SameObjects w w' = (j : Text) → at L w' j ≡ at L w j

  -- The same, but for the objects that the keys name.
  abbrev pub SameOutside : List Text → World P → World P → Type 0
  SameOutside keys w w' = (j : Text) → touched L keys j ≡ false → at L w' j ≡ at L w j

  pub back_up-SameObjects :
      (keys : List Text) (backup : Backup) (w : World P) → SameObjects w (back_up P keys backup w).1
  unfolding back_up
  back_up-SameObjects [] backup w j = refl
  back_up-SameObjects (k ∷ keys) backup w j =
      elim (Result-cases (P.storage.get_bytes k w.store).0) [
        | inl (d, e) ↦ ground (
          arith,
          get-holds k w.store j,
          back_up-SameObjects keys ((k, d) ∷ backup) (get_bytes P k w).1 j,
        )
        | inr (x, e) ↦
            ground
              (arith, get-holds k w.store j, back_up-SameObjects keys backup (get_bytes P k w).1 j)
      ]

  pub IsBackup-cons :
      (w : World P) (k : Text) (d : Bytes) (backup : Backup)
      → at L w k ≡ some d
      → IsBackup w backup
      → IsBackup w ((k, d) ∷ backup)
  unfolding payload_of
  IsBackup-cons w k d backup h b j x e = ground (arith, text_eq_iff k j, b j x)

  pub back_up-IsBackup :
      (w0 : World P) (keys : List Text) (backup backup' : Backup) (w : World P)
      → SameObjects w0 w
      → IsBackup w0 backup
      → (back_up P keys backup w).0 ≡ ok backup'
      → IsBackup w0 backup'
  unfolding back_up
  back_up-IsBackup w0 [] backup backup' w s b e = λ j d. ground (arith, b j d)
  back_up-IsBackup w0 (k ∷ keys) backup backup' w s b e =
      let w1 = (get_bytes P k w).1 in
      let s1 : SameObjects w0 w1 = λ j. get-holds k w.store j ∙ s j in
      elim (Result-cases (P.storage.get_bytes k w.store).0) [
        | inl (d, r) ↦
            back_up-IsBackup w0 keys ((k, d) ∷ backup) backup' w1 s1
              (IsBackup-cons w0 k d backup (sym (s k) ∙ get-ok k w.store d r) b) (ground arith)
        | inr (x, r) ↦ back_up-IsBackup w0 keys backup backup' w1 s1 b (ground arith)
      ]

  pub no_payload : (k : Text) (d : Bytes) → payload_of k [] ≢ some d
  unfolding payload_of
  no_payload k d = cc

  pub touched-append :
      (ds : List Text) (k j : Text) → touched L (ds ++ k ∷ []) j ≡ (touched L ds j || same k j)
  touched-append [] k j = ground arith
  touched-append (d ∷ ds) k j = ground (arith, touched-append ds k j)

  pub delete_each-SameOutside :
      (w0 : World P) (keys deleted : List Text) (w : World P)
      → SameOutside deleted w0 w
      → let (_, deleted', w') = delete_each P keys deleted w in SameOutside deleted' w0 w'
  unfolding delete_each
  delete_each-SameOutside w0 [] deleted w s j h = s j h
  delete_each-SameOutside w0 (k ∷ keys) deleted w s j h =
      let w1 = (delete_object P k w).1 in
      elim (Result-cases (P.storage.delete_object k w.store).0) [
        | inl (_, r) ↦
            let s1 : SameOutside (deleted ++ k ∷ []) w0 w1 =
              λ i n. ground (arith, touched-append deleted k i, delete-holds k w.store i, s i) in
            ground (arith, delete_each-SameOutside w0 keys (deleted ++ k ∷ []) w1 s1 j)
        | inr (x, r) ↦
            let s1 : SameOutside deleted w0 w1 =
              λ i n. ground (arith, delete-holds k w.store i, s i) in
            ground (arith, delete_each-SameOutside w0 keys deleted w1 s1 j, s1 j)
      ]

  pub restore-SameObjects :
      (w0 : World P) (keys : List Text) (backup : Backup) (w : World P)
      → IsBackup w0 backup
      → SameOutside keys w0 w
      → (restore_objects_best_effort P keys backup w).0 ≡ []
      → SameObjects w0 (restore_objects_best_effort P keys backup w).1
  unfolding restore_objects_best_effort
  restore-SameObjects w0 [] backup w b s e j = s j refl
  restore-SameObjects w0 (k ∷ keys) backup w b s e j = elim (Option-cases (payload_of k backup)) [
    | inl none_ ↦ absurd (ground arith)
    | inr (d, found) ↦
        let w1 = (put_bytes P k d (content_type_for_key k) w).1 in
        elim (Result-cases (P.storage.put_bytes k d (content_type_for_key k) w.store).0) [
          | inr (x, r) ↦ absurd (ground arith)
          | inl (_, r) ↦
              let s1 : SameOutside keys w0 w1 = λ i n. ground (
                arith,
                put-holds k d (content_type_for_key k) w.store i,
                b k d,
                s i,
                same-holds k i w0.store,
              ) in
              let rest : (restore_objects_best_effort P keys backup w1).0 ≡ [] = ground arith in
              ground (arith, restore-SameObjects w0 keys backup w1 b s1 rest j)
        ]
  ]

  pub delete_each-none :
      (keys deleted : List Text) (w : World P) (j : Text)
      → at L w j ≡ none
      → at L (delete_each P keys deleted w).2 j ≡ none
  unfolding delete_each
  delete_each-none [] deleted w j h = h
  delete_each-none (k ∷ keys) deleted w j h = ground (
    arith,
    delete-holds k w.store j,
    delete_each-none keys (deleted ++ k ∷ []) (delete_object P k w).1 j,
    delete_each-none keys deleted (delete_object P k w).1 j,
  )

  -- A loop that ends without an error has left no object under its keys.
  pub delete_each-gone :
      (keys deleted : List Text) (w : World P) {deleted' : List Text} {w' : World P}
      → delete_each P keys deleted w ≡ (ok tt, deleted', w')
      → All (λ k. at L w' k ≡ none) keys
  unfolding delete_each
  delete_each-gone [] deleted w e = tt
  delete_each-gone (k ∷ keys) deleted w {deleted'} {w'} e =
      let w1 = (delete_object P k w).1 in
      elim (Result-cases (P.storage.delete_object k w.store).0) [
        | inl (_, r) ↦
            let rest : delete_each P keys (deleted ++ k ∷ []) w1 ≡ (ok tt, deleted', w') =
              ground arith in
            (
              ground (
                arith,
                same_refl k,
                delete-holds k w.store k,
                delete_each-none keys (deleted ++ k ∷ []) w1 k,
              ),
              delete_each-gone keys _ w1 rest,
            )
        | inr (x, r) ↦
            let rest : delete_each P keys deleted w1 ≡ (ok tt, deleted', w') = ground arith in
            (
              ground (
                arith,
                delete-holds k w.store k,
                delete-missing k w.store x r,
                delete_each-none keys deleted w1 k,
              ),
              delete_each-gone keys _ w1 rest,
            )
      ]

  pub delete_each-outside :
      (keys deleted : List Text) (w : World P) (j : Text)
      → touched L keys j ≡ false
      → at L (delete_each P keys deleted w).2 j ≡ at L w j
  unfolding delete_each
  delete_each-outside [] deleted w j h = refl
  delete_each-outside (k ∷ keys) deleted w j h = ground (
    arith,
    delete-holds k w.store j,
    delete_each-outside keys (deleted ++ k ∷ []) (delete_object P k w).1 j,
    delete_each-outside keys deleted (delete_object P k w).1 j,
  )
