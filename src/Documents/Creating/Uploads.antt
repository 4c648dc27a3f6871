-- ===== src/Documents/Creating/Uploads.antt =====
-- The uploads of a creation, one after the other, and what they leave in the storage.
use document_agent_api.Common.{
  Bytes, Option, Result, if◌then◌else◌, Option-cases, Text, true, false, ◌≡◌, refl, none, some,
  List, [], ◌∷◌, ◌++◌, ok, err, Exn, ◌⊎◌, Result-cases, Bool-cases, map, ◌||◌, inl, inr, arith,
}
use document_agent_api.Platform.{Platform, World, put_bytes}
use document_agent_api.Platform.Lawful.{Laws}
use document_agent_api.Documents.Objects.Cleanup.{at, touched}
use document_agent_api.Documents.Creating.{Upload, upload_all}

module _ {P : Platform} (L : Laws P) where
  pub upload_all-session :
      (us : List Upload) (keys : List Text) (w : World P)
      → (upload_all P us keys w).2.session ≡ w.session
  unfolding upload_all
  upload_all-session [] keys w = refl
  upload_all-session (u ∷ us) keys w = ground (
    arith,
    Option-cases u.failure,
    upload_all-session us (keys ++ u.key ∷ []) (put_bytes P u.key u.payload u.content_type w).1,
  )

  -- What is under a key that no upload of the list names.
  abbrev pub Kept : World P → List Text → World P → Type 0
  Kept w keys w' = (j : Text) → touched L keys j ≡ false → at L w' j ≡ at L w j

  pub touched-append :
      (ds : List Text) (k j : Text)
      → touched L (ds ++ k ∷ []) j ≡ false
      → (touched L ds j ≡ false) × (L.storage.same k j ≡ false)
  touched-append [] k j h = (refl, ground arith)
  touched-append (d ∷ ds) k j h = let rest = touched-append ds k j in ground (arith, rest)

  pub touched_of_append :
      (ds : List Text) (k j : Text)
      → touched L (ds ++ k ∷ []) j ≡ (touched L ds j || L.storage.same k j)
  touched_of_append [] k j = ground arith
  touched_of_append (d ∷ ds) k j = ground (arith, touched_of_append ds k j)

  abbrev pub upload_keys : List Upload → List Text
  upload_keys us = map (λ (u : Upload). u.key) us

  -- A put under a key of the object of `j` raised.
  abbrev pub Torn : Exn → Text → Type 0
  Torn e j =
      (k : Text) × (L.storage.same k j ≡ true)
      × (payload : Bytes) × (content_type : Text) × (s : P.storage.Store) × ((P.storage.put_bytes k
            payload content_type s).0
          ≡ err e)

  -- Objects that no uploaded key names are as they were, but for one whose put raised.
  abbrev pub Left : World P → List Upload → Result (Unit {0}) × List Text × World P → Text → Type 0
  Left w0 us (r, keys, w') j =
      (at L w' j ≡ at L w0 j)
      ⊎ ((e : Exn) × (r ≡ err e) × (touched L (upload_keys us) j ≡ true) × Torn e j)

  Left-cons :
      (w0 : World P) (u : Upload) (us : List Upload) (out : Result (Unit {0}) × List Text × World P)
      (j : Text)
      → Left w0 us out j
      → Left w0 (u ∷ us) out j
  Left-cons w0 u us out j (inl h) = inl h
  Left-cons w0 u us out j (inr (e, r, t, torn)) = inr (e, r, ground arith, torn)

  pub upload_all-others :
      (w0 : World P) (us : List Upload) (keys : List Text) (w : World P)
      → Kept w0 keys w
      → (j : Text) → touched L (upload_all P us keys w).1 j ≡ false
      → Left w0 us (upload_all P us keys w) j
  unfolding upload_all
  upload_all-others w0 [] keys w h j n = inl (h j n)
  upload_all-others w0 (u ∷ us) keys w h j n = of_failure u.failure refl n (λ h1 m.
      upload_all-others w0 us (keys ++ u.key ∷ []) (put_bytes P u.key u.payload u.content_type w).1
        h1 j m)
    where
      w1 : World P
      w1 = (put_bytes P u.key u.payload u.content_type w).1

      sent : Result Text → Result (Unit {0}) × List Text × World P
      sent r = elim r [ ok _ ↦ upload_all P us (keys ++ u.key ∷ []) w1 | err e ↦ (err e, keys, w1) ]

      of_result :
          (r : Result Text)
          → (P.storage.put_bytes u.key u.payload u.content_type w.store).0 ≡ r
          → touched L (sent r).1 j ≡ false
          → (Kept w0 (keys ++ u.key ∷ []) w1
              → touched L (upload_all P us (keys ++ u.key ∷ []) w1).1 j ≡ false
              → Left w0 us (upload_all P us (keys ++ u.key ∷ []) w1) j)
          → Left w0 (u ∷ us) (sent r) j
      of_result (ok x) r m again =
          let h1 : Kept w0 (keys ++ u.key ∷ []) w1 = λ i t. ground (
            arith,
            touched-append keys u.key i,
            L.storage.put-holds u.key u.payload u.content_type w.store i,
            h i,
          ) in
          Left-cons w0 u us (upload_all P us (keys ++ u.key ∷ []) w1) j (again h1 m)
      of_result (err x) r m again = elim (Bool-cases (L.storage.same u.key j)) [
        | inl t ↦ inr (x, refl, ground arith, (u.key, t, u.payload, u.content_type, w.store, r))
        | inr t ↦
            inl (
              ground
                (arith, r, h j m, L.storage.put-holds u.key u.payload u.content_type w.store j))
      ]

      tried : Option Exn → Result (Unit {0}) × List Text × World P
      tried f = elim f [
        | some e ↦ (err e, keys, w)
        | none ↦ sent (P.storage.put_bytes u.key u.payload u.content_type w.store).0
      ]

      of_failure :
          (f : Option Exn)
          → u.failure ≡ f
          → touched L (tried f).1 j ≡ false
          → (Kept w0 (keys ++ u.key ∷ []) w1
              → touched L (upload_all P us (keys ++ u.key ∷ []) w1).1 j ≡ false
              → Left w0 us (upload_all P us (keys ++ u.key ∷ []) w1) j)
          → Left w0 (u ∷ us) (tried f) j
      of_failure (some e) f m again = inl (h j m)
      of_failure none f m again =
          of_result (P.storage.put_bytes u.key u.payload u.content_type w.store).0 refl m again

  -- Only the keys of the uploads are uploaded.
  pub upload_all-touched :
      (us : List Upload) (keys : List Text) (w : World P) (j : Text)
      → touched L (upload_all P us keys w).1 j ≡ true
      → (touched L keys j || touched L (upload_keys us) j) ≡ true
  unfolding upload_all
  upload_all-touched [] keys w j h = ground arith
  upload_all-touched (u ∷ us) keys w j h = elim (Option-cases u.failure) [
    | inr (x, f) ↦ ground arith
    | inl f ↦ elim (Result-cases (P.storage.put_bytes u.key u.payload u.content_type w.store).0) [
      | inl (_, r) ↦ ground (
        arith,
        Bool-cases (touched L keys j),
        touched_of_append keys u.key j,
        upload_all-touched us (keys ++ u.key ∷ []) (put_bytes P u.key u.payload u.content_type w).1
            j,
      )
      | inr (x, r) ↦ ground arith
    ]
  ]

  -- What lies in the storage once the uploads are put, one after the other.
  abbrev pub laid : List Upload → (Text → Option Bytes) → Text → Option Bytes
  laid [] m j = m j
  laid (u ∷ us) m j = laid us (λ i. if L.storage.same u.key i then some u.payload else m i) j

  pub upload_all-laid :
      (us : List Upload) (keys : List Text) (w : World P) (m : Text → Option Bytes)
      → (upload_all P us keys w).0 ≡ ok tt
      → ((i : Text) → at L w i ≡ m i)
      → (j : Text) → at L (upload_all P us keys w).2 j ≡ laid us m j
  unfolding upload_all
  upload_all-laid [] keys w m h s j = s j
  upload_all-laid (u ∷ us) keys w m h s j =
      let w1 = (put_bytes P u.key u.payload u.content_type w).1 in
      elim (Option-cases u.failure) [
        | inr (x, f) ↦ absurd (ground arith)
        | inl f ↦
            elim (Result-cases (P.storage.put_bytes u.key u.payload u.content_type w.store).0) [
              | inr (x, r) ↦ absurd (ground arith)
              | inl (_, r) ↦
                  let s1 : (i : Text)
                      → at L w1 i ≡ (if L.storage.same u.key i then some u.payload else m i) =
                    λ i.
                      ground (
                        arith,
                        s i,
                        L.storage.put-holds u.key u.payload u.content_type w.store i,
                      ) in
                  let rest =
                    upload_all-laid us (keys ++ u.key ∷ []) w1
                      (λ i. if L.storage.same u.key i then some u.payload else m i) (ground arith)
                      s1 j in
                  ground (arith, rest)
            ]
      ]
