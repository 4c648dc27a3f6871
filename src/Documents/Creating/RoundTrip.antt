-- ===== src/Documents/Creating/RoundTrip.antt =====
-- The result of a document, from its creation to its owner's request.
use document_agent_api.Common.{
  suc, Text, Bytes, text_eq_refl, Bool, true, false, ◌≡◌, none, some, List, [], ◌∷◌, ◌++◌, ok,
  Result-cases, Option-cases, inl, inr, arith, find, All,
}
use document_agent_api.Common.Utf8.{utf8_encode, IsScalar, decode-encode}
use document_agent_api.Models.{Json, obj, Fields, DocumentModel}
use document_agent_api.Platform.{Platform, World, rows, get_bytes}
use document_agent_api.Platform.Lawful.{Laws}
use document_agent_api.Documents.Schemas.{DocumentParseResponse, to_document_parse_response}
use document_agent_api.Documents.Reading.{
  is_owned, load_markdown_payload, load_canonical_json_payload, load_result_payload,
  get_document_result,
}
use document_agent_api.Documents.Creating.{
  Upload, upload_all, stored_result, markdown_key_of, json_key_of, markdown_upload, json_upload,
  store_document, create_document_from_parse_result,
}
use document_agent_api.Documents.Creating.Undone.{store_saved}

find-append :
    {A : Type 0} (p : A → Bool) (xs : List A) (a : A)
    → find p xs ≡ none
    → p a ≡ true
    → find p (xs ++ a ∷ []) ≡ some a
find-append p [] a n h = ground arith
find-append p (x ∷ xs) a n h = ground (arith, find-append p xs a)

module _ {P : Platform} (L : Laws P) where
  no_failures :
      (u v : Upload) (w : World P)
      → (upload_all P (u ∷ v ∷ []) [] w).0 ≡ ok tt
      → (u.failure ≡ none) × (v.failure ≡ none)
  unfolding upload_all
  no_failures u v w h = elim (Option-cases u.failure) [
    | inr (e, f) ↦ absurd (ground arith)
    | inl f ↦ elim (Result-cases (P.storage.put_bytes u.key u.payload u.content_type w.store).0) [
      | inr (e, r) ↦ absurd (ground arith)
      | inl (k, r) ↦ elim (Option-cases v.failure) [
        | inr (e, g) ↦ absurd (ground arith)
        | inl g ↦ (f, g)
      ]
    ]
  ]

  -- Two uploads under keys of different objects.
  both_held :
      (u v : Upload) (w : World P)
      → L.storage.same v.key u.key ≡ false
      → (upload_all P (u ∷ v ∷ []) [] w).0 ≡ ok tt
      → let w' = (upload_all P (u ∷ v ∷ []) [] w).2 in
        (L.storage.holds w'.store u.key ≡ some u.payload)
        × (L.storage.holds w'.store v.key ≡ some v.payload)
  unfolding upload_all
  both_held u v w d h =
      let first = P.storage.put_bytes u.key u.payload u.content_type w.store in
      let second = P.storage.put_bytes v.key v.payload v.content_type first.1 in
      let allowed = no_failures u v w h in
      elim (Result-cases first.0) [
        | inr (e, r) ↦ absurd (ground (arith, allowed))
        | inl (k, r) ↦ elim (Result-cases second.0) [
          | inr (e, q) ↦ absurd (ground (arith, allowed))
          | inl (j, q) ↦
              let p1 = L.storage.put-holds u.key u.payload u.content_type w.store u.key in
              let p2 = L.storage.put-holds v.key v.payload v.content_type first.1 u.key in
              let p3 = L.storage.put-holds v.key v.payload v.content_type first.1 v.key in
              (
                ground (arith, allowed, r, q, p1, p2, d, L.storage.same_refl u.key),
                ground (arith, allowed, r, q, p3, L.storage.same_refl v.key),
              )
        ]
      ]

  same_payload :
      (k : Text) (w : World P) (b d : Bytes)
      → (P.storage.get_bytes k w.store).0 ≡ ok b
      → L.storage.holds w.store k ≡ some d
      → b ≡ d
  same_payload k w b d g h = ground (arith, L.storage.get-ok k w.store b g)

  read_markdown :
      (document_id markdown : Text) (w : World P) (b : Bytes)
      → All IsScalar markdown
      → L.storage.holds w.store (markdown_key_of document_id) ≡ some (utf8_encode markdown)
      → (get_bytes P (markdown_key_of document_id) w).0 ≡ ok b
      → load_markdown_payload P (stored_result document_id) w
        ≡ (ok (some markdown), (get_bytes P (markdown_key_of document_id) w).1)
  unfolding load_markdown_payload
  read_markdown document_id markdown w b s h g =
      let same = same_payload (markdown_key_of document_id) w b (utf8_encode markdown) g h in
      ground (arith, g, same, decode-encode markdown s)

  read_json :
      (document_id : Text) (fields : Fields) (w : World P) (b : Bytes)
      → All IsScalar (P.dumps (obj fields))
      → P.loads (P.dumps (obj fields)) ≡ some (obj fields)
      → L.storage.holds w.store (json_key_of document_id)
        ≡ some (utf8_encode (P.dumps (obj fields)))
      → (get_bytes P (json_key_of document_id) w).0 ≡ ok b
      → load_canonical_json_payload P (stored_result document_id) w
        ≡ (ok (some (obj fields)), (get_bytes P (json_key_of document_id) w).1)
  unfolding load_canonical_json_payload
  read_json document_id fields w b s l h g =
      let same =
        same_payload (json_key_of document_id) w b (utf8_encode (P.dumps (obj fields))) g h in
      ground (arith, g, same, l, decode-encode (P.dumps (obj fields)) s)

  loaded_result :
      (document : DocumentModel) (document_id markdown : Text) (json : Json) (w : World P)
      → document.result ≡ some (stored_result document_id)
      → let w2 = (get_bytes P (markdown_key_of document_id) w).1 in
        let w3 = (get_bytes P (json_key_of document_id) w2).1 in
        load_markdown_payload P (stored_result document_id) w ≡ (ok (some markdown), w2)
        → load_canonical_json_payload P (stored_result document_id) w2 ≡ (ok (some json), w3)
        → load_result_payload P document w ≡ (ok (markdown, json), w3)
  unfolding load_result_payload
  loaded_result document document_id markdown json w r m j = ground (arith, r, m, j)

  -- A parse result comes back as it was stored. Where `create_document_from_parse_result` returned,
  -- `get_document_result` of the new document's id for its owner gives the very response that was
  -- returned then. The id was new among the owner's documents, the two keys of the result name
  -- different objects, the texts are made of code points that UTF-8 encodes, the JSON codec reads what
  -- it wrote, and both objects can be read.
  pub get-create_parse_result :
      (owner key filename content_type markdown : Text) (fields : Fields) (w : World P)
      (response : DocumentParseResponse) (w1 : World P) (b c : Bytes)
      → create_document_from_parse_result P owner key filename content_type markdown (obj fields) w
        ≡ (ok response, w1)
      → find (is_owned (P.uuid4 w.draws) owner) (rows P w).documents ≡ none
      → L.storage.same (json_key_of (P.uuid4 w.draws)) (markdown_key_of (P.uuid4 w.draws)) ≡ false
      → All IsScalar markdown
      → All IsScalar (P.dumps (obj fields))
      → P.loads (P.dumps (obj fields)) ≡ some (obj fields)
      → (get_bytes P (markdown_key_of (P.uuid4 w.draws)) w1).0 ≡ ok b
      → (get_bytes P
          (json_key_of (P.uuid4 w.draws))
          (get_bytes P (markdown_key_of (P.uuid4 w.draws)) w1).1).0
        ≡ ok c
      → (get_document_result P response.document.id owner w1).0 ≡ ok response
  unfolding create_document_from_parse_result get_document_result
  get-create_parse_result owner key filename content_type markdown fields w response w1 b c h new
        distinct sm sj codec gm gj =
      let id = P.uuid4 w.draws in
      let w0 : World P = record w { draws = suc w.draws } in
      let m = markdown_upload P id markdown in
      let j = json_upload P id (obj fields) in
      let stored = store_document P (m ∷ j ∷ []) id owner filename content_type key w0 in
      let w2 = (get_bytes P (markdown_key_of id) w1).1 in
      elim (Result-cases stored.0) [
        | inr (e, r) ↦ absurd (ground arith)
        | inl (document, r) ↦
            let (s, i, o, k, added, result, store, uploaded, _, _, _) =
              store_saved L (m ∷ j ∷ []) id owner filename content_type key w0 document stored.1
                stored.2 (ground arith) in
            let held = both_held m j w0 distinct uploaded in
            let mine : is_owned id owner document ≡ true =
              ground (arith, i, o, text_eq_refl id, text_eq_refl owner) in
            let found = find-append (is_owned id owner) (rows P w).documents document new mine in
            let read_m = read_markdown id markdown w1 b sm (ground (arith, held, store)) gm in
            let read_j =
              read_json id fields w2 c sj codec
                (ground (
                  arith,
                  held,
                  store,
                  L.storage.get-holds (markdown_key_of id) w1.store (json_key_of id),
                ))
                gj in
            let known : find (is_owned response.document.id owner) (rows P w1).documents
                ≡ some document =
              ground (arith, found, added, i) in
            let loaded = loaded_result document id markdown (obj fields) w1 result read_m read_j in
            let same : to_document_parse_response document markdown (obj fields) ≡ response =
              ground arith in
            ground (arith, known, loaded, same, result)
      ]
