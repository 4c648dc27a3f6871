-- ===== src/System/Reads.antt =====
-- The operations that only read, and their session.
use document_agent_api.Common.{
  Text, ◌≡◌, refl, ◌∙◌, Option, none, some, Result, ok, err, Exec, Result-cases, Option-cases, inl,
  inr, arith, ◌>>=◌, find,
}
use document_agent_api.Common.Utf8.{utf8_decode}
use document_agent_api.Models.{Json, DocumentModel, DocumentResultModel}
use document_agent_api.Platform.{Platform, World, rows, get_bytes}
use document_agent_api.Documents.Objects.{truthy}
use document_agent_api.Documents.Reading.{
  inline_source, or_value_error, or_inline, or_not_found, dictionary, find_owned, is_owned,
  load_source_payload, load_markdown_payload, load_canonical_json_payload, load_result_payload,
  get_document, get_document_source, get_document_result,
}

module _ (P : Platform) where
  inline_source-session : (d : DocumentModel) (w : World P) → (inline_source P d w).1 ≡ w
  unfolding inline_source
  inline_source-session d w = elim (Option-cases d.file_data) [
    | inl e ↦ ground arith
    | inr (x, e) ↦ ground arith
  ]

  load_source-session :
      (d : DocumentModel) (w : World P) → (load_source_payload P d w).1.session ≡ w.session
  unfolding load_source_payload
  load_source-session d w = elim (Option-cases (truthy d.source_object_key)) [
    | inl e ↦ ground (arith, inline_source-session d w)
    | inr (key, e) ↦ elim (Result-cases (P.storage.get_bytes key w.store).0) [
      | inl (b, r) ↦ ground arith
      | inr (x, r) ↦ ground (arith, inline_source-session d (get_bytes P key w).1)
    ]
  ]

  -- An operation that leaves the session alone, whatever it returns.
  abbrev pub SameSession : {A : Type 0} → Exec (World P) A → Type 0
  SameSession m = (w : World P) → (m w).1.session ≡ w.session

  pub SameSession->>= :
      {A B : Type 0} (m : Exec (World P) A) (f : A → Exec (World P) B)
      → SameSession m
      → ((a : A) → SameSession (f a))
      → SameSession (m >>= f)
  SameSession->>= {A} {B} m f h k w = after (m w).0 (m w).1 (h w)
    where
      after :
          (r : Result A) (w' : World P)
          → w'.session ≡ w.session
          → (elim r as (λ _. Result B × World P) [ ok a ↦ f a w' | err e ↦ (err e, w') ]).1.session
            ≡ w.session
      after (ok a) w' e = k a w' ∙ e
      after (err x) w' e = e

  or_inline-session :
      {A : Type 0} (inline : Option A) (m : Exec (World P) A)
      → SameSession m
      → SameSession (or_inline P inline m)
  or_inline-session {A} inline m h w = after inline (m w).0 (m w).1 (h w)
    where
      after :
          (i : Option A) (r : Result A) (w' : World P)
          → w'.session ≡ w.session
          → (elim r as (λ _. Result (Option A) × World P) [
            | ok a ↦ (ok (some a), w')
            | err e ↦ elim i as (λ _. Result (Option A) × World P) [
              | none ↦ (err e, w')
              | some a ↦ (ok (some a), w')
            ]
          ]).1.session
            ≡ w.session
      after i (ok a) w' e = e
      after none (err x) w' e = e
      after (some a) (err x) w' e = e

  or_value_error-session : {A : Type 0} (o : Option A) → SameSession (or_value_error P o)
  or_value_error-session none w = refl
  or_value_error-session (some a) w = refl

  or_not_found-session : {A : Type 0} (id : Text) (o : Option A) → SameSession (or_not_found P id o)
  or_not_found-session id none w = refl
  or_not_found-session id (some a) w = refl

  get_bytes-session : (key : Text) → SameSession (get_bytes P key)
  get_bytes-session key w = refl

  load_markdown-session : (r : DocumentResultModel) → SameSession (load_markdown_payload P r)
  unfolding load_markdown_payload
  load_markdown-session r w = elim (Option-cases (truthy r.markdown_object_key)) [
    | inl e ↦ ground arith
    | inr (key, e) ↦
        let body =
          or_inline-session r.markdown (do b ← get_bytes P key; or_value_error P (utf8_decode b))
            (SameSession->>= (get_bytes P key) (λ b. or_value_error P (utf8_decode b))
              (get_bytes-session key) (λ b. or_value_error-session (utf8_decode b)))
            w in
        ground (arith, body)
  ]

  load_json-session : (r : DocumentResultModel) → SameSession (load_canonical_json_payload P r)
  unfolding load_canonical_json_payload
  load_json-session r w = elim (Option-cases (truthy r.canonical_json_object_key)) [
    | inl e ↦ ground arith
    | inr (key, e) ↦
        ground (arith, or_inline-session r.canonical_json (read_json key) (read_json-session key) w)
  ]
    where
      read_json : Text → Exec (World P) Json
      read_json key = do
        b ← get_bytes P key
        t ← or_value_error P (utf8_decode b)
        j ← or_value_error P (P.loads t)
        or_value_error P (dictionary P j)

      read_json-session : (key : Text) → SameSession (read_json key)
      read_json-session key w = grind (arith, or_value_error-session)

  load_result-session : (d : DocumentModel) → SameSession (load_result_payload P d)
  unfolding load_result_payload
  load_result-session d w = grind (arith, load_json-session, load_markdown-session)

  find_owned-session : (document_id owner : Text) → SameSession (find_owned P document_id owner)
  find_owned-session document_id owner w =
      elim (Option-cases (find (is_owned document_id owner) (rows P w).documents)) [
        | inl e ↦ ground arith
        | inr (d, e) ↦ ground arith
      ]

  pub get_document-session :
      (document_id owner : Text) → SameSession (get_document P document_id owner)
  unfolding get_document
  get_document-session document_id owner w = grind arith

  pub get_document_source-session :
      (document_id owner : Text) → SameSession (get_document_source P document_id owner)
  unfolding get_document_source
  get_document_source-session document_id owner w = grind (arith, load_source-session)

  pub get_document_result-session :
      (document_id owner : Text) → SameSession (get_document_result P document_id owner)
  unfolding get_document_result
  get_document_result-session document_id owner w = grind (arith, load_result-session)
