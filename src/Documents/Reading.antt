-- ===== src/Documents/Reading.antt =====
-- The methods of documents/service.py that read: listing, a document, its source, its result.
pub mod Pages
pub mod Owners
use document_agent_api.Common.{
  ltb, ◌==◌, ◌||◌, ◌&&◌, ℕ, zero, suc, Text, Bytes, text_eq, Bool, true, false, Option, none, some,
  List, [], ◌∷◌, Result, ok, err, Exn, value_error, document_not_found, document_source_unavailable,
  Exec, raise, pure, ◌>>=◌, ◌>>◌, find, keep, length, map, leb, if◌then◌else◌,
}
use document_agent_api.Common.Utf8.{utf8_decode}
use document_agent_api.Models.{Json, obj, DocumentModel, DocumentResultModel}
use document_agent_api.Platform.{Platform, World, get_bytes, rows}
use document_agent_api.Documents.Objects.{truthy}
use document_agent_api.Documents.Schemas.{
  DocumentSummary, DocumentListResponse, DocumentSourcePayload, DocumentParseResponse,
  to_document_summary, to_document_parse_response,
}

-- `column == value`, which no NULL meets.
abbrev pub sql_eq : Option Text → Text → Bool
sql_eq none t = false
sql_eq (some s) t = text_eq s t

-- `DocumentModel.id == …, DocumentModel.owner_user_id == …`
abbrev pub is_owned : Text → Text → DocumentModel → Bool
is_owned document_id owner_user_id d =
    text_eq d.id document_id && sql_eq d.owner_user_id owner_user_id

-- `order_by(created_at.desc())`. The order of rows of one time is left to the database: `first d e`
-- tells that it puts d before e.
unfoldable pub insert_desc :
    (first : DocumentModel → DocumentModel → Bool)
    → DocumentModel
    → List DocumentModel
    → List DocumentModel
insert_desc first d [] = d ∷ []
insert_desc first d (e ∷ rest) =
    if ltb e.created_at d.created_at || (e.created_at == d.created_at && first d e)
    then d ∷ e ∷ rest
    else e ∷ insert_desc first d rest

unfoldable pub order_desc :
    (first : DocumentModel → DocumentModel → Bool) → List DocumentModel → List DocumentModel
unfolding insert_desc
order_desc first [] = []
order_desc first (d ∷ rest) = insert_desc first d (order_desc first rest)

-- `.offset(n)` and `.limit(n)`
unfoldable pub drop {ℓ} : {A : Type ℓ} → ℕ → List A → List A
drop zero xs = xs
drop (suc n) [] = []
drop (suc n) (x ∷ xs) = drop n xs

unfoldable pub take {ℓ} : {A : Type ℓ} → ℕ → List A → List A
take zero xs = []
take (suc n) [] = []
take (suc n) (x ∷ xs) = x ∷ take n xs

module _ (P : Platform) where
  -- The rest of `_load_source_payload`, once there is no object to read.
  unfoldable pub inline_source : DocumentModel → Exec (World P) Bytes
  inline_source document w = elim document.file_data [
    | some payload ↦ (ok payload, w)
    | none ↦ (err (document_source_unavailable document.id), w)
  ]

  -- `_load_source_payload`
  unfoldable pub load_source_payload : DocumentModel → Exec (World P) Bytes
  unfolding inline_source
  load_source_payload document w = elim (truthy document.source_object_key) [
    | none ↦ inline_source document w
    | some key ↦
        let (r, w') = get_bytes P key w in
        elim r [ ok payload ↦ (ok payload, w') | err _ ↦ inline_source document w' ]
  ]

  abbrev pub or_value_error : {A : Type 0} → Option A → Exec (World P) A
  or_value_error none = raise (value_error [])
  or_value_error (some a) = pure a

  -- `except Exception`: the inline value if there is one.
  abbrev pub or_inline : {A : Type 0} → Option A → Exec (World P) A → Exec (World P) (Option A)
  or_inline inline m w =
      let (r, w') = m w in
      elim r [
        | ok a ↦ (ok (some a), w')
        | err e ↦ elim inline [ none ↦ (err e, w') | some a ↦ (ok (some a), w') ]
      ]

  -- `_load_markdown_payload`
  unfoldable pub load_markdown_payload : DocumentResultModel → Exec (World P) (Option Text)
  load_markdown_payload result w = elim (truthy result.markdown_object_key) [
    | none ↦ (ok result.markdown, w)
    | some key ↦
        or_inline result.markdown (do b ← get_bytes P key; or_value_error (utf8_decode b)) w
  ]

  abbrev pub dictionary : Json → Option Json
  dictionary (obj fields) = some (obj fields)
  dictionary _ = none

  -- `_load_canonical_json_payload`
  unfoldable pub load_canonical_json_payload : DocumentResultModel → Exec (World P) (Option Json)
  load_canonical_json_payload result w = elim (truthy result.canonical_json_object_key) [
    | none ↦ (ok result.canonical_json, w)
    | some key ↦
        or_inline result.canonical_json
          (do
            b ← get_bytes P key
            t ← or_value_error (utf8_decode b)
            j ← or_value_error (P.loads t)
            or_value_error (dictionary j))
          w
  ]

  -- The rows of one owner whose filename passes; `matches` is SQL's ILIKE with `%filename%`.
  abbrev pub owned_rows : (Text → Text → Bool) → Option Text → Text → World P → List DocumentModel
  owned_rows matches filename owner_user_id w =
      keep
        (λ d.
          sql_eq d.owner_user_id owner_user_id
          && (elim (truthy filename) [ none ↦ true | some part ↦ matches part d.filename ]))
        (rows P w).documents

  -- `list_documents`
  unfoldable pub list_documents :
      (DocumentModel → DocumentModel → Bool)
      → (Text → Text → Bool)
      → (limit offset : ℕ) → Option Text
      → Text
      → World P
      → DocumentListResponse
  unfolding order_desc drop take
  list_documents first matches limit offset filename owner_user_id w =
      let found = owned_rows matches filename owner_user_id w in
      record {
        items = map to_document_summary (take limit (drop offset (order_desc first found)));
        total = length found;
        limit = limit;
        offset = offset;
      }

  -- `self.session.scalars(statement).first()`, or `DocumentNotFoundError`.
  abbrev pub find_owned : Text → Text → Exec (World P) DocumentModel
  find_owned document_id owner_user_id w =
      elim (find (is_owned document_id owner_user_id) (rows P w).documents) [
        | none ↦ (err (document_not_found document_id), w)
        | some document ↦ (ok document, w)
      ]

  -- `get_document`
  unfoldable pub get_document : Text → Text → Exec (World P) DocumentSummary
  get_document document_id owner_user_id = do
    document ← find_owned document_id owner_user_id
    pure (to_document_summary document)

  -- `get_document_source`
  unfoldable pub get_document_source : Text → Text → Exec (World P) DocumentSourcePayload
  unfolding load_source_payload
  get_document_source document_id owner_user_id = do
    document ← find_owned document_id owner_user_id
    payload ← load_source_payload document
    pure (record {
      filename = document.filename;
      content_type = document.content_type;
      payload = payload;
    })

  abbrev pub or_not_found : {A : Type 0} → Text → Option A → Exec (World P) A
  or_not_found document_id none = raise (document_not_found document_id)
  or_not_found document_id (some a) = pure a

  -- `_load_result_payload`; both payloads are read before either is looked at.
  unfoldable pub load_result_payload : DocumentModel → Exec (World P) (Text × Json)
  unfolding load_markdown_payload load_canonical_json_payload
  load_result_payload document = do
    result ← or_not_found document.id document.result
    markdown ← load_markdown_payload result
    canonical_json ← load_canonical_json_payload result
    m ← or_not_found document.id markdown
    j ← or_not_found document.id canonical_json
    pure (m, j)

  -- `get_document_result`
  unfoldable pub get_document_result : Text → Text → Exec (World P) DocumentParseResponse
  unfolding load_result_payload
  get_document_result document_id owner_user_id = do
    document ← find_owned document_id owner_user_id
    or_not_found document_id document.result
    payloads ← load_result_payload document
    pure (to_document_parse_response document payloads.0 payloads.1)
