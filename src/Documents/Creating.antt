-- ===== src/Documents/Creating.antt =====
-- The methods of documents/service.py that create a document.
pub mod Uploads
pub mod Undone
pub mod Outcomes
pub mod RoundTrip
use document_agent_api.Common.{
  ℕ, Text, Bytes, codes, text_eq, contains, strip, replace_char, join, Bool, true, false, Option,
  none, some, List, [], ◌∷◌, ◌++◌, Result, ok, err, Exn, runtime_error, value_error, any, not, Exec,
  if◌then◌else◌,
}
use document_agent_api.Common.Utf8.{utf8_encode, is_scalar}
use document_agent_api.Models.{Json, Tables, DocumentModel, DocumentResultModel}
use document_agent_api.Platform.{
  Platform, World, put_bytes, modify, commit, rollback, uuid4, utcnow,
}
use document_agent_api.Documents.Names.{is_empty, sanitize_document_filename, path_stem}
use document_agent_api.Documents.Objects.{delete_objects_best_effort}
use document_agent_api.Documents.Schemas.{
  DocumentParseResponse, to_document_parse_response, build_markdown, build_canonical_json,
}

-- One call of `put_bytes`. `failure` is what computing its payload raises, if it raises.
pub record Upload : Type 0 where
  pub key : Text
  pub failure : Option Exn
  pub payload : Bytes
  pub content_type : Text

-- The title of a new document.
unfoldable pub title_of : Text → Text
unfolding path_stem
title_of filename =
    let title = strip (replace_char b'-' b' ' (replace_char b'_' b' ' (path_stem filename))) in
    if is_empty title then codes "Mock Document" else title

abbrev pub markdown_key_of : Text → Text
markdown_key_of document_id = codes "documents/" ++ (document_id ++ codes "/result/result.md")

abbrev pub json_key_of : Text → Text
json_key_of document_id = codes "documents/" ++ (document_id ++ codes "/result/result.json")

abbrev pub source_key_of : Text → Text → Text
source_key_of document_id filename =
    codes "documents/" ++ (document_id ++ (codes "/source/" ++ sanitize_document_filename filename))

-- `self.session.add(document)`
abbrev pub add_document : DocumentModel → Tables → Tables
add_document document t = record t { documents = t.documents ++ document ∷ [] }

-- The row of a result that lies in the storage.
abbrev pub stored_result : Text → DocumentResultModel
stored_result document_id = record {
  document_id = document_id;
  markdown = none;
  canonical_json = none;
  markdown_object_key = some (markdown_key_of document_id);
  canonical_json_object_key = some (json_key_of document_id);
}

abbrev pub key_if_left : Text → List Text → Option Text
key_if_left key remaining = if contains key remaining then some key else none

abbrev pub incomplete_message : Text → List Text → Text
incomplete_message document_id failed =
    codes "document creation failed and object cleanup is incomplete; document_id="
    ++ (document_id ++ (codes ", failed_keys=" ++ join (codes ",") failed))

module _ (P : Platform) where
  -- What `t.encode("utf-8")` raises: a `UnicodeEncodeError`, which is a `ValueError`, if `t` has a
  -- surrogate.
  unfoldable pub encode_failure : Text → Option Exn
  encode_failure t =
      if any (λ c. not (is_scalar c)) t then some (value_error (P.encode_message t)) else none

  abbrev pub markdown_upload : Text → Text → Upload
  markdown_upload document_id markdown = record {
    key = markdown_key_of document_id;
    failure = encode_failure markdown;
    payload = utf8_encode markdown;
    content_type = codes "text/markdown";
  }

  abbrev pub json_upload : Text → Json → Upload
  json_upload document_id canonical_json = record {
    key = json_key_of document_id;
    failure = encode_failure (P.dumps canonical_json);
    payload = utf8_encode (P.dumps canonical_json);
    content_type = codes "application/json";
  }

  -- The calls of `put_bytes` in the `try` block, with the list `uploaded_keys` at its end.
  unfoldable pub upload_all :
      List Upload → List Text → World P → Result (Unit {0}) × List Text × World P
  upload_all [] uploaded w = (ok tt, uploaded, w)
  upload_all (u ∷ us) uploaded w = elim u.failure [
    | some e ↦ (err e, uploaded, w)
    | none ↦
        let (r, w') = put_bytes P u.key u.payload u.content_type w in
        elim r [ ok _ ↦ upload_all us (uploaded ++ u.key ∷ []) w' | err e ↦ (err e, uploaded, w') ]
  ]

  -- A new row, its two times drawn when it is flushed.
  abbrev pub new_document :
      (document_id owner filename content_type : Text) (source_object_key : Option Text)
      (file_data : Option Bytes) (result : DocumentResultModel)
      → World P
      → DocumentModel × World P
  new_document document_id owner filename content_type source_object_key file_data result w =
      let (created, w1) = utcnow P w in
      let (updated, w2) = utcnow P w1 in
      (
        record {
          id = document_id;
          owner_user_id = some owner;
          source_object_key = source_object_key;
          filename = filename;
          content_type = content_type;
          file_data = file_data;
          created_at = created;
          updated_at = updated;
          result = some result;
        },
        w2,
      )

  -- The `try` block: uploads, then adds the row and commits.
  unfoldable pub store_document :
      List Upload
      → (document_id owner filename content_type source_object_key : Text) → World P
      → Result DocumentModel × List Text × World P
  unfolding upload_all
  store_document uploads document_id owner filename content_type source_object_key w =
      let (r, uploaded, w1) = upload_all uploads [] w in
      elim r [
        | err e ↦ (err e, uploaded, w1)
        | ok _ ↦
            let (document, w2) =
              new_document document_id owner filename content_type (some source_object_key) none
                (stored_result document_id) w1 in
            let (c, w3) = commit P (modify P (add_document document) w2) in
            elim c [ ok _ ↦ (ok document, uploaded, w3) | err e ↦ (err e, uploaded, w3) ]
      ]

  -- `_persist_document_after_incomplete_create_cleanup`
  unfoldable pub persist_document_after_incomplete_create_cleanup :
      (document_id owner filename content_type : Text) (file_data : Bytes) (markdown : Text)
      (canonical_json : Json)
      (source_object_key markdown_object_key canonical_json_object_key : Text)
      (remaining : List Text)
      → World P
      → Option DocumentModel × World P
  persist_document_after_incomplete_create_cleanup document_id owner filename content_type file_data
        markdown canonical_json source_object_key markdown_object_key canonical_json_object_key
        remaining w =
      let (document, w1) =
        new_document document_id owner filename content_type
          (key_if_left source_object_key remaining) (some file_data)
          (record {
            document_id = document_id;
            markdown = some markdown;
            canonical_json = some canonical_json;
            markdown_object_key = key_if_left markdown_object_key remaining;
            canonical_json_object_key = key_if_left canonical_json_object_key remaining;
          })
          w in
      let (c, w2) = commit P (modify P (add_document document) w1) in
      elim c [ ok _ ↦ (some document, w2) | err _ ↦ (none, rollback P w2) ]

  -- `create_document`
  unfoldable pub create_document :
      (owner filename content_type : Text) (file_data : Bytes)
      → Exec (World P) DocumentParseResponse
  unfolding title_of build_markdown build_canonical_json store_document delete_objects_best_effort
      persist_document_after_incomplete_create_cleanup
  create_document owner filename content_type file_data w =
      let (document_id, w0) = uuid4 P w in
      let title = title_of filename in
      let source_object_key = source_key_of document_id filename in
      let markdown = build_markdown title filename in
      let canonical_json = build_canonical_json title filename in
      let source : Upload = record {
        key = source_object_key;
        failure = none;
        payload = file_data;
        content_type = content_type;
      } in
      let (r, uploaded, w1) =
        store_document
          (source
            ∷ markdown_upload document_id markdown
            ∷ json_upload document_id canonical_json
            ∷ [])
          document_id owner filename content_type source_object_key w0 in
      elim r [
        | ok document ↦ (ok (to_document_parse_response document markdown canonical_json), w1)
        | err e ↦
            let (failed, w2) = delete_objects_best_effort P uploaded 3 (rollback P w1) in
            elim failed [
              | [] ↦ (err e, w2)
              | k ∷ ks ↦
                  let (recovered, w3) =
                    persist_document_after_incomplete_create_cleanup document_id owner filename
                      content_type file_data markdown canonical_json source_object_key
                      (markdown_key_of document_id) (json_key_of document_id) (k ∷ ks) w2 in
                  elim recovered [
                    | some document ↦
                        (ok (to_document_parse_response document markdown canonical_json), w3)
                    | none ↦ (err (runtime_error (incomplete_message document_id (k ∷ ks))), w3)
                  ]
            ]
      ]

  -- `create_document_from_parse_result`
  unfoldable pub create_document_from_parse_result :
      (owner source_object_key filename content_type markdown : Text) (canonical_json : Json)
      → Exec (World P) DocumentParseResponse
  unfolding store_document delete_objects_best_effort
  create_document_from_parse_result owner source_object_key filename content_type markdown
        canonical_json w =
      let (document_id, w0) = uuid4 P w in
      let (r, uploaded, w1) =
        store_document
          (markdown_upload document_id markdown ∷ json_upload document_id canonical_json ∷ [])
          document_id owner filename content_type source_object_key w0 in
      elim r [
        | ok document ↦ (ok (to_document_parse_response document markdown canonical_json), w1)
        | err e ↦
            let (_, w2) = delete_objects_best_effort P uploaded 3 (rollback P w1) in (err e, w2)
      ]
