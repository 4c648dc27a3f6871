-- ===== src/Documents/Creating/Outcomes.antt =====
-- What `create_document` leaves in the database and the storage, for each of its outcomes.
use document_agent_api.Common.{
  none, ◌++◌, if◌then◌else◌, subst, suc, Text, Bytes, ◌≡◌, refl, some, List, [], ◌∷◌, Result, ok,
  err, runtime_error, Result-cases, List-cases, Option-cases, inl, inr, ◌⊎◌, arith,
}
use document_agent_api.Common.Utf8.{utf8_encode}
use document_agent_api.Models.{Json, DocumentModel, DocumentResultModel}
use document_agent_api.Platform.{Platform, World, rows, saved, rollback}
use document_agent_api.Platform.Lawful.{Laws}
use document_agent_api.Documents.Objects.{delete_objects_best_effort}
use document_agent_api.Documents.Objects.Cleanup.{at, best_effort-session}
use document_agent_api.Documents.Schemas.{
  DocumentParseResponse, build_markdown, build_canonical_json,
}
use document_agent_api.Documents.Creating.{
  Upload, title_of, source_key_of, markdown_key_of, json_key_of, incomplete_message, key_if_left,
  new_document, add_document, store_document, markdown_upload, json_upload,
  persist_document_after_incomplete_create_cleanup, create_document,
}
use document_agent_api.Documents.Creating.Uploads.{upload_all-laid, upload_keys}
use document_agent_api.Documents.Creating.Undone.{KeptOrGone, cleaned_up, store_failed, store_saved}

module _ {P : Platform} (L : Laws P) where
  open L.database use {
    working-modify, committed-modify, working-commit, committed-commit, working-rollback,
    committed-rollback,
  }

  -- A document that was stored: its row refers to the three objects, and the storage holds the source,
  -- the markdown and the JSON under their keys and is otherwise as it was.
  abbrev pub IsStored :
      (filename : Text) (file_data : Bytes) (w w' : World P) → DocumentModel → Type 0
  IsStored filename file_data w w' document =
      let id = P.uuid4 w.draws in
      let title = title_of filename in
      (document.file_data ≡ none)
      × (document.source_object_key ≡ some (source_key_of id filename))
      × (document.result
          ≡ some (record {
            document_id = id;
            markdown = none;
            canonical_json = none;
            markdown_object_key = some (markdown_key_of id);
            canonical_json_object_key = some (json_key_of id);
          }))
      × ((j : Text)
          → at L w' j ≡ (
              if L.storage.same (json_key_of id) j
              then some (utf8_encode (P.dumps (build_canonical_json title filename)))
              else if L.storage.same (markdown_key_of id) j
              then some (utf8_encode (build_markdown title filename))
              else if L.storage.same (source_key_of id filename) j
              then some file_data
              else at L w j))

  -- A document whose row holds its payloads, after a clean-up that was incomplete.
  abbrev pub IsInline : (filename : Text) (file_data : Bytes) → DocumentModel → Type 0
  IsInline filename file_data document =
      let title = title_of filename in
      (document.file_data ≡ some file_data)
      × ((r : DocumentResultModel) × (document.result ≡ some r)
          × (r.markdown ≡ some (build_markdown title filename))
          × (r.canonical_json ≡ some (build_canonical_json title filename)))

  -- The row of the new document is the last of the documents, and nothing else in the database has
  -- changed.
  abbrev pub Added :
      (owner filename content_type : Text) (file_data : Bytes) (w w' : World P)
      → DocumentParseResponse
      → Type 0
  Added owner filename content_type file_data w w' response =
      (document : DocumentModel) × (saved P w'
        ≡ record (saved P w) { documents = (saved P w).documents ++ document ∷ [] })
      × (document.id ≡ P.uuid4 w.draws)
      × (document.owner_user_id ≡ some owner)
      × (document.filename ≡ filename)
      × (document.content_type ≡ content_type)
      × (response.document.id ≡ document.id)
      × (IsStored filename file_data w w' document ⊎ IsInline filename file_data document)

  abbrev pub Outcome :
      (owner filename content_type : Text) (file_data : Bytes) (w : World P)
      → Result DocumentParseResponse × World P
      → Type 0
  Outcome owner filename content_type file_data w (ok response, w') =
      Added owner filename content_type file_data w w' response
  Outcome owner filename content_type file_data w (err e, w') =
      let id = P.uuid4 w.draws in
      ((failed : List Text) × (e ≡ runtime_error (incomplete_message id failed)))
      ⊎ ((saved P w' ≡ saved P w)
          × KeptOrGone L (source_key_of id filename ∷ markdown_key_of id ∷ json_key_of id ∷ []) e w
              w')

  rolled_back :
      (w1 : World P) (keys : List Text) (failed : List Text) (w2 : World P)
      → delete_objects_best_effort P keys 3 (rollback P w1) ≡ (failed, w2)
      → (saved P w2 ≡ saved P w1) × (rows P w2 ≡ saved P w1)
  rolled_back w1 keys failed w2 h =
      let d = best_effort-session L keys 3 (rollback P w1) in
      (
        ground (arith, d, committed-rollback w1.session),
        ground (arith, d, working-rollback w1.session),
      )

  persisted :
      (document_id owner filename content_type : Text) (file_data : Bytes) (markdown : Text)
      (canonical_json : Json) (source_key markdown_key json_key : Text) (remaining : List Text)
      (w : World P) (document : DocumentModel) (w' : World P)
      → persist_document_after_incomplete_create_cleanup P document_id owner filename content_type
          file_data markdown canonical_json source_key markdown_key json_key remaining w
        ≡ (some document, w')
      → (saved P w' ≡ add_document document (rows P w))
        × (document.id ≡ document_id)
        × (document.owner_user_id ≡ some owner)
        × (document.filename ≡ filename)
        × (document.content_type ≡ content_type)
        × (document.file_data ≡ some file_data)
        × (document.result
            ≡ some (record {
              document_id = document_id;
              markdown = some markdown;
              canonical_json = some canonical_json;
              markdown_object_key = key_if_left markdown_key remaining;
              canonical_json_object_key = key_if_left json_key remaining;
            }))
  unfolding persist_document_after_incomplete_create_cleanup
  persisted document_id owner filename content_type file_data markdown canonical_json source_key
        markdown_key json_key remaining w document w' h =
      let made =
        new_document P document_id owner filename content_type (key_if_left source_key remaining)
          (some file_data)
          (record {
            document_id = document_id;
            markdown = some markdown;
            canonical_json = some canonical_json;
            markdown_object_key = key_if_left markdown_key remaining;
            canonical_json_object_key = key_if_left json_key remaining;
          })
          w in
      let s = P.database.modify (add_document made.0) w.session in
      elim (Result-cases (P.database.commit s).0) [
        | inr (x, c) ↦ absurd (ground arith)
        | inl (_, c) ↦ (
          ground (arith, committed-commit s, working-modify (add_document made.0) w.session),
          ground arith,
          ground arith,
          ground arith,
          ground arith,
          ground arith,
          ground arith,
        )
      ]

  create_kept :
      (owner filename content_type : Text) (file_data : Bytes) (w : World P)
      (out : Result DocumentParseResponse × World P)
      → rows P w ≡ saved P w
      → create_document P owner filename content_type file_data w ≡ out
      → Outcome owner filename content_type file_data w out
  unfolding create_document
  create_kept owner filename content_type file_data w (ok response, w') clean h =
      let id = P.uuid4 w.draws in
      let w0 : World P = record w { draws = suc w.draws } in
      let title = title_of filename in
      let markdown = build_markdown title filename in
      let json = build_canonical_json title filename in
      let source : Upload = record {
        key = source_key_of id filename;
        failure = none;
        payload = file_data;
        content_type = content_type;
      } in
      let us = source ∷ markdown_upload P id markdown ∷ json_upload P id json ∷ [] in
      let stored =
        store_document P us id owner filename content_type (source_key_of id filename) w0 in
      elim (Result-cases stored.0) [
        | inl (document, r) ↦
            let done =
              store_saved L us id owner filename content_type (source_key_of id filename) w0
                document stored.1 stored.2 (ground arith) in
            let objects = upload_all-laid L us [] w0 (λ j. at L w j) done.7 (λ j. refl) in
            (
              document,
              ground (arith, done.0, clean),
              done.1,
              done.2,
              done.8,
              done.9,
              ground arith,
              inl (
                done.10,
                ground (arith, done.3),
                ground (arith, done.5),
                λ j. ground (arith, objects j, done.6),
              ),
            )
        | inr (e, r) ↦
            let undone =
              store_failed L us id owner filename content_type (source_key_of id filename) w0 e
                stored.1 stored.2 (ground arith) in
            let cleaned = delete_objects_best_effort P stored.1 3 (rollback P stored.2) in
            let back = rolled_back stored.2 stored.1 cleaned.0 cleaned.1 refl in
            elim (List-cases cleaned.0) [
              | inl c ↦ absurd (ground arith)
              | inr (k, ks, c) ↦
                  let again =
                    persist_document_after_incomplete_create_cleanup P id owner filename
                      content_type file_data markdown json (source_key_of id filename)
                      (markdown_key_of id) (json_key_of id) (k ∷ ks) cleaned.1 in
                  elim (Option-cases again.0) [
                    | inl n ↦ absurd (ground arith)
                    | inr (document, n) ↦
                        let done =
                          persisted id owner filename content_type file_data markdown json
                            (source_key_of id filename) (markdown_key_of id) (json_key_of id)
                            (k ∷ ks) cleaned.1 document again.1 (ground arith) in
                        (
                          document,
                          ground (arith, done.0, back, undone.2),
                          done.1,
                          done.2,
                          done.3,
                          done.4,
                          ground arith,
                          inr (
                            done.5,
                            (
                              record {
                                document_id = id;
                                markdown = some markdown;
                                canonical_json = some json;
                                markdown_object_key = key_if_left (markdown_key_of id) (k ∷ ks);
                                canonical_json_object_key = key_if_left (json_key_of id) (k ∷ ks);
                              },
                              done.6,
                              refl,
                              refl,
                            ),
                          ),
                        )
                  ]
            ]
      ]
  create_kept owner filename content_type file_data w (err x, w') clean h =
      let id = P.uuid4 w.draws in
      let w0 : World P = record w { draws = suc w.draws } in
      let title = title_of filename in
      let markdown = build_markdown title filename in
      let json = build_canonical_json title filename in
      let source : Upload = record {
        key = source_key_of id filename;
        failure = none;
        payload = file_data;
        content_type = content_type;
      } in
      let us = source ∷ markdown_upload P id markdown ∷ json_upload P id json ∷ [] in
      let stored =
        store_document P us id owner filename content_type (source_key_of id filename) w0 in
      elim (Result-cases stored.0) [
        | inl (document, r) ↦ absurd (ground arith)
        | inr (e, r) ↦
            let undone =
              store_failed L us id owner filename content_type (source_key_of id filename) w0 e
                stored.1 stored.2 (ground arith) in
            let cleaned = delete_objects_best_effort P stored.1 3 (rollback P stored.2) in
            let back = rolled_back stored.2 stored.1 cleaned.0 cleaned.1 refl in
            elim (List-cases cleaned.0) [
              | inl c ↦
                  let kept =
                    cleaned_up L us x w0 (rollback P stored.2) cleaned.1 stored.1 undone.0
                      (ground (arith, undone.1)) (λ y k. ground (arith, undone.3 y k))
                      (ground arith) in
                  let ended : cleaned.1 ≡ w' = ground arith in
                  inr (
                    ground (arith, back, undone.2),
                    subst (KeptOrGone L (upload_keys L us) x w0) ended kept,
                  )
              | inr (k, ks, c) ↦
                  let again =
                    persist_document_after_incomplete_create_cleanup P id owner filename
                      content_type file_data markdown json (source_key_of id filename)
                      (markdown_key_of id) (json_key_of id) (k ∷ ks) cleaned.1 in
                  elim (Option-cases again.0) [
                    | inl n ↦ inl (k ∷ ks, ground arith)
                    | inr (document, n) ↦ absurd (ground arith)
                  ]
            ]
      ]

  -- `create_document`, in a session without uncommitted changes. Where it returns, the database has
  -- exactly one more row, a document of the owner with the filename and the content type, under the id
  -- of the response. Then the row refers to the three objects and the storage holds exactly the source,
  -- the markdown and the JSON under their keys in addition, or else the clean-up after an error was
  -- incomplete and the row itself holds the source, the markdown and the JSON. Where it raises
  -- anything but the report of an incomplete clean-up, the database is as it was, and each object is
  -- as it was, or it lay under one of the three keys of the new document and is gone, or it is the one
  -- whose write raised.
  pub create_document_lem :
      (owner filename content_type : Text) (file_data : Bytes) (w : World P)
      → rows P w ≡ saved P w
      → Outcome owner filename content_type file_data w
          (create_document P owner filename content_type file_data w)
  create_document_lem owner filename content_type file_data w clean =
      create_kept owner filename content_type file_data w _ clean refl
