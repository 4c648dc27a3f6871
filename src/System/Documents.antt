-- ===== src/System/Documents.antt =====
-- The operations of `DocumentService`, seen through a test of the tables.
use document_agent_api.Common.{
  suc, Text, Bool, none, some, List, [], ◌∷◌, Result-cases, Option-cases, inl, inr, arith, find,
}
use document_agent_api.Models.{Json, Tables}
use document_agent_api.Platform.{Platform, World, rows, modify, commit, rollback}
use document_agent_api.Platform.Lawful.{Laws}
use document_agent_api.Documents.Objects.{
  collect_object_keys, delete_objects_strict, delete_objects_best_effort,
}
use document_agent_api.Documents.Objects.Sessions.{strict-session, restore_and_raise-session}
use document_agent_api.Documents.Objects.Cleanup.{best_effort-session}
use document_agent_api.Documents.Reading.{is_owned}
use document_agent_api.Documents.Deleting.{
  remove_document, rollback_message, commit_removal, delete_document,
}
use document_agent_api.Documents.Creating.{
  Upload, upload_all, new_document, stored_result, add_document, markdown_upload, json_upload,
  store_document, create_document_from_parse_result,
}
use document_agent_api.Documents.Creating.Uploads.{upload_all-session}
use document_agent_api.System.Sessions.{IsGood, Keeps, IsGood-same, IsGood-change, IsGood-rollback}
use document_agent_api.System.Changes.{IsClosed}

module _ {P : Platform} (L : Laws P) (c : Tables → Bool) (K : IsClosed c) where
  pub delete_document-Keeps :
      (document_id owner : Text) → Keeps L c (delete_document P document_id owner)
  unfolding delete_document commit_removal
  delete_document-Keeps document_id owner w g =
      elim (Option-cases (find (is_owned document_id owner) (rows P w).documents)) [
        | inl f ↦ ground (arith, g)
        | inr (d, f) ↦
            let deleted = delete_objects_strict P (collect_object_keys d) w in
            let g1 : IsGood L c deleted.1 =
              IsGood-same L c w deleted.1 (strict-session P (collect_object_keys d) w) g in
            let changed =
              IsGood-change L c (remove_document d.id) deleted.1
                (K.remove_document d.id (rows P deleted.1) g1.0) g1 in
            let w2 = rollback P (commit P (modify P (remove_document d.id) deleted.1)).1 in
            let back =
              IsGood-rollback L c (commit P (modify P (remove_document d.id) deleted.1)).1
                changed in
            elim (Result-cases deleted.0) [
              | inr (e, r) ↦ ground (arith, g1)
              | inl ((backup, keys), r) ↦
                  elim (Result-cases
                    (P.database.commit
                      (P.database.modify (remove_document d.id) deleted.1.session)).0) [
                        | inl (_, k) ↦ ground (arith, changed)
                        | inr (x, k) ↦ ground (
                          arith,
                          back,
                          restore_and_raise-session P Unit rollback_message keys backup x w2,
                        )
                      ]
            ]
      ]

  store_document-IsGood :
      (us : List Upload) (document_id owner filename content_type key : Text) (w : World P)
      → IsGood L c w
      → IsGood L c (store_document P us document_id owner filename content_type key w).2
  unfolding store_document
  store_document-IsGood us document_id owner filename content_type key w g =
      let up = upload_all P us [] w in
      let g1 : IsGood L c up.2 = IsGood-same L c w up.2 (upload_all-session L us [] w) g in
      let made =
        new_document P document_id owner filename content_type (some key) none
          (stored_result document_id) up.2 in
      let added =
        IsGood-change L c (add_document made.0) made.1 (K.add_document made.0 (rows P up.2) g1.0)
          g1 in
      ground (arith, g1, added)

  pub create_document_from_parse_result-Keeps :
      (owner key filename content_type markdown : Text) (json : Json)
      → Keeps L c
          (create_document_from_parse_result P owner key filename content_type markdown json)
  unfolding create_document_from_parse_result
  create_document_from_parse_result-Keeps owner key filename content_type markdown json w g =
      let id = P.uuid4 w.draws in
      let w0 : World P = record w { draws = suc w.draws } in
      let us = markdown_upload P id markdown ∷ json_upload P id json ∷ [] in
      let stored = store_document P us id owner filename content_type key w0 in
      let kept = store_document-IsGood us id owner filename content_type key w0 g in
      let w2 = rollback P stored.2 in
      let cleaned =
        IsGood-same L c w2 (delete_objects_best_effort P stored.1 3 w2).1
          (best_effort-session L stored.1 3 w2) (IsGood-rollback L c stored.2 kept) in
      elim (Result-cases stored.0) [
        | inl (d, r) ↦ ground (arith, kept)
        | inr (e, r) ↦ ground (arith, cleaned)
      ]
