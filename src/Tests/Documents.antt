-- ===== src/Tests/Documents.antt =====
-- The theorems on documents, at one document of a user.
use document_agent_api.Common.{
  Text, codes, text_eq, some, ok, true, ◌≡◌, refl, none, [], ◌∷◌, err, document_not_found, arith,
  ◌↔◌, ◌⊎◌,
}
use document_agent_api.Common.Utf8.{utf8_encode, is_scalar}
use document_agent_api.Platform.{World}
use document_agent_api.Models.{DocumentModel, obj, end}
use document_agent_api.Documents.Schemas.{DocumentParseResponse, to_document_parse_response}
use document_agent_api.Documents.Creating.{
  stored_result, upload_all, store_document, create_document_from_parse_result, encode_failure,
}
use document_agent_api.Documents.Creating.RoundTrip.{get-create_parse_result}
use document_agent_api.Tests.Fixture.{nth_id, get_object, object_of}
use document_agent_api.Documents.Objects.{delete_objects_best_effort, delete_objects_strict}
use document_agent_api.Documents.Objects.Cleanup.{Accounted, at, touched, best_effort_lem}
use document_agent_api.Documents.Objects.Strict
use document_agent_api.Documents.Objects.Strict.{delete_objects_strict_atomic}
use document_agent_api.Documents.Deleting.{delete_document}
use document_agent_api.Documents.Deleting.Atomic
use document_agent_api.Documents.Deleting.Atomic.{delete_document_atomic}
use document_agent_api.Documents.Creating.{create_document}
use document_agent_api.Documents.Creating.Outcomes
use document_agent_api.Documents.Creating.Outcomes.{create_document_lem}
use document_agent_api.Documents.Reading.{get_document, get_document_source, get_document_result}
use document_agent_api.Documents.Reading.Owners.{foreign_document_hidden}
use document_agent_api.Documents.Router.{UploadFile, upload_error}
use document_agent_api.Documents.Router.Uploads.{IsAccepted, upload_error_iff}
use document_agent_api.Tests.Fixture.{memory, laws, world, source_key}

-- The document is deleted with its object.
delete_document_atomic_example :
    Atomic.Promise laws
      (codes "d1")
      (codes "u1")
      world
      (delete_document memory (codes "d1") (codes "u1") world)
delete_document_atomic_example = delete_document_atomic laws (codes "d1") (codes "u1") world

delete_objects_strict_atomic_example :
    Strict.Promise laws
      (source_key ∷ [])
      world
      (delete_objects_strict memory (source_key ∷ []) world)
delete_objects_strict_atomic_example = delete_objects_strict_atomic laws (source_key ∷ []) world

best_effort_lem_example :
    let (failed, w') = delete_objects_best_effort memory (source_key ∷ []) 3 world in
    Accounted laws failed w' (source_key ∷ [])
    × ((j : Text) → (touched laws (source_key ∷ []) j ≡ true) ⊎ (at laws w' j ≡ at laws world j))
best_effort_lem_example = best_effort_lem laws (source_key ∷ []) 3 world

create_document_lem_example :
    Outcomes.Outcome laws (codes "u2") (codes "b.pdf") (codes "application/pdf") (b'%' ∷ []) world (
      create_document memory
        (codes "u2")
        (codes "b.pdf")
        (codes "application/pdf")
        (b'%' ∷ [])
        world)
create_document_lem_example =
    create_document_lem laws (codes "u2") (codes "b.pdf") (codes "application/pdf") (b'%' ∷ [])
      world refl

-- "u2" does not see the document of "u1".
foreign_document_hidden_example :
    (get_document memory (codes "d1") (codes "u2") world
      ≡ (err (document_not_found (codes "d1")), world))
    × (get_document_source memory (codes "d1") (codes "u2") world
        ≡ (err (document_not_found (codes "d1")), world))
    × (get_document_result memory (codes "d1") (codes "u2") world
        ≡ (err (document_not_found (codes "d1")), world))
    × (delete_document memory (codes "d1") (codes "u2") world
        ≡ (err (document_not_found (codes "d1")), world))
foreign_document_hidden_example =
    foreign_document_hidden memory (codes "d1") (codes "u2") world
      ((λ _ e. absurd (ground (arith, e))), tt)

-- A PDF for the backend that takes PDFs.
abbrev upload : UploadFile
upload = record { filename = codes "a.pdf"; content_type = none; payload = b'%' ∷ [] }

upload_error_iff_example :
    (upload_error (λ t. t) (codes "pdftotext" ∷ []) upload (codes "pdftotext") ≡ none)
    ↔ IsAccepted (λ t. t) (codes "pdftotext" ∷ []) upload (codes "pdftotext")
upload_error_iff_example =
    upload_error_iff (λ t. t) (codes "pdftotext" ∷ []) upload (codes "pdftotext")

-- The document of a parse result that is stored in the first world.
abbrev parsed_document : DocumentModel
parsed_document = record {
  id = nth_id 0;
  owner_user_id = some (codes "u1");
  source_object_key = some source_key;
  filename = codes "a.pdf";
  content_type = codes "application/pdf";
  file_data = none;
  created_at = 1;
  updated_at = 2;
  result = some (stored_result (nth_id 0));
}

abbrev parsed_response : DocumentParseResponse
parsed_response = to_document_parse_response parsed_document (codes "# A") (obj end)

abbrev parsed_world : World memory
parsed_world =
    (create_document_from_parse_result memory (codes "u1") source_key (codes "a.pdf")
      (codes "application/pdf") (codes "# A") (obj end) world).1

get-create_parse_result_example :
    (get_document_result memory (nth_id 0) (codes "u1") parsed_world).0 ≡ ok parsed_response
unfolding encode_failure create_document_from_parse_result store_document upload_all nth_id text_eq
    get_object object_of is_scalar
get-create_parse_result_example =
    get-create_parse_result laws (codes "u1") source_key (codes "a.pdf") (codes "application/pdf")
      (codes "# A") end world parsed_response parsed_world (utf8_encode (codes "# A"))
      (utf8_encode (codes "{}")) refl refl refl (refl, (refl, (refl, tt))) (refl, (refl, tt)) refl
      refl refl
