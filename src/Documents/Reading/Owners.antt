-- ===== src/Documents/Reading/Owners.antt =====
-- Documents of other users, in `DocumentService`.
use document_agent_api.Common.{
  Text, text_eq_iff, true, ◌≡◌, ◌≢◌, refl, Option, none, some, List, [], ◌∷◌, err,
  document_not_found, find, All, Bool-cases, inl, inr, arith,
}
use document_agent_api.Models.{DocumentModel}
use document_agent_api.Platform.{Platform, World, rows}
use document_agent_api.Documents.Reading.{
  sql_eq, is_owned, get_document, get_document_source, get_document_result,
}
use document_agent_api.Documents.Deleting.{delete_document}

-- No row of the id belongs to the user.
abbrev pub IsForeign : (document_id user : Text) → List DocumentModel → Type 0
IsForeign document_id user =
    All (λ (d : DocumentModel). d.id ≡ document_id → d.owner_user_id ≢ some user)

not_found :
    (document_id user : Text) (documents : List DocumentModel)
    → IsForeign document_id user documents
    → find (is_owned document_id user) documents ≡ none
not_found document_id user [] h = refl
not_found document_id user (d ∷ documents) (h, hs) =
    elim (Bool-cases (is_owned document_id user d)) [
      | inl e ↦ absurd (
          h (ground (arith, text_eq_iff d.id document_id))
            (owner_of d.owner_user_id (ground arith)))
      | inr e ↦ ground (arith, not_found document_id user documents hs)
    ]
  where
    owner_of : (o : Option Text) → sql_eq o user ≡ true → o ≡ some user
    owner_of none e = absurd (ground arith)
    owner_of (some t) e = ground (arith, text_eq_iff t user)

-- For a user to whom no document of the id belongs, each of the four operations on a document raises
-- `DocumentNotFoundError` and changes nothing, whether or not another user has such a document.
pub foreign_document_hidden :
    (P : Platform) (document_id user : Text) (w : World P)
    → IsForeign document_id user (rows P w).documents
    → (get_document P document_id user w ≡ (err (document_not_found document_id), w))
      × (get_document_source P document_id user w ≡ (err (document_not_found document_id), w))
      × (get_document_result P document_id user w ≡ (err (document_not_found document_id), w))
      × (delete_document P document_id user w ≡ (err (document_not_found document_id), w))
unfolding get_document get_document_source get_document_result delete_document
foreign_document_hidden P document_id user w h =
    let f = not_found document_id user (rows P w).documents h in
    (ground (arith, f), ground (arith, f), ground (arith, f), ground (arith, f))
