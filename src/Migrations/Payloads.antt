-- ===== src/Migrations/Payloads.antt =====
-- The guards of the downgrade in migrations/versions/0004_move_document_payloads_to_object_storage.py,
-- over the rows of `documents`, each with its row of `document_results`.
use document_agent_api.Common.{
  ℕ, suc, codes, Bool, false, not, ◌&&◌, ◌||◌, none, some, is_some, List, [], ◌∷◌, Result, ok, err,
  runtime_error, ltb, if◌then◌else◌,
}
use document_agent_api.Models.{DocumentModel, DocumentResultModel}
use document_agent_api.Platform.{Platform}

-- `WHERE source_object_key IS NOT NULL AND file_data IS NULL`
abbrev is_source_object_backed : DocumentModel → Bool
is_source_object_backed d = is_some d.source_object_key && not (is_some d.file_data)

-- `WHERE markdown_object_key IS NOT NULL OR … OR canonical_json IS NULL`
abbrev is_object_storage_backed : DocumentResultModel → Bool
is_object_storage_backed r =
    is_some r.markdown_object_key
    || is_some r.canonical_json_object_key
    || not (is_some r.markdown)
    || not (is_some r.canonical_json)

abbrev has_object_storage_backed : DocumentModel → Bool
has_object_storage_backed d = elim d.result [ none ↦ false | some r ↦ is_object_storage_backed r ]

-- `SELECT COUNT(*)`
abbrev count : (DocumentModel → Bool) → List DocumentModel → ℕ
count p [] = 0
count p (d ∷ ds) = let rest = count p ds in if p d then suc rest else rest

-- The guards, in order.
unfoldable pub check_downgrade_0004 : List DocumentModel → Result (Unit {0})
check_downgrade_0004 documents =
    if ltb 0 (count is_source_object_backed documents)
    then err (
        runtime_error (
          codes
            "Cannot downgrade 0004_document_object_storage while source_object_key-only rows exist in documents. Restore file_data from source objects first."))
    else if ltb 0 (count has_object_storage_backed documents)
    then err (
        runtime_error (
          codes
            "Cannot downgrade 0004_document_object_storage while object-storage-backed rows exist in document_results. Restore inline payloads first."))
    else ok tt

-- A row without the columns that the downgrade drops.
abbrev pub without_object_keys : DocumentModel → DocumentModel
without_object_keys d = record d {
  source_object_key = none;
  result = elim d.result [
    | none ↦ none
    | some r ↦ some (record r { markdown_object_key = none; canonical_json_object_key = none })
  ];
}
