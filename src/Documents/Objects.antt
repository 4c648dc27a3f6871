-- ===== src/Documents/Objects.antt =====
-- The object helpers of documents/service.py: best-effort deletion with retries, strict deletion
-- that restores what it deleted, and the keys of a document. Log records are left out.
pub mod Cleanup
pub mod Restoring
pub mod Strict
pub mod Sessions
use document_agent_api.Common.{
  ℕ, zero, suc, Text, Bytes, codes, text_eq, ends_with, Bool, true, false, Option, none, some, List,
  [], ◌∷◌, ◌++◌, Result, ok, err, Exn, runtime_error, Exec, if◌then◌else◌,
}
use document_agent_api.Models.{DocumentModel, DocumentResultModel}
use document_agent_api.Platform.{Platform, World, put_bytes, get_bytes, delete_object}
use document_agent_api.Documents.Missing.{is_missing_object_error}

-- `if key:` for an optional text.
abbrev pub truthy : Option Text → Option Text
truthy none = none
truthy (some []) = none
truthy (some (c ∷ s)) = some (c ∷ s)

abbrev pub to_keys : Option Text → List Text
to_keys none = []
to_keys (some key) = key ∷ []

abbrev pub result_keys : Option DocumentResultModel → List Text
result_keys none = []
result_keys (some result) =
    to_keys (truthy result.markdown_object_key) ++ to_keys (truthy result.canonical_json_object_key)

-- `_collect_object_keys`
unfoldable pub collect_object_keys : DocumentModel → List Text
collect_object_keys document =
    to_keys (truthy document.source_object_key) ++ result_keys document.result

-- `_content_type_for_key`
unfoldable pub content_type_for_key : Text → Text
content_type_for_key key =
    if ends_with key (codes ".md")
    then codes "text/markdown"
    else if ends_with key (codes ".json")
    then codes "application/json"
    else codes "application/octet-stream"

-- The dictionary of the payloads by key.
abbrev pub Backup : Type 0
Backup = List (Text × Bytes)

unfoldable pub payload_of : Text → Backup → Option Bytes
payload_of key [] = none
payload_of key ((k, d) ∷ backup) = if text_eq k key then some d else payload_of key backup

abbrev pub strict_message : Text
strict_message = codes "storage delete failed and object rollback also failed"

module _ (P : Platform) where
  -- The loop over the attempts: whether the key was deleted.
  unfoldable pub try_delete : ℕ → Text → World P → Bool × World P
  try_delete zero key w = (false, w)
  try_delete (suc retries) key w =
      let (r, w') = delete_object P key w in
      elim r [ ok _ ↦ (true, w') | err _ ↦ try_delete retries key w' ]

  -- `_delete_objects_best_effort`: the keys that could not be deleted.
  unfoldable pub delete_objects_best_effort : List Text → ℕ → World P → List Text × World P
  unfolding try_delete
  delete_objects_best_effort [] retries w = ([], w)
  delete_objects_best_effort (key ∷ keys) retries w =
      let (deleted, w') = try_delete retries key w in
      let (failed, w'') = delete_objects_best_effort keys retries w' in
      (if deleted then failed else key ∷ failed, w'')

  -- `_restore_objects_best_effort`: the keys that could not be restored.
  unfoldable pub restore_objects_best_effort : List Text → Backup → World P → List Text × World P
  unfolding content_type_for_key payload_of
  restore_objects_best_effort [] backup w = ([], w)
  restore_objects_best_effort (key ∷ keys) backup w = elim (payload_of key backup) [
    | none ↦ let (failed, w') = restore_objects_best_effort keys backup w in (key ∷ failed, w')
    | some payload ↦
        let (r, w') = put_bytes P key payload (content_type_for_key key) w in
        let (failed, w'') = restore_objects_best_effort keys backup w' in
        elim r [ ok _ ↦ (failed, w'') | err _ ↦ (key ∷ failed, w'') ]
  ]

  -- The first loop of `_delete_objects_strict`: what lies under each key that is there.
  unfoldable pub back_up : List Text → Backup → Exec (World P) Backup
  back_up [] backup w = (ok backup, w)
  back_up (key ∷ keys) backup w =
      let (r, w') = get_bytes P key w in
      elim r [
        | ok payload ↦ back_up keys ((key, payload) ∷ backup) w'
        | err e ↦ elim (is_missing_object_error P.unicode_lower e) [
          | true ↦ back_up keys backup w'
          | false ↦ (err e, w')
        ]
      ]

  -- Its second loop: the keys that were deleted, up to the first error that is not about a
  -- missing object.
  unfoldable pub delete_each :
      List Text → List Text → World P → Result (Unit {0}) × List Text × World P
  delete_each [] deleted w = (ok tt, deleted, w)
  delete_each (key ∷ keys) deleted w =
      let (r, w') = delete_object P key w in
      elim r [
        | ok _ ↦ delete_each keys (deleted ++ key ∷ []) w'
        | err e ↦ elim (is_missing_object_error P.unicode_lower e) [
          | true ↦ delete_each keys deleted w'
          | false ↦ (err e, deleted, w')
        ]
      ]

  -- The `except` part: restores, and raises again or reports that restoring failed.
  unfoldable pub restore_and_raise :
      {A : Type 0} → Text → List Text → Backup → Exn → Exec (World P) A
  unfolding restore_objects_best_effort
  restore_and_raise message deleted backup e w =
      let (failed, w') = restore_objects_best_effort deleted backup w in
      elim failed [ [] ↦ (err e, w') | _ ∷ _ ↦ (err (runtime_error message), w') ]

  unfoldable pub delete_or_restore : List Text → Backup → Exec (World P) (Backup × List Text)
  unfolding delete_each restore_and_raise
  delete_or_restore keys backup w =
      let (r, deleted, w') = delete_each keys [] w in
      elim r [
        | ok _ ↦ (ok (backup, deleted), w')
        | err e ↦ restore_and_raise strict_message deleted backup e w'
      ]

  -- `_delete_objects_strict`
  unfoldable pub delete_objects_strict : List Text → Exec (World P) (Backup × List Text)
  unfolding back_up delete_or_restore
  delete_objects_strict keys w =
      let (r, w') = back_up keys [] w in
      elim r [ ok backup ↦ delete_or_restore keys backup w' | err e ↦ (err e, w') ]
