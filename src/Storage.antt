-- ===== src/Storage.antt =====
-- storage/backends.py: the two implementations of the storage. What the operating system and the S3
-- client do is a parameter.
pub mod Local
pub mod Refinement
use document_agent_api.Common.{
  ℕ, Text, Bytes, codes, text_eq, lstrip, strip, split_on, Bool, true, false, not, ◌&&◌, ◌||◌,
  Option, none, some, List, [], ◌∷◌, ◌++◌, Result, ok, err, Exn, value_error, Exec, pure, raise,
  ◌>>=◌, ◌>>◌, keep, ◌==◌, if◌then◌else◌,
}
use document_agent_api.Platform.{ObjectStorage}
use document_agent_api.Documents.Names.{is_empty}

-- An absolute path, as its parts.
abbrev pub FilePath : Type 0
FilePath = List Text

-- The file system: `resolve` is `Path.resolve()`, which follows symbolic links and "..", and
-- `make_parent` is `path.parent.mkdir(parents=True, exist_ok=True)`.
pub record FileSystem : Type 1 where
  pub Files : Type 0
  pub resolve : FilePath → FilePath
  pub make_parent : FilePath → Exec Files Unit
  pub write_bytes : FilePath → Bytes → Exec Files Unit
  pub read_bytes : FilePath → Exec Files Bytes
  pub exists : FilePath → Files → Bool
  pub unlink : FilePath → Exec Files Unit

-- `path.relative_to(root)` succeeds.
unfoldable pub is_relative_to : FilePath → FilePath → Bool
is_relative_to path [] = true
is_relative_to [] (r ∷ root) = false
is_relative_to (p ∷ path) (r ∷ root) = text_eq p r && is_relative_to path root

-- The parts that a key adds to the root.
abbrev pub key_parts : Text → FilePath
key_parts key = keep (λ p. not (is_empty p || text_eq p (codes "."))) (split_on b'/' key)

module _ (F : FileSystem) (root : FilePath) where
  -- `_resolve_path`
  unfoldable pub resolve_path : Text → Result FilePath
  unfolding is_relative_to
  resolve_path key =
      let normalized_key = lstrip (λ c. c == b'/') (strip key) in
      let resolved_path = F.resolve (root ++ key_parts normalized_key) in
      if is_empty normalized_key
      then err (value_error (codes "object key must not be empty"))
      else if is_relative_to resolved_path root
      then ok resolved_path
      else err (value_error (codes "object key escapes storage root"))

  -- `LocalObjectStorage.put_bytes`
  unfoldable pub local_put_bytes : Text → Bytes → Text → Exec F.Files Text
  local_put_bytes key payload content_type s = elim (resolve_path key) [
    | err e ↦ (err e, s)
    | ok path ↦ (do F.make_parent path; F.write_bytes path payload; pure key) s
  ]

  -- `LocalObjectStorage.get_bytes`
  unfoldable pub local_get_bytes : Text → Exec F.Files Bytes
  local_get_bytes key s = elim (resolve_path key) [
    | err e ↦ (err e, s)
    | ok path ↦ F.read_bytes path s
  ]

  -- `LocalObjectStorage.delete_object`
  unfoldable pub local_delete_object : Text → Exec F.Files Unit
  local_delete_object key s = elim (resolve_path key) [
    | err e ↦ (err e, s)
    | ok path ↦ if F.exists path s then F.unlink path s else (ok tt, s)
  ]

  -- `LocalObjectStorage`
  abbrev pub local_storage : ObjectStorage
  local_storage = record {
    Store = F.Files;
    put_bytes = local_put_bytes;
    get_bytes = local_get_bytes;
    delete_object = local_delete_object;
  }

-- The S3 client: an object's bytes by bucket and key.
pub record S3Client : Type 1 where
  pub Remote : Type 0
  pub put_object : (bucket key : Text) (body : Bytes) (content_type : Text) → Exec Remote Unit
  pub get_object : (bucket key : Text) → Exec Remote Bytes
  pub delete_object : (bucket key : Text) → Exec Remote Unit

-- `R2ObjectStorage`
abbrev pub r2_storage : S3Client → Text → ObjectStorage
r2_storage C bucket = record {
  Store = C.Remote;
  put_bytes = λ key payload content_type. do
    C.put_object bucket key payload content_type
    pure key;
  get_bytes = λ key. C.get_object bucket key;
  delete_object = λ key. C.delete_object bucket key;
}
