-- ===== src/Storage/Local.antt =====
-- `LocalObjectStorage` as an object storage, over a file system.
use document_agent_api.Common.{
  Text, Bytes, Bool, true, false, not, ◌||◌, ◌&&◌, ◌≡◌, ◌↔◌, Option, none, some, Result-cases, inl,
  inr, ok, err, Exn, is_ok, if◌then◌else◌, arith,
}
use document_agent_api.Platform.Lawful.{StorageLaws}
use document_agent_api.Documents.Missing.{is_missing_object_error}
use document_agent_api.Storage.{
  FilePath, FileSystem, is_relative_to, resolve_path, local_put_bytes, local_get_bytes,
  local_delete_object, local_storage,
}

-- What the storage relies on of the file system. `write_bytes` truncates the file before it writes: if
-- it raises, the file may hold anything, and the other files are as they were.
pub record FileSystemLaws (unicode : Text → Text) (F : FileSystem) : Type 0 where
  pub contents : F.Files → FilePath → Option Bytes
  pub path_eq : FilePath → FilePath → Bool
  pub path_eq_iff : (p q : FilePath) → (path_eq p q ≡ true) ↔ (p ≡ q)
  pub make_parent-contents :
      (p : FilePath) (s : F.Files) (q : FilePath) → contents (F.make_parent p s).1 q ≡ contents s q
  pub write-contents :
      (p : FilePath) (d : Bytes) (s : F.Files) (q : FilePath)
      → (is_ok (F.write_bytes p d s).0 || not (path_eq p q)) ≡ true
      → contents (F.write_bytes p d s).1 q ≡ (if path_eq p q then some d else contents s q)
  pub read-contents :
      (p : FilePath) (s : F.Files) (q : FilePath) → contents (F.read_bytes p s).1 q ≡ contents s q
  pub read-ok :
      (p : FilePath) (s : F.Files) (d : Bytes) → (F.read_bytes p s).0 ≡ ok d → contents s p ≡ some d
  pub read-missing :
      (p : FilePath) (s : F.Files) (e : Exn)
      → (F.read_bytes p s).0 ≡ err e
      → is_missing_object_error unicode e ≡ true
      → contents s p ≡ none
  pub exists-contents : (p : FilePath) (s : F.Files) → F.exists p s ≡ false → contents s p ≡ none
  pub unlink-contents :
      (p : FilePath) (s : F.Files) (q : FilePath)
      → contents (F.unlink p s).1 q
        ≡ (if is_ok (F.unlink p s).0 && path_eq p q then none else contents s q)
  pub unlink-missing :
      (p : FilePath) (s : F.Files) (e : Exn)
      → (F.unlink p s).0 ≡ err e
      → is_missing_object_error unicode e ≡ true
      → contents s p ≡ none

module _ (F : FileSystem) (root : FilePath) where
  -- A key is resolved to a path under the root, or refused, whatever the links in the file system.
  pub resolve_path-is_relative_to :
      (key : Text) (path : FilePath)
      → resolve_path F root key ≡ ok path
      → is_relative_to path root ≡ true
  unfolding resolve_path
  resolve_path-is_relative_to key path h = ground arith

module _ {unicode : Text → Text} {F : FileSystem} (L : FileSystemLaws unicode F)
    (root : FilePath) where
  -- What lies under a key.
  local_holds : F.Files → Text → Option Bytes
  local_holds s key = elim (resolve_path F root key) [ err e ↦ none | ok path ↦ L.contents s path ]

  local_same : Text → Text → Bool
  local_same k j = elim (resolve_path F root k) [
    | err _ ↦ elim (resolve_path F root j) [ err _ ↦ true | ok _ ↦ false ]
    | ok p ↦ elim (resolve_path F root j) [ err _ ↦ false | ok q ↦ L.path_eq p q ]
  ]

  local_same_refl : (k : Text) → local_same k k ≡ true
  unfolding local_same
  local_same_refl k = elim (Result-cases (resolve_path F root k)) [
    | inl (p, e) ↦ ground (arith, L.path_eq_iff p p)
    | inr (x, e) ↦ ground arith
  ]

  local_same-holds :
      (k j : Text) (s : F.Files) → local_same k j ≡ true → local_holds s k ≡ local_holds s j
  unfolding local_same local_holds
  local_same-holds k j s h = elim (Result-cases (resolve_path F root k)) [
    | inl (p, e) ↦ elim (Result-cases (resolve_path F root j)) [
      | inl (q, f) ↦ ground (arith, L.path_eq_iff p q)
      | inr (y, f) ↦ ground arith
    ]
    | inr (x, e) ↦ elim (Result-cases (resolve_path F root j)) [
      | inl (q, f) ↦ ground arith
      | inr (y, f) ↦ ground arith
    ]
  ]

  local_get-holds :
      (k : Text) (s : F.Files) (j : Text)
      → local_holds (local_get_bytes F root k s).1 j ≡ local_holds s j
  unfolding local_holds local_get_bytes
  local_get-holds k s j = elim (Result-cases (resolve_path F root k)) [
    | inl (p, e) ↦ elim (Result-cases (resolve_path F root j)) [
      | inl (q, f) ↦ ground (arith, L.read-contents p s q)
      | inr (y, f) ↦ ground arith
    ]
    | inr (x, e) ↦ ground arith
  ]

  local_get-ok :
      (k : Text) (s : F.Files) (d : Bytes)
      → (local_get_bytes F root k s).0 ≡ ok d
      → local_holds s k ≡ some d
  unfolding local_holds local_get_bytes
  local_get-ok k s d h = elim (Result-cases (resolve_path F root k)) [
    | inl (p, e) ↦ ground (arith, L.read-ok p s d)
    | inr (x, e) ↦ ground arith
  ]

  local_get-missing :
      (k : Text) (s : F.Files) (e : Exn)
      → (local_get_bytes F root k s).0 ≡ err e
      → is_missing_object_error unicode e ≡ true
      → local_holds s k ≡ none
  unfolding local_holds local_get_bytes
  local_get-missing k s x h m = elim (Result-cases (resolve_path F root k)) [
    | inl (p, e) ↦ ground (arith, L.read-missing p s x)
    | inr (y, e) ↦ ground arith
  ]

  local_put-holds :
      (k : Text) (d : Bytes) (c : Text) (s : F.Files) (j : Text)
      → (is_ok (local_put_bytes F root k d c s).0 || not (local_same k j)) ≡ true
      → local_holds (local_put_bytes F root k d c s).1 j
        ≡ (if local_same k j then some d else local_holds s j)
  unfolding local_holds local_put_bytes local_same
  local_put-holds k d c s j h = elim (Result-cases (resolve_path F root k)) [
    | inl (p, e) ↦
        let s1 = (F.make_parent p s).1 in
        elim (Result-cases (F.make_parent p s).0) [
          | inl (_, m) ↦ elim (Result-cases (F.write_bytes p d s1).0) [
            | inl (_, r) ↦ elim (Result-cases (resolve_path F root j)) [
              | inl (q, f) ↦ ground (arith, L.make_parent-contents p s q, L.write-contents p d s1 q)
              | inr (y, f) ↦ ground arith
            ]
            | inr (z, r) ↦ elim (Result-cases (resolve_path F root j)) [
              | inl (q, f) ↦ ground (arith, L.make_parent-contents p s q, L.write-contents p d s1 q)
              | inr (y, f) ↦ ground arith
            ]
          ]
          | inr (z, m) ↦ elim (Result-cases (resolve_path F root j)) [
            | inl (q, f) ↦ ground (arith, L.make_parent-contents p s q)
            | inr (y, f) ↦ ground arith
          ]
        ]
    | inr (x, e) ↦ elim (Result-cases (resolve_path F root j)) [
      | inl (q, f) ↦ ground arith
      | inr (y, f) ↦ ground arith
    ]
  ]

  local_delete-holds :
      (k : Text) (s : F.Files) (j : Text)
      → local_holds (local_delete_object F root k s).1 j ≡ (
          if is_ok (local_delete_object F root k s).0 && local_same k j
          then none
          else local_holds s j)
  unfolding local_holds local_delete_object local_same
  local_delete-holds k s j = elim (Result-cases (resolve_path F root k)) [
    | inl (p, e) ↦ elim (Result-cases (resolve_path F root j)) [
      | inl (q, f) ↦
          ground (arith, L.unlink-contents p s q, L.exists-contents p s, L.path_eq_iff p q)
      | inr (y, f) ↦ ground arith
    ]
    | inr (x, e) ↦ ground arith
  ]

  local_delete-missing :
      (k : Text) (s : F.Files) (e : Exn)
      → (local_delete_object F root k s).0 ≡ err e
      → is_missing_object_error unicode e ≡ true
      → local_holds s k ≡ none
  unfolding local_holds local_delete_object
  local_delete-missing k s x h m = elim (Result-cases (resolve_path F root k)) [
    | inl (p, e) ↦ ground (arith, L.unlink-missing p s x)
    | inr (y, e) ↦ ground arith
  ]

  -- Over a file system that keeps its contract, the local storage keeps the contract of an object
  -- storage: two keys name one object when they resolve to one path, or are both refused.
  pub local_storage-StorageLaws : StorageLaws unicode (local_storage F root)
  local_storage-StorageLaws = record {
    holds = local_holds;
    same = local_same;
    same_refl = local_same_refl;
    same-holds = local_same-holds;
    get-holds = local_get-holds;
    get-ok = local_get-ok;
    get-missing = local_get-missing;
    put-holds = local_put-holds;
    delete-holds = local_delete-holds;
    delete-missing = local_delete-missing;
  }
