-- ===== src/Storage/Refinement.antt =====
-- The local storage as a map from keys to bytes, over any sequence of its calls.
use document_agent_api.Common.{
  Text, Bytes, Bool, true, false, ◌≡◌, refl, sym, ◌∙◌, Option, none, some, List, [], ◌∷◌, Result,
  ok, err, if◌then◌else◌, arith,
}
use document_agent_api.Platform.{ObjectStorage}
use document_agent_api.Platform.Lawful.{StorageLaws}
use document_agent_api.Documents.Missing.{is_missing_object_error}
use document_agent_api.Storage.{FilePath, FileSystem}
use document_agent_api.Storage.Local.{FileSystemLaws, local_storage-StorageLaws}

-- A call of a storage, and what came of it.
pub data Call : Type 0 where
  put : (key : Text) (payload : Bytes) (content_type : Text) → Call
  get delete : (key : Text) → Call

pub data Reply : Type 0 where
  stored : Result Text → Reply
  bytes : Result Bytes → Reply
  deleted : Result (Unit {0}) → Reply

abbrev pub perform : (O : ObjectStorage) → Call → O.Store → Reply × O.Store
perform O (put key payload content_type) s =
    let (r, s') = O.put_bytes key payload content_type s in (stored r, s')
perform O (get key) s = let (r, s') = O.get_bytes key s in (bytes r, s')
perform O (delete key) s = let (r, s') = O.delete_object key s in (deleted r, s')

-- The specification: a map, and what a call may make of it; `same` tells the keys of one object. A put
-- that raised leaves open what is under its key, and keeps the rest.
abbrev pub Objects : Type 0
Objects = Text → Option Bytes

abbrev pub Follows : (same : Text → Text → Bool) → Objects → Call → Reply → Objects → Type 0
Follows same m (put k d content_type) (stored (ok _)) m' =
    (j : Text) → m' j ≡ (if same k j then some d else m j)
Follows same m (put k d content_type) (stored (err _)) m' =
    (j : Text) → same k j ≡ false → m' j ≡ m j
Follows same m (delete k) (deleted (ok _)) m' = (j : Text) → m' j ≡ (if same k j then none else m j)
Follows same m _ _ m' = (j : Text) → m' j ≡ m j

abbrev pub MissingIf : Bool → Option Bytes → Type 0
MissingIf true o = o ≡ none
MissingIf false o = Unit

-- The replies that the specification permits: bytes are those of the map, and an object is said to be
-- missing only where the map has none.
abbrev pub Permitted : (unicode : Text → Text) → Objects → Call → Reply → Type 0
Permitted unicode m (get k) (bytes (ok d)) = m k ≡ some d
Permitted unicode m (get k) (bytes (err e)) = MissingIf (is_missing_object_error unicode e) (m k)
Permitted unicode m (delete k) (deleted (err e)) =
    MissingIf (is_missing_object_error unicode e) (m k)
Permitted unicode m _ _ = Unit

missing : (b : Bool) (o : Option Bytes) → (b ≡ true → o ≡ none) → MissingIf b o
missing true o h = h refl
missing false o h = tt

module _ {unicode : Text → Text} {O : ObjectStorage} (L : StorageLaws unicode O) where
  -- Each reply of the calls is permitted, a map follows each call, and the objects at the end are
  -- those of the last map.
  abbrev pub Refines : Objects → List Call → O.Store → Type 0
  Refines m [] s = (j : Text) → L.holds s j ≡ m j
  Refines m (c ∷ cs) s =
      let (reply, s') = perform O c s in
      Permitted unicode m c reply
      × ((m' : Objects) × Follows L.same m c reply m' × Refines m' cs s')

  permitted :
      (m : Objects) (c : Call) (s : O.Store)
      → ((j : Text) → L.holds s j ≡ m j)
      → Permitted unicode m c (perform O c s).0
  permitted m (put k d content_type) s h = tt
  permitted m (get k) s h = of_reply (O.get_bytes k s).0 refl
    where
      of_reply :
          (r : Result Bytes) → (O.get_bytes k s).0 ≡ r → Permitted unicode m (get k) (bytes r)
      of_reply (ok d) e = sym (h k) ∙ L.get-ok k s d e
      of_reply (err x) e =
          missing (is_missing_object_error unicode x) (m k)
            (λ t. sym (h k) ∙ L.get-missing k s x e t)
  permitted m (delete k) s h = of_reply (O.delete_object k s).0 refl
    where
      of_reply :
          (r : Result (Unit {0}))
          → (O.delete_object k s).0 ≡ r
          → Permitted unicode m (delete k) (deleted r)
      of_reply (ok d) e = tt
      of_reply (err x) e =
          missing (is_missing_object_error unicode x) (m k)
            (λ t. sym (h k) ∙ L.delete-missing k s x e t)

  followed :
      (m : Objects) (c : Call) (s : O.Store)
      → ((j : Text) → L.holds s j ≡ m j)
      → Follows L.same m c (perform O c s).0 (L.holds (perform O c s).1)
  followed m (put k d content_type) s h = of_reply (O.put_bytes k d content_type s).0 refl
    where
      of_reply :
          (r : Result Text)
          → (O.put_bytes k d content_type s).0 ≡ r
          → Follows L.same m
              (put k d content_type)
              (stored r)
              (L.holds (O.put_bytes k d content_type s).1)
      of_reply (ok x) e = λ j. ground (arith, h j, L.put-holds k d content_type s j)
      of_reply (err x) e = λ j n. ground (arith, h j, L.put-holds k d content_type s j)
  followed m (get k) s h = λ j. L.get-holds k s j ∙ h j
  followed m (delete k) s h = of_reply (O.delete_object k s).0 refl
    where
      of_reply :
          (r : Result (Unit {0}))
          → (O.delete_object k s).0 ≡ r
          → Follows L.same m (delete k) (deleted r) (L.holds (O.delete_object k s).1)
      of_reply (ok x) e = λ j. ground (arith, h j, L.delete-holds k s j)
      of_reply (err x) e = λ j. ground (arith, h j, L.delete-holds k s j)

  refines :
      (m : Objects) (cs : List Call) (s : O.Store)
      → ((j : Text) → L.holds s j ≡ m j)
      → Refines m cs s
  refines m [] s h = h
  refines m (c ∷ cs) s h = (
    permitted m c s h,
    (
      L.holds (perform O c s).1,
      followed m c s h,
      refines (L.holds (perform O c s).1) cs (perform O c s).1 (λ j. refl),
    ),
  )

-- The local storage refines a map from keys to bytes. Over a file system that keeps its contract, and
-- for every sequence of calls, each reply is one that the map permits: the bytes that are read are
-- those put last under the key, if that put returned, and an object is reported missing only where there is none. The
-- objects at the end are those of the map. A put that raises leaves open what is under its key, and
-- no call changes anything under another. Two keys are one object of the map where they resolve to one
-- path.
pub local_storage-Refines :
    {unicode : Text → Text} {F : FileSystem} (L : FileSystemLaws unicode F) (root : FilePath)
    (calls : List Call) (s : F.Files)
    → let laws = local_storage-StorageLaws L root in Refines laws (laws.holds s) calls s
local_storage-Refines L root calls s =
    let laws = local_storage-StorageLaws L root in refines laws (laws.holds s) calls s (λ j. refl)
