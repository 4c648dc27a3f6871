-- ===== src/Platform/Lawful.antt =====
-- What the services rely on of a platform, as the documentation of each part states it.
use document_agent_api.Common.{
  Text, Bytes, ◌≡◌, Bool, true, not, ◌||◌, ◌&&◌, Option, none, some, ok, err, Exn, is_ok,
  if◌then◌else◌,
}
use document_agent_api.Models.{Tables}
use document_agent_api.Platform.{ObjectStorage, Database, Platform}
use document_agent_api.Documents.Missing.{is_missing_object_error}

-- A storage: `holds` is what lies under a key, `same` tells that two keys name one object. A write that
-- raises leaves anything under its own key, part of the payload too, and nothing new under others; a
-- deletion that raises has changed nothing, and the error for a missing object is raised only where
-- there is none.
pub record StorageLaws (unicode : Text → Text) (O : ObjectStorage) : Type 0 where
  pub holds : O.Store → Text → Option Bytes
  pub same : Text → Text → Bool
  pub same_refl : (k : Text) → same k k ≡ true
  pub same-holds : (k j : Text) (s : O.Store) → same k j ≡ true → holds s k ≡ holds s j
  pub get-holds : (k : Text) (s : O.Store) (j : Text) → holds (O.get_bytes k s).1 j ≡ holds s j
  pub get-ok :
      (k : Text) (s : O.Store) (d : Bytes) → (O.get_bytes k s).0 ≡ ok d → holds s k ≡ some d
  pub get-missing :
      (k : Text) (s : O.Store) (e : Exn)
      → (O.get_bytes k s).0 ≡ err e
      → is_missing_object_error unicode e ≡ true
      → holds s k ≡ none
  pub put-holds :
      (k : Text) (d : Bytes) (c : Text) (s : O.Store) (j : Text)
      → (is_ok (O.put_bytes k d c s).0 || not (same k j)) ≡ true
      → holds (O.put_bytes k d c s).1 j ≡ (if same k j then some d else holds s j)
  pub delete-holds :
      (k : Text) (s : O.Store) (j : Text)
      → holds (O.delete_object k s).1 j
        ≡ (if is_ok (O.delete_object k s).0 && same k j then none else holds s j)
  pub delete-missing :
      (k : Text) (s : O.Store) (e : Exn)
      → (O.delete_object k s).0 ≡ err e
      → is_missing_object_error unicode e ≡ true
      → holds s k ≡ none

-- A session with autoflush off. A commit that raises leaves the database as it was, and a rollback
-- goes back to it. The lock-step of other sessions is not modelled.
pub record DatabaseLaws (D : Database) : Type 0 where
  pub working-modify :
      (f : Tables → Tables) (s : D.Session) → D.working (D.modify f s) ≡ f (D.working s)
  pub committed-modify :
      (f : Tables → Tables) (s : D.Session) → D.committed (D.modify f s) ≡ D.committed s
  pub working-commit : (s : D.Session) → D.working (D.commit s).1 ≡ D.working s
  pub committed-commit :
      (s : D.Session)
      → D.committed (D.commit s).1 ≡ (if is_ok (D.commit s).0 then D.working s else D.committed s)
  pub working-rollback : (s : D.Session) → D.working (D.rollback s) ≡ D.committed s
  pub committed-rollback : (s : D.Session) → D.committed (D.rollback s) ≡ D.committed s

-- The laws of a platform.
pub record Laws (P : Platform) : Type 0 where
  pub storage : StorageLaws P.unicode_lower P.storage
  pub database : DatabaseLaws P.database
