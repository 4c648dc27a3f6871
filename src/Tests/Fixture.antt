-- ===== src/Tests/Fixture.antt =====
-- A platform in memory: the objects by key, the tables of a session, and a queue.
use document_agent_api.Common.{
  ℕ, zero, suc, Text, Bytes, codes, text_eq, text_eq_iff, text_eq_refl, Bool, true, false, ◌≡◌,
  refl, ap, ◌≢◌, Option, none, some, List, [], ◌∷◌, Result, ok, err, Exn, file_not_found, other,
  is_ok, Exec, if◌then◌else◌, arith, Bool-cases, Option-cases, inl, inr,
}
use document_agent_api.Models.{Tables, DocumentModel, ParseJobModel, queued, obj, end, str, field}
use document_agent_api.Platform.{ObjectStorage, Database, Platform, World}
use document_agent_api.Platform.Lawful.{StorageLaws, DatabaseLaws, Laws}
use document_agent_api.Queueing.{memory_queue}

abbrev pub Objects : Type 0
Objects = List (Text × Bytes)

unfoldable pub object_of : Text → Objects → Option Bytes
object_of key [] = none
object_of key ((k, d) ∷ objects) = if text_eq k key then some d else object_of key objects

unfoldable pub without : Text → Objects → Objects
without key [] = []
without key ((k, d) ∷ objects) =
    let rest = without key objects in if text_eq k key then rest else (k, d) ∷ rest

unfoldable pub get_object : Text → Exec Objects Bytes
unfolding object_of
get_object key s = elim (object_of key s) [
  | none ↦ (err (file_not_found key), s)
  | some d ↦ (ok d, s)
]

abbrev pub memory_storage : ObjectStorage
memory_storage = record {
  Store = Objects;
  put_bytes = λ key payload content_type s. (ok key, (key, payload) ∷ s);
  get_bytes = get_object;
  delete_object = λ key s. (ok tt, without key s);
}

pub object_of-without :
    (k j : Text) (s : Objects)
    → object_of j (without k s) ≡ (if text_eq k j then none else object_of j s)
unfolding object_of without
object_of-without k j [] = ground arith
object_of-without k j ((i, d) ∷ s) =
    ground (arith, object_of-without k j s, text_eq_iff i k, text_eq_iff i j, text_eq_iff k j)

pub get_object-same : (k : Text) (s : Objects) → (get_object k s).1 ≡ s
unfolding get_object
get_object-same k s = elim (Option-cases (object_of k s)) [
  | inl e ↦ ground arith
  | inr (d, e) ↦ ground arith
]

pub get_object-found :
    (k : Text) (s : Objects) (d : Bytes) → (get_object k s).0 ≡ ok d → object_of k s ≡ some d
unfolding get_object
get_object-found k s d h = elim (Option-cases (object_of k s)) [
  | inl e ↦ absurd (ground arith)
  | inr (x, e) ↦ ground arith
]

pub get_object-none :
    (k : Text) (s : Objects) (x : Exn) → (get_object k s).0 ≡ err x → object_of k s ≡ none
unfolding get_object
get_object-none k s x h = elim (Option-cases (object_of k s)) [
  | inl e ↦ e
  | inr (d, e) ↦ absurd (ground arith)
]

pub same_object : (k j : Text) (s : Objects) → text_eq k j ≡ true → object_of k s ≡ object_of j s
same_object k j s h = ground (arith, text_eq_iff k j)

pub put_object :
    (k : Text) (d : Bytes) (s : Objects) (j : Text)
    → object_of j ((k, d) ∷ s) ≡ (if text_eq k j then some d else object_of j s)
unfolding object_of
put_object k d s j = refl

abbrev pub done : Result (Unit {0})
done = ok tt

pub never_raised : (e : Exn) → done ≢ err e
never_raised e h = ground arith

-- A text is lowered as it is: the fixture has no letter beyond ASCII.
abbrev pub plain_lower : Text → Text
plain_lower t = t

abbrev pub memory_laws : StorageLaws plain_lower memory_storage
memory_laws = record {
  holds = λ s k. object_of k s;
  same = text_eq;
  same_refl = text_eq_refl;
  same-holds = same_object;
  get-holds = λ k s j. ap (object_of j) (get_object-same k s);
  get-ok = get_object-found;
  get-missing = λ k s e h _. get_object-none k s e h;
  put-holds = λ k d c s j h. put_object k d s j;
  delete-holds = λ k s j. object_of-without k j s;
  delete-missing = λ k s e h _. absurd (never_raised e h);
}

-- A session; `broken` tells that its commits raise.
pub record Session : Type 0 where
  pub working : Tables
  pub committed : Tables
  pub broken : Bool

abbrev pub commit_session : Exec Session Unit
commit_session s =
    if s.broken
    then (err (other (codes "connection lost")), s)
    else (ok tt, record s { committed = s.working })

abbrev pub memory_database : Database
memory_database = record {
  Session = Session;
  working = λ s. s.working;
  committed = λ s. s.committed;
  modify = λ f s. record s { working = f s.working };
  commit = commit_session;
  rollback = λ s. record s { working = s.committed };
}

pub commit-working : (s : Session) → (commit_session s).1.working ≡ s.working
commit-working s = elim (Bool-cases s.broken) [ inl e ↦ ground arith | inr e ↦ ground arith ]

pub commit-committed :
    (s : Session)
    → (commit_session s).1.committed
      ≡ (if is_ok (commit_session s).0 then s.working else s.committed)
commit-committed s = elim (Bool-cases s.broken) [ inl e ↦ ground arith | inr e ↦ ground arith ]

abbrev pub database_laws : DatabaseLaws memory_database
database_laws = record {
  working-modify = λ f s. refl;
  committed-modify = λ f s. refl;
  working-commit = commit-working;
  committed-commit = commit-committed;
  working-rollback = λ s. refl;
  committed-rollback = λ s. refl;
}

-- The n-th id is a text of n + 1 letters.
unfoldable pub nth_id : ℕ → Text
nth_id zero = codes "a"
nth_id (suc n) = b'a' ∷ nth_id n

abbrev pub memory : Platform
memory = record {
  storage = memory_storage;
  database = memory_database;
  queue = memory_queue;
  uuid4 = nth_id;
  utcnow = λ n. n;
  dumps = λ j. codes "{}";
  encode_message = λ t. codes "surrogates not allowed";
  loads = λ t. some (obj end);
  unicode_lower = plain_lower;
  uuid_of = λ t. some t;
  str_of = λ j. codes "?";
}

abbrev pub laws : Laws memory
laws = record { storage = memory_laws; database = database_laws }

abbrev pub source_key : Text
source_key = codes "documents/d1/source/a.pdf"

-- One document of the user "u1", whose source object is in the storage.
abbrev pub document_one : DocumentModel
document_one = record {
  id = codes "d1";
  owner_user_id = some (codes "u1");
  source_object_key = some source_key;
  filename = codes "a.pdf";
  content_type = codes "application/pdf";
  file_data = none;
  created_at = 5;
  updated_at = 5;
  result = none;
}

abbrev pub job_one : ParseJobModel
job_one = record {
  id = codes "j1";
  owner_user_id = some (codes "u1");
  source_object_key = source_key;
  filename = codes "a.pdf";
  content_type = codes "application/pdf";
  parser_backend = codes "pdftotext";
  status = queued;
  document_id = none;
  error_code = none;
  error_message = none;
  created_at = 5;
  updated_at = 5;
  started_at = none;
  finished_at = none;
}

abbrev pub tables : Tables
tables = record {
  users = [];
  api_keys = [];
  documents = document_one ∷ [];
  parse_jobs = job_one ∷ [];
}

abbrev pub world : World memory
world = record {
  session = record { working = tables; committed = tables; broken = false };
  store = (source_key, b'%' ∷ b'P' ∷ []) ∷ [];
  messages = field (codes "job_id") (str (codes "j1")) end ∷ [];
  draws = 0;
}
