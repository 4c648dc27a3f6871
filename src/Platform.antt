-- ===== src/Platform.antt =====
-- What the services call and do not implement, as one parameter: the object storage (the protocol
-- of storage/backends.py), the SQLAlchemy session over the database (database.py), the queue (the
-- protocol of queueing/backends.py), `uuid4` and `utcnow`, and the JSON codec, and Unicode's table of lower-case letters.
pub mod Lawful
use document_agent_api.Common.{ℕ, suc, Text, Bytes, Option, Exec, Result, ok}
use document_agent_api.Models.{Json, Fields, Tables}

-- `ObjectStorage`: each method returns or raises, and changes the state of the storage. `holds` is
-- what lies under a key, and `same` tells that two keys name one object.
pub record ObjectStorage : Type 1 where
  pub Store : Type 0
  pub put_bytes : Text → Bytes → Text → Exec Store Text
  pub get_bytes : Text → Exec Store Bytes
  pub delete_object : Text → Exec Store Unit

-- A session: what its queries read, how the objects that it tracks change, and `commit`, which may
-- raise. `committed` is what another session reads.
pub record Database : Type 1 where
  pub Session : Type 0
  pub working : Session → Tables
  pub committed : Session → Tables
  pub modify : (Tables → Tables) → Session → Session
  pub commit : Exec Session Unit
  pub rollback : Session → Session

-- `ParseJobQueue`
pub record ParseJobQueue : Type 1 where
  pub Queue : Type 0
  pub enqueue_parse_job : Fields → Exec Queue Unit
  pub dequeue_parse_job : ℕ → Exec Queue (Option Fields)

-- `uuid4 n` and `utcnow n` are what the n-th draw gives; `uuid_of` is the id that `UUID(text)`
-- reads, if it reads one; `str_of` is `str(value)` of a JSON value that is no string.
pub record Platform : Type 1 where
  pub storage : ObjectStorage
  pub database : Database
  pub queue : ParseJobQueue
  pub uuid4 : ℕ → Text
  pub utcnow : ℕ → ℕ
  pub dumps : Json → Text
  pub encode_message : Text → Text
  pub loads : Text → Option Json
  pub unicode_lower : Text → Text
  pub uuid_of : Text → Option Text
  pub str_of : Json → Text

pub record World (P : Platform) : Type 0 where
  pub session : P.database.Session
  pub store : P.storage.Store
  pub messages : P.queue.Queue
  pub draws : ℕ

module _ (P : Platform) where
  -- `self.storage.put_bytes(…)` and its like, on the whole state.
  abbrev pub put_bytes : Text → Bytes → Text → Exec (World P) Text
  put_bytes key data_ content_type w =
      let (r, s) = P.storage.put_bytes key data_ content_type w.store in (r, record w { store = s })

  abbrev pub get_bytes : Text → Exec (World P) Bytes
  get_bytes key w = let (r, s) = P.storage.get_bytes key w.store in (r, record w { store = s })

  abbrev pub delete_object : Text → Exec (World P) Unit
  delete_object key w =
      let (r, s) = P.storage.delete_object key w.store in (r, record w { store = s })

  abbrev pub enqueue_parse_job : Fields → Exec (World P) Unit
  enqueue_parse_job payload w =
      let (r, q) = P.queue.enqueue_parse_job payload w.messages in (r, record w { messages = q })

  abbrev pub dequeue_parse_job : ℕ → Exec (World P) (Option Fields)
  dequeue_parse_job timeout w =
      let (r, q) = P.queue.dequeue_parse_job timeout w.messages in (r, record w { messages = q })

  -- What the session's queries read.
  abbrev pub rows : World P → Tables
  rows w = P.database.working w.session

  -- What the database holds.
  abbrev pub saved : World P → Tables
  saved w = P.database.committed w.session

  abbrev pub modify : (Tables → Tables) → World P → World P
  modify f w = record w { session = P.database.modify f w.session }

  abbrev pub commit : Exec (World P) Unit
  commit w = let (r, s) = P.database.commit w.session in (r, record w { session = s })

  abbrev pub rollback : World P → World P
  rollback w = record w { session = P.database.rollback w.session }

  abbrev pub uuid4 : World P → Text × World P
  uuid4 w = (P.uuid4 w.draws, record w { draws = suc w.draws })

  abbrev pub utcnow : World P → ℕ × World P
  utcnow w = (P.utcnow w.draws, record w { draws = suc w.draws })
