-- ===== src/Lib.antt =====
-- The service document-agent-api: users upload documents, a worker parses them, and their owners
-- list, read and delete them.
--
-- The parts, with the files of the repository that they model:
--
-- Common: numbers, Python's texts as lists of code points, UTF-8, and methods that change state
-- and may raise. `Exn` has the exceptions of src/auth/exceptions.py, src/documents/exceptions.py,
-- src/parse_jobs/exceptions.py and src/common/errors.py, and those of the libraries that the
-- program tells apart.
-- Models: the rows of src/auth/models.py, src/documents/models.py and src/parse_jobs/models.py,
-- and JSON values.
-- Platform: what the services call, as one parameter: the storage and the queue (the protocols of
-- src/storage/backends.py and src/queueing/backends.py), the session over the database, uuid4,
-- the clock, and the JSON codec. `World` is the state of all of them. Platform/Lawful has the
-- documented behaviour that the services rely on; a write that raises may leave anything under its key.
-- Documents: src/documents/service.py and src/documents/utils.py. `Documents.Names` is the
-- sanitized filename, `Documents.Objects` the helpers over the storage, `Documents.Creating`,
-- `Documents.Reading` and `Documents.Deleting` the methods of `DocumentService`. `Documents.Media`
-- and `Documents.Router` are src/documents/router.py, `Documents.Schemas` is
-- src/documents/schemas.py.
-- ParseJobs: `ParseJobService` of src/parse_jobs/service.py, and its route.
-- Worker: `WorkerRunner` of src/worker/runner.py, and the parsers of src/worker/parser.py.
-- A run takes a message, starts the job, reads the source object, parses it, creates a document
-- and completes the job, or fails it.
-- Storage: the two storages of src/storage/backends.py. `Storage.Local` is about the local one over a
-- file system, `Storage.Refinement` has the map that stands for it.
-- Queueing: the queues of src/queueing/backends.py. `Queueing.Resp` is the wire format.
-- Auth: src/auth/security.py, src/auth/schemas.py, src/auth/service.py, src/auth/dependencies.py,
-- src/auth/router.py.
-- Config: the validators of src/config.py, and loading with the defaults in `Config.Loading`.
-- ParserBackends: src/parser_backends.py. Handlers: src/common/exception_handlers.py.
-- Wiring: src/storage/dependencies.py, src/queueing/dependencies.py and `main` of src/worker/main.py.
-- System: the whole service. `handle` is each route with its dependencies, `respond` a request in a
-- session of its own, `steps` a sequence of requests and worker rounds. `System.Changes` lists the
-- changes of the tables that the services commit.
-- Tests: a platform in memory, and the theorems at concrete inputs.
-- Migrations: the scripts of migrations/versions, as operations on a schema, with the guards of the
-- downgrade of 0004 in `Migrations.Payloads`.
--
-- Deleting a document has the effect of the foreign keys on other rows written out: its result goes,
-- and the jobs that refer to it refer to none. No operation deletes a user.
--
-- A method is a function from the state to a result and the state after it, `Exec`; what was
-- written before an exception stays written. A commit may raise, and so may each call of the storage
-- and the queue. One session acts at a time: other sessions' steps between two of its queries are
-- not modelled. `refresh` after a commit changes nothing here. What lies under a key is its bytes;
-- the media type that a storage keeps with them is passed to it, and no law is about it. A time is
-- a number of microseconds, an id is the text of its UUID.
--
-- `run_forever` is its first rounds, since only an exception leaves its loop. Two functions run on
-- fuel: `decimal n` on n + 1, since a number has no more digits than that, and `read_response` on one
-- more than the length of the stream, since each reply takes a byte.
--
-- Not modelled: the construction of the application and the engine in src/main.py and
-- src/database.py, `lru_cache`, the limits that pydantic puts on fields, log records, and
-- migrations/env.py, which only calls Alembic. Parameters stand for the hash functions, random bytes,
-- the file system, the S3 client, the server's side of a Redis connection, the subprocesses of the
-- parsers, Unicode's lower case, SQL's ILIKE, the order in which the database puts rows of one
-- time, and the text of a `UnicodeEncodeError`.
pub mod Common
pub mod Models
pub mod Platform
pub mod ParserBackends
pub mod Documents
pub mod ParseJobs
pub mod Worker
pub mod Storage
pub mod Queueing
pub mod Auth
pub mod Config
pub mod Handlers
pub mod System
pub mod Wiring
pub mod Migrations
pub mod Tests
