-- ===== src/Tests/System.antt =====
-- The theorems on sequences of events, at a request, a round of the worker and a late message.
use document_agent_api.Common.{
  contains, lower, strip, codes, true, false, ◌≡◌, refl, none, List, [], ◌∷◌, ok, text_eq,
}
use document_agent_api.Models.{Tables, get_field, field, str, end}
use document_agent_api.Platform.{World, saved, rollback, Platform, Database}
use document_agent_api.Platform.Lawful.{Laws, DatabaseLaws}
use document_agent_api.Queueing.{memory_dequeue}
use document_agent_api.ParserBackends.{normalize_parser_backend}
use document_agent_api.Worker.Runner.{run_once, job_id_of}
use document_agent_api.System.Finished.{has_finished, steps-has_finished}
use document_agent_api.System.Progress.{round-has_finished}
use document_agent_api.ParseJobs.{start_job}
use document_agent_api.ParseJobs.Rows.{marked_failed}
use document_agent_api.System.{Service, Event, request, round, register, steps}
use document_agent_api.System.Consistent.{is_consistent, steps-is_consistent}
use document_agent_api.System.Started.{has_left_queue, steps-has_left_queue}
use document_agent_api.Tests.Fixture.{memory, memory_laws, laws, tables, job_one, world}
use document_agent_api.Tests.Jobs.{runner, started_world}
use document_agent_api.Tests.Texts.{crypto}

abbrev service : Service
service = record {
  crypto = crypto;
  secret_key = codes "key";
  access_token_ttl_seconds = 600;
  enabled_parser_backends = codes "pdftotext" ∷ [];
  matches = text_eq;
  runner = runner;
}

-- A registration, then a round of the worker.
abbrev events : List Event
events = request (register (codes "a@b.c") (codes "password")) ∷ round 5 ∷ []

steps-is_consistent_example :
    is_consistent (saved memory (steps memory service events (rollback memory world))) ≡ true
unfolding is_consistent
steps-is_consistent_example = steps-is_consistent laws service events world refl

steps-has_left_queue_example :
    let w' = steps memory service events (rollback memory started_world) in
    (has_left_queue (codes "j1") (saved memory w') ≡ true)
    × (start_job memory (codes "j1") (rollback memory w') ≡ (ok none, rollback memory w'))
unfolding has_left_queue text_eq
steps-has_left_queue_example =
    steps-has_left_queue laws service events (codes "j1") started_world refl

-- The platform in memory with a database whose commits never raise.
abbrev quiet_database : Database
quiet_database = record {
  Session = Tables × Tables;
  working = λ s. s.0;
  committed = λ s. s.1;
  modify = λ f s. (f s.0, s.1);
  commit = λ s. (ok tt, (s.0, s.0));
  rollback = λ s. (s.1, s.1);
}

abbrev quiet_database_laws : DatabaseLaws quiet_database
quiet_database_laws = record {
  working-modify = λ f s. refl;
  committed-modify = λ f s. refl;
  working-commit = λ s. refl;
  committed-commit = λ s. refl;
  working-rollback = λ s. refl;
  committed-rollback = λ s. refl;
}

abbrev quiet : Platform
quiet = record memory { database = quiet_database }

abbrev quiet_laws : Laws quiet
quiet_laws = record { storage = memory_laws; database = quiet_database_laws }

abbrev quiet_world : World quiet
quiet_world = record {
  session = (tables, tables);
  store = world.store;
  messages = world.messages;
  draws = 0;
}

-- The message of the queued job "j1", whose parser backend is not in this worker's table.
round-has_finished_example :
    let (r, w') = run_once quiet runner 5 quiet_world in
    (r ≡ ok true) × (has_finished (codes "j1") (saved quiet w') ≡ true)
unfolding memory_dequeue job_id_of get_field text_eq normalize_parser_backend contains lower strip
round-has_finished_example =
    round-has_finished quiet_laws (λ s. refl) runner 5 quiet_world
      (field (codes "job_id") (str (codes "j1")) end) (codes "j1") (codes "pdftotext") (codes "u1")
      job_one refl refl refl refl refl refl

-- The state in which the job "j1" has failed.
abbrev failed_tables : Tables
failed_tables = record tables {
  parse_jobs = marked_failed 7 (codes "parse_failed") (codes "no text") job_one ∷ [];
}

abbrev failed_world : World memory
failed_world = record world {
  session = record { working = failed_tables; committed = failed_tables; broken = false };
}

steps-has_finished_example :
    has_finished
      (codes "j1")
      (saved memory (steps memory service events (rollback memory failed_world)))
    ≡ true
unfolding has_finished text_eq
steps-has_finished_example = steps-has_finished laws service events (codes "j1") failed_world refl
