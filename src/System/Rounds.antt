-- ===== src/System/Rounds.antt =====
-- The rounds of the worker, seen through a test of the tables.
use document_agent_api.Common.{
  ℕ, codes, Bool, ◌≡◌, Result-cases, Option-cases, inl, inr, arith, message_of,
}
use document_agent_api.Models.{Fields, Tables}
use document_agent_api.Platform.{Platform, World, dequeue_parse_job, rollback}
use document_agent_api.Platform.Lawful.{Laws}
use document_agent_api.ParseJobs.{ParseJobWorkItem, start_job}
use document_agent_api.Worker.Parser.{ParsedDocumentPayload}
use document_agent_api.Worker.Runner.{
  Runner, job_id_of, parse_source, store_result, runner_fail_job, process_job, handle_payload,
  run_once,
}
use document_agent_api.Documents.Creating.{create_document_from_parse_result}
use document_agent_api.System.Sessions.{IsGood, Keeps, IsGood-same, IsGood-rollback}
use document_agent_api.System.Changes.{IsClosed}
use document_agent_api.System.Jobs.{start_job-Keeps, complete_job-Keeps, fail_job-Keeps}
use document_agent_api.System.Documents.{create_document_from_parse_result-Keeps}

module _ {P : Platform} (L : Laws P) (c : Tables → Bool) (K : IsClosed c) (R : Runner) where
  pub parse_source-session :
      (item : ParseJobWorkItem) (w : World P) → (parse_source P R item w).1.session ≡ w.session
  unfolding parse_source
  parse_source-session item w = grind arith

  pub store_result-Keeps :
      (item : ParseJobWorkItem) (parsed : ParsedDocumentPayload)
      → Keeps L c (store_result P R item parsed)
  unfolding store_result
  store_result-Keeps item parsed w g =
      let w0 = rollback P w in
      let made =
        create_document_from_parse_result P item.owner_user_id item.source_object_key item.filename
          item.content_type parsed.markdown parsed.canonical_json w0 in
      let kept =
        create_document_from_parse_result-Keeps L c K item.owner_user_id item.source_object_key
          item.filename item.content_type parsed.markdown parsed.canonical_json w0
          (IsGood-rollback L c w g) in
      elim (Result-cases made.0) [
        | inl (r, e) ↦ ground (arith, complete_job-Keeps L c K item.id r.document.id made.1 kept)
        | inr (x, e) ↦ ground (arith, kept)
      ]

  process_job-Keeps : (item : ParseJobWorkItem) → Keeps L c (process_job P R item)
  unfolding process_job runner_fail_job
  process_job-Keeps item w g =
      let parsed = parse_source P R item w in
      let g1 : IsGood L c parsed.1 = IsGood-same L c w parsed.1 (parse_source-session item w) g in
      elim (Result-cases parsed.0) [
        | inr (x, e) ↦ ground (
          arith,
          fail_job-Keeps L c K item.id (codes "parse_failed") (message_of x) (rollback P parsed.1)
              (IsGood-rollback L c parsed.1 g1),
        )
        | inl (p, e) ↦
            let stored = store_result P R item p parsed.1 in
            let g2 : IsGood L c stored.1 = store_result-Keeps item p parsed.1 g1 in
            elim (Result-cases stored.0) [
              | inl (_, f) ↦ ground (arith, g2)
              | inr (x, f) ↦ ground (
                arith,
                fail_job-Keeps L c K item.id (codes "parse_failed") (message_of x)
                    (rollback P stored.1) (IsGood-rollback L c stored.1 g2),
              )
            ]
      ]

  handle_payload-Keeps : (message : Fields) → Keeps L c (handle_payload P R message)
  unfolding handle_payload
  handle_payload-Keeps message w g = elim (Option-cases (job_id_of P R message)) [
    | inl e ↦ ground (arith, g)
    | inr (id, e) ↦
        let begun = start_job P id (rollback P w) in
        let g1 : IsGood L c begun.1 =
          start_job-Keeps L c K id (rollback P w) (IsGood-rollback L c w g) in
        elim (Result-cases begun.0) [
          | inr (x, r) ↦ ground (arith, g1)
          | inl (o, r) ↦ elim (Option-cases o) [
            | inl n ↦ ground (arith, g1)
            | inr (item, n) ↦ ground (arith, process_job-Keeps item begun.1 g1)
          ]
        ]
  ]

  pub run_once-Keeps : (timeout : ℕ) → Keeps L c (run_once P R timeout)
  unfolding run_once
  run_once-Keeps timeout w g =
      let taken = dequeue_parse_job P timeout w in
      elim (Result-cases taken.0) [
        | inr (x, e) ↦ ground (arith, g)
        | inl (o, e) ↦ elim (Option-cases o) [
          | inl n ↦ ground (arith, g)
          | inr (message, n) ↦ ground (arith, handle_payload-Keeps message taken.1 g)
        ]
      ]
