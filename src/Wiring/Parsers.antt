-- ===== src/Wiring/Parsers.antt =====
-- Uploads and the worker's table of parsers, under one set of settings.
use document_agent_api.Common.{
  Text, codes, text_eq, text_eq_iff, contains, lower, strip, Bool, true, ◌≡◌, refl, sym, subst, ap,
  ◌∙◌, Option, none, is_some, List, [], ◌∷◌, Result, ok, err, Result-cases, Option-cases,
  Bool-cases, inl, inr, arith, All,
}
use document_agent_api.Models.{Json}
use document_agent_api.ParserBackends.{normalize_parser_backend}
use document_agent_api.Documents.Objects.{truthy}
use document_agent_api.Documents.Router.{UploadFile, upload_error}
use document_agent_api.Documents.Router.Uploads.{upload_error_iff}
use document_agent_api.Config.{Settings}
use document_agent_api.Config.Laws.{IsKnownBackend}
use document_agent_api.Config.Loading.{Environment, load_settings}
use document_agent_api.Config.Loading.Sound.{load_settings-IsLoaded}
use document_agent_api.Worker.Parser.{WorkerParser, Tools, build_parsers}
use document_agent_api.Wiring.{Machine, WorkerSetup, main}

known_of :
    (backends : List Text) (b : Text)
    → All IsKnownBackend backends
    → contains b backends ≡ true
    → IsKnownBackend b
known_of [] b n h = absurd (unfold contains in ground arith)
known_of (c ∷ backends) b (n, ns) h = elim (Bool-cases (text_eq b c)) [
  | inl e ↦ subst IsKnownBackend (sym ((text_eq_iff b c).0 e)) n
  | inr e ↦ known_of backends b ns (unfold contains in ground arith)
]

normalized_known :
    (unicode : Text → Text) (b : Text)
    → IsKnownBackend b
    → normalize_parser_backend unicode b ≡ ok b
unfolding normalize_parser_backend contains lower strip text_eq
normalized_known unicode b h = elim (h) [
  | inl e ↦ subst (λ t. normalize_parser_backend unicode t ≡ ok t) (sym e) refl
  | inr (inl e) ↦ subst (λ t. normalize_parser_backend unicode t ≡ ok t) (sym e) refl
  | inr (inr e) ↦ subst (λ t. normalize_parser_backend unicode t ≡ ok t) (sym e) refl
]

-- The table has the name, if there is a table.
abbrev has_parser : Text → Result (Text → Option WorkerParser) → Bool
has_parser b (ok parsers) = is_some (parsers b)
has_parser b (err e) = true

built :
    (loads : Text → Option Json) (tools : Tools) (enabled : List Text) (script : Option Text)
    (b : Text)
    → IsKnownBackend b
    → contains b enabled ≡ true
    → has_parser b (build_parsers loads tools enabled script) ≡ true
unfolding build_parsers text_eq
built loads tools enabled script b k e =
    elim (Bool-cases (contains (codes "document_ai") enabled)) [
      | inl d ↦ elim (Option-cases (truthy script)) [
        | inl n ↦ rw (d, n)
        | inr (path, n) ↦ elim (k) [
          | inl f ↦ rw (d, n, f)
          | inr (inl f) ↦ rw (d, n, f)
          | inr (inr f) ↦ rw (d, n, f)
        ]
      ]
      | inr d ↦ elim (k) [
        | inl f ↦ rw (d, f)
        | inr (inl f) ↦ rw (d, f)
        | inr (inr f) ↦ absurd (ground (arith, d, f, e))
      ]
    ]

abbrev worker_has_parser : Text → Result WorkerSetup → Bool
worker_has_parser b (ok setup) = is_some (setup.parsers b)
worker_has_parser b (err e) = true

worker_has :
    (M : Machine) (s : Settings) (b : Text)
    → IsKnownBackend b
    → contains b s.enabled_parser_backends ≡ true
    → worker_has_parser b (main M s) ≡ true
unfolding main
worker_has M s b k e =
    let tools = M.tools s.pdftotext_command s.parser_timeout_seconds s.document_ai_script_path in
    let has = built M.loads tools s.enabled_parser_backends s.document_ai_script_path b k e in
    elim (Result-cases
      (build_parsers M.loads tools s.enabled_parser_backends s.document_ai_script_path)) [
        | inl (parsers, r) ↦ rw (r, worker_has_parser, main) (sym (ap (has_parser b) r) ∙ has)
        | inr (x, r) ↦ rw (r, worker_has_parser, main)
      ]

-- Where the API and the worker have the same settings and the worker's `main` gets as far as its
-- loop, each upload that the guards let through names a parser backend that `start_job` knows and
-- that the worker has a parser for.
pub accepted_has_parser :
    (str_of : Json → Text) (unicode : Text → Text) (resolve : Text → Text) (M : Machine)
    (e : Environment) (s : Settings) (setup : WorkerSetup) (file : UploadFile) (backend : Text)
    → load_settings M.loads str_of unicode resolve e ≡ ok s
    → main M s ≡ ok setup
    → upload_error unicode s.enabled_parser_backends file backend ≡ none
    → (normalize_parser_backend unicode backend ≡ ok backend)
      × (is_some (setup.parsers backend) ≡ true)
accepted_has_parser str_of unicode resolve M e s setup file backend l m u =
    let accepted = (upload_error_iff unicode s.enabled_parser_backends file backend).0 u in
    let loaded = load_settings-IsLoaded M.loads str_of unicode resolve e s l in
    let known =
      known_of s.enabled_parser_backends backend loaded.consistent.backends
        accepted.enabled_backend in
    (
      normalized_known unicode backend known,
      sym (ap (worker_has_parser backend) m)
          ∙ worker_has M s backend known accepted.enabled_backend,
    )
