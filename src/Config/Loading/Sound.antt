-- ===== src/Config/Loading/Sound.antt =====
-- What the loaded settings satisfy.
use document_agent_api.Common.{
  false, ◌≤◌, Text, codes, strip, lower, subst, sym, if◌then◌else◌, contains, true, ◌≡◌, ◌≢◌,
  Option, List, [], ◌∷◌, ok, Result-cases, Bool-cases, inl, inr, arith,
}
use mathlib.Core.Option
use document_agent_api.Models.{Json}
use document_agent_api.Documents.Names.{is_empty}
use document_agent_api.Config.{
  ℤ, pos, negsuc, is_at_most_zero, Settings, Values, candidates_of, is_missing,
  normalize_string_list, validate_enabled_parser_backends, validate_storage_backend,
  validate_queue_backend, validate_nonblank, validate_positive, resolve_script,
  validate_storage_requirements,
}
use document_agent_api.Config.Laws.{
  IsDistinct, IsConsistent, sound, complete, nonempty_of, collect_new_lem,
}
use document_agent_api.Config.Loading.{Environment, validate_fields, load_settings}

abbrev pub IsPositive : ℤ → Type 0
IsPositive (pos n) = 1 ≤ n
IsPositive (negsuc n) = ⊥

-- What the rest of the program can rely on.
pub record IsLoaded (s : Settings) : Type 0 where
  pub consistent : IsConsistent s
  pub secret : s.auth_secret_key ≢ []
  pub lifetime : IsPositive s.auth_access_token_ttl_seconds
  pub poll : IsPositive s.worker_poll_timeout_seconds
  pub parse : IsPositive s.parser_timeout_seconds
  pub storage : contains s.storage_backend (codes "local" ∷ codes "r2" ∷ []) ≡ true
  pub queue :
      contains s.queue_backend (codes "memory" ∷ codes "redis" ∷ codes "logging" ∷ []) ≡ true
  pub distinct : IsDistinct s.enabled_parser_backends
  pub nonempty : s.enabled_parser_backends ≢ []

filled : (message value t : Text) → validate_nonblank message value ≡ ok t → t ≢ []
unfolding validate_nonblank
filled message value t h = elim (Bool-cases (is_empty (strip value))) [
  | inl e ↦ absurd (ground arith)
  | inr e ↦ nonempty_of t (ground arith)
]

above_zero : (z : ℤ) → is_at_most_zero z ≡ false → IsPositive z
unfolding is_at_most_zero
above_zero (pos n) h = ground arith
above_zero (negsuc n) h = absurd (ground arith)

positive : (message : Text) (n m : ℤ) → validate_positive message n ≡ ok m → IsPositive m
unfolding validate_positive
positive message n m h = elim (Bool-cases (is_at_most_zero n)) [
  | inl e ↦ absurd (ground arith)
  | inr e ↦ above_zero m (ground arith)
]

module _ (loads : Text → Option Json) (str_of : Json → Text) (unicode : Text → Text)
    (resolve : Text → Text) where
  one_storage :
      (value t : Text)
      → validate_storage_backend loads str_of unicode value ≡ ok t
      → contains t (codes "local" ∷ codes "r2" ∷ []) ≡ true
  unfolding validate_storage_backend
  one_storage value t h = ground arith

  one_queue :
      (value t : Text)
      → validate_queue_backend loads str_of unicode value ≡ ok t
      → contains t (codes "memory" ∷ codes "redis" ∷ codes "logging" ∷ []) ≡ true
  unfolding validate_queue_backend
  one_queue value t h = ground arith

  some_backends :
      (value : Values) (bs : List Text)
      → validate_enabled_parser_backends loads str_of unicode value ≡ ok bs
      → IsDistinct bs × (bs ≢ [])
  unfolding validate_enabled_parser_backends normalize_string_list
  some_backends value bs h =
      let normal =
        collect_new_lem (λ t. lower unicode (strip t)) (candidates_of loads str_of unicode value) in
      let same : normalize_string_list loads str_of unicode value ≡ bs = ground arith in
      (subst IsDistinct same normal.0, λ e. ground arith)

  fields :
      (e : Environment) (s : Settings)
      → validate_fields loads str_of unicode resolve e ≡ ok s
      → IsConsistent s
      → IsLoaded s
  unfolding validate_fields
  fields e s h c =
      let backends =
        some_backends e.enabled_parser_backends s.enabled_parser_backends (ground arith) in
      record {
        consistent = c;
        secret =
            filled (codes "auth_secret_key must not be empty") e.auth_secret_key s.auth_secret_key
              (ground arith);
        lifetime =
            positive (codes "auth_access_token_ttl_seconds must be greater than 0")
              e.auth_access_token_ttl_seconds s.auth_access_token_ttl_seconds (ground arith);
        poll =
            positive (codes "worker timeouts must be greater than 0") e.worker_poll_timeout_seconds
              s.worker_poll_timeout_seconds (ground arith);
        parse =
            positive (codes "worker timeouts must be greater than 0") e.parser_timeout_seconds
              s.parser_timeout_seconds (ground arith);
        storage = one_storage e.storage_backend s.storage_backend (ground arith);
        queue = one_queue e.queue_backend s.queue_backend (ground arith);
        distinct = backends.0;
        nonempty = backends.1;
      }

  with_script :
      (s : Settings) (path : Option Text)
      → IsLoaded s
      → IsLoaded (record s { document_ai_script_path = path })
  with_script s path h = record {
    consistent = record {
      r2 = h.consistent.r2;
      redis = h.consistent.redis;
      backends = h.consistent.backends;
    };
    secret = h.secret;
    lifetime = h.lifetime;
    poll = h.poll;
    parse = h.parse;
    storage = h.storage;
    queue = h.queue;
    distinct = h.distinct;
    nonempty = h.nonempty;
  }

  resolved : (s : Settings) → IsLoaded s → IsLoaded (resolve_script resolve s)
  resolved s h =
      let moved = with_script s (Option.map resolve s.document_ai_script_path) h in
      elim (Bool-cases (is_missing s.document_ai_script_path)) [
        | inl e ↦
            subst
              (λ b. IsLoaded (
                if b then s else record s {
                  document_ai_script_path = Option.map resolve s.document_ai_script_path;
                }))
              (sym e) h
        | inr e ↦
            subst
              (λ b. IsLoaded (
                if b then s else record s {
                  document_ai_script_path = Option.map resolve s.document_ai_script_path;
                }))
              (sym e) moved
      ]

  -- Settings that are loaded have a storage and a queue of a known kind with all that they need, a
  -- secret key, durations that are greater than zero, and at least one parser backend, each of them
  -- `markitdown`, `pdftotext` or `document_ai`, and none twice.
  pub load_settings-IsLoaded :
      (e : Environment) (s : Settings)
      → load_settings loads str_of unicode resolve e ≡ ok s
      → IsLoaded s
  unfolding load_settings
  load_settings-IsLoaded e s h =
      elim (Result-cases (validate_fields loads str_of unicode resolve e)) [
        | inr (x, f) ↦ absurd (ground arith)
        | inl (t, f) ↦
            let validated : validate_storage_requirements resolve t ≡ ok s = ground arith in
            let c = sound resolve t s validated in
            let same : resolve_script resolve t ≡ s = ground (arith, complete resolve t c) in
            subst IsLoaded same (resolved t (fields e t f c))
      ]
