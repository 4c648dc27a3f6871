-- ===== src/Config.antt =====
-- config.py: what the settings' validators make of the environment's values. A setting that is not
-- given has its default before these run.
pub mod Laws
pub mod Loading
use document_agent_api.Common.{
  ℕ, zero, suc, Text, codes, text_eq, contains, starts_with, strip, rstrip, lower, split_on, Bool,
  true, false, not, ◌&&◌, ◌||◌, Option, none, some, join, List, [], ◌∷◌, ◌++◌, map, Result, ok, err,
  Exn, value_error, keep, length, ◌==◌, if◌then◌else◌,
}
use mathlib.Core.Option
use document_agent_api.Models.{Json, arr, str, Items, nil, cons}
use document_agent_api.Documents.Names.{is_empty}
use document_agent_api.Documents.Reading.{drop}
use document_agent_api.ParserBackends.{parser_backend_values}

-- An integer of the environment: `pos n` is n, `negsuc n` is -1 - n.
pub data ℤ : Type 0 where
  pos : ℕ → ℤ
  negsuc : ℕ → ℤ

-- `value <= 0`
unfoldable pub is_at_most_zero : ℤ → Bool
is_at_most_zero (pos n) = n == 0
is_at_most_zero (negsuc n) = true

-- A setting with several values: a text or a list.
pub data Values : Type 0 where
  one : Text → Values
  many : List Text → Values

-- The loop of `normalize_string_list` and `normalize_cors_allow_origins`: what `f` makes of each
-- candidate, without empty texts and repetitions.
unfoldable pub collect_new : (Text → Text) → (normalized : List Text) → List Text → List Text
collect_new f normalized [] = normalized
collect_new f normalized (candidate ∷ rest) =
    collect_new f
      (if is_empty (f candidate) || contains (f candidate) normalized
        then normalized
        else normalized ++ f candidate ∷ [])
      rest

module _ (loads : Text → Option Json) (str_of : Json → Text) (unicode : Text → Text) where
  -- `str(item).strip()` of each item.
  unfoldable pub item_texts : Items → List Text
  item_texts nil = []
  item_texts (cons (str t) rest) = strip t ∷ item_texts rest
  item_texts (cons item rest) = strip (str_of item) ∷ item_texts rest

  -- The candidates of a text: the items of a JSON list, or else the parts between commas.
  unfoldable pub candidates_of : Values → List Text
  unfolding item_texts
  candidates_of (many values) = map strip values
  candidates_of (one values) =
      let parts = map strip (split_on b',' values) in
      if starts_with (strip values) (codes "[")
      then (elim (loads (strip values)) [ some (arr items) ↦ item_texts items | _ ↦ parts ])
      else parts

  -- `normalize_string_list`
  unfoldable pub normalize_string_list : Values → List Text
  unfolding candidates_of collect_new
  normalize_string_list values =
      collect_new (λ t. lower unicode (strip t)) [] (candidates_of values)

  -- `normalize_cors_allow_origins`
  unfoldable pub normalize_cors_allow_origins : Values → List Text
  unfolding candidates_of collect_new
  normalize_cors_allow_origins origins =
      collect_new (rstrip (λ c. c == b'/')) [] (candidates_of origins)

  abbrev psycopg : Text
  psycopg = codes "postgresql+psycopg://"

  -- `normalize_database_url`
  unfoldable pub normalize_database_url : Text → Text
  normalize_database_url database_url =
      let lowered = lower unicode database_url in
      if starts_with lowered (codes "postgres://")
      then psycopg ++ drop (length (codes "postgres://")) database_url
      else if starts_with lowered (codes "postgresql://")
      then psycopg ++ drop (length (codes "postgresql://")) database_url
      else database_url

  -- `validate_enabled_parser_backends`
  unfoldable pub validate_enabled_parser_backends : Values → Result (List Text)
  unfolding normalize_string_list
  validate_enabled_parser_backends value = elim (normalize_string_list value) [
    | [] ↦ err (value_error (codes "enabled_parser_backends must not be empty"))
    | b ∷ bs ↦ ok (b ∷ bs)
  ]

  -- `validate_storage_backend`
  unfoldable pub validate_storage_backend : Text → Result Text
  validate_storage_backend value =
      let normalized = lower unicode (strip value) in
      if contains normalized (codes "local" ∷ codes "r2" ∷ [])
      then ok normalized
      else err (value_error (codes "storage_backend must be one of: local, r2"))

  -- `validate_queue_backend`
  unfoldable pub validate_queue_backend : Text → Result Text
  validate_queue_backend value =
      let normalized = lower unicode (strip value) in
      if contains normalized (codes "memory" ∷ codes "redis" ∷ codes "logging" ∷ [])
      then ok normalized
      else err (value_error (codes "queue_backend must be one of: memory, redis, logging"))

-- `validate_auth_secret_key`, `validate_storage_r2_region`, `validate_non_empty_queue_string`,
-- `validate_pdftotext_command` and `validate_worker_temp_root`: the validator of a text that must
-- not be blank.
unfoldable pub validate_nonblank : (message value : Text) → Result Text
validate_nonblank message value =
    let normalized = strip value in
    if is_empty normalized then err (value_error message) else ok normalized

-- `normalize_optional_storage_string` and `normalize_optional_path`
unfoldable pub normalize_optional_text : Option Text → Option Text
normalize_optional_text none = none
normalize_optional_text (some value) =
    let normalized = strip value in if is_empty normalized then none else some normalized

-- `validate_auth_access_token_ttl_seconds` and `validate_positive_worker_timeout`
unfoldable pub validate_positive : (message : Text) → ℤ → Result ℤ
unfolding is_at_most_zero
validate_positive message value =
    if is_at_most_zero value then err (value_error message) else ok value

-- `Settings`
pub record Settings : Type 0 where
  pub database_url : Text
  pub cors_allow_origins : List Text
  pub auth_secret_key : Text
  pub auth_access_token_ttl_seconds : ℤ
  pub storage_backend : Text
  pub storage_local_root : Text
  pub storage_bucket : Option Text
  pub storage_r2_endpoint : Option Text
  pub storage_r2_access_key_id : Option Text
  pub storage_r2_secret_access_key : Option Text
  pub storage_r2_region : Text
  pub queue_backend : Text
  pub redis_url : Text
  pub parse_job_queue_name : Text
  pub worker_poll_timeout_seconds : ℤ
  pub parser_timeout_seconds : ℤ
  pub worker_temp_root : Text
  pub pdftotext_command : Text
  pub enabled_parser_backends : List Text
  pub document_ai_script_path : Option Text

abbrev is_missing : Option Text → Bool
is_missing none = true
is_missing (some t) = is_empty t

abbrev name_if_missing : Option Text → Text → List Text
name_if_missing value name = if is_missing value then name ∷ [] else []

-- The settings that R2 lacks.
unfoldable pub missing_r2 : Settings → List Text
missing_r2 s =
    name_if_missing s.storage_bucket (codes "storage_bucket")
    ++ (name_if_missing s.storage_r2_endpoint (codes "storage_r2_endpoint")
        ++ (name_if_missing s.storage_r2_access_key_id (codes "storage_r2_access_key_id")
            ++ name_if_missing s.storage_r2_secret_access_key
                (codes "storage_r2_secret_access_key")))

unfoldable pub unknown_backends : Settings → List Text
unknown_backends s = keep (λ b. not (contains b parser_backend_values)) s.enabled_parser_backends

-- The path of the script, made absolute where it is given; `resolve` is `expanduser` and `resolve` of
-- pathlib.
abbrev pub resolve_script : (Text → Text) → Settings → Settings
resolve_script resolve s =
    if is_missing s.document_ai_script_path
    then s
    else record s { document_ai_script_path = Option.map resolve s.document_ai_script_path }

-- `validate_storage_requirements`
unfoldable pub validate_storage_requirements : (Text → Text) → Settings → Result Settings
unfolding missing_r2 unknown_backends
validate_storage_requirements resolve s =
    if text_eq s.storage_backend (codes "r2") && not (length (missing_r2 s) == 0)
    then err
        (value_error (codes "Missing required R2 settings: " ++ join (codes ", ") (missing_r2 s)))
    else if text_eq s.queue_backend (codes "redis") && is_empty s.redis_url
    then err (value_error (codes "redis_url is required when queue_backend=redis"))
    else if not (length (unknown_backends s) == 0)
    then err (
        value_error (
          codes "enabled_parser_backends contains unsupported values: "
          ++ join (codes ", ") (unknown_backends s)))
    else ok (resolve_script resolve s)
