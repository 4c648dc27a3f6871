-- ===== src/Tests/Texts.antt =====
-- The theorems on names, headers, the queue's protocol, credentials and settings, at concrete texts.
use document_agent_api.Common.{
  Bytes, ℕ, zero, suc, ◌%◌, ◌*◌, ◌<◌, Text, codes, strip, text_eq, contains, true, false, ◌≡◌, refl,
  none, some, Option, [], ◌∷◌, ◌++◌, ok, err, All, ◌⊎◌, ◌↔◌, length, arith, expired_access_token,
  leb, if◌then◌else◌,
}
use document_agent_api.Common.Utf8.{utf8_encode, is_scalar}
use document_agent_api.Models.{
  Json, null, bool, int, negative, number, arr, obj, str, field, end, get_field,
}
use document_agent_api.Documents.Names.{sanitize_document_filename, is_empty}
use document_agent_api.Documents.Names.Safe.{IsSafeLeaf, sanitize-IsSafeLeaf, sanitize_idem}
use document_agent_api.Documents.Media.{
  build_content_disposition, resolve_source_response_metadata, octet_stream,
}
use document_agent_api.Documents.Media.Header.{
  IsPrintable, build_content_disposition-IsPrintable, inline_is_safe,
}
use document_agent_api.Queueing.Resp.{read_response, write_command, array}
use document_agent_api.Queueing.Resp.RoundTrip.{texts, read_response-write_command}
use document_agent_api.Auth.Base64.{base64url_encode, base64url_decode}
use document_agent_api.Auth.Base64.RoundTrip.{base64url_decode-encode}
use document_agent_api.Auth.Security.{
  Crypto, microseconds, hash_password, verify_password, create_access_token, decode_access_token,
}
use document_agent_api.Auth.Security.Passwords.{verify_password-hash_password}
use document_agent_api.Auth.Security.Tokens.{
  CryptoLaws, expiry, decode_access_token-create_access_token,
}
use document_agent_api.ParserBackends.{default_enabled_parser_backends}
use document_agent_api.Config.{
  pos, Settings, resolve_script, collect_new, validate_storage_requirements,
}
use document_agent_api.Config.Loading.{
  Environment, default_environment, default_database_url, default_cors_allow_origins,
}
use document_agent_api.Config.Laws.{
  IsDistinct, IsConsistent, collect_new_lem, validate_storage_requirements_iff,
}

sanitize-IsSafeLeaf_example : IsSafeLeaf (sanitize_document_filename (codes "..\\..\\etc/passwd "))
sanitize-IsSafeLeaf_example = sanitize-IsSafeLeaf (codes "..\\..\\etc/passwd ")

sanitize_idem_example :
    sanitize_document_filename (sanitize_document_filename (codes "a/ b.pdf"))
    ≡ sanitize_document_filename (codes "a/ b.pdf")
sanitize_idem_example = sanitize_idem (codes "a/ b.pdf")

build_content_disposition-IsPrintable_example :
    All IsPrintable (build_content_disposition (codes "inline") (codes "a\"b.pdf"))
unfolding is_scalar
build_content_disposition-IsPrintable_example =
    build_content_disposition-IsPrintable (codes "inline") (codes "a\"b.pdf") (omega arith)
      (ground arith)

inline_is_safe_example :
    let (disposition, media_type) =
      resolve_source_response_metadata
        (λ t. t)
        (codes "a.png")
        (codes "text/html")
        (codes "inline") in
    (disposition ≡ codes "inline"
      → (media_type ≡ codes "application/pdf")
        ⊎ ((media_type ≡ codes "image/jpeg") ⊎ (media_type ≡ codes "image/png")))
    × ((disposition ≡ codes "inline")
        ⊎ ((disposition ≡ codes "attachment") × (media_type ≡ octet_stream)))
inline_is_safe_example =
    inline_is_safe (λ t. t) (codes "a.png") (codes "text/html") (codes "inline")

read_response-write_command_example :
    read_response
      (λ b. b)
      (write_command (codes "RPUSH" ∷ codes "jobs" ∷ codes "{}" ∷ []) ++ codes "+OK")
    ≡ ok (array (texts (codes "RPUSH" ∷ codes "jobs" ∷ codes "{}" ∷ [])), codes "+OK")
unfolding is_scalar
read_response-write_command_example =
    read_response-write_command (λ b. b) (codes "RPUSH" ∷ codes "jobs" ∷ codes "{}" ∷ [])
      (codes "+OK") (ground arith)

base64url_decode-encode_example :
    base64url_decode (base64url_encode (255 ∷ 0 ∷ 7 ∷ 9 ∷ [])) ≡ some (255 ∷ 0 ∷ 7 ∷ 9 ∷ [])
base64url_decode-encode_example = base64url_decode-encode (255 ∷ 0 ∷ 7 ∷ 9 ∷ []) (omega arith)

-- The user and the email of the token below, as its JSON text.
abbrev header_text : Text
header_text = codes "{\"alg\":\"HS256\",\"typ\":\"JWT\"}"

abbrev payload_text : Text
payload_text = codes "{\"sub\":\"u1\",\"email\":\"a@b.c\",\"exp\":1600}"

abbrev claims : Json
claims = obj (
    field (codes "sub") (str (codes "u1"))
      (field (codes "email") (str (codes "a@b.c")) (field (codes "exp") (int 1600) end)))

abbrev text_with : Option Json → Text
text_with none = header_text
text_with (some _) = payload_text

text_with-IsAscii : (subject : Option Json) → All (λ c. c < 128) (text_with subject)
text_with-IsAscii none = omega arith
text_with-IsAscii (some j) = omega arith

unfoldable dumps : Json → Text
dumps (obj fields) = text_with (get_field (codes "sub") fields)
dumps null = []
dumps (bool b) = []
dumps (int n) = []
dumps (negative n) = []
dumps (number t) = []
dumps (str t) = []
dumps (arr items) = []

unfoldable pub repeated : ℕ → ℕ → Bytes
repeated zero b = []
repeated (suc n) b = b ∷ repeated n b

-- Stand-ins for the hash functions: the salt is the key, and a digest is the length of its text.
unfoldable pub crypto : Crypto
unfolding dumps
crypto = record {
  pbkdf2 = λ password salt iterations. salt;
  hmac_sha256 = λ key message. length message % 256 ∷ [];
  sha256_hex = λ b. b;
  random = λ n size. repeated size (n % 256);
  dumps_compact = dumps;
  loads = λ t. if text_eq t payload_text then some claims else none;
}

dumps-IsAscii : (j : Json) → All (λ c. c < 128) (dumps j)
unfolding dumps
dumps-IsAscii (obj fields) = text_with-IsAscii (get_field (codes "sub") fields)
dumps-IsAscii null = tt
dumps-IsAscii (bool b) = tt
dumps-IsAscii (int n) = tt
dumps-IsAscii (negative n) = tt
dumps-IsAscii (number t) = tt
dumps-IsAscii (str t) = tt
dumps-IsAscii (arr items) = tt

crypto_laws : CryptoLaws crypto
unfolding crypto
crypto_laws = record { dumps-ascii = dumps-IsAscii; hmac-bytes = λ key message. (omega arith, tt) }

verify_password-hash_password_example :
    verify_password crypto (codes "guess") (hash_password crypto (codes "secret") (1 ∷ 2 ∷ []))
    ≡ ok (
        text_eq
          (crypto.pbkdf2 (utf8_encode (codes "guess")) (1 ∷ 2 ∷ []) 600000)
          (crypto.pbkdf2 (utf8_encode (codes "secret")) (1 ∷ 2 ∷ []) 600000))
unfolding crypto
verify_password-hash_password_example =
    verify_password-hash_password crypto (codes "secret") (codes "guess") (1 ∷ 2 ∷ []) (omega arith)
      (omega arith)

decode_access_token-create_access_token_example :
    decode_access_token crypto 1500000000
      (create_access_token crypto 1000000000 (codes "u1") (codes "a@b.c") (codes "key") 600)
      (codes "key")
    ≡ (if leb (expiry crypto crypto_laws 1000000000 600 * microseconds) 1500000000
        then err expired_access_token
        else ok (record {
          user_id = codes "u1";
          email = codes "a@b.c";
          expires_at = expiry crypto crypto_laws 1000000000 600;
        }))
unfolding crypto dumps get_field text_eq
decode_access_token-create_access_token_example =
    decode_access_token-create_access_token crypto crypto_laws 1000000000 1500000000 (codes "u1")
      (codes "a@b.c") (codes "key") 600 (λ e. ground (arith, e)) (λ e. ground (arith, e))
      (omega arith) refl

collect_new_lem_example :
    let result = collect_new strip [] (codes "a" ∷ codes " a" ∷ codes " " ∷ []) in
    IsDistinct result
    × All (λ t. is_empty t ≡ false) result
    × All
        (λ c. (is_empty (strip c) ≡ true) ⊎ (contains (strip c) result ≡ true))
        (codes "a" ∷ codes " a" ∷ codes " " ∷ [])
collect_new_lem_example = collect_new_lem strip (codes "a" ∷ codes " a" ∷ codes " " ∷ [])

abbrev pub environment : Environment
environment = default_environment (codes "secret")

abbrev pub settings : Settings
settings = record {
  database_url = default_database_url;
  cors_allow_origins = default_cors_allow_origins;
  auth_secret_key = codes "secret";
  auth_access_token_ttl_seconds = pos 1800;
  storage_backend = codes "local";
  storage_local_root = codes "data/storage";
  storage_bucket = none;
  storage_r2_endpoint = none;
  storage_r2_access_key_id = none;
  storage_r2_secret_access_key = none;
  storage_r2_region = codes "auto";
  queue_backend = codes "memory";
  redis_url = codes "redis://127.0.0.1:6379/0";
  parse_job_queue_name = codes "document-agent-api:parse-jobs";
  worker_poll_timeout_seconds = pos 5;
  parser_timeout_seconds = pos 300;
  worker_temp_root = codes "/tmp/document-agent-api-worker";
  pdftotext_command = codes "pdftotext";
  enabled_parser_backends = default_enabled_parser_backends;
  document_ai_script_path = none;
}

validate_storage_requirements_iff_example :
    (validate_storage_requirements strip settings ≡ ok (resolve_script strip settings))
    ↔ IsConsistent settings
validate_storage_requirements_iff_example = validate_storage_requirements_iff strip settings
