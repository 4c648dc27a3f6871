-- ===== src/Auth/Security.antt =====
-- auth/security.py. The hash functions, the random bytes and the compact JSON text are parameters; a
-- time is a number of microseconds.
pub mod KeyBounds
pub mod Parts
pub mod Passwords
pub mod Tokens
use document_agent_api.Common.{
  ℕ, zero, ◌+◌, ◌-◌, ◌*◌, ◌/◌, Text, Bytes, codes, text_eq, starts_with, strip, split_on, Bool,
  true, false, not, ◌&&◌, ◌||◌, Option, none, some, bind, List, [], ◌∷◌, ◌++◌, Result, ok, err, Exn,
  value_error, other, invalid_access_token, expired_access_token, invalid_api_key, length, ltb, leb,
  ◌==◌, if◌then◌else◌,
}
use document_agent_api.Common.Utf8.{utf8_encode, utf8_decode}
use document_agent_api.Models.{Json, str, int, negative, obj, bool, Fields, end, field, get_field}
use document_agent_api.Documents.Names.{is_empty}
use document_agent_api.Documents.Reading.{take}
use document_agent_api.Queueing.Resp.{Number, plus, minus, int_of}
use document_agent_api.Auth.Base64.{base64url_encode, base64url_decode}

-- `hashlib`, `hmac`, `secrets`, and `json.dumps(…, separators=(",", ":"))` with `json.loads`.
-- `random n` is `secrets.token_bytes` at the n-th draw, which takes the number of bytes.
pub record Crypto : Type 0 where
  pub pbkdf2 : (password salt : Bytes) (iterations : ℕ) → Bytes
  pub hmac_sha256 : (key message : Bytes) → Bytes
  pub sha256_hex : Bytes → Text
  pub random : ℕ → ℕ → Bytes
  pub dumps_compact : Json → Text
  pub loads : Text → Option Json

-- `AccessTokenPayload`; the time is in seconds.
pub record AccessTokenPayload : Type 0 where
  pub user_id : Text
  pub email : Text
  pub expires_at : ℕ

abbrev pub api_key_prefix : Text
api_key_prefix = codes "dagk_"

abbrev pub api_key_token_bytes : ℕ
api_key_token_bytes = 32

abbrev pub pbkdf2_salt_bytes : ℕ
pbkdf2_salt_bytes = 16

abbrev pub api_key_display_prefix_length : ℕ
api_key_display_prefix_length = 17

abbrev pub microseconds : ℕ
microseconds = 1000000

-- The last second that a `datetime` holds.
abbrev pub max_timestamp : ℕ
max_timestamp = 253402300799

-- The first one, before 1970.
abbrev pub lowest_timestamp : ℕ
lowest_timestamp = 62135596800

-- `normalize_api_key`
unfoldable pub normalize_api_key : Text → Result Text
normalize_api_key api_key =
    let normalized = strip api_key in
    if not (starts_with normalized api_key_prefix)
      || leb (length normalized) (length api_key_prefix)
    then err invalid_api_key
    else ok normalized

-- `is_probable_api_key`
unfoldable pub is_probable_api_key : Text → Bool
is_probable_api_key value = starts_with value api_key_prefix

-- The `str` field of a payload that is not empty.
unfoldable pub text_field : Text → Fields → Option Text
text_field name payload = elim (get_field name payload) [
  | some (str t) ↦ if is_empty t then none else some t
  | _ ↦ none
]

-- An `int` of a payload; `True` and `False` are integers too.
unfoldable pub int_field : Text → Fields → Option Number
int_field name payload = elim (get_field name payload) [
  | some (int n) ↦ some (plus n)
  | some (negative n) ↦ some (minus (n + 1))
  | some (bool b) ↦ some (plus (if b then 1 else 0))
  | _ ↦ none
]

module _ (C : Crypto) where
  -- `hash_password`, with the salt that was drawn.
  unfoldable pub hash_password : (password : Text) (salt : Bytes) → Text
  hash_password password salt =
      codes "pbkdf2_sha256$600000$"
      ++ (base64url_encode salt
          ++ (b'$' ∷ base64url_encode (C.pbkdf2 (utf8_encode password) salt 600000)))

  -- `hashlib.pbkdf2_hmac` raises for a number of iterations below 1, which is not in the `try`.
  unfoldable pub check_hash :
      (password : Text) (iterations : Number) (salt expected : Bytes) → Result Bool
  check_hash password (minus n) salt expected = err (value_error (codes "iterations"))
  check_hash password (plus n) salt expected =
      if n == 0
      then err (value_error (codes "iterations"))
      else ok (text_eq (C.pbkdf2 (utf8_encode password) salt n) expected)

  -- The four parts of a hash, read; none where reading raises.
  unfoldable pub verify_parts : (password : Text) → List Text → Result Bool
  unfolding check_hash
  verify_parts password (algorithm ∷ iterations ∷ salt ∷ expected ∷ []) =
      if not (text_eq algorithm (codes "pbkdf2_sha256"))
      then ok false
      else elim (int_of iterations) [
        | none ↦ ok false
        | some n ↦ elim (base64url_decode salt) [
          | none ↦ ok false
          | some s ↦ elim (base64url_decode expected) [
            | none ↦ ok false
            | some e ↦ check_hash password n s e
          ]
        ]
      ]
  verify_parts password _ = ok false

  -- `verify_password`
  unfoldable pub verify_password : (password password_hash : Text) → Result Bool
  unfolding verify_parts
  verify_password password password_hash = verify_parts password (split_on b'$' password_hash)

  -- The text that is signed, and its signature.
  abbrev pub signature : (secret_key message : Text) → Bytes
  signature secret_key message = C.hmac_sha256 (utf8_encode secret_key) (utf8_encode message)

  abbrev pub token_header : Json
  token_header =
      obj (field (codes "alg") (str (codes "HS256")) (field (codes "typ") (str (codes "JWT")) end))

  abbrev pub token_payload : (user_id email : Text) (exp : ℕ) → Json
  token_payload user_id email exp = obj (
      field (codes "sub") (str user_id)
        (field (codes "email") (str email) (field (codes "exp") (int exp) end)))

  -- `_base64url_encode(json.dumps(…).encode("utf-8"))`
  unfoldable pub encode_json : Json → Text
  encode_json j = base64url_encode (utf8_encode (C.dumps_compact j))

  abbrev pub dot : Text
  dot = b'.' ∷ []

  -- `create_access_token`, at the time `now`.
  unfoldable pub create_access_token :
      (now : ℕ) (user_id email secret_key : Text) (expires_in_seconds : ℕ) → Text
  create_access_token now user_id email secret_key expires_in_seconds =
      let exp = (now + expires_in_seconds * microseconds) / microseconds in
      let message =
        encode_json token_header ++ (dot ++ encode_json (token_payload user_id email exp)) in
      message ++ (dot ++ base64url_encode (signature secret_key message))

  -- The checks of the claims, at the time `now`.
  unfoldable pub check_claims : (now : ℕ) → Fields → Result AccessTokenPayload
  unfolding text_field int_field
  check_claims now payload = elim (text_field (codes "sub") payload) [
    | none ↦ err invalid_access_token
    | some user_id ↦ elim (text_field (codes "email") payload) [
      | none ↦ err invalid_access_token
      | some email ↦ elim (int_field (codes "exp") payload) [
        | none ↦ err invalid_access_token
        | some (minus n) ↦
            if ltb lowest_timestamp n
            then err (value_error (codes "year is out of range"))
            else err expired_access_token
        | some (plus exp) ↦
            if ltb max_timestamp exp
            then err (value_error (codes "year is out of range"))
            else if leb (exp * microseconds) now
            then err expired_access_token
            else ok (record { user_id = user_id; email = email; expires_at = exp })
      ]
    ]
  ]

  -- The payload after the signature is checked; `payload.get` raises on what is no dictionary.
  unfoldable pub read_claims : (now : ℕ) (encoded_payload : Text) → Result AccessTokenPayload
  unfolding check_claims
  read_claims now encoded_payload = elim (base64url_decode encoded_payload) [
    | none ↦ err invalid_access_token
    | some payload_bytes ↦ elim (bind (utf8_decode payload_bytes) C.loads) [
      | none ↦ err invalid_access_token
      | some (obj payload) ↦ check_claims now payload
      | some _ ↦ err (other (codes "object has no attribute 'get'"))
    ]
  ]

  unfoldable pub decode_parts :
      (now : ℕ) (secret_key : Text) → List Text → Result AccessTokenPayload
  unfolding read_claims
  decode_parts now secret_key (header ∷ payload ∷ encoded_signature ∷ []) =
      elim (base64url_decode encoded_signature) [
        | none ↦ err invalid_access_token
        | some actual ↦
            if text_eq actual (signature secret_key (header ++ (dot ++ payload)))
            then read_claims now payload
            else err invalid_access_token
      ]
  decode_parts now secret_key _ = err invalid_access_token

  -- `decode_access_token`
  unfoldable pub decode_access_token :
      (now : ℕ) (token secret_key : Text) → Result AccessTokenPayload
  unfolding decode_parts
  decode_access_token now token secret_key = decode_parts now secret_key (split_on b'.' token)

  -- `create_api_key`, at one draw of random bytes; `token_urlsafe` is `base64url_encode` of them.
  unfoldable pub create_api_key : (token_bytes : ℕ → Bytes) → Text × Text
  create_api_key token_bytes =
      let raw_api_key = api_key_prefix ++ base64url_encode (token_bytes api_key_token_bytes) in
      (raw_api_key, take api_key_display_prefix_length raw_api_key)

  -- `hash_api_key`
  unfoldable pub hash_api_key : Text → Result Text
  hash_api_key api_key = elim (normalize_api_key api_key) [
    | err e ↦ err e
    | ok normalized ↦ ok (C.sha256_hex (utf8_encode normalized))
  ]
