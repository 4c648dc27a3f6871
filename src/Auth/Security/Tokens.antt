-- ===== src/Auth/Security/Tokens.antt =====
-- `create_access_token` and `decode_access_token` together.
use document_agent_api.Common.{
  ℕ, ◌+◌, ◌*◌, ◌/◌, ◌<◌, ◌≤◌, Text, Bytes, codes, text_eq, text_eq_refl, split_on, ◌≡◌, ◌≢◌, refl,
  ◌∙◌, ap, some, [], ◌∷◌, ◌++◌, ok, err, expired_access_token, All, arith, if◌then◌else◌, leb,
}
use document_agent_api.Common.Utf8.{
  utf8_encode, utf8_decode, is_scalar, encode_char, IsScalar, decode-encode,
}
use document_agent_api.Models.{Json, obj, str, int, field, end, Fields, get_field}
use document_agent_api.Auth.Base64.{base64url_encode, base64url_decode}
use document_agent_api.Auth.Base64.RoundTrip.{IsByte, base64url_decode-encode}
use document_agent_api.Auth.Security.{
  Crypto, microseconds, max_timestamp, signature, token_header, token_payload, encode_json, dot,
  create_access_token, check_claims, read_claims, decode_parts, decode_access_token, text_field,
  int_field,
}
use document_agent_api.Auth.Security.Parts.{
  NoSeparator, split_on-part, split_on-last, base64url_encode-NoSeparator,
}

-- `json.dumps` writes ASCII, and a digest is made of bytes.
pub record CryptoLaws (C : Crypto) : Type 0 where
  pub dumps-ascii : (j : Json) → All (λ c. c < 128) (C.dumps_compact j)
  pub hmac-bytes : (key message : Bytes) → All IsByte (C.hmac_sha256 key message)

ascii-IsScalar : (s : Text) → All (λ c. c < 128) s → All IsScalar s
unfolding is_scalar
ascii-IsScalar [] h = tt
ascii-IsScalar (c ∷ s) (h, hs) = (ground arith, ascii-IsScalar s hs)

ascii_byte : (c : ℕ) → c < 128 → encode_char c ≡ c ∷ []
unfolding encode_char
ascii_byte c h = ground arith

encode-IsByte : (s : Text) → All (λ c. c < 128) s → All IsByte (utf8_encode s)
unfolding utf8_encode encode_char
encode-IsByte [] h = tt
encode-IsByte (c ∷ s) (h, hs) = rw (ascii_byte c h) (omega (arith, h), encode-IsByte s hs)

module _ (C : Crypto) (H : CryptoLaws C) where
  -- What is read of an encoded JSON value.
  read_json :
      (j : Json)
      → (base64url_decode (encode_json C j) ≡ some (utf8_encode (C.dumps_compact j)))
        × (utf8_decode (utf8_encode (C.dumps_compact j)) ≡ some (C.dumps_compact j))
  unfolding encode_json
  read_json j = (
    base64url_decode-encode _ (encode-IsByte _ (H.dumps-ascii j)),
    decode-encode _ (ascii-IsScalar _ (H.dumps-ascii j)),
  )

  -- The time of expiry, in seconds.
  abbrev pub expiry : (now expires_in_seconds : ℕ) → ℕ
  expiry now expires_in_seconds = (now + expires_in_seconds * microseconds) / microseconds

  -- `a.b.c`, split at its first dot.
  append_assoc : (a b c : Text) → (a ++ (dot C ++ b)) ++ (dot C ++ c) ≡ a ++ b'.' ∷ (b ++ b'.' ∷ c)
  append_assoc [] b c = refl
  append_assoc (x ∷ a) b c = ap (λ t. x ∷ t) (append_assoc a b c)

  plain : (j : Json) → NoSeparator b'.' (encode_json C j)
  unfolding encode_json
  plain j = (base64url_encode-NoSeparator (utf8_encode (C.dumps_compact j))).0

  token_parts :
      (now : ℕ) (user_id email secret_key : Text) (expires_in_seconds : ℕ)
      → let header = encode_json C (token_header C) in
        let payload =
          encode_json C (token_payload C user_id email (expiry now expires_in_seconds)) in
        split_on b'.' (create_access_token C now user_id email secret_key expires_in_seconds)
        ≡ header
          ∷ payload
          ∷ base64url_encode (signature C secret_key (header ++ (dot C ++ payload)))
          ∷ []
  unfolding create_access_token
  token_parts now user_id email secret_key expires_in_seconds =
      let header = encode_json C (token_header C) in
      let payload = encode_json C (token_payload C user_id email (expiry now expires_in_seconds)) in
      let sig = base64url_encode (signature C secret_key (header ++ (dot C ++ payload))) in
      ap (split_on b'.') (append_assoc header payload sig)
      ∙ split_on-part b'.' header _ (plain (token_header C))
      ∙ ap (λ r. header ∷ r)
          (split_on-part b'.' payload sig
              (plain (token_payload C user_id email (expiry now expires_in_seconds)))
            ∙ ap (λ r. payload ∷ r) (split_on-last b'.' sig (base64url_encode-NoSeparator _).0))

  signed :
      (at : ℕ) (secret_key header payload encoded : Text)
      → base64url_decode encoded ≡ some (signature C secret_key (header ++ (dot C ++ payload)))
      → decode_parts C at secret_key (header ∷ payload ∷ encoded ∷ []) ≡ read_claims C at payload
  unfolding decode_parts
  signed at secret_key header payload encoded h =
      ground (arith, h, text_eq_refl (signature C secret_key (header ++ (dot C ++ payload))))

  read_fields :
      (at : ℕ) (encoded : Text) (bytes : Bytes) (text : Text) (fields : Fields)
      → base64url_decode encoded ≡ some bytes
      → utf8_decode bytes ≡ some text
      → C.loads text ≡ some (obj fields)
      → read_claims C at encoded ≡ check_claims C at fields
  unfolding read_claims
  read_fields at encoded bytes text fields h k l = ground (arith, h, k, l)

  claims_checked :
      (at : ℕ) (user_id email : Text) (exp : ℕ)
      → user_id ≢ []
      → email ≢ []
      → exp ≤ max_timestamp
      → check_claims C at (
          field
            (codes "sub")
            (str user_id)
            (field (codes "email") (str email) (field (codes "exp") (int exp) end)))
        ≡ (if leb (exp * microseconds) at
            then err expired_access_token
            else ok (record { user_id = user_id; email = email; expires_at = exp }))
  unfolding check_claims text_field int_field get_field text_eq
  claims_checked at [] email exp u m x = absurd (u refl)
  claims_checked at (c ∷ user_id) [] exp u m x = absurd (m refl)
  claims_checked at (c ∷ user_id) (d ∷ email) exp u m x = ground arith

  claims_read :
      (at : ℕ) (user_id email : Text) (exp : ℕ)
      → user_id ≢ []
      → email ≢ []
      → exp ≤ max_timestamp
      → C.loads (C.dumps_compact (token_payload C user_id email exp))
        ≡ some (token_payload C user_id email exp)
      → read_claims C at (encode_json C (token_payload C user_id email exp)) ≡ (
          if leb (exp * microseconds) at
          then err expired_access_token
          else ok (record { user_id = user_id; email = email; expires_at = exp }))
  claims_read at user_id email exp u m x l =
      let j = token_payload C user_id email exp in
      let r = read_json j in
      read_fields at (encode_json C j) _ _ _ r.0 r.1 l ∙ claims_checked at user_id email exp u m x

  -- Reading an access token that was made with the same secret, at a time `at`: its user, its email
  -- and its expiry come back before the expiry, and `ExpiredAccessTokenError` is raised from then
  -- on. The user's id and email are not empty, the expiry is a date that Python can hold, and
  -- `json.loads` reads back what `json.dumps` wrote of the token's payload.
  pub decode_access_token-create_access_token :
      (now at : ℕ) (user_id email secret_key : Text) (expires_in_seconds : ℕ)
      → user_id ≢ []
      → email ≢ []
      → expiry now expires_in_seconds ≤ max_timestamp
      → (let j = token_payload C user_id email (expiry now expires_in_seconds) in
          C.loads (C.dumps_compact j) ≡ some j)
      → decode_access_token C at
          (create_access_token C now user_id email secret_key expires_in_seconds)
          secret_key
        ≡ (if leb (expiry now expires_in_seconds * microseconds) at
            then err expired_access_token
            else ok (record {
              user_id = user_id;
              email = email;
              expires_at = expiry now expires_in_seconds;
            }))
  unfolding decode_access_token
  decode_access_token-create_access_token now at user_id email secret_key expires_in_seconds u m x
        l =
      let header = encode_json C (token_header C) in
      let payload = encode_json C (token_payload C user_id email (expiry now expires_in_seconds)) in
      let sig = signature C secret_key (header ++ (dot C ++ payload)) in
      ap (decode_parts C at secret_key)
        (token_parts now user_id email secret_key expires_in_seconds)
      ∙ signed at secret_key header payload (base64url_encode sig)
          (base64url_decode-encode sig (H.hmac-bytes _ _))
      ∙ claims_read at user_id email (expiry now expires_in_seconds) u m x l
