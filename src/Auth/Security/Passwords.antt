-- ===== src/Auth/Security/Passwords.antt =====
-- `hash_password` and `verify_password` together.
use document_agent_api.Common.{
  Text, Bytes, codes, text_eq, split_on, true, not, ◌≡◌, refl, ◌∙◌, ap, [], ◌∷◌, ok, All, all,
  arith, ◌==◌,
}
use document_agent_api.Common.Utf8.{utf8_encode}
use document_agent_api.Queueing.Resp.{int_of}
use document_agent_api.Auth.Base64.{base64url_encode}
use document_agent_api.Auth.Base64.RoundTrip.{IsByte, base64url_decode-encode}
use document_agent_api.Auth.Security.{
  Crypto, hash_password, verify_password, verify_parts, check_hash,
}
use document_agent_api.Auth.Security.Parts.{
  NoSeparator, split_on-part, split_on-last, base64url_encode-NoSeparator,
}

literal : (t : Text) → all (λ c. not (c == b'$')) t ≡ true → NoSeparator b'$' t
literal [] h = tt
literal (c ∷ t) h = (ground arith, literal t (ground arith))

read_parts :
    (C : Crypto) (password attempt : Text) (salt : Bytes)
    → All IsByte salt
    → All IsByte (C.pbkdf2 (utf8_encode password) salt 600000)
    → verify_parts C attempt (
        codes "pbkdf2_sha256"
        ∷ codes "600000"
        ∷ base64url_encode salt
        ∷ base64url_encode (C.pbkdf2 (utf8_encode password) salt 600000)
        ∷ [])
      ≡ ok (
          text_eq
            (C.pbkdf2 (utf8_encode attempt) salt 600000)
            (C.pbkdf2 (utf8_encode password) salt 600000))
unfolding verify_parts check_hash text_eq int_of utf8_encode
read_parts C password attempt salt h k =
    rw
      (
        base64url_decode-encode salt h,
        base64url_decode-encode (C.pbkdf2 (utf8_encode password) salt 600000) k,
      )
      refl

-- `verify_password` accepts a password for a hash that `hash_password` made of the same password, and
-- for another password it gives whether the derived keys agree.
pub verify_password-hash_password :
    (C : Crypto) (password attempt : Text) (salt : Bytes)
    → All IsByte salt
    → All IsByte (C.pbkdf2 (utf8_encode password) salt 600000)
    → verify_password C attempt (hash_password C password salt)
      ≡ ok (
          text_eq
            (C.pbkdf2 (utf8_encode attempt) salt 600000)
            (C.pbkdf2 (utf8_encode password) salt 600000))
unfolding hash_password verify_password
verify_password-hash_password C password attempt salt h k =
    let key = C.pbkdf2 (utf8_encode password) salt 600000 in
    let parts : split_on b'$' (hash_password C password salt)
        ≡ codes "pbkdf2_sha256"
          ∷ codes "600000"
          ∷ base64url_encode salt
          ∷ base64url_encode key
          ∷ [] =
      split_on-part b'$' (codes "pbkdf2_sha256") _ (literal (codes "pbkdf2_sha256") refl)
      ∙ ap (λ r. codes "pbkdf2_sha256" ∷ r)
          (split_on-part b'$' (codes "600000") _ (literal (codes "600000") refl)
            ∙ ap (λ r. codes "600000" ∷ r)
                (split_on-part b'$' (base64url_encode salt) _ (base64url_encode-NoSeparator salt).1
                  ∙ ap (λ r. base64url_encode salt ∷ r)
                      (split_on-last b'$' (base64url_encode key)
                        (base64url_encode-NoSeparator key).1))) in
    ap (verify_parts C attempt) parts ∙ read_parts C password attempt salt h k
