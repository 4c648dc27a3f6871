-- ===== src/Auth/Base64/RoundTrip.antt =====
-- `_base64url_encode` and `_base64url_decode` together.
use document_agent_api.Common.{
  ℕ, suc, ◌+◌, ◌*◌, ◌/◌, ◌%◌, ◌<◌, ◌≡◌, refl, ◌∙◌, Text, Bytes, is_ascii, true, false, Option, some,
  [], ◌∷◌, ◌++◌, length, ltb, All, ◌==◌, arith,
}
use document_agent_api.Auth.Base64.{
  char_of, base64url_encode, value_of, push_byte, a2b_base64, padding, base64url_decode,
}

abbrev pub IsByte : ℕ → Type 0
IsByte b = b < 256

value_of-char_of : (i : ℕ) → i < 64 → value_of (char_of i) ≡ some i
unfolding value_of char_of
value_of-char_of i h = ground arith

char_of_plain : (i : ℕ) → i < 64 → ((char_of i == b'=') ≡ false) × (ltb (char_of i) 128 ≡ true)
unfolding char_of
char_of_plain i h = (ground arith, ground arith)

module _ (i : ℕ) (h : i < 64) (left : ℕ) (s : Text) where
  read_first : a2b_base64 0 left 0 (char_of i ∷ s) ≡ a2b_base64 1 i 0 s
  unfolding a2b_base64
  read_first = rw ((char_of_plain i h).0) (rw (value_of-char_of i h) refl)

  read_second :
      a2b_base64 1 left 0 (char_of i ∷ s)
      ≡ push_byte (left * 4 + i / 16) (a2b_base64 2 (i % 16) 0 s)
  unfolding a2b_base64
  read_second = rw ((char_of_plain i h).0) (rw (value_of-char_of i h) refl)

  read_third :
      a2b_base64 2 left 0 (char_of i ∷ s) ≡ push_byte (left * 16 + i / 4) (a2b_base64 3 (i % 4) 0 s)
  unfolding a2b_base64
  read_third = rw ((char_of_plain i h).0) (rw (value_of-char_of i h) refl)

  read_fourth : a2b_base64 3 left 0 (char_of i ∷ s) ≡ push_byte (left * 64 + i) (a2b_base64 0 0 0 s)
  unfolding a2b_base64
  read_fourth = rw ((char_of_plain i h).0) (rw (value_of-char_of i h) refl)

push_byte_lem :
    (x b : ℕ) (r : Option Bytes) (s : Bytes) → x ≡ b → r ≡ some s → push_byte x r ≡ some (b ∷ s)
push_byte_lem x b r s p q = rw (p, q)

after_two : (x : ℕ) → a2b_base64 2 x 0 (padding 2) ≡ some []
unfolding a2b_base64 padding
after_two x = refl

after_three : (x : ℕ) → a2b_base64 3 x 0 (padding 3) ≡ some []
unfolding a2b_base64 padding
after_three x = refl

padding_four : (n : ℕ) → padding (suc (suc (suc (suc n)))) ≡ padding n
unfolding padding
padding_four n = ground arith

decode_from-encode :
    (s : Bytes)
    → All IsByte s
    → a2b_base64 0 0 0 (base64url_encode s ++ padding (length (base64url_encode s))) ≡ some s
unfolding base64url_encode
decode_from-encode [] h = unfold a2b_base64 padding in refl
decode_from-encode (a ∷ []) (ha, _) =
    read_first (a / 4) (omega arith) _ _
    ∙ read_second (a % 4 * 16) (omega arith) _ _
    ∙ push_byte_lem _ a _ [] (omega arith) (after_two _)
decode_from-encode (a ∷ b ∷ []) (ha, (hb, _)) =
    read_first (a / 4) (omega arith) _ _
    ∙ read_second (a % 4 * 16 + b / 16) (omega arith) _ _
    ∙ push_byte_lem _ a _ (b ∷ []) (omega arith) (
        read_third (b % 16 * 4) (omega arith) _ _
        ∙ push_byte_lem _ b _ [] (omega arith) (after_three _))
decode_from-encode (a ∷ b ∷ c ∷ s) (ha, (hb, (hc, hs))) =
    read_first (a / 4) (omega arith) _ _
    ∙ read_second (a % 4 * 16 + b / 16) (omega arith) _ _
    ∙ push_byte_lem _ a _ (b ∷ c ∷ s) (omega arith) (
        read_third (b % 16 * 4 + c / 64) (omega arith) _ _
        ∙ push_byte_lem _ b _ (c ∷ s) (omega arith) (
            read_fourth (c % 64) (omega arith) _ _
            ∙ push_byte_lem _ c _ s (omega arith)
                (rw (padding_four (length (base64url_encode s))) (decode_from-encode s hs))))

is_ascii-encode : (s : Bytes) → All IsByte s → is_ascii (base64url_encode s) ≡ true
unfolding base64url_encode
is_ascii-encode [] h = refl
is_ascii-encode (a ∷ []) (ha, _) =
    rw ((char_of_plain (a / 4) (omega arith)).1, (char_of_plain (a % 4 * 16) (omega arith)).1)
is_ascii-encode (a ∷ b ∷ []) (ha, (hb, _)) = rw (
  (char_of_plain (a / 4) (omega arith)).1,
  (char_of_plain (a % 4 * 16 + b / 16) (omega arith)).1,
  (char_of_plain (b % 16 * 4) (omega arith)).1,
)
is_ascii-encode (a ∷ b ∷ c ∷ s) (ha, (hb, (hc, hs))) = rw (
  (char_of_plain (a / 4) (omega arith)).1,
  (char_of_plain (a % 4 * 16 + b / 16) (omega arith)).1,
  (char_of_plain (b % 16 * 4 + c / 64) (omega arith)).1,
  (char_of_plain (c % 64) (omega arith)).1,
  is_ascii-encode s hs,
)

-- Decoding what `_base64url_encode` wrote of any bytes gives the bytes, though the padding was
-- stripped.
pub base64url_decode-encode :
    (s : Bytes) → All IsByte s → base64url_decode (base64url_encode s) ≡ some s
unfolding base64url_decode
base64url_decode-encode s h = rw (is_ascii-encode s h) (unfold padding in decode_from-encode s h)
