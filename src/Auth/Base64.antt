-- ===== src/Auth/Base64.antt =====
-- `_base64url_encode` and `_base64url_decode` of auth/security.py, with what they call of `base64`
-- and `binascii`.
pub mod RoundTrip
use document_agent_api.Common.{
  ℕ, zero, suc, ◌+◌, ◌-◌, ◌*◌, ◌/◌, ◌%◌, Text, Bytes, is_ascii, Bool, true, false, ◌&&◌, ◌||◌,
  Option, none, some, List, [], ◌∷◌, ◌++◌, length, ltb, leb, ◌==◌, if◌then◌else◌,
}

-- The character of six bits.
unfoldable pub char_of : ℕ → ℕ
char_of i =
    if ltb i 26
    then i + b'A'
    else if ltb i 52
    then i - 26 + b'a'
    else if ltb i 62
    then i - 52 + b'0'
    else if i == 62
    then b'-'
    else b'_'

-- `_base64url_encode`: the padding is stripped, so that it is never written here.
unfoldable pub base64url_encode : Bytes → Text
base64url_encode [] = []
base64url_encode (a ∷ []) = char_of (a / 4) ∷ char_of (a % 4 * 16) ∷ []
base64url_encode (a ∷ b ∷ []) =
    char_of (a / 4) ∷ char_of (a % 4 * 16 + b / 16) ∷ char_of (b % 16 * 4) ∷ []
base64url_encode (a ∷ b ∷ c ∷ s) =
    char_of (a / 4)
    ∷ char_of (a % 4 * 16 + b / 16)
    ∷ char_of (b % 16 * 4 + c / 64)
    ∷ char_of (c % 64)
    ∷ base64url_encode s

-- The six bits of a character; `urlsafe_b64decode` reads both alphabets.
unfoldable pub value_of : ℕ → Option ℕ
value_of c =
    if leb b'A' c && leb c b'Z'
    then some (c - b'A')
    else if leb b'a' c && leb c b'z'
    then some (c - b'a' + 26)
    else if leb b'0' c && leb c b'9'
    then some (c - b'0' + 52)
    else if c == b'-' || c == b'+'
    then some 62
    else if c == b'_' || c == b'/'
    then some 63
    else none

abbrev pub push_byte : ℕ → Option Bytes → Option Bytes
push_byte b none = none
push_byte b (some s) = some (b ∷ s)

-- `binascii.a2b_base64`, not strict: `quad` characters of a group of four are read, `left` holds
-- their bits that are not yet written, and `pads` counts the "=" since. Characters outside the
-- alphabet are skipped; none is the error about the number of characters or the padding.
unfoldable pub a2b_base64 : (quad left pads : ℕ) → Text → Option Bytes
unfolding value_of
a2b_base64 quad left pads [] = if quad == 0 then some [] else none
a2b_base64 quad left pads (c ∷ s) =
    let skip = a2b_base64 quad left pads s in
    let padded = a2b_base64 quad left (pads + 1) s in
    if c == b'='
    then (if leb 2 quad then (if leb 4 (quad + (pads + 1)) then some [] else padded) else skip)
    else (elim (value_of c) [
      | none ↦ skip
      | some v ↦
          let first = a2b_base64 1 v 0 s in
          let second = push_byte (left * 4 + v / 16) (a2b_base64 2 (v % 16) 0 s) in
          let third = push_byte (left * 16 + v / 4) (a2b_base64 3 (v % 4) 0 s) in
          let fourth = push_byte (left * 64 + v) (a2b_base64 0 0 0 s) in
          if quad == 0
          then first
          else if quad == 1
          then second
          else if quad == 2
          then third
          else fourth
    ])

-- "=" * (-n % 4)
unfoldable pub padding : ℕ → Text
padding n =
    if n % 4 == 0
    then []
    else if n % 4 == 1
    then b'=' ∷ b'=' ∷ b'=' ∷ []
    else if n % 4 == 2
    then b'=' ∷ b'=' ∷ []
    else b'=' ∷ []

-- `_base64url_decode`, none where it raises; so also `_base64url_decode_safe`.
unfoldable pub base64url_decode : Text → Option Bytes
unfolding a2b_base64 padding
base64url_decode value =
    if is_ascii value then a2b_base64 0 0 0 (value ++ padding (length value)) else none
