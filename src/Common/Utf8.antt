-- ===== src/Common/Utf8.antt =====
-- UTF-8 (`str.encode("utf-8")`, and the strict `bytes.decode("utf-8")`).
use Prim.Native.Nat.{ℕ, zero, suc, ◌+◌, ◌-◌, ◌*◌, ◌/◌, ◌%◌, ◌<◌, ◌≤◌}
use mathlib.Core.Path.{◌≡◌, refl, ap, ◌∙◌}
use mathlib.Core.Bool.{Bool, true, ◌&&◌, ◌||◌}
use mathlib.Core.Option
use mathlib.Core.Option.{Option, none, some}
use mathlib.Core.List.{[], ◌∷◌, ◌++◌}
use native.Mathlib.Omega.{arith}
use document_agent_api.Common.Base.{ltb, leb, if◌then◌else◌, All, Bool-cases}
use document_agent_api.Common.Strings.{Text, Bytes}
use mathlib.Core.Logic.{inl, inr}

-- The bytes of one code point. A text never holds a lone surrogate here; Python raises on one.
unfoldable pub encode_char : ℕ → Bytes
encode_char c =
    if ltb c 0x80
    then c ∷ []
    else if ltb c 0x800
    then (0xc0 + c / 64) ∷ (0x80 + c % 64) ∷ []
    else if ltb c 0x10000
    then (0xe0 + c / 4096) ∷ (0x80 + c / 64 % 64) ∷ (0x80 + c % 64) ∷ []
    else (0xf0 + c / 262144) ∷ (0x80 + c / 4096 % 64) ∷ (0x80 + c / 64 % 64) ∷ (0x80 + c % 64) ∷ []

unfoldable pub utf8_encode : Text → Bytes
unfolding encode_char
utf8_encode [] = []
utf8_encode (c ∷ s) = encode_char c ++ utf8_encode s

-- A code point that is no surrogate.
unfoldable pub is_scalar : ℕ → Bool
is_scalar c = ltb c 0xd800 || (leb 0xe000 c && leb c 0x10ffff)

-- `left` continuation bytes are due, `acc` holds the bits so far, and `low` is the least code point
-- that may take as many bytes.
unfoldable pub decode_from : (left acc low : ℕ) → Bytes → Option Text
unfolding is_scalar
decode_from zero acc low [] = some []
decode_from (suc n) acc low [] = none
decode_from zero acc low (b ∷ s) =
    let ascii = Option.map (λ t. b ∷ t) (decode_from 0 0 0 s) in
    let two = decode_from 1 (b - 0xc0) 0x80 s in
    let three = decode_from 2 (b - 0xe0) 0x800 s in
    let four = decode_from 3 (b - 0xf0) 0x10000 s in
    if ltb b 0x80
    then ascii
    else if ltb b 0xc0
    then none
    else if ltb b 0xe0
    then two
    else if ltb b 0xf0
    then three
    else if ltb b 0xf8
    then four
    else none
decode_from (suc zero) acc low (b ∷ s) =
    let c = acc * 64 + (b - 0x80) in
    let done = Option.map (λ t. c ∷ t) (decode_from 0 0 0 s) in
    if leb 0x80 b && ltb b 0xc0 && leb low c && is_scalar c then done else none
decode_from (suc (suc n)) acc low (b ∷ s) =
    let more = decode_from (suc n) (acc * 64 + (b - 0x80)) low s in
    if leb 0x80 b && ltb b 0xc0 then more else none

unfoldable pub utf8_decode : Bytes → Option Text
unfolding decode_from
utf8_decode s = decode_from 0 0 0 s

abbrev pub IsScalar : ℕ → Type 0
IsScalar c = is_scalar c ≡ true

-- One byte of the decoder at a time.
module _ (b : ℕ) (s : Bytes) where
  decode_ascii :
      b < 0x80 → decode_from 0 0 0 (b ∷ s) ≡ Option.map (λ t. b ∷ t) (decode_from 0 0 0 s)
  unfolding decode_from
  decode_ascii h = ground arith

  decode_two : 0xc0 ≤ b → b < 0xe0 → decode_from 0 0 0 (b ∷ s) ≡ decode_from 1 (b - 0xc0) 0x80 s
  unfolding decode_from
  decode_two h k = ground arith

  decode_three : 0xe0 ≤ b → b < 0xf0 → decode_from 0 0 0 (b ∷ s) ≡ decode_from 2 (b - 0xe0) 0x800 s
  unfolding decode_from
  decode_three h k = ground arith

  decode_four : 0xf0 ≤ b → b < 0xf8 → decode_from 0 0 0 (b ∷ s) ≡ decode_from 3 (b - 0xf0) 0x10000 s
  unfolding decode_from
  decode_four h k = ground arith

  decode_more :
      (n acc low : ℕ)
      → 0x80 ≤ b
      → b < 0xc0
      → decode_from (suc (suc n)) acc low (b ∷ s)
        ≡ decode_from (suc n) (acc * 64 + (b - 0x80)) low s
  unfolding decode_from
  decode_more n acc low h k = ground arith

  decode_last :
      (acc low c : ℕ)
      → 0x80 ≤ b
      → b < 0xc0
      → acc * 64 + (b - 0x80) ≡ c
      → low ≤ c
      → IsScalar c
      → decode_from 1 acc low (b ∷ s) ≡ Option.map (λ t. c ∷ t) (decode_from 0 0 0 s)
  unfolding decode_from
  decode_last acc low c h k e l sc = rw e (rw sc (ground arith))

below_limit : (c : ℕ) → IsScalar c → c < 0x110000
unfolding is_scalar
below_limit c h = ground arith

decode-encode_char :
    (c : ℕ) (s : Bytes)
    → IsScalar c
    → decode_from 0 0 0 (encode_char c ++ s) ≡ Option.map (λ t. c ∷ t) (decode_from 0 0 0 s)
unfolding encode_char
decode-encode_char c s h = elim (Bool-cases (ltb c 0x80)) [
  | inl e ↦ rw e (decode_ascii c s (ground arith))
  | inr e ↦ elim (Bool-cases (ltb c 0x800)) [
    | inl f ↦
        rw (e, f)
          (decode_two _ _ (ground arith) (ground arith)
            ∙ decode_last _ _ _ _ c (omega arith) (omega arith) (omega arith) (ground arith) h)
    | inr f ↦ elim (Bool-cases (ltb c 0x10000)) [
      | inl g ↦
          rw (e, f, g)
            (decode_three _ _ (ground arith) (ground arith)
              ∙ decode_more _ _ _ _ _ (omega arith) (omega arith)
              ∙ decode_last _ _ _ _ c (omega arith) (omega arith) (omega arith) (ground arith) h)
      | inr g ↦
          rw (e, f, g)
            (decode_four _ _ (ground arith) (omega (arith, below_limit c h))
              ∙ decode_more _ _ _ _ _ (omega arith) (omega arith)
              ∙ decode_more _ _ _ _ _ (omega arith) (omega arith)
              ∙ decode_last _ _ _ _ c (omega arith) (omega arith) (omega arith) (ground arith) h)
    ]
  ]
]

-- Decoding gives back every text without surrogates.
pub decode-encode : (s : Text) → All IsScalar s → utf8_decode (utf8_encode s) ≡ some s
unfolding utf8_encode utf8_decode
decode-encode [] _ = refl
decode-encode (c ∷ s) (h, hs) =
    rw (decode-encode_char c (utf8_encode s) h) (ap (Option.map (λ t. c ∷ t)) (decode-encode s hs))
