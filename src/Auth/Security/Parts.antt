-- ===== src/Auth/Security/Parts.antt =====
-- Splitting a text at a separator that its parts do not hold.
use document_agent_api.Common.{
  ℕ, ◌%◌, ◌/◌, ◌*◌, ◌+◌, Text, Bytes, split_on, ◌≡◌, ◌≢◌, refl, [], ◌∷◌, ◌++◌, All, arith,
}
use document_agent_api.Auth.Base64.{char_of, base64url_encode}

abbrev pub NoSeparator : ℕ → Text → Type 0
NoSeparator sep = All (λ c. c ≢ sep)

-- A part, its separator and the rest.
pub split_on-part :
    (sep : ℕ) (part rest : Text)
    → NoSeparator sep part
    → split_on sep (part ++ sep ∷ rest) ≡ part ∷ split_on sep rest
unfolding split_on
split_on-part sep [] rest h = ground arith
split_on-part sep (c ∷ part) rest (h, hs) = ground (arith, split_on-part sep part rest hs)

-- The last part.
pub split_on-last : (sep : ℕ) (part : Text) → NoSeparator sep part → split_on sep part ≡ part ∷ []
unfolding split_on
split_on-last sep [] h = refl
split_on-last sep (c ∷ part) (h, hs) = ground (arith, split_on-last sep part hs)

char_of-plain : (i : ℕ) → (char_of i ≢ b'.') × (char_of i ≢ b'$')
unfolding char_of
char_of-plain i = (ground arith, ground arith)

-- An encoded text holds none of the two separators.
pub base64url_encode-NoSeparator :
    (s : Bytes) → NoSeparator b'.' (base64url_encode s) × NoSeparator b'$' (base64url_encode s)
unfolding base64url_encode
base64url_encode-NoSeparator [] = (tt, tt)
base64url_encode-NoSeparator (a ∷ []) =
    let p = char_of-plain (a / 4) in
    let q = char_of-plain (a % 4 * 16) in ((p.0, (q.0, tt)), (p.1, (q.1, tt)))
base64url_encode-NoSeparator (a ∷ b ∷ []) =
    let p = char_of-plain (a / 4) in
    let q = char_of-plain (a % 4 * 16 + b / 16) in
    let r = char_of-plain (b % 16 * 4) in ((p.0, (q.0, (r.0, tt))), (p.1, (q.1, (r.1, tt))))
base64url_encode-NoSeparator (a ∷ b ∷ c ∷ s) =
    let p = char_of-plain (a / 4) in
    let q = char_of-plain (a % 4 * 16 + b / 16) in
    let r = char_of-plain (b % 16 * 4 + c / 64) in
    let t = char_of-plain (c % 64) in
    let rest = base64url_encode-NoSeparator s in
    ((p.0, (q.0, (r.0, (t.0, rest.0)))), (p.1, (q.1, (r.1, (t.1, rest.1)))))
