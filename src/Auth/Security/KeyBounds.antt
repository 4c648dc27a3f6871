-- ===== src/Auth/Security/KeyBounds.antt =====
-- The sizes of an API key and of its stored prefix.
use document_agent_api.Common.{
  ℕ, zero, suc, ◌+◌, ◌*◌, ◌/◌, ◌≤◌, Text, Bytes, starts_with, true, ◌≡◌, refl, ap, List, [], ◌∷◌,
  ◌++◌, length, length-append, arith,
}
use document_agent_api.Documents.Reading.{take, drop}
use document_agent_api.Auth.Base64.{base64url_encode}
use document_agent_api.Auth.Security.{Crypto, api_key_prefix, create_api_key, is_probable_api_key}

-- Each group of three bytes takes four characters, and what is left two or three.
length-base64url_encode : (s : Bytes) → length (base64url_encode s) ≡ (4 * length s + 2) / 3
unfolding base64url_encode
length-base64url_encode [] = omega arith
length-base64url_encode (a ∷ []) = omega arith
length-base64url_encode (a ∷ b ∷ []) = omega arith
length-base64url_encode (a ∷ b ∷ c ∷ s) = omega (arith, length-base64url_encode s)

take-drop_append : {A : Type 0} (n : ℕ) (xs : List A) → take n xs ++ drop n xs ≡ xs
unfolding take drop
take-drop_append zero xs = refl
take-drop_append (suc n) [] = refl
take-drop_append (suc n) (x ∷ xs) = ap (λ t. x ∷ t) (take-drop_append n xs)

length-take_full : {A : Type 0} (n : ℕ) (xs : List A) → n ≤ length xs → length (take n xs) ≡ n
unfolding take
length-take_full zero xs h = omega arith
length-take_full (suc n) [] h = absurd (omega arith)
length-take_full (suc n) (x ∷ xs) h = let rest = length-take_full n xs (omega arith) in omega arith

-- A source of random bytes that gives as many as it is asked for makes an API key of 48 characters that
-- is recognized as a key. The prefix that is stored for display is its first 17 characters, and leaves
-- out the other 31.
pub create_api_key_bounds :
    (C : Crypto) (token_bytes : ℕ → Bytes)
    → ((n : ℕ) → length (token_bytes n) ≡ n)
    → let (raw_api_key, shown) = create_api_key C token_bytes in
      (length raw_api_key ≡ 48)
      × (is_probable_api_key raw_api_key ≡ true)
      × (length shown ≡ 17)
      × (shown ++ drop 17 raw_api_key ≡ raw_api_key)
      × (length (drop 17 raw_api_key) ≡ 31)
unfolding create_api_key is_probable_api_key starts_with
create_api_key_bounds C token_bytes h =
    let raw = (create_api_key C token_bytes).0 in
    let size : length raw ≡ 48 = omega (
      arith,
      length-append api_key_prefix (base64url_encode (token_bytes 32)),
      length-base64url_encode (token_bytes 32),
      h 32,
    ) in
    let shown = length-take_full 17 raw (omega (arith, size)) in
    let parts = take-drop_append 17 raw in
    (
      size,
      refl,
      shown,
      parts,
      omega (
        arith,
        size,
        shown,
        length-append (take 17 raw) (drop 17 raw),
        ap (λ (t : Text). length t) parts,
      ),
    )
