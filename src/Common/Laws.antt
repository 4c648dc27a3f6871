-- ===== src/Common/Laws.antt =====
-- Laws of the methods of `str`.
use document_agent_api.Common.Base.{◌==◌, if◌then◌else◌, all, All, Bool-cases}
use document_agent_api.Common.Strings.{
  Text, is_space, lstrip, rstrip, strip_chars, strip, split_on, cons_head, last_or, replace_char,
}
use Prim.Native.Nat.{ℕ}
use mathlib.Core.Path.{◌≡◌, refl}
use mathlib.Core.Bool.{Bool, true, false}
use mathlib.Core.Logic.{◌≢◌, inl, inr}
use mathlib.Core.List.{List, [], ◌∷◌}
use native.Mathlib.Omega.{arith}

module _ (P : ℕ → Type 0) (p : ℕ → Bool) where
  lstrip-All : (s : Text) → All P s → All P (lstrip p s)
  unfolding lstrip
  lstrip-All [] h = tt
  lstrip-All (c ∷ s) h = ground (arith, lstrip-All s h.1)

  rstrip-All : (s : Text) → All P s → All P (rstrip p s)
  unfolding rstrip
  rstrip-All [] h = tt
  rstrip-All (c ∷ s) h = ground (arith, rstrip-All s h.1)

pub strip_chars-All : (P : ℕ → Type 0) (p : ℕ → Bool) (s : Text) → All P s → All P (strip_chars p s)
unfolding strip_chars
strip_chars-All P p s h = rstrip-All P p _ (lstrip-All P p s h)

-- What holds of each code point holds of those that are left.
pub strip-All : (P : ℕ → Type 0) (s : Text) → All P s → All P (strip s)
unfolding strip
strip-All P s h = strip_chars-All P is_space s h

-- The first code point that is left is no space.
abbrev pub Head : (ℕ → Type 0) → Text → Type 0
Head P [] = Unit
Head P (c ∷ s) = P c

module _ (p : ℕ → Bool) where
  lstrip-Head : (s : Text) → Head (λ c. p c ≡ false) (lstrip p s)
  unfolding lstrip
  lstrip-Head [] = tt
  lstrip-Head (c ∷ s) = ground (arith, lstrip-Head s)

  lstrip_of_Head : (s : Text) → Head (λ c. p c ≡ false) s → lstrip p s ≡ s
  unfolding lstrip
  lstrip_of_Head [] h = refl
  lstrip_of_Head (c ∷ s) h = rw h

  rstrip-Head : (s : Text) → Head (λ c. p c ≡ false) s → Head (λ c. p c ≡ false) (rstrip p s)
  unfolding rstrip
  rstrip-Head [] h = tt
  rstrip-Head (c ∷ s) h = rw h h

  all-rstrip : (s : Text) → all p (rstrip p s) ≡ all p s
  unfolding rstrip
  all-rstrip [] = refl
  all-rstrip (c ∷ s) = ground (arith, all-rstrip s)

  rstrip-rstrip : (s : Text) → rstrip p (rstrip p s) ≡ rstrip p s
  unfolding rstrip
  rstrip-rstrip [] = refl
  rstrip-rstrip (c ∷ s) = ground (arith, rstrip-rstrip s, all-rstrip s)

  pub strip_chars_idem : (s : Text) → strip_chars p (strip_chars p s) ≡ strip_chars p s
  unfolding strip_chars
  strip_chars_idem s =
      rw (lstrip_of_Head _ (rstrip-Head (lstrip p s) (lstrip-Head s))) (rstrip-rstrip (lstrip p s))

  pub strip_chars-Head : (s : Text) → Head (λ c. p c ≡ false) (strip_chars p s)
  unfolding strip_chars
  strip_chars-Head s = rstrip-Head _ (lstrip-Head s)

-- Stripping twice is stripping once.
pub strip_idem : (s : Text) → strip (strip s) ≡ strip s
unfolding strip
strip_idem s = strip_chars_idem is_space s

cons_head-All :
    (P : ℕ → Type 0) (c : ℕ) (parts : List Text)
    → P c
    → All (All P) parts
    → All (All P) (cons_head c parts)
cons_head-All P c [] h _ = ((h, tt), tt)
cons_head-All P c (part ∷ parts) h (k, ks) = ((h, k), ks)

-- No part of a split text holds the separator, and each keeps what held of the text.
pub split_on-All :
    (P : ℕ → Type 0) (sep : ℕ) (s : Text)
    → All P s
    → All (All (λ c. P c × (c ≢ sep))) (split_on sep s)
unfolding split_on
split_on-All P sep [] _ = (tt, tt)
split_on-All P sep (c ∷ s) (h, hs) = elim (Bool-cases (c == sep)) [
  | inl e ↦ rw e (tt, split_on-All P sep s hs)
  | inr e ↦ rw e (
      cons_head-All (λ d. P d × (d ≢ sep)) c (split_on sep s) (h, ground arith)
        (split_on-All P sep s hs))
]

pub last_or-All :
    (P : Text → Type 0) (d : Text) (parts : List Text) → P d → All P parts → P (last_or d parts)
unfolding last_or
last_or-All P d [] h _ = h
last_or-All P d (part ∷ parts) _ (h, hs) = last_or-All P part parts h hs

pub replace_char-All : (a b : ℕ) (s : Text) → a ≢ b → All (λ c. c ≢ a) (replace_char a b s)
unfolding replace_char
replace_char-All a b [] h = tt
replace_char-All a b (c ∷ s) h = (ground arith, replace_char-All a b s h)

pub replace_char_keeps :
    (P : ℕ → Type 0) (a b : ℕ) (s : Text) → P b → All P s → All P (replace_char a b s)
unfolding replace_char
replace_char_keeps P a b [] h k = tt
replace_char_keeps P a b (c ∷ s) h (k, ks) = (choose (c == a), replace_char_keeps P a b s h ks)
  where
    choose : (t : Bool) → P (if t then b else c)
    choose true = h
    choose false = k

weaken :
    (P Q : ℕ → Type 0)
    → ((c : ℕ) → P c → Q c)
    → (parts : List Text) → All (All P) parts
    → All (All Q) parts
weaken P Q f [] h = tt
weaken P Q f (s ∷ parts) (h, hs) = (go s h, weaken P Q f parts hs)
  where
    go : (t : Text) → All P t → All Q t
    go [] k = tt
    go (c ∷ t) (k, ks) = (f c k, go t ks)

pub split_on_keeps : (P : ℕ → Type 0) (sep : ℕ) (s : Text) → All P s → All (All P) (split_on sep s)
split_on_keeps P sep s h =
    weaken (λ c. P c × (c ≢ sep)) P (λ c k. k.0) (split_on sep s) (split_on-All P sep s h)
