-- ===== src/Queueing/Resp/Decimal.antt =====
-- Printing and reading decimal numbers, and lines.
use document_agent_api.Common.{
  ℕ, zero, suc, ◌+◌, ◌-◌, ◌*◌, ◌/◌, ◌%◌, ◌≤◌, ◌<◌, Bytes, ◌≡◌, ◌≢◌, refl, ◌∙◌, ap, some, [], ◌∷◌,
  ◌++◌, length, All, All-append, arith, Bool-cases, inl, inr, ltb,
}
use document_agent_api.Queueing.Resp.{
  crlf, decimal_from, decimal, digits_from, digits_of, int_of, plus, read_line, read, without_crlf,
}

abbrev pub Digits : Bytes → Type 0
Digits = All (λ c. (48 ≤ c) × (c ≤ 57))

decimal_from-Digits : (fuel n : ℕ) → Digits (decimal_from fuel n)
unfolding decimal_from
decimal_from-Digits zero n = tt
decimal_from-Digits (suc fuel) n = elim (Bool-cases (ltb n 10)) [
  | inl e ↦ rw e ((omega arith, ground arith), tt)
  | inr e ↦ rw e (
      All-append _ (decimal_from fuel (n / 10)) _ (decimal_from-Digits fuel (n / 10))
        ((omega arith, omega arith), tt))
]

digits_from-append :
    (acc : ℕ) (s : Bytes) (c a : ℕ)
    → digits_from acc s ≡ some a
    → 48 ≤ c
    → c ≤ 57
    → digits_from acc (s ++ c ∷ []) ≡ some (a * 10 + (c - 48))
unfolding digits_from
digits_from-append acc [] c a e h k = ground arith
digits_from-append acc (d ∷ s) c a e h k =
    ground (arith, digits_from-append (acc * 10 + (d - 48)) s c a)

digits-decimal_from : (fuel n : ℕ) → n < fuel → digits_from 0 (decimal_from fuel n) ≡ some n
unfolding decimal_from
digits-decimal_from zero n h = absurd (omega arith)
digits-decimal_from (suc fuel) n h = elim (Bool-cases (ltb n 10)) [
  | inl e ↦ rw e (unfold digits_from in ground arith)
  | inr e ↦ rw e (
      digits_from-append 0 (decimal_from fuel (n / 10)) (48 + n % 10) (n / 10)
        (digits-decimal_from fuel (n / 10) (ground arith)) (omega arith) (omega arith)
      ∙ ap some (omega arith))
]

concat-ne-nil : (s : Bytes) (c : ℕ) → s ++ c ∷ [] ≢ []
concat-ne-nil [] c h = cc
concat-ne-nil (d ∷ s) c h = cc

decimal-ne-nil : (n : ℕ) → decimal n ≢ []
unfolding decimal decimal_from
decimal-ne-nil n = elim (Bool-cases (ltb n 10)) [
  | inl e ↦ rw e (λ h. cc)
  | inr e ↦ rw e (concat-ne-nil _ _)
]

digits_of-cons : (s : Bytes) → s ≢ [] → digits_of s ≡ digits_from 0 s
unfolding digits_of
digits_of-cons [] h = absurd (h refl)
digits_of-cons (c ∷ s) h = refl

int_of-Digits : (s : Bytes) (n : ℕ) → Digits s → digits_of s ≡ some n → int_of s ≡ some (plus n)
unfolding int_of
int_of-Digits [] n h e = absurd (unfold digits_of in cc)
int_of-Digits (c ∷ s) n (h, _) e = ground arith

pub decimal-Digits : (n : ℕ) → Digits (decimal n)
unfolding decimal
decimal-Digits n = decimal_from-Digits (suc n) n

-- Reading the digits of a number gives the number.
pub int_of-decimal : (n : ℕ) → int_of (decimal n) ≡ some (plus n)
int_of-decimal n = int_of-Digits (decimal n) n (decimal-Digits n) (
    digits_of-cons _ (decimal-ne-nil n)
    ∙ (unfold decimal in digits-decimal_from (suc n) n (omega arith)))

pub read_line-Digits :
    (s rest : Bytes) → Digits s → read_line (s ++ (crlf ++ rest)) ≡ (s ++ crlf, rest)
unfolding read_line
read_line-Digits [] rest h = refl
read_line-Digits (c ∷ s) rest (h, hs) = ground (arith, read_line-Digits s rest hs)

pub without_crlf_lem : (s : Bytes) → without_crlf (s ++ crlf) ≡ s
unfolding without_crlf
without_crlf_lem [] = refl
without_crlf_lem (c ∷ []) = refl
without_crlf_lem (c ∷ d ∷ []) = refl
without_crlf_lem (c ∷ d ∷ e ∷ s) = ap (λ t. c ∷ t) (without_crlf_lem (d ∷ e ∷ s))

pub read_lem : (s rest : Bytes) → read (length s) (s ++ rest) ≡ (s, rest)
unfolding read
read_lem [] [] = refl
read_lem [] (c ∷ rest) = refl
read_lem (c ∷ s) rest = ground (arith, read_lem s rest)
