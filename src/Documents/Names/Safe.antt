-- ===== src/Documents/Names/Safe.antt =====
-- `sanitize_document_filename`, and names that are safe in a key.
use document_agent_api.Common.{
  ℕ, Text, codes, text_eq_iff, contains, strip, split_on, replace_char, last_or, false, ◌≡◌, ◌≢◌,
  refl, [], ◌∷◌, All, arith, ◌⊎◌, inl, inr,
}
use document_agent_api.Common.Utf8.{IsScalar, is_scalar}
use document_agent_api.Common.Laws.{
  strip-All, split_on_keeps, replace_char_keeps, last_or-All, split_on-All, replace_char-All,
  strip_idem,
}
use document_agent_api.Documents.Names.{sanitize_document_filename, default_filename, is_empty}

-- No separator of a path, on POSIX or on Windows.
abbrev pub NoSlash : Text → Type 0
NoSlash = All (λ c. (c ≢ b'\\') × (c ≢ b'/'))

-- A name that stays in its directory when it is joined to one.
pub record IsSafeLeaf (leaf : Text) : Type 0 where
  pub no_slash : NoSlash leaf
  pub nonempty : leaf ≢ []
  pub not_here : leaf ≢ codes "."
  pub not_parent : leaf ≢ codes ".."
  pub stripped : strip leaf ≡ leaf

leaf_of : Text → Text
leaf_of filename = strip (last_or [] (split_on b'/' (replace_char b'\\' b'/' (strip filename))))

leaf_of-NoSlash : (filename : Text) → NoSlash (leaf_of filename)
unfolding leaf_of
leaf_of-NoSlash filename = strip-All _ _ (
    last_or-All NoSlash [] _ tt (
      split_on-All (λ c. c ≢ b'\\') b'/' _
        (replace_char-All b'\\' b'/' (strip filename) (omega arith))))

default-IsSafeLeaf : IsSafeLeaf default_filename
unfolding strip
default-IsSafeLeaf = record {
  no_slash = omega arith;
  nonempty = cc;
  not_here = cc;
  not_parent = cc;
  stripped = refl;
}

leaf_of-stripped : (filename : Text) → strip (leaf_of filename) ≡ leaf_of filename
unfolding leaf_of
leaf_of-stripped filename = strip_idem _

-- The leaf of a plain name is itself.
split_on_plain : (s : Text) → All (λ c. c ≢ b'/') s → last_or [] (split_on b'/' s) ≡ s
unfolding split_on last_or
split_on_plain s h = rw (split_on_single s h)
  where
    split_on_single : (s : Text) → All (λ c. c ≢ b'/') s → split_on b'/' s ≡ s ∷ []
    split_on_single [] h = refl
    split_on_single (c ∷ s) (h, hs) = rw (split_on_single s hs) (ground arith)

replace_char_plain : (s : Text) → NoSlash s → replace_char b'\\' b'/' s ≡ s
unfolding replace_char
replace_char_plain [] h = refl
replace_char_plain (c ∷ s) ((h, _), hs) = ground (arith, replace_char_plain s hs)

NoSlash-right : (s : Text) → NoSlash s → All (λ c. c ≢ b'/') s
NoSlash-right [] h = tt
NoSlash-right (c ∷ s) ((_, h), hs) = (h, NoSlash-right s hs)

-- The guards of `sanitize_document_filename`, read off its result.
sanitize_cases :
    (f : Text)
    → (sanitize_document_filename f ≡ default_filename)
      ⊎ ((sanitize_document_filename f ≡ leaf_of f)
          × (is_empty (leaf_of f) ≡ false)
          × (contains (leaf_of f) (codes "." ∷ codes ".." ∷ []) ≡ false))
unfolding sanitize_document_filename leaf_of
sanitize_cases f = ground arith

not-empty : (s : Text) → is_empty s ≡ false → s ≢ []
not-empty [] h = cc
not-empty (c ∷ s) h = cc

not-dots :
    (s : Text)
    → contains s (codes "." ∷ codes ".." ∷ []) ≡ false
    → (s ≢ codes ".") × (s ≢ codes "..")
unfolding contains
not-dots s h =
    (ground (arith, text_eq_iff s (codes ".")), ground (arith, text_eq_iff s (codes "..")))

-- Whatever name a client uploads, the sanitized name holds no slash and no backslash, is neither
-- empty nor "." nor "..", and has no white space at its ends.
pub sanitize-IsSafeLeaf : (filename : Text) → IsSafeLeaf (sanitize_document_filename filename)
sanitize-IsSafeLeaf filename = elim (sanitize_cases filename) [
  | inl e ↦ rw e default-IsSafeLeaf
  | inr (e, nonempty, plain) ↦ rw e (record {
    no_slash = leaf_of-NoSlash filename;
    nonempty = not-empty _ nonempty;
    not_here = (not-dots _ plain).0;
    not_parent = (not-dots _ plain).1;
    stripped = leaf_of-stripped filename;
  })
]

leaf_of_safe : (leaf : Text) → IsSafeLeaf leaf → leaf_of leaf ≡ leaf
unfolding leaf_of
leaf_of_safe leaf h =
    rw
      (
        h.stripped,
        replace_char_plain leaf h.no_slash,
        split_on_plain leaf (NoSlash-right leaf h.no_slash),
      )
      h.stripped

is_empty_of_ne : (s : Text) → s ≢ [] → is_empty s ≡ false
is_empty_of_ne [] h = absurd (h refl)
is_empty_of_ne (c ∷ s) h = refl

no-dots :
    (s : Text) → s ≢ codes "." → s ≢ codes ".." → contains s (codes "." ∷ codes ".." ∷ []) ≡ false
unfolding contains
no-dots s h k = ground (arith, text_eq_iff s (codes "."), text_eq_iff s (codes ".."))

sanitize_of_safe : (leaf : Text) → IsSafeLeaf leaf → sanitize_document_filename leaf ≡ leaf
unfolding sanitize_document_filename
sanitize_of_safe leaf h = rw (
  h.stripped,
  replace_char_plain leaf h.no_slash,
  split_on_plain leaf (NoSlash-right leaf h.no_slash),
  h.stripped,
  is_empty_of_ne leaf h.nonempty,
  no-dots leaf h.not_here h.not_parent,
)

-- Sanitizing a name a second time changes nothing.
pub sanitize_idem :
    (filename : Text)
    → sanitize_document_filename (sanitize_document_filename filename)
      ≡ sanitize_document_filename filename
sanitize_idem filename = sanitize_of_safe _ (sanitize-IsSafeLeaf filename)

leaf_of-All : (P : ℕ → Type 0) (f : Text) → P b'/' → All P f → All P (leaf_of f)
unfolding leaf_of
leaf_of-All P f h k = strip-All P _ (
    last_or-All (All P) [] _ tt
      (split_on_keeps P b'/' _ (replace_char_keeps P b'\\' b'/' (strip f) h (strip-All P f k))))

-- A name without surrogates has none after it is sanitized.
pub sanitize-IsScalar : (f : Text) → All IsScalar f → All IsScalar (sanitize_document_filename f)
sanitize-IsScalar f h = elim (sanitize_cases f) [
  | inl e ↦ rw e (unfold is_scalar in ground arith)
  | inr (e, _, _) ↦ rw e (leaf_of-All IsScalar f (unfold is_scalar in refl) h)
]
