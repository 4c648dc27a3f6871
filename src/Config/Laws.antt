-- ===== src/Config/Laws.antt =====
-- The settings' validators, and settings that are consistent.
use document_agent_api.Common.{
  keep, not, subst, sym, Text, codes, text_eq, text_eq_iff, text_eq_refl, contains, Bool, true,
  false, ◌&&◌, ◌||◌, ◌≡◌, ◌≢◌, refl, ◌∙◌, Option, none, some, List, [], ◌∷◌, ◌++◌, ok, length, All,
  Bool-cases, inl, inr, ◌==◌, if◌then◌else◌, arith, ◌⊎◌, ◌↔◌,
}
use document_agent_api.Documents.Names.{is_empty}
use document_agent_api.ParserBackends.{parser_backend_values}
use document_agent_api.Config.{
  is_missing, collect_new, Settings, missing_r2, unknown_backends, resolve_script,
  validate_storage_requirements,
}

-- No text twice.
abbrev pub IsDistinct : List Text → Type 0
IsDistinct [] = Unit
IsDistinct (t ∷ ts) = (contains t ts ≡ false) × IsDistinct ts

contains-append :
    (t : Text) (ts us : List Text) → contains t (ts ++ us) ≡ (contains t ts || contains t us)
unfolding contains
contains-append t [] us = refl
contains-append t (x ∷ ts) us = ground (arith, contains-append t ts us)

IsDistinct-concat :
    (ts : List Text) (t : Text) → IsDistinct ts → contains t ts ≡ false → IsDistinct (ts ++ t ∷ [])
IsDistinct-concat [] t h k = (unfold contains in refl, tt)
IsDistinct-concat (x ∷ ts) t (h, hs) k = (
  unfold contains in
      ground (arith, contains-append x ts (t ∷ []), text_eq_iff t x, text_eq_iff x t),
  IsDistinct-concat ts t hs (unfold contains in ground arith),
)

All-concat :
    (ts : List Text) (t : Text)
    → All (λ u. is_empty u ≡ false) ts
    → is_empty t ≡ false
    → All (λ u. is_empty u ≡ false) (ts ++ t ∷ [])
All-concat [] t h k = (k, tt)
All-concat (x ∷ ts) t (h, hs) k = (h, All-concat ts t hs k)

-- What the loop of the normalizers keeps of the list that it grows.
abbrev pub IsNormal : List Text → Type 0
IsNormal ts = IsDistinct ts × All (λ t. is_empty t ≡ false) ts

module _ (f : Text → Text) where
  -- The list after one candidate.
  abbrev grown : List Text → Text → List Text
  grown ts c = if is_empty (f c) || contains (f c) ts then ts else ts ++ f c ∷ []

  grow-IsNormal :
      (b d : Bool) (ts : List Text) (t : Text)
      → (is_empty t ≡ b)
      → (contains t ts ≡ d)
      → IsNormal ts
      → IsNormal (if b || d then ts else ts ++ t ∷ [])
  grow-IsNormal true d ts t e k h = h
  grow-IsNormal false true ts t e k h = h
  grow-IsNormal false false ts t e k (h, hs) = (IsDistinct-concat ts t h k, All-concat ts t hs e)

  collect_new-IsNormal :
      (ts candidates : List Text) → IsNormal ts → IsNormal (collect_new f ts candidates)
  unfolding collect_new
  collect_new-IsNormal ts [] h = h
  collect_new-IsNormal ts (c ∷ rest) h =
      collect_new-IsNormal (grown ts c) rest (grow-IsNormal _ _ ts (f c) refl refl h)

  collect_new-keeps :
      (ts candidates : List Text) (t : Text)
      → contains t ts ≡ true
      → contains t (collect_new f ts candidates) ≡ true
  unfolding collect_new
  collect_new-keeps ts [] t h = h
  collect_new-keeps ts (c ∷ rest) t h =
      collect_new-keeps (grown ts c) rest t (ground (arith, contains-append t ts (f c ∷ [])))

  grown-contains :
      (ts : List Text) (c : Text) → is_empty (f c) ≡ false → contains (f c) (grown ts c) ≡ true
  grown-contains ts c h = elim (Bool-cases (contains (f c) ts)) [
    | inl e ↦ rw (h, e) e
    | inr e ↦
        rw (h, e)
          (contains-append (f c) ts (f c ∷ [])
            ∙ unfold contains in ground (arith, text_eq_refl (f c)))
  ]

  collect_new_complete :
      (ts candidates : List Text)
      → All
          (λ c. (is_empty (f c) ≡ true) ⊎ (contains (f c) (collect_new f ts candidates) ≡ true))
          candidates
  unfolding collect_new
  collect_new_complete ts [] = tt
  collect_new_complete ts (c ∷ rest) = (
    (elim (Bool-cases (is_empty (f c))) [
      | inl e ↦ inl e
      | inr e ↦ inr (collect_new-keeps (grown ts c) rest (f c) (grown-contains ts c e))
    ]),
    collect_new_complete (grown ts c) rest,
  )

  -- What the settings' lists are normalized to has no empty text and no text twice, and holds what
  -- the normalizer makes of each candidate, unless that is empty.
  pub collect_new_lem :
      (candidates : List Text)
      → let result = collect_new f [] candidates in
        IsDistinct result
        × All (λ t. is_empty t ≡ false) result
        × All (λ c. (is_empty (f c) ≡ true) ⊎ (contains (f c) result ≡ true)) candidates
  collect_new_lem candidates =
      let normal = collect_new-IsNormal [] candidates (tt, tt) in
      (normal.0, normal.1, collect_new_complete [] candidates)

-- A setting that is given and not empty.
abbrev pub IsGiven : Option Text → Type 0
IsGiven none = ⊥
IsGiven (some t) = t ≢ []

-- The parser backends that there are.
abbrev pub IsKnownBackend : Text → Type 0
IsKnownBackend b = (b ≡ codes "markitdown") ⊎ ((b ≡ codes "pdftotext") ⊎ (b ≡ codes "document_ai"))

which_backend : (b : Text) → contains b parser_backend_values ≡ true → IsKnownBackend b
unfolding contains
which_backend b h = elim (Bool-cases (text_eq b (codes "markitdown"))) [
  | inl e ↦ inl ((text_eq_iff b (codes "markitdown")).0 e)
  | inr e ↦ elim (Bool-cases (text_eq b (codes "pdftotext"))) [
    | inl f ↦ inr (inl ((text_eq_iff b (codes "pdftotext")).0 f))
    | inr f ↦ inr (inr ((text_eq_iff b (codes "document_ai")).0 (ground arith)))
  ]
]

known-contains : (b : Text) → IsKnownBackend b → contains b parser_backend_values ≡ true
unfolding contains text_eq
known-contains b (inl e) = subst (λ t. contains t parser_backend_values ≡ true) (sym e) refl
known-contains b (inr (inl e)) = subst (λ t. contains t parser_backend_values ≡ true) (sym e) refl
known-contains b (inr (inr e)) = subst (λ t. contains t parser_backend_values ≡ true) (sym e) refl

backends_known :
    (bs : List Text)
    → keep (λ b. not (contains b parser_backend_values)) bs ≡ []
    → All IsKnownBackend bs
backends_known [] h = tt
backends_known (b ∷ bs) h = elim (Bool-cases (contains b parser_backend_values)) [
  | inl k ↦ (which_backend b k, backends_known bs (ground arith))
  | inr k ↦ absurd (ground arith)
]

none_unknown :
    (bs : List Text)
    → All IsKnownBackend bs
    → keep (λ b. not (contains b parser_backend_values)) bs ≡ []
none_unknown [] h = refl
none_unknown (b ∷ bs) (h, hs) = ground (arith, known-contains b h, none_unknown bs hs)

-- What the last validator asks for, read off the settings.
pub record IsConsistent (s : Settings) : Type 0 where
  pub r2 :
      s.storage_backend ≡ codes "r2"
      → IsGiven s.storage_bucket
        × IsGiven s.storage_r2_endpoint
        × IsGiven s.storage_r2_access_key_id
        × IsGiven s.storage_r2_secret_access_key
  pub redis : s.queue_backend ≡ codes "redis" → s.redis_url ≢ []
  pub backends : All IsKnownBackend s.enabled_parser_backends

IsGiven-of : (o : Option Text) → is_missing o ≡ false → IsGiven o
IsGiven-of none h = cc
IsGiven-of (some []) h = cc
IsGiven-of (some (c ∷ t)) h = cc

not-is_missing : (o : Option Text) → IsGiven o → is_missing o ≡ false
not-is_missing none h = absurd h
not-is_missing (some []) h = absurd (h refl)
not-is_missing (some (c ∷ t)) h = refl

no-missing :
    (s : Settings)
    → (length (missing_r2 s) == 0) ≡ true
    → IsGiven s.storage_bucket
      × IsGiven s.storage_r2_endpoint
      × IsGiven s.storage_r2_access_key_id
      × IsGiven s.storage_r2_secret_access_key
unfolding missing_r2
no-missing s h = (
  IsGiven-of s.storage_bucket (ground arith),
  IsGiven-of s.storage_r2_endpoint (ground arith),
  IsGiven-of s.storage_r2_access_key_id (ground arith),
  IsGiven-of s.storage_r2_secret_access_key (ground arith),
)

missing_none :
    (s : Settings)
    → IsGiven s.storage_bucket
    → IsGiven s.storage_r2_endpoint
    → IsGiven s.storage_r2_access_key_id
    → IsGiven s.storage_r2_secret_access_key
    → (length (missing_r2 s) == 0) ≡ true
unfolding missing_r2
missing_none s a b c d =
    rw (not-is_missing _ a, not-is_missing _ b, not-is_missing _ c, not-is_missing _ d)

none-left : (l : List Text) → (length l == 0) ≡ true → l ≡ []
none-left [] h = refl
none-left (x ∷ l) h = ground arith

pub nonempty_of : (t : Text) → is_empty t ≡ false → t ≢ []
nonempty_of [] h = cc
nonempty_of (c ∷ t) h = cc

is_empty_of_ne : (t : Text) → t ≢ [] → is_empty t ≡ false
is_empty_of_ne [] h = absurd (h refl)
is_empty_of_ne (c ∷ t) h = refl

pub sound :
    (resolve : Text → Text) (s t : Settings)
    → validate_storage_requirements resolve s ≡ ok t
    → IsConsistent s
unfolding validate_storage_requirements unknown_backends
sound resolve s t h = record {
  r2 = λ e. no-missing s (ground (arith, text_eq_iff s.storage_backend (codes "r2")));
  redis = λ e. nonempty_of _ (ground (arith, text_eq_iff s.queue_backend (codes "redis")));
  backends = backends_known s.enabled_parser_backends (none-left _ (ground arith));
}

redis_guard :
    (s : Settings)
    → IsConsistent s
    → (text_eq s.queue_backend (codes "redis") && is_empty s.redis_url) ≡ false
redis_guard s h = elim (Bool-cases (text_eq s.queue_backend (codes "redis"))) [
  | inl e ↦ rw (e, is_empty_of_ne _ (h.redis ((text_eq_iff _ _).0 e)))
  | inr e ↦ rw e
]

pub complete :
    (resolve : Text → Text) (s : Settings)
    → IsConsistent s
    → validate_storage_requirements resolve s ≡ ok (resolve_script resolve s)
unfolding validate_storage_requirements unknown_backends
complete resolve s h = elim (Bool-cases (text_eq s.storage_backend (codes "r2"))) [
  | inl e ↦
      let given = h.r2 ((text_eq_iff _ _).0 e) in
      rw (
        e,
        missing_none s given.0 given.1 given.2 given.3,
        redis_guard s h,
        none_unknown s.enabled_parser_backends h.backends,
      )
  | inr e ↦ rw (e, redis_guard s h, none_unknown s.enabled_parser_backends h.backends)
]

-- The last validator lets settings through exactly when they are consistent: R2 has its four settings,
-- a Redis queue has its URL, and every enabled parser backend is one of `markitdown`, `pdftotext` and
-- `document_ai`. It changes nothing but the path of the script, which it makes absolute.
pub validate_storage_requirements_iff :
    (resolve : Text → Text) (s : Settings)
    → (validate_storage_requirements resolve s ≡ ok (resolve_script resolve s)) ↔ IsConsistent s
validate_storage_requirements_iff resolve s =
    (sound resolve s (resolve_script resolve s), complete resolve s)
