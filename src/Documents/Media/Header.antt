-- ===== src/Documents/Media/Header.antt =====
-- The header and the media type of a source response.
use document_agent_api.Common.{
  ℕ, ◌≤◌, ◌<◌, ◌/◌, ◌%◌, Text, Bytes, codes, text_eq, text_eq_iff, contains, Bool, true, false, ◌≡◌,
  ◌≢◌, ◌⊎◌, inl, inr, [], ◌∷◌, map, All, All-append, Bool-cases, ltb, if◌then◌else◌, arith,
}
use document_agent_api.Common.Laws.{strip_chars-All}
use document_agent_api.Common.Utf8.{utf8_encode, encode_char, IsScalar, is_scalar}
use document_agent_api.Documents.Names.{sanitize_document_filename}
use document_agent_api.Documents.Names.Safe.{sanitize-IsScalar}
use document_agent_api.Documents.Media.{
  inline_safe_source_media_types, octet_stream, resolve_source_response_metadata, is_plain,
  ascii_fallback, hex_digit, is_unreserved, quote_bytes, build_content_disposition,
}

-- Printable ASCII.
abbrev pub IsPrintable : ℕ → Type 0
IsPrintable c = (32 ≤ c) × (c < 127)

-- Printable, and neither a quote nor a backslash: it cannot end a quoted text.
abbrev pub IsQuotable : ℕ → Type 0
IsQuotable c = (32 ≤ c) × (c < 127) × (c ≢ b'"') × (c ≢ b'\\')

plain-IsQuotable : (c : ℕ) → IsQuotable (if is_plain c then c else b'_')
unfolding is_plain
plain-IsQuotable c = (ground arith, ground arith, ground arith, ground arith)

replaced-IsQuotable : (s : Text) → All IsQuotable (map (λ c. if is_plain c then c else b'_') s)
replaced-IsQuotable [] = tt
replaced-IsQuotable (c ∷ s) = (plain-IsQuotable c, replaced-IsQuotable s)

choose-All :
    (P : ℕ → Type 0) (b : Bool) (s t : Text) → All P s → All P t → All P (if b then s else t)
choose-All P true s t h k = h
choose-All P false s t h k = k

-- Whatever the filename, the quoted name of the header is printable ASCII without a quote or a
-- backslash, so that it can neither end the quoted text nor start a new header line.
pub ascii_fallback-IsQuotable : (filename : Text) → All IsQuotable (ascii_fallback filename)
unfolding ascii_fallback
ascii_fallback-IsQuotable filename =
    choose-All IsQuotable _ (codes "download.bin") _ (omega arith)
      (strip_chars-All IsQuotable _ _ (replaced-IsQuotable filename))

abbrev IsByte : ℕ → Type 0
IsByte b = b < 256

hex_digit-IsPrintable : (n : ℕ) → n < 16 → IsPrintable (hex_digit n)
unfolding hex_digit
hex_digit-IsPrintable n h = ground arith

quote_bytes-IsPrintable : (s : Bytes) → All IsByte s → All IsPrintable (quote_bytes s)
unfolding quote_bytes
quote_bytes-IsPrintable [] h = tt
quote_bytes-IsPrintable (b ∷ s) (h, hs) = elim (Bool-cases (is_unreserved b)) [
  | inl e ↦ rw e (unreserved-IsPrintable b e, quote_bytes-IsPrintable s hs)
  | inr e ↦ rw e (
    omega arith,
    (
      hex_digit-IsPrintable (b / 16) (omega arith),
      (hex_digit-IsPrintable (b % 16) (omega arith), quote_bytes-IsPrintable s hs),
    ),
  )
]
  where
    unreserved-IsPrintable : (c : ℕ) → is_unreserved c ≡ true → IsPrintable c
    unreserved-IsPrintable c e = ground arith

encode_char-IsByte : (c : ℕ) → IsScalar c → All IsByte (encode_char c)
unfolding encode_char is_scalar
encode_char-IsByte c h = elim (Bool-cases (ltb c 0x80)) [
  | inl e ↦ rw e (ground arith)
  | inr e ↦ elim (Bool-cases (ltb c 0x800)) [
    | inl f ↦ rw (e, f) (ground arith, (ground arith, tt))
    | inr f ↦ elim (Bool-cases (ltb c 0x10000)) [
      | inl g ↦ rw (e, f, g) (ground arith, (ground arith, (ground arith, tt)))
      | inr g ↦ rw (e, f, g) (ground arith, (ground arith, (ground arith, (ground arith, tt))))
    ]
  ]
]

utf8_encode-IsByte : (s : Text) → All IsScalar s → All IsByte (utf8_encode s)
unfolding utf8_encode
utf8_encode-IsByte [] h = tt
utf8_encode-IsByte (c ∷ s) (h, hs) =
    All-append IsByte (encode_char c) (utf8_encode s) (encode_char-IsByte c h)
      (utf8_encode-IsByte s hs)

fallback-IsPrintable : (s : Text) → All IsQuotable s → All IsPrintable s
fallback-IsPrintable [] h = tt
fallback-IsPrintable (c ∷ s) (h, hs) = ((h.0, h.1), fallback-IsPrintable s hs)

-- The whole header is printable ASCII if the disposition is and the filename has no surrogates: no
-- filename can put a line break into the headers of the response.
pub build_content_disposition-IsPrintable :
    (disposition filename : Text)
    → All IsPrintable disposition
    → All IsScalar filename
    → All IsPrintable (build_content_disposition disposition filename)
unfolding build_content_disposition
build_content_disposition-IsPrintable disposition filename h k =
    All-append IsPrintable disposition _ h (
      All-append IsPrintable (codes "; filename=\"") _ (omega arith) (
        All-append IsPrintable (ascii_fallback (sanitize_document_filename filename)) _
          (fallback-IsPrintable _ (ascii_fallback-IsQuotable (sanitize_document_filename filename)))
          (All-append IsPrintable (codes "\"; filename*=UTF-8''") _ (omega arith)
            (quote_bytes-IsPrintable _ (utf8_encode-IsByte _ (sanitize-IsScalar filename k))))))

inline_type :
    (t : Text)
    → contains t inline_safe_source_media_types ≡ true
    → (t ≡ codes "application/pdf") ⊎ ((t ≡ codes "image/jpeg") ⊎ (t ≡ codes "image/png"))
unfolding contains
inline_type t h = elim (Bool-cases (text_eq t (codes "application/pdf"))) [
  | inl e ↦ inl ((text_eq_iff t (codes "application/pdf")).0 e)
  | inr e ↦ elim (Bool-cases (text_eq t (codes "image/jpeg"))) [
    | inl f ↦ inr (inl ((text_eq_iff t (codes "image/jpeg")).0 f))
    | inr f ↦ inr (inr ((text_eq_iff t (codes "image/png")).0 (ground arith)))
  ]
]

-- A source is only ever shown inline as `application/pdf`, `image/jpeg` or `image/png`, so never as
-- HTML or SVG, whatever its name and its declared type. A request is answered with the disposition
-- that it asks for, or with an attachment of unknown type.
pub inline_is_safe :
    (unicode : Text → Text) (filename content_type requested : Text)
    → let (disposition, media_type) =
        resolve_source_response_metadata unicode filename content_type requested in
      (disposition ≡ codes "inline"
        → (media_type ≡ codes "application/pdf")
          ⊎ ((media_type ≡ codes "image/jpeg") ⊎ (media_type ≡ codes "image/png")))
      × ((disposition ≡ requested)
          ⊎ ((disposition ≡ codes "attachment") × (media_type ≡ octet_stream)))
unfolding resolve_source_response_metadata
inline_is_safe unicode filename content_type requested =
    let media_type = (resolve_source_response_metadata unicode filename content_type requested).1 in
    (
      λ d. elim (Bool-cases (contains media_type inline_safe_source_media_types)) [
        | inl e ↦ inline_type media_type e
        | inr e ↦ absurd (ground (arith, text_eq_iff requested (codes "inline")))
      ],
      ground arith,
    )
