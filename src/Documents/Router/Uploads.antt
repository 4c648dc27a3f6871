-- ===== src/Documents/Router/Uploads.antt =====
-- Which uploads the guards of the route let through.
use document_agent_api.Common.{
  codes, text_eq, text_eq_iff, lower, any, ends_with, starts_with, some, ◌⊎◌, inl, inr,
  Option-cases, Bool-cases, Text, contains, strip, true, false, ◌≡◌, ◌≢◌, refl, ◌↔◌, none, List, [],
  ◌∷◌, arith,
}
use document_agent_api.Documents.Names.{is_empty}
use document_agent_api.Documents.Media.{
  supported_extensions, supported_content_types, or_octet_stream, determine_source_media_type,
  is_supported_file, is_parser_backend_supported_for_upload,
}
use document_agent_api.Documents.Router.{UploadFile, upload_error}

-- The file types that are accepted: one of nine extensions, or one of eleven content types, or an image.
abbrev pub IsSupportedType : (unicode : Text → Text) → UploadFile → Type 0
IsSupportedType unicode file =
    (any (λ extension. ends_with (lower unicode file.filename) extension)
        (codes ".docx"
          ∷ codes ".pdf"
          ∷ codes ".pptx"
          ∷ codes ".hwp"
          ∷ codes ".hwpx"
          ∷ codes ".png"
          ∷ codes ".jpg"
          ∷ codes ".jpeg"
          ∷ codes ".xlsx"
          ∷ [])
      ≡ true)
    ⊎ ((t : Text) × (file.content_type ≡ some t)
        × ((contains t (
                codes "application/vnd.openxmlformats-officedocument.presentationml.presentation"
                ∷ codes "application/vnd.openxmlformats-officedocument.spreadsheetml.sheet"
                ∷ codes "application/vnd.openxmlformats-officedocument.wordprocessingml.document"
                ∷ codes "application/pdf"
                ∷ codes "application/x-hwp"
                ∷ codes "application/haansoft-hwp"
                ∷ codes "application/vnd.hancom.hwp"
                ∷ codes "application/haansoft-hwpx"
                ∷ codes "application/vnd.hancom.hwpx"
                ∷ codes "image/png"
                ∷ codes "image/jpeg"
                ∷ [])
              ≡ true)
            ⊎ (starts_with t (codes "image/") ≡ true)))

-- `pdftotext` and `document_ai` take only what is determined to be a PDF.
abbrev pub IsParsable : (unicode : Text → Text) → UploadFile → (parser_backend : Text) → Type 0
IsParsable unicode file parser_backend =
    (parser_backend ≡ codes "pdftotext") ⊎ (parser_backend ≡ codes "document_ai")
    → determine_source_media_type unicode file.filename (or_octet_stream file.content_type)
      ≡ codes "application/pdf"

supported_iff :
    (unicode : Text → Text) (file : UploadFile)
    → (is_supported_file unicode file.filename file.content_type ≡ true)
      ↔ IsSupportedType unicode file
unfolding is_supported_file supported_extensions supported_content_types
supported_iff unicode file = elim (Option-cases file.content_type) [
  | inl n ↦ (
    λ h. inl (ground (arith, n, h)),
    λ h. elim h [ inl e ↦ ground (arith, n, e) | inr (t, s, _) ↦ absurd (ground (arith, n, s)) ],
  )
  | inr (t, s) ↦ (λ h. ground (arith, s, h), λ h. ground (arith, s, h))
]

pdf_needed_iff :
    (unicode : Text → Text) (file : UploadFile) (b : Text)
    → (is_parser_backend_supported_for_upload unicode file.filename file.content_type b ≡ true)
      ↔ IsParsable unicode file b
unfolding is_parser_backend_supported_for_upload contains
pdf_needed_iff unicode file b =
    let media_type =
      determine_source_media_type unicode file.filename (or_octet_stream file.content_type) in
    let m = text_eq_iff media_type (codes "application/pdf") in
    let p = text_eq_iff b (codes "pdftotext") in
    let d = text_eq_iff b (codes "document_ai") in
    (
      λ h k. ground (arith, h, k, m, p, d),
      λ h. elim (Bool-cases (text_eq b (codes "pdftotext"))) [
        | inl e ↦ ground (arith, e, h (inl (p.0 e)), m)
        | inr e ↦ elim (Bool-cases (text_eq b (codes "document_ai"))) [
          | inl f ↦ ground (arith, f, h (inr (d.0 f)), m)
          | inr f ↦ ground (arith, e, f)
        ]
      ],
    )

-- A name that is not blank, a body, a supported type, an enabled backend, and one that can parse it.
pub record IsAccepted (unicode : Text → Text) (enabled : List Text) (file : UploadFile)
    (parser_backend : Text) : Type 0 where
  pub named : strip file.filename ≢ []
  pub body : file.payload ≢ []
  pub supported : IsSupportedType unicode file
  pub enabled_backend : contains parser_backend enabled ≡ true
  pub parsable : IsParsable unicode file parser_backend

filled : (t : Text) → is_empty t ≡ false → t ≢ []
filled [] h = λ _. ground arith
filled (c ∷ t) h = λ e. ground arith

not_blank : (t : Text) → t ≢ [] → is_empty t ≡ false
not_blank [] h = absurd (h refl)
not_blank (c ∷ t) h = refl

-- The guards of the upload let a file through exactly when its name is not blank, it has a body, its
-- extension or content type is one of those listed or it is an image, the parser backend is enabled,
-- and the file is determined to be a PDF if the backend is `pdftotext` or `document_ai`.
pub upload_error_iff :
    (unicode : Text → Text) (enabled : List Text) (file : UploadFile) (parser_backend : Text)
    → (upload_error unicode enabled file parser_backend ≡ none)
      ↔ IsAccepted unicode enabled file parser_backend
unfolding upload_error
upload_error_iff unicode enabled file parser_backend = (
  λ h. record {
    named = filled (strip file.filename) (ground arith);
    body = filled file.payload (ground arith);
    supported = (supported_iff unicode file).0 (ground arith);
    enabled_backend = ground arith;
    parsable = (pdf_needed_iff unicode file parser_backend).0 (ground arith);
  },
  λ a. ground (
    arith,
    not_blank (strip file.filename) a.named,
    not_blank file.payload a.body,
    (supported_iff unicode file).1 a.supported,
    a.enabled_backend,
    (pdf_needed_iff unicode file parser_backend).1 a.parsable,
  ),
)
