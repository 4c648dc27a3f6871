-- ===== src/Documents/Media.antt =====
-- The media types of documents/router.py, and the header of a source response.
pub mod Header
use document_agent_api.Common.{
  ℕ, ◌+◌, ◌-◌, ◌/◌, ◌%◌, Text, Bytes, codes, text_eq, contains, any, starts_with, ends_with, strip,
  strip_chars, lower, Bool, true, false, not, ◌&&◌, ◌||◌, Option, none, some, List, [], ◌∷◌, ◌++◌,
  map, ltb, leb, ◌==◌, if◌then◌else◌,
}
use document_agent_api.Common.Utf8.{utf8_encode}
use document_agent_api.Documents.Names.{is_empty, sanitize_document_filename}

abbrev docx : Text
docx = codes "application/vnd.openxmlformats-officedocument.wordprocessingml.document"

abbrev pptx : Text
pptx = codes "application/vnd.openxmlformats-officedocument.presentationml.presentation"

abbrev xlsx : Text
xlsx = codes "application/vnd.openxmlformats-officedocument.spreadsheetml.sheet"

abbrev pub octet_stream : Text
octet_stream = codes "application/octet-stream"

abbrev pub pdf : Text
pdf = codes "application/pdf"

-- `INLINE_SAFE_SOURCE_MEDIA_TYPES`
abbrev pub inline_safe_source_media_types : List Text
inline_safe_source_media_types = pdf ∷ codes "image/jpeg" ∷ codes "image/png" ∷ []

-- `SOURCE_MEDIA_TYPES_BY_EXTENSION`
unfoldable pub source_media_types_by_extension : List (Text × Text)
source_media_types_by_extension =
    (codes ".docx", docx)
    ∷ (codes ".hwp", codes "application/vnd.hancom.hwp")
    ∷ (codes ".hwpx", codes "application/vnd.hancom.hwpx")
    ∷ (codes ".jpeg", codes "image/jpeg")
    ∷ (codes ".jpg", codes "image/jpeg")
    ∷ (codes ".pdf", pdf)
    ∷ (codes ".pptx", pptx)
    ∷ (codes ".png", codes "image/png")
    ∷ (codes ".xlsx", xlsx)
    ∷ []

-- `SOURCE_MEDIA_TYPES_BY_CONTENT_TYPE`
unfoldable pub source_media_types_by_content_type : List (Text × Text)
source_media_types_by_content_type =
    (pptx, pptx)
    ∷ (xlsx, xlsx)
    ∷ (docx, docx)
    ∷ (codes "application/haansoft-hwp", codes "application/vnd.hancom.hwp")
    ∷ (codes "application/haansoft-hwpx", codes "application/vnd.hancom.hwpx")
    ∷ (pdf, pdf)
    ∷ (codes "application/vnd.hancom.hwp", codes "application/vnd.hancom.hwp")
    ∷ (codes "application/vnd.hancom.hwpx", codes "application/vnd.hancom.hwpx")
    ∷ (codes "application/x-hwp", codes "application/vnd.hancom.hwp")
    ∷ (codes "image/jpeg", codes "image/jpeg")
    ∷ (codes "image/png", codes "image/png")
    ∷ []

-- The first media type whose extension ends the name.
unfoldable pub by_extension : Text → List (Text × Text) → Option Text
by_extension name [] = none
by_extension name ((extension, media_type) ∷ table) =
    if ends_with name extension then some media_type else by_extension name table

-- `table.get(key, default)`
unfoldable pub get_or : Text → List (Text × Text) → Text → Text
get_or key [] default = default
get_or key ((k, v) ∷ table) default = if text_eq k key then v else get_or key table default

-- `_determine_source_media_type`
unfoldable pub determine_source_media_type : (Text → Text) → (filename content_type : Text) → Text
unfolding by_extension get_or
determine_source_media_type unicode filename content_type =
    elim (by_extension (lower unicode (strip filename)) source_media_types_by_extension) [
      | some media_type ↦ media_type
      | none ↦
          get_or (lower unicode (strip content_type)) source_media_types_by_content_type
            octet_stream
    ]

-- `_resolve_source_response_metadata`: the disposition and the media type.
unfoldable pub resolve_source_response_metadata :
    (Text → Text) → (filename content_type requested_disposition : Text) → Text × Text
resolve_source_response_metadata unicode filename content_type requested_disposition =
    let media_type = determine_source_media_type unicode filename content_type in
    if text_eq requested_disposition (codes "inline")
      && not (contains media_type inline_safe_source_media_types)
    then (codes "attachment", octet_stream)
    else (requested_disposition, media_type)

unfoldable pub supported_extensions : List Text
supported_extensions =
    codes ".docx"
    ∷ codes ".pdf"
    ∷ codes ".pptx"
    ∷ codes ".hwp"
    ∷ codes ".hwpx"
    ∷ codes ".png"
    ∷ codes ".jpg"
    ∷ codes ".jpeg"
    ∷ codes ".xlsx"
    ∷ []

unfoldable pub supported_content_types : List Text
supported_content_types =
    pptx
    ∷ xlsx
    ∷ docx
    ∷ pdf
    ∷ codes "application/x-hwp"
    ∷ codes "application/haansoft-hwp"
    ∷ codes "application/vnd.hancom.hwp"
    ∷ codes "application/haansoft-hwpx"
    ∷ codes "application/vnd.hancom.hwpx"
    ∷ codes "image/png"
    ∷ codes "image/jpeg"
    ∷ []

-- `_is_supported_file`
unfoldable pub is_supported_file :
    (Text → Text) → (filename : Text) (content_type : Option Text) → Bool
is_supported_file unicode filename content_type =
    any (λ extension. ends_with (lower unicode filename) extension) supported_extensions
    || (elim content_type [
      | none ↦ false
      | some t ↦ contains t supported_content_types || starts_with t (codes "image/")
    ])

-- `content_type or "application/octet-stream"`
abbrev pub or_octet_stream : Option Text → Text
or_octet_stream none = octet_stream
or_octet_stream (some t) = if is_empty t then octet_stream else t

-- `_is_parser_backend_supported_for_upload`
unfoldable pub is_parser_backend_supported_for_upload :
    (Text → Text) → (filename : Text) (content_type : Option Text) (parser_backend : Text) → Bool
is_parser_backend_supported_for_upload unicode filename content_type parser_backend =
    if not (contains parser_backend (codes "pdftotext" ∷ codes "document_ai" ∷ []))
    then true
    else text_eq (determine_source_media_type unicode filename (or_octet_stream content_type)) pdf

-- A character that stands for itself in the ASCII name of the header.
unfoldable pub is_plain : ℕ → Bool
is_plain c = ltb c 128 && not (c == b'"' || c == b'\\') && leb 32 c && ltb c 127

-- The ASCII name of the header.
unfoldable pub ascii_fallback : Text → Text
unfolding is_plain
ascii_fallback safe_filename =
    let fallback =
      strip_chars (λ c. c == b' ' || c == b'.')
        (map (λ c. if is_plain c then c else b'_') safe_filename) in
    if is_empty fallback then codes "download.bin" else fallback

unfoldable pub hex_digit : ℕ → ℕ
hex_digit n = if ltb n 10 then 48 + n else 55 + n

-- The bytes that `quote(…, safe="")` leaves alone.
unfoldable pub is_unreserved : ℕ → Bool
is_unreserved b =
    (leb b'a' b && leb b b'z')
    || (leb b'A' b && leb b b'Z')
    || (leb b'0' b && leb b b'9')
    || b == b'_'
    || b == b'.'
    || b == b'-'
    || b == b'~'

-- `quote(s, safe="")`, on the bytes of UTF-8.
unfoldable pub quote_bytes : Bytes → Text
unfolding hex_digit is_unreserved
quote_bytes [] = []
quote_bytes (b ∷ s) =
    let rest = quote_bytes s in
    if is_unreserved b then b ∷ rest else b'%' ∷ hex_digit (b / 16) ∷ hex_digit (b % 16) ∷ rest

-- `_build_content_disposition`
unfoldable pub build_content_disposition : (disposition filename : Text) → Text
unfolding ascii_fallback quote_bytes
build_content_disposition disposition filename =
    let safe_filename = sanitize_document_filename filename in
    disposition
    ++ (codes "; filename=\""
        ++ (ascii_fallback safe_filename
            ++ (codes "\"; filename*=UTF-8''" ++ quote_bytes (utf8_encode safe_filename))))
