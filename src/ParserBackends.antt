-- ===== src/ParserBackends.antt =====
-- parser_backends.py
use document_agent_api.Common.{
  Text, codes, contains, lower, strip, List, [], ◌∷◌, Result, ok, err, value_error, if◌then◌else◌,
}

abbrev pub parser_backend_values : List Text
parser_backend_values = codes "markitdown" ∷ codes "pdftotext" ∷ codes "document_ai" ∷ []

abbrev pub default_request_parser_backend : Text
default_request_parser_backend = codes "markitdown"

abbrev pub default_enabled_parser_backends : List Text
default_enabled_parser_backends = codes "markitdown" ∷ codes "pdftotext" ∷ []

-- `normalize_parser_backend`
unfoldable pub normalize_parser_backend : (Text → Text) → Text → Result Text
normalize_parser_backend unicode value =
    let normalized = lower unicode (strip value) in
    if contains normalized parser_backend_values
    then ok normalized
    else err
        (value_error (codes "parser backend must be one of: markitdown, pdftotext, document_ai"))
