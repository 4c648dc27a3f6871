-- ===== src/Documents/Schemas.antt =====
-- documents/schemas.py, and the helpers of documents/service.py that build its values.
use document_agent_api.Common.{ℕ, Text, Bytes, codes, ◌++◌, List, ◌∷◌, []}
use document_agent_api.Models.{Json, str, int, arr, obj, nil, cons, end, field, DocumentModel}

-- `DocumentSummary`
pub record DocumentSummary : Type 0 where
  pub id : Text
  pub filename : Text
  pub content_type : Text
  pub created_at : ℕ
  pub updated_at : ℕ

-- `ParseResult`
pub record ParseResult : Type 0 where
  pub markdown : Text
  pub canonical_json : Json

-- `DocumentParseResponse`
pub record DocumentParseResponse : Type 0 where
  pub document : DocumentSummary
  pub result : ParseResult

-- `DocumentListResponse`
pub record DocumentListResponse : Type 0 where
  pub items : List DocumentSummary
  pub total : ℕ
  pub limit : ℕ
  pub offset : ℕ

-- `DocumentSourcePayload`
pub record DocumentSourcePayload : Type 0 where
  pub filename : Text
  pub content_type : Text
  pub payload : Bytes

-- `_to_document_summary`; `UUID(document.id)` is the id's text.
abbrev pub to_document_summary : DocumentModel → DocumentSummary
to_document_summary document = record {
  id = document.id;
  filename = document.filename;
  content_type = document.content_type;
  created_at = document.created_at;
  updated_at = document.updated_at;
}

-- `_to_document_parse_response`
abbrev pub to_document_parse_response : DocumentModel → Text → Json → DocumentParseResponse
to_document_parse_response document markdown canonical_json = record {
  document = to_document_summary document;
  result = record { markdown = markdown; canonical_json = canonical_json };
}

abbrev newline : Text
newline = 10 ∷ []

-- `_build_markdown`
unfoldable pub build_markdown : Text → Text → Text
build_markdown title filename =
    codes "# "
    ++ (title
        ++ (newline
            ++ (newline
                ++ (codes "This is a mock parsed document result."
                    ++ (newline
                        ++ (newline
                            ++ (codes "- source filename: `"
                                ++ (filename
                                    ++ (codes "`"
                                        ++ (newline
                                            ++ (codes "- parser mode: `mock`" ++ newline)))))))))))

abbrev entry : Text → Json → Json
entry kind text = obj (field (codes "type") (str kind) (field (codes "text") text end))

-- `_build_canonical_json`
unfoldable pub build_canonical_json : Text → Text → Json
build_canonical_json title filename = obj (
    field (codes "document")
      (obj (field (codes "title") (str title) (field (codes "sourceFilename") (str filename) end)))
      (field (codes "pages")
        (arr (
          cons
            (obj (
              field (codes "pageNumber") (int 1) (
                field (codes "blocks")
                  (arr (
                    cons (entry (codes "heading") (str title)) (
                      cons
                        (entry (codes "paragraph")
                          (str (codes "This is a mock parsed document result.")))
                        nil)))
                  end)))
            nil))
        end))
