-- ===== src/Worker/Parser.antt =====
-- worker/parser.py, and `_build_parsers` of worker/main.py. What runs outside the program is a
-- parameter: the MarkItDown converter, the subprocesses, and the files that they leave.
use document_agent_api.Common.{
  ℕ, Text, Bytes, codes, text_eq, contains, strip, Bool, true, false, not, Option, none, some, List,
  ◌++◌, Result, ok, err, worker_parse_error, runtime_error, other, message_of, ◌==◌, if◌then◌else◌,
}
use document_agent_api.Models.{
  Json, null, bool, int, negative, number, str, arr, obj, nil, cons, Fields, end, field, get_field,
}
use document_agent_api.Documents.Names.{is_empty}
use document_agent_api.Documents.Objects.{truthy}

-- `ParsedDocumentPayload`
pub record ParsedDocumentPayload : Type 0 where
  pub markdown : Text
  pub canonical_json : Json

-- `WorkerParser`: `parse` of an input file, given by its name and its bytes.
abbrev pub WorkerParser : Type 0
WorkerParser = Text → Bytes → Result ParsedDocumentPayload

-- `subprocess.CompletedProcess`
pub record CompletedProcess : Type 0 where
  pub returncode : ℕ
  pub stdout : Text
  pub stderr : Text

-- `[{"type": "text", "text": text}]`
abbrev pub text_blocks : Text → Json
text_blocks text = arr (
    cons (obj (field (codes "type") (str (codes "text")) (field (codes "text") (str text) end)))
      nil)

-- The `canonical_json` of a parser that names itself and the file.
abbrev pub parsed_json : Fields → Text → Json
parsed_json document text =
    obj (field (codes "document") (obj document) (field (codes "blocks") (text_blocks text) end))

abbrev pub origin : Text → Text → Fields → Fields
origin source filename more =
    field (codes "source") (str source) (field (codes "filename") (str filename) more)

-- A text that must not be blank.
abbrev pub payload_or_error : Text → Fields → Text → Result ParsedDocumentPayload
payload_or_error message document text =
    if is_empty text
    then err (worker_parse_error message)
    else ok (record { markdown = text; canonical_json = parsed_json document text })

-- `a or b or c` on texts
abbrev pub first_nonempty : Text → Text → Text → Text
first_nonempty a b c = if not (is_empty a) then a else if not (is_empty b) then b else c

-- `MarkItDownParser.parse`; `convert` is none where the package is not installed.
unfoldable pub markitdown_parse : Option (Text → Bytes → Result Text) → WorkerParser
markitdown_parse none name input = err (worker_parse_error (codes "markitdown is not installed"))
markitdown_parse (some convert) name input = elim (convert name input) [
  | err e ↦ err (worker_parse_error (message_of e))
  | ok content ↦
      payload_or_error (codes "markitdown returned no extractable text")
        (origin (codes "markitdown") name end) (strip content)
]

-- `PdftotextParser.parse`; what `subprocess.run` raises, a timeout too, goes out as it is.
unfoldable pub pdftotext_parse : (Text → Bytes → Result CompletedProcess) → WorkerParser
pdftotext_parse run name input = elim (run name input) [
  | err e ↦ err e
  | ok completed ↦
      if not (completed.returncode == 0)
      then err (
          worker_parse_error (
            first_nonempty (strip completed.stderr) (strip completed.stdout)
              (codes "pdftotext failed")))
      else payload_or_error (codes "pdftotext returned no extractable text")
          (origin (codes "pdftotext") name end) (strip completed.stdout)
]

-- The truth of a JSON value in Python.
abbrev pub json_truthy : Json → Bool
json_truthy null = false
json_truthy (bool b) = b
json_truthy (int n) = not (n == 0)
json_truthy (negative n) = true
json_truthy (number t) = true
json_truthy (str t) = not (is_empty t)
json_truthy (arr nil) = false
json_truthy (arr (cons x xs)) = true
json_truthy (obj end) = false
json_truthy (obj (field k v rest)) = true

-- `d.get(a) or d.get(b)`
unfoldable pub get_or_get : Text → Text → Fields → Option Json
get_or_get a b d = elim (get_field a d) [
  | none ↦ get_field b d
  | some v ↦ if json_truthy v then some v else get_field b d
]

-- A string that is not blank.
unfoldable pub nonblank_string : Option Json → Option Text
nonblank_string (some (str t)) = if is_empty (strip t) then none else some t
nonblank_string _ = none

-- What the document-ai script does and leaves: how its run ends, none for a timeout; the text of
-- meta.json; and the text of an output file, by the path that meta.json names.
pub record DocumentAiRun : Type 0 where
  pub completed : Option CompletedProcess
  pub metadata : Option Text
  pub output : Text → Option Text

-- `json.loads` of meta.json and the entry "outputs".
unfoldable pub outputs_of : Option Json → Result (Fields × Fields)
outputs_of none = err (worker_parse_error (codes "document-ai produced invalid meta.json"))
outputs_of (some (obj metadata)) = elim (get_field (codes "outputs") metadata) [
  | some (obj outputs) ↦ ok (metadata, outputs)
  | _ ↦ err (worker_parse_error (codes "document-ai meta.json is missing outputs"))
]
outputs_of (some _) = err (other (codes "object has no attribute 'get'"))

-- `metadata.get("parse_mode")`
abbrev parse_mode : Fields → Json
parse_mode metadata = elim (get_field (codes "parse_mode") metadata) [ none ↦ null | some v ↦ v ]

-- The markdown output that meta.json names, read and stripped.
unfoldable pub read_markdown : DocumentAiRun → Text → Fields × Fields → Result ParsedDocumentPayload
unfolding get_or_get nonblank_string
read_markdown run name (metadata, outputs) =
    elim (nonblank_string (get_or_get (codes "selected_markdown") (codes "markdown") outputs)) [
      | none ↦ err (worker_parse_error (codes "document-ai meta.json is missing a markdown output"))
      | some path ↦ elim (run.output path) [
        | none ↦ err (worker_parse_error (codes "document-ai markdown output not found: " ++ path))
        | some text ↦
            payload_or_error (codes "document-ai returned no extractable text")
              (origin (codes "document_ai") name
                (field (codes "parse_mode") (parse_mode metadata) end))
              (strip text)
      ]
    ]

-- The rest of `DocumentAIParser.parse` after the process has ended.
unfoldable pub read_outputs :
    (Text → Option Json) → DocumentAiRun → Text → Result ParsedDocumentPayload
unfolding outputs_of read_markdown
read_outputs loads run name = elim run.metadata [
  | none ↦ err (worker_parse_error (codes "document-ai did not produce meta.json"))
  | some text ↦ elim (outputs_of (loads text)) [
    | err e ↦ err e
    | ok found ↦ read_markdown run name found
  ]
]

-- `DocumentAIParser.parse`; `run` is none where the script is no file.
unfoldable pub document_ai_parse :
    (Text → Option Json) → Option (Text → Bytes → DocumentAiRun) → WorkerParser
unfolding read_outputs
document_ai_parse loads none name input =
    err (worker_parse_error (codes "document-ai script is not available"))
document_ai_parse loads (some script) name input =
    let run = script name input in
    elim run.completed [
      | none ↦ err (worker_parse_error (codes "document-ai parsing timed out"))
      | some completed ↦
          if not (completed.returncode == 0)
          then err (
              worker_parse_error (
                first_nonempty (strip completed.stderr) (strip completed.stdout)
                  (codes "document-ai parsing failed")))
          else read_outputs loads run name
    ]

-- The parsers by name.
pub record Tools : Type 0 where
  pub convert : Option (Text → Bytes → Result Text)
  pub pdftotext : Text → Bytes → Result CompletedProcess
  pub document_ai : Option (Text → Bytes → DocumentAiRun)

-- `_build_parsers`: document_ai is there only where it is enabled, and then wants its script's path.
unfoldable pub build_parsers :
    (Text → Option Json)
    → Tools
    → (enabled : List Text) → (script_path : Option Text) → Result (Text → Option WorkerParser)
unfolding markitdown_parse pdftotext_parse document_ai_parse
build_parsers loads tools enabled script_path =
    let basic : Text → Option WorkerParser = λ name.
      if text_eq name (codes "markitdown")
      then some (markitdown_parse tools.convert)
      else if text_eq name (codes "pdftotext")
      then some (pdftotext_parse tools.pdftotext)
      else none in
    let all_ : Text → Option WorkerParser = λ name.
      if text_eq name (codes "document_ai")
      then some (document_ai_parse loads tools.document_ai)
      else basic name in
    if contains (codes "document_ai") enabled
    then (elim (truthy script_path) [
      | none ↦ err (
          runtime_error
            (codes "document_ai_script_path is required when document_ai backend is enabled"))
      | some _ ↦ ok all_
    ])
    else ok basic
