-- ===== src/Documents/Router.antt =====
-- documents/router.py: the handlers over the document service and the job service.
pub mod Uploads
use document_agent_api.Common.{
  ℕ, Bool, Text, Bytes, codes, text_eq, contains, strip, not, Option, none, some, List, [], ◌∷◌,
  ◌++◌, Result, ok, err, Exn, document_not_found, document_source_unavailable,
  parse_job_enqueue_error, api_error, message_of, Exec, pure, raise, catch, ◌>>=◌, if◌then◌else◌,
}
use document_agent_api.Models.{DocumentModel, Json}
use document_agent_api.Platform.{Platform, World}
use document_agent_api.ParseJobs.{ParseJobSummary, create_job}
use document_agent_api.Documents.Names.{is_empty}
use document_agent_api.Documents.Schemas.{
  DocumentSummary, DocumentParseResponse, DocumentListResponse,
}
use document_agent_api.Documents.Reading.{
  list_documents, get_document, get_document_source, get_document_result,
}
use document_agent_api.Documents.Deleting.{delete_document}
use document_agent_api.Documents.Media.{
  or_octet_stream, is_supported_file, is_parser_backend_supported_for_upload,
  resolve_source_response_metadata, build_content_disposition,
}

-- The uploaded file; a name that is absent is the empty text.
pub record UploadFile : Type 0 where
  pub filename : Text
  pub content_type : Option Text
  pub payload : Bytes

-- The guards of `create_document`, in order: the error of the first that fails.
unfoldable pub upload_error :
    (Text → Text) → (enabled : List Text) → UploadFile → (parser_backend : Text) → Option Exn
upload_error unicode enabled file parser_backend =
    if is_empty (strip file.filename)
    then some (api_error 400 (codes "missing_filename") (codes "File name is required.") [])
    else if is_empty file.payload
    then some (api_error 400 (codes "empty_file") (codes "Uploaded file is empty.") [])
    else if not (is_supported_file unicode file.filename file.content_type)
    then some (
        api_error 415 (codes "unsupported_file_type") (codes "Unsupported file type.")
          ((codes "filename", file.filename) ∷ []))
    else if not (contains parser_backend enabled)
    then some (
        api_error 400 (codes "parser_backend_disabled")
          (codes "Selected parser backend is not enabled in this environment.")
          ((codes "filename", file.filename) ∷ (codes "parserBackend", parser_backend) ∷ []))
    else if not (
        is_parser_backend_supported_for_upload unicode file.filename file.content_type
          parser_backend)
    then some (
        api_error 400 (codes "unsupported_parser_backend_for_file_type")
          (codes "Selected parser backend is not supported for this file type.")
          ((codes "filename", file.filename) ∷ (codes "parserBackend", parser_backend) ∷ []))
    else none

-- `except ParseJobEnqueueError`
unfoldable pub api_error_of_enqueue : Exn → Exn
api_error_of_enqueue (parse_job_enqueue_error id) =
    api_error 500 (codes "parse_job_enqueue_failed") (message_of (parse_job_enqueue_error id)) []
api_error_of_enqueue e = e

-- `except DocumentNotFoundError`
unfoldable pub api_error_of_document : Exn → Exn
api_error_of_document (document_not_found id) =
    api_error 404 (codes "document_not_found") (message_of (document_not_found id)) []
api_error_of_document e = e

-- The two `except` clauses of `get_document_source`.
unfoldable pub api_error_of_source : Exn → Exn
unfolding api_error_of_document
api_error_of_source (document_source_unavailable id) =
    api_error 500 (codes "source_file_unavailable") (message_of (document_source_unavailable id)) []
api_error_of_source e = api_error_of_document e

-- The response with the bytes of a source.
pub record SourceResponse : Type 0 where
  pub content : Bytes
  pub media_type : Text
  pub content_disposition : Text

-- The response of a download.
pub data Download : Type 0 where
  markdown_file : (content content_disposition : Text) → Download
  json_file : Json → (content_disposition : Text) → Download

abbrev attachment : Text → Text → Text
attachment id extension = codes "attachment; filename=\"" ++ (id ++ (extension ++ codes "\""))

-- The branches of `download_document_result` on `format`.
unfoldable pub download_as : (format : Text) → DocumentParseResponse → Result Download
download_as format r =
    if text_eq format (codes "markdown")
    then ok (markdown_file r.result.markdown (attachment r.document.id (codes ".md")))
    else if text_eq format (codes "json")
    then ok (json_file r.result.canonical_json (attachment r.document.id (codes ".json")))
    else err (
        api_error 406 (codes "unsupported_download_format") (codes "Unsupported download format.")
          ((codes "format", format) ∷ []))

module _ (P : Platform) where
  -- `create_document`
  unfoldable pub post_document :
      (enabled : List Text)
      → UploadFile
      → (parser_backend user_id : Text) → Exec (World P) ParseJobSummary
  unfolding upload_error
  post_document enabled file parser_backend user_id =
      elim (upload_error P.unicode_lower enabled file parser_backend) [
        | some e ↦ raise e
        | none ↦
            catch
              (create_job P user_id file.filename (or_octet_stream file.content_type) parser_backend
                file.payload)
              (λ e. raise (api_error_of_enqueue e))
      ]

  -- `list_documents`, with the query parameters that FastAPI has read; `matches` is SQL's ILIKE,
  -- and `first` the order in which the database puts documents of one time.
  abbrev pub list_documents_handler :
      (first : DocumentModel → DocumentModel → Bool) (matches : Text → Text → Bool)
      (limit offset : ℕ) (filename : Option Text) (user_id : Text)
      → Exec (World P) DocumentListResponse
  list_documents_handler first matches limit offset filename user_id w =
      (ok (list_documents P first matches limit offset filename user_id w), w)

  -- `get_document`
  unfoldable pub get_document_handler :
      (document_id user_id : Text) → Exec (World P) DocumentSummary
  get_document_handler document_id user_id =
      catch (get_document P document_id user_id) (λ e. raise (api_error_of_document e))

  -- `get_document_source`
  unfoldable pub get_source_handler :
      (document_id disposition user_id : Text) → Exec (World P) SourceResponse
  get_source_handler document_id disposition user_id = do
    source ← catch (get_document_source P document_id user_id) (λ e. raise (api_error_of_source e))
    let meta =
        resolve_source_response_metadata P.unicode_lower source.filename source.content_type
          disposition
    pure (record {
      content = source.payload;
      media_type = meta.1;
      content_disposition = build_content_disposition meta.0 source.filename;
    })

  -- `get_document_result`
  unfoldable pub get_result_handler :
      (document_id user_id : Text) → Exec (World P) DocumentParseResponse
  get_result_handler document_id user_id =
      catch (get_document_result P document_id user_id) (λ e. raise (api_error_of_document e))

  -- `download_document_result`
  unfoldable pub download_document_result :
      (document_id format user_id : Text) → Exec (World P) Download
  unfolding get_result_handler download_as
  download_document_result document_id format user_id w =
      (do r ← get_result_handler document_id user_id; λ s. (download_as format r, s)) w

  -- `delete_document`
  unfoldable pub delete_document_handler : (document_id user_id : Text) → Exec (World P) Unit
  delete_document_handler document_id user_id =
      catch (delete_document P document_id user_id) (λ e. raise (api_error_of_document e))
