-- ===== src/Handlers.antt =====
-- common/exception_handlers.py: the response of an exception. The validation errors of FastAPI are
-- given by the locations of the errors.
use document_agent_api.Common.{
  ℕ, Text, codes, text_eq, any, rstrip, Bool, false, ◌&&◌, List, [], ◌∷◌, Exn, api_error, ◌==◌,
  if◌then◌else◌,
}

-- `JSONResponse` with the error's fields.
pub record ErrorResponse : Type 0 where
  pub status_code : ℕ
  pub code : Text
  pub message : Text
  pub details : List (Text × Text)

-- `api_error_handler`
unfoldable pub api_error_handler : Exn → ErrorResponse
api_error_handler (api_error status_code code message details) = record {
  status_code = status_code;
  code = code;
  message = message;
  details = details;
}
api_error_handler _ = record {
  status_code = 500;
  code = codes "internal_server_error";
  message = codes "Unexpected server error.";
  details = [];
}

-- `tuple(error.get("loc", ()))[:2] == ("body", "file")`
unfoldable pub is_file_location : List Text → Bool
is_file_location (a ∷ b ∷ rest) = text_eq a (codes "body") && text_eq b (codes "file")
is_file_location _ = false

-- `_is_documents_upload_validation_error`
unfoldable pub is_documents_upload_validation_error : (method path : Text) → List (List Text) → Bool
unfolding is_file_location
is_documents_upload_validation_error method path locations =
    text_eq method (codes "POST")
    && text_eq (rstrip (λ c. c == b'/') path) (codes "/api/v1/documents")
    && any is_file_location locations

-- The status and the code of `request_validation_error_handler` for a validation error.
unfoldable pub request_validation_error_handler : (method path : Text) → List (List Text) → ℕ × Text
unfolding is_documents_upload_validation_error
request_validation_error_handler method path locations =
    if is_documents_upload_validation_error method path locations
    then (400, codes "malformed_multipart_request")
    else (422, codes "request_validation_error")
