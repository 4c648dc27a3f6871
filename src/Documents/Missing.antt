-- ===== src/Documents/Missing.antt =====
-- `_is_missing_object_error` of documents/service.py
use document_agent_api.Common.{Text, codes, contains, lower, Bool, true, false, [], ◌∷◌}
use document_agent_api.Common.{Exn, file_not_found, key_error, client_error}

-- `DocumentService._is_missing_object_error`. `client_error` is the exception whose `response` is a
-- dictionary with the code under "Error".
unfoldable pub is_missing_object_error : (Text → Text) → Exn → Bool
is_missing_object_error unicode (file_not_found text) = true
is_missing_object_error unicode (key_error text) = true
is_missing_object_error unicode (client_error code text) =
    contains (lower unicode code) (codes "nosuchkey" ∷ codes "notfound" ∷ codes "404" ∷ [])
is_missing_object_error unicode _ = false
