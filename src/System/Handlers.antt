-- ===== src/System/Handlers.antt =====
-- The dependencies and the handlers of the routes, seen through a test of the tables.
use document_agent_api.Common.{Text, Bool, List, Option-cases, inl, inr, arith}
use document_agent_api.Models.{Tables, UserModel}
use document_agent_api.Platform.{Platform}
use document_agent_api.Platform.Lawful.{Laws}
use document_agent_api.Auth.Dependencies.{
  Credentials, extract_bearer_credential, authenticate_api_key, authenticate_token,
  get_current_user, Decision, by_token, by_api_key, refuse, authenticate, get_current_document_user,
}
use document_agent_api.Auth.Router.{
  post_register, post_login, post_api_key, delete_api_key, patch_api_key,
}
use document_agent_api.Documents.Router.{
  UploadFile, upload_error, post_document, get_document_handler, get_source_handler,
  get_result_handler, download_document_result, delete_document_handler,
}
use document_agent_api.Documents.Media.{or_octet_stream}
use document_agent_api.ParseJobs.{get_job}
use document_agent_api.ParseJobs.Router.{get_parse_job}
use document_agent_api.System.{Service}
use document_agent_api.System.Sessions.{Keeps}
use document_agent_api.System.Reads.{
  get_document-session, get_document_source-session, get_document_result-session,
}
use document_agent_api.System.Changes.{IsClosed}
use document_agent_api.System.Accounts.{
  register-Keeps, login-Keeps, get_user_from_access_token-Keeps, get_user_from_api_key-Keeps,
  issue_api_key-Keeps, revoke_api_key-Keeps, rename_api_key-Keeps,
}
use document_agent_api.System.Jobs.{create_job-Keeps}
use document_agent_api.System.Documents.{delete_document-Keeps}

module _ {P : Platform} (L : Laws P) (c : Tables → Bool) (K : IsClosed c) (S : Service) where
  authenticate_token-Keeps :
      (token : Text)
      → Keeps L c (authenticate_token P S.crypto S.secret_key S.access_token_ttl_seconds token)
  unfolding authenticate_token
  authenticate_token-Keeps token w g = ground (
    arith,
    get_user_from_access_token-Keeps L c K S.crypto S.secret_key S.access_token_ttl_seconds token w
        g,
  )

  authenticate_api_key-Keeps :
      (key : Text)
      → Keeps L c (authenticate_api_key P S.crypto S.secret_key S.access_token_ttl_seconds key)
  unfolding authenticate_api_key
  authenticate_api_key-Keeps key w g = ground (
    arith,
    get_user_from_api_key-Keeps L c K S.crypto S.secret_key S.access_token_ttl_seconds key w g,
  )

  pub current_user-Keeps :
      (r : Credentials)
      → Keeps L c (get_current_user P S.crypto S.secret_key S.access_token_ttl_seconds r)
  unfolding get_current_user
  current_user-Keeps r w g = elim (Option-cases (extract_bearer_credential P.unicode_lower r)) [
    | inl e ↦ ground (arith, g)
    | inr (t, e) ↦ ground (arith, authenticate_token-Keeps t w g)
  ]

  authenticate-Keeps :
      (d : Decision) → Keeps L c (authenticate P S.crypto S.secret_key S.access_token_ttl_seconds d)
  unfolding authenticate
  authenticate-Keeps (by_token t) w g = authenticate_token-Keeps t w g
  authenticate-Keeps (by_api_key k) w g = authenticate_api_key-Keeps k w g
  authenticate-Keeps (refuse m) w g = g

  pub document_user-Keeps :
      (r : Credentials)
      → Keeps L c (get_current_document_user P S.crypto S.secret_key S.access_token_ttl_seconds r)
  unfolding get_current_document_user
  document_user-Keeps r w g = authenticate-Keeps _ w g

  pub upload-Keeps :
      (enabled : List Text) (file : UploadFile) (backend user_id : Text)
      → Keeps L c (post_document P enabled file backend user_id)
  unfolding post_document
  upload-Keeps enabled file backend user_id w g =
      elim (Option-cases (upload_error P.unicode_lower enabled file backend)) [
        | inr (e, r) ↦ ground (arith, g)
        | inl r ↦ ground (
          arith,
          create_job-Keeps L c K user_id file.filename (or_octet_stream file.content_type) backend
              file.payload w g,
        )
      ]

  pub post_api_key-Keeps :
      (user : UserModel) (name : Text)
      → Keeps L c (post_api_key P S.crypto S.secret_key S.access_token_ttl_seconds user name)
  unfolding post_api_key
  post_api_key-Keeps user name w g = ground (
    arith,
    issue_api_key-Keeps L c K S.crypto S.secret_key S.access_token_ttl_seconds user name w g,
  )

  pub delete_api_key-Keeps :
      (user : UserModel) (id : Text)
      → Keeps L c (delete_api_key P S.crypto S.secret_key S.access_token_ttl_seconds user id)
  unfolding delete_api_key
  delete_api_key-Keeps user id w g = ground (
    arith,
    revoke_api_key-Keeps L c K S.crypto S.secret_key S.access_token_ttl_seconds user id w g,
  )

  pub patch_api_key-Keeps :
      (user : UserModel) (id name : Text)
      → Keeps L c (patch_api_key P S.crypto S.secret_key S.access_token_ttl_seconds user id name)
  unfolding patch_api_key
  patch_api_key-Keeps user id name w g = ground (
    arith,
    rename_api_key-Keeps L c K S.crypto S.secret_key S.access_token_ttl_seconds user id name w g,
  )

  pub read-Keeps : (id user_id : Text) → Keeps L c (get_document_handler P id user_id)
  unfolding get_document_handler
  read-Keeps id user_id w g = ground (arith, g, get_document-session P id user_id w)

  pub source-Keeps :
      (id disposition user_id : Text) → Keeps L c (get_source_handler P id disposition user_id)
  unfolding get_source_handler
  source-Keeps id disposition user_id w g =
      ground (arith, g, get_document_source-session P id user_id w)

  pub result-Keeps : (id user_id : Text) → Keeps L c (get_result_handler P id user_id)
  unfolding get_result_handler
  result-Keeps id user_id w g = ground (arith, g, get_document_result-session P id user_id w)

  pub download-Keeps :
      (id format user_id : Text) → Keeps L c (download_document_result P id format user_id)
  unfolding download_document_result
  download-Keeps id format user_id w g = ground (arith, result-Keeps id user_id w g)

  pub delete-Keeps : (id user_id : Text) → Keeps L c (delete_document_handler P id user_id)
  unfolding delete_document_handler
  delete-Keeps id user_id w g = ground (arith, delete_document-Keeps L c K id user_id w g)

  pub job-Keeps : (id user_id : Text) → Keeps L c (get_parse_job P id user_id)
  unfolding get_parse_job get_job
  job-Keeps id user_id w g = grind (arith, g)

  pub post_register-Keeps :
      (email password : Text)
      → Keeps L c (post_register P S.crypto S.secret_key S.access_token_ttl_seconds email password)
  unfolding post_register
  post_register-Keeps email password w g = ground (
    arith,
    register-Keeps L c K S.crypto S.secret_key S.access_token_ttl_seconds email password w g,
  )

  pub post_login-Keeps :
      (email password : Text)
      → Keeps L c (post_login P S.crypto S.secret_key S.access_token_ttl_seconds email password)
  unfolding post_login
  post_login-Keeps email password w g =
      ground (
        arith,
        login-Keeps L c K S.crypto S.secret_key S.access_token_ttl_seconds email password w g,
      )
