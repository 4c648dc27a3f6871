-- ===== src/System.antt =====
-- The service as a whole: the requests of the routers of auth/router.py, documents/router.py and
-- parse_jobs/router.py, the rounds of worker/runner.py, and sequences of both. FastAPI resolves the
-- user of a request first, in the session of its handler.
pub mod Sessions
pub mod Reads
pub mod Changes
pub mod JobTests
pub mod Accounts
pub mod Jobs
pub mod Documents
pub mod Rounds
pub mod Handlers
pub mod Requests
pub mod Consistent
pub mod Started
pub mod Finished
pub mod Progress
use document_agent_api.Common.{
  ℕ, Text, Bytes, Bool, Option, none, some, List, [], ◌∷◌, Result, ok, err, Exn, Exec, pure, ◌>>=◌,
}
use document_agent_api.Models.{Fields, UserModel, UserApiKeyModel, DocumentModel}
use document_agent_api.Platform.{Platform, World, rollback}
use document_agent_api.Auth.Security.{Crypto}
use document_agent_api.Auth.Schemas.{UserProfile, AuthTokenResponse, ApiKeySummary, ApiKeyResponse}
use document_agent_api.Auth.Dependencies.{Credentials, get_current_user, get_current_document_user}
use document_agent_api.Auth.Router.{
  get_api_keys, post_register, post_login, get_me, post_api_key, delete_api_key, patch_api_key,
}
use document_agent_api.Documents.Schemas.{
  DocumentSummary, DocumentParseResponse, DocumentListResponse,
}
use document_agent_api.Documents.Router.{
  list_documents_handler, UploadFile, SourceResponse, Download, post_document, get_document_handler,
  get_source_handler, get_result_handler, download_document_result, delete_document_handler,
}
use document_agent_api.ParseJobs.{ParseJobSummary}
use document_agent_api.ParseJobs.Router.{get_parse_job}
use document_agent_api.Worker.Runner.{Runner, run_once}

-- A request, with the parameters of its route that FastAPI has read. `first` of a listing is the order in
-- which the database puts rows of one time for that query.
pub data Request : Type 0 where
  register login : (email password : Text) → Request
  me : Credentials → Request
  list_keys : Credentials → (first : UserApiKeyModel → UserApiKeyModel → Bool) → Request
  issue_key : Credentials → (name : Text) → Request
  revoke_key : Credentials → (api_key_id : Text) → Request
  rename_key : Credentials → (api_key_id name : Text) → Request
  upload : Credentials → UploadFile → (parser_backend : Text) → Request
  list :
      Credentials
      → (first : DocumentModel → DocumentModel → Bool) → (limit offset : ℕ)
      → (filename : Option Text) → Request
  read : Credentials → (document_id : Text) → Request
  source : Credentials → (document_id disposition : Text) → Request
  result : Credentials → (document_id : Text) → Request
  download : Credentials → (document_id format : Text) → Request
  delete : Credentials → (document_id : Text) → Request
  job : Credentials → (job_id : Text) → Request

-- What a handler returns.
pub data Response : Type 0 where
  token : AuthTokenResponse → Response
  profile : UserProfile → Response
  keys : List ApiKeySummary → Response
  key : ApiKeyResponse → Response
  key_summary : ApiKeySummary → Response
  no_content : Response
  accepted : ParseJobSummary → Response
  documents : DocumentListResponse → Response
  document : DocumentSummary → Response
  source_file : SourceResponse → Response
  parsed : DocumentParseResponse → Response
  file : Download → Response
  job_state : ParseJobSummary → Response

-- Wraps what a method returns.
abbrev pub as_response : {S A : Type 0} → (A → Response) → Exec S A → Exec S Response
as_response f m = m >>= λ a. pure (f a)

-- What the settings fix for the whole process, with SQL's ILIKE.
pub record Service : Type 0 where
  pub crypto : Crypto
  pub secret_key : Text
  pub access_token_ttl_seconds : ℕ
  pub enabled_parser_backends : List Text
  pub matches : Text → Text → Bool
  pub runner : Runner

-- What happens to the service: a request, or a round of the worker.
pub data Event : Type 0 where
  request : Request → Event
  round : (timeout_seconds : ℕ) → Event

module _ (P : Platform) (S : Service) where
  abbrev pub current_user : Credentials → Exec (World P) UserModel
  current_user = get_current_user P S.crypto S.secret_key S.access_token_ttl_seconds

  abbrev pub document_user : Credentials → Exec (World P) UserModel
  document_user = get_current_document_user P S.crypto S.secret_key S.access_token_ttl_seconds

  -- The handler of each route, after its dependencies.
  unfoldable pub handle : Request → Exec (World P) Response
  handle (register email password) =
      as_response token
        (post_register P S.crypto S.secret_key S.access_token_ttl_seconds email password)
  handle (login email password) =
      as_response token
        (post_login P S.crypto S.secret_key S.access_token_ttl_seconds email password)
  handle (me credentials) =
      as_response (λ user. profile (get_me P S.crypto S.secret_key S.access_token_ttl_seconds user))
        (current_user credentials)
  handle (list_keys credentials first) = do
    user ← current_user credentials
    as_response keys (get_api_keys P S.crypto S.secret_key S.access_token_ttl_seconds first user)
  handle (issue_key credentials name) = do
    user ← current_user credentials
    as_response key (post_api_key P S.crypto S.secret_key S.access_token_ttl_seconds user name)
  handle (revoke_key credentials api_key_id) = do
    user ← current_user credentials
    as_response (λ _. no_content)
        (delete_api_key P S.crypto S.secret_key S.access_token_ttl_seconds user api_key_id)
  handle (rename_key credentials api_key_id name) = do
    user ← current_user credentials
    as_response key_summary
        (patch_api_key P S.crypto S.secret_key S.access_token_ttl_seconds user api_key_id name)
  handle (upload credentials body parser_backend) = do
    user ← document_user credentials
    as_response accepted (post_document P S.enabled_parser_backends body parser_backend user.id)
  handle (list credentials first limit offset filename) = do
    user ← document_user credentials
    as_response documents (list_documents_handler P first S.matches limit offset filename user.id)
  handle (read credentials document_id) = do
    user ← document_user credentials
    as_response document (get_document_handler P document_id user.id)
  handle (source credentials document_id disposition) = do
    user ← document_user credentials
    as_response source_file (get_source_handler P document_id disposition user.id)
  handle (result credentials document_id) = do
    user ← document_user credentials
    as_response parsed (get_result_handler P document_id user.id)
  handle (download credentials document_id format) = do
    user ← document_user credentials
    as_response file (download_document_result P document_id format user.id)
  handle (delete credentials document_id) = do
    user ← document_user credentials
    as_response (λ _. no_content) (delete_document_handler P document_id user.id)
  handle (job credentials job_id) = do
    user ← document_user credentials
    as_response job_state (get_parse_job P job_id user.id)

  -- One request in a session of its own (`get_db_session`).
  unfoldable pub respond : Request → World P → Result Response × World P
  unfolding handle
  respond r w = handle r (rollback P w)

  -- The state after one event.
  unfoldable pub step : Event → World P → World P
  unfolding respond
  step (request r) w = (respond r w).1
  step (round timeout_seconds) w = (run_once P S.runner timeout_seconds w).1

  -- The state after a sequence of events.
  unfoldable pub steps : List Event → World P → World P
  unfolding step
  steps [] w = w
  steps (event ∷ events) w = steps events (step event w)
