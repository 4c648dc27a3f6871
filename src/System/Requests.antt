-- ===== src/System/Requests.antt =====
-- The requests and the sequences of events, seen through a test of the tables.
use document_agent_api.Common.{Bool, true, Exec, pure, ◌>>=◌, ◌≡◌, List, [], ◌∷◌, arith}
use document_agent_api.Models.{Tables, UserModel}
use document_agent_api.Platform.{Platform, World, saved, rollback}
use document_agent_api.Platform.Lawful.{Laws}
use document_agent_api.Auth.Dependencies.{Credentials}
use document_agent_api.Auth.Router.{
  get_api_keys, get_me, post_register, post_login, post_api_key, delete_api_key, patch_api_key,
}
use document_agent_api.Documents.Router.{
  list_documents_handler, post_document, get_document_handler, get_source_handler,
  get_result_handler, download_document_result, delete_document_handler,
}
use document_agent_api.ParseJobs.Router.{get_parse_job}
use document_agent_api.System.{
  Request, Response, Event, Service, as_response, current_user, document_user, handle, respond,
  step, steps,
}
use document_agent_api.System.Sessions.{IsGood, Keeps, IsGood-rollback, Keeps->>=}
use document_agent_api.System.Changes.{IsClosed}
use document_agent_api.System.Rounds.{run_once-Keeps}
use document_agent_api.System.Handlers.{
  current_user-Keeps, document_user-Keeps, upload-Keeps, post_api_key-Keeps, delete_api_key-Keeps,
  patch_api_key-Keeps, read-Keeps, source-Keeps, result-Keeps, download-Keeps, delete-Keeps,
  job-Keeps, post_register-Keeps, post_login-Keeps,
}

module _ {P : Platform} (L : Laws P) (c : Tables → Bool) (K : IsClosed c) (S : Service) where
  -- An operation whose result is wrapped.
  answered :
      {A : Type 0} (f : A → Response) (m : Exec (World P) A)
      → Keeps L c m
      → Keeps L c (as_response f m)
  answered f m k = Keeps->>= L c m (λ a. pure (f a)) k (λ a w g. g)

  -- A handler after the dependency on the user, of either kind.
  for_user :
      {A : Type 0} (r : Credentials) (f : A → Response) (m : UserModel → Exec (World P) A)
      → ((user : UserModel) → Keeps L c (m user))
      → Keeps L c (current_user P S r >>= λ user. as_response f (m user))
  for_user r f m k =
      Keeps->>= L c (current_user P S r) (λ user. as_response f (m user))
        (current_user-Keeps L c K S r) (λ user. answered f (m user) (k user))

  for_document_user :
      {A : Type 0} (r : Credentials) (f : A → Response) (m : UserModel → Exec (World P) A)
      → ((user : UserModel) → Keeps L c (m user))
      → Keeps L c (document_user P S r >>= λ user. as_response f (m user))
  for_document_user r f m k =
      Keeps->>= L c (document_user P S r) (λ user. as_response f (m user))
        (document_user-Keeps L c K S r) (λ user. answered f (m user) (k user))

  handle-Keeps : (r : Request) → Keeps L c (handle P S r)
  unfolding handle
  handle-Keeps (Request.register email password) =
      answered Response.token
        (post_register P S.crypto S.secret_key S.access_token_ttl_seconds email password)
        (post_register-Keeps L c K S email password)
  handle-Keeps (Request.login email password) =
      answered Response.token
        (post_login P S.crypto S.secret_key S.access_token_ttl_seconds email password)
        (post_login-Keeps L c K S email password)
  handle-Keeps (Request.me cr) =
      answered
        (λ user. Response.profile (get_me P S.crypto S.secret_key S.access_token_ttl_seconds user))
        (current_user P S cr) (current_user-Keeps L c K S cr)
  handle-Keeps (Request.list_keys cr first) =
      for_user cr Response.keys
        (λ user. get_api_keys P S.crypto S.secret_key S.access_token_ttl_seconds first user)
        (λ user w g. g)
  handle-Keeps (Request.issue_key cr name) =
      for_user cr Response.key
        (λ user. post_api_key P S.crypto S.secret_key S.access_token_ttl_seconds user name)
        (λ user. post_api_key-Keeps L c K S user name)
  handle-Keeps (Request.revoke_key cr id) =
      for_user cr (λ _. Response.no_content)
        (λ user. delete_api_key P S.crypto S.secret_key S.access_token_ttl_seconds user id)
        (λ user. delete_api_key-Keeps L c K S user id)
  handle-Keeps (Request.rename_key cr id name) =
      for_user cr Response.key_summary
        (λ user. patch_api_key P S.crypto S.secret_key S.access_token_ttl_seconds user id name)
        (λ user. patch_api_key-Keeps L c K S user id name)
  handle-Keeps (Request.upload cr file backend) =
      for_document_user cr Response.accepted
        (λ user. post_document P S.enabled_parser_backends file backend user.id)
        (λ user. upload-Keeps L c K S S.enabled_parser_backends file backend user.id)
  handle-Keeps (Request.list cr first limit offset filename) =
      for_document_user cr Response.documents
        (λ user. list_documents_handler P first S.matches limit offset filename user.id)
        (λ user w g. g)
  handle-Keeps (Request.read cr id) =
      for_document_user cr Response.document (λ user. get_document_handler P id user.id)
        (λ user. read-Keeps L c K S id user.id)
  handle-Keeps (Request.source cr id disposition) =
      for_document_user cr Response.source_file
        (λ user. get_source_handler P id disposition user.id)
        (λ user. source-Keeps L c K S id disposition user.id)
  handle-Keeps (Request.result cr id) =
      for_document_user cr Response.parsed (λ user. get_result_handler P id user.id)
        (λ user. result-Keeps L c K S id user.id)
  handle-Keeps (Request.download cr id format) =
      for_document_user cr Response.file (λ user. download_document_result P id format user.id)
        (λ user. download-Keeps L c K S id format user.id)
  handle-Keeps (Request.delete cr id) =
      for_document_user cr (λ _. Response.no_content) (λ user. delete_document_handler P id user.id)
        (λ user. delete-Keeps L c K S id user.id)
  handle-Keeps (Request.job cr id) =
      for_document_user cr Response.job_state (λ user. get_parse_job P id user.id)
        (λ user. job-Keeps L c K S id user.id)

  step-IsGood : (e : Event) (w : World P) → IsGood L c w → IsGood L c (step P S e w)
  unfolding step respond
  step-IsGood (Event.request r) w g = handle-Keeps r (rollback P w) (IsGood-rollback L c w g)
  step-IsGood (Event.round timeout) w g = run_once-Keeps L c K S.runner timeout w g

  steps-IsGood : (es : List Event) (w : World P) → IsGood L c w → IsGood L c (steps P S es w)
  unfolding steps
  steps-IsGood [] w g = g
  steps-IsGood (e ∷ es) w g = steps-IsGood es (step P S e w) (step-IsGood e w g)

  -- A test that the database passes, after any sequence of events in sessions that start from it.
  pub steps-saved :
      (es : List Event) (w : World P)
      → c (saved P w) ≡ true
      → c (saved P (steps P S es (rollback P w))) ≡ true
  steps-saved es w h =
      (steps-IsGood es (rollback P w) (
        ground (arith, h, L.database.working-rollback w.session),
        ground (arith, h, L.database.committed-rollback w.session),
      )).1
