-- ===== src/Auth/Router.antt =====
-- auth/router.py: the status and the code that each exception of the service becomes. The handlers
-- call one method of `Auth.Service` each.
use document_agent_api.Common.{
  Bool, ℕ, Text, codes, List, ok, [], ◌∷◌, Exn, invalid_email_format, user_already_exists,
  invalid_credentials, invalid_api_key_name, api_key_name_already_exists, api_key_not_found,
  api_error, message_of, Exec, raise, catch,
}
use document_agent_api.Models.{UserModel, UserApiKeyModel}
use document_agent_api.Platform.{Platform, World}
use document_agent_api.Auth.Security.{Crypto}
use document_agent_api.Auth.Service.{
  list_api_keys, register, login, issue_api_key, revoke_api_key, rename_api_key,
}
use document_agent_api.Auth.Schemas.{
  AuthTokenResponse, ApiKeyResponse, ApiKeySummary, UserProfile, to_user_profile,
}

-- The `except` clauses of `register`.
unfoldable pub api_error_of_register : (email : Text) → Exn → Exn
api_error_of_register email (invalid_email_format e) =
    api_error 400 (codes "invalid_email_format") (message_of (invalid_email_format e))
      ((codes "email", email) ∷ [])
api_error_of_register email (user_already_exists e) =
    api_error 409 (codes "email_already_exists") (codes "Email is already registered.")
      ((codes "email", e) ∷ [])
api_error_of_register email e = e

-- The `except` clause of `login`.
unfoldable pub api_error_of_login : Exn → Exn
api_error_of_login invalid_credentials =
    api_error 401 (codes "invalid_credentials") (codes "Invalid email or password.") []
api_error_of_login e = e

-- The `except` clauses of `issue_api_key`, `revoke_api_key` and `rename_api_key`.
unfoldable pub api_error_of_api_key : Exn → Exn
api_error_of_api_key invalid_api_key_name =
    api_error 400 (codes "invalid_api_key_name") (codes "API key name must not be empty.") []
api_error_of_api_key (api_key_name_already_exists name) =
    api_error 409 (codes "api_key_name_already_exists") (codes "API key name is already in use.")
      ((codes "name", name) ∷ [])
api_error_of_api_key (api_key_not_found id) =
    api_error 404 (codes "api_key_not_found") (codes "API key not found.")
      ((codes "apiKeyId", id) ∷ [])
api_error_of_api_key e = e

module _ (P : Platform) (C : Crypto) (secret_key : Text) (access_token_ttl_seconds : ℕ) where
  -- `register`
  unfoldable pub post_register : (email password : Text) → Exec (World P) AuthTokenResponse
  post_register email password =
      catch (register P C secret_key access_token_ttl_seconds email password)
        (λ e. raise (api_error_of_register email e))

  -- `login`
  unfoldable pub post_login : (email password : Text) → Exec (World P) AuthTokenResponse
  post_login email password =
      catch (login P C secret_key access_token_ttl_seconds email password)
        (λ e. raise (api_error_of_login e))

  -- `me`
  unfoldable pub get_me : UserModel → UserProfile
  get_me current_user = to_user_profile current_user

  -- `list_api_keys`
  abbrev pub get_api_keys :
      (first : UserApiKeyModel → UserApiKeyModel → Bool)
      → UserModel
      → Exec (World P) (List ApiKeySummary)
  get_api_keys first current_user w =
      (ok (list_api_keys P C secret_key access_token_ttl_seconds first current_user w), w)

  -- `issue_api_key`
  unfoldable pub post_api_key : UserModel → (name : Text) → Exec (World P) ApiKeyResponse
  post_api_key current_user name =
      catch (issue_api_key P C secret_key access_token_ttl_seconds current_user name)
        (λ e. raise (api_error_of_api_key e))

  -- `revoke_api_key`
  unfoldable pub delete_api_key : UserModel → (api_key_id : Text) → Exec (World P) Unit
  delete_api_key current_user api_key_id =
      catch (revoke_api_key P C secret_key access_token_ttl_seconds current_user api_key_id)
        (λ e. raise (api_error_of_api_key e))

  -- `rename_api_key`
  unfoldable pub patch_api_key : UserModel → (api_key_id name : Text) → Exec (World P) ApiKeySummary
  patch_api_key current_user api_key_id name =
      catch (rename_api_key P C secret_key access_token_ttl_seconds current_user api_key_id name)
        (λ e. raise (api_error_of_api_key e))
