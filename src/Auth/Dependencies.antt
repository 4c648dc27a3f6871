-- ===== src/Auth/Dependencies.antt =====
-- auth/dependencies.py: which user a request is of. A header that is absent is none.
use document_agent_api.Common.{
  ℕ, Text, codes, text_eq, strip, lower, Option, none, some, [], ◌∷◌, Exn, invalid_access_token,
  expired_access_token, invalid_api_key, api_error, Exec, raise, catch, ◌==◌, if◌then◌else◌,
}
use document_agent_api.Models.{UserModel}
use document_agent_api.Platform.{Platform, World}
use document_agent_api.Documents.Names.{is_empty}
use document_agent_api.Auth.Security.{Crypto, is_probable_api_key}
use document_agent_api.Auth.Service.{get_user_from_access_token, get_user_from_api_key}

-- The two headers that carry credentials.
pub record Credentials : Type 0 where
  pub authorization : Option Text
  pub x_api_key : Option Text

-- `s.partition(" ")`, without the separator.
unfoldable pub partition_space : Text → Text × Text
partition_space [] = ([], [])
partition_space (c ∷ s) =
    let (front, rest) = partition_space s in if c == b' ' then ([], s) else (c ∷ front, rest)

abbrev pub nonempty : Text → Option Text
nonempty t = if is_empty t then none else some t

-- `_extract_api_key`
unfoldable pub extract_api_key : Credentials → Option Text
extract_api_key request = elim request.x_api_key [ none ↦ none | some raw ↦ nonempty (strip raw) ]

-- `_extract_bearer_credential`
unfoldable pub extract_bearer_credential : (Text → Text) → Credentials → Option Text
unfolding partition_space
extract_bearer_credential unicode request = elim request.authorization [
  | none ↦ none
  | some authorization ↦
      if text_eq (lower unicode (partition_space authorization).0) (codes "bearer")
      then nonempty (strip (partition_space authorization).1)
      else none
]

-- `_unauthorized_error`
abbrev pub unauthorized_error : Text → Exn
unauthorized_error message = api_error 401 (codes "unauthorized") message []

abbrev pub required_message : Text
required_message = codes "Authentication is required."

abbrev pub conflict_message : Text
conflict_message = codes "Conflicting authentication credentials were provided."

-- The `except` clauses over `get_user_from_access_token`.
unfoldable pub api_error_of_token : Exn → Exn
api_error_of_token expired_access_token =
    api_error 401 (codes "access_token_expired") (codes "Access token has expired.") []
api_error_of_token invalid_access_token =
    api_error 401 (codes "invalid_access_token") (codes "Invalid access token.") []
api_error_of_token e = e

-- The `except` clause of `_authenticate_api_key`.
unfoldable pub api_error_of_key : Exn → Exn
api_error_of_key invalid_api_key =
    api_error 401 (codes "invalid_api_key") (codes "Invalid API key.") []
api_error_of_key e = e

-- What a request's credentials ask for.
pub data Decision : Type 0 where
  by_token by_api_key : Text → Decision
  refuse : Text → Decision

-- The branches of `get_current_document_user` on the two credentials.
unfoldable pub decide : (credential api_key : Option Text) → Decision
decide none none = refuse required_message
decide none (some key) = by_api_key key
decide (some credential) api_key =
    if is_probable_api_key credential
    then (elim api_key [
      | none ↦ by_api_key credential
      | some key ↦ if text_eq key credential then by_api_key credential else refuse conflict_message
    ])
    else by_token credential

module _ (P : Platform) (C : Crypto) (secret_key : Text) (access_token_ttl_seconds : ℕ) where
  -- `_authenticate_api_key`
  unfoldable pub authenticate_api_key : Text → Exec (World P) UserModel
  authenticate_api_key api_key =
      catch (get_user_from_api_key P C secret_key access_token_ttl_seconds api_key)
        (λ e. raise (api_error_of_key e))

  -- The `try` statement over the token.
  unfoldable pub authenticate_token : Text → Exec (World P) UserModel
  authenticate_token token =
      catch (get_user_from_access_token P C secret_key access_token_ttl_seconds token)
        (λ e. raise (api_error_of_token e))

  -- `get_current_user`
  unfoldable pub get_current_user : Credentials → Exec (World P) UserModel
  unfolding authenticate_token
  get_current_user request = elim (extract_bearer_credential P.unicode_lower request) [
    | none ↦ raise (unauthorized_error required_message)
    | some token ↦ authenticate_token token
  ]

  unfoldable pub authenticate : Decision → Exec (World P) UserModel
  unfolding authenticate_token authenticate_api_key
  authenticate (by_token token) = authenticate_token token
  authenticate (by_api_key key) = authenticate_api_key key
  authenticate (refuse message) = raise (unauthorized_error message)

  -- `get_current_document_user`
  unfoldable pub get_current_document_user : Credentials → Exec (World P) UserModel
  unfolding decide authenticate
  get_current_document_user request =
      authenticate
        (decide (extract_bearer_credential P.unicode_lower request) (extract_api_key request))
