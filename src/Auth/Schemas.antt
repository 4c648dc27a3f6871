-- ===== src/Auth/Schemas.antt =====
-- auth/schemas.py, and the rows of auth/service.py as schemas.
use document_agent_api.Common.{ℕ, Text}
use document_agent_api.Models.{UserModel, UserApiKeyModel}
use document_agent_api.Auth.Security.{}

-- `UserProfile`
pub record UserProfile : Type 0 where
  pub id : Text
  pub email : Text
  pub created_at : ℕ
  pub updated_at : ℕ

-- `AuthTokenResponse`
pub record AuthTokenResponse : Type 0 where
  pub access_token : Text
  pub token_type : Text
  pub expires_in : ℕ
  pub user : UserProfile

-- `ApiKeySummary`
pub record ApiKeySummary : Type 0 where
  pub id : Text
  pub name : Text
  pub key_prefix : Text
  pub created_at : ℕ

-- `ApiKeyResponse`
pub record ApiKeyResponse : Type 0 where
  pub api_key : Text
  pub key : ApiKeySummary

-- `_to_user_profile`
abbrev pub to_user_profile : UserModel → UserProfile
to_user_profile user = record {
  id = user.id;
  email = user.email;
  created_at = user.created_at;
  updated_at = user.updated_at;
}

-- `_to_api_key_summary`
abbrev pub to_api_key_summary : UserApiKeyModel → ApiKeySummary
to_api_key_summary api_key = record {
  id = api_key.id;
  name = api_key.name;
  key_prefix = api_key.key_prefix;
  created_at = api_key.created_at;
}
