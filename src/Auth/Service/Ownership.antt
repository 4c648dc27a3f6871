-- ===== src/Auth/Service/Ownership.antt =====
-- API keys of other users, in `AuthService`.
use document_agent_api.Common.{
  ℕ, Text, text_eq_iff, ◌≡◌, ◌≢◌, refl, none, List, [], ◌∷◌, err, api_key_not_found, find, All,
  Bool-cases, inl, inr, arith,
}
use document_agent_api.Models.{UserModel, UserApiKeyModel}
use document_agent_api.Platform.{Platform, World, rows}
use document_agent_api.Auth.Security.{Crypto}
use document_agent_api.Auth.Service.{revoke_api_key, rename_api_key}
use document_agent_api.Auth.Rows.{is_key_of}

-- No key of the id belongs to the user.
abbrev pub IsForeignKey : (api_key_id user_id : Text) → List UserApiKeyModel → Type 0
IsForeignKey api_key_id user_id =
    All (λ (k : UserApiKeyModel). k.id ≡ api_key_id → k.user_id ≢ user_id)

no_key :
    (api_key_id user_id : Text) (keys : List UserApiKeyModel)
    → IsForeignKey api_key_id user_id keys
    → find (is_key_of api_key_id user_id) keys ≡ none
no_key api_key_id user_id [] h = refl
no_key api_key_id user_id (k ∷ keys) (h, hs) = elim (Bool-cases (is_key_of api_key_id user_id k)) [
  | inl e ↦ absurd (
      h (ground (arith, text_eq_iff k.id api_key_id))
        (ground (arith, text_eq_iff k.user_id user_id)))
  | inr e ↦ ground (arith, no_key api_key_id user_id keys hs)
]

module _ (P : Platform) (C : Crypto) (secret_key : Text) (ttl : ℕ) where
  -- For a user to whom no API key of the id belongs, revoking and renaming it raise
  -- `ApiKeyNotFoundError` and change nothing, whether or not another user has such a key and whatever
  -- the new name is.
  pub foreign_key_hidden :
      (user : UserModel) (api_key_id name : Text) (w : World P)
      → IsForeignKey api_key_id user.id (rows P w).api_keys
      → (revoke_api_key P C secret_key ttl user api_key_id w
          ≡ (err (api_key_not_found api_key_id), w))
        × (rename_api_key P C secret_key ttl user api_key_id name w
            ≡ (err (api_key_not_found api_key_id), w))
  unfolding revoke_api_key rename_api_key
  foreign_key_hidden user api_key_id name w h =
      let f = no_key api_key_id user.id (rows P w).api_keys h in
      (ground (arith, f), ground (arith, f))
