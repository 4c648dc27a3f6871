-- ===== src/System/Accounts.antt =====
-- The operations of `AuthService`, seen through a test of the tables.
use document_agent_api.Common.{
  ℕ, Text, Bool, Option, Exn, user_already_exists, api_key_name_already_exists, Result-cases,
  Option-cases, inl, inr, arith, find,
}
use document_agent_api.Models.{Tables, UserModel, UserApiKeyModel}
use document_agent_api.Platform.{Platform, rows, modify, commit}
use document_agent_api.Platform.Lawful.{Laws}
use document_agent_api.Auth.Security.{Crypto}
use document_agent_api.Auth.Email.{normalize_api_key_name, normalize_email}
use document_agent_api.Auth.Service.{
  is_email_unique_violation, is_api_key_name_unique_violation, commit_unique,
  build_auth_token_response, new_user, register, login, login_found, get_user_from_access_token,
  get_user_from_api_key, new_key, issue_named_key, issue_api_key, revoke_api_key, rename_found,
  rename_api_key,
}
use document_agent_api.Auth.Rows.{
  user_of_email, is_key_of, add_user, add_key, remove_key, rename_key,
}
use document_agent_api.System.Sessions.{
  IsGood-change, IsGood, Keeps, IsGood-modify, IsGood-commit, IsGood-rollback,
}
use document_agent_api.System.Changes.{IsClosed}

module _ {P : Platform} (L : Laws P) (c : Tables → Bool) (K : IsClosed c) (C : Crypto)
    (secret_key : Text) (ttl : ℕ) where
  commit_unique-Keeps :
      (violation : Option Text → Text → Bool) (domain : Exn)
      → Keeps L c (commit_unique P C secret_key ttl violation domain)
  unfolding commit_unique
  commit_unique-Keeps violation domain w g =
      grind
        (arith, IsGood-commit L c w g, IsGood-rollback L c (commit P w).1 (IsGood-commit L c w g))

  pub register-Keeps :
      (email password : Text) → Keeps L c (register P C secret_key ttl email password)
  unfolding register build_auth_token_response
  register-Keeps email password w g =
      let normalized = normalize_email P.unicode_lower email in
      let made = new_user P C secret_key ttl normalized password w in
      let w1 = modify P (add_user made.0) made.1 in
      elim (Option-cases (user_of_email normalized (rows P w).users)) [
        | inr (u, f) ↦ ground (arith, g)
        | inl f ↦
            let added : IsGood L c w1 =
              IsGood-modify L c (add_user made.0) made.1 (K.add_user made.0 (rows P w) f g.0) g in
            let kept =
              commit_unique-Keeps (is_email_unique_violation P.unicode_lower)
                (user_already_exists normalized) w1 added in
            ground (arith, g, kept)
      ]

  pub login-Keeps : (email password : Text) → Keeps L c (login P C secret_key ttl email password)
  unfolding login login_found build_auth_token_response
  login-Keeps email password w g = grind (arith, g)

  pub get_user_from_access_token-Keeps :
      (token : Text) → Keeps L c (get_user_from_access_token P C secret_key ttl token)
  unfolding get_user_from_access_token
  get_user_from_access_token-Keeps token w g = grind (arith, g)

  pub get_user_from_api_key-Keeps :
      (api_key : Text) → Keeps L c (get_user_from_api_key P C secret_key ttl api_key)
  unfolding get_user_from_api_key
  get_user_from_api_key-Keeps api_key w g = grind (arith, g)

  issue_named_key-Keeps :
      (user : UserModel) (name : Text) → Keeps L c (issue_named_key P C secret_key ttl user name)
  unfolding issue_named_key
  issue_named_key-Keeps user name w g =
      let made = new_key P C secret_key ttl user.id name w in
      elim (Result-cases made.0) [
        | inr (e, r) ↦ ground (arith, g)
        | inl ((raw, k), r) ↦
            let w1 = modify P (add_key k) made.1 in
            let added : IsGood L c w1 =
              IsGood-modify L c (add_key k) made.1 (ground (arith, g, K.add_key k (rows P w) g.0))
                (ground (arith, g)) in
            let kept =
              commit_unique-Keeps (is_api_key_name_unique_violation P.unicode_lower)
                (api_key_name_already_exists name) w1 added in
            ground (arith, g, kept)
      ]

  pub issue_api_key-Keeps :
      (user : UserModel) (name : Text) → Keeps L c (issue_api_key P C secret_key ttl user name)
  unfolding issue_api_key
  issue_api_key-Keeps user name w g = elim (Result-cases (normalize_api_key_name name)) [
    | inl (n, r) ↦ ground (arith, g, issue_named_key-Keeps user n w g)
    | inr (e, r) ↦ ground (arith, g)
  ]

  pub revoke_api_key-Keeps :
      (user : UserModel) (id : Text) → Keeps L c (revoke_api_key P C secret_key ttl user id)
  unfolding revoke_api_key
  revoke_api_key-Keeps user id w g =
      elim (Option-cases (find (is_key_of id user.id) (rows P w).api_keys)) [
        | inl f ↦ ground (arith, g)
        | inr (k, f) ↦
            ground
              (arith, IsGood-change L c (remove_key k.id) w (K.remove_key k.id (rows P w) g.0) g)
      ]

  rename_found-Keeps :
      (user : UserModel) (k : UserApiKeyModel) (name : Text)
      → Keeps L c (rename_found P C secret_key ttl user k name)
  unfolding rename_found
  rename_found-Keeps user k name w g =
      let w1 = modify P (rename_key k.id name) w in
      let kept =
        commit_unique-Keeps (is_api_key_name_unique_violation P.unicode_lower)
          (api_key_name_already_exists name) w1
          (IsGood-modify L c (rename_key k.id name) w (K.rename_key k.id name (rows P w) g.0) g) in
      ground (arith, g, kept)

  pub rename_api_key-Keeps :
      (user : UserModel) (id name : Text)
      → Keeps L c (rename_api_key P C secret_key ttl user id name)
  unfolding rename_api_key
  rename_api_key-Keeps user id name w g =
      elim (Option-cases (find (is_key_of id user.id) (rows P w).api_keys)) [
        | inl f ↦ ground (arith, g)
        | inr (k, f) ↦ elim (Result-cases (normalize_api_key_name name)) [
          | inl (n, r) ↦ ground (arith, g, rename_found-Keeps user k n w g)
          | inr (e, r) ↦ ground (arith, g)
        ]
      ]
