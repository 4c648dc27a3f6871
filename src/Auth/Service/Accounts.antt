-- ===== src/Auth/Service/Accounts.antt =====
-- `register` and `login` of `AuthService` together.
use document_agent_api.Common.{
  ℕ, suc, Text, text_eq, text_eq_refl, Bool, true, ◌≡◌, refl, ◌∙◌, ap, Option, none, some, List, [],
  ◌∷◌, ◌++◌, ok, err, Exn, user_already_exists, integrity_error, All, Bool-cases, Option-cases,
  Result-cases, inl, inr, arith,
}
use document_agent_api.Common.Utf8.{utf8_encode}
use document_agent_api.Models.{UserModel, Tables}
use document_agent_api.Platform.{Platform, World, rows, saved, modify, commit}
use document_agent_api.Platform.Lawful.{Laws}
use document_agent_api.Auth.Base64.RoundTrip.{IsByte}
use document_agent_api.Auth.Email.{is_valid_email, normalize_email}
use document_agent_api.Auth.Security.{Crypto}
use document_agent_api.Auth.Security.Passwords.{verify_password-hash_password}
use document_agent_api.Auth.Service.{
  is_email_unique_violation, commit_unique, build_auth_token_response, new_user, register,
  login_found, login,
}
use document_agent_api.Auth.Schemas.{AuthTokenResponse, to_user_profile}
use document_agent_api.Auth.Rows.{user_of_email, add_user}

user_of_email-append :
    (email : Text) (users : List UserModel) (user : UserModel)
    → user.email ≡ email
    → user_of_email email users ≡ none
    → user_of_email email (users ++ user ∷ []) ≡ some user
user_of_email-append email [] user e h = ground (arith, text_eq_refl email)
user_of_email-append email (u ∷ users) user e h = elim (Bool-cases (text_eq u.email email)) [
  | inl t ↦ absurd (ground arith)
  | inr t ↦ ground (arith, user_of_email-append email users user e)
]

module _ {P : Platform} (L : Laws P) (C : Crypto) (secret_key : Text) (ttl : ℕ) where
  open L.database use {working-modify, working-commit, committed-commit}

  -- A commit that raised does not return, whatever it is translated to.
  pub commit_unique_raised :
      (violation : Option Text → Text → Bool) (domain x : Exn) (w w' : World P)
      → (commit P w).0 ≡ err x
      → (commit_unique P C secret_key ttl violation domain w) ≡ (ok tt, w')
      → ⊥
  unfolding commit_unique
  commit_unique_raised violation domain (integrity_error c t) w w' r h = ground arith
  commit_unique_raised violation domain _ w w' r h = ground arith

  pub committed_unique :
      (violation : Option Text → Text → Bool) (domain : Exn) (w : World P)
      → (commit P w).0 ≡ ok tt
      → (commit_unique P C secret_key ttl violation domain w).1 ≡ (commit P w).1
  unfolding commit_unique
  committed_unique violation domain w r = ground arith

  -- What `register` has done where it returned.
  registered :
      (email password : Text) (w : World P) (response : AuthTokenResponse) (w1 : World P)
      → register P C secret_key ttl email password w ≡ (ok response, w1)
      → let normalized = normalize_email P.unicode_lower email in
        let user = (new_user P C secret_key ttl normalized password w).0 in
        (is_valid_email normalized ≡ true)
        × (user_of_email normalized (rows P w).users ≡ none)
        × (rows P w1 ≡ add_user user (rows P w))
        × (saved P w1 ≡ add_user user (rows P w))
        × (response.user ≡ to_user_profile user)
  unfolding register build_auth_token_response
  registered email password w response w1 h =
      let normalized = normalize_email P.unicode_lower email in
      let made = new_user P C secret_key ttl normalized password w in
      let w0 = modify P (add_user made.0) made.1 in
      let s = P.database.modify (add_user made.0) w.session in
      elim (Bool-cases (is_valid_email normalized)) [
        | inr v ↦ absurd (ground arith)
        | inl v ↦ elim (Option-cases (user_of_email normalized (rows P w).users)) [
          | inr (u, f) ↦ absurd (ground arith)
          | inl f ↦
              let c =
                commit_unique P C secret_key ttl (is_email_unique_violation P.unicode_lower)
                  (user_already_exists normalized) w0 in
              elim (Result-cases c.0) [
                | inr (x, r) ↦ absurd (ground arith)
                | inl (_, r) ↦ elim (Result-cases (P.database.commit s).0) [
                  | inr (x, k) ↦ absurd (
                      commit_unique_raised (is_email_unique_violation P.unicode_lower)
                        (user_already_exists normalized) x w0 c.1 k (ground arith))
                  | inl (_, k) ↦
                      let same : c.1 ≡ (commit P w0).1 =
                        committed_unique (is_email_unique_violation P.unicode_lower)
                          (user_already_exists normalized) w0 k in
                      (
                        v,
                        f,
                        ground (
                          arith,
                          same,
                          working-commit s,
                          working-modify (add_user made.0) w.session,
                        ),
                        ground (
                          arith,
                          same,
                          committed-commit s,
                          working-modify (add_user made.0) w.session,
                        ),
                        ground arith,
                      )
                ]
              ]
        ]
      ]

  -- The user that `register` made, in what it has done.
  abbrev pub registered_user : (email password : Text) → World P → UserModel
  registered_user email password w =
      (new_user P C secret_key ttl (normalize_email P.unicode_lower email) password w).0

  -- Where `register` returned, the database has one more user than the session had read, and it is
  -- the user of the response. Then `login` with the same email and password gives a token of that
  -- user, and `register` with the same email and any password raises `UserAlreadyExistsError` and
  -- changes nothing. The salt and the derived key are made of bytes.
  pub login-register :
      (email password other_password : Text) (w : World P) (response : AuthTokenResponse)
      (w1 : World P)
      → All IsByte (C.random (suc w.draws) 16)
      → All IsByte (C.pbkdf2 (utf8_encode password) (C.random (suc w.draws) 16) 600000)
      → register P C secret_key ttl email password w ≡ (ok response, w1)
      → let user = registered_user email password w in
        (saved P w1 ≡ add_user user (rows P w))
        × (response.user ≡ to_user_profile user)
        × (login P C secret_key ttl email password w1
            ≡ build_auth_token_response P C secret_key ttl user w1)
        × (register P C secret_key ttl email other_password w1
            ≡ (err (user_already_exists (normalize_email P.unicode_lower email)), w1))
  unfolding register login login_found
  login-register email password other_password w response w1 salt key h =
      let normalized = normalize_email P.unicode_lower email in
      let user = registered_user email password w in
      let done = registered email password w response w1 h in
      let found : user_of_email normalized (rows P w1).users ≡ some user =
        ap (λ (t : Tables). user_of_email normalized t.users) done.2
        ∙ user_of_email-append normalized (rows P w).users user refl done.1 in
      let verified =
        verify_password-hash_password C password password (C.random (suc w.draws) 16) salt key in
      let equal =
        text_eq_refl (C.pbkdf2 (utf8_encode password) (C.random (suc w.draws) 16) 600000) in
      (
        done.3,
        done.4,
        ground (arith, done.0, found, verified, equal),
        ground (arith, done.0, found),
      )
