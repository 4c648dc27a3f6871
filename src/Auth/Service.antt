-- ===== src/Auth/Service.antt =====
-- auth/service.py: users, logins and API keys.
pub mod Accounts
pub mod Ownership
pub mod Keys
use document_agent_api.Auth.Schemas.{
  ApiKeyResponse, ApiKeySummary, AuthTokenResponse, UserProfile, to_api_key_summary,
  to_user_profile,
}
use document_agent_api.Auth.Rows.{
  add_key, add_user, insert_key_desc, is_key_of, is_named, order_keys_desc, remove_key, rename_key,
  rename_keys, user_by_key, user_of_email, user_of_id,
}
use document_agent_api.Common.{
  ℕ, suc, Text, Bytes, codes, text_eq, any, starts_with, Bool, true, not, ◌&&◌, Option, none, some,
  List, [], ◌∷◌, ◌++◌, Result, ok, err, Exn, integrity_error, invalid_email_format,
  user_already_exists, invalid_credentials, invalid_access_token, invalid_api_key,
  api_key_name_already_exists, api_key_not_found, lower, Exec, pure, raise, ◌>>=◌, ◌>>◌, find, keep,
  map, leb, is_some, if◌then◌else◌,
}
use document_agent_api.Models.{UserModel, UserApiKeyModel, Tables}
use document_agent_api.Platform.{Platform, World, rows, modify, commit, rollback, uuid4, utcnow}
use document_agent_api.ParseJobs.{lift}
use document_agent_api.Auth.Security.{
  Crypto, hash_password, verify_password, create_access_token, decode_access_token, create_api_key,
  pbkdf2_salt_bytes, hash_api_key,
}
use document_agent_api.Auth.Email.{is_valid_email, normalize_email, normalize_api_key_name}

-- `token in message`
unfoldable pub has_infix : Text → Text → Bool
has_infix token [] = starts_with [] token
has_infix token (c ∷ s) = if starts_with (c ∷ s) token then true else has_infix token s

-- `_is_email_unique_violation`: by the name of the constraint if the driver gives it, or by the text.
unfoldable pub is_email_unique_violation : (Text → Text) → Option Text → Text → Bool
unfolding has_infix
is_email_unique_violation unicode (some constraint_name) message =
    text_eq (lower unicode constraint_name) (codes "ix_users_email")
is_email_unique_violation unicode none message =
    any (λ token. has_infix token (lower unicode message))
      (codes "ix_users_email" ∷ codes "users.email" ∷ [])

-- `_is_api_key_name_unique_violation`
unfoldable pub is_api_key_name_unique_violation : (Text → Text) → Option Text → Text → Bool
unfolding has_infix
is_api_key_name_unique_violation unicode (some constraint_name) message =
    text_eq (lower unicode constraint_name) (codes "ix_user_api_keys_user_id_name")
is_api_key_name_unique_violation unicode none message =
    any (λ token. has_infix token (lower unicode message))
      (codes "ix_user_api_keys_user_id_name"
        ∷ codes "user_api_keys.user_id"
        ∷ codes "user_api_keys.name"
        ∷ [])

-- What an exception of `commit` becomes: the domain's error for the unique index, or itself.
unfoldable pub translate_integrity : (Option Text → Text → Bool) → Exn → Exn → Exn
translate_integrity is_violation domain_error (integrity_error constraint text) =
    if is_violation constraint text then domain_error else integrity_error constraint text
translate_integrity is_violation domain_error e = e

module _ (P : Platform) (C : Crypto) (secret_key : Text) (access_token_ttl_seconds : ℕ) where
  -- `try: self.session.commit()  except IntegrityError`; any other exception goes out with no rollback.
  unfoldable pub commit_unique : (Option Text → Text → Bool) → Exn → Exec (World P) Unit
  unfolding translate_integrity
  commit_unique is_violation domain_error w =
      let (c, w') = commit P w in
      elim c [
        | ok _ ↦ (ok tt, w')
        | err (integrity_error constraint text) ↦ (
          err (translate_integrity is_violation domain_error (integrity_error constraint text)),
          rollback P w',
        )
        | err e ↦ (err e, w')
      ]

  -- `_build_auth_token_response`
  unfoldable pub build_auth_token_response : UserModel → Exec (World P) AuthTokenResponse
  build_auth_token_response user w =
      let (now, w') = utcnow P w in
      (
        ok (record {
          access_token =
              create_access_token C now user.id user.email secret_key access_token_ttl_seconds;
          token_type = codes "bearer";
          expires_in = access_token_ttl_seconds;
          user = to_user_profile user;
        }),
        w',
      )

  -- A draw of random bytes.
  abbrev random_bytes : World P → (ℕ → Bytes) × World P
  random_bytes w = (C.random w.draws, record w { draws = suc w.draws })

  -- The row that `register` adds.
  abbrev pub new_user : (email password : Text) → World P → UserModel × World P
  new_user email password w =
      let (id, w1) = uuid4 P w in
      let (salt, w2) = random_bytes w1 in
      let (created, w3) = utcnow P w2 in
      let (updated, w4) = utcnow P w3 in
      (
        record {
          id = id;
          email = email;
          password_hash = hash_password C password (salt pbkdf2_salt_bytes);
          created_at = created;
          updated_at = updated;
        },
        w4,
      )

  -- `register`
  unfoldable pub register : (email password : Text) → Exec (World P) AuthTokenResponse
  unfolding commit_unique build_auth_token_response
  register email password w =
      let normalized_email = normalize_email P.unicode_lower email in
      if not (is_valid_email normalized_email)
      then (err (invalid_email_format normalized_email), w)
      else if is_some (user_of_email normalized_email (rows P w).users)
      then (err (user_already_exists normalized_email), w)
      else (let (user, w1) = new_user normalized_email password w in
          (do
            commit_unique (is_email_unique_violation P.unicode_lower)
                (user_already_exists normalized_email)
            build_auth_token_response user)
            (modify P (add_user user) w1))

  -- The password check of `login`.
  unfoldable pub login_found :
      (password : Text) → Option UserModel → Exec (World P) AuthTokenResponse
  unfolding build_auth_token_response
  login_found password none = raise invalid_credentials
  login_found password (some user) = do
    correct ← lift (verify_password C password user.password_hash)
    if correct then build_auth_token_response user else raise invalid_credentials

  -- `login`
  unfoldable pub login : (email password : Text) → Exec (World P) AuthTokenResponse
  unfolding login_found
  login email password w =
      let normalized_email = normalize_email P.unicode_lower email in
      if not (is_valid_email normalized_email)
      then (err invalid_credentials, w)
      else login_found password (user_of_email normalized_email (rows P w).users) w

  abbrev or_raise : {A : Type 0} → Exn → Option A → Exec (World P) A
  or_raise e none = raise e
  or_raise e (some a) = pure a

  -- `get_user_from_access_token`
  unfoldable pub get_user_from_access_token : Text → Exec (World P) UserModel
  get_user_from_access_token token w =
      let (now, w1) = utcnow P w in
      (do
        payload ← lift (decode_access_token C now token secret_key)
        or_raise invalid_access_token (user_of_id payload.user_id (rows P w1).users))
        w1

  -- `get_user_from_api_key`
  unfoldable pub get_user_from_api_key : Text → Exec (World P) UserModel
  unfolding user_by_key
  get_user_from_api_key api_key w =
      (do
        key_hash ← lift (hash_api_key C api_key)
        or_raise invalid_api_key
            (user_by_key (λ k. text_eq k.key_hash key_hash) (rows P w).users (rows P w).api_keys))
        w

  -- `list_api_keys`
  unfoldable pub list_api_keys :
      (first : UserApiKeyModel → UserApiKeyModel → Bool) → UserModel → World P → List ApiKeySummary
  unfolding order_keys_desc
  list_api_keys first user w =
      map to_api_key_summary
        (order_keys_desc first (keep (λ k. text_eq k.user_id user.id) (rows P w).api_keys))

  -- The row that `issue_api_key` adds, with the key itself.
  abbrev pub new_key : (user_id name : Text) → World P → Result (Text × UserApiKeyModel) × World P
  new_key user_id name w =
      let (bytes, w1) = random_bytes w in
      let raw_api_key = (create_api_key C bytes).0 in
      let (id, w2) = uuid4 P w1 in
      let (created, w3) = utcnow P w2 in
      elim (hash_api_key C raw_api_key) [
        | err e ↦ (err e, w3)
        | ok key_hash ↦ (
          ok (
            raw_api_key,
            record {
              id = id;
              user_id = user_id;
              name = name;
              key_hash = key_hash;
              key_prefix = (create_api_key C bytes).1;
              created_at = created;
            },
          ),
          w3,
        )
      ]

  -- `issue_api_key`, for a name that is normalized.
  unfoldable pub issue_named_key : UserModel → Text → Exec (World P) ApiKeyResponse
  unfolding commit_unique
  issue_named_key user name w =
      if is_some (find (is_named user.id name) (rows P w).api_keys)
      then (err (api_key_name_already_exists name), w)
      else (let (made, w1) = new_key user.id name w in
          elim made [
            | err e ↦ (err e, w1)
            | ok (raw_api_key, api_key) ↦
                (do
                  commit_unique (is_api_key_name_unique_violation P.unicode_lower)
                      (api_key_name_already_exists name)
                  pure (record { api_key = raw_api_key; key = to_api_key_summary api_key }))
                  (modify P (add_key api_key) w1)
          ])

  -- `issue_api_key`
  unfoldable pub issue_api_key : UserModel → (name : Text) → Exec (World P) ApiKeyResponse
  unfolding issue_named_key
  issue_api_key user name = do
    normalized_name ← lift (normalize_api_key_name name)
    issue_named_key user normalized_name

  -- The key that `revoke_api_key` and `rename_api_key` look up.
  abbrev pub find_key : UserModel → Text → Exec (World P) UserApiKeyModel
  find_key user api_key_id w =
      or_raise (api_key_not_found api_key_id)
        (find (is_key_of api_key_id user.id) (rows P w).api_keys) w

  -- `revoke_api_key`
  unfoldable pub revoke_api_key : UserModel → Text → Exec (World P) Unit
  revoke_api_key user api_key_id = do
    api_key ← find_key user api_key_id
    λ w. commit P (modify P (remove_key api_key.id) w)

  -- Another key of the user that has the name.
  abbrev pub is_taken : UserModel → Text → Text → UserApiKeyModel → Bool
  is_taken user name own_id k = is_named user.id name k && not (text_eq k.id own_id)

  -- `rename_api_key`, for the key that is found and a name that is normalized.
  unfoldable pub rename_found : UserModel → UserApiKeyModel → Text → Exec (World P) ApiKeySummary
  unfolding commit_unique
  rename_found user api_key name w =
      if text_eq api_key.name name
      then (ok (to_api_key_summary api_key), w)
      else if is_some (find (is_taken user name api_key.id) (rows P w).api_keys)
      then (err (api_key_name_already_exists name), w)
      else (do
        commit_unique (is_api_key_name_unique_violation P.unicode_lower)
            (api_key_name_already_exists name)
        pure (to_api_key_summary (record api_key { name = name })))
          (modify P (rename_key api_key.id name) w)

  -- `rename_api_key`
  unfoldable pub rename_api_key :
      UserModel → (api_key_id name : Text) → Exec (World P) ApiKeySummary
  unfolding rename_found
  rename_api_key user api_key_id name = do
    api_key ← find_key user api_key_id
    normalized_name ← lift (normalize_api_key_name name)
    rename_found user api_key normalized_name
