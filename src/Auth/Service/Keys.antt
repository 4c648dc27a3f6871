-- ===== src/Auth/Service/Keys.antt =====
-- Issuing, using and revoking an API key, in `AuthService`.
use document_agent_api.Common.{
  ℕ, suc, Text, text_eq, text_eq_iff, text_eq_refl, Bool, true, false, not, ◌&&◌, ◌≡◌, refl, none,
  some, is_some, List, [], ◌∷◌, ◌++◌, ok, err, invalid_api_key, api_key_name_already_exists, any,
  find, keep, Bool-cases, Option-cases, Result-cases, inl, inr, arith,
}
use document_agent_api.Models.{UserModel, UserApiKeyModel}
use document_agent_api.Platform.{Platform, World, rows, modify, commit}
use document_agent_api.Platform.Lawful.{Laws}
use document_agent_api.Auth.Email.{normalize_api_key_name}
use document_agent_api.Auth.Security.{Crypto, create_api_key, hash_api_key}
use document_agent_api.Auth.Service.{
  is_api_key_name_unique_violation, commit_unique, issue_named_key, issue_api_key,
  get_user_from_api_key, revoke_api_key,
}
use document_agent_api.Auth.Schemas.{ApiKeyResponse}
use document_agent_api.Auth.Rows.{is_named, is_key_of, user_by_key, add_key, remove_key}
use document_agent_api.Auth.Service.Accounts.{commit_unique_raised, committed_unique}

find-holds : {A : Type 0} (p : A → Bool) (xs : List A) (a : A) → find p xs ≡ some a → p a ≡ true
find-holds p [] a h = absurd (ground arith)
find-holds p (x ∷ xs) a h = elim (Bool-cases (p x)) [
  | inl e ↦ ground arith
  | inr e ↦ find-holds p xs a (ground arith)
]

module _ (p : UserApiKeyModel → Bool) where
  any-owner :
      (user_id : Text) (keys : List UserApiKeyModel) (key : UserApiKeyModel)
      → any p keys ≡ false
      → p key ≡ true
      → any (λ k. text_eq k.user_id user_id && p k) (keys ++ key ∷ []) ≡ text_eq key.user_id user_id
  any-owner user_id [] key n h = ground arith
  any-owner user_id (k ∷ keys) key n h = ground (arith, any-owner user_id keys key)

  any-none :
      (user_id : Text) (keys : List UserApiKeyModel)
      → any p keys ≡ false
      → any (λ k. text_eq k.user_id user_id && p k) keys ≡ false
  any-none user_id [] n = refl
  any-none user_id (k ∷ keys) n = ground (arith, any-none user_id keys)

  -- The only key that passes the test leads to its owner.
  user_by_key-append :
      (users : List UserModel) (keys : List UserApiKeyModel) (key : UserApiKeyModel)
      → any p keys ≡ false
      → p key ≡ true
      → user_by_key p users (keys ++ key ∷ []) ≡ find (λ u. text_eq key.user_id u.id) users
  unfolding user_by_key
  user_by_key-append [] keys key n h = refl
  user_by_key-append (u ∷ users) keys key n h =
      ground (arith, any-owner u.id keys key n h, user_by_key-append users keys key n h)

  user_by_key-none :
      (users : List UserModel) (keys : List UserApiKeyModel)
      → any p keys ≡ false
      → user_by_key p users keys ≡ none
  unfolding user_by_key
  user_by_key-none [] keys n = refl
  user_by_key-none (u ∷ users) keys n =
      ground (arith, any-none u.id keys n, user_by_key-none users keys n)

  any-removed :
      (id : Text) (keys : List UserApiKeyModel) (key : UserApiKeyModel)
      → any p keys ≡ false
      → text_eq key.id id ≡ true
      → any p (keep (λ k. not (text_eq k.id id)) (keys ++ key ∷ [])) ≡ false
  any-removed id [] key n e = ground arith
  any-removed id (k ∷ keys) key n e = ground (arith, any-removed id keys key)

module _ {P : Platform} (L : Laws P) (C : Crypto) (secret_key : Text) (ttl : ℕ) where
  open L.database use {working-modify, working-commit, committed-commit}

  -- What `issue_api_key` has done where it returned.
  abbrev IsIssued : UserModel → World P → ApiKeyResponse → World P → Type 0
  IsIssued user w response w1 =
      (key : UserApiKeyModel) × (hash_api_key C response.api_key ≡ ok key.key_hash)
      × (response.api_key ≡ (create_api_key C (C.random w.draws)).0)
      × (key.user_id ≡ user.id)
      × (response.key.id ≡ key.id)
      × (rows P w1 ≡ add_key key (rows P w))

  issue_named_key-IsIssued :
      (user : UserModel) (name : Text) (w : World P) (response : ApiKeyResponse) (w1 : World P)
      → issue_named_key P C secret_key ttl user name w ≡ (ok response, w1)
      → IsIssued user w response w1
  unfolding issue_named_key
  issue_named_key-IsIssued user name w response w1 h =
      let raw = (create_api_key C (C.random w.draws)).0 in
      elim (Bool-cases (is_some (find (is_named user.id name) (rows P w).api_keys))) [
        | inl t ↦ absurd (ground arith)
        | inr t ↦ elim (Result-cases (hash_api_key C raw)) [
          | inr (e, r) ↦ absurd (ground arith)
          | inl (hash, r) ↦
              let key : UserApiKeyModel = record {
                id = P.uuid4 (suc w.draws);
                user_id = user.id;
                name = name;
                key_hash = hash;
                key_prefix = (create_api_key C (C.random w.draws)).1;
                created_at = P.utcnow (suc (suc w.draws));
              } in
              let w0 : World P = record (modify P (add_key key) w) {
                draws = suc (suc (suc w.draws));
              } in
              let s = P.database.modify (add_key key) w.session in
              let violation = is_api_key_name_unique_violation P.unicode_lower in
              let c =
                commit_unique P C secret_key ttl violation (api_key_name_already_exists name) w0 in
              elim (Result-cases c.0) [
                | inr (x, q) ↦ absurd (ground arith)
                | inl (_, q) ↦ elim (Result-cases (P.database.commit s).0) [
                  | inr (x, k) ↦ absurd (
                      commit_unique_raised L C secret_key ttl violation
                        (api_key_name_already_exists name) x w0 c.1 k (ground arith))
                  | inl (_, k) ↦
                      let same : c.1 ≡ (commit P w0).1 =
                        committed_unique L C secret_key ttl violation
                          (api_key_name_already_exists name) w0 k in
                      (
                        key,
                        ground arith,
                        ground arith,
                        refl,
                        ground arith,
                        ground
                            (arith, same, working-commit s, working-modify (add_key key) w.session),
                      )
                ]
              ]
        ]
      ]

  issue_api_key-IsIssued :
      (user : UserModel) (name : Text) (w : World P) (response : ApiKeyResponse) (w1 : World P)
      → issue_api_key P C secret_key ttl user name w ≡ (ok response, w1)
      → IsIssued user w response w1
  unfolding issue_api_key
  issue_api_key-IsIssued user name w response w1 h =
      elim (Result-cases (normalize_api_key_name name)) [
        | inr (e, n) ↦ absurd (ground arith)
        | inl (normalized, n) ↦
            issue_named_key-IsIssued user normalized w response w1 (ground arith)
      ]

  revoked :
      (user : UserModel) (id : Text) (w w1 : World P)
      → revoke_api_key P C secret_key ttl user id w ≡ (ok tt, w1)
      → rows P w1 ≡ remove_key id (rows P w)
  unfolding revoke_api_key
  revoked user id w w1 h = elim (Option-cases (find (is_key_of id user.id) (rows P w).api_keys)) [
    | inl n ↦ absurd (ground arith)
    | inr (key, f) ↦
        let found = find-holds (is_key_of id user.id) (rows P w).api_keys key f in
        let s = P.database.modify (remove_key key.id) w.session in
        let same : key.id ≡ id = (text_eq_iff key.id id).0 (ground (arith, found)) in
        ground (arith, same, f, working-commit s, working-modify (remove_key key.id) w.session)
  ]

  -- An API key lives from its issue to its revocation. Where `issue_api_key` returned for a user that
  -- the session finds by its id, and no stored key has the digest of the key that was drawn, the key
  -- of the response authenticates as that user; after `revoke_api_key` returned for it, it raises
  -- `InvalidApiKeyError`. Neither check changes anything.
  pub issue-use-revoke :
      (user : UserModel) (name hash : Text) (w w1 w2 : World P) (response : ApiKeyResponse)
      → issue_api_key P C secret_key ttl user name w ≡ (ok response, w1)
      → revoke_api_key P C secret_key ttl user response.key.id w1 ≡ (ok tt, w2)
      → hash_api_key C (create_api_key C (C.random w.draws)).0 ≡ ok hash
      → any (λ k. text_eq k.key_hash hash) (rows P w).api_keys ≡ false
      → find (λ u. text_eq user.id u.id) (rows P w).users ≡ some user
      → (get_user_from_api_key P C secret_key ttl response.api_key w1 ≡ (ok user, w1))
        × (get_user_from_api_key P C secret_key ttl response.api_key w2 ≡ (err invalid_api_key, w2))
  unfolding get_user_from_api_key
  issue-use-revoke user name hash w w1 w2 response h v d n f =
      let (key, digest, raw, owner, id, added) = issue_api_key-IsIssued user name w response w1 h in
      let removed = revoked user response.key.id w1 w2 v in
      let stored : key.key_hash ≡ hash = ground (arith, digest, raw, d) in
      let p : UserApiKeyModel → Bool = λ k. text_eq k.key_hash hash in
      let own : text_eq key.key_hash hash ≡ true = ground (arith, stored, text_eq_refl hash) in
      let found = user_by_key-append p (rows P w).users (rows P w).api_keys key n own in
      let gone =
        user_by_key-none p (rows P w).users
          (keep (λ k. not (text_eq k.id response.key.id)) ((rows P w).api_keys ++ key ∷ []))
          (any-removed p response.key.id (rows P w).api_keys key n
            (ground (arith, id, text_eq_refl key.id))) in
      (
        ground (arith, digest, stored, added, owner, found, f),
        ground (arith, digest, stored, removed, added, gone),
      )
