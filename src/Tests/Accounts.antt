-- ===== src/Tests/Accounts.antt =====
-- The theorems on accounts and keys, at the first user.
use document_agent_api.Common.{
  ℕ, zero, suc, ap, Text, true, length, ◌++◌, codes, starts_with, text_eq, ok, invalid_api_key, ◌≡◌,
  refl, err, [], user_already_exists, arith, api_key_not_found, split_on, lower, strip,
}
use document_agent_api.Auth.Security.KeyBounds.{create_api_key_bounds}
use document_agent_api.Documents.Reading.{drop}
use document_agent_api.Platform.{World, rows, saved, modify}
use document_agent_api.Common.Utf8.{utf8_encode}
use document_agent_api.Auth.Security.{
  is_probable_api_key, create_access_token, create_api_key, hash_api_key, normalize_api_key,
}
use document_agent_api.Auth.Base64.{base64url_encode, char_of}
use document_agent_api.Auth.Email.{normalize_email, is_valid_email, normalize_api_key_name}
use document_agent_api.Auth.Service.{
  issue_api_key, get_user_from_api_key, revoke_api_key, rename_api_key, register, login,
  build_auth_token_response, commit_unique,
}
use document_agent_api.Auth.Schemas.{
  ApiKeyResponse, to_api_key_summary, AuthTokenResponse, to_user_profile,
}
use document_agent_api.Auth.Rows.{add_user, add_key}
use document_agent_api.Auth.Service.Accounts.{registered_user, login-register}
use document_agent_api.Auth.Service.Ownership.{foreign_key_hidden}
use document_agent_api.Auth.Service.Keys.{issue-use-revoke}
use document_agent_api.Models.{UserModel, UserApiKeyModel}
use document_agent_api.Tests.Fixture.{memory, laws, world, nth_id}
use document_agent_api.Tests.Texts.{crypto, repeated}

abbrev email : Text
email = codes "c@d.e"

abbrev password : Text
password = codes "secret"

abbrev key : Text
key = codes "key"

abbrev response : AuthTokenResponse
response = record {
  access_token =
      create_access_token crypto 4 (nth_id 0) (normalize_email memory.unicode_lower email) key 600;
  token_type = codes "bearer";
  expires_in = 600;
  user = to_user_profile (registered_user laws crypto key 600 email password world);
}

abbrev after : World memory
after = (register memory crypto key 600 email password world).1

login-register_example :
    let user = registered_user laws crypto key 600 email password world in
    (saved memory after ≡ add_user user (rows memory world))
    × (response.user ≡ to_user_profile user)
    × (login memory crypto key 600 email password after
        ≡ build_auth_token_response memory crypto key 600 user after)
    × (register memory crypto key 600 email (codes "other") after
        ≡ (err (user_already_exists (normalize_email memory.unicode_lower email)), after))
unfolding crypto register commit_unique build_auth_token_response is_valid_email normalize_email
    split_on lower strip repeated
login-register_example =
    login-register laws crypto key 600 email password (codes "other") world response after
      (omega arith) (omega arith) refl

abbrev user_two : UserModel
user_two = record {
  id = codes "u2";
  email = email;
  password_hash = [];
  created_at = 1;
  updated_at = 1;
}

abbrev key_one : UserApiKeyModel
key_one = record {
  id = codes "k1";
  user_id = codes "u1";
  name = codes "laptop";
  key_hash = [];
  key_prefix = [];
  created_at = 1;
}

-- The key belongs to "u1".
abbrev world_with_key : World memory
world_with_key = modify memory (add_key key_one) world

foreign_key_hidden_example :
    (revoke_api_key memory crypto key 600 user_two (codes "k1") world_with_key
      ≡ (err (api_key_not_found (codes "k1")), world_with_key))
    × (rename_api_key memory crypto key 600 user_two (codes "k1") (codes "mine") world_with_key
        ≡ (err (api_key_not_found (codes "k1")), world_with_key))
foreign_key_hidden_example =
    foreign_key_hidden memory crypto key 600 user_two (codes "k1") (codes "mine") world_with_key
      ((λ _ e. ground (arith, e)), tt)

-- The world with the user "u2", and the row of the first key that is issued there.
abbrev world_with_user : World memory
world_with_user = modify memory (add_user user_two) world

abbrev issued_key : UserApiKeyModel
issued_key = record {
  id = nth_id 1;
  user_id = codes "u2";
  name = codes "laptop";
  key_hash = utf8_encode (create_api_key crypto (crypto.random 0)).0;
  key_prefix = (create_api_key crypto (crypto.random 0)).1;
  created_at = 2;
}

abbrev key_response : ApiKeyResponse
key_response = record {
  api_key = (create_api_key crypto (crypto.random 0)).0;
  key = to_api_key_summary issued_key;
}

abbrev world_issued : World memory
world_issued = (issue_api_key memory crypto key 600 user_two (codes "laptop") world_with_user).1

abbrev world_revoked : World memory
world_revoked = (revoke_api_key memory crypto key 600 user_two (nth_id 1) world_issued).1

issue-use-revoke_example :
    (get_user_from_api_key memory crypto key 600 key_response.api_key world_issued
      ≡ (ok user_two, world_issued))
    × (get_user_from_api_key memory crypto key 600 key_response.api_key world_revoked
        ≡ (err invalid_api_key, world_revoked))
unfolding crypto issue_api_key revoke_api_key commit_unique strip hash_api_key create_api_key
    text_eq normalize_api_key_name normalize_api_key starts_with base64url_encode char_of nth_id
    repeated
issue-use-revoke_example =
    issue-use-revoke laws crypto key 600 user_two (codes "laptop") issued_key.key_hash
      world_with_user world_issued world_revoked key_response refl refl refl refl refl

length-repeated : (b n : ℕ) → length (repeated n b) ≡ n
unfolding repeated
length-repeated b zero = refl
length-repeated b (suc n) = ap suc (length-repeated b n)

create_api_key_bounds_example :
    let (raw_api_key, shown) = create_api_key crypto (λ n. repeated n 255) in
    (length raw_api_key ≡ 48)
    × (is_probable_api_key raw_api_key ≡ true)
    × (length shown ≡ 17)
    × (shown ++ drop 17 raw_api_key ≡ raw_api_key)
    × (length (drop 17 raw_api_key) ≡ 31)
create_api_key_bounds_example =
    create_api_key_bounds crypto (λ n. repeated n 255) (length-repeated 255)
