-- ===== src/Auth/Rows.antt =====
-- Queries and changes of the rows of users and API keys in auth/service.py.
use document_agent_api.Common.{
  ltb, ◌==◌, ◌||◌, Text, text_eq, any, Bool, not, ◌&&◌, Option, List, [], ◌∷◌, ◌++◌, find, keep,
  if◌then◌else◌,
}
use document_agent_api.Models.{UserModel, UserApiKeyModel, Tables}

-- `UserModel.email == email`
abbrev pub user_of_email : Text → List UserModel → Option UserModel
user_of_email email = find (λ u. text_eq u.email email)

-- `self.session.get(UserModel, id)`
abbrev pub user_of_id : Text → List UserModel → Option UserModel
user_of_id id = find (λ u. text_eq u.id id)

-- `UserApiKeyModel.user_id == user_id, UserApiKeyModel.name == name`
abbrev pub is_named : Text → Text → UserApiKeyModel → Bool
is_named user_id name k = text_eq k.user_id user_id && text_eq k.name name

-- `UserApiKeyModel.id == id, UserApiKeyModel.user_id == user_id`
abbrev pub is_key_of : Text → Text → UserApiKeyModel → Bool
is_key_of id user_id k = text_eq k.id id && text_eq k.user_id user_id

-- The first user that has a key which passes: the join of users and keys, in the order of the users.
unfoldable pub user_by_key :
    (UserApiKeyModel → Bool) → List UserModel → List UserApiKeyModel → Option UserModel
user_by_key p users keys = find (λ u. any (λ k. text_eq k.user_id u.id && p k) keys) users

-- `order_by(created_at.desc())`. The order of keys of one time is left to the database: `first k j`
-- tells that it puts k before j.
unfoldable pub insert_key_desc :
    (first : UserApiKeyModel → UserApiKeyModel → Bool)
    → UserApiKeyModel
    → List UserApiKeyModel
    → List UserApiKeyModel
insert_key_desc first k [] = k ∷ []
insert_key_desc first k (j ∷ rest) =
    if ltb j.created_at k.created_at || (j.created_at == k.created_at && first k j)
    then k ∷ j ∷ rest
    else j ∷ insert_key_desc first k rest

unfoldable pub order_keys_desc :
    (first : UserApiKeyModel → UserApiKeyModel → Bool) → List UserApiKeyModel → List UserApiKeyModel
unfolding insert_key_desc
order_keys_desc first [] = []
order_keys_desc first (k ∷ rest) = insert_key_desc first k (order_keys_desc first rest)

abbrev pub add_user : UserModel → Tables → Tables
add_user user t = record t { users = t.users ++ user ∷ [] }

abbrev pub add_key : UserApiKeyModel → Tables → Tables
add_key key t = record t { api_keys = t.api_keys ++ key ∷ [] }

-- `self.session.delete(api_key)`
abbrev pub remove_key : Text → Tables → Tables
remove_key id t = record t { api_keys = keep (λ k. not (text_eq k.id id)) t.api_keys }

unfoldable pub rename_keys : Text → Text → List UserApiKeyModel → List UserApiKeyModel
rename_keys id name [] = []
rename_keys id name (k ∷ keys) =
    (if text_eq k.id id then record k { name = name } else k) ∷ rename_keys id name keys

-- `api_key.name = name`
abbrev pub rename_key : Text → Text → Tables → Tables
rename_key id name t = record t { api_keys = rename_keys id name t.api_keys }
