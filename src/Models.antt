-- ===== src/Models.antt =====
-- The rows of the database (auth/models.py, documents/models.py, parse_jobs/models.py) and the
-- JSON values that the rows, the stored results and the queue's messages hold. A time is the
-- number of its microsecond; an id is the text of its UUID.
use document_agent_api.Common.{
  ℕ, Bool, Text, Bytes, text_eq, Option, none, some, List, if◌then◌else◌,
}

-- `negative n` is the integer -(n + 1); a number that is no integer keeps its text, and is not zero.
mutual
  pub data Json : Type 0 where
    null : Json
    bool : Bool → Json
    int : ℕ → Json
    negative : ℕ → Json
    number : Text → Json
    str : Text → Json
    arr : Items → Json
    obj : Fields → Json

  pub data Items : Type 0 where
    nil : Items
    cons : Json → Items → Items

  pub data Fields : Type 0 where
    end : Fields
    field : Text → Json → Fields → Fields

-- `d.get(name)`
unfoldable pub get_field : Text → Fields → Option Json
get_field name end = none
get_field name (field key value rest) = if text_eq key name then some value else get_field name rest

-- `UserModel`
pub record UserModel : Type 0 where
  pub id : Text
  pub email : Text
  pub password_hash : Text
  pub created_at : ℕ
  pub updated_at : ℕ

-- `UserApiKeyModel`
pub record UserApiKeyModel : Type 0 where
  pub id : Text
  pub user_id : Text
  pub name : Text
  pub key_hash : Text
  pub key_prefix : Text
  pub created_at : ℕ

-- `DocumentResultModel`
pub record DocumentResultModel : Type 0 where
  pub document_id : Text
  pub markdown : Option Text
  pub canonical_json : Option Json
  pub markdown_object_key : Option Text
  pub canonical_json_object_key : Option Text

-- `DocumentModel`, with the row that its relationship `result` reaches.
pub record DocumentModel : Type 0 where
  pub id : Text
  pub owner_user_id : Option Text
  pub source_object_key : Option Text
  pub filename : Text
  pub content_type : Text
  pub file_data : Option Bytes
  pub created_at : ℕ
  pub updated_at : ℕ
  pub result : Option DocumentResultModel

-- The values of the column `status` (`ParseJobStatus`).
pub data JobStatus : Type 0 where
  queued processing succeeded failed : JobStatus

-- `ParseJobModel`
pub record ParseJobModel : Type 0 where
  pub id : Text
  pub owner_user_id : Option Text
  pub source_object_key : Text
  pub filename : Text
  pub content_type : Text
  pub parser_backend : Text
  pub status : JobStatus
  pub document_id : Option Text
  pub error_code : Option Text
  pub error_message : Option Text
  pub created_at : ℕ
  pub updated_at : ℕ
  pub started_at : Option ℕ
  pub finished_at : Option ℕ

pub record Tables : Type 0 where
  pub users : List UserModel
  pub api_keys : List UserApiKeyModel
  pub documents : List DocumentModel
  pub parse_jobs : List ParseJobModel
