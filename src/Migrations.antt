-- ===== src/Migrations.antt =====
-- The Alembic scripts under migrations/versions: what each does to the schema, in order.
pub mod Undoing
pub mod Payloads
use document_agent_api.Common.{ℕ, Text, codes, Bool, true, false, Option, none, some, List, [], ◌∷◌}

-- SQLAlchemy's types of columns.
pub data ColumnType : Type 0 where
  string : (length : ℕ) → ColumnType
  text date_time json large_binary : ColumnType

-- `sa.ForeignKey("table.column", ondelete=…)`
pub record ForeignKey : Type 0 where
  pub target : Text
  pub ondelete : Text

-- `sa.Column`; a primary key is not nullable.
pub record Column : Type 0 where
  pub name : Text
  pub kind : ColumnType
  pub nullable : Bool
  pub primary_key : Bool
  pub foreign_key : Option ForeignKey
  pub server_default : Option Text

-- The functions of `alembic.op` that the scripts call, with the table of a `batch_op` written out.
pub data Operation : Type 0 where
  create_table : (table : Text) → List Column → Operation
  drop_table : (table : Text) → Operation
  add_column : (table : Text) → Column → Operation
  drop_column : (table column : Text) → Operation
  alter_nullable : (table column : Text) → (nullable : Bool) → Operation
  alter_server_default : (table column : Text) → (server_default : Option Text) → Operation
  create_index : (name table : Text) → (columns : List Text) → (unique : Bool) → Operation
  drop_index : (name table : Text) → Operation
  create_foreign_key :
      (name table referent : Text)
      → (columns referent_columns : List Text) → (ondelete : Text) → Operation
  drop_constraint : (name table : Text) → Operation

abbrev column : (name : Text) → ColumnType → (nullable : Bool) → Column
column name kind nullable = record {
  name = name;
  kind = kind;
  nullable = nullable;
  primary_key = false;
  foreign_key = none;
  server_default = none;
}

abbrev primary : Text → ColumnType → Column
primary name kind = record (column name kind false) { primary_key = true }

abbrev referring : Column → (target ondelete : Text) → Column
referring c target ondelete = record c {
  foreign_key = some (record { target = target; ondelete = ondelete });
}

abbrev uuid_length : ColumnType
uuid_length = string 36

abbrev documents : Text
documents = codes "documents"

abbrev document_results : Text
document_results = codes "document_results"

abbrev users : Text
users = codes "users"

abbrev user_api_keys : Text
user_api_keys = codes "user_api_keys"

abbrev parse_jobs : Text
parse_jobs = codes "parse_jobs"

abbrev pub upgrade_0001 : List Operation
upgrade_0001 =
    create_table documents (
      primary (codes "id") uuid_length
      ∷ column (codes "filename") (string 255) false
      ∷ column (codes "content_type") (string 255) false
      ∷ column (codes "created_at") date_time false
      ∷ column (codes "updated_at") date_time false
      ∷ [])
    ∷ create_index (codes "ix_documents_created_at") documents (codes "created_at" ∷ []) false
    ∷ create_index (codes "ix_documents_filename") documents (codes "filename" ∷ []) false
    ∷ create_table document_results (
        referring (primary (codes "document_id") uuid_length) (codes "documents.id")
          (codes "CASCADE")
        ∷ column (codes "markdown") text false
        ∷ column (codes "canonical_json") json false
        ∷ column (codes "created_at") date_time false
        ∷ column (codes "updated_at") date_time false
        ∷ [])
    ∷ []

abbrev pub downgrade_0001 : List Operation
downgrade_0001 =
    drop_table document_results
    ∷ drop_index (codes "ix_documents_filename") documents
    ∷ drop_index (codes "ix_documents_created_at") documents
    ∷ drop_table documents
    ∷ []

abbrev pub upgrade_0002 : List Operation
upgrade_0002 = add_column documents (column (codes "file_data") large_binary true) ∷ []

abbrev pub downgrade_0002 : List Operation
downgrade_0002 = drop_column documents (codes "file_data") ∷ []

abbrev pub upgrade_0003 : List Operation
upgrade_0003 =
    create_table users (
      primary (codes "id") uuid_length
      ∷ column (codes "email") (string 320) false
      ∷ column (codes "password_hash") (string 255) false
      ∷ column (codes "created_at") date_time false
      ∷ column (codes "updated_at") date_time false
      ∷ [])
    ∷ create_index (codes "ix_users_email") users (codes "email" ∷ []) true
    ∷ add_column documents (column (codes "owner_user_id") uuid_length true)
    ∷ create_index (codes "ix_documents_owner_user_id") documents (codes "owner_user_id" ∷ []) false
    ∷ create_foreign_key (codes "fk_documents_owner_user_id_users") documents users
        (codes "owner_user_id" ∷ []) (codes "id" ∷ []) (codes "SET NULL")
    ∷ []

abbrev pub downgrade_0003 : List Operation
downgrade_0003 =
    drop_constraint (codes "fk_documents_owner_user_id_users") documents
    ∷ drop_index (codes "ix_documents_owner_user_id") documents
    ∷ drop_column documents (codes "owner_user_id")
    ∷ drop_index (codes "ix_users_email") users
    ∷ drop_table users
    ∷ []

abbrev pub upgrade_0004 : List Operation
upgrade_0004 =
    add_column documents (column (codes "source_object_key") (string 512) true)
    ∷ alter_nullable document_results (codes "markdown") true
    ∷ alter_nullable document_results (codes "canonical_json") true
    ∷ add_column document_results (column (codes "markdown_object_key") (string 512) true)
    ∷ add_column document_results (column (codes "canonical_json_object_key") (string 512) true)
    ∷ []

-- After its guards, which are in `Payloads`.
abbrev pub downgrade_0004 : List Operation
downgrade_0004 =
    drop_column document_results (codes "canonical_json_object_key")
    ∷ drop_column document_results (codes "markdown_object_key")
    ∷ alter_nullable document_results (codes "canonical_json") false
    ∷ alter_nullable document_results (codes "markdown") false
    ∷ drop_column documents (codes "source_object_key")
    ∷ []

abbrev pub upgrade_0005 : List Operation
upgrade_0005 =
    create_table user_api_keys (
      primary (codes "id") uuid_length
      ∷ referring (column (codes "user_id") uuid_length false) (codes "users.id") (codes "CASCADE")
      ∷ column (codes "name") (string 100) false
      ∷ column (codes "key_hash") (string 64) false
      ∷ column (codes "key_prefix") (string 32) false
      ∷ column (codes "created_at") date_time false
      ∷ [])
    ∷ create_index (codes "ix_user_api_keys_user_id") user_api_keys (codes "user_id" ∷ []) false
    ∷ create_index (codes "ix_user_api_keys_key_hash") user_api_keys (codes "key_hash" ∷ []) true
    ∷ create_index (codes "ix_user_api_keys_user_id_name") user_api_keys
        (codes "user_id" ∷ codes "name" ∷ []) true
    ∷ []

abbrev pub downgrade_0005 : List Operation
downgrade_0005 =
    drop_index (codes "ix_user_api_keys_user_id_name") user_api_keys
    ∷ drop_index (codes "ix_user_api_keys_key_hash") user_api_keys
    ∷ drop_index (codes "ix_user_api_keys_user_id") user_api_keys
    ∷ drop_table user_api_keys
    ∷ []

abbrev pub upgrade_0006 : List Operation
upgrade_0006 =
    create_table parse_jobs (
      primary (codes "id") uuid_length
      ∷ referring (column (codes "owner_user_id") uuid_length true) (codes "users.id")
          (codes "SET NULL")
      ∷ column (codes "source_object_key") (string 512) false
      ∷ column (codes "filename") (string 255) false
      ∷ column (codes "content_type") (string 255) false
      ∷ column (codes "status") (string 32) false
      ∷ referring (column (codes "document_id") uuid_length true) (codes "documents.id")
          (codes "SET NULL")
      ∷ column (codes "error_code") (string 100) true
      ∷ column (codes "error_message") text true
      ∷ column (codes "created_at") date_time false
      ∷ column (codes "updated_at") date_time false
      ∷ column (codes "started_at") date_time true
      ∷ column (codes "finished_at") date_time true
      ∷ [])
    ∷ create_index (codes "ix_parse_jobs_owner_user_id") parse_jobs (codes "owner_user_id" ∷ [])
        false
    ∷ create_index (codes "ix_parse_jobs_status") parse_jobs (codes "status" ∷ []) false
    ∷ []

abbrev pub downgrade_0006 : List Operation
downgrade_0006 =
    drop_index (codes "ix_parse_jobs_status") parse_jobs
    ∷ drop_index (codes "ix_parse_jobs_owner_user_id") parse_jobs
    ∷ drop_table parse_jobs
    ∷ []

abbrev pub upgrade_0007 : List Operation
upgrade_0007 =
    add_column parse_jobs (record (column (codes "parser_backend") (string 32) false) {
      server_default = some (codes "markitdown");
    })
    ∷ alter_server_default parse_jobs (codes "parser_backend") none
    ∷ []

abbrev pub downgrade_0007 : List Operation
downgrade_0007 = drop_column parse_jobs (codes "parser_backend") ∷ []
