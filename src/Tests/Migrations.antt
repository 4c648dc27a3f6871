-- ===== src/Tests/Migrations.antt =====
-- The theorems on the migrations, over a schema that is the history of what was not taken back.
use document_agent_api.Common.{
  codes, true, false, ◌≡◌, refl, none, some, List, [], ◌∷◌, ok, err, Exec, other, arith,
}
use document_agent_api.Models.{DocumentModel, obj, end}
use document_agent_api.Migrations.{
  Operation, create_table, drop_table, add_column, drop_column, alter_nullable,
  alter_server_default, create_index, drop_index, create_foreign_key, drop_constraint, upgrade_0004,
  downgrade_0004,
}
use document_agent_api.Migrations.Undoing.{
  SchemaOps, SchemaLaws, undo_of, presumes, run, script, downgrade-upgrade,
}
use document_agent_api.Tests.Fixture.{document_one}

-- Takes back the last operation.
abbrev take_back : Exec (List Operation) Unit
take_back [] = (err (other (codes "nothing to take back")), [])
take_back (o ∷ history) = (ok tt, history)

abbrev apply_history : Operation → Exec (List Operation) Unit
apply_history (drop_table t) s = take_back s
apply_history (drop_column t c) s = take_back s
apply_history (drop_index name t) s = take_back s
apply_history (drop_constraint name t) s = take_back s
apply_history (alter_nullable t c false) s = take_back s
apply_history (alter_server_default t c d) s = (ok tt, s)
apply_history o s = (ok tt, o ∷ s)

abbrev history : SchemaOps
history = record { Schema = List Operation; apply = apply_history; is_not_null = λ s t c. true }

undo_history :
    (o p : Operation) (s s1 : List Operation)
    → undo_of o ≡ some p
    → presumes history o s ≡ true
    → apply_history o s ≡ (ok tt, s1)
    → apply_history p s1 ≡ (ok tt, s)
undo_history (create_table t x) p s s1 u q a = ground arith
undo_history (add_column t x) p s s1 u q a = ground arith
undo_history (alter_nullable t c true) p s s1 u q a = ground arith
undo_history (create_index n t x y) p s s1 u q a = ground arith
undo_history (create_foreign_key n t x y z v) p s s1 u q a = ground arith
undo_history (alter_nullable t c false) p s s1 u q a = absurd (ground arith)
undo_history (drop_table t) p s s1 u q a = absurd (ground arith)
undo_history (drop_column t c) p s s1 u q a = absurd (ground arith)
undo_history (drop_index n t) p s s1 u q a = absurd (ground arith)
undo_history (drop_constraint n t) p s s1 u q a = absurd (ground arith)
undo_history (alter_server_default t c d) p s s1 u q a = absurd (ground arith)

abbrev history_laws : SchemaLaws history
history_laws = record { undo = undo_history; drop_altered = λ t c d s s1 a. ground arith }

abbrev upgraded : List Operation
upgraded = (run history upgrade_0004 []).1

downgrade-upgrade_example : run history downgrade_0004 upgraded ≡ (ok tt, [])
unfolding run script
downgrade-upgrade_example =
    downgrade-upgrade history history_laws 3 upgrade_0004 downgrade_0004 [] upgraded refl
      (refl, (refl, (refl, (refl, (refl, tt))))) refl

-- A document with its payloads inline.
abbrev inline_document : DocumentModel
inline_document = record document_one {
  file_data = some (b'%' ∷ b'P' ∷ []);
  result = some (record {
    document_id = codes "d1";
    markdown = some (codes "# A");
    canonical_json = some (obj end);
    markdown_object_key = none;
    canonical_json_object_key = none;
  });
}
