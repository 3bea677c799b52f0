-- ===== src/Postgres/Rules.antt =====
-- `classify`, the table of rules for PostgreSQL (internal/analyzer/postgres/rules.go). Its rows
-- stand in the child modules.
pub mod Drops
pub mod Creates
pub mod Alters
pub mod Session
pub mod Columns
pub mod Branches
use reversibility_engine.Prelude.Text.{text}
use reversibility_engine.Prelude.{if◌then◌else◌}
use reversibility_engine.Postgres.Schema.{Schema}
use reversibility_engine.Postgres.Statement.{Kind, Statement}
use reversibility_engine.Postgres.Classification.{Classification, unclassified}
use reversibility_engine.Postgres.Rules.Drops.{
  classify_drop_table, classify_drop_column, classify_truncate, classify_drop_schema,
  classify_drop_type, classify_drop_constraint, classify_drop_mat_view, classify_drop_policy,
  classify_drop_not_null, classify_drop_default,
}
use reversibility_engine.Postgres.Rules.Creates.{
  classify_create_table, classify_create_view, classify_create_type, classify_create_extension,
  classify_create_schema, classify_create_sequence, classify_create_function,
  classify_create_trigger, classify_create_mat_view, classify_create_mat_view_no_data,
  classify_create_policy,
}
use reversibility_engine.Postgres.Rules.Alters.{
  classify_replace_view, classify_replace_function, classify_add_constraint_using_index,
  classify_validate_constraint, classify_set_not_null, classify_set_default,
  classify_add_enum_value, classify_rename_index, classify_set_rel_options, classify_set_logged,
  classify_attach_partition, classify_enable_rls, classify_disable_rls,
}
use reversibility_engine.Postgres.Rules.Session.{
  classify_grant, classify_comment, classify_set_variable, classify_lock_table, classify_analyze,
  classify_vacuum, classify_vacuum_full, classify_insert, classify_upsert,
}
use reversibility_engine.Postgres.Rules.Columns.{
  classify_cascade, classify_alter_column_type, classify_add_column, classify_add_constraint,
  classify_rename,
}
use reversibility_engine.Postgres.Rules.Branches.{
  classify_dml, classify_alter_sequence_restart, classify_drop_index, classify_drop_derived,
  classify_create_index, classify_refresh_mat_view, classify_detach_partition,
}

-- The rule of each kind. A statement that matches no rule is unknown.
unfoldable pub classify_kind : Kind → Statement → Schema → Classification
unfolding unclassified text
classify_kind Kind.kind_drop_table s sch = classify_drop_table s
classify_kind Kind.kind_drop_column s sch = classify_drop_column s
classify_kind Kind.kind_truncate s sch = classify_truncate s
classify_kind Kind.kind_drop_schema s sch = classify_drop_schema s
classify_kind Kind.kind_drop_database s sch = classify_drop_schema s
classify_kind Kind.kind_alter_column_type s sch = classify_alter_column_type s sch
classify_kind Kind.kind_delete s sch = classify_dml s
classify_kind Kind.kind_update s sch = classify_dml s
classify_kind Kind.kind_alter_sequence_restart s sch = classify_alter_sequence_restart s
classify_kind Kind.kind_drop_type s sch = classify_drop_type s
classify_kind Kind.kind_drop_sequence s sch = classify_drop_type s
classify_kind Kind.kind_drop_extension s sch = classify_drop_type s
classify_kind Kind.kind_rename_table s sch = classify_rename s
classify_kind Kind.kind_rename_column s sch = classify_rename s
classify_kind Kind.kind_drop_constraint s sch = classify_drop_constraint s
classify_kind Kind.kind_drop_index s sch = classify_drop_index s
classify_kind Kind.kind_drop_view s sch = classify_drop_derived s
classify_kind Kind.kind_drop_function s sch = classify_drop_derived s
classify_kind Kind.kind_drop_trigger s sch = classify_drop_derived s
classify_kind Kind.kind_set_not_null s sch = classify_set_not_null s
classify_kind Kind.kind_add_column s sch = classify_add_column s
classify_kind Kind.kind_add_constraint s sch = classify_add_constraint s
classify_kind Kind.kind_create_index s sch = classify_create_index s
classify_kind Kind.kind_create_table s sch = classify_create_table s
classify_kind Kind.kind_create_view s sch = classify_create_view s
classify_kind Kind.kind_create_type s sch = classify_create_type s
classify_kind Kind.kind_replace_view s sch = classify_replace_view s
classify_kind Kind.kind_drop_mat_view s sch = classify_drop_mat_view s
classify_kind Kind.kind_add_constraint_using_index s sch = classify_add_constraint_using_index s
classify_kind Kind.kind_validate_constraint s sch = classify_validate_constraint s
classify_kind Kind.kind_grant s sch = classify_grant s
classify_kind Kind.kind_revoke s sch = classify_grant s
classify_kind Kind.kind_set_variable s sch = classify_set_variable s
classify_kind Kind.kind_lock_table s sch = classify_lock_table s
classify_kind Kind.kind_analyze s sch = classify_analyze s
classify_kind Kind.kind_vacuum s sch = classify_vacuum s
classify_kind Kind.kind_vacuum_full s sch = classify_vacuum_full s
classify_kind Kind.kind_create_extension s sch = classify_create_extension s
classify_kind Kind.kind_create_schema s sch = classify_create_schema s
classify_kind Kind.kind_create_sequence s sch = classify_create_sequence s
classify_kind Kind.kind_create_function s sch = classify_create_function s
classify_kind Kind.kind_replace_function s sch = classify_replace_function s
classify_kind Kind.kind_create_trigger s sch = classify_create_trigger s
classify_kind Kind.kind_create_mat_view s sch = classify_create_mat_view s
classify_kind Kind.kind_create_mat_view_no_data s sch = classify_create_mat_view_no_data s
classify_kind Kind.kind_refresh_mat_view s sch = classify_refresh_mat_view s
classify_kind Kind.kind_refresh_mat_view_concurr s sch = classify_refresh_mat_view s
classify_kind Kind.kind_add_enum_value s sch = classify_add_enum_value s
classify_kind Kind.kind_create_policy s sch = classify_create_policy s
classify_kind Kind.kind_drop_policy s sch = classify_drop_policy s
classify_kind Kind.kind_enable_rls s sch = classify_enable_rls s
classify_kind Kind.kind_disable_rls s sch = classify_disable_rls s
classify_kind Kind.kind_rename_index s sch = classify_rename_index s
classify_kind Kind.kind_set_rel_options s sch = classify_set_rel_options s
classify_kind Kind.kind_set_logged s sch = classify_set_logged s
classify_kind Kind.kind_attach_partition s sch = classify_attach_partition s
classify_kind Kind.kind_detach_partition s sch = classify_detach_partition s
classify_kind Kind.kind_insert s sch = classify_insert s
classify_kind Kind.kind_upsert s sch = classify_upsert s
classify_kind Kind.kind_comment s sch = classify_comment s
classify_kind Kind.kind_drop_not_null s sch = classify_drop_not_null s
classify_kind Kind.kind_set_default s sch = classify_set_default s
classify_kind Kind.kind_drop_default s sch = classify_drop_default s
classify_kind _ s sch = unclassified (
    text
      "this statement matches no rule in the PostgreSQL classification table, and an unclassified change is treated as unsafe")

-- `classify`: one rule for each statement, and `CASCADE` overrides the others.
unfoldable pub classify : Statement → Schema → Classification
unfolding classify_kind
classify s sch = let row = classify_kind s.kind s sch in if s.cascade then classify_cascade else row
