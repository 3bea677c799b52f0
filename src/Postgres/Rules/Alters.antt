-- ===== src/Postgres/Rules/Alters.antt =====
-- The rows of `classify` in internal/analyzer/postgres/rules.go: objects that are altered or replaced.
use reversibility_engine.Prelude.Text.{Text, text}
use reversibility_engine.Prelude.Format.{format}
use reversibility_engine.Prelude.{[], ◌∷◌}
use reversibility_engine.Domain.Verdict.{
  reversible, costly, irreversible, lock_short, lock_full_scan, lock_table_rewrite,
}
use reversibility_engine.Postgres.Statement.{Statement}
use reversibility_engine.Postgres.Classification.{Classification, or, qualified}

-- PG028: `kind_replace_view`.
unfoldable pub classify_replace_view : Statement → Classification
unfolding format or text
classify_replace_view s =
    let view : Text = or s.relation (text "the view") in
    record {
      rule_id = text "PG028";
      reversibility = costly;
      lock = lock_short;
      rationale =
          format
            (text
              "CREATE OR REPLACE VIEW overwrites the previous definition of %s, which this changeset does not record. Rolling back means restoring that definition from schema history, not dropping the view.")
            (view ∷ []);
      undo =
          format
            (text
              "-- Restore the previous definition of view %s from schema history.\n-- It is not in this changeset, so it cannot be written here. Do NOT run DROP VIEW %s:\n-- the view existed before this migration and dropping it would destroy it.")
            (view ∷ view ∷ []);
    }

-- PG043: `kind_replace_function`.
unfoldable pub classify_replace_function : Statement → Classification
unfolding format or text
classify_replace_function s =
    let fn : Text = or s.object (text "the function") in
    record {
      rule_id = text "PG043";
      reversibility = costly;
      lock = lock_short;
      rationale =
          format
            (text
              "CREATE OR REPLACE FUNCTION overwrites the previous body of %s, which this changeset does not record. Rolling back means restoring that body from schema history, not dropping the function.")
            (fn ∷ []);
      undo =
          format
            (text
              "-- Restore the previous body of function %s from schema history.\n-- It is not in this changeset, so it cannot be written here. Do NOT run DROP FUNCTION %s:\n-- the function existed before this migration and dropping it would destroy it.")
            (fn ∷ fn ∷ []);
    }

-- PG030: `kind_add_constraint_using_index`.
unfoldable pub classify_add_constraint_using_index : Statement → Classification
unfolding format or text
classify_add_constraint_using_index s = record {
  rule_id = text "PG030";
  reversibility = reversible;
  lock = lock_short;
  rationale =
      format
        (text
          "Constraint %s is promoted from index %s, which already exists, so no table scan and no index build happen here. Dropping the constraint returns the schema to its prior state.")
        (or s.object (text "the constraint") ∷ or s.index (text "an existing index") ∷ []);
  undo = format (text "ALTER TABLE %s DROP CONSTRAINT %s;") (s.relation ∷ s.object ∷ []);
}

-- PG031: `kind_validate_constraint`.
unfoldable pub classify_validate_constraint : Statement → Classification
unfolding format or text
classify_validate_constraint s = record {
  rule_id = text "PG031";
  reversibility = reversible;
  lock = lock_full_scan;
  rationale =
      format
        (text
          "Validating constraint %s scans every existing row without blocking writes, and removes nothing. It completes the NOT VALID pattern rather than adding risk to it.")
        (or s.object (text "the constraint") ∷ []);
  undo = format (text "ALTER TABLE %s DROP CONSTRAINT %s;") (s.relation ∷ s.object ∷ []);
}

-- PG017: `kind_set_not_null`.
unfoldable pub classify_set_not_null : Statement → Classification
unfolding format qualified text
classify_set_not_null s = record {
  rule_id = text "PG017";
  reversibility = costly;
  lock = lock_full_scan;
  rationale =
      format
        (text
          "Adding NOT NULL to %s forces a scan of every row under lock, and the constraint cannot be re-imposed after rollback if nulls have since been written.")
        (qualified s.relation s.object ∷ []);
  undo = format (text "ALTER TABLE %s ALTER COLUMN %s DROP NOT NULL;") (s.relation ∷ s.object ∷ []);
}

-- PG026: `kind_set_default`.
unfoldable pub classify_set_default : Statement → Classification
unfolding format qualified text
classify_set_default s = record {
  rule_id = text "PG026";
  reversibility = reversible;
  lock = lock_short;
  rationale =
      format
        (text
          "Setting a default on %s is a catalog-only change that leaves existing rows untouched.")
        (qualified s.relation s.object ∷ []);
  undo = format (text "ALTER TABLE %s ALTER COLUMN %s DROP DEFAULT;") (s.relation ∷ s.object ∷ []);
}

-- PG048: `kind_add_enum_value`.
unfoldable pub classify_add_enum_value : Statement → Classification
unfolding format or text
classify_add_enum_value s = record {
  rule_id = text "PG048";
  reversibility = irreversible;
  lock = lock_short;
  rationale =
      format
        (text
          "PostgreSQL provides no way to remove a value from an enum, so adding %q to %s cannot be undone. Rolling back requires recreating the type and rewriting every column that uses it.")
        (s.new_name ∷ or s.object (text "the type") ∷ []);
  undo = [];
}

-- PG053: `kind_rename_index`.
unfoldable pub classify_rename_index : Statement → Classification
unfolding format or text
classify_rename_index s = record {
  rule_id = text "PG053";
  reversibility = costly;
  lock = lock_short;
  rationale =
      format
        (text
          "Renaming index %s to %s breaks anything that names it: a planner hint, a maintenance script, a constraint promotion. The break lasts for as long as the new name is in effect.")
        (or s.object (text "the index") ∷ or s.new_name (text "a new name") ∷ []);
  undo =
      format (text "ALTER INDEX %s RENAME TO %s;")
        (or s.new_name (text "the_new_name") ∷ or s.object (text "the_old_name") ∷ []);
}

-- PG054: `kind_set_rel_options`.
unfoldable pub classify_set_rel_options : Statement → Classification
unfolding format or text
classify_set_rel_options s = record {
  rule_id = text "PG054";
  reversibility = costly;
  lock = lock_short;
  rationale =
      format
        (text
          "Changing storage parameters on %s overwrites their previous values, which this changeset does not record.")
        (or s.relation (text "the table") ∷ []);
  undo = [];
}

-- PG055: `kind_set_logged`.
unfoldable pub classify_set_logged : Statement → Classification
unfolding format or text
classify_set_logged s = record {
  rule_id = text "PG055";
  reversibility = costly;
  lock = lock_table_rewrite;
  rationale =
      format
        (text
          "Switching %s between LOGGED and UNLOGGED rewrites the whole table, and the reverse rewrites it again. While a table is UNLOGGED its contents do not survive a crash.")
        (or s.relation (text "the table") ∷ []);
  undo = [];
}

-- PG056: `kind_attach_partition`.
unfoldable pub classify_attach_partition : Statement → Classification
unfolding format or text
classify_attach_partition s = record {
  rule_id = text "PG056";
  reversibility = reversible;
  lock = lock_full_scan;
  rationale =
      format
        (text
          "Attaching a partition to %s scans it to prove every row satisfies the partition bound, unless a matching constraint already exists. Detaching returns it to a standalone table with its rows intact.")
        (or s.relation (text "the table") ∷ []);
  undo =
      format (text "ALTER TABLE %s DETACH PARTITION %s;")
        (or s.relation (text "the_table") ∷ or s.object (text "the_partition") ∷ []);
}

-- PG051: `kind_enable_rls`.
unfoldable pub classify_enable_rls : Statement → Classification
unfolding format or text
classify_enable_rls s = record {
  rule_id = text "PG051";
  reversibility = reversible;
  lock = lock_short;
  rationale =
      format
        (text
          "Enabling row-level security on %s adds a restriction. Disabling it again restores the prior state exactly.")
        (or s.relation (text "the table") ∷ []);
  undo =
      format (text "ALTER TABLE %s DISABLE ROW LEVEL SECURITY;")
        (or s.relation (text "the_table") ∷ []);
}

-- PG052: `kind_disable_rls`.
unfoldable pub classify_disable_rls : Statement → Classification
unfolding format or text
classify_disable_rls s = record {
  rule_id = text "PG052";
  reversibility = irreversible;
  lock = lock_short;
  rationale =
      format
        (text
          "Disabling row-level security on %s removes the protection every query against it relied on. The setting is one line to restore; the exposure while it was off is not. This is graded with removing a recovery capability, as TF004 is, rather than with an ordinary reversible change.")
        (or s.relation (text "the table") ∷ []);
  undo = [];
}
