-- ===== src/Postgres/Rules/Drops.antt =====
-- The rows of `classify` in internal/analyzer/postgres/rules.go: objects that are dropped.
use reversibility_engine.Prelude.Text.{Text, text}
use reversibility_engine.Prelude.Format.{format}
use reversibility_engine.Prelude.{[], ◌∷◌}
use reversibility_engine.Domain.Verdict.{
  reversible, costly, irreversible, lock_short, lock_exclusive,
}
use reversibility_engine.Postgres.Statement.{Statement}
use reversibility_engine.Postgres.Classification.{Classification, or, qualified, undo_unavailable}

-- PG001: `kind_drop_table`.
unfoldable pub classify_drop_table : Statement → Classification
unfolding format or text
classify_drop_table s = record {
  rule_id = text "PG001";
  reversibility = irreversible;
  lock = lock_exclusive;
  rationale =
      format
        (text
          "Dropping table %s destroys every row it holds; recreating the table restores the shape but not the data.")
        (or s.object (text "unknown") ∷ []);
  undo = [];
}

-- PG002: `kind_drop_column`.
unfoldable pub classify_drop_column : Statement → Classification
unfolding format qualified text
classify_drop_column s = record {
  rule_id = text "PG002";
  reversibility = irreversible;
  lock = lock_exclusive;
  rationale =
      format
        (text
          "Dropping column %s discards its values; re-adding the column restores the schema but leaves every row null.")
        (qualified s.relation s.object ∷ []);
  undo = [];
}

-- PG003: `kind_truncate`.
unfoldable pub classify_truncate : Statement → Classification
unfolding format or text
classify_truncate s = record {
  rule_id = text "PG003";
  reversibility = irreversible;
  lock = lock_exclusive;
  rationale =
      format
        (text
          "TRUNCATE removes every row of %s without logging them individually, so no down migration can put them back.")
        (or s.relation (text "the table") ∷ []);
  undo = [];
}

-- PG004: `kind_drop_schema`, `kind_drop_database`.
unfoldable pub classify_drop_schema : Statement → Classification
unfolding format or text
classify_drop_schema s = record {
  rule_id = text "PG004";
  reversibility = irreversible;
  lock = lock_exclusive;
  rationale =
      format
        (text
          "Dropping %s destroys every object inside it along with their data; only a backup restore can undo this.")
        (or s.object (text "the schema") ∷ []);
  undo = [];
}

-- PG011: `kind_drop_type`, `kind_drop_sequence`, `kind_drop_extension`.
unfoldable pub classify_drop_type : Statement → Classification
unfolding format or text
classify_drop_type s = record {
  rule_id = text "PG011";
  reversibility = irreversible;
  lock = lock_exclusive;
  rationale =
      format
        (text
          "Dropping %s cannot be fully undone: recreating a sequence loses its position, and recreating a type or extension cannot restore the dependents dropped with it.")
        (or s.object (text "the object") ∷ []);
  undo = [];
}

-- PG013: `kind_drop_constraint`.
unfoldable pub classify_drop_constraint : Statement → Classification
unfolding format or undo_unavailable text
classify_drop_constraint s = record {
  rule_id = text "PG013";
  reversibility = costly;
  lock = lock_short;
  rationale =
      format
        (text
          "Rows violating constraint %s may be inserted before the rollback happens, making it impossible to re-add the constraint afterwards.")
        (or s.object (text "the constraint") ∷ []);
  undo =
      format (text "ALTER TABLE %s ADD CONSTRAINT %s %s;")
        (s.relation ∷ s.object ∷ undo_unavailable ∷ []);
}

-- PG029: `kind_drop_mat_view`.
unfoldable pub classify_drop_mat_view : Statement → Classification
unfolding format or text
classify_drop_mat_view s =
    let view : Text = or s.object (text "the materialized view") in
    record {
      rule_id = text "PG029";
      reversibility = costly;
      lock = lock_exclusive;
      rationale =
          format
            (text
              "Dropping materialized view %s destroys the rows it holds. They are derived, so a REFRESH can rebuild them — but the rebuild may be expensive, and it will not reproduce the old contents if the sources have changed since.")
            (view ∷ []);
      undo =
          format
            (text
              "-- Recreate materialized view %s from its definition in schema history, then:\nREFRESH MATERIALIZED VIEW %s;")
            (view ∷ view ∷ []);
    }

-- PG050: `kind_drop_policy`.
unfoldable pub classify_drop_policy : Statement → Classification
unfolding format or text
classify_drop_policy s = record {
  rule_id = text "PG050";
  reversibility = costly;
  lock = lock_short;
  rationale =
      format
        (text
          "Dropping policy %s removes a row-level restriction whose definition this changeset does not record. Recreating it requires recovering that definition from schema history.")
        (or s.object (text "the policy") ∷ []);
  undo = [];
}

-- PG026: `kind_drop_not_null`.
unfoldable pub classify_drop_not_null : Statement → Classification
unfolding format qualified text
classify_drop_not_null s = record {
  rule_id = text "PG026";
  reversibility = reversible;
  lock = lock_short;
  rationale =
      format
        (text
          "Relaxing NOT NULL on %s is a catalog-only change; note that re-imposing it costs a full table scan.")
        (qualified s.relation s.object ∷ []);
  undo = format (text "ALTER TABLE %s ALTER COLUMN %s SET NOT NULL;") (s.relation ∷ s.object ∷ []);
}

-- PG026: `kind_drop_default`.
unfoldable pub classify_drop_default : Statement → Classification
unfolding format qualified undo_unavailable text
classify_drop_default s = record {
  rule_id = text "PG026";
  reversibility = reversible;
  lock = lock_short;
  rationale =
      format
        (text
          "Dropping the default on %s is a catalog-only change that leaves existing rows untouched.")
        (qualified s.relation s.object ∷ []);
  undo =
      format (text "ALTER TABLE %s ALTER COLUMN %s SET DEFAULT %s;")
        (s.relation ∷ s.object ∷ undo_unavailable ∷ []);
}
