-- ===== src/Postgres/Rules/Creates.antt =====
-- The rows of `classify` in internal/analyzer/postgres/rules.go: objects that are created.
use reversibility_engine.Prelude.Text.{text}
use reversibility_engine.Prelude.Format.{format}
use reversibility_engine.Prelude.{[], ◌∷◌}
use reversibility_engine.Domain.Verdict.{reversible, lock_none, lock_short, lock_full_scan}
use reversibility_engine.Postgres.Statement.{Statement}
use reversibility_engine.Postgres.Classification.{Classification, or}

-- PG025: `kind_create_table`.
unfoldable pub classify_create_table : Statement → Classification
unfolding format or text
classify_create_table s = record {
  rule_id = text "PG025";
  reversibility = reversible;
  lock = lock_none;
  rationale =
      format
        (text
          "Creating table %s takes nothing away; dropping it returns the schema to its prior state exactly.")
        (or s.relation (text "the table") ∷ []);
  undo = format (text "DROP TABLE %s;") (s.relation ∷ []);
}

-- PG025: `kind_create_view`.
unfoldable pub classify_create_view : Statement → Classification
unfolding format or text
classify_create_view s = record {
  rule_id = text "PG025";
  reversibility = reversible;
  lock = lock_none;
  rationale =
      format
        (text
          "Creating view %s takes nothing away; dropping it returns the schema to its prior state exactly.")
        (or s.relation (text "the view") ∷ []);
  undo = format (text "DROP VIEW %s;") (s.relation ∷ []);
}

-- PG025: `kind_create_type`.
unfoldable pub classify_create_type : Statement → Classification
unfolding format or text
classify_create_type s = record {
  rule_id = text "PG025";
  reversibility = reversible;
  lock = lock_none;
  rationale =
      format
        (text
          "Creating type %s takes nothing away; dropping it returns the schema to its prior state exactly.")
        (or s.object (text "the type") ∷ []);
  undo = format (text "DROP TYPE %s;") (s.object ∷ []);
}

-- PG039: `kind_create_extension`.
unfoldable pub classify_create_extension : Statement → Classification
unfolding format or text
classify_create_extension s = record {
  rule_id = text "PG039";
  reversibility = reversible;
  lock = lock_short;
  rationale =
      format
        (text
          "Creating extension %s adds objects and takes none away. Note the deliberate asymmetry with PG011: dropping an extension can cascade to everything that depends on it, creating one cannot.")
        (or s.object (text "the extension") ∷ []);
  undo = format (text "DROP EXTENSION %s;") (or s.object (text "the_extension") ∷ []);
}

-- PG040: `kind_create_schema`.
unfoldable pub classify_create_schema : Statement → Classification
unfolding format or text
classify_create_schema s = record {
  rule_id = text "PG040";
  reversibility = reversible;
  lock = lock_none;
  rationale =
      format
        (text
          "Creating schema %s takes nothing away; dropping it returns the database to its prior state exactly.")
        (or s.object (text "the schema") ∷ []);
  undo = format (text "DROP SCHEMA %s;") (or s.object (text "the_schema") ∷ []);
}

-- PG041: `kind_create_sequence`.
unfoldable pub classify_create_sequence : Statement → Classification
unfolding format or text
classify_create_sequence s = record {
  rule_id = text "PG041";
  reversibility = reversible;
  lock = lock_none;
  rationale =
      format
        (text
          "Creating sequence %s takes nothing away. Note that moving an existing sequence is PG010 and is not reversible; creating one is a different act.")
        (or s.relation (text "the sequence") ∷ []);
  undo = format (text "DROP SEQUENCE %s;") (or s.relation (text "the_sequence") ∷ []);
}

-- PG042: `kind_create_function`.
unfoldable pub classify_create_function : Statement → Classification
unfolding format or text
classify_create_function s = record {
  rule_id = text "PG042";
  reversibility = reversible;
  lock = lock_none;
  rationale =
      format
        (text
          "Creating function %s adds a definition where there was none; dropping it restores the prior state.")
        (or s.object (text "the function") ∷ []);
  undo = format (text "DROP FUNCTION %s;") (or s.object (text "the_function") ∷ []);
}

-- PG044: `kind_create_trigger`.
unfoldable pub classify_create_trigger : Statement → Classification
unfolding format or text
classify_create_trigger s = record {
  rule_id = text "PG044";
  reversibility = reversible;
  lock = lock_short;
  rationale =
      format
        (text
          "Creating trigger %s on %s adds behaviour and removes none. It takes a SHARE ROW EXCLUSIVE lock on the table, which blocks writes but not reads.")
        (or s.object (text "the trigger") ∷ or s.relation (text "the table") ∷ []);
  undo =
      format (text "DROP TRIGGER %s ON %s;")
        (or s.object (text "the_trigger") ∷ or s.relation (text "the_table") ∷ []);
}

-- PG045: `kind_create_mat_view`.
unfoldable pub classify_create_mat_view : Statement → Classification
unfolding format or text
classify_create_mat_view s = record {
  rule_id = text "PG045";
  reversibility = reversible;
  lock = lock_full_scan;
  rationale =
      format
        (text
          "Creating materialized view %s WITH DATA runs its query and holds a read lock on the source tables for the duration. It takes nothing away.")
        (or s.relation (text "the materialized view") ∷ []);
  undo = format (text "DROP MATERIALIZED VIEW %s;") (or s.relation (text "the_view") ∷ []);
}

-- PG046: `kind_create_mat_view_no_data`.
unfoldable pub classify_create_mat_view_no_data : Statement → Classification
unfolding format or text
classify_create_mat_view_no_data s = record {
  rule_id = text "PG046";
  reversibility = reversible;
  lock = lock_none;
  rationale =
      format
        (text
          "Creating materialized view %s WITH NO DATA writes a definition and reads nothing, so the sources are never scanned.")
        (or s.relation (text "the materialized view") ∷ []);
  undo = format (text "DROP MATERIALIZED VIEW %s;") (or s.relation (text "the_view") ∷ []);
}

-- PG049: `kind_create_policy`.
unfoldable pub classify_create_policy : Statement → Classification
unfolding format or text
classify_create_policy s = record {
  rule_id = text "PG049";
  reversibility = reversible;
  lock = lock_short;
  rationale =
      format
        (text
          "Creating policy %s on %s adds a restriction where there was none; dropping it restores the prior state.")
        (or s.object (text "the policy") ∷ or s.relation (text "the table") ∷ []);
  undo =
      format (text "DROP POLICY %s ON %s;")
        (or s.object (text "the_policy") ∷ or s.relation (text "the_table") ∷ []);
}
