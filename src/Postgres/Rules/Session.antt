-- ===== src/Postgres/Rules/Session.antt =====
-- The rows of `classify` in internal/analyzer/postgres/rules.go: privileges, comments, rows, and what migration tools emit around a change.
use reversibility_engine.Prelude.Text.{text}
use reversibility_engine.Prelude.Format.{format}
use reversibility_engine.Prelude.{[], ◌∷◌}
use reversibility_engine.Domain.Verdict.{
  reversible, costly, irreversible, lock_none, lock_short, lock_exclusive,
}
use reversibility_engine.Postgres.Statement.{Statement}
use reversibility_engine.Postgres.Classification.{Classification, or, reverse_grant}

-- PG032: `kind_grant`, `kind_revoke`.
unfoldable pub classify_grant : Statement → Classification
unfolding format or reverse_grant text
classify_grant s = record {
  rule_id = text "PG032";
  reversibility = reversible;
  lock = lock_short;
  rationale =
      format
        (text
          "A privilege change on %s alters no object and no row, and the opposite statement restores it exactly. The engine does not verify that the opposite statement is present.")
        (or s.object (text "the target") ∷ []);
  undo = reverse_grant s;
}

-- PG033: `kind_comment`.
unfoldable pub classify_comment : Statement → Classification
unfolding format or text
classify_comment s = record {
  rule_id = text "PG033";
  reversibility = reversible;
  lock = lock_short;
  rationale =
      format
        (text
          "A comment on %s is documentation: no object, no row, and no constraint changes. Any previous comment is overwritten and is not recorded here.")
        (or s.object (text "the target") ∷ []);
  undo =
      format
        (text "-- Restore the previous comment on %s, or remove it with COMMENT ON ... IS NULL.")
        (or s.object (text "the target") ∷ []);
}

-- PG034: `kind_set_variable`.
unfoldable pub classify_set_variable : Statement → Classification
unfolding format or text
classify_set_variable s = record {
  rule_id = text "PG034";
  reversibility = reversible;
  lock = lock_none;
  rationale =
      format
        (text
          "Setting %s affects this session only and persists nothing; the connection ends and the setting is gone.")
        (or s.object (text "a runtime parameter") ∷ []);
  undo = text "-- Nothing to undo: the setting did not outlive the session.";
}

-- PG035: `kind_lock_table`.
unfoldable pub classify_lock_table : Statement → Classification
unfolding format or text
classify_lock_table s = record {
  rule_id = text "PG035";
  reversibility = reversible;
  lock = lock_exclusive;
  rationale =
      format
        (text
          "LOCK TABLE takes the lock it names on %s for the rest of the transaction and changes nothing. The hazard is the lock itself, held for as long as the transaction runs.")
        (or s.relation (text "the table") ∷ []);
  undo = text "-- Nothing to undo: the lock was released when the transaction ended.";
}

-- PG036: `kind_analyze`.
unfoldable pub classify_analyze : Statement → Classification
unfolding format or text
classify_analyze s = record {
  rule_id = text "PG036";
  reversibility = reversible;
  lock = lock_none;
  rationale =
      format
        (text "ANALYZE refreshes planner statistics for %s. No row, column, or constraint changes.")
        (or s.relation (text "the database") ∷ []);
  undo =
      text
        "-- Nothing to undo: statistics are derived and are refreshed again on the next ANALYZE.";
}

-- PG037: `kind_vacuum`.
unfoldable pub classify_vacuum : Statement → Classification
unfolding format or text
classify_vacuum s = record {
  rule_id = text "PG037";
  reversibility = reversible;
  lock = lock_none;
  rationale =
      format
        (text
          "VACUUM reclaims dead tuples in %s without blocking reads or writes. It changes no live row.")
        (or s.relation (text "the database") ∷ []);
  undo = text "-- Nothing to undo: vacuuming removes only tuples no transaction can still see.";
}

-- PG038: `kind_vacuum_full`.
unfoldable pub classify_vacuum_full : Statement → Classification
unfolding format or text
classify_vacuum_full s = record {
  rule_id = text "PG038";
  reversibility = reversible;
  lock = lock_exclusive;
  rationale =
      format
        (text
          "VACUUM FULL rewrites %s under an ACCESS EXCLUSIVE lock, blocking every reader and writer for the duration. Nothing is lost; the outage is the whole risk.")
        (or s.relation (text "the table") ∷ []);
  undo = text "-- Nothing to undo: the rewrite preserves every live row.";
}

-- PG058: `kind_insert`.
unfoldable pub classify_insert : Statement → Classification
unfolding format or text
classify_insert s = record {
  rule_id = text "PG058";
  reversibility = costly;
  lock = lock_short;
  rationale =
      format
        (text
          "Inserting into %s adds rows and overwrites none, so nothing is destroyed. Undoing it means deleting exactly the rows this statement added, and their keys are not derivable from the statement alone.")
        (or s.relation (text "the table") ∷ []);
  undo = [];
}

-- PG059: `kind_upsert`.
unfoldable pub classify_upsert : Statement → Classification
unfolding format or text
classify_upsert s = record {
  rule_id = text "PG059";
  reversibility = irreversible;
  lock = lock_short;
  rationale =
      format
        (text
          "ON CONFLICT DO UPDATE overwrites rows of %s that already existed, and their prior values are gone. How many rows that is cannot be known from the statement alone: it depends on what is already in the table. This is an INSERT node carrying an UPDATE's effect and is classified by the effect.")
        (or s.relation (text "the table") ∷ []);
  undo = [];
}
