-- ===== src/Postgres/Rules/Branches.antt =====
-- The branching rules of `classify` in internal/analyzer/postgres/rules.go: indexes, views, rows, sequences and partitions.
use reversibility_engine.Prelude.Text.{Text, text}
use reversibility_engine.Prelude.Format.{format}
use reversibility_engine.Prelude.{not, ◌&&◌, ◌||◌, [], ◌∷◌, is_empty, if◌then◌else◌}
use reversibility_engine.Domain.Verdict.{
  LockHazard, reversible, costly, irreversible, lock_none, lock_short, lock_full_scan,
  lock_exclusive,
}
use reversibility_engine.Postgres.Statement.{Kind, Statement}
use reversibility_engine.Postgres.Classification.{Classification, or, undo_unavailable, cte_note}

verb_of : Kind → Text
unfolding text
verb_of Kind.kind_update = text "UPDATE"
verb_of _ = text "DELETE"

-- `classifyDML`: PG008 and PG009.
unfoldable pub classify_dml : Statement → Classification
unfolding format or verb_of cte_note text
classify_dml s =
    let verb : Text = verb_of s.kind in
    let every_row : Classification = record {
      rule_id = text "PG008";
      reversibility = irreversible;
      lock = lock_exclusive;
      rationale =
          format
            (text
              "An unqualified %s rewrites every row in %s, and the prior values are not recorded anywhere.%s")
            (verb ∷ or s.relation (text "the table") ∷ cte_note s ∷ []);
      undo = [];
    } in
    let some_rows : Classification = record {
      rule_id = text "PG009";
      reversibility = irreversible;
      lock = lock_short;
      rationale =
          format
            (text
              "The WHERE clause bounds how many rows of %s are touched, but the prior values of those rows are still gone.%s")
            (or s.relation (text "the table") ∷ cte_note s ∷ []);
      undo = [];
    } in
    if not s.has_where then every_row else some_rows

-- PG010.
unfoldable pub classify_alter_sequence_restart : Statement → Classification
unfolding format or text
classify_alter_sequence_restart s =
    let setval : Text =
      text
        " This is a setval() call: a SELECT node carrying a non-SELECT effect, classified by that effect rather than by the node." in
    let note : Text =
      if s.in_cte || not (is_empty s.object) && is_empty s.relation then setval else [] in
    record {
      rule_id = text "PG010";
      reversibility = irreversible;
      lock = lock_short;
      rationale =
          format
            (text
              "The prior position of sequence %s is recorded nowhere, so it cannot be restored, and subsequent inserts will collide with existing keys.%s")
            (or s.relation (or s.object (text "the sequence")) ∷ note ∷ []);
      undo = [];
    }

-- `classifyDropIndex`: PG015 and PG014.
unfoldable pub classify_drop_index : Statement → Classification
unfolding format or undo_unavailable text
classify_drop_index s =
    let concurrently : Classification = record {
      rule_id = text "PG015";
      reversibility = costly;
      lock = lock_none;
      rationale =
          format
            (text
              "Index %s can be rebuilt, but the rebuild is slow and queries relying on it degrade until it completes; dropping it concurrently at least takes no blocking lock.")
            (or s.object (text "the index") ∷ []);
      undo =
          format (text "CREATE INDEX CONCURRENTLY %s ON %s %s;")
            (s.object ∷ undo_unavailable ∷ undo_unavailable ∷ []);
    } in
    let exclusively : Classification = record {
      rule_id = text "PG014";
      reversibility = costly;
      lock = lock_exclusive;
      rationale =
          format
            (text
              "Index %s can be rebuilt, but the non-concurrent drop takes an exclusive lock and the rebuild is slow.")
            (or s.object (text "the index") ∷ []);
      undo =
          format (text "CREATE INDEX %s ON %s %s;")
            (s.object ∷ undo_unavailable ∷ undo_unavailable ∷ []);
    } in
    if s.concurrent then concurrently else exclusively

noun_of : Kind → Text
unfolding text
noun_of Kind.kind_drop_view = text "View"
noun_of Kind.kind_drop_function = text "Function"
noun_of _ = text "Trigger"

recreate_of : Kind → Text
unfolding text
recreate_of Kind.kind_drop_view = text "CREATE VIEW"
recreate_of Kind.kind_drop_function = text "CREATE FUNCTION"
recreate_of _ = text "CREATE TRIGGER"

-- `classifyDropDerived`: PG016.
unfoldable pub classify_drop_derived : Statement → Classification
unfolding format or undo_unavailable noun_of recreate_of text
classify_drop_derived s =
    let noun : Text = noun_of s.kind in
    let recreate : Text = recreate_of s.kind in
    record {
      rule_id = text "PG016";
      reversibility = costly;
      lock = lock_short;
      rationale =
          format
            (text
              "%s %s holds no data of its own, so restoring it only requires replaying its definition — but that definition has to be recovered from somewhere.")
            (noun ∷ or s.object (text "the object") ∷ []);
      undo = format (text "%s %s %s;") (recreate ∷ s.object ∷ undo_unavailable ∷ []);
    }

-- `classifyCreateIndex`: PG024 and PG023.
unfoldable pub classify_create_index : Statement → Classification
unfolding format or text
classify_create_index s =
    let concurrently : Classification = record {
      rule_id = text "PG024";
      reversibility = reversible;
      lock = lock_none;
      rationale =
          format
            (text
              "Index %s is built without blocking writes and is removed again by a single concurrent drop.")
            (or s.object (text "the index") ∷ []);
      undo = format (text "DROP INDEX CONCURRENTLY %s;") (s.object ∷ []);
    } in
    let exclusively : Classification = record {
      rule_id = text "PG023";
      reversibility = reversible;
      lock = lock_exclusive;
      rationale =
          format
            (text
              "Index %s is fully reversible by dropping it, but the non-concurrent build blocks writes to %s until it finishes.")
            (or s.object (text "the index") ∷ or s.relation (text "the table") ∷ []);
      undo = format (text "DROP INDEX %s;") (s.object ∷ []);
    } in
    if s.concurrent then concurrently else exclusively

unfoldable pub refresh_lock : Kind → LockHazard
refresh_lock Kind.kind_refresh_mat_view_concurr = lock_full_scan
refresh_lock _ = lock_exclusive

unfoldable pub refresh_note : Kind → Text
unfolding text
refresh_note Kind.kind_refresh_mat_view_concurr =
    text "without blocking readers, at the cost of a slower rebuild"
refresh_note _ = text "blocking every reader of the view for the duration"

-- PG047.
unfoldable pub classify_refresh_mat_view : Statement → Classification
unfolding format or refresh_lock refresh_note text
classify_refresh_mat_view s =
    let hazard : LockHazard = refresh_lock s.kind in
    let note : Text = refresh_note s.kind in
    record {
      rule_id = text "PG047";
      reversibility = reversible;
      lock = hazard;
      rationale =
          format
            (text
              "Refreshing materialized view %s replaces derived rows with the sources' current contents, %s. No original data is lost, because none of it was original.")
            (or s.relation (text "the materialized view") ∷ note ∷ []);
      undo =
          format
            (text "-- Nothing to restore: the contents of %s are derived. Refresh again if needed.")
            (or s.relation (text "the view") ∷ []);
    }

-- PG057.
unfoldable pub classify_detach_partition : Statement → Classification
unfolding format or text
classify_detach_partition s =
    let hazard : LockHazard = if s.concurrent then lock_none else lock_short in
    record {
      rule_id = text "PG057";
      reversibility = costly;
      lock = hazard;
      rationale =
          format
            (text
              "Detaching a partition from %s leaves its rows intact as a standalone table, so nothing is destroyed. Re-attaching requires the partition bound, which this changeset does not record.")
            (or s.relation (text "the table") ∷ []);
      undo = [];
    }
