-- ===== src/Postgres/Flags.antt =====
-- What `CONCURRENTLY`, and standing in a CTE, change of a classification.
use reversibility_engine.Prelude.{Bool, true, false, not, ◌≤◌, ◌≡◌, refl, arith, if◌then◌else◌}
use reversibility_engine.Domain.Verdict.{lock_severity}
use reversibility_engine.Postgres.Schema.{Schema}
use reversibility_engine.Postgres.Statement.{Kind, Statement}
use reversibility_engine.Postgres.Classification.{Classification, reverse_grant}
use reversibility_engine.Postgres.Rules.{classify, classify_kind}
use reversibility_engine.Postgres.Rules.Drops.{
  classify_drop_table, classify_drop_column, classify_truncate, classify_drop_schema,
  classify_drop_type, classify_drop_constraint, classify_drop_mat_view, classify_drop_policy,
  classify_drop_not_null, classify_drop_default,
}
use reversibility_engine.Postgres.Rules.Creates.{
  classify_create_table, classify_create_view, classify_create_type, classify_create_extension,
  classify_create_schema, classify_create_sequence, classify_create_function,
  classify_create_trigger, classify_create_mat_view, classify_create_mat_view_no_data,
  classify_create_policy,
}
use reversibility_engine.Postgres.Rules.Alters.{
  classify_replace_view, classify_replace_function, classify_add_constraint_using_index,
  classify_validate_constraint, classify_set_not_null, classify_set_default,
  classify_add_enum_value, classify_rename_index, classify_set_rel_options, classify_set_logged,
  classify_attach_partition, classify_enable_rls, classify_disable_rls,
}
use reversibility_engine.Postgres.Rules.Session.{
  classify_grant, classify_comment, classify_set_variable, classify_lock_table, classify_analyze,
  classify_vacuum, classify_vacuum_full, classify_insert, classify_upsert,
}
use reversibility_engine.Postgres.Rules.Columns.{
  classify_alter_column_type, classify_add_column, classify_add_constraint, classify_rename,
}
use reversibility_engine.Postgres.Rules.Branches.{
  classify_dml, classify_alter_sequence_restart, classify_drop_index, classify_drop_derived,
  classify_create_index, classify_refresh_mat_view, classify_detach_partition, refresh_lock,
}

-- The kind with `CONCURRENTLY`, or without: a refresh that says it is a kind of its own.
unfoldable pub concurrent_kind : Bool → Kind → Kind
concurrent_kind true Kind.kind_refresh_mat_view = Kind.kind_refresh_mat_view_concurr
concurrent_kind false Kind.kind_refresh_mat_view_concurr = Kind.kind_refresh_mat_view
concurrent_kind b k = k

-- The statement of a kind with `CONCURRENTLY`, or without.
abbrev concurrently_as : Bool → Kind → Statement → Statement
concurrently_as b k s = record s { concurrent = b; kind = concurrent_kind b k }

unfoldable pub concurrently : Bool → Statement → Statement
concurrently b s = concurrently_as b s.kind s

-- The statement's effect carried by a CTE, or not.
unfoldable pub carried : Bool → Statement → Statement
carried b s = record s { in_cte = b }

-- The verdicts agree, and the first hazard is no heavier.
abbrev NoHeavier : Classification → Classification → Type 0
NoHeavier c d = (c.reversibility ≡ d.reversibility) × (lock_severity c.lock ≤ lock_severity d.lock)

-- All but the rationale agrees.
abbrev pub SameRule : Classification → Classification → Type 0
SameRule c d =
    (c.rule_id ≡ d.rule_id)
    × (c.reversibility ≡ d.reversibility)
    × (c.lock ≡ d.lock)
    × (c.undo ≡ d.undo)

NoHeavier-refl : (c : Classification) → NoHeavier c c
NoHeavier-refl c = (refl, omega arith)

if_NoHeavier :
    (b : Bool) (x c d : Classification)
    → NoHeavier c d
    → NoHeavier (if b then x else c) (if b then x else d)
if_NoHeavier true x c d h = NoHeavier-refl x
if_NoHeavier false x c d h = h

if_SameRule :
    (b : Bool) (x y c d : Classification)
    → SameRule x y
    → SameRule c d
    → SameRule (if b then x else c) (if b then y else d)
if_SameRule true x y c d h k = h
if_SameRule false x y c d h k = k

kind_NoHeavier :
    (k : Kind) (s : Statement) (sch : Schema)
    → NoHeavier
        (classify_kind (concurrent_kind true k) (concurrently_as true k s) sch)
        (classify_kind (concurrent_kind false k) (concurrently_as false k s) sch)
unfolding reverse_grant classify_kind concurrent_kind refresh_lock lock_severity classify_drop_table
    classify_drop_column classify_truncate classify_drop_schema classify_drop_type
    classify_drop_constraint classify_drop_mat_view classify_drop_policy classify_drop_not_null
    classify_drop_default classify_create_table classify_create_view classify_create_type
    classify_create_extension classify_create_schema classify_create_sequence
    classify_create_function classify_create_trigger classify_create_mat_view
    classify_create_mat_view_no_data classify_create_policy classify_replace_view
    classify_replace_function classify_add_constraint_using_index classify_validate_constraint
    classify_set_not_null classify_set_default classify_add_enum_value classify_rename_index
    classify_set_rel_options classify_set_logged classify_attach_partition classify_enable_rls
    classify_disable_rls classify_grant classify_comment classify_set_variable classify_lock_table
    classify_analyze classify_vacuum classify_vacuum_full classify_insert classify_upsert
    classify_alter_column_type classify_add_column classify_add_constraint classify_rename
    classify_dml classify_alter_sequence_restart classify_drop_index classify_drop_derived
    classify_create_index classify_refresh_mat_view classify_detach_partition
kind_NoHeavier Kind.kind_drop_index s sch = (refl, omega arith)
kind_NoHeavier Kind.kind_create_index s sch = (refl, omega arith)
kind_NoHeavier Kind.kind_detach_partition s sch = (refl, omega arith)
kind_NoHeavier Kind.kind_refresh_mat_view s sch = (refl, omega arith)
kind_NoHeavier Kind.kind_refresh_mat_view_concurr s sch = (refl, omega arith)
kind_NoHeavier k s sch = NoHeavier-refl (classify_kind k (concurrently_as true k s) sch)

-- For every statement and schema, `CONCURRENTLY` changes no verdict, and never makes the lock
-- hazard heavier. This holds too of a refresh, whose concurrent form is a kind of statement.
pub classify-concurrently :
    (s : Statement) (sch : Schema)
    → ((classify (concurrently true s) sch).reversibility
        ≡ (classify (concurrently false s) sch).reversibility)
      × (lock_severity (classify (concurrently true s) sch).lock
          ≤ lock_severity (classify (concurrently false s) sch).lock)
unfolding classify concurrently
classify-concurrently s sch = if_NoHeavier s.cascade _ _ _ (kind_NoHeavier s.kind s sch)

kind_SameRule :
    (k : Kind) (b : Bool) (s : Statement) (sch : Schema)
    → SameRule (classify_kind k (carried b s) sch) (classify_kind k s sch)
unfolding reverse_grant classify_kind carried classify_drop_table classify_drop_column
    classify_truncate classify_drop_schema classify_drop_type classify_drop_constraint
    classify_drop_mat_view classify_drop_policy classify_drop_not_null classify_drop_default
    classify_create_table classify_create_view classify_create_type classify_create_extension
    classify_create_schema classify_create_sequence classify_create_function classify_create_trigger
    classify_create_mat_view classify_create_mat_view_no_data classify_create_policy
    classify_replace_view classify_replace_function classify_add_constraint_using_index
    classify_validate_constraint classify_set_not_null classify_set_default classify_add_enum_value
    classify_rename_index classify_set_rel_options classify_set_logged classify_attach_partition
    classify_enable_rls classify_disable_rls classify_grant classify_comment classify_set_variable
    classify_lock_table classify_analyze classify_vacuum classify_vacuum_full classify_insert
    classify_upsert classify_alter_column_type classify_add_column classify_add_constraint
    classify_rename classify_dml classify_alter_sequence_restart classify_drop_index
    classify_drop_derived classify_create_index classify_refresh_mat_view classify_detach_partition
kind_SameRule Kind.kind_delete b s sch =
    if_SameRule (not s.has_where) _ _ _ _ (refl, refl, refl, refl) (refl, refl, refl, refl)
kind_SameRule Kind.kind_update b s sch =
    if_SameRule (not s.has_where) _ _ _ _ (refl, refl, refl, refl) (refl, refl, refl, refl)
kind_SameRule _ b s sch = (refl, refl, refl, refl)

-- Whether a statement's effect is carried by a CTE or not changes neither its rule, nor its
-- verdict, its lock hazard and its undo.
pub classify-carried :
    (b : Bool) (s : Statement) (sch : Schema)
    → SameRule (classify (carried b s) sch) (classify s sch)
unfolding classify carried
classify-carried b s sch =
    if_SameRule s.cascade _ _ _ _ (refl, refl, refl, refl) (kind_SameRule s.kind b s sch)
