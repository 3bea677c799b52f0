-- ===== src/Postgres/Sound.antt =====
-- Every rule of `classify` fits the printed table, and names an undo exactly where the verdict
-- promises one.
use reversibility_engine.Prelude.Text.{Text, text, text_eq}
use reversibility_engine.Prelude.Format.{format}
use reversibility_engine.Prelude.{
  Bool, true, false, not, ◌&&◌, ◌≡◌, refl, arith, is_empty, Bool-cases, inl, inr, if◌then◌else◌,
  Option, some, none,
}
use reversibility_engine.Domain.Verdict.{
  Reversibility, verdict_text, lock_text, reversible, irreversible, unknown,
}
use reversibility_engine.Postgres.Table.{is_documented, rule_table}
use reversibility_engine.Postgres.Schema.{Schema, column_type_of}
use reversibility_engine.Postgres.Width.{WidthChange, compare_types}
use reversibility_engine.Postgres.Statement.{Kind, Statement, SqlType, ConstraintKind}
use reversibility_engine.Postgres.Classification.{
  Classification, unclassified, reverse_grant-nonempty,
}
use reversibility_engine.Postgres.Rules.{classify, classify_kind}
use reversibility_engine.Postgres.Rules.Drops.{
  classify_drop_table, classify_drop_column, classify_truncate, classify_drop_schema,
  classify_drop_type, classify_drop_constraint, classify_drop_mat_view, classify_drop_policy,
  classify_drop_not_null, classify_drop_default,
}
use reversibility_engine.Postgres.Rules.Creates.{
  classify_create_table, classify_create_view, classify_create_type, classify_create_extension,
  classify_create_schema, classify_create_sequence, classify_create_function,
  classify_create_trigger, classify_create_mat_view, classify_create_mat_view_no_data,
  classify_create_policy,
}
use reversibility_engine.Postgres.Rules.Alters.{
  classify_replace_view, classify_replace_function, classify_add_constraint_using_index,
  classify_validate_constraint, classify_set_not_null, classify_set_default,
  classify_add_enum_value, classify_rename_index, classify_set_rel_options, classify_set_logged,
  classify_attach_partition, classify_enable_rls, classify_disable_rls,
}
use reversibility_engine.Postgres.Rules.Session.{
  classify_grant, classify_comment, classify_set_variable, classify_lock_table, classify_analyze,
  classify_vacuum, classify_vacuum_full, classify_insert, classify_upsert,
}
use reversibility_engine.Postgres.Rules.Columns.{
  rename_of, constraint_of, conversion_of, classify_cascade, classify_width,
  classify_alter_column_type, classify_add_column, classify_add_constraint, classify_rename,
}
use reversibility_engine.Postgres.Rules.Branches.{
  refresh_lock, classify_dml, classify_alter_sequence_restart, classify_drop_index,
  classify_drop_derived, classify_create_index, classify_refresh_mat_view,
  classify_detach_partition,
}

-- An undo where the change is reversible, and none where it is lost or unknown.
unfoldable pub undo_fits : Reversibility → Text → Bool
undo_fits reversible undo = not (is_empty undo)
undo_fits irreversible undo = is_empty undo
undo_fits unknown undo = is_empty undo
undo_fits _ undo = true

fits_table : Classification → Bool
fits_table c = is_documented c && undo_fits c.reversibility c.undo

if_sound :
    (b : Bool) (x y : Classification)
    → fits_table x ≡ true
    → fits_table y ≡ true
    → fits_table (if b then x else y) ≡ true
if_sound true x y h k = h
if_sound false x y h k = k

dml_sound : (s : Statement) → fits_table (classify_dml s) ≡ true
unfolding fits_table is_documented undo_fits format text text_eq verdict_text lock_text rule_table
    classify_dml
dml_sound s = if_sound (not s.has_where) _ _ refl refl

drop_index_sound : (s : Statement) → fits_table (classify_drop_index s) ≡ true
unfolding fits_table is_documented undo_fits format text text_eq verdict_text lock_text rule_table
    classify_drop_index
drop_index_sound s = if_sound (s.concurrent) _ _ refl refl

create_index_sound : (s : Statement) → fits_table (classify_create_index s) ≡ true
unfolding fits_table is_documented undo_fits format text text_eq verdict_text lock_text rule_table
    classify_create_index
create_index_sound s = if_sound (s.concurrent) _ _ refl refl

detach_partition_sound : (s : Statement) → fits_table (classify_detach_partition s) ≡ true
unfolding fits_table is_documented undo_fits format text text_eq verdict_text lock_text rule_table
    classify_detach_partition
detach_partition_sound s = elim (Bool-cases s.concurrent) [ inl e ↦ rw e refl | inr e ↦ rw e refl ]

alter_sequence_restart_sound :
    (s : Statement) → fits_table (classify_alter_sequence_restart s) ≡ true
unfolding fits_table is_documented undo_fits format text text_eq verdict_text lock_text rule_table
    classify_alter_sequence_restart
alter_sequence_restart_sound s = refl

drop_derived_sound : (s : Statement) → fits_table (classify_drop_derived s) ≡ true
unfolding fits_table is_documented undo_fits format text text_eq verdict_text lock_text rule_table
    classify_drop_derived
drop_derived_sound s = refl

rename_of_sound :
    (k : Kind) (relation object new_name : Text)
    → fits_table (rename_of k relation object new_name) ≡ true
unfolding fits_table is_documented undo_fits format text text_eq verdict_text lock_text rule_table
    rename_of
rename_of_sound Kind.kind_rename_table relation object new_name = refl
rename_of_sound _ relation object new_name = refl

rename_sound : (s : Statement) → fits_table (classify_rename s) ≡ true
unfolding classify_rename
rename_sound s = rename_of_sound s.kind s.relation s.object s.new_name

refresh_of_sound :
    (k : Kind) (r u : Text)
    → is_empty u ≡ false
    → fits_table (record {
      rule_id = text "PG047";
      reversibility = reversible;
      lock = refresh_lock k;
      rationale = r;
      undo = u;
    })
      ≡ true
unfolding fits_table is_documented undo_fits format text text_eq verdict_text lock_text rule_table
    refresh_lock
refresh_of_sound Kind.kind_refresh_mat_view_concurr r u h = rw h refl
refresh_of_sound _ r u h = rw h refl

refresh_mat_view_sound : (s : Statement) → fits_table (classify_refresh_mat_view s) ≡ true
unfolding classify_refresh_mat_view format text
refresh_mat_view_sound s = refresh_of_sound s.kind _ _ refl

add_column_sound : (s : Statement) → fits_table (classify_add_column s) ≡ true
unfolding fits_table is_documented undo_fits format text text_eq verdict_text lock_text rule_table
    classify_add_column
add_column_sound s =
    if_sound (s.not_null && not s.has_default) _ _ refl
      (if_sound (s.has_default && s.volatile_default) _ _ refl refl)

constraint_of_sound :
    (k : ConstraintKind) (object u : Text)
    → is_empty u ≡ false
    → fits_table (constraint_of k object u) ≡ true
unfolding fits_table is_documented undo_fits format text text_eq verdict_text lock_text rule_table
    constraint_of unclassified
constraint_of_sound ConstraintKind.constraint_foreign_key object u h = rw h refl
constraint_of_sound ConstraintKind.constraint_check object u h = rw h refl
constraint_of_sound _ object u h = refl

add_constraint_sound : (s : Statement) → fits_table (classify_add_constraint s) ≡ true
unfolding classify_add_constraint fits_table is_documented undo_fits format text text_eq
    verdict_text lock_text rule_table
add_constraint_sound s =
    if_sound s.not_valid _ _ refl (constraint_of_sound s.constraint_kind s.object _ refl)

width_sound :
    (w : WidthChange) (relation object : Text) (from to : SqlType)
    → fits_table (classify_width w relation object from to) ≡ true
unfolding fits_table is_documented undo_fits format text text_eq verdict_text lock_text rule_table
    classify_width unclassified
width_sound WidthChange.width_narrowing relation object from to = refl
width_sound WidthChange.width_widening relation object from to = refl
width_sound _ relation object from to = refl

conversion_of_sound :
    (to from : Option SqlType) (relation object : Text)
    → fits_table (conversion_of to from relation object) ≡ true
unfolding fits_table is_documented undo_fits format text text_eq verdict_text lock_text rule_table
    conversion_of unclassified
conversion_of_sound none from relation object = refl
conversion_of_sound (some to) none relation object = refl
conversion_of_sound (some to) (some from) relation object =
    width_sound (compare_types from to) relation object from to

alter_column_type_sound :
    (s : Statement) (sch : Schema) → fits_table (classify_alter_column_type s sch) ≡ true
unfolding classify_alter_column_type
alter_column_type_sound s sch =
    conversion_of_sound s.column_type (column_type_of sch s.relation s.object) s.relation s.object

grant_sound : (s : Statement) → fits_table (classify_grant s) ≡ true
unfolding fits_table is_documented undo_fits format text text_eq verdict_text lock_text rule_table
    classify_grant
grant_sound s = rw (reverse_grant-nonempty s) refl

kind_sound : (k : Kind) (s : Statement) (sch : Schema) → fits_table (classify_kind k s sch) ≡ true
unfolding fits_table is_documented undo_fits format text text_eq verdict_text lock_text rule_table
    classify_kind unclassified classify_drop_table classify_drop_column classify_truncate
    classify_drop_schema classify_drop_type classify_drop_constraint classify_drop_mat_view
    classify_drop_policy classify_drop_not_null classify_drop_default classify_create_table
    classify_create_view classify_create_type classify_create_extension classify_create_schema
    classify_create_sequence classify_create_function classify_create_trigger
    classify_create_mat_view classify_create_mat_view_no_data classify_create_policy
    classify_replace_view classify_replace_function classify_add_constraint_using_index
    classify_validate_constraint classify_set_not_null classify_set_default classify_add_enum_value
    classify_rename_index classify_set_rel_options classify_set_logged classify_attach_partition
    classify_enable_rls classify_disable_rls classify_comment classify_set_variable
    classify_lock_table classify_analyze classify_vacuum classify_vacuum_full classify_insert
    classify_upsert
kind_sound Kind.kind_alter_column_type s sch = alter_column_type_sound s sch
kind_sound Kind.kind_delete s sch = dml_sound s
kind_sound Kind.kind_update s sch = dml_sound s
kind_sound Kind.kind_alter_sequence_restart s sch = alter_sequence_restart_sound s
kind_sound Kind.kind_rename_table s sch = rename_sound s
kind_sound Kind.kind_rename_column s sch = rename_sound s
kind_sound Kind.kind_drop_index s sch = drop_index_sound s
kind_sound Kind.kind_drop_view s sch = drop_derived_sound s
kind_sound Kind.kind_drop_function s sch = drop_derived_sound s
kind_sound Kind.kind_drop_trigger s sch = drop_derived_sound s
kind_sound Kind.kind_add_column s sch = add_column_sound s
kind_sound Kind.kind_add_constraint s sch = add_constraint_sound s
kind_sound Kind.kind_create_index s sch = create_index_sound s
kind_sound Kind.kind_refresh_mat_view s sch = refresh_mat_view_sound s
kind_sound Kind.kind_refresh_mat_view_concurr s sch = refresh_mat_view_sound s
kind_sound Kind.kind_detach_partition s sch = detach_partition_sound s
kind_sound Kind.kind_grant s sch = grant_sound s
kind_sound Kind.kind_revoke s sch = grant_sound s
kind_sound _ s sch = refl

classify_sound : (s : Statement) (sch : Schema) → fits_table (classify s sch) ≡ true
unfolding classify fits_table is_documented undo_fits text text_eq verdict_text lock_text rule_table
    classify_cascade
classify_sound s sch = if_sound s.cascade _ _ refl (kind_sound s.kind s sch)

-- Whatever the statement and the schema before it, the verdict and the lock hazard of its
-- classification are those that the table of docs/RULES.md prints for its rule.
pub is_documented-classify : (s : Statement) (sch : Schema) → is_documented (classify s sch) ≡ true
unfolding fits_table
is_documented-classify s sch = ground (arith, classify_sound s sch)

-- Whatever the statement and the schema before it, a reversible change is given an undo step, and
-- an irreversible or unknown one is given none.
pub undo_fits-classify :
    (s : Statement) (sch : Schema)
    → undo_fits (classify s sch).reversibility (classify s sch).undo ≡ true
unfolding fits_table
undo_fits-classify s sch = ground (arith, classify_sound s sch)
