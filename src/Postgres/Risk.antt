-- ===== src/Postgres/Risk.antt =====
-- The statements of a migration that cannot be undone or understood: the rules of
-- internal/analyzer/postgres/rules.go that give no better verdict.
use reversibility_engine.Prelude.Text.{Text}
use reversibility_engine.Prelude.{
  Bool, true, false, not, ◌||◌, ◌&&◌, ◌≡◌, refl, arith, Option, none, some, if◌then◌else◌,
}
use reversibility_engine.Domain.Verdict.{is_reversible, is_costly}
use reversibility_engine.Postgres.Schema.{Schema, column_type_of}
use reversibility_engine.Postgres.Statement.{Kind, ConstraintKind, SqlType, Statement}
use reversibility_engine.Postgres.Width.{
  WidthChange, width_unknown, width_narrowing, width_widening, width_same, compare_types,
}
use reversibility_engine.Postgres.Classification.{Classification, unclassified}
use reversibility_engine.Postgres.Rules.{classify, classify_kind}
use reversibility_engine.Postgres.Rules.Columns.{
  classify_cascade, classify_width, conversion_of, classify_alter_column_type, constraint_of,
  classify_add_constraint,
}
use reversibility_engine.Postgres.Rules.Drops.{
  classify_drop_table, classify_drop_column, classify_truncate, classify_drop_schema,
  classify_drop_type,
}
use reversibility_engine.Postgres.Rules.Alters.{classify_add_enum_value, classify_disable_rls}
use reversibility_engine.Postgres.Rules.Session.{classify_upsert}
use reversibility_engine.Postgres.Rules.Branches.{classify_dml, classify_alter_sequence_restart}

-- The kinds of statement that destroy what they touch against every schema, or that no rule knows.
unfoldable pub destroys : Kind → Bool
destroys Kind.kind_drop_table = true
destroys Kind.kind_drop_column = true
destroys Kind.kind_truncate = true
destroys Kind.kind_drop_schema = true
destroys Kind.kind_drop_database = true
destroys Kind.kind_delete = true
destroys Kind.kind_update = true
destroys Kind.kind_alter_sequence_restart = true
destroys Kind.kind_drop_type = true
destroys Kind.kind_drop_sequence = true
destroys Kind.kind_drop_extension = true
destroys Kind.kind_add_enum_value = true
destroys Kind.kind_disable_rls = true
destroys Kind.kind_upsert = true
destroys Kind.kind_unrecognized = true
destroys (Kind.kind_other k) = true
destroys _ = false

-- A constraint of a kind that the table of rules covers.
unfoldable pub is_covered : ConstraintKind → Bool
is_covered ConstraintKind.constraint_foreign_key = true
is_covered ConstraintKind.constraint_check = true
is_covered _ = false

is_widening : WidthChange → Bool
is_widening width_widening = true
is_widening _ = false

widens : Option SqlType → Option SqlType → Bool
unfolding is_widening
widens none to = false
widens (some from) none = false
widens (some from) (some to) = is_widening (compare_types from to)

-- What a statement of the kind does wrong that only the statement and the schema before it tell: a
-- constraint that is validated and of a kind without a rule, or a conversion that is not known to
-- widen the column's type.
unfoldable pub risks : Kind → Statement → Schema → Bool
unfolding is_covered widens
risks Kind.kind_add_constraint s sch = not s.not_valid && not (is_covered s.constraint_kind)
risks Kind.kind_alter_column_type s sch =
    not (widens (column_type_of sch s.relation s.object) s.column_type)
risks _ s sch = false

-- The statement says `CASCADE`, destroys something, or risks it.
unfoldable pub is_destructive : Statement → Schema → Bool
unfolding destroys risks
is_destructive s sch = s.cascade || destroys s.kind || risks s.kind s sch

unfoldable pub blocks : Classification → Bool
blocks c = not (is_reversible c.reversibility || is_costly c.reversibility)

if_blocks :
    (b : Bool) (x y : Classification)
    → blocks x ≡ true
    → blocks y ≡ true
    → blocks (if b then x else y) ≡ true
if_blocks true x y h k = h
if_blocks false x y h k = k

kind_blocks :
    (k : Kind) (s : Statement) (sch : Schema)
    → destroys k ≡ true
    → blocks (classify_kind k s sch) ≡ true
unfolding classify_kind destroys blocks classify_drop_table classify_drop_column classify_truncate
    classify_drop_schema classify_drop_type classify_add_enum_value classify_disable_rls
    classify_upsert classify_dml classify_alter_sequence_restart unclassified
kind_blocks Kind.kind_delete s sch h = if_blocks (not s.has_where) _ _ refl refl
kind_blocks Kind.kind_update s sch h = if_blocks (not s.has_where) _ _ refl refl
kind_blocks Kind.kind_drop_table s sch h = refl
kind_blocks Kind.kind_drop_column s sch h = refl
kind_blocks Kind.kind_truncate s sch h = refl
kind_blocks Kind.kind_drop_schema s sch h = refl
kind_blocks Kind.kind_drop_database s sch h = refl
kind_blocks Kind.kind_alter_sequence_restart s sch h = refl
kind_blocks Kind.kind_drop_type s sch h = refl
kind_blocks Kind.kind_drop_sequence s sch h = refl
kind_blocks Kind.kind_drop_extension s sch h = refl
kind_blocks Kind.kind_add_enum_value s sch h = refl
kind_blocks Kind.kind_disable_rls s sch h = refl
kind_blocks Kind.kind_upsert s sch h = refl
kind_blocks Kind.kind_unrecognized s sch h = refl
kind_blocks (Kind.kind_other k) s sch h = refl
kind_blocks _ s sch h = absurd (ground arith)

constraint_blocks :
    (s : Statement)
    → is_covered s.constraint_kind ≡ false
    → s.not_valid ≡ false
    → blocks (classify_add_constraint s) ≡ true
unfolding classify_add_constraint is_covered blocks constraint_of unclassified
constraint_blocks s h k = ground arith

width_blocks :
    (w : WidthChange) (relation object : Text) (from to : SqlType)
    → is_widening w ≡ false
    → blocks (classify_width w relation object from to) ≡ true
unfolding classify_width is_widening blocks unclassified
width_blocks width_narrowing relation object from to h = refl
width_blocks width_unknown relation object from to h = refl
width_blocks width_same relation object from to h = refl
width_blocks width_widening relation object from to h = cc

conversion_blocks :
    (to from : Option SqlType) (relation object : Text)
    → widens from to ≡ false
    → blocks (conversion_of to from relation object) ≡ true
unfolding conversion_of widens blocks unclassified
conversion_blocks none from relation object h = refl
conversion_blocks (some to) none relation object h = refl
conversion_blocks (some to) (some from) relation object h =
    width_blocks (compare_types from to) relation object from to h

risk_blocks :
    (k : Kind) (s : Statement) (sch : Schema)
    → risks k s sch ≡ true
    → blocks (classify_kind k s sch) ≡ true
unfolding classify_kind risks classify_alter_column_type
risk_blocks Kind.kind_add_constraint s sch h = constraint_blocks s (ground arith) (ground arith)
risk_blocks Kind.kind_alter_column_type s sch h =
    conversion_blocks s.column_type (column_type_of sch s.relation s.object) s.relation s.object
      (ground arith)
risk_blocks _ s sch h = absurd (ground arith)

cascade_blocks : blocks classify_cascade ≡ true
unfolding blocks classify_cascade
cascade_blocks = refl

pub classify-blocks :
    (s : Statement) (sch : Schema) → is_destructive s sch ≡ true → blocks (classify s sch) ≡ true
unfolding classify is_destructive
classify-blocks s sch h =
    ground (arith, cascade_blocks, kind_blocks s.kind s sch, risk_blocks s.kind s sch)
