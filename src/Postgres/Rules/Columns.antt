-- ===== src/Postgres/Rules/Columns.antt =====
-- The branching rules of `classify` in internal/analyzer/postgres/rules.go: conversions, renames and columns.
use reversibility_engine.Prelude.Text.{Text, text}
use reversibility_engine.Prelude.Format.{format}
use reversibility_engine.Prelude.{not, ◌&&◌, Option, none, some, [], ◌∷◌, if◌then◌else◌}
use reversibility_engine.Domain.Verdict.{
  reversible, costly, irreversible, lock_none, lock_short, lock_full_scan, lock_table_rewrite,
  lock_exclusive,
}
use reversibility_engine.Postgres.Width.{
  compare_types, WidthChange, width_narrowing, width_widening,
}
use reversibility_engine.Postgres.Schema.{Schema, column_type_of}
use reversibility_engine.Postgres.Statement.{Kind, ConstraintKind, SqlType, type_text, Statement}
use reversibility_engine.Postgres.Classification.{Classification, or, qualified, unclassified}

-- PG005, which overrides every other rule.
unfoldable pub classify_cascade : Classification
unfolding text
classify_cascade = record {
  rule_id = text "PG005";
  reversibility = irreversible;
  lock = lock_exclusive;
  rationale =
      text
        "CASCADE silently drops every dependent object, and which objects those are cannot be known from the migration, so the blast radius is unbounded and no undo can be written.";
  undo = [];
}

-- The verdict on a conversion between two known types.
unfoldable pub classify_width : WidthChange → Text → Text → SqlType → SqlType → Classification
unfolding format qualified unclassified type_text text
classify_width width_narrowing relation object from to = record {
  rule_id = text "PG006";
  reversibility = irreversible;
  lock = lock_table_rewrite;
  rationale =
      format
        (text
          "Converting %s from %s to %s narrows the type, and any value that does not fit is truncated or rejected with no record of what it was.")
        (qualified relation object ∷ type_text from ∷ type_text to ∷ []);
  undo = [];
}
classify_width width_widening relation object from to = record {
  rule_id = text "PG007";
  reversibility = costly;
  lock = lock_table_rewrite;
  rationale =
      format
        (text
          "Widening %s from %s to %s loses no values, but reverting fails once a value too large for %s has been written.")
        (qualified relation object ∷ type_text from ∷ type_text to ∷ type_text from ∷ []);
  undo =
      format (text "ALTER TABLE %s ALTER COLUMN %s TYPE %s;")
        (relation ∷ object ∷ type_text from ∷ []);
}
classify_width _ relation object from to = unclassified (
    format
      (text
        "the conversion of %s from %s to %s is not one the classification table covers, so whether it loses data is unknown")
      (qualified relation object ∷ type_text from ∷ type_text to ∷ []))

unfoldable pub conversion_of : Option SqlType → Option SqlType → Text → Text → Classification
unfolding format qualified unclassified compare_types classify_width text
conversion_of none from relation object = unclassified (
    text
      "the target type of this column conversion could not be resolved, so whether it truncates data is unknown")
conversion_of (some to) none relation object = unclassified (
    format
      (text
        "the prior type of %s was not declared anywhere in this changeset, so whether this conversion widens or narrows cannot be determined")
      (qualified relation object ∷ []))
conversion_of (some to) (some from) relation object =
    classify_width (compare_types from to) relation object from to

-- `classifyAlterColumnType`: PG006, PG007, and PG027 where the types are not known.
unfoldable pub classify_alter_column_type : Statement → Schema → Classification
unfolding conversion_of column_type_of
classify_alter_column_type s sch =
    conversion_of s.column_type (column_type_of sch s.relation s.object) s.relation s.object

-- `classifyAddColumn`: PG018, PG019 and PG020.
unfoldable pub classify_add_column : Statement → Classification
unfolding format qualified text
classify_add_column s =
    let undo_step : Text =
      format (text "ALTER TABLE %s DROP COLUMN %s;") (s.relation ∷ s.object ∷ []) in
    let col : Text = qualified s.relation s.object in
    let fails : Classification = record {
      rule_id = text "PG018";
      reversibility = costly;
      lock = lock_exclusive;
      rationale =
          format
            (text
              "Adding %s as NOT NULL with no DEFAULT fails outright on a non-empty table, which aborts the migration mid-deploy and leaves the release wedged.")
            (col ∷ []);
      undo = undo_step;
    } in
    let rewrites : Classification = record {
      rule_id = text "PG019";
      reversibility = reversible;
      lock = lock_table_rewrite;
      rationale =
          format
            (text
              "Dropping %s undoes this completely, but a volatile default must be evaluated for every existing row, which rewrites the whole table.")
            (col ∷ []);
      undo = undo_step;
    } in
    let cheap : Classification = record {
      rule_id = text "PG020";
      reversibility = reversible;
      lock = lock_none;
      rationale =
          format
            (text
              "Adding %s is the safest schema change available: a constant default is stored in the catalog rather than written to every row.")
            (col ∷ []);
      undo = undo_step;
    } in
    if s.not_null && not s.has_default
    then fails
    else (if s.has_default && s.volatile_default then rewrites else cheap)

unfoldable pub constraint_of : ConstraintKind → Text → Text → Classification
unfolding format or unclassified text
constraint_of ConstraintKind.constraint_foreign_key object undo_step = record {
  rule_id = text "PG021";
  reversibility = reversible;
  lock = lock_full_scan;
  rationale =
      format
        (text
          "Constraint %s is reversible by dropping it, but without NOT VALID every existing row is validated under lock.")
        (or object (text "the constraint") ∷ []);
  undo = undo_step;
}
constraint_of ConstraintKind.constraint_check object undo_step = record {
  rule_id = text "PG021";
  reversibility = reversible;
  lock = lock_full_scan;
  rationale =
      format
        (text
          "Constraint %s is reversible by dropping it, but without NOT VALID every existing row is validated under lock.")
        (or object (text "the constraint") ∷ []);
  undo = undo_step;
}
constraint_of _ object undo_step = unclassified (
    format
      (text
        "constraint %s is neither a foreign key nor a check, and the classification table covers no other constraint type")
      (or object (text "of this kind") ∷ []))

-- `classifyAddConstraint`: PG021, PG022, and PG027 for the kinds that the table does not cover.
unfoldable pub classify_add_constraint : Statement → Classification
unfolding format or constraint_of text
classify_add_constraint s =
    let undo_step : Text =
      format (text "ALTER TABLE %s DROP CONSTRAINT %s;") (s.relation ∷ s.object ∷ []) in
    let unscanned : Classification = record {
      rule_id = text "PG022";
      reversibility = reversible;
      lock = lock_short;
      rationale =
          format
            (text
              "Constraint %s is added NOT VALID, so existing rows are not scanned and the change is both cheap and trivially reversible.")
            (or s.object (text "the constraint") ∷ []);
      undo = undo_step;
    } in
    if s.not_valid then unscanned else constraint_of s.constraint_kind s.object undo_step

unfoldable pub rename_of : Kind → Text → Text → Text → Classification
unfolding format qualified text
rename_of Kind.kind_rename_table relation object new_name = record {
  rule_id = text "PG012";
  reversibility = costly;
  lock = lock_short;
  rationale =
      format
        (text
          "Renaming table %s to %s breaks the previous application version, so rolling the code back fails for as long as the schema stays renamed.")
        (object ∷ new_name ∷ []);
  undo = format (text "ALTER TABLE %s RENAME TO %s;") (new_name ∷ object ∷ []);
}
rename_of _ relation object new_name = record {
  rule_id = text "PG012";
  reversibility = costly;
  lock = lock_short;
  rationale =
      format
        (text
          "Renaming column %s to %s breaks the previous application version, so rolling the code back fails for as long as the schema stays renamed.")
        (qualified relation object ∷ new_name ∷ []);
  undo = format (text "ALTER TABLE %s RENAME COLUMN %s TO %s;") (relation ∷ new_name ∷ object ∷ []);
}

-- `classifyRename`: PG012.
unfoldable pub classify_rename : Statement → Classification
unfolding rename_of
classify_rename s = rename_of s.kind s.relation s.object s.new_name
