-- ===== src/Examples/Migrations.antt =====
-- The theorems on migrations, on a changeset of two files.
use reversibility_engine.Prelude.Text.{to_upper, Text, text, text_eq, join}
use reversibility_engine.Prelude.Words.{has_prefix}
use reversibility_engine.Prelude.Result.{ok, err}
use reversibility_engine.Prelude.{
  ◌≢◌, ◌≤◌, true, false, ◌≡◌, refl, none, some, List, [], ◌∷◌, any, count_p, length, All,
  if◌then◌else◌,
}
use reversibility_engine.Domain.Verdict.{lock_severity}
use reversibility_engine.Domain.Grade.{analyzed}
use reversibility_engine.Domain.Finding.{Finding, DownMigrationStatus}
use reversibility_engine.Domain.Located.{ChangedFile, added}
use reversibility_engine.Engine.Score.{ScoreInput}
use reversibility_engine.Postgres.Statement.{Kind, ConstraintKind, Statement}
use reversibility_engine.Postgres.Schema.{new_schema}
use reversibility_engine.Postgres.Rules.{classify}
use reversibility_engine.Postgres.Migration.{pair_migrations}
use reversibility_engine.Postgres.Normal.{max_statement_length, normalize_statement, bounded}
use reversibility_engine.Postgres.Analyze.{Parser, Context, postgres_analyze}
use reversibility_engine.Postgres.Down.{validate_down_migrations}
use reversibility_engine.Postgres.Complete.{
  finding_count, documented, analyze-total, analyze-AllDocumented,
}
use reversibility_engine.Postgres.Sound.{undo_fits, undo_fits-classify}
use reversibility_engine.Postgres.Flags.{
  concurrently, carried, SameRule, classify-concurrently, classify-carried,
}
use reversibility_engine.Postgres.Levels.{IsLevelled, validate-IsLevelled}
use reversibility_engine.Postgres.Pairs.{has_key, is_keyed, count-pair_migrations}
use reversibility_engine.Postgres.Complexity.{
  guard_complexity, accepted, out_of_fuel, is_operator, is_word_operator,
}
use reversibility_engine.Postgres.Guard.{guard_complexity-ends}
use reversibility_engine.Postgres.Bounded.{
  fields, blank, length-normalize_statement, normalize_statement-eq-fields,
}

abbrev plain : Statement
plain = record {
  kind = Kind.kind_create_table;
  sql = text "CREATE TABLE orders (id int4)";
  line = 1;
  relation = text "orders";
  object = [];
  new_name = [];
  cascade = false;
  concurrent = false;
  has_where = false;
  not_valid = false;
  index = [];
  in_cte = false;
  column_type = none;
  not_null = false;
  has_default = false;
  volatile_default = false;
  constraint_kind = ConstraintKind.constraint_none;
  columns =
      record { name = text "id"; type = some (record { name = text "int4"; mods = [] }) } ∷ [];
}

abbrev dropping : Statement
dropping = record plain {
  kind = Kind.kind_drop_table;
  sql = text "DROP TABLE orders";
  relation = [];
  object = text "orders";
  columns = [];
}

abbrev refreshing : Statement
refreshing = record plain { kind = Kind.kind_refresh_mat_view; relation = text "totals" }

abbrev deleting : Statement
deleting = record plain { kind = Kind.kind_delete; in_cte = true }

-- A parser that knows two statements.
abbrev parse : Parser
parse sql =
    if text_eq sql (text "up")
    then ok (plain ∷ [])
    else (if text_eq sql (text "down") then ok (dropping ∷ []) else err (text "syntax error"))

abbrev file : Text → Text → ChangedFile
file path sql = record {
  path = path;
  previous_path = [];
  status = added;
  previous = [];
  current = sql;
  at = record { path = [] };
}

abbrev files : List ChangedFile
files =
    file (text "db/0002_orders.up.sql") (text "up")
    ∷ file (text "db/0002_orders.down.sql") (text "down")
    ∷ file (text "db/0001_broken.sql") (text "{{ x")
    ∷ []

abbrev live : Context
live n = none

analyze-total_example :
    (found : List Finding) × (postgres_analyze (some parse) live files ≡ ok found)
    × (length found ≡ finding_count parse files)
analyze-total_example = analyze-total parse live files (λ n. refl)

abbrev found : List Finding
found = (analyze-total parse live files (λ n. refl)).0

analyze-AllDocumented_example : All (λ x. documented x ≡ true) found
analyze-AllDocumented_example =
    analyze-AllDocumented parse live files found (analyze-total parse live files (λ n. refl)).1

abbrev input : ScoreInput
input = record {
  findings = found;
  down_migrations = [];
  analyzer_errors = [];
  outcome = analyzed;
  unsupported = [];
}

undo_fits-classify_example :
    undo_fits (classify dropping new_schema).reversibility (classify dropping new_schema).undo
    ≡ true
undo_fits-classify_example = undo_fits-classify dropping new_schema

classify-concurrently_example :
    ((classify (concurrently true refreshing) new_schema).reversibility
      ≡ (classify (concurrently false refreshing) new_schema).reversibility)
    × (lock_severity (classify (concurrently true refreshing) new_schema).lock
        ≤ lock_severity (classify (concurrently false refreshing) new_schema).lock)
classify-concurrently_example = classify-concurrently refreshing new_schema

classify-carried_example :
    SameRule (classify (carried false deleting) new_schema) (classify deleting new_schema)
classify-carried_example = classify-carried false deleting new_schema

abbrev first_file : ChangedFile
first_file = file (text "db/0002_orders.up.sql") (text "up")

validate-IsLevelled_example :
    (statuses : List DownMigrationStatus) × (validate_down_migrations (some parse) live files
      ≡ ok statuses)
    × All IsLevelled statuses
validate-IsLevelled_example = validate-IsLevelled parse live files refl

count-pair_migrations_example :
    count_p (has_key (text "db") (text "0002_orders")) (pair_migrations files)
    ≡ (if any files (is_keyed (text "db") (text "0002_orders")) then 1 else 0)
count-pair_migrations_example = count-pair_migrations (text "db") (text "0002_orders") files

length-normalize_statement_example :
    length (normalize_statement (text "DROP   TABLE orders")) ≤ max_statement_length
length-normalize_statement_example = length-normalize_statement (text "DROP   TABLE orders")

normalize_statement-eq-fields_example :
    normalize_statement (text "DROP   TABLE orders ")
    ≡ bounded (join blank (fields (text "DROP   TABLE orders ")))
normalize_statement-eq-fields_example = normalize_statement-eq-fields (text "DROP   TABLE orders ")

guard_complexity-ends_example : guard_complexity (text "SELECT (1+1); -- ok") ≢ out_of_fuel
guard_complexity-ends_example = guard_complexity-ends (text "SELECT (1+1); -- ok")

-- What stands in comments, quotes and bodies does not count.
guard_runs : guard_complexity (text "SELECT (1 <= 1); /* ( */ $a$ ((( $a$ '((' -- (") ≡ accepted
unfolding guard_complexity is_operator is_word_operator text text_eq to_upper has_prefix
guard_runs = refl
