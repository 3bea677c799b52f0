-- ===== src/Examples/Samples.antt =====
-- Findings, files, analyzers and policies to run the engine on.
use reversibility_engine.Prelude.Text.{Text, text}
use reversibility_engine.Prelude.Result.{ok}
use reversibility_engine.Prelude.{ℕ, Bool, List, [], ◌∷◌, Option, none}
use reversibility_engine.Domain.Verdict.{
  Reversibility, reversible, costly, irreversible, LockHazard, lock_short, lock_full_scan,
}
use reversibility_engine.Domain.Grade.{analyzed, grade_b}
use reversibility_engine.Domain.Finding.{Finding}
use reversibility_engine.Domain.Located.{Located, added, ChangedFile}
use reversibility_engine.Policy.Date.{Day}
use reversibility_engine.Policy.Apply.{Policy}
use reversibility_engine.Engine.Interfaces.{Analyzer, returns}
use reversibility_engine.Engine.Score.{ScoreInput}
use reversibility_engine.Engine.Collect.{Engine, RunConfig}

abbrev pub finding : Text → ℕ → Reversibility → LockHazard → Text → Finding
finding rule line verdict lock undo = record {
  rule_id = rule;
  file = text "migrations/1.sql";
  line = line;
  statement = text "ALTER TABLE t";
  reversibility = verdict;
  lock_hazard = lock;
  rationale = text "because";
  undo_step = undo;
  subject = record { relation = text "t"; object = [] };
  context = none;
}

abbrev pub add_column : Finding
add_column = finding (text "PG001") 1 reversible lock_short (text "DROP COLUMN c")

abbrev pub add_index : Finding
add_index = finding (text "PG002") 2 costly lock_full_scan (text "DROP INDEX i")

abbrev pub drop_table : Finding
drop_table = finding (text "PG003") 3 irreversible lock_short []

abbrev pub input_of : List Finding → ScoreInput
input_of fs = record {
  findings = fs;
  down_migrations = [];
  analyzer_errors = [];
  outcome = analyzed;
  unsupported = [];
}

abbrev pub sql_file : Text → ChangedFile
sql_file p = record {
  path = p;
  previous_path = [];
  status = added;
  previous = [];
  current = 120 ∷ [];
  at = record { path = [] };
}

-- An analyzer that reads nothing but the given file, and reports the findings.
abbrev pub reader : (Located → Bool) → List Finding → Analyzer
reader reads fs = record {
  name = text "pg";
  supports = reads;
  analyze = λ files. returns (ok fs);
  validate_down_migrations = none;
  catalog = none;
}

abbrev pub today : Day
today = record { year = 2026; month = 1; day = 15 }

abbrev pub engine_of : (Located → Bool) → List Finding → Option Policy → Engine
engine_of reads fs policy = record {
  analyzers = reader reads fs ∷ [];
  policy = policy;
  today = today;
  context = none;
}

abbrev pub config_of : List Text → RunConfig
config_of enumerated = record {
  enumerated = enumerated;
  ignored_by_policy = [];
  dead_ignores = [];
  root = [];
  anchor = [];
}

-- A waiver of the index and an override that hardens the column.
abbrev pub policy : Policy
policy = record {
  source = text ".reversibility.yml";
  gate = grade_b;
  ignore = [];
  waivers =
      record {
        rule = text "PG002";
        path = [];
        reason = text "small table";
        expires = text "2026-02-01";
        approved_by = text "ana";
      }
      ∷ [];
  overrides = record { rule = text "PG001"; severity_set = costly } ∷ [];
  terraform_types = [];
  digest = text "d";
}
