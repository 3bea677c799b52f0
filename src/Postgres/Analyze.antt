-- ===== src/Postgres/Analyze.antt =====
-- The analysis of a changeset (internal/analyzer/postgres/postgres.go). The parser is a parameter:
-- the statements of a text, or the error. `ctx n` is what `ctx.Err()` gives at its n-th reading.
use reversibility_engine.Prelude.Sort.{sort_by}
use reversibility_engine.Prelude.Result.{Result, ok, err, ◌>>=◌, >>=-eq-ok, ok_injective}
use reversibility_engine.Prelude.Format.{format}
use reversibility_engine.Prelude.Words.{split_lines, contains_text}
use reversibility_engine.Prelude.Text.{Text, text, text_eq, text_lt, trim_space}
use reversibility_engine.Prelude.{
  ℕ, suc, Bool, true, false, not, ◌&&◌, Option, none, some, List, [], ◌∷◌, ◌++◌, is_empty,
  if◌then◌else◌, ◌⊎◌, ◌≡◌, refl, sym, inl, inr,
}
use reversibility_engine.Domain.Verdict.{unknown, lock_exclusive}
use reversibility_engine.Domain.Finding.{Finding, sort_findings}
use reversibility_engine.Domain.Located.{
  Located, ChangedFile, ChangeStatus, removed, extension, location,
}
use reversibility_engine.Postgres.Statement.{Statement}
use reversibility_engine.Postgres.Classification.{Classification}
use reversibility_engine.Postgres.Schema.{Schema, new_schema, schema_apply}
use reversibility_engine.Postgres.Rules.{classify}
use reversibility_engine.Postgres.Normal.{normalize_statement}
use reversibility_engine.Postgres.Migration.{classify_path}

-- `SQLParser.Parse`.
abbrev pub Parser : Type 0
Parser = Text → Result (List Statement)

-- `ctx.Err()`, by how often it has been read.
abbrev pub Context : Type 0
Context = ℕ → Option Text

-- `Supports`.
unfoldable pub postgres_supports : Located → Bool
unfolding extension text_eq text
postgres_supports at = text_eq (extension at) (text ".sql")

-- `f.IsRemoved()`.
unfoldable pub is_removed : ChangeStatus → Bool
is_removed removed = true
is_removed _ = false

first_line_from : ℕ → List Text → ℕ
unfolding trim_space
first_line_from n [] = 1
first_line_from n (l ∷ ls) =
    let rest = first_line_from (suc n) ls in if not (is_empty (trim_space l)) then n else rest

-- `parseErrorLine`: the number of the first line that is not blank.
unfoldable pub parse_error_line : Text → ℕ
unfolding first_line_from split_lines
parse_error_line sql = first_line_from 1 (split_lines sql)

first_of : List Text → Text
unfolding trim_space
first_of [] = []
first_of (l ∷ ls) =
    let rest = first_of ls in if not (is_empty (trim_space l)) then trim_space l else rest

-- `firstNonEmptyLine`.
unfoldable pub first_non_empty_line : Text → Text
unfolding first_of split_lines
first_non_empty_line sql = first_of (split_lines sql)

-- `templateMarkers`.
unfoldable pub template_markers : List Text
unfolding text
template_markers = text "{{" ∷ text "{%" ∷ text "<%" ∷ []

rationale_from : List Text → Text → Text → Text
unfolding contains_text format text
rationale_from [] sql why =
    format (text "This migration could not be parsed, so nothing in it can be classified: %v.")
      (why ∷ [])
rationale_from (m ∷ ms) sql why =
    let rest = rationale_from ms sql why in
    let template : Text =
      format
        (text
          "This file appears to be a template rather than SQL — it contains %q — and this engine does not render templates. It was not analyzed, so nothing about its reversibility is known. Render it first and analyze the output. (Parser: %v.)")
        (m ∷ why ∷ []) in
    if contains_text sql m then template else rest

-- `parseFailureRationale`.
unfoldable pub parse_failure_rationale : Text → Text → Text
unfolding rationale_from template_markers
parse_failure_rationale sql why = rationale_from template_markers sql why

-- The finding of a file that does not parse.
unfoldable pub unparsed_finding : ChangedFile → Text → Finding
unfolding parse_error_line first_non_empty_line parse_failure_rationale normalize_statement text
unparsed_finding f why = record {
  rule_id = text "PG027";
  file = f.path;
  line = parse_error_line f.current;
  statement = normalize_statement (first_non_empty_line f.current);
  reversibility = unknown;
  lock_hazard = lock_exclusive;
  rationale = parse_failure_rationale f.current why;
  undo_step = [];
  subject = record { relation = []; object = [] };
  context = none;
}

-- The finding of one statement.
unfoldable pub statement_finding : ChangedFile → Statement → Classification → Finding
unfolding normalize_statement
statement_finding f s c = record {
  rule_id = c.rule_id;
  file = f.path;
  line = s.line;
  statement = normalize_statement s.sql;
  reversibility = c.reversibility;
  lock_hazard = c.lock;
  rationale = c.rationale;
  undo_step = c.undo;
  subject = record { relation = s.relation; object = s.object };
  context = none;
}

-- The loop of `analyzeFile`: a statement is judged against the schema before it.
unfoldable pub classify_all : ChangedFile → List Statement → Schema → List Finding × Schema
unfolding statement_finding classify schema_apply
classify_all f [] sch = ([], sch)
classify_all f (s ∷ ss) sch =
    let rest = classify_all f ss (schema_apply sch s) in
    (statement_finding f s (classify s sch) ∷ rest.0, rest.1)

unfoldable pub file_findings :
    ChangedFile → Schema → Result (List Statement) → List Finding × Schema
unfolding classify_all unparsed_finding
file_findings f sch (err why) = (unparsed_finding f why ∷ [], sch)
file_findings f sch (ok ss) = classify_all f ss sch

-- `analyzeFile`: the findings of a file, and the schema after it.
unfoldable pub analyze_file : Parser → ChangedFile → Schema → List Finding × Schema
unfolding file_findings
analyze_file parse f sch = file_findings f sch (parse f.current)

-- The file is an up migration that exists.
unfoldable pub is_analyzed : ChangedFile → Bool
unfolding postgres_supports is_removed location classify_path
is_analyzed f =
    let role = classify_path f.path in
    postgres_supports (location f)
    && not (is_removed f.status)
    && role.is_migration
    && not role.is_down

interrupted : Text → Text
unfolding text
interrupted why = text "postgres analyzer: " ++ why

-- One turn of the loop of `Analyze`: the context is read first, and a file that is not analyzed
-- leaves the findings and the schema alone.
unfoldable pub next_file :
    Option Text
    → Bool
    → List Finding
    → Result (List Finding)
    → Result (List Finding)
    → Result (List Finding)
unfolding interrupted
next_file (some why) analyzed here kept skipped = err (interrupted why)
next_file none true here kept skipped = kept >>= (λ rest. ok (here ++ rest))
next_file none false here kept skipped = skipped

-- The loop of `Analyze` over the ordered files.
unfoldable pub analyze_files :
    Parser → Context → ℕ → List ChangedFile → Schema → Result (List Finding)
unfolding analyze_file is_analyzed next_file
analyze_files parse ctx n [] sch = ok []
analyze_files parse ctx n (f ∷ fs) sch =
    let here = analyze_file parse f sch in
    let kept = analyze_files parse ctx (suc n) fs here.1 in
    let skipped = analyze_files parse ctx (suc n) fs sch in
    next_file (ctx n) (is_analyzed f) here.0 kept skipped

-- The end of `Analyze`, where the context was live at its start.
unfoldable pub started : Option Text → Result (List Finding) → Result (List Finding)
unfolding sort_findings interrupted
started (some why) r = err (interrupted why)
started none r = r >>= (λ findings. ok (sort_findings findings))

-- The order in which migrations apply.
unfoldable pub ordered : List ChangedFile → List ChangedFile
unfolding sort_by text_lt
ordered files = sort_by (λ (a b : ChangedFile). text_lt a.path b.path) files

-- `Analyze`: no parser is an error.
unfoldable pub postgres_analyze : Option Parser → Context → List ChangedFile → Result (List Finding)
unfolding analyze_files ordered started interrupted text
postgres_analyze none ctx files = err (interrupted (text "domain: sql parser unavailable"))
postgres_analyze (some parse) ctx files =
    started (ctx 0) (analyze_files parse ctx 1 (ordered files) new_schema)

-- A turn that succeeds was not interrupted, and is one of the two.
pub next_file-eq-ok :
    (c : Option Text) (analyzed : Bool) (here : List Finding) (kept skipped : Result (List Finding))
    {found : List Finding}
    → next_file c analyzed here kept skipped ≡ ok found
    → ((analyzed ≡ true) × ((rest : List Finding) × (kept ≡ ok rest) × (found ≡ here ++ rest)))
      ⊎ ((analyzed ≡ false) × (skipped ≡ ok found))
unfolding next_file
next_file-eq-ok (some why) analyzed here kept skipped h = cc
next_file-eq-ok none true here kept skipped h =
    let (rest, e, e') = >>=-eq-ok kept (λ rest. ok (here ++ rest)) h in
    inl (refl, (rest, e, sym (ok_injective e')))
next_file-eq-ok none false here kept skipped h = inr (refl, h)

-- A run that succeeds sorts what the loop found.
pub started-eq-ok :
    (c : Option Text) (r : Result (List Finding)) {found : List Finding}
    → started c r ≡ ok found
    → (fs : List Finding) × (r ≡ ok fs) × (found ≡ sort_findings fs)
unfolding started
started-eq-ok (some why) r h = cc
started-eq-ok none r h =
    let (fs, e, e') = >>=-eq-ok r (λ fs. ok (sort_findings fs)) h in (fs, e, sym (ok_injective e'))
