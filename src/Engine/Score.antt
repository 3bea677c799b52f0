-- ===== src/Engine/Score.antt =====
-- The grade of a changeset (internal/engine/scorer.go).
mod Loop
mod Caps
pub mod Rules
pub mod Order
pub mod Clean
pub mod Causes
use mathlib.Core.List.{foldl}
use reversibility_engine.Prelude.Text.{Text, text, quote, decimal, join}
use reversibility_engine.Prelude.Sort.{sort_strings}
use reversibility_engine.Prelude.{
  ℕ, ◌+◌, Bool, true, false, not, ◌&&◌, ◌||◌, List, [], ◌∷◌, ◌++◌, Option, none, some, ltb, leb,
  if◌then◌else◌, is_empty, length, map, keep, all,
}
use reversibility_engine.Domain.Verdict
use reversibility_engine.Domain.Verdict.{
  Reversibility, costly, reversible, irreversible, unknown, will_fail, verdict_text, is_costly,
  is_reversible, LockHazard, lock_none, lock_full_scan, lock_table_rewrite, at_least, lock_text,
}
use reversibility_engine.Domain.Grade.{
  Grade, grade_a, grade_b, grade_c, grade_f, not_applicable, cap_at, grade_eq, is_unset, is_a,
  grade_text, AnalysisOutcome, analyzed, no_candidates, unsupported_content,
}
use reversibility_engine.Domain.Finding.{
  Finding, FindingContext, band_cap, band_text, DownMigrationStatus,
}
use reversibility_engine.Engine.Remedy.{
  partial_coverage_blocker, rendering_remedy, unsupported_content_blockers,
}

-- `scoreInput`.
pub record ScoreInput : Type 0 where
  pub findings : List Finding
  pub down_migrations : List DownMigrationStatus
  pub analyzer_errors : List Text
  pub outcome : AnalysisOutcome
  pub unsupported : List Text

-- `scoreResult`.
pub record ScoreResult : Type 0 where
  pub grade : Grade
  pub blockers : List Text
  pub causes : List Text

-- `location`.
unfoldable pub location : Finding → Text
unfolding decimal
location f = if ltb 0 f.line then f.file ++ (text ":" ++ decimal f.line) else f.file

-- `rule at location` and what is said of it.
abbrev finding_line : Finding → Text → Text → Text
finding_line f middle rest = f.rule_id ++ (text " at " ++ (location f ++ (middle ++ rest)))

pub blocker_for : Reversibility → Finding → Option Text
unfolding location verdict_text quote
blocker_for (Reversibility.other s) f =
    some (finding_line f (text ": produced an unrecognised verdict ") (quote s))
blocker_for irreversible f = some (finding_line f (text ": irreversible — ") f.rationale)
blocker_for unknown f = some (finding_line f (text ": unknown — ") f.rationale)
blocker_for will_fail f = some (finding_line f (text ": will not apply — ") f.rationale)
blocker_for _ f = none

abbrev add_blocker : Option Text → List Text → List Text
add_blocker none rest = rest
add_blocker (some b) rest = b ∷ rest

-- The loop of `blockingFindings`.
unfoldable pub collect_blockers : List Finding → List Text
unfolding blocker_for
collect_blockers [] = []
collect_blockers (f ∷ fs) = add_blocker (blocker_for f.reversibility f) (collect_blockers fs)

-- `blockingFindings`.
unfoldable pub blocking_findings : List Finding → List Text
blocking_findings fs = sort_strings (collect_blockers fs)

abbrev pub is_sound : DownMigrationStatus → Bool
is_sound s = s.exists && s.parses

-- `downMigrationsAreSound`.
unfoldable pub down_migrations_are_sound : List DownMigrationStatus → Bool
down_migrations_are_sound statuses = all statuses is_sound

abbrev or : Text → Text → Text
or s fallback = if is_empty s then fallback else s

-- `unsoundDownMigrations`.
unfoldable pub unsound_down_migrations : List DownMigrationStatus → List Text
unfolding sort_strings
unsound_down_migrations statuses =
    let out = map (λ s. or s.up_file s.migration) (keep (λ s. not (is_sound s)) statuses) in
    if is_empty out then text "a migration in this changeset" ∷ [] else sort_strings out

-- `failedARowConditions`.
unfoldable pub failed_a_row_conditions : Bool → LockHazard → Bool → Text
unfolding at_least lock_text join
failed_a_row_conditions all_reversible worst_lock down_ok = join (text ", ") (
    (if not all_reversible then text "not every finding is REVERSIBLE" ∷ [] else [])
    ++ ((if at_least worst_lock lock_full_scan
          then (text "the worst lock is " ++ lock_text worst_lock) ∷ []
          else [])
        ++ (if not down_ok then text "a down migration is missing or unparseable" ∷ [] else [])))

-- What the loop over the findings counts.
pub record Tally : Type 0 where
  pub costly : ℕ
  pub all_reversible : Bool
  pub worst_lock : LockHazard

pub tally_step : Tally → Finding → Tally
unfolding at_least
tally_step t f = record {
  costly = if is_costly f.reversibility then t.costly + 1 else t.costly;
  all_reversible = if not (is_reversible f.reversibility) then false else t.all_reversible;
  worst_lock = if at_least f.lock_hazard t.worst_lock then f.lock_hazard else t.worst_lock;
}

unfoldable pub tally : List Finding → Tally
unfolding tally_step
tally = foldl tally_step (record { costly = 0; all_reversible = true; worst_lock = lock_none })

-- The grade so far and its causes: the variables that `applyCap` changes.
pub record Scoring : Type 0 where
  pub grade : Grade
  pub causes : List Text

-- The assignment.
pub assign : ℕ → Scoring
unfolding decimal
assign n =
    if leb 3 n
    then record {
      grade = grade_c;
      causes = (text "assigned C: " ++ (decimal n ++ text " findings are COSTLY to reverse")) ∷ [];
    }
    else (if leb 1 n
        then record {
          grade = grade_b;
          causes =
              (text "assigned B: " ++ (decimal n ++ text " finding(s) are COSTLY to reverse")) ∷ [];
        }
        else record {
          grade = grade_a;
          causes = text "assigned A: every finding is REVERSIBLE" ∷ [];
        })

-- `applyCap`: a cap that lowers the grade is recorded.
pub apply_cap : Grade → Text → Scoring → Scoring
unfolding cap_at grade_eq grade_text
apply_cap limit reason s =
    let capped = cap_at s.grade limit in
    record {
      grade = capped;
      causes =
          if not (grade_eq capped s.grade)
          then s.causes ++ (text "capped at " ++ (grade_text limit ++ (text ": " ++ reason))) ∷ []
          else s.causes;
    }

pub apply_band : Finding → Option FindingContext → Scoring → Scoring
unfolding apply_cap band_cap band_text location
apply_band f none s = s
apply_band f (some c) s =
    let limit = band_cap c.lock_duration_band in
    if not (is_unset limit)
    then apply_cap limit
        (finding_line f (text " holds its lock for an estimated ") (
          c.estimated_lock_duration ++ (text " (" ++ (band_text c.lock_duration_band ++ text ")"))))
        s
    else s

-- The loop over the lock duration bands.
pub apply_bands : List Finding → Scoring → Scoring
unfolding apply_band
apply_bands [] s = s
apply_bands (f ∷ fs) s = apply_bands fs (apply_band f f.context s)

pub cap_down : Bool → List DownMigrationStatus → Scoring → Scoring
unfolding apply_cap unsound_down_migrations join
cap_down down_ok statuses s =
    if not down_ok
    then apply_cap grade_c
        (text "no usable down migration for "
          ++ join (text ", ") (unsound_down_migrations statuses))
        s
    else s

pub cap_lock : LockHazard → Scoring → Scoring
unfolding apply_cap at_least lock_text
cap_lock worst s =
    if at_least worst lock_table_rewrite
    then apply_cap grade_b
        (text "a " ++ (lock_text worst ++ text " lock is held while the change is applied")) s
    else s

pub cap_a_row : Bool → LockHazard → Bool → Scoring → Scoring
unfolding apply_cap at_least failed_a_row_conditions
cap_a_row all_reversible worst down_ok s =
    if not all_reversible || (at_least worst lock_full_scan || not down_ok)
    then apply_cap grade_b
        (text
            "grade A requires every finding REVERSIBLE, a lock no worse than SHORT, and a valid down migration; "
          ++ failed_a_row_conditions all_reversible worst down_ok)
        s
    else s

pub close : Scoring → ScoreResult
close s = record {
  grade = s.grade;
  blockers = [];
  causes = if is_a s.grade then s.causes ++ text "nothing capped this grade" ∷ [] else s.causes;
}

-- The part of `score` below the outcome: assign, cap, explain.
unfoldable pub measure : List Finding → List DownMigrationStatus → ScoreResult
unfolding close down_migrations_are_sound
measure findings statuses =
    let t = tally findings in
    let down_ok = down_migrations_are_sound statuses in
    close (
      cap_a_row t.all_reversible t.worst_lock down_ok (
        apply_bands findings (cap_lock t.worst_lock (cap_down down_ok statuses (assign t.costly)))))

pub partial_result : List Text → ScoreResult
partial_result unsupported = record {
  grade = grade_f;
  blockers =
      partial_coverage_blocker
      ∷ (map (λ p. text "not analyzed: " ++ p) unsupported ++ rendering_remedy unsupported);
  causes =
      (text "graded F: coverage is PARTIAL — "
        ++ (decimal (length unsupported)
            ++ text " file(s) in migration directories were not analyzed"))
      ∷ [];
}

-- The `switch` on the outcome.
pub score_outcome : AnalysisOutcome → ScoreInput → ScoreResult
score_outcome analyzed input =
    if not (is_empty input.unsupported)
    then partial_result input.unsupported
    else measure input.findings input.down_migrations
score_outcome no_candidates input = record {
  grade = not_applicable;
  blockers = [];
  causes = text "not graded: the changeset held no file any analyzer could claim" ∷ [];
}
score_outcome unsupported_content input = record {
  grade = not_applicable;
  blockers = unsupported_content_blockers input.unsupported;
  causes = text "not graded: no analyzer could read the files in this changeset" ∷ [];
}
score_outcome (AnalysisOutcome.other s) input = record {
  grade = grade_f;
  blockers =
      text
        "the engine could not establish what this run analyzed, so nothing about it can be certified"
      ∷ [];
  causes = text "graded F: the shape of this run could not be established" ∷ [];
}

pub incomplete_result : List Text → ScoreResult
incomplete_result errors = record {
  grade = grade_f;
  blockers = sort_strings (map (λ e. text "analysis did not complete: " ++ e) errors);
  causes =
      text
        "graded F: the analysis did not complete, so nothing about this change could be established"
      ∷ [];
}

pub blocked_result : List Text → ScoreResult
blocked_result blockers = record {
  grade = grade_f;
  blockers = blockers;
  causes =
      (text "graded F by "
        ++ (decimal (length blockers) ++ text " blocking finding(s), listed above"))
      ∷ [];
}

-- `score`.
unfoldable pub score : ScoreInput → ScoreResult
unfolding incomplete_result blocked_result score_outcome partial_result
score input =
    if not (is_empty input.analyzer_errors)
    then incomplete_result input.analyzer_errors
    else (let blockers = blocking_findings input.findings in
        if not (is_empty blockers)
        then blocked_result blockers
        else score_outcome input.outcome input)
