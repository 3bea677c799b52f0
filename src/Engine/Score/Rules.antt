-- ===== src/Engine/Score/Rules.antt =====
-- The rule table of docs/RULES.md §3, and that `score` computes it.
use reversibility_engine.Prelude.{
  ap, ◌∙◌, ◌≡◌, refl, Bool, not, ◌&&◌, ◌||◌, List, [], ◌∷◌, arith, any, all, leb, if◌then◌else◌,
  is_empty,
}
use reversibility_engine.Prelude.Sort.{is_empty-sort_strings}
use reversibility_engine.Domain.Verdict.{
  is_costly, is_reversible, lock_full_scan, lock_table_rewrite,
}
use reversibility_engine.Domain.Grade.{
  Grade, grade_a, grade_b, grade_c, grade_f, not_applicable, AnalysisOutcome, analyzed,
  no_candidates, unsupported_content,
}
use reversibility_engine.Domain.Finding.{Finding, DownMigrationStatus}
use reversibility_engine.Engine.Score.{
  ScoreInput, is_sound, score, measure, assign, apply_bands, cap_down, cap_lock, collect_blockers,
  blocking_findings, tally,
}
use reversibility_engine.Engine.Score.Loop.{
  costly_count, not_reversible, locks, tally-costly, tally-all_reversible, tally-worst_lock,
}
use reversibility_engine.Engine.Score.Caps.{
  none_below_rewrite, none_below_scan, is_outage, is_disruptive, banded, bands_grade, assigned,
  capped_if, assign_grade, cap_down_grade, cap_lock_grade, cap_a_row_grade, caps_table,
  before_bands-IsMeasured, rewrite_scans, costly_not_reversible,
}

-- A verdict that fails the changeset: everything but REVERSIBLE and COSTLY.
abbrev pub is_blocking : Finding → Bool
is_blocking f = not (is_reversible f.reversibility || is_costly f.reversibility)

-- The rows below "Otherwise" of the table, the worst that applies.
abbrev pub rules_measured : List Finding → List DownMigrationStatus → Grade
rules_measured fs ds =
    if leb 3 (costly_count fs) || (not (all ds is_sound) || any fs is_outage)
    then grade_c
    else (if any fs not_reversible || (any fs (locks lock_full_scan) || any fs is_disruptive)
        then grade_b
        else grade_a)

abbrev pub rules_outcome : AnalysisOutcome → ScoreInput → Grade
rules_outcome analyzed input =
    if is_empty input.unsupported
    then rules_measured input.findings input.down_migrations
    else grade_f
rules_outcome no_candidates input = not_applicable
rules_outcome unsupported_content input = not_applicable
rules_outcome (AnalysisOutcome.other s) input = grade_f

-- The whole table.
abbrev pub rules_grade : ScoreInput → Grade
rules_grade input =
    if is_empty input.analyzer_errors && not (any input.findings is_blocking)
    then rules_outcome input.outcome input
    else grade_f

not-not : (b : Bool) → not (not b) ≡ b
not-not b = ground arith

-- Through the loop, the grade before the bands is the capped assignment.
before_bands :
    (fs : List Finding) (ds : List DownMigrationStatus)
    → (cap_lock
        (tally fs).worst_lock
        (cap_down (all ds is_sound) ds (assign (tally fs).costly))).grade
      ≡ capped_if
          (any fs (locks lock_table_rewrite))
          grade_b
          (capped_if (not (all ds is_sound)) grade_c (assigned (costly_count fs)))
before_bands fs ds = simp (
  cap_lock_grade, cap_down_grade, assign_grade, tally-costly, tally-worst_lock, none_below_rewrite,
)

after_bands :
    (fs : List Finding) (ds : List DownMigrationStatus)
    → (apply_bands fs (
        cap_lock
          (tally fs).worst_lock
          (cap_down (all ds is_sound) ds (assign (tally fs).costly)))).grade
      ≡ banded (any fs is_outage) (any fs is_disruptive) (
          capped_if
            (any fs (locks lock_table_rewrite))
            grade_b
            (capped_if (not (all ds is_sound)) grade_c (assigned (costly_count fs))))
after_bands fs ds =
    let e = before_bands fs ds in
    let m =
      before_bands-IsMeasured (costly_count fs) (all ds is_sound)
        (any fs (locks lock_table_rewrite)) in
    bands_grade fs _ (rw e m) ∙ ap (banded (any fs is_outage) (any fs is_disruptive)) e

-- The measured part of `score` gives the grade of the table.
pub measure-grade :
    (fs : List Finding) (ds : List DownMigrationStatus)
    → (measure fs ds).grade ≡ rules_measured fs ds
unfolding measure
measure-grade fs ds =
    simp
      (
        cap_a_row_grade, after_bands, tally-all_reversible, tally-worst_lock, none_below_scan,
        not-not,
      )
      (caps_table (costly_count fs) (all ds is_sound) (any fs (locks lock_table_rewrite))
        (any fs (locks lock_full_scan)) (any fs is_outage) (any fs is_disruptive)
        (any fs not_reversible) (rewrite_scans fs) (costly_not_reversible fs))

is_empty-collect_blockers :
    (fs : List Finding) → is_empty (collect_blockers fs) ≡ not (any fs is_blocking)
unfolding collect_blockers
is_empty-collect_blockers [] = refl
is_empty-collect_blockers (f ∷ fs) = ground (arith, is_empty-collect_blockers fs)

-- There is a blocker exactly when some finding has a blocking verdict.
pub blocking_findings_empty :
    (fs : List Finding) → is_empty (blocking_findings fs) ≡ not (any fs is_blocking)
unfolding blocking_findings
blocking_findings_empty fs =
    is_empty-sort_strings (collect_blockers fs) ∙ is_empty-collect_blockers fs

-- `score` gives every input the grade of the table in docs/RULES.md §3: F for an analyzer error,
-- for a verdict other than REVERSIBLE and COSTLY, for an analyzed changeset with unread files and
-- for an outcome that is not known; N/A for the other two outcomes; else C, B or A by the rows.
pub score-eq-rules : (input : ScoreInput) → (score input).grade ≡ rules_grade input
unfolding score
score-eq-rules input =
    let e = blocking_findings_empty input.findings in
    let m = measure-grade input.findings input.down_migrations in ground arith
