-- ===== src/Cli.antt =====
-- The gate of `revctl check` and its exit codes (internal/delivery/cli/check.go and
-- internal/delivery/cli/cli.go).
pub mod Gate
use reversibility_engine.Prelude.Text.{Text, text, text_eq, to_upper, quote, decimal}
use reversibility_engine.Prelude.Int.{ltb_ℤ}
use reversibility_engine.Prelude.Result.{Result, ok, err}
use reversibility_engine.Prelude.{
  ℕ, Bool, true, false, not, ◌&&◌, List, [], ◌∷◌, ◌++◌, Option, none, some, if◌then◌else◌, is_empty,
  length, map,
}
use reversibility_engine.Domain.Grade.{
  Grade, grade_a, grade_b, grade_c, grade_f, not_applicable, grade_text, grade_of, grade_eq,
  is_unset, is_threshold, rank, GateStatus, gate_pass, gate_fail, gate_not_applicable, is_full,
  AnalysisOutcome, no_candidates, unsupported_content,
}
use reversibility_engine.Domain.Certificate.{UnanalyzedFile, ReversibilityCertificate}
use reversibility_engine.Policy.Apply.{Policy}
use reversibility_engine.Engine.Remedy.{partial_coverage_blocker, rendering_remedy}

-- The errors that `check` ends with when the run itself went through.
pub data CheckError : Type 0 where
  gate_failed not_assessed incomplete_coverage : CheckError

-- The exit code of `Execute`.
unfoldable pub exit_code : Option CheckError → ℕ
exit_code none = 0
exit_code (some gate_failed) = 1
exit_code (some not_assessed) = 2
exit_code (some incomplete_coverage) = 2

-- The flags that ask for a gate.
pub record CheckFlags : Type 0 where
  pub gate : Bool
  pub min_grade : Text

-- `pol.Gate`, and `""` where there is none.
abbrev pub gate_of : Option Policy → Grade
gate_of none = Grade.other []
gate_of (some p) = p.gate

-- `resolveMinGrade`: `""` is no gate at all.
unfoldable pub resolve_min_grade : CheckFlags → Option Policy → Result Grade
unfolding is_threshold grade_of to_upper quote
resolve_min_grade flags pol =
    let grade = grade_of (to_upper flags.min_grade) in
    if not (is_empty flags.min_grade)
    then (if is_threshold grade
        then ok grade
        else err
            (text "invalid --min-grade " ++ (quote flags.min_grade ++ text ": want A, B, C, or F")))
    else (if flags.gate then ok grade_a else ok (gate_of pol))

abbrev is_unsupported : AnalysisOutcome → Bool
is_unsupported unsupported_content = true
is_unsupported _ = false

abbrev is_empty_run : AnalysisOutcome → Bool
is_empty_run no_candidates = true
is_empty_run _ = false

-- `effective` of `applyGate`.
unfoldable pub gated_grade : ReversibilityCertificate → Grade
gated_grade c = if is_unset c.effective_grade then c.grade else c.effective_grade

gate_status_text : GateStatus → Text
gate_status_text gate_pass = text "PASS"
gate_status_text gate_fail = text "FAIL"
gate_status_text gate_not_applicable = text "NOT_APPLICABLE"

-- `divergenceReason`.
unfoldable pub divergence_reason : ReversibilityCertificate → Text
unfolding decimal is_full
divergence_reason c =
    if not (is_full c.coverage)
    then decimal (length c.unanalyzed_files)
      ++ text " file(s) that may be migrations were not analyzed"
    else (if not (is_empty c.ignored_by_policy)
        then decimal (length c.ignored_by_policy)
          ++ text " candidate file(s) are excluded by .reversibility.yml"
        else (if not (is_empty c.waived)
            then decimal (length c.waived)
              ++ text " finding(s) are waived, and a waiver never opens the AI merge gate"
            else text "the change grades " ++ grade_text c.grade))

bullet : Text → Text
bullet line = text "  - " ++ line

abbrev is_open : GateStatus → Bool
is_open gate_pass = true
is_open _ = false

-- What is printed where the gate is met.
met_lines : ReversibilityCertificate → List Text
unfolding divergence_reason gate_status_text
met_lines c =
    (if is_open c.ai_gate_status
      then []
      else (text "revctl: this run exits 0 and the AI merge gate is "
          ++ (gate_status_text c.ai_gate_status
              ++ (text " — "
                  ++ (divergence_reason c
                      ++ text ". An autonomous agent must not merge this change."))))
        ∷ [])
    ++ (if not (is_empty c.waived) && not (grade_eq (gated_grade c) c.grade)
        then (text "revctl: gate met at "
            ++ (grade_text (gated_grade c)
                ++ (text " because "
                    ++ (decimal (length c.waived)
                        ++ (text " finding(s) are waived; the change itself grades "
                            ++ grade_text c.grade)))))
          ∷ []
        else [])

-- What is printed of a partial reading.
unread_lines : List UnanalyzedFile → List Text
unfolding rendering_remedy
unread_lines files =
    (text "revctl: " ++ partial_coverage_blocker)
    ∷ (map (λ u. text "  - " ++ (u.path ++ (text " (" ++ (u.reason ++ text ")")))) files
        ++ map (λ r. text "  " ++ r) (rendering_remedy (map (λ u. u.path) files)))

-- `applyGate` on a run that read its files.
apply_threshold : ReversibilityCertificate → Grade → List Text × Option CheckError
unfolding rank gated_grade met_lines bullet
apply_threshold c min_grade =
    if is_empty_run c.outcome
    then ([], none)
    else (if not (ltb_ℤ (rank (gated_grade c)) (rank min_grade)) then (met_lines c, none) else (
      (text "revctl: gate failed — grade "
            ++ (grade_text (gated_grade c)
                ++ (text " is below the required minimum " ++ grade_text min_grade)))
          ∷ map bullet c.blockers,
      some gate_failed,
    ))

-- `applyGate`: the lines on stderr, and the error.
unfoldable pub apply_gate : ReversibilityCertificate → Grade → List Text × Option CheckError
unfolding apply_threshold is_full unread_lines
apply_gate c min_grade =
    if is_unsupported c.outcome
    then (
      text "revctl: reversibility was not assessed, so the gate cannot pass"
          ∷ map bullet c.blockers,
      some not_assessed,
    )
    else (if not (is_full c.coverage)
        then (unread_lines c.unanalyzed_files, some incomplete_coverage)
        else (if is_unset min_grade then ([], none) else apply_threshold c min_grade))
