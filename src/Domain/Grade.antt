-- ===== src/Domain/Grade.antt =====
-- Grades, the merge gate, coverage and outcomes (internal/domain/classification.go).
use reversibility_engine.Prelude.Text.{Text, text, text_eq}
use reversibility_engine.Prelude.Int.{ℤ, pos, negsuc, ltb_ℤ}
use reversibility_engine.Prelude.{ℕ, Bool, true, false, ◌&&◌, [], ◌==◌, if◌then◌else◌}

-- The verdict on a changeset. `not_applicable` is the absence of a measurement.
pub data Grade : Type 0 where
  grade_a grade_b grade_c grade_f not_applicable : Grade
  other : Text → Grade

-- `Grade.Valid`.
unfoldable pub is_valid : Grade → Bool
is_valid (Grade.other s) = false
is_valid _ = true

-- `Grade.Threshold`: a grade that may be asked for.
unfoldable pub is_threshold : Grade → Bool
is_threshold not_applicable = false
is_threshold (Grade.other s) = false
is_threshold _ = true

-- `Grade.Rank`, from worst to best. Only the measured grades have one.
unfoldable pub rank : Grade → ℤ
rank grade_f = pos 0
rank grade_c = pos 1
rank grade_b = pos 2
rank grade_a = pos 3
rank _ = negsuc 0

-- `g.Cap(limit)`: the worse of the two.
unfoldable pub cap_at : Grade → Grade → Grade
unfolding rank
cap_at g limit = if ltb_ℤ (rank limit) (rank g) then limit else g

-- `a == b` on grades.
unfoldable pub grade_eq : Grade → Grade → Bool
unfolding text_eq
grade_eq grade_a grade_a = true
grade_eq grade_b grade_b = true
grade_eq grade_c grade_c = true
grade_eq grade_f grade_f = true
grade_eq not_applicable not_applicable = true
grade_eq (Grade.other s) (Grade.other t) = text_eq s t
grade_eq _ _ = false

-- `g == ""`.
abbrev pub is_unset : Grade → Bool
is_unset (Grade.other []) = true
is_unset _ = false

-- The string behind a grade.
unfoldable pub grade_text : Grade → Text
grade_text grade_a = text "A"
grade_text grade_b = text "B"
grade_text grade_c = text "C"
grade_text grade_f = text "F"
grade_text not_applicable = text "N/A"
grade_text (Grade.other s) = s

-- `domain.Grade(s)`.
unfoldable pub grade_of : Text → Grade
unfolding text_eq
grade_of s =
    if text_eq s (text "A")
    then grade_a
    else (if text_eq s (text "B")
        then grade_b
        else (if text_eq s (text "C")
            then grade_c
            else (if text_eq s (text "F")
                then grade_f
                else (if text_eq s (text "N/A") then not_applicable else Grade.other s))))

-- The merge-gate verdict for autonomous agents.
pub data GateStatus : Type 0 where
  gate_pass gate_fail gate_not_applicable : GateStatus

-- How much of the changeset was read.
pub data Coverage : Type 0 where
  coverage_full coverage_partial : Coverage
  other : Text → Coverage

-- `Coverage.Full`: the zero value is not.
unfoldable pub is_full : Coverage → Bool
is_full coverage_full = true
is_full _ = false

-- The facts beyond the grade that the gate depends on. `policy_ignored` is a count.
pub record GateConditions : Type 0 where
  pub coverage : Coverage
  pub policy_ignored : ℕ

-- `g == GradeNotApplicable`.
abbrev is_not_applicable : Grade → Bool
is_not_applicable not_applicable = true
is_not_applicable _ = false

-- `g == GradeA`.
abbrev pub is_a : Grade → Bool
is_a grade_a = true
is_a _ = false

-- `g.Gate(c)`.
unfoldable pub gate : Grade → GateConditions → GateStatus
unfolding is_full
gate g c =
    if is_not_applicable g
    then gate_not_applicable
    else (if is_a g && (is_full c.coverage && c.policy_ignored == 0) then gate_pass else gate_fail)

-- What a run was able to do at all.
pub data AnalysisOutcome : Type 0 where
  analyzed no_candidates unsupported_content : AnalysisOutcome
  other : Text → AnalysisOutcome

-- `AnalysisOutcome.Certifies`: only a run that read something may carry a grade.
unfoldable pub certifies : AnalysisOutcome → Bool
certifies analyzed = true
certifies _ = false
