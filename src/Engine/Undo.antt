-- ===== src/Engine/Undo.antt =====
-- The undo plan of a changeset (internal/engine/undo.go).
pub mod Plan
use mathlib.Core.List.{reverse}
use reversibility_engine.Prelude.Text.{Text, text}
use reversibility_engine.Prelude.{
  Bool, not, List, [], ◌∷◌, ◌++◌, Option, none, some, if◌then◌else◌, is_empty, map, keep,
}
use reversibility_engine.Domain.Verdict.{Reversibility, irreversible, unknown, will_fail}
use reversibility_engine.Domain.Finding.{Finding}
use reversibility_engine.Engine.Score.{location}

-- `noCompleteUndo`.
unfoldable pub no_complete_undo : Text
no_complete_undo = text "-- NO COMPLETE UNDO EXISTS. This changeset cannot be fully reversed."

-- `statementOf`.
unfoldable pub statement_of : Finding → Text
statement_of f = if is_empty f.statement then text "(statement unavailable)" else f.statement

-- Why a verdict leaves nothing to undo, where it does.
unfoldable pub why_no_undo : Reversibility → Option Text
why_no_undo irreversible = some (text "cannot be undone")
why_no_undo unknown = some (text "was not understood, so no undo can be written for it")
why_no_undo will_fail =
    some (text "will not apply, so there is nothing to undo; fix the migration instead")
why_no_undo _ = none

-- The line for a finding with that reason, in front of the lines for the findings behind it.
pub add_line : Finding → Option Text → List Text → List Text
unfolding location statement_of
add_line f none rest = rest
add_line f (some why) rest =
    (text "--   "
      ++ (f.rule_id
          ++ (text " at "
              ++ (location f ++ (text ": " ++ (statement_of f ++ (text " — " ++ why)))))))
    ∷ rest

-- The loop of `unreversibleFindings`.
pub blocked_lines : List Finding → List Text
unfolding why_no_undo add_line
blocked_lines [] = []
blocked_lines (f ∷ fs) = add_line f (why_no_undo f.reversibility) (blocked_lines fs)

-- `unreversibleFindings`: empty where a complete undo exists.
unfoldable pub unreversible_findings : List Finding → List Text
unfolding blocked_lines no_complete_undo
unreversible_findings fs =
    let blocked = blocked_lines fs in
    if is_empty blocked
    then []
    else no_complete_undo ∷ text "-- The following changes have no reverse:" ∷ blocked

-- `buildUndoPlan`: the undo steps from the last finding to the first.
unfoldable pub build_undo_plan : List Finding → List Text
unfolding unreversible_findings
build_undo_plan fs =
    let blockers = unreversible_findings fs in
    if not (is_empty blockers)
    then blockers
    else keep (λ s. not (is_empty s)) (map (λ f. f.undo_step) (reverse fs))
