-- ===== src/Examples/Scores.antt =====
-- The theorems on grades and undo plans, on concrete findings.
use mathlib.Core.List.{Sublistᴰ}
use mathlib.Core.List.Perm
use reversibility_engine.Prelude.Int.{◌≤ℤ◌}
use reversibility_engine.Prelude.{
  ◌≡◌, refl, ◌↔◌, false, List, [], ◌∷◌, ◌++◌, arith, is_empty, ◌≤◌, map,
}
use reversibility_engine.Prelude.Text.{Text}
use reversibility_engine.Domain.Grade.{rank, grade_a, grade_f, not_applicable, no_candidates}
use reversibility_engine.Prelude.Int.{pos_part}
use reversibility_engine.Domain.Finding.{Finding}
use reversibility_engine.Engine.Score.{score}
use reversibility_engine.Engine.Score.Rules.{rules_grade, score-eq-rules}
use reversibility_engine.Engine.Score.Clean.{IsClean, score-a_iff}
use reversibility_engine.Engine.Score.Order.{NoWorse, score_mono, score_sublist, score-perm}
use reversibility_engine.Engine.Score.Causes.{score_blockers}
use reversibility_engine.Engine.Undo.{build_undo_plan}
use reversibility_engine.Engine.Undo.Plan.{refusing_plan, undo_plan_blocked, undo_plan-append}
use reversibility_engine.Examples.Samples.{add_column, add_index, drop_table, input_of}

abbrev mild : List Finding
mild = add_column ∷ []

abbrev mixed : List Finding
mixed = add_column ∷ add_index ∷ []

abbrev severe : List Finding
severe = add_column ∷ drop_table ∷ add_index ∷ []

score-eq-rules_example : (score (input_of mixed)).grade ≡ rules_grade (input_of mixed)
score-eq-rules_example = score-eq-rules (input_of mixed)

score-a_iff_example : ((score (input_of mild)).grade ≡ grade_a) ↔ IsClean (input_of mild)
score-a_iff_example = score-a_iff (input_of mild)

mild-NoWorse : NoWorse mild mixed
mild-NoWorse = ground arith

score_mono_example : rank (score (input_of mixed)).grade ≤ℤ rank (score (input_of mild)).grade
score_mono_example = score_mono (input_of mild) mixed refl mild-NoWorse

score_sublist_example : rank (score (input_of mixed)).grade ≤ℤ rank (score (input_of mild)).grade
score_sublist_example =
    score_sublist (input_of mixed) mild refl
      (Sublistᴰ.cons-cons refl (Sublistᴰ.cons Sublistᴰ.slnil))

score-perm_example :
    (score (input_of (add_index ∷ add_column ∷ []))).grade ≡ (score (input_of mixed)).grade
score-perm_example =
    score-perm (input_of mixed) (add_index ∷ add_column ∷ []) (Perm.swap add_index add_column [])

score_blockers_example :
    (((score (input_of severe)).grade ≡ grade_f)
      → is_empty (score (input_of severe)).blockers ≡ false)
    × ((1 ≤ pos_part (rank (score (input_of severe)).grade))
        → (score (input_of severe)).blockers ≡ [])
    × ((score (input_of severe)).grade ≡ not_applicable
        → (input_of severe).outcome ≡ no_candidates
        → (score (input_of severe)).blockers ≡ [])
score_blockers_example = score_blockers (input_of severe)

undo_plan_blocked_example :
    (build_undo_plan severe ≡ refusing_plan severe)
    × ((step : Finding → Text)
        → build_undo_plan (map (λ (f : Finding). record f { undo_step = step f }) severe)
          ≡ build_undo_plan severe)
undo_plan_blocked_example = undo_plan_blocked severe refl

undo_plan-append_example :
    build_undo_plan (mild ++ mixed) ≡ build_undo_plan mixed ++ build_undo_plan mild
undo_plan-append_example = undo_plan-append mild mixed refl
