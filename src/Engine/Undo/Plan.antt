-- ===== src/Engine/Undo/Plan.antt =====
-- When the undo plan is complete, and what it holds (internal/engine/undo.go).
use mathlib.Core.List.{reverse, reverse-append, map-append}
use reversibility_engine.Prelude.Text.{Text, text}
use reversibility_engine.Prelude.{
  ◌≡◌, refl, sym, ap, ◌∙◌, inl, inr, Bool-cases, Bool, true, false, not, ◌||◌, List, [], ◌∷◌, ◌++◌,
  is_empty, map, keep, arith, any,
}
use reversibility_engine.Domain.Verdict.{irreversible, unknown, will_fail}
use reversibility_engine.Domain.Finding.{Finding}
use reversibility_engine.Engine.Score.Rules.{is_blocking}
use reversibility_engine.Engine.Score.{location}
use reversibility_engine.Engine.Undo.{
  blocked_lines, build_undo_plan, no_complete_undo, add_line, why_no_undo, statement_of,
}

-- IRREVERSIBLE, UNKNOWN or WILL_FAIL.
abbrev pub has_no_undo : Finding → Bool
has_no_undo f = elim f.reversibility [
  | irreversible ↦ true
  | unknown ↦ true
  | will_fail ↦ true
  | _ ↦ false
]

-- Why such a finding has no undo.
abbrev pub reason_of : Finding → Text
reason_of f = elim f.reversibility [
  | irreversible ↦ text "cannot be undone"
  | unknown ↦ text "was not understood, so no undo can be written for it"
  | will_fail ↦ text "will not apply, so there is nothing to undo; fix the migration instead"
  | _ ↦ []
]

-- The line for such a finding: its rule, its place, its statement and the reason.
abbrev pub refusal : Finding → Text
refusal f =
    text "--   "
    ++ (f.rule_id
        ++ (text " at "
            ++ (location f ++ (text ": " ++ (statement_of f ++ (text " — " ++ reason_of f))))))

-- The plan that refuses.
abbrev pub refusing_plan : List Finding → List Text
refusing_plan fs =
    no_complete_undo
    ∷ text "-- The following changes have no reverse:"
    ∷ map refusal (keep has_no_undo fs)

blocked_lines-eq : (fs : List Finding) → blocked_lines fs ≡ map refusal (keep has_no_undo fs)
unfolding blocked_lines add_line why_no_undo
blocked_lines-eq [] = refl
blocked_lines-eq (f ∷ fs) = ground (arith, blocked_lines-eq fs)

blocked_lines_empty : (fs : List Finding) → is_empty (blocked_lines fs) ≡ not (any fs has_no_undo)
unfolding blocked_lines
blocked_lines_empty [] = refl
blocked_lines_empty (f ∷ fs) = ground (arith, blocked_lines_empty fs)

abbrev re_step : (Finding → Text) → Finding → Finding
re_step step f = record f { undo_step = step f }

re_step-any :
    (step : Finding → Text) (fs : List Finding)
    → any (map (re_step step) fs) has_no_undo ≡ any fs has_no_undo
re_step-any step [] = refl
re_step-any step (f ∷ fs) = ap (λ (b : Bool). has_no_undo f || b) (re_step-any step fs)

re_step-refusing_plan :
    (step : Finding → Text) (fs : List Finding)
    → map refusal (keep has_no_undo (map (re_step step) fs)) ≡ map refusal (keep has_no_undo fs)
unfolding location statement_of
re_step-refusing_plan step [] = refl
re_step-refusing_plan step (f ∷ fs) = elim (Bool-cases (has_no_undo f)) [
  | inl e ↦ rw e (ap (λ (ls : List Text). refusal f ∷ ls) (re_step-refusing_plan step fs))
  | inr e ↦ rw e (re_step-refusing_plan step fs)
]

build_undo_plan-refusing :
    (fs : List Finding) → any fs has_no_undo ≡ true → build_undo_plan fs ≡ refusing_plan fs
unfolding build_undo_plan
build_undo_plan-refusing fs h =
    rw (sym (blocked_lines-eq fs)) (ground (arith, blocked_lines_empty fs))

-- Where a finding is IRREVERSIBLE, UNKNOWN or WILL_FAIL, the plan is the statement that no complete
-- undo exists, a heading, and for each such finding, in their order, a line with its rule, place,
-- statement and reason. No undo step is in it: it stays the same whatever the undo steps are.
pub undo_plan_blocked :
    (fs : List Finding)
    → any fs has_no_undo ≡ true
    → (build_undo_plan fs ≡ refusing_plan fs)
      × ((step : Finding → Text)
          → build_undo_plan (map (λ (f : Finding). record f { undo_step = step f }) fs)
            ≡ build_undo_plan fs)
undo_plan_blocked fs h = (
  build_undo_plan-refusing fs h,
  λ step.
      build_undo_plan-refusing (map (re_step step) fs) (re_step-any step fs ∙ h)
      ∙ ap
          (λ (ls : List Text).
            no_complete_undo ∷ text "-- The following changes have no reverse:" ∷ ls)
          (re_step-refusing_plan step fs)
      ∙ sym (build_undo_plan-refusing fs h),
)

keep-append :
    {A : Type 0} (p : A → Bool) (xs ys : List A) → keep p (xs ++ ys) ≡ keep p xs ++ keep p ys
keep-append p [] ys = refl
keep-append p (x ∷ xs) ys = ground (arith, keep-append p xs ys)

any-append : {A : Type 0} (p : A → Bool) (xs ys : List A) → any (xs ++ ys) p ≡ any xs p || any ys p
any-append p [] ys = refl
any-append p (x ∷ xs) ys = ground (arith, any-append p xs ys)

unblocked_plan :
    (fs : List Finding)
    → any fs has_no_undo ≡ false
    → build_undo_plan fs ≡ keep (λ s. not (is_empty s)) (map (λ f. f.undo_step) (reverse fs))
unfolding build_undo_plan
unblocked_plan fs h = ground (arith, blocked_lines_empty fs)

-- Undoing unwinds: where no finding is IRREVERSIBLE, UNKNOWN or WILL_FAIL, the plan for one sequence
-- of changes after another is the plan for the later followed by the plan for the earlier.
pub undo_plan-append :
    (fs gs : List Finding)
    → any (fs ++ gs) has_no_undo ≡ false
    → build_undo_plan (fs ++ gs) ≡ build_undo_plan gs ++ build_undo_plan fs
undo_plan-append fs gs h =
    let e = any-append has_no_undo fs gs in
    simp (
      unblocked_plan (fs ++ gs) h,
      unblocked_plan fs (ground arith),
      unblocked_plan gs (ground arith),
      reverse-append,
      map-append,
      keep-append,
    )

-- A changeset of recognised verdicts that is not blocked from a grade has a complete plan.
pub unblocked_of_graded :
    (fs : List Finding) → any fs is_blocking ≡ false → any fs has_no_undo ≡ false
unblocked_of_graded [] h = h
unblocked_of_graded (f ∷ fs) h = ground (arith, unblocked_of_graded fs)
