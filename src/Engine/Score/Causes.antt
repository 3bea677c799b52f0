-- ===== src/Engine/Score/Causes.antt =====
-- That a grade comes with its reasons: blockers and causes (internal/engine/scorer.go).
use reversibility_engine.Prelude.Text.{Text}
use reversibility_engine.Prelude.Int.{pos_part}
use reversibility_engine.Prelude.Sort.{is_empty-sort_strings}
use reversibility_engine.Prelude.{
  ℕ, ◌≤◌, ◌≡◌, refl, Bool, false, List, [], ◌∷◌, ◌++◌, arith, is_empty, Option, none, some,
}
use reversibility_engine.Domain.Verdict.{LockHazard}
use reversibility_engine.Domain.Grade.{Grade, grade_f, not_applicable, rank, no_candidates}
use reversibility_engine.Domain.Finding.{Finding, DownMigrationStatus, FindingContext}
use reversibility_engine.Engine.Score.{
  ScoreInput, score, assign, apply_cap, apply_band, apply_bands, cap_down, cap_lock, cap_a_row,
  tally, measure, close, Scoring, incomplete_result,
}
use reversibility_engine.Engine.Score.Rules.{measure-grade}

is_empty-append : (xs ys : List Text) → is_empty xs ≡ false → is_empty (xs ++ ys) ≡ false
is_empty-append [] ys h = absurd (ground arith)
is_empty-append (x ∷ xs) ys h = refl

abbrev HasCause : Scoring → Type 0
HasCause s = is_empty s.causes ≡ false

apply_cap-HasCause : (g : Grade) (r : Text) (s : Scoring) → HasCause s → HasCause (apply_cap g r s)
unfolding apply_cap
apply_cap-HasCause g r s h = ground (arith, is_empty-append s.causes)

apply_band-HasCause :
    (f : Finding) (c : Option FindingContext) (s : Scoring)
    → HasCause s
    → HasCause (apply_band f c s)
unfolding apply_band
apply_band-HasCause f none s h = h
apply_band-HasCause f (some c) s h = grind (arith, apply_cap-HasCause)

apply_bands-HasCause : (fs : List Finding) (s : Scoring) → HasCause s → HasCause (apply_bands fs s)
unfolding apply_bands
apply_bands-HasCause [] s h = h
apply_bands-HasCause (f ∷ fs) s h = apply_bands-HasCause fs _ (apply_band-HasCause f f.context s h)

assign-HasCause : (n : ℕ) → HasCause (assign n)
unfolding assign
assign-HasCause n = ground arith

cap_down-HasCause :
    (ok : Bool) (ds : List DownMigrationStatus) (s : Scoring)
    → HasCause s
    → HasCause (cap_down ok ds s)
unfolding cap_down
cap_down-HasCause ok ds s h = grind (arith, apply_cap-HasCause)

cap_lock-HasCause : (l : LockHazard) (s : Scoring) → HasCause s → HasCause (cap_lock l s)
unfolding cap_lock
cap_lock-HasCause l s h = grind (arith, apply_cap-HasCause)

cap_a_row-HasCause :
    (r : Bool) (l : LockHazard) (ok : Bool) (s : Scoring)
    → HasCause s
    → HasCause (cap_a_row r l ok s)
unfolding cap_a_row
cap_a_row-HasCause r l ok s h = grind (arith, apply_cap-HasCause)

close-causes : (s : Scoring) → HasCause s → is_empty (close s).causes ≡ false
unfolding close
close-causes s h = ground (arith, is_empty-append s.causes)

measure_causes :
    (fs : List Finding) (ds : List DownMigrationStatus) → is_empty (measure fs ds).causes ≡ false
unfolding measure
measure_causes fs ds = close-causes _ (
    cap_a_row-HasCause _ _ _ _ (
      apply_bands-HasCause fs _
        (cap_lock-HasCause _ _ (cap_down-HasCause _ ds _ (assign-HasCause (tally fs).costly)))))

measure-blockers :
    (fs : List Finding) (ds : List DownMigrationStatus) → (measure fs ds).blockers ≡ []
unfolding measure
measure-blockers fs ds = refl

incomplete_blockers :
    (errors : List Text)
    → is_empty errors ≡ false
    → is_empty (incomplete_result errors).blockers ≡ false
unfolding incomplete_result
incomplete_blockers [] h = absurd (ground arith)
incomplete_blockers (e ∷ es) h = is_empty-sort_strings _

-- `score` reports a blocker with every F, none with an A, B or C, and none with the N/A of a
-- changeset that held no candidates.
pub score_blockers :
    (input : ScoreInput)
    → (((score input).grade ≡ grade_f) → is_empty (score input).blockers ≡ false)
      × ((1 ≤ pos_part (rank (score input).grade)) → (score input).blockers ≡ [])
      × ((score input).grade ≡ not_applicable
          → input.outcome ≡ no_candidates
          → (score input).blockers ≡ [])
unfolding score rank
score_blockers input =
    let m = measure-blockers input.findings input.down_migrations in
    let g = measure-grade input.findings input.down_migrations in
    let e = incomplete_blockers input.analyzer_errors in (ground arith, ground arith, ground arith)

-- `score` always says why: the list of causes is never empty.
score_causes : (input : ScoreInput) → is_empty (score input).causes ≡ false
unfolding score
score_causes input = ground (arith, measure_causes input.findings input.down_migrations)
