-- ===== src/Engine/Score/Clean.antt =====
-- When grade A is given (internal/engine/scorer.go).
use mathlib.Core.List.{Perm}
use reversibility_engine.Prelude.Reorder.{any-perm}
use reversibility_engine.Prelude.{
  ◌≤◌, ◌≡◌, ◌≢◌, sym, ◌∙◌, refl, ◌↔◌, true, false, List, [], ◌∷◌, arith, any, all, All, Option,
  none, some,
}
use reversibility_engine.Domain.Verdict.{reversible, lock_full_scan, lock_severity, at_least}
use reversibility_engine.Domain.Grade.{grade_a, analyzed}
use reversibility_engine.Domain.Finding.{
  Finding, DownMigrationStatus, band_disruptive, band_outage, FindingContext,
}
use reversibility_engine.Engine.Score.{ScoreInput, score, is_sound}
use reversibility_engine.Engine.Score.Loop.{costly_count, not_reversible, locks}
use reversibility_engine.Engine.Score.Caps.{
  is_outage, is_disruptive, band_test, is_outage_band, is_disruptive_band,
}
use reversibility_engine.Engine.Score.Rules.{is_blocking, rules_grade, score-eq-rules}

-- No band that caps: no snapshot, or one that estimates less than a disruption.
abbrev pub IsUnbanded : Option FindingContext → Type 0
IsUnbanded none = Unit
IsUnbanded (some c) =
    (c.lock_duration_band ≢ band_disruptive) × (c.lock_duration_band ≢ band_outage)

-- What grade A promises of one finding: it is REVERSIBLE, takes at most a SHORT lock, and no
-- snapshot estimates a disruption or an outage for it.
pub record IsHarmless (f : Finding) : Type 0 where
  pub undoable : f.reversibility ≡ reversible
  pub brief : lock_severity f.lock_hazard ≤ 1
  pub unbanded : IsUnbanded f.context

-- Both halves of the promise about a down migration: it exists and it parses.
abbrev pub HasDown : DownMigrationStatus → Type 0
HasDown s = (s.exists ≡ true) × (s.parses ≡ true)

-- All of what grade A promises of a run.
pub record IsClean (input : ScoreInput) : Type 0 where
  pub complete : input.analyzer_errors ≡ []
  pub read : input.outcome ≡ analyzed
  pub covered : input.unsupported ≡ []
  pub harmless : All IsHarmless input.findings
  pub undone : All HasDown input.down_migrations

abbrev PassesTests : Finding → Type 0
PassesTests f =
    (not_reversible f ≡ false)
    × (locks lock_full_scan f ≡ false)
    × (is_outage f ≡ false)
    × (is_disruptive f ≡ false)

IsUnbanded-tests :
    (o : Option FindingContext)
    → IsUnbanded o
    → (band_test is_outage_band o ≡ false) × (band_test is_disruptive_band o ≡ false)
IsUnbanded-tests none h = (refl, refl)
IsUnbanded-tests (some c) h = ground arith

tests-IsUnbanded :
    (o : Option FindingContext)
    → band_test is_outage_band o ≡ false
    → band_test is_disruptive_band o ≡ false
    → IsUnbanded o
tests-IsUnbanded none h k = tt
tests-IsUnbanded (some c) h k = (λ e. ground arith, λ e. ground arith)

tests-IsHarmless : (f : Finding) → PassesTests f → IsHarmless f
unfolding lock_severity at_least
tests-IsHarmless f h = record {
  undoable = ground arith;
  brief = ground arith;
  unbanded = tests-IsUnbanded f.context h.2 h.3;
}

IsHarmless-tests : (f : Finding) → IsHarmless f → PassesTests f
unfolding lock_severity at_least
IsHarmless-tests f h =
    let u = IsUnbanded-tests f.context h.unbanded in (ground arith, ground arith, u.0, u.1)

All-IsHarmless :
    (fs : List Finding)
    → any fs not_reversible ≡ false
    → any fs (locks lock_full_scan) ≡ false
    → any fs is_outage ≡ false
    → any fs is_disruptive ≡ false
    → All IsHarmless fs
All-IsHarmless [] a b c d = tt
All-IsHarmless (f ∷ fs) a b c d = (
  tests-IsHarmless f (ground arith, ground arith, ground arith, ground arith),
  All-IsHarmless fs (ground arith) (ground arith) (ground arith) (ground arith),
)

record AllPass (fs : List Finding) : Type 0 where
  blocking : any fs is_blocking ≡ false
  costly : costly_count fs ≡ 0
  reversed : any fs not_reversible ≡ false
  lock : any fs (locks lock_full_scan) ≡ false
  outage : any fs is_outage ≡ false
  disruptive : any fs is_disruptive ≡ false

all_pass : (fs : List Finding) → All IsHarmless fs → AllPass fs
all_pass [] h = ground arith
all_pass (f ∷ fs) h = let p = IsHarmless-tests f h.0 in let ih = all_pass fs h.1 in ground arith

pub IsHarmless-perm : (fs gs : List Finding) → Perm fs gs → All IsHarmless fs → All IsHarmless gs
IsHarmless-perm fs gs m h =
    let p = all_pass fs h in
    All-IsHarmless gs (sym (any-perm not_reversible m) ∙ p.reversed)
      (sym (any-perm (locks lock_full_scan) m) ∙ p.lock) (sym (any-perm is_outage m) ∙ p.outage)
      (sym (any-perm is_disruptive m) ∙ p.disruptive)

has_down : (ds : List DownMigrationStatus) → (all ds is_sound ≡ true) ↔ All HasDown ds
has_down [] = (λ h. tt, λ h. refl)
has_down (d ∷ ds) = (
  λ h. ((ground arith, ground arith), (has_down ds).0 (ground arith)),
  λ h. ground (arith, (has_down ds).1 h.1),
)

rules_a :
    (input : ScoreInput)
    → rules_grade input ≡ grade_a
    → (input.analyzer_errors ≡ [])
      × (input.outcome ≡ analyzed)
      × (input.unsupported ≡ [])
      × (all input.down_migrations is_sound ≡ true)
      × (any input.findings not_reversible ≡ false)
      × (any input.findings (locks lock_full_scan) ≡ false)
      × (any input.findings is_outage ≡ false)
      × (any input.findings is_disruptive ≡ false)
rules_a input h = ground arith

-- `score` gives grade A exactly to a complete run that analyzed files, left no file unread, and
-- found nothing but REVERSIBLE findings with at most a SHORT lock and no capping band, where every
-- down migration exists and parses.
pub score-a_iff : (input : ScoreInput) → ((score input).grade ≡ grade_a) ↔ IsClean input
score-a_iff input = (
  λ h.
      let (e, o, u, d, r, l, b, c) = rules_a input (sym (score-eq-rules input) ∙ h) in
      record {
        complete = e;
        read = o;
        covered = u;
        harmless = All-IsHarmless input.findings r l b c;
        undone = (has_down input.down_migrations).0 d;
      },
  λ h.
      let p = all_pass input.findings h.harmless in
      let d = (has_down input.down_migrations).1 h.undone in score-eq-rules input ∙ ground arith,
)
