-- ===== src/Engine/Score/Order.antt =====
-- How the grade moves with the findings (internal/engine/scorer.go): more or worse findings never
-- improve it, and their order does not matter.
use mathlib.Core.List.{Sublistᴰ, Perm}
use reversibility_engine.Prelude.Reorder.{any-perm, count_p-perm, any-sublist, count_p-sublist}
use reversibility_engine.Prelude.Int.{◌≤ℤ◌}
use reversibility_engine.Prelude.{◌≤◌, ◌≡◌, ◌⊎◌, inl, ◌∙◌, true, false, List, [], ◌∷◌, arith, any}
use reversibility_engine.Domain.Verdict.{is_costly, lock_full_scan, severity}
use reversibility_engine.Domain.Grade.{rank, analyzed}
use reversibility_engine.Domain.Finding.{Finding}
use reversibility_engine.Engine.Score.{ScoreInput, score}
use reversibility_engine.Engine.Score.Loop.{costly_count, not_reversible, locks}
use reversibility_engine.Engine.Score.Caps.{is_outage, is_disruptive}
use reversibility_engine.Engine.Score.Rules.{is_blocking, rules_grade, score-eq-rules}

-- Every test of the rule table that `fs` meets, `gs` meets too, or a worse one.
pub record NoWorse (fs gs : List Finding) : Type 0 where
  pub blocking : any fs is_blocking ≡ true → any gs is_blocking ≡ true
  pub costly : any gs is_blocking ≡ false → costly_count fs ≤ costly_count gs
  pub unreversed : any fs not_reversible ≡ true → any gs not_reversible ≡ true
  pub lock : any fs (locks lock_full_scan) ≡ true → any gs (locks lock_full_scan) ≡ true
  pub outage : any fs is_outage ≡ true → any gs is_outage ≡ true
  pub disruptive :
      any fs is_disruptive ≡ true → (any gs is_disruptive ≡ true) ⊎ (any gs is_outage ≡ true)

rules_mono :
    (input : ScoreInput) (gs : List Finding)
    → input.outcome ≡ analyzed
    → NoWorse input.findings gs
    → rank (rules_grade (record input { findings = gs })) ≤ℤ rank (rules_grade input)
unfolding rank
rules_mono input gs a h = ground arith

-- On an analyzed changeset, findings that meet every test of the table that others meet never
-- grade better than those.
pub score_mono :
    (input : ScoreInput) (gs : List Finding)
    → input.outcome ≡ analyzed
    → NoWorse input.findings gs
    → rank (score (record input { findings = gs })).grade ≤ℤ rank (score input).grade
score_mono input gs a h = rw (score-eq-rules, score-eq-rules input) (rules_mono input gs a h)

sublist-NoWorse : {fs gs : List Finding} → Sublistᴰ fs gs → NoWorse fs gs
sublist-NoWorse m = record {
  blocking = any-sublist is_blocking m;
  costly = λ _. count_p-sublist (λ f. is_costly f.reversibility) m;
  unreversed = any-sublist not_reversible m;
  lock = any-sublist (locks lock_full_scan) m;
  outage = any-sublist is_outage m;
  disruptive = λ h. inl (any-sublist is_disruptive m h);
}

-- On an analyzed changeset, leaving findings out never makes the grade worse: `fs` is any part of
-- the findings, in their order.
pub score_sublist :
    (input : ScoreInput) (fs : List Finding)
    → input.outcome ≡ analyzed
    → Sublistᴰ fs input.findings
    → rank (score input).grade ≤ℤ rank (score (record input { findings = fs })).grade
score_sublist input fs a m =
    score_mono (record input { findings = fs }) input.findings a (sublist-NoWorse m)

-- The grade does not depend on the order of the findings.
pub score-perm :
    (input : ScoreInput) (gs : List Finding)
    → Perm input.findings gs
    → (score (record input { findings = gs })).grade ≡ (score input).grade
score-perm input gs m =
    score-eq-rules (record input { findings = gs })
    ∙ ground (
      arith,
      any-perm is_blocking m,
      any-perm not_reversible m,
      any-perm (locks lock_full_scan) m,
      any-perm is_outage m,
      any-perm is_disruptive m,
      count_p-perm (λ f. is_costly f.reversibility) m,
      score-eq-rules input,
    )

-- One finding made no better: the verdict is not milder, the lock is the same, and a band that
-- caps is not lost.
pub record Worsens (f g : Finding) : Type 0 where
  pub verdict : severity f.reversibility ≤ severity g.reversibility
  pub lock : g.lock_hazard ≡ f.lock_hazard
  pub outage : is_outage f ≡ true → is_outage g ≡ true
  pub disruptive : is_disruptive f ≡ true → (is_disruptive g ≡ true) ⊎ (is_outage g ≡ true)

-- Each finding made no better, in its place.
pub data AllWorsen : List Finding → List Finding → Type 0 where
  none_left : AllWorsen [] []
  worsen :
      {f g : Finding} {fs gs : List Finding}
      → Worsens f g
      → AllWorsen fs gs
      → AllWorsen (f ∷ fs) (g ∷ gs)

Worsens-blocking : {f g : Finding} → Worsens f g → is_blocking f ≡ true → is_blocking g ≡ true
unfolding severity
Worsens-blocking w h = ground arith

Worsens-reversible :
    {f g : Finding} → Worsens f g → not_reversible f ≡ true → not_reversible g ≡ true
unfolding severity
Worsens-reversible w h = ground arith

Worsens-costly :
    {f g : Finding}
    → Worsens f g
    → is_blocking g ≡ false
    → is_costly f.reversibility ≡ true
    → is_costly g.reversibility ≡ true
unfolding severity
Worsens-costly w h k = ground arith

pub AllWorsen-NoWorse : {fs gs : List Finding} → AllWorsen fs gs → NoWorse fs gs
AllWorsen-NoWorse none_left = ground arith
AllWorsen-NoWorse (worsen {f} {g} {fs} {gs} w ws) =
    let ih = AllWorsen-NoWorse ws in
    ground (arith, Worsens-blocking w, Worsens-reversible w, Worsens-costly w)
