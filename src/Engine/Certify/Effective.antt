-- ===== src/Engine/Certify/Effective.antt =====
-- What waivers do to the grade (internal/engine/engine.go).
use mathlib.Core.List.{Sublistᴰ}
use mathlib.Core.List.Sublistᴰ
use reversibility_engine.Prelude.Text.{Text}
use reversibility_engine.Prelude.Int.{◌≤ℤ◌}
use reversibility_engine.Prelude.Result.{Result, ok, err, ok_injective}
use reversibility_engine.Prelude.{ℕ, ◌≡◌, refl, sym, List, [], Option, none, some, arith}
use reversibility_engine.Domain.Grade.{rank, AnalysisOutcome, analyzed}
use reversibility_engine.Domain.Finding.{Finding}
use reversibility_engine.Domain.Located.{ChangedFile, Locator, new_locator}
use reversibility_engine.Domain.Certificate.{ReversibilityCertificate}
use reversibility_engine.Policy.Date.{Day}
use reversibility_engine.Policy.Apply.{Policy, Decision, apply}
use reversibility_engine.Policy.Apply.Decided.{decide_with-IsDecided}
use reversibility_engine.Engine.Interfaces.{Run, returns, panics}
use reversibility_engine.Engine.Collect.{Engine, RunConfig, Collected}
use reversibility_engine.Engine.Score.Order.{score_sublist}
use reversibility_engine.Engine.Certify.{
  assemble, effective_grade, score_input, decided, collected, certify,
}
use reversibility_engine.Engine.Certify.FailClosed.{IsFailing, failed-IsFailing, panic-IsFailing}

-- The effective grade is no worse, and without a waived finding it is the grade.
pub record IsLifted (c : ReversibilityCertificate) : Type 0 where
  pub no_worse : c.outcome ≡ analyzed → rank c.grade ≤ℤ rank c.effective_grade
  pub same : c.waived ≡ [] → c.effective_grade ≡ c.grade

apply-ordered :
    (p : Option Policy) (fs : List Finding) (today : Day) (locate : Locator) (d : Decision)
    → apply p fs today locate ≡ ok d
    → Sublistᴰ d.findings d.all_findings
unfolding apply
apply-ordered none fs today locate d h = rw (sym (ok_injective h)) (Sublistᴰ.refl fs)
apply-ordered (some p) fs today locate d h = (decide_with-IsDecided p today locate fs d h).ordered

failing-IsLifted : (c : ReversibilityCertificate) → IsFailing c → IsLifted c
unfolding rank
failing-IsLifted c h = record {
  no_worse = λ k. ground (arith, h.grade, h.effective);
  same = λ k. ground (arith, h.grade, h.effective);
}

assemble-IsLifted :
    (e : Engine) (run : RunConfig) (locate : Locator) (digest version : Text) (c : Collected)
    (o : AnalysisOutcome × List Text) (d : Decision)
    → Sublistᴰ d.findings d.all_findings
    → IsLifted (assemble e run locate digest version c o d)
unfolding assemble effective_grade
assemble-IsLifted e run locate digest version c o d m = record {
  no_worse = λ a. ground (arith, score_sublist (score_input d.all_findings c o) d.findings a m);
  same = λ a. ground arith;
}

decided-IsLifted :
    (e : Engine) (run : RunConfig) (digest version : Text) (files : List ChangedFile)
    (c : Collected) (fs : List Finding) (r : Result Decision)
    → apply e.policy fs e.today (new_locator run.root) ≡ r
    → IsLifted (decided e run digest version files c r).0
unfolding decided
decided-IsLifted e run digest version files c fs (err why) k =
    failing-IsLifted _ (failed-IsFailing digest _)
decided-IsLifted e run digest version files c fs (ok d) k =
    assemble-IsLifted e run _ digest version c _ d (apply-ordered e.policy fs e.today _ d k)

collected-IsLifted :
    (e : Engine) (run : RunConfig) (digest version : Text) (files : List ChangedFile)
    (c : Run Collected)
    → IsLifted (collected e run digest version files c).0
unfolding collected
collected-IsLifted e run digest version files (panics why) =
    failing-IsLifted _ (panic-IsFailing digest why)
collected-IsLifted e run digest version files (returns (err why)) =
    failing-IsLifted _ (failed-IsFailing digest _)
collected-IsLifted e run digest version files (returns (ok c)) =
    decided-IsLifted e run digest version files c _ _ refl

-- On every certificate of `Certify`: if the changeset was analyzed, the effective grade is no worse
-- than the grade; if no finding was waived, the two are equal.
pub certify-IsLifted :
    (hash : List ℕ → Text) (e : Engine) (cancelled : Option Text) (files : List ChangedFile)
    (config : RunConfig)
    → IsLifted (certify hash e cancelled files config).0
unfolding certify
certify-IsLifted hash e (some why) files config = failing-IsLifted _ (failed-IsFailing _ _)
certify-IsLifted hash e none files config = collected-IsLifted e _ _ _ _ _
