-- ===== src/Engine/Certify/Pass.antt =====
-- When the merge gate opens for an agent (internal/engine/engine.go).
use mathlib.Core.List.{Perm, append-nil}
use mathlib.Core.List.Perm
use reversibility_engine.Prelude.Text.{Text}
use reversibility_engine.Prelude.Result.{Result, ok, err, ok_injective}
use reversibility_engine.Prelude.{
  ℕ, ◌≡◌, ◌≢◌, refl, sym, List, [], ◌++◌, Option, none, some, arith, All, map, count_p,
}
use reversibility_engine.Domain.Grade.{
  Grade, grade_a, gate_pass, gate, GateConditions, AnalysisOutcome, analyzed, coverage_full,
}
use reversibility_engine.Domain.Finding.{Finding}
use reversibility_engine.Domain.Located.{ChangedFile, Locator, new_locator}
use reversibility_engine.Domain.Certificate.{ReversibilityCertificate}
use reversibility_engine.Policy.Date.{Day}
use reversibility_engine.Policy.Apply.{Policy, Decision, apply}
use reversibility_engine.Policy.Apply.Decided.{decide_with-IsDecided}
use reversibility_engine.Engine.Candidate.{candidate, unanalyzed_files}
use reversibility_engine.Engine.Interfaces.{Run, returns, panics}
use reversibility_engine.Engine.Collect.{Engine, RunConfig, Collected}
use reversibility_engine.Engine.Broken.{panic_certificate, failed_certificate}
use reversibility_engine.Engine.Score.Clean.{IsHarmless, HasDown, score-a_iff, IsHarmless-perm}
use reversibility_engine.Engine.Certify.{
  assemble, score_input, gate_conditions, decided, collected, certify, analyzers_error,
}

-- What an open gate promises: a complete reading of an analyzed changeset in which every finding,
-- the waived ones too, is harmless and every down migration exists and parses, and no file that
-- could be a migration was left out by the policy's ignore patterns.
pub record IsEarned (c : ReversibilityCertificate) (failure : Option Text) (root : Text)
    : Type 0 where
  pub grade : c.grade ≡ grade_a
  pub outcome : c.outcome ≡ analyzed
  pub coverage : c.coverage ≡ coverage_full
  pub read : c.unanalyzed_files ≡ []
  pub harmless : All IsHarmless (c.findings ++ map (λ w. w.finding) c.waived)
  pub undone : All HasDown c.down_migrations
  pub unignored : count_p (λ p. candidate (new_locator root p)) c.ignored_by_policy ≡ 0
  pub succeeded : failure ≡ none

abbrev Earned : ReversibilityCertificate × Option Text → Text → Type 0
Earned r root = r.0.ai_gate_status ≡ gate_pass → IsEarned r.0 r.1 root

pub gate_passes :
    (g : Grade) (c : GateConditions)
    → gate g c ≡ gate_pass
    → (g ≡ grade_a) × (c.coverage ≡ coverage_full) × (c.policy_ignored ≡ 0)
unfolding gate
gate_passes g c h = ground arith

failed-shut : (digest why : Text) → (failed_certificate digest why).ai_gate_status ≢ gate_pass
unfolding failed_certificate gate
failed-shut digest why h = ground arith

panic-shut : (digest why : Text) → (panic_certificate digest why).ai_gate_status ≢ gate_pass
unfolding panic_certificate gate
panic-shut digest why h = ground arith

no_files : (paths : List Text) (locate : Locator) → paths ≡ [] → unanalyzed_files paths locate ≡ []
unfolding unanalyzed_files
no_files paths locate h = rw h refl

-- The findings of a decision and its waived findings are all the findings, in some order.
pub apply-kept :
    (p : Option Policy) (fs : List Finding) (today : Day) (locate : Locator) (d : Decision)
    → apply p fs today locate ≡ ok d
    → Perm (d.findings ++ map (λ w. w.finding) d.waived) d.all_findings
unfolding apply
apply-kept none fs today locate d h = rw (sym (ok_injective h)) (rw (append-nil fs) (Perm.refl fs))
apply-kept (some p) fs today locate d h = (decide_with-IsDecided p today locate fs d h).kept

no_failures : (failures : List Text) → failures ≡ [] → analyzers_error failures ≡ none
no_failures failures h = rw h refl

assemble-Earned :
    (e : Engine) (run : RunConfig) (digest version : Text) (c : Collected)
    (o : AnalysisOutcome × List Text) (d : Decision)
    → Perm (d.findings ++ map (λ w. w.finding) d.waived) d.all_findings
    → Earned
        (assemble e run (new_locator run.root) digest version c o d, analyzers_error c.failures)
        run.root
unfolding assemble
assemble-Earned e run digest version c o d kept h =
    let locate = new_locator run.root in
    let (a, full, ignored) = gate_passes _ (gate_conditions run locate o.1) h in
    let clean = (score-a_iff (score_input d.all_findings c o)).0 a in
    record {
      grade = a;
      outcome = clean.read;
      coverage = full;
      read = no_files o.1 locate clean.covered;
      harmless = IsHarmless-perm d.all_findings _ (Perm.symm kept) clean.harmless;
      undone = clean.undone;
      unignored = ignored;
      succeeded = no_failures c.failures clean.complete;
    }

decided-Earned :
    (e : Engine) (run : RunConfig) (digest version : Text) (files : List ChangedFile)
    (c : Collected) (fs : List Finding) (r : Result Decision)
    → apply e.policy fs e.today (new_locator run.root) ≡ r
    → Earned (decided e run digest version files c r) run.root
unfolding decided
decided-Earned e run digest version files c fs (err why) k h = absurd (failed-shut digest _ h)
decided-Earned e run digest version files c fs (ok d) k h =
    assemble-Earned e run digest version c _ d (apply-kept e.policy fs e.today _ d k) h

collected-Earned :
    (e : Engine) (run : RunConfig) (digest version : Text) (files : List ChangedFile)
    (c : Run Collected)
    → Earned (collected e run digest version files c) run.root
unfolding collected
collected-Earned e run digest version files (panics why) h = absurd (panic-shut digest why h)
collected-Earned e run digest version files (returns (err why)) h = absurd (failed-shut digest _ h)
collected-Earned e run digest version files (returns (ok c)) h =
    decided-Earned e run digest version files c _ _ refl h

-- The gate opens only when it was earned: if the certificate of `Certify` says PASS, then the grade
-- is A, the changeset was analyzed with full coverage and no file unread, every finding is
-- harmless, the waived ones too, every down migration exists and parses, no ignored path is a
-- candidate, and no error is reported.
pub certify-IsEarned :
    (hash : List ℕ → Text) (e : Engine) (cancelled : Option Text) (files : List ChangedFile)
    (config : RunConfig)
    → (certify hash e cancelled files config).0.ai_gate_status ≡ gate_pass
    → IsEarned
        (certify hash e cancelled files config).0
        (certify hash e cancelled files config).1
        config.root
unfolding certify
certify-IsEarned hash e (some why) files config h = absurd (failed-shut _ _ h)
certify-IsEarned hash e none files config h = collected-Earned e _ _ _ _ _ h
