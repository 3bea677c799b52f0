-- ===== src/Engine/Certify/FailClosed.antt =====
-- A run that reports an error is graded F, whatever happened (internal/engine/engine.go).
use reversibility_engine.Prelude.Text.{Text}
use reversibility_engine.Prelude.Result.{Result, ok, err}
use reversibility_engine.Prelude.{ℕ, ◌≡◌, ◌≢◌, refl, List, Option, none, some, arith}
use reversibility_engine.Domain.Grade.{grade_f, gate_fail, gate, GateConditions, AnalysisOutcome}
use reversibility_engine.Domain.Finding.{Finding}
use reversibility_engine.Domain.Located.{ChangedFile}
use reversibility_engine.Domain.Certificate.{ReversibilityCertificate}
use reversibility_engine.Policy.Apply.{Decision}
use reversibility_engine.Engine.Interfaces.{Run, returns, panics}
use reversibility_engine.Engine.Collect.{Engine, RunConfig, Collected}
use reversibility_engine.Engine.Broken.{panic_certificate, failed_certificate}
use reversibility_engine.Engine.Score.{score}
use reversibility_engine.Engine.Score.Rules.{score-eq-rules}
use reversibility_engine.Engine.Certify.{
  effective_grade, score_input, decided, collected, certify, analyzers_error,
}

-- Grade F under every reading of the certificate, and a closed merge gate.
pub record IsFailing (c : ReversibilityCertificate) : Type 0 where
  pub grade : c.grade ≡ grade_f
  pub effective : c.effective_grade ≡ grade_f
  pub gate_closed : c.ai_gate_status ≡ gate_fail

-- The run reports no error, or its certificate fails.
abbrev FailsClosed : ReversibilityCertificate × Option Text → Type 0
FailsClosed r = r.1 ≢ none → IsFailing r.0

gate-f : (c : GateConditions) → gate grade_f c ≡ gate_fail
unfolding gate
gate-f c = refl

score_incomplete :
    (fs : List Finding) (c : Collected) (o : AnalysisOutcome × List Text)
    → analyzers_error c.failures ≢ none
    → (score (score_input fs c o)).grade ≡ grade_f
score_incomplete fs c o h = ground (arith, score-eq-rules (score_input fs c o))

pub failed-IsFailing : (digest why : Text) → IsFailing (failed_certificate digest why)
unfolding failed_certificate
failed-IsFailing digest why = record { grade = refl; effective = refl; gate_closed = gate-f _ }

pub panic-IsFailing : (digest why : Text) → IsFailing (panic_certificate digest why)
unfolding panic_certificate
panic-IsFailing digest why = record { grade = refl; effective = refl; gate_closed = gate-f _ }

effective_incomplete :
    (d : Decision) (c : Collected) (o : AnalysisOutcome × List Text)
    → analyzers_error c.failures ≢ none
    → effective_grade d c o ≡ grade_f
unfolding effective_grade
effective_incomplete d c o h =
    ground (arith, score_incomplete d.all_findings c o h, score_incomplete d.findings c o h)

decided-FailsClosed :
    (e : Engine) (run : RunConfig) (digest version : Text) (files : List ChangedFile)
    (c : Collected) (r : Result Decision)
    → FailsClosed (decided e run digest version files c r)
unfolding decided
decided-FailsClosed e run digest version files c (err why) h = failed-IsFailing digest _
decided-FailsClosed e run digest version files c (ok d) h =
    let s = score_incomplete d.all_findings c _ h in
    record { grade = s; effective = effective_incomplete d c _ h; gate_closed = rw s (gate-f _) }

collected-FailsClosed :
    (e : Engine) (run : RunConfig) (digest version : Text) (files : List ChangedFile)
    (c : Run Collected)
    → FailsClosed (collected e run digest version files c)
unfolding collected
collected-FailsClosed e run digest version files (panics why) h = panic-IsFailing digest why
collected-FailsClosed e run digest version files (returns (err why)) h = failed-IsFailing digest _
collected-FailsClosed e run digest version files (returns (ok c)) h =
    decided-FailsClosed e run digest version files c _ h

-- `Certify` fails closed: whenever it returns an error (a cancelled run, a panic, an analyzer that
-- failed, a policy that could not be applied), the grade and the effective grade are F and the
-- merge gate is closed.
pub certify-IsFailing :
    (hash : List ℕ → Text) (e : Engine) (cancelled : Option Text) (files : List ChangedFile)
    (config : RunConfig)
    → (certify hash e cancelled files config).1 ≢ none
    → IsFailing (certify hash e cancelled files config).0
unfolding certify
certify-IsFailing hash e (some why) files config h = failed-IsFailing _ _
certify-IsFailing hash e none files config h = collected-FailsClosed e _ _ _ _ _ h
