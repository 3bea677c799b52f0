-- ===== src/Engine/Certify/Unread.antt =====
-- An unread file in a migration directory denies a certificate (internal/engine/engine.go and
-- internal/engine/candidate.go).
use mathlib.Core.List.{Memᴰ}
use reversibility_engine.Prelude.Text.{Text}
use reversibility_engine.Prelude.Int.{pos, ◌≤ℤ◌}
use reversibility_engine.Prelude.Result.{Result, ok, err}
use reversibility_engine.Prelude.{
  ℕ, ◌≡◌, ◌≢◌, refl, true, false, ◌&&◌, List, Option, none, some, arith, any, any-of_mem,
}
use reversibility_engine.Domain.Grade.{gate_pass, rank}
use reversibility_engine.Domain.Finding.{Finding}
use reversibility_engine.Domain.Located.{ChangedFile, Locator, new_locator}
use reversibility_engine.Domain.Certificate.{ReversibilityCertificate}
use reversibility_engine.Policy.Apply.{Decision}
use reversibility_engine.Engine.Candidate.{in_migration_dir}
use reversibility_engine.Engine.Interfaces.{Analyzer, Run, returns, panics}
use reversibility_engine.Engine.Collect.{Engine, RunConfig, Collected, located}
use reversibility_engine.Engine.Outcome.{supports, is_read, is_unread, outcome}
use reversibility_engine.Engine.Outcome.Unread.{
  outcome_lem, unread_empty, is_unread-in_migration_dir,
}
use reversibility_engine.Engine.Score.{score}
use reversibility_engine.Engine.Score.Rules.{score-eq-rules}
use reversibility_engine.Engine.Certify.{
  assemble, effective_grade, score_input, decided, collected, certify, enumeration,
}
use reversibility_engine.Engine.Certify.FailClosed.{IsFailing, failed-IsFailing, panic-IsFailing}
use reversibility_engine.Engine.Certify.Pass.{gate_passes}

-- No certificate: neither grade is better than F (it is F, or there is none), and the gate is not
-- open.
pub record IsDenied (c : ReversibilityCertificate) : Type 0 where
  pub grade : rank c.grade ≤ℤ pos 0
  pub effective : rank c.effective_grade ≤ℤ pos 0
  pub shut : c.ai_gate_status ≢ gate_pass

failing-IsDenied : (c : ReversibilityCertificate) → IsFailing c → IsDenied c
unfolding rank
failing-IsDenied c h = record {
  grade = ground (arith, h.grade);
  effective = ground (arith, h.effective);
  shut = ground (arith, h.gate_closed);
}

module _ (analyzers : List Analyzer) (files : List ChangedFile) (enumerated : List Text)
    (locate : Locator) where
  unread_grade :
      (fs : List Finding) (c : Collected)
      → any enumerated (is_unread analyzers files enumerated locate) ≡ true
      → rank (score (score_input fs c (outcome analyzers files enumerated locate))).grade ≤ℤ pos 0
  unfolding rank
  unread_grade fs c h =
      let o = outcome_lem analyzers files enumerated locate in
      let u = unread_empty analyzers files enumerated locate in
      let s = score-eq-rules (score_input fs c (outcome analyzers files enumerated locate)) in
      ground arith

assemble-IsDenied :
    (e : Engine) (run : RunConfig) (digest version : Text) (files : List ChangedFile)
    (c : Collected) (paths : List Text) (d : Decision)
    → any paths (is_unread e.analyzers files paths (new_locator run.root)) ≡ true
    → IsDenied (
        assemble e run
          (new_locator run.root)
          digest
          version
          c
          (outcome e.analyzers files paths (new_locator run.root))
          d)
unfolding assemble effective_grade rank
assemble-IsDenied e run digest version files c paths d h =
    let g = unread_grade e.analyzers files paths (new_locator run.root) in
    record {
      grade = g d.all_findings c h;
      effective = ground (arith, g d.all_findings c h, g d.findings c h);
      shut = λ k. ground (arith, g d.all_findings c h, gate_passes _ _ k);
    }

decided-IsDenied :
    (e : Engine) (run : RunConfig) (digest version : Text) (files : List ChangedFile)
    (c : Collected) (r : Result Decision)
    → any
        (enumeration run files)
        (is_unread e.analyzers files (enumeration run files) (new_locator run.root))
      ≡ true
    → IsDenied (decided e run digest version files c r).0
unfolding decided
decided-IsDenied e run digest version files c (err why) h =
    failing-IsDenied _ (failed-IsFailing _ _)
decided-IsDenied e run digest version files c (ok d) h =
    assemble-IsDenied e run digest version files c (enumeration run files) d h

collected-IsDenied :
    (e : Engine) (run : RunConfig) (digest version : Text) (files : List ChangedFile)
    (c : Run Collected)
    → any
        (enumeration run files)
        (is_unread e.analyzers files (enumeration run files) (new_locator run.root))
      ≡ true
    → IsDenied (collected e run digest version files c).0
unfolding collected
collected-IsDenied e run digest version files (panics why) h =
    failing-IsDenied _ (panic-IsFailing _ _)
collected-IsDenied e run digest version files (returns (err why)) h =
    failing-IsDenied _ (failed-IsFailing _ _)
collected-IsDenied e run digest version files (returns (ok c)) h =
    decided-IsDenied e run digest version files c _ h

-- A path of the enumeration that lies in a migration directory and was not read by an analyzer
-- denies the certificate: `Certify` grades F or N/A, with the waived findings set aside too, and
-- does not open the gate, whatever the other files, the policy and the analyzers are.
pub certify-unread :
    (hash : List ℕ → Text) (e : Engine) (cancelled : Option Text) (files : List ChangedFile)
    (config : RunConfig) (p : Text)
    → Memᴰ p (enumeration config (located files (new_locator config.root)))
    → in_migration_dir (new_locator config.root p) ≡ true
    → (is_read (located files (new_locator config.root)) p
        && supports e.analyzers (new_locator config.root p))
      ≡ false
    → IsDenied (certify hash e cancelled files config).0
unfolding certify
certify-unread hash e (some why) files config p m i r = failing-IsDenied _ (failed-IsFailing _ _)
certify-unread hash e none files config p m i r =
    let locate = new_locator config.root in
    let stamped = located files locate in
    let paths = enumeration config stamped in
    let u = is_unread-in_migration_dir e.analyzers stamped paths locate p m i in
    collected-IsDenied e _ _ _ _ _
      (any-of_mem paths (is_unread e.analyzers stamped paths locate) m (rw (u, r) refl))
