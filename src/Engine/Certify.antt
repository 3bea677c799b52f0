-- ===== src/Engine/Certify.antt =====
-- Certification (internal/engine/engine.go).
pub mod FailClosed
pub mod Pass
pub mod Unread
pub mod Effective
use reversibility_engine.Prelude.Text.{Text, text, decimal, join}
use reversibility_engine.Prelude.Sort.{sort_strings}
use reversibility_engine.Prelude.Result.{Result, ok, err}
use reversibility_engine.Prelude.{
  ℕ, ◌&&◌, List, [], ◌∷◌, ◌++◌, Option, none, some, if◌then◌else◌, is_empty, count_p, length, map,
}
use reversibility_engine.Domain.Grade.{
  Grade, coverage_full, coverage_partial, GateConditions, gate, AnalysisOutcome, certifies,
}
use reversibility_engine.Domain.Finding.{Finding, sort_findings}
use reversibility_engine.Domain.Located.{Locator, new_locator, ChangedFile}
use reversibility_engine.Domain.Certificate.{ReversibilityCertificate}
use reversibility_engine.Policy.Apply.{Policy, Decision, apply}
use reversibility_engine.Engine.Candidate.{candidate, unanalyzed_files}
use reversibility_engine.Engine.Digest.{input_digest, combine_digests}
use reversibility_engine.Engine.Interfaces.{Run, returns, panics, ProductionContext}
use reversibility_engine.Engine.Outcome.{outcome}
use reversibility_engine.Engine.Score.{ScoreInput, score}
use reversibility_engine.Engine.Undo.{build_undo_plan}
use reversibility_engine.Engine.Collect.{
  Engine, RunConfig, anchored_prefix, located, Collected, run_analyzers, catalogs,
}
use reversibility_engine.Engine.Broken.{
  schema_version_in_force, panic_certificate, failed_certificate,
}

abbrev policy_digest_of : Option Policy → Text
policy_digest_of none = []
policy_digest_of (some p) = p.digest

abbrev warnings_of : Option ProductionContext → List Text
warnings_of none = []
warnings_of (some c) = c.warnings

abbrev pub enrich_with : Option ProductionContext → List Finding → List Finding
enrich_with none fs = fs
enrich_with (some c) fs = c.enrich fs

-- `policyWarnings`.
unfoldable pub policy_warnings : List Text → List Text → Text → List Text
policy_warnings dead_ignores dead_waivers anchor =
    if is_empty dead_ignores && is_empty dead_waivers
    then []
    else map (λ p. text "ignore pattern " ++ (p ++ text " matched no file in this changeset"))
        dead_ignores
      ++ (map (λ w. text "waiver " ++ (w ++ text " covered no finding in this changeset"))
            dead_waivers
          ++ (if is_empty anchor
              then text
                  "no project root was found (no .git, .hg, .svn or .reversibility.yml above the analysis root), so paths were resolved absolutely and a project-relative pattern cannot match"
                ∷ []
              else []))

-- What `score` is given for a list of findings.
abbrev pub score_input : List Finding → Collected → AnalysisOutcome × List Text → ScoreInput
score_input findings c o = record {
  findings = findings;
  down_migrations = c.down;
  analyzer_errors = c.failures;
  outcome = o.0;
  unsupported = o.1;
}

-- The grade with waived findings set aside.
unfoldable pub effective_grade : Decision → Collected → AnalysisOutcome × List Text → Grade
effective_grade d c o =
    if is_empty d.waived
    then (score (score_input d.all_findings c o)).grade
    else (score (score_input d.findings c o)).grade

abbrev pub gate_conditions : RunConfig → Locator → List Text → GateConditions
gate_conditions run locate unsupported = record {
  coverage = if is_empty unsupported then coverage_full else coverage_partial;
  policy_ignored = count_p (λ p. candidate (locate p)) run.ignored_by_policy;
}

-- The certificate of a run that came to its end.
unfoldable pub assemble :
    Engine
    → RunConfig
    → Locator
    → Text
    → Text
    → Collected
    → AnalysisOutcome × List Text
    → Decision
    → ReversibilityCertificate
unfolding effective_grade policy_warnings anchored_prefix
assemble e run locate digest catalog_version c o d =
    let scored = score (score_input d.all_findings c o) in
    let conditions = gate_conditions run locate o.1 in
    record {
      schema_version = schema_version_in_force;
      grade = scored.grade;
      outcome = o.0;
      effective_grade = effective_grade d c o;
      ai_gate_status = gate scored.grade conditions;
      coverage = conditions.coverage;
      unanalyzed_files = unanalyzed_files o.1 locate;
      ignored_by_policy = run.ignored_by_policy;
      applicable = certifies o.0;
      input_digest = digest;
      findings = d.findings;
      waived = d.waived;
      policy_digest = policy_digest_of e.policy;
      catalog_version = catalog_version;
      context_warnings = warnings_of e.context;
      policy_warnings = policy_warnings run.dead_ignores d.dead_waivers run.anchor;
      path_anchor = run.anchor;
      path_prefix = anchored_prefix run;
      undo_plan = build_undo_plan d.all_findings;
      blockers = scored.blockers;
      grade_causes = scored.causes;
      down_migrations = c.down;
    }

abbrev mix : (List ℕ → Text) → Option Text → Text → Text
mix hash none digest = digest
mix hash (some other) digest = combine_digests hash digest other

abbrev digest_of_catalogs : Text → Option Text
digest_of_catalogs d = if is_empty d then none else some d

abbrev policy_part : Option Policy → Option Text
policy_part none = none
policy_part (some p) = some p.digest

abbrev context_part : Option ProductionContext → Option Text
context_part none = none
context_part (some c) = some c.digest

module _ (hash : List ℕ → Text) where
  -- The digest that `Certify` reports: the files, then the policy, context and catalogs in force.
  unfoldable pub run_digest : Engine → List ChangedFile → Text
  unfolding input_digest combine_digests catalogs
  run_digest e files = mix hash (digest_of_catalogs (catalogs e.analyzers files).1) (
      mix hash (context_part e.context) (mix hash (policy_part e.policy) (input_digest hash files)))

-- The enumeration, or the paths of the files where there is none.
abbrev pub enumeration : RunConfig → List ChangedFile → List Text
enumeration run files = if is_empty run.enumerated then map (λ f. f.path) files else run.enumerated

abbrev pub failed : Text → Text → ReversibilityCertificate × Option Text
failed digest why =
    (failed_certificate digest (text "engine: " ++ why), some (text "engine: " ++ why))

abbrev pub analyzers_error : List Text → Option Text
analyzers_error failures =
    if is_empty failures
    then none
    else some (
        text "engine: "
        ++ (decimal (length failures)
            ++ (text " analyzer(s) failed: [" ++ (join (text " ") failures ++ text "]"))))

-- From the decision of the policy on.
unfoldable pub decided :
    Engine
    → RunConfig
    → Text
    → Text
    → List ChangedFile
    → Collected
    → Result Decision
    → ReversibilityCertificate × Option Text
unfolding assemble outcome
decided e run digest version files c (err why) = failed digest why
decided e run digest version files c (ok d) =
    let locate = new_locator run.root in
    (
      assemble e run locate digest version c
          (outcome e.analyzers files (enumeration run files) locate) d,
      analyzers_error c.failures,
    )

-- From the result of the analyzers on. A panic discards whatever was found.
unfoldable pub collected :
    Engine
    → RunConfig
    → Text
    → Text
    → List ChangedFile
    → Run Collected
    → ReversibilityCertificate × Option Text
unfolding decided
collected e run digest version files (panics why) =
    (panic_certificate digest why, some (text "domain: analyzer panicked: " ++ why))
collected e run digest version files (returns (err why)) = failed digest why
collected e run digest version files (returns (ok c)) = decided e run digest version files c (
    apply e.policy (enrich_with e.context (sort_findings c.findings)) e.today
      (new_locator run.root))

abbrev pub start :
    Engine
    → RunConfig
    → Text
    → Text
    → List ChangedFile
    → Option Text
    → ReversibilityCertificate × Option Text
start e run digest version files (some why) = failed digest why
start e run digest version files none =
    collected e run digest version files (run_analyzers e.analyzers files)

-- `Certify`: the certificate, and the error if there is one. `cancelled` is `ctx.Err()`.
unfoldable pub certify :
    (List ℕ → Text)
    → Engine
    → Option Text
    → List ChangedFile
    → RunConfig
    → ReversibilityCertificate × Option Text
unfolding collected run_digest
certify hash e cancelled files config =
    let run = record config { ignored_by_policy = sort_strings config.ignored_by_policy } in
    let stamped = located files (new_locator run.root) in
    start e run (run_digest hash e stamped) (catalogs e.analyzers stamped).0 stamped cancelled
