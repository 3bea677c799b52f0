-- ===== src/Engine/Broken.antt =====
-- The certificates of runs that broke down (internal/engine/engine.go).
use reversibility_engine.Prelude.Text.{Text, text}
use reversibility_engine.Prelude.{true, List, [], ◌∷◌, ◌++◌, none}
use reversibility_engine.Domain.Verdict.{unknown, lock_exclusive}
use reversibility_engine.Domain.Grade.{grade_f, coverage_full, GateConditions, gate, analyzed}
use reversibility_engine.Domain.Finding.{Finding}
use reversibility_engine.Domain.Certificate.{ReversibilityCertificate}
use reversibility_engine.Engine.Undo.{no_complete_undo}

-- `domain.SchemaVersion`.
abbrev pub schema_version_in_force : Text
schema_version_in_force = text "1.5.0"

abbrev full_coverage : GateConditions
full_coverage = record { coverage = coverage_full; policy_ignored = 0 }

-- The certificate of a run that broke down, over its digest, findings and blockers.
broken_certificate : Text → List Finding → List Text → ReversibilityCertificate
broken_certificate digest findings blockers = record {
  schema_version = schema_version_in_force;
  grade = grade_f;
  outcome = analyzed;
  effective_grade = grade_f;
  ai_gate_status = gate grade_f full_coverage;
  coverage = coverage_full;
  unanalyzed_files = [];
  ignored_by_policy = [];
  applicable = true;
  input_digest = digest;
  findings = findings;
  waived = [];
  policy_digest = [];
  catalog_version = [];
  context_warnings = [];
  policy_warnings = [];
  path_anchor = [];
  path_prefix = [];
  undo_plan = no_complete_undo ∷ [];
  blockers = blockers;
  grade_causes = text "graded F: the engine could not complete this run" ∷ [];
  down_migrations = [];
}

-- A finding that no file can be blamed for.
broken_finding : Text → Text → Finding
broken_finding rule rationale = record {
  rule_id = rule;
  file = [];
  line = 0;
  statement = [];
  reversibility = unknown;
  lock_hazard = lock_exclusive;
  rationale = rationale;
  undo_step = [];
  subject = record { relation = []; object = [] };
  context = none;
}

-- `panicCertificate`.
unfoldable pub panic_certificate : Text → Text → ReversibilityCertificate
unfolding broken_certificate broken_finding
panic_certificate digest why =
    broken_certificate digest
      (broken_finding (text "ENGINE_PANIC") (
          text
            "The engine panicked while analyzing this changeset, so no part of its verdict can be trusted.")
        ∷ [])
      ((text "the engine panicked: " ++ why) ∷ [])

-- `failedCertificate`.
unfoldable pub failed_certificate : Text → Text → ReversibilityCertificate
unfolding broken_certificate
failed_certificate digest why =
    broken_certificate digest [] ((text "analysis did not run: " ++ why) ∷ [])

-- `UnavailableCertificate`.
unfoldable pub unavailable_certificate : Text → Text → ReversibilityCertificate
unfolding broken_certificate broken_finding
unavailable_certificate rule cause =
    let rationale =
      text "The changeset could not be retrieved, so nothing about it could be analyzed: "
      ++ (cause ++ text ".") in
    broken_certificate [] (broken_finding rule rationale ∷ []) (rationale ∷ [])
