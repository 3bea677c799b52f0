-- ===== src/Domain/Certificate.antt =====
-- The certificate (internal/domain/certificate.go).
use reversibility_engine.Prelude.Text.{Text}
use reversibility_engine.Prelude.{Bool, List}
use reversibility_engine.Domain.Grade.{Grade, AnalysisOutcome, GateStatus, Coverage}
use reversibility_engine.Domain.Finding.{Finding, WaivedFinding, DownMigrationStatus}

-- `UnanalyzedFile`: a file that was not read, and why.
pub record UnanalyzedFile : Type 0 where
  pub path : Text
  pub reason : Text

-- `ReversibilityCertificate`. A nil list is the empty list.
pub record ReversibilityCertificate : Type 0 where
  pub schema_version : Text
  pub grade : Grade
  pub outcome : AnalysisOutcome
  pub effective_grade : Grade
  pub ai_gate_status : GateStatus
  pub coverage : Coverage
  pub unanalyzed_files : List UnanalyzedFile
  pub ignored_by_policy : List Text
  pub applicable : Bool
  pub input_digest : Text
  pub findings : List Finding
  pub waived : List WaivedFinding
  pub policy_digest : Text
  pub catalog_version : Text
  pub context_warnings : List Text
  pub policy_warnings : List Text
  pub path_anchor : Text
  pub path_prefix : Text
  pub undo_plan : List Text
  pub blockers : List Text
  pub grade_causes : List Text
  pub down_migrations : List DownMigrationStatus
