-- ===== src/Domain/Finding.antt =====
-- Findings, their production context and their canonical order (internal/domain/finding.go), and
-- the state of down migrations (internal/domain/certificate.go).
use reversibility_engine.Prelude.Text.{Text, text, text_eq, text_lt}
use reversibility_engine.Prelude.Int.{ℤ}
use reversibility_engine.Prelude.Sort.{sort_by}
use reversibility_engine.Prelude.{ℕ, Bool, not, [], List, Option, ltb, ◌==◌, if◌then◌else◌}
use reversibility_engine.Domain.Verdict.{Reversibility, LockHazard}
use reversibility_engine.Domain.Grade.{Grade, grade_b, grade_c}

-- What a finding is about.
pub record Subject : Type 0 where
  pub relation : Text
  pub object : Text

-- A bucketed lock duration.
pub data LockDurationBand : Type 0 where
  band_negligible band_noticeable band_disruptive band_outage : LockDurationBand
  other : Text → LockDurationBand

-- `LockDurationBand.Cap`: the best grade that the band permits, `""` for no ceiling.
unfoldable pub band_cap : LockDurationBand → Grade
band_cap band_disruptive = grade_b
band_cap band_outage = grade_c
band_cap _ = Grade.other []

-- The string behind a band.
unfoldable pub band_text : LockDurationBand → Text
band_text band_negligible = text "NEGLIGIBLE"
band_text band_noticeable = text "NOTICEABLE"
band_text band_disruptive = text "DISRUPTIVE"
band_text band_outage = text "OUTAGE"
band_text (LockDurationBand.other s) = s

-- What a production snapshot added to a finding. The numbers are `int64`.
pub record FindingContext : Type 0 where
  pub row_estimate : ℤ
  pub size_bytes : ℤ
  pub estimated_lock_duration : Text
  pub context_note : Text
  pub lock_duration_band : LockDurationBand

-- One classified change. `line` is 1-based, and 0 for the whole file; `*FindingContext` is an
-- option.
pub record Finding : Type 0 where
  pub rule_id : Text
  pub file : Text
  pub line : ℕ
  pub statement : Text
  pub reversibility : Reversibility
  pub lock_hazard : LockHazard
  pub rationale : Text
  pub undo_step : Text
  pub subject : Subject
  pub context : Option FindingContext

-- The comparison of `SortFindings`: by file, then line, then rule.
unfoldable pub finding_less : Finding → Finding → Bool
unfolding text_eq text_lt
finding_less a b =
    if not (text_eq a.file b.file)
    then text_lt a.file b.file
    else (if not (a.line == b.line) then ltb a.line b.line else text_lt a.rule_id b.rule_id)

-- `SortFindings`.
unfoldable pub sort_findings : List Finding → List Finding
sort_findings = sort_by finding_less

-- A finding that a policy downgraded to advisory.
pub record WaivedFinding : Type 0 where
  pub finding : Finding
  pub reason : Text
  pub expires : Text
  pub approved_by : Text

-- The outcome of down-migration validation for one pair, at its three levels.
pub record DownMigrationStatus : Type 0 where
  pub migration : Text
  pub up_file : Text
  pub down_file : Text
  pub exists : Bool
  pub parses : Bool
  pub symmetric : Bool
  pub symmetry_notes : List Text
