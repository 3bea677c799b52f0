-- ===== src/Domain/Verdict.antt =====
-- Verdicts and lock hazards (internal/domain/classification.go).
use reversibility_engine.Prelude.Text.{Text, text, text_eq}
use reversibility_engine.Prelude.{ℕ, Bool, true, false, leb, if◌then◌else◌}

-- Whether a change can be undone.
pub data Reversibility : Type 0 where
  reversible costly irreversible unknown will_fail : Reversibility
  other : Text → Reversibility

-- `Reversibility.Valid`: the zero value is not.
unfoldable pub is_valid : Reversibility → Bool
is_valid (Reversibility.other s) = false
is_valid _ = true

-- `Reversibility.Severity`, for the precedence of rules.
unfoldable pub severity : Reversibility → ℕ
severity reversible = 0
severity costly = 1
severity unknown = 2
severity irreversible = 3
severity will_fail = 4
severity (Reversibility.other s) = 5

-- `r == ReversibilityCostly`.
abbrev pub is_costly : Reversibility → Bool
is_costly costly = true
is_costly _ = false

-- `r == ReversibilityReversible`.
abbrev pub is_reversible : Reversibility → Bool
is_reversible reversible = true
is_reversible _ = false

-- The string behind a verdict.
unfoldable pub verdict_text : Reversibility → Text
verdict_text reversible = text "REVERSIBLE"
verdict_text costly = text "COSTLY"
verdict_text irreversible = text "IRREVERSIBLE"
verdict_text unknown = text "UNKNOWN"
verdict_text will_fail = text "WILL_FAIL"
verdict_text (Reversibility.other s) = s

-- `domain.Reversibility(s)`.
unfoldable pub verdict_of : Text → Reversibility
unfolding text_eq
verdict_of s =
    if text_eq s (text "REVERSIBLE")
    then reversible
    else (if text_eq s (text "COSTLY")
        then costly
        else (if text_eq s (text "IRREVERSIBLE")
            then irreversible
            else (if text_eq s (text "UNKNOWN")
                then unknown
                else (if text_eq s (text "WILL_FAIL") then will_fail else Reversibility.other s))))

-- The locking cost of applying a change.
pub data LockHazard : Type 0 where
  lock_none lock_short lock_full_scan lock_table_rewrite lock_exclusive : LockHazard
  other : Text → LockHazard

-- `LockHazard.Severity`: an unset or corrupt hazard sorts as the worst.
unfoldable pub lock_severity : LockHazard → ℕ
lock_severity lock_none = 0
lock_severity lock_short = 1
lock_severity lock_full_scan = 2
lock_severity lock_table_rewrite = 3
lock_severity lock_exclusive = 4
lock_severity (LockHazard.other s) = 5

-- `l.AtLeast(other)`.
unfoldable pub at_least : LockHazard → LockHazard → Bool
unfolding lock_severity
at_least l l' = leb (lock_severity l') (lock_severity l)

-- The string behind a hazard.
unfoldable pub lock_text : LockHazard → Text
lock_text lock_none = text "NONE"
lock_text lock_short = text "SHORT"
lock_text lock_full_scan = text "FULL_SCAN"
lock_text lock_table_rewrite = text "TABLE_REWRITE"
lock_text lock_exclusive = text "EXCLUSIVE"
lock_text (LockHazard.other s) = s
