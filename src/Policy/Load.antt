-- ===== src/Policy/Load.antt =====
-- Resolving a policy from its file (internal/policy/load.go and `ValidatePattern` of
-- internal/policy/match.go). The YAML decoder and SHA-256 are parameters.
pub mod Resolve
pub mod Accepts
use reversibility_engine.Prelude.Text.{
  Text, text, text_eq, to_upper, trim_space, quote, decimal, join,
}
use reversibility_engine.Prelude.Int.{ℤ, pos, negsuc}
use reversibility_engine.Prelude.Result.{Result, ok, err, ◌>>=◌}
use reversibility_engine.Prelude.{
  ℕ, suc, Bool, true, false, not, ◌&&◌, ◌||◌, List, [], ◌∷◌, ◌++◌, Option, none, some,
  if◌then◌else◌, is_empty, ◌==◌, leb,
}
use reversibility_engine.Glob.{path_match}
use reversibility_engine.Domain.Verdict
use reversibility_engine.Domain.Verdict.{Reversibility, verdict_of, verdict_text, is_reversible}
use reversibility_engine.Domain.Grade
use reversibility_engine.Domain.Grade.{Grade, grade_of, grade_text}
use reversibility_engine.Engine.Digest.{write_field}
use reversibility_engine.Policy.Date.{Day, parse_day, is_after, add_days}
use reversibility_engine.Policy.Match.{segments, is_deep}
use reversibility_engine.Policy.Apply.{Waiver, Override, TerraformType, Policy}

-- The fields of `file`, decoded.
pub record File : Type 0 where
  pub version : ℤ
  pub gate : Text
  pub ignore : List Text
  pub waivers : List Waiver
  pub overrides : List Override
  pub terraform_types : List TerraformType

pub integer : ℤ → Text
unfolding decimal
integer (pos n) = decimal n
integer (negsuc n) = b'-' ∷ decimal (suc n)

is_bad : Option Bool → Bool
is_bad none = true
is_bad (some _) = false

-- The loop of `ValidatePattern`.
validate_segments : List Text → Option Text
unfolding is_deep path_match is_bad
validate_segments [] = none
validate_segments (s ∷ ss) =
    let rest = validate_segments ss in
    if is_deep s
    then rest
    else (if is_bad (path_match s [])
        then some (text "segment " ++ (quote s ++ text ": syntax error in pattern"))
        else rest)

-- `ValidatePattern`.
unfoldable pub validate_pattern : Text → Option Text
unfolding validate_segments segments trim_space
validate_pattern p =
    if is_empty (trim_space p) then some (text "empty pattern") else validate_segments (segments p)

-- `MaxWaiverWindow`, in days.
abbrev pub max_waiver_window : ℕ
max_waiver_window = 180

-- `t.Format(dateLayout)`, for a year of four digits.
day_text : Day → Text
unfolding decimal
day_text t = decimal t.year ++ (b'-' ∷ (two t.month ++ b'-' ∷ two t.day))
  where
    two : ℕ → Text
    two n = if leb 10 n then decimal n else 48 ∷ decimal n

-- `validateWaiver` on the date of a waiver.
pub validate_expires : Waiver → Day → Option Day → Option Text
unfolding is_after add_days quote day_text
validate_expires w today none = some (
    text "expires "
    ++ (quote w.expires
        ++ (text " on " ++ (w.rule ++ text " is not a date of the form YYYY-MM-DD"))))
validate_expires w today (some expires) =
    let limit = add_days max_waiver_window today in
    if is_after expires limit
    then some (
        text "expires "
        ++ (w.expires
            ++ (text " on "
                ++ (w.rule
                    ++ (text " is more than 180 days away; the limit is " ++ day_text limit)))))
    else none

pub validate_path : Waiver → Option Text → Result Waiver
validate_path w none = ok w
validate_path w (some e) =
    err (text "path " ++ (quote w.path ++ (text " on " ++ (w.rule ++ (text ": " ++ e)))))

abbrev pub trimmed : Waiver → Waiver
trimmed w = record {
  rule = trim_space w.rule;
  path = trim_space w.path;
  reason = trim_space w.reason;
  expires = trim_space w.expires;
  approved_by = trim_space w.approved_by;
}

pub after_expires : Waiver → Option Text → Result Waiver
unfolding validate_path validate_pattern
after_expires w (some e) = err e
after_expires w none = if is_empty w.path then ok w else validate_path w (validate_pattern w.path)

-- `validateWaiver` from the checks on.
pub check_waiver : Waiver → Day → Result Waiver
unfolding validate_expires after_expires parse_day
check_waiver w today =
    if is_empty w.rule
    then err (text "rule is required; a waiver that names no rule would cover everything")
    else (if is_empty w.reason
        then err (text "reason is required for the waiver on " ++ w.rule)
        else (if is_empty w.expires
            then err (
                text "expires is required for the waiver on "
                ++ (w.rule ++ text ", as a date such as 2026-10-01"))
            else after_expires w (validate_expires w today (parse_day w.expires))))

-- `validateWaiver`.
unfoldable pub validate_waiver : Waiver → Day → Result Waiver
unfolding check_waiver trim_space
validate_waiver w today = check_waiver (trimmed w) today

pub check_override : Override → Result Override
check_override o =
    if is_empty o.rule
    then err (text "rule is required")
    else (if not (Verdict.is_valid o.severity_set)
        then err (
            text "severity "
            ++ (quote (verdict_text o.severity_set)
                ++ (text " on "
                    ++ (o.rule
                        ++ text
                            " is not a classification; want REVERSIBLE, COSTLY, IRREVERSIBLE, or UNKNOWN"))))
        else (if is_reversible o.severity_set
            then err (
                text "override for "
                ++ (o.rule
                    ++ text
                        " sets REVERSIBLE, which can only weaken a finding; an override may only make a rule stricter"))
            else ok o))

abbrev pub normalized : Override → Override
normalized o = record {
  rule = trim_space o.rule;
  severity_set = verdict_of (to_upper (trim_space (verdict_text o.severity_set)));
}

-- `validateOverride`.
unfoldable pub validate_override : Override → Result Override
unfolding check_override trim_space to_upper
validate_override o = check_override (normalized o)
