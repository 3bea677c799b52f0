-- ===== src/Policy/Apply.antt =====
-- Applying a policy to the findings (internal/policy/policy.go).
pub mod Tighten
pub mod Waive
pub mod Decided
use mathlib.Core.List.{foldl}
use reversibility_engine.Prelude.Text.{Text, text, text_eq}
use reversibility_engine.Prelude.Sort.{sort_by}
use reversibility_engine.Prelude.Result.{Result, ok, err, ◌>>=◌}
use reversibility_engine.Prelude.{
  ℕ, suc, Bool, true, false, not, ◌&&◌, ◌||◌, List, [], ◌∷◌, ◌++◌, Option, none, some,
  if◌then◌else◌, is_empty, ltb, any, ◌==◌,
}
use reversibility_engine.Domain.Verdict
use reversibility_engine.Domain.Verdict.{Reversibility, unknown, will_fail, severity, verdict_text}
use reversibility_engine.Domain.Grade.{Grade}
use reversibility_engine.Domain.Finding.{Finding, WaivedFinding, finding_less}
use reversibility_engine.Domain.Located.{Locator}
use reversibility_engine.Policy.Match.{glob_match}
use reversibility_engine.Policy.Date.{Day, parse_day, is_after}

-- `Waiver`.
pub record Waiver : Type 0 where
  pub rule : Text
  pub path : Text
  pub reason : Text
  pub expires : Text
  pub approved_by : Text

-- `Override`.
pub record Override : Type 0 where
  pub rule : Text
  pub severity_set : Reversibility

-- `TerraformType`.
pub record TerraformType : Type 0 where
  pub type_name : Text
  pub class : Text

-- `Policy`. A nil policy is `none` of an option.
pub record Policy : Type 0 where
  pub source : Text
  pub gate : Grade
  pub ignore : List Text
  pub waivers : List Waiver
  pub overrides : List Override
  pub terraform_types : List TerraformType
  pub digest : Text

-- `Decision`; `all_findings` is its field `All`.
pub record Decision : Type 0 where
  pub all_findings : List Finding
  pub findings : List Finding
  pub waived : List WaivedFinding
  pub dead_waivers : List Text

-- The error of an override that would lower a classification.
weaker_error : Override → Finding → Text
weaker_error o f =
    text "domain: invalid policy: override for "
    ++ (o.rule
        ++ (text " sets "
            ++ (verdict_text o.severity_set
                ++ (text ", which is weaker than the "
                    ++ (verdict_text f.reversibility
                        ++ (text " the analyzer found at "
                            ++ (f.file ++ text "; an override may only make a rule stricter")))))))

-- The inner loop of `applyOverrides`, for one finding.
pub tighten : List Override → Finding → Result Finding
unfolding text_eq severity
tighten [] f = ok f
tighten (o ∷ os) f =
    let same = tighten os f in
    let raised = tighten os (record f { reversibility = o.severity_set }) in
    if not (text_eq o.rule f.rule_id)
    then same
    else (if ltb (severity o.severity_set) (severity f.reversibility)
        then err (weaker_error o f)
        else raised)

pub tighten_all : List Override → List Finding → Result (List Finding)
unfolding tighten
tighten_all os [] = ok []
tighten_all os (f ∷ fs) = do f' ← tighten os f; fs' ← tighten_all os fs; ok (f' ∷ fs')

-- `applyOverrides`.
unfoldable pub apply_overrides : Policy → List Finding → Result (List Finding)
unfolding tighten_all weaker_error
apply_overrides p fs = if is_empty p.overrides then ok fs else tighten_all p.overrides fs

-- `Waiver.describe`.
unfoldable pub describe : Waiver → Text
describe w =
    if is_empty w.path then w.rule ++ text " (every file)" else w.rule ++ (text " at " ++ w.path)

abbrev lapsed : Option Day → Day → Bool
lapsed none today = true
lapsed (some d) today = is_after today d

-- `Waiver.expired`: a date that cannot be read has lapsed.
unfoldable pub expired : Waiver → Day → Bool
unfolding parse_day is_after
expired w today = lapsed (parse_day w.expires) today

-- UNKNOWN, WILL_FAIL and an unrecognised verdict cannot be waived.
unfoldable pub is_waivable : Reversibility → Bool
is_waivable unknown = false
is_waivable will_fail = false
is_waivable (Reversibility.other s) = false
is_waivable _ = true

-- The tests of the loop of `waiverFor` for one waiver.
unfoldable pub covers : Waiver → Finding → Day → Locator → Bool
unfolding text_eq expired
covers w f today locate =
    text_eq w.rule f.rule_id
    && ((is_empty w.path || glob_match w.path (locate f.file)) && not (expired w today))

pub first_cover : List Waiver → ℕ → Finding → Day → Locator → Option (Waiver × ℕ)
first_cover [] i f today locate = none
first_cover (w ∷ ws) i f today locate =
    let rest = first_cover ws (suc i) f today locate in
    if covers w f today locate then some (w, i) else rest

-- `waiverFor`: the first live waiver that covers the finding, with its index.
unfoldable pub waiver_for : Policy → Finding → Day → Locator → Option (Waiver × ℕ)
unfolding is_waivable first_cover
waiver_for p f today locate =
    if is_waivable f.reversibility then first_cover p.waivers 0 f today locate else none

-- `domain.WaivedFinding{...}`.
abbrev pub waived_by : Finding → Waiver → WaivedFinding
waived_by f w = record {
  finding = f;
  reason = w.reason;
  expires = w.expires;
  approved_by = w.approved_by;
}

-- What the loop of `Apply` fills: the findings that count, the waived ones, and the indices in
-- `fired`.
pub record Sorted : Type 0 where
  pub counted : List Finding
  pub waived : List WaivedFinding
  pub fired : List ℕ

abbrev pub sort_out : Finding → Option (Waiver × ℕ) → Sorted → Sorted
sort_out f none s = record s { counted = f ∷ s.counted }
sort_out f (some (w, i)) s = record s { waived = waived_by f w ∷ s.waived; fired = i ∷ s.fired }

pub apply_waivers : Policy → Day → Locator → List Finding → Sorted
unfolding waiver_for
apply_waivers p today locate [] = record { counted = []; waived = []; fired = [] }
apply_waivers p today locate (f ∷ fs) =
    sort_out f (waiver_for p f today locate) (apply_waivers p today locate fs)

-- The last loop of `Apply`: the waivers whose index has not fired.
pub dead_from : List ℕ → ℕ → List Waiver → List Text
unfolding describe
dead_from fired i [] = []
dead_from fired i (w ∷ ws) =
    let rest = dead_from fired (suc i) ws in
    if any fired (λ j. j == i) then rest else describe w ∷ rest

-- `Apply` on a policy that is there.
unfoldable pub decide_with : Policy → List Finding → Day → Locator → Result Decision
unfolding apply_overrides apply_waivers dead_from
decide_with p fs today locate = do
  tightened ← apply_overrides p fs
  let s = apply_waivers p today locate tightened
  ok (record {
    all_findings = tightened;
    findings = s.counted;
    waived = sort_by (λ a b. finding_less a.finding b.finding) s.waived;
    dead_waivers = dead_from s.fired 0 p.waivers;
  })

-- `Policy.Apply`; the engine always passes a locator.
unfoldable pub apply : Option Policy → List Finding → Day → Locator → Result Decision
unfolding decide_with
apply none fs today locate =
    ok (record { all_findings = fs; findings = fs; waived = []; dead_waivers = [] })
apply (some p) fs today locate = decide_with p fs today locate
