-- ===== src/Policy/Load/Resolve.antt =====
-- `Parse` and the digest of a policy (internal/policy/load.go).
pub mod Loaded
use reversibility_engine.Prelude.Text.{Text, text, text_eq, to_upper, trim_space, quote, decimal}
use reversibility_engine.Prelude.Int.{ℤ, pos}
use reversibility_engine.Prelude.Result.{Result, ok, err, ◌>>=◌}
use reversibility_engine.Prelude.{
  ℕ, suc, Bool, true, false, not, ◌&&◌, ◌||◌, List, [], ◌∷◌, ◌++◌, Option, none, some,
  if◌then◌else◌, is_empty, ◌==◌,
}
use reversibility_engine.Domain.Verdict.{verdict_text}
use reversibility_engine.Domain.Grade
use reversibility_engine.Domain.Grade.{Grade, grade_of, grade_text}
use reversibility_engine.Engine.Digest.{write_fields}
use reversibility_engine.Policy.Date.{Day}
use reversibility_engine.Policy.Apply.{Waiver, Override, TerraformType, Policy}
use reversibility_engine.Policy.Load.{
  File, integer, validate_pattern, validate_waiver, validate_override,
}

-- `fmt.Errorf("%w: %s: %s: %w", ErrInvalidPolicy, path, ...)`.
abbrev invalid {ℓ} : {A : Type ℓ} → Text → Text → Result A
invalid path why = err (text "domain: invalid policy: " ++ (path ++ (text ": " ++ why)))

entry : Text → ℕ → Text
unfolding decimal
entry list i = list ++ (b'[' ∷ (decimal i ++ b']' ∷ []))

abbrev not_one : ℤ → Bool
not_one (pos n) = not (n == 1)
not_one _ = true

-- The gate of the file: `""` is kept, anything else must be a grade.
pub resolve_gate : Text → Text → Result Grade
unfolding grade_of to_upper trim_space quote
resolve_gate path s =
    if is_empty s
    then ok (Grade.other [])
    else (let grade = grade_of (to_upper (trim_space s)) in
        if Grade.is_valid grade
        then ok grade
        else invalid path (text "gate " ++ (quote s ++ text " is not a grade; want A, B, C, or F")))

pub checked_pattern : Text → ℕ → Text → Option Text → Result Text
unfolding quote entry
checked_pattern path i p none = ok p
checked_pattern path i p (some e) =
    invalid path (entry (text "ignore") i ++ (b' ' ∷ (quote p ++ (text ": " ++ e))))

pub resolve_ignore : Text → ℕ → List Text → Result (List Text)
unfolding checked_pattern validate_pattern
resolve_ignore path i [] = ok []
resolve_ignore path i (p ∷ ps) = do
  p' ← checked_pattern path i p (validate_pattern p)
  ps' ← resolve_ignore path (suc i) ps
  ok (p' ∷ ps')

pub in_entry {ℓ} : {A : Type ℓ} → Text → Text → ℕ → Result A → Result A
in_entry path list i (ok a) = ok a
in_entry path list i (err e) = invalid path (entry list i ++ (text ": " ++ e))

pub resolve_waivers : Text → Day → ℕ → List Waiver → Result (List Waiver)
unfolding in_entry validate_waiver
resolve_waivers path today i [] = ok []
resolve_waivers path today i (w ∷ ws) = do
  w' ← in_entry path (text "waivers") i (validate_waiver w today)
  ws' ← resolve_waivers path today (suc i) ws
  ok (w' ∷ ws')

pub resolve_overrides : Text → ℕ → List Override → Result (List Override)
unfolding in_entry validate_override
resolve_overrides path i [] = ok []
resolve_overrides path i (o ∷ os) = do
  o' ← in_entry path (text "overrides") i (validate_override o)
  os' ← resolve_overrides path (suc i) os
  ok (o' ∷ os')

resolve_type : Text → ℕ → TerraformType → Result TerraformType
unfolding text_eq trim_space to_upper quote entry
resolve_type path i t =
    let class = to_upper (trim_space t.class) in
    if is_empty (trim_space t.type_name)
    then invalid path (entry (text "terraform_types") i ++ text " names no type")
    else (if not (text_eq class (text "STATEFUL")) && not (text_eq class (text "STATELESS"))
        then invalid path (
            entry (text "terraform_types") i
            ++ (text " ("
                ++ (t.type_name
                    ++ (text ") has class "
                        ++ (quote t.class ++ text "; want STATEFUL or STATELESS")))))
        else ok (record { type_name = trim_space t.type_name; class = class }))

pub resolve_types : Text → ℕ → List TerraformType → Result (List TerraformType)
unfolding resolve_type
resolve_types path i [] = ok []
resolve_types path i (t ∷ ts) = do
  t' ← resolve_type path i t
  ts' ← resolve_types path (suc i) ts
  ok (t' ∷ ts')

abbrev pub waiver_fields : List Waiver → List Text
waiver_fields [] = []
waiver_fields (w ∷ ws) = w.rule ∷ w.path ∷ w.reason ∷ w.expires ∷ w.approved_by ∷ waiver_fields ws

abbrev pub override_fields : List Override → List Text
override_fields [] = []
override_fields (o ∷ os) = o.rule ∷ verdict_text o.severity_set ∷ override_fields os

abbrev pub type_fields : List TerraformType → List Text
type_fields [] = []
type_fields (t ∷ ts) = t.type_name ∷ t.class ∷ type_fields ts

-- The fields that `digest` writes.
unfoldable pub policy_fields : Policy → List Text
unfolding grade_text
policy_fields p =
    text "v1"
    ∷ grade_text p.gate
    ∷ (p.ignore
        ++ (waiver_fields p.waivers
            ++ (override_fields p.overrides ++ type_fields p.terraform_types)))

module _ (hash : List ℕ → Text) where
  -- `digest`.
  unfoldable pub policy_digest : Policy → Text
  unfolding policy_fields write_fields
  policy_digest p = hash (write_fields (policy_fields p))

  -- `Parse` from the gate on.
  pub resolve_fields : File → Text → Day → Result Policy
  unfolding resolve_gate resolve_ignore resolve_waivers resolve_overrides resolve_types
      policy_digest
  resolve_fields f path today = do
    gate ← resolve_gate path f.gate
    ignore ← resolve_ignore path 0 f.ignore
    waivers ← resolve_waivers path today 0 f.waivers
    overrides ← resolve_overrides path 0 f.overrides
    types ← resolve_types path 0 f.terraform_types
    let p : Policy = record {
      source = path;
      gate = gate;
      ignore = ignore;
      waivers = waivers;
      overrides = overrides;
      terraform_types = types;
      digest = [];
    }
    ok (record p { digest = policy_digest p })

  -- `Parse` on a decoded file.
  unfoldable pub resolve : File → Text → Day → Result Policy
  unfolding resolve_fields
  resolve f path today =
      if not_one f.version
      then invalid path (
          text "version "
          ++ (integer f.version ++ text " is not supported; this build understands version 1"))
      else resolve_fields f path today
