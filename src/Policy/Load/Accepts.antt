-- ===== src/Policy/Load/Accepts.antt =====
-- What a waiver and an override that load are sure to be (internal/policy/load.go).
use reversibility_engine.Prelude.Text.{Text}
use reversibility_engine.Prelude.Result.{ok, ok_injective}
use reversibility_engine.Prelude.{
  ◌≡◌, ◌⊎◌, refl, inl, inr, true, false, Option, none, some, Bool-cases, arith, is_empty,
}
use reversibility_engine.Domain.Verdict
use reversibility_engine.Domain.Verdict.{is_reversible, verdict_text, Reversibility}
use reversibility_engine.Policy.Date.{Day, parse_day, is_after, add_days}
use reversibility_engine.Policy.Apply.{Waiver, Override}
use reversibility_engine.Policy.Load.{
  max_waiver_window, validate_pattern, validate_waiver, validate_override, check_waiver,
  validate_path, validate_expires, after_expires, check_override, trimmed, normalized,
}

-- A waiver that names a rule and a reason, and lapses on a day at most 180 days away.
pub record IsBounded (today : Day) (w : Waiver) : Type 0 where
  pub named : is_empty w.rule ≡ false
  pub reasoned : is_empty w.reason ≡ false
  pub lapses :
      (d : Day) × (parse_day w.expires ≡ some d)
      × (is_after d (add_days max_waiver_window today) ≡ false)
  pub matched : (is_empty w.path ≡ true) ⊎ (validate_pattern w.path ≡ none)

-- An override that names a rule and a verdict that is not REVERSIBLE.
pub record IsHardening (o : Override) : Type 0 where
  pub named : is_empty o.rule ≡ false
  pub recognised : Verdict.is_valid o.severity_set ≡ true
  pub stricter : is_reversible o.severity_set ≡ false

expires-bounded :
    (w : Waiver) (today : Day) (d : Option Day)
    → validate_expires w today d ≡ none
    → (e : Day) × (d ≡ some e) × (is_after e (add_days max_waiver_window today) ≡ false)
unfolding validate_expires
expires-bounded w today none h = absurd (ground arith)
expires-bounded w today (some e) h = (e, refl, ground arith)

path-matched : (w v : Waiver) (e : Option Text) → validate_path w e ≡ ok v → (w ≡ v) × (e ≡ none)
unfolding validate_path
path-matched w v none h = (ok_injective h, refl)
path-matched w v (some e) h = absurd (ground arith)

after-matched :
    (w v : Waiver) (e : Option Text)
    → after_expires w e ≡ ok v
    → (w ≡ v) × (e ≡ none) × ((is_empty w.path ≡ true) ⊎ (validate_pattern w.path ≡ none))
unfolding after_expires
after-matched w v (some e) h = absurd (ground arith)
after-matched w v none h = elim (Bool-cases (is_empty w.path)) [
  | inl k ↦ (ok_injective (ground arith), refl, inl k)
  | inr k ↦
      let (same, good) = path-matched w v (validate_pattern w.path) (ground arith) in
      (same, refl, inr good)
]

waiver-IsBounded : (w v : Waiver) (today : Day) → check_waiver w today ≡ ok v → IsBounded today v
unfolding check_waiver
waiver-IsBounded w v today h =
    let (same, good, path) =
      after-matched w v (validate_expires w today (parse_day w.expires)) (ground arith) in
    let bounded : IsBounded today w = record {
      named = ground arith;
      reasoned = ground arith;
      lapses = expires-bounded w today (parse_day w.expires) good;
      matched = path;
    } in
    rw same at bounded

override-IsHardening : (o u : Override) → check_override o ≡ ok u → IsHardening u
unfolding check_override
override-IsHardening o u h =
    let same : o ≡ u = ok_injective (ground arith) in
    let hardening : IsHardening o = record {
      named = ground arith;
      recognised = ground arith;
      stricter = ground arith;
    } in
    rw same at hardening

pub validate_waiver-IsBounded :
    (w v : Waiver) (today : Day) → validate_waiver w today ≡ ok v → IsBounded today v
unfolding validate_waiver
validate_waiver-IsBounded w v today h = waiver-IsBounded (trimmed w) v today h

pub validate_override-IsHardening : (o u : Override) → validate_override o ≡ ok u → IsHardening u
unfolding validate_override
validate_override-IsHardening o u h = override-IsHardening (normalized o) u h
