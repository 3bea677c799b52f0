-- ===== src/Policy/Apply/Tighten.antt =====
-- Overrides only make a finding stricter (internal/policy/policy.go).
use reversibility_engine.Prelude.Text.{text_eq}
use reversibility_engine.Prelude.Result.{ok, >>=-eq-ok}
use reversibility_engine.Prelude.{
  ◌≤◌, ◌≡◌, refl, true, List, [], ◌∷◌, arith, All, Bool-cases, inl, inr, ltb, is_empty,
  if◌then◌else◌,
}
use reversibility_engine.Domain.Verdict.{severity}
use reversibility_engine.Domain.Finding.{Finding}
use reversibility_engine.Policy.Apply.{Override, Policy, tighten, tighten_all, apply_overrides}

-- `g` is `f` with a verdict that is no milder than `f`'s own and than that of each override on its
-- rule.
pub record Tightened (os : List Override) (f g : Finding) : Type 0 where
  pub rest : g ≡ record f { reversibility = g.reversibility }
  pub stricter : severity f.reversibility ≤ severity g.reversibility
  pub obeyed :
      All
        (λ (o : Override).
          text_eq o.rule f.rule_id ≡ true → severity o.severity_set ≤ severity g.reversibility)
        os

-- The findings that overrides make of others, in their order.
pub data AllTightened (os : List Override) : List Finding → List Finding → Type 0 where
  none_left : AllTightened os [] []
  tightened :
      {f g : Finding} {fs gs : List Finding}
      → Tightened os f g
      → AllTightened os fs gs
      → AllTightened os (f ∷ fs) (g ∷ gs)

tighten-Tightened :
    (os : List Override) (f : Finding) {g : Finding} → tighten os f ≡ ok g → Tightened os f g
unfolding tighten
tighten-Tightened [] f h = record { rest = ground arith; stricter = ground arith; obeyed = tt }
tighten-Tightened (o ∷ os) f {g} h = elim (Bool-cases (text_eq o.rule f.rule_id)) [
  | inr e ↦
      let t = tighten-Tightened os f {g = g} (ground arith) in
      record { rest = t.rest; stricter = t.stricter; obeyed = (λ k. ground arith, t.obeyed) }
  | inl e ↦ elim (Bool-cases (ltb (severity o.severity_set) (severity f.reversibility))) [
    | inl w ↦ absurd (ground arith)
    | inr w ↦
        let t =
          tighten-Tightened os (record f { reversibility = o.severity_set }) {g = g}
            (ground arith) in
        record { rest = t.rest; stricter = ground arith; obeyed = (λ k. t.stricter, t.obeyed) }
  ]
]

tighten_all-AllTightened :
    (os : List Override) (fs : List Finding) {gs : List Finding}
    → tighten_all os fs ≡ ok gs
    → AllTightened os fs gs
unfolding tighten_all
tighten_all-AllTightened os [] {gs} h = let e : gs ≡ [] = cc in rw e none_left
tighten_all-AllTightened os (f ∷ fs) {gs} h =
    let (g, hg, more) = >>=-eq-ok (tighten os f) _ h in
    let (gs', hgs, last) = >>=-eq-ok (tighten_all os fs) _ more in
    let e : gs ≡ g ∷ gs' = cc in
    rw e (tightened (tighten-Tightened os f hg) (tighten_all-AllTightened os fs hgs))

unchanged : (fs : List Finding) → AllTightened [] fs fs
unchanged [] = none_left
unchanged (f ∷ fs) =
    tightened (record { rest = refl; stricter = omega arith; obeyed = tt }) (unchanged fs)

-- Where the overrides are accepted, each finding keeps its place and everything but its verdict,
-- and its verdict is no milder than before and than that of every override on its rule.
pub apply_overrides-AllTightened :
    (p : Policy) (fs : List Finding) {gs : List Finding}
    → apply_overrides p fs ≡ ok gs
    → AllTightened p.overrides fs gs
unfolding apply_overrides
apply_overrides-AllTightened p fs {gs} h = split p.overrides h
  where
    split :
        (os : List Override)
        → (if is_empty os then ok fs else tighten_all os fs) ≡ ok gs
        → AllTightened os fs gs
    split [] e = let e' : gs ≡ fs = cc in rw e' (unchanged fs)
    split (o ∷ os) e = tighten_all-AllTightened (o ∷ os) fs e
