-- ===== src/Policy/Load/Resolve/Loaded.antt =====
-- What a policy that loads is sure to be (internal/policy/load.go).
use mathlib.Core.List.{append_assoc}
use reversibility_engine.Prelude.Text.{Text, text}
use reversibility_engine.Prelude.Result.{Result, ok, err, >>=-eq-ok, ok_injective}
use reversibility_engine.Prelude.{
  ℕ, suc, ◌≡◌, ◌⊎◌, refl, sym, ap, true, List, [], ◌∷◌, ◌++◌, Option, none, some, arith, All,
}
use reversibility_engine.Domain.Verdict.{verdict_text, Reversibility}
use reversibility_engine.Domain.Grade
use reversibility_engine.Domain.Grade.{Grade, is_unset}
use reversibility_engine.Engine.Digest.{write_fields}
use reversibility_engine.Policy.Date.{Day}
use reversibility_engine.Policy.Apply.{Waiver, Override, Policy}
use reversibility_engine.Policy.Load.{File, validate_pattern, validate_waiver, validate_override}
use reversibility_engine.Policy.Load.Accepts.{
  IsBounded, IsHardening, validate_waiver-IsBounded, validate_override-IsHardening,
}
use reversibility_engine.Policy.Load.Resolve.{
  resolve_fields, policy_fields, waiver_fields, override_fields, type_fields, resolve, resolve_gate,
  resolve_ignore, resolve_waivers, resolve_overrides, policy_digest, resolve_types, in_entry,
  checked_pattern,
}

-- What loading makes sure of.
pub record IsLoaded (today : Day) (p : Policy) : Type 0 where
  pub gate : (is_unset p.gate ≡ true) ⊎ (Grade.is_valid p.gate ≡ true)
  pub ignore : All (λ s. validate_pattern s ≡ none) p.ignore
  pub waivers : All (IsBounded today) p.waivers
  pub overrides : All IsHardening p.overrides

in_entry-ok :
    {A : Type 0} (path list : Text) (i : ℕ) (r : Result A) {a : A}
    → in_entry path list i r ≡ ok a
    → r ≡ ok a
unfolding in_entry
in_entry-ok path list i (ok a) h = h
in_entry-ok path list i (err e) h = absurd (ground arith)

checked-valid :
    (path : Text) (i : ℕ) (p : Text) (e : Option Text) {q : Text}
    → checked_pattern path i p e ≡ ok q
    → (p ≡ q) × (e ≡ none)
unfolding checked_pattern
checked-valid path i p none h = (ok_injective h, refl)
checked-valid path i p (some e) h = absurd (ground arith)

ignore-valid :
    (path : Text) (i : ℕ) (ps : List Text) {qs : List Text}
    → resolve_ignore path i ps ≡ ok qs
    → All (λ q. validate_pattern q ≡ none) qs
unfolding resolve_ignore
ignore-valid path i [] h = rw (sym (ok_injective h)) tt
ignore-valid path i (p ∷ ps) h =
    let (q, hq, more) = >>=-eq-ok (checked_pattern path i p (validate_pattern p)) _ h in
    let (qs, hqs, last) = >>=-eq-ok (resolve_ignore path (suc i) ps) _ more in
    let (same, good) = checked-valid path i p (validate_pattern p) hq in
    let head : validate_pattern q ≡ none = rw same at good in
    rw (sym (ok_injective last)) (head, ignore-valid path (suc i) ps hqs)

waivers-IsBounded :
    (path : Text) (today : Day) (i : ℕ) (ws : List Waiver) {vs : List Waiver}
    → resolve_waivers path today i ws ≡ ok vs
    → All (IsBounded today) vs
unfolding resolve_waivers
waivers-IsBounded path today i [] h = rw (sym (ok_injective h)) tt
waivers-IsBounded path today i (w ∷ ws) h =
    let (v, hv, more) =
      >>=-eq-ok (in_entry path (text "waivers") i (validate_waiver w today)) _ h in
    let (vs, hvs, last) = >>=-eq-ok (resolve_waivers path today (suc i) ws) _ more in
    let head = validate_waiver-IsBounded w v today (in_entry-ok path _ i _ hv) in
    rw (sym (ok_injective last)) (head, waivers-IsBounded path today (suc i) ws hvs)

overrides-IsHardening :
    (path : Text) (i : ℕ) (os : List Override) {us : List Override}
    → resolve_overrides path i os ≡ ok us
    → All IsHardening us
unfolding resolve_overrides
overrides-IsHardening path i [] h = rw (sym (ok_injective h)) tt
overrides-IsHardening path i (o ∷ os) h =
    let (u, hu, more) = >>=-eq-ok (in_entry path (text "overrides") i (validate_override o)) _ h in
    let (us, hus, last) = >>=-eq-ok (resolve_overrides path (suc i) os) _ more in
    let head = validate_override-IsHardening o u (in_entry-ok path _ i _ hu) in
    rw (sym (ok_injective last)) (head, overrides-IsHardening path (suc i) os hus)

gate-valid :
    (path s : Text) {g : Grade}
    → resolve_gate path s ≡ ok g
    → (is_unset g ≡ true) ⊎ (Grade.is_valid g ≡ true)
unfolding resolve_gate
gate-valid path s h = ground arith

fields-IsLoaded :
    (hash : List ℕ → Text) (f : File) (path : Text) (today : Day) (p : Policy)
    → resolve_fields hash f path today ≡ ok p
    → IsLoaded today p
unfolding resolve_fields
fields-IsLoaded hash f path today p h =
    let (g, hg, h₁) = >>=-eq-ok (resolve_gate path f.gate) _ h in
    let (is, hi, h₂) = >>=-eq-ok (resolve_ignore path 0 f.ignore) _ h₁ in
    let (ws, hw, h₃) = >>=-eq-ok (resolve_waivers path today 0 f.waivers) _ h₂ in
    let (os, ho, h₄) = >>=-eq-ok (resolve_overrides path 0 f.overrides) _ h₃ in
    let (ts, ht, last) = >>=-eq-ok (resolve_types path 0 f.terraform_types) _ h₄ in
    let e = ok_injective last in
    record {
      gate = rw (sym (ap (λ q. q.gate) e)) (gate-valid path f.gate hg);
      ignore = rw (sym (ap (λ q. q.ignore) e)) (ignore-valid path 0 f.ignore hi);
      waivers = rw (sym (ap (λ q. q.waivers) e)) (waivers-IsBounded path today 0 f.waivers hw);
      overrides = rw (sym (ap (λ q. q.overrides) e)) (overrides-IsHardening path 0 f.overrides ho);
    }

-- A policy that loads is well formed: its gate is unset or a grade, every ignore pattern is valid,
-- every waiver names a rule and a reason, lapses on a day at most 180 days from today and has a
-- valid path pattern or none, and every override names a rule and a verdict other than REVERSIBLE.
pub resolve-IsLoaded :
    (hash : List ℕ → Text) (f : File) (path : Text) (today : Day) (p : Policy)
    → resolve hash f path today ≡ ok p
    → IsLoaded today p
unfolding resolve
resolve-IsLoaded hash f path today p h = fields-IsLoaded hash f path today p (ground arith)

same_fields :
    (p : Policy) (rule : Text) (verdict : Reversibility)
    → p.waivers ≡ []
    → policy_fields (record p { ignore = p.ignore ++ (rule ∷ verdict_text verdict ∷ []) })
      ≡ policy_fields
          (record p { overrides = record { rule = rule; severity_set = verdict } ∷ p.overrides })
unfolding policy_fields
same_fields p rule verdict none_waived =
    let rest = override_fields p.overrides ++ type_fields p.terraform_types in
    let e : (p.ignore ++ (rule ∷ verdict_text verdict ∷ [])) ++ (waiver_fields p.waivers ++ rest)
        ≡ p.ignore ++ (waiver_fields p.waivers ++ (rule ∷ verdict_text verdict ∷ rest)) =
      rw none_waived (append_assoc p.ignore (rule ∷ verdict_text verdict ∷ []) rest) in
    ap (λ fs. text "v1" ∷ Grade.grade_text p.gate ∷ fs) e

-- The digest of a policy does not tell where the ignore patterns end: for every hash, a policy
-- whose last ignore patterns are the name of a rule and of a verdict, without waivers, has the same
-- digest as the one that overrides that rule to that verdict instead.
pub policy_digest-ambiguous :
    (hash : List ℕ → Text) (p : Policy) (rule : Text) (verdict : Reversibility)
    → p.waivers ≡ []
    → policy_digest hash (record p { ignore = p.ignore ++ (rule ∷ verdict_text verdict ∷ []) })
      ≡ policy_digest hash
          (record p { overrides = record { rule = rule; severity_set = verdict } ∷ p.overrides })
unfolding policy_digest
policy_digest-ambiguous hash p rule verdict none_waived =
    ap (λ fs. hash (write_fields fs)) (same_fields p rule verdict none_waived)
