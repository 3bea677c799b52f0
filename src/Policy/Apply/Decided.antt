-- ===== src/Policy/Apply/Decided.antt =====
-- What a decision of a policy holds (internal/policy/policy.go).
use mathlib.Core.List.{Sublistᴰ, Perm, append_assoc}
use mathlib.Core.Path.{fun_ext}
use mathlib.Core.List.Perm
use reversibility_engine.Prelude.Text.{Text}
use reversibility_engine.Prelude.Sort.{sort_by, sort_by-perm, sort_by-All}
use reversibility_engine.Prelude.Result.{ok, >>=-eq-ok, ok_injective}
use reversibility_engine.Prelude.{
  ◌≡◌, refl, sym, ap, ◌∙◌, length-append, Bool, length, ◌&&◌, not, List, [], ◌∷◌, ◌++◌, arith, All,
  any, map, if◌then◌else◌,
}
use reversibility_engine.Domain.Finding.{Finding, WaivedFinding, finding_less}
use reversibility_engine.Domain.Located.{Locator}
use reversibility_engine.Policy.Date.{Day}
use reversibility_engine.Policy.Apply.{
  Waiver, Policy, Decision, apply_overrides, apply_waivers, decide_with, dead_from, describe,
  waiver_for, covers, is_waivable,
}
use reversibility_engine.Policy.Apply.Tighten.{AllTightened, apply_overrides-AllTightened}
use reversibility_engine.Policy.Apply.Waive.{
  IsJustified, counted-sublist, run, run-perm, run-IsJustified, fires, fired_any, hits-middle,
}

-- The waiver sets the finding aside: the verdict may be waived, the waiver is live and covers the
-- finding, and none of those listed before it is and does.
abbrev pub sets_aside : Day → Locator → List Waiver → Waiver → Finding → Bool
sets_aside today locate before w f =
    is_waivable f.reversibility
    && (covers w f today locate && not (any before (λ v. covers v f today locate)))

-- The waivers that set none of the findings aside, described, in their order, behind `before`.
abbrev pub unused_from : Day → Locator → List Finding → List Waiver → List Waiver → List Text
unused_from today locate fs before [] = []
unused_from today locate fs before (w ∷ ws) =
    let rest = unused_from today locate fs (before ++ (w ∷ [])) ws in
    if any fs (sets_aside today locate before w) then rest else describe w ∷ rest

module _ (p : Policy) (today : Day) (locate : Locator) where
  fires-eq :
      (before : List Waiver) (w : Waiver) (ws : List Waiver) (f : Finding)
      → p.waivers ≡ before ++ (w ∷ ws)
      → fires p today locate (length before) f ≡ sets_aside today locate before w f
  unfolding waiver_for
  fires-eq before w ws f e =
      ground (arith, rw (sym e) at (hits-middle today locate before w ws 0 f))

  dead_from-eq :
      (fs : List Finding) (before ws : List Waiver)
      → p.waivers ≡ before ++ ws
      → dead_from (run p today locate fs).fired (length before) ws
        ≡ unused_from today locate fs before ws
  unfolding dead_from
  dead_from-eq fs before [] e = refl
  dead_from-eq fs before (w ∷ ws) e =
      let tested = fired_any p today locate fs (length before) in
      let same = ap (any fs) (fun_ext (λ (f : Finding). fires-eq before w ws f e)) in
      let rest =
        dead_from-eq fs (before ++ (w ∷ [])) ws (e ∙ sym (append_assoc before (w ∷ []) ws)) in
      ground (arith, tested, same, rest, length-append before (w ∷ []))

-- What a decision is worth: nothing is dropped, only moved from the counted findings to the waived
-- ones; every waived finding has a live waiver that covers it; the findings are those that the
-- analyzers gave, no milder; and the waivers reported dead are those that set nothing aside.
pub record IsDecided (p : Policy) (today : Day) (locate : Locator) (fs : List Finding)
    (d : Decision) : Type 0 where
  pub tightened : AllTightened p.overrides fs d.all_findings
  pub kept : Perm (d.findings ++ map (λ w. w.finding) d.waived) d.all_findings
  pub ordered : Sublistᴰ d.findings d.all_findings
  pub justified : All (IsJustified p today locate) d.waived
  pub unused : d.dead_waivers ≡ unused_from today locate d.all_findings [] p.waivers

abbrev waived_less : WaivedFinding → WaivedFinding → Bool
waived_less a b = finding_less a.finding b.finding

decision-IsDecided :
    (p : Policy) (today : Day) (locate : Locator) (fs gs : List Finding)
    → AllTightened p.overrides fs gs
    → let s = apply_waivers p today locate gs in
      IsDecided p today locate fs (record {
        all_findings = gs;
        findings = s.counted;
        waived = sort_by waived_less s.waived;
        dead_waivers = dead_from s.fired 0 p.waivers;
      })
decision-IsDecided p today locate fs gs t =
    let s = apply_waivers p today locate gs in
    record {
      tightened = t;
      kept =
          Perm.trans
            (Perm.append_left s.counted
              (Perm.map (λ w. w.finding) (sort_by-perm waived_less s.waived)))
            (run-perm p today locate gs);
      ordered = counted-sublist p today locate gs;
      justified = sort_by-All waived_less _ s.waived (run-IsJustified p today locate gs);
      unused = dead_from-eq p today locate gs [] p.waivers refl;
    }

-- Where `Apply` accepts the overrides, nothing is dropped: the findings that count, in their order,
-- and the waived ones are together those of the analyzers, no milder; each waived finding has a live
-- waiver of the policy that covers it; and the waivers reported dead, in their order, are those that
-- are never the first live one to cover a finding that may be waived.
pub decide_with-IsDecided :
    (p : Policy) (today : Day) (locate : Locator) (fs : List Finding) (d : Decision)
    → decide_with p fs today locate ≡ ok d
    → IsDecided p today locate fs d
unfolding decide_with
decide_with-IsDecided p today locate fs d h =
    let (gs, hg, last) = >>=-eq-ok (apply_overrides p fs) _ h in
    let e = decision-IsDecided p today locate fs gs (apply_overrides-AllTightened p fs hg) in
    rw (ok_injective last) at e
