-- ===== src/Policy/Ignore.antt =====
-- The ignore list and the record of which of its patterns matched (internal/policy/policy.go).
use reversibility_engine.Prelude.Text.{Text, text_eq, text_eq_iff, text_eq_refl}
use reversibility_engine.Prelude.{
  ◌≡◌, refl, Bool, true, false, not, ◌||◌, ◌&&◌, ◌∙◌, ap, All, any_cong, keep_cong, Bool-cases, inl,
  inr, List, [], ◌∷◌, arith, any, keep, if◌then◌else◌,
}
use reversibility_engine.Domain.Located.{Located}
use reversibility_engine.Policy.Match.{glob_match}

-- `Policy.Ignores`, for the ignore list of a policy.
unfoldable pub ignores : List Text → Located → Bool
ignores [] at = false
ignores (pattern ∷ ps) at = glob_match pattern at || ignores ps at

-- `m.matched`: the patterns that have matched. The matcher holds it beside the policy.
abbrev pub Matched : Type 0
Matched = List Text

abbrev pub is_matched : Matched → Text → Bool
is_matched m pattern = any m (text_eq pattern)

-- `IgnoreMatcher.Ignores`: the answer, with every pattern that matches recorded.
unfoldable pub matcher_ignores : List Text → Matched → Located → Bool × Matched
matcher_ignores [] m at = (false, m)
matcher_ignores (pattern ∷ ps) m at =
    let hit = glob_match pattern at in
    let (more, m') = matcher_ignores ps (if hit then pattern ∷ m else m) at in (hit || more, m')

-- `IgnoreMatcher.Dead`.
unfoldable pub dead : List Text → Matched → List Text
dead ps m = keep (λ p. not (is_matched m p)) ps

-- The matcher asked about each path in turn.
unfoldable pub matcher_run : List Text → Matched → List Located → Matched
unfolding matcher_ignores
matcher_run ps m [] = m
matcher_run ps m (at ∷ ats) = matcher_run ps (matcher_ignores ps m at).1 ats

-- The matcher answers as the policy does, whatever it has recorded.
pub matcher_ignores-eq-ignores :
    (ps : List Text) (m : Matched) (at : Located) → (matcher_ignores ps m at).0 ≡ ignores ps at
unfolding matcher_ignores ignores
matcher_ignores-eq-ignores [] m at = refl
matcher_ignores-eq-ignores (p ∷ ps) m at =
    ground (arith, matcher_ignores-eq-ignores ps (if glob_match p at then p ∷ m else m) at)

-- One question adds exactly the patterns of the list that match the path.
matched_step :
    (ps : List Text) (m : Matched) (at : Located) (q : Text)
    → is_matched (matcher_ignores ps m at).1 q
      ≡ is_matched m q || any ps (λ p. text_eq q p && glob_match p at)
unfolding matcher_ignores
matched_step [] m at q = ground arith
matched_step (p ∷ ps) m at q =
    ground (arith, matched_step ps (if glob_match p at then p ∷ m else m) at q)

matched_run :
    (ps : List Text) (m : Matched) (ats : List Located) (q : Text)
    → is_matched (matcher_run ps m ats) q
      ≡ is_matched m q || any ats (λ at. any ps (λ p. text_eq q p && glob_match p at))
unfolding matcher_run
matched_run ps m [] q = ground arith
matched_run ps m (at ∷ ats) q =
    ground (arith, matched_run ps (matcher_ignores ps m at).1 ats q, matched_step ps m at q)

-- Searching a list for a text with a property is asking whether the text has it.
search_text :
    (ps : List Text) (q : Text) (g : Text → Bool)
    → any ps (λ p. text_eq q p && g p) ≡ any ps (text_eq q) && g q
search_text [] q g = refl
search_text (p ∷ ps) q g = elim (Bool-cases (text_eq q p)) [
  | inl e ↦
      let same : q ≡ p = (text_eq_iff q p).0 e in ground (arith, search_text ps q g, ap g same)
  | inr e ↦ ground (arith, search_text ps q g)
]

All-listed :
    (ps qs : List Text)
    → ((q : Text) → any ps (text_eq q) ≡ true → any qs (text_eq q) ≡ true)
    → All (λ q. any qs (text_eq q) ≡ true) ps
All-listed [] qs h = tt
All-listed (p ∷ ps) qs h =
    (h p (ground (arith, text_eq_refl p)), All-listed ps qs (λ q k. h q (ground arith)))

matched_listed :
    (ps : List Text) (ats : List Located) (q : Text)
    → any ps (text_eq q) ≡ true
    → is_matched (matcher_run ps [] ats) q ≡ any ats (glob_match q)
matched_listed ps ats q h =
    matched_run ps [] ats q
    ∙ any_cong ats (λ at. search_text ps q (λ p. glob_match p at) ∙ ground arith)

-- After any questions, the patterns reported dead are exactly those of the list that match none of
-- the paths asked about, in the order of the list.
pub dead_lem :
    (ps : List Text) (ats : List Located)
    → dead ps (matcher_run ps [] ats) ≡ keep (λ p. not (any ats (glob_match p))) ps
unfolding dead
dead_lem ps ats =
    keep_cong ps (All-listed ps ps (λ q h. h)) (λ q h. ap not (matched_listed ps ats q h))
