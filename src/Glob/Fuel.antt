-- ===== src/Glob/Fuel.antt =====
-- The fuel with which a glob is read (`path.Match`, Glob.antt).
use reversibility_engine.Prelude.Text.{Text}
use reversibility_engine.Prelude.{
  ℕ, zero, suc, ◌≡◌, ◌≤◌, ◌<◌, refl, List, [], ◌∷◌, some, length, arith, Option-cases, inl, inr,
}
use reversibility_engine.Glob.{Range, get_esc, range_end, ranges, items, negated}

get_esc-shorter :
    (s : Text) (c : ℕ) (rest : Text) → get_esc s ≡ some (c, rest) → length rest < length s
unfolding get_esc
get_esc-shorter [] c rest h = absurd (ground arith)
get_esc-shorter (x ∷ []) c rest h = ground arith
get_esc-shorter (x ∷ y ∷ []) c rest h = ground arith
get_esc-shorter (x ∷ y ∷ z ∷ s) c rest h = ground arith

range_end-shorter :
    (lo : ℕ) (s : Text) (r : Range) (rest : Text)
    → range_end lo s ≡ some (r, rest)
    → length rest ≤ length s
unfolding range_end
range_end-shorter lo [] r rest h = absurd (ground arith)
range_end-shorter lo (c ∷ cs) r rest h = elim (Option-cases (get_esc cs)) [
  | inl e ↦ ground arith
  | inr ((x, t), e) ↦ ground (arith, get_esc-shorter cs x t e)
]

ranges-fuel :
    (f g : ℕ) (seen : List Range) (s : Text)
    → length s < f
    → length s < g
    → ranges f seen s ≡ ranges g seen s
unfolding ranges
ranges-fuel zero g seen s h k = absurd (ground arith)
ranges-fuel (suc f) zero seen s h k = absurd (ground arith)
ranges-fuel (suc f) (suc g) seen [] h k = refl
ranges-fuel (suc f) (suc g) seen (c ∷ cs) h k = elim (Option-cases (get_esc (c ∷ cs))) [
  | inl e ↦ rw e refl
  | inr ((lo, t), e) ↦ elim (Option-cases (range_end lo t)) [
    | inl e' ↦ rw (e, e') refl
    | inr ((r, t'), e') ↦
        let a = get_esc-shorter (c ∷ cs) lo t e in
        let b = range_end-shorter lo t r t' e' in
        let ih = ranges-fuel f g (r ∷ seen) t' (omega arith) (omega arith) in rw (e, e', ih) refl
  ]
]

ranges-shorter :
    (f : ℕ) (seen : List Range) (s : Text) (rs : List Range) (rest : Text)
    → ranges f seen s ≡ some (rs, rest)
    → length rest < length s
unfolding ranges
ranges-shorter zero seen s rs rest h = absurd (ground arith)
ranges-shorter (suc f) seen [] rs rest h = absurd (ground arith)
ranges-shorter (suc f) seen (c ∷ cs) rs rest h = elim (Option-cases (get_esc (c ∷ cs))) [
  | inl e ↦ ground arith
  | inr ((lo, t), e) ↦ elim (Option-cases (range_end lo t)) [
    | inl e' ↦ ground arith
    | inr ((r, t'), e') ↦
        let a = get_esc-shorter (c ∷ cs) lo t e in
        let b = range_end-shorter lo t r t' e' in
        let ih = ranges-shorter f (r ∷ seen) t' rs rest in ground arith
  ]
]

negated-shorter : (s : Text) → length (negated s).1 ≤ length s
negated-shorter [] = omega arith
negated-shorter (c ∷ cs) = ground arith

-- The length of a pattern is enough fuel: any more reads the same items.
pub items_fuel : (f g : ℕ) (p : Text) → length p ≤ f → length p ≤ g → items f p ≡ items g p
unfolding items
items_fuel f g [] h k = refl
items_fuel zero g (c ∷ cs) h k = absurd (ground arith)
items_fuel (suc f) zero (c ∷ cs) h k = absurd (ground arith)
items_fuel (suc f) (suc g) (c ∷ []) h k =
    let here = items_fuel f g [] (omega arith) (omega arith) in ground arith
items_fuel (suc f) (suc g) (c ∷ d ∷ ds) h k =
    let here = items_fuel f g (d ∷ ds) (omega arith) (omega arith) in
    let past = items_fuel f g ds (omega arith) (omega arith) in
    elim (Option-cases (ranges (suc (length (d ∷ ds))) [] (negated (d ∷ ds)).1)) [
      | inl e ↦ ground arith
      | inr ((rs, rest), e) ↦
          let a = ranges-shorter (suc (length (d ∷ ds))) [] (negated (d ∷ ds)).1 rs rest e in
          let b : length (negated (d ∷ ds)).1 ≤ length (d ∷ ds) = negated-shorter (d ∷ ds) in
          let after = items_fuel f g rest (omega arith) (omega arith) in ground arith
    ]
