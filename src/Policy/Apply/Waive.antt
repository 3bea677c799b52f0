-- ===== src/Policy/Apply/Waive.antt =====
-- Waivers set findings aside and delete none (internal/policy/policy.go).
use mathlib.Core.List.{Sublistᴰ, Perm, Memᴰ, perm_middle}
use mathlib.Core.List.Perm
use reversibility_engine.Prelude.{
  ℕ, suc, ◌≡◌, refl, Bool, true, false, List, [], ◌∷◌, ◌++◌, none, some, arith, All, any, map,
  Bool-cases, Option-cases, inl, inr, ◌==◌, ◌<◌, ◌+◌, length, not, ◌&&◌, Option,
}
use reversibility_engine.Domain.Finding.{Finding, WaivedFinding}
use reversibility_engine.Domain.Located.{Locator}
use reversibility_engine.Policy.Date.{Day}
use reversibility_engine.Policy.Apply.{
  Waiver, Policy, Sorted, covers, is_waivable, first_cover, waiver_for, waived_by, apply_waivers,
}

-- Why a finding is waived: its verdict may be, and a live waiver of the policy covers it, whose
-- reason, expiry and approval it carries.
pub record IsJustified (p : Policy) (today : Day) (locate : Locator) (w : WaivedFinding)
    : Type 0 where
  pub waivable : is_waivable w.finding.reversibility ≡ true
  pub by : Waiver
  pub listed : Memᴰ by p.waivers
  pub covered : covers by w.finding today locate ≡ true
  pub carried : w ≡ waived_by w.finding by

-- The waiver found is the one of index `k`.
abbrev pub is_at : ℕ → Option (Waiver × ℕ) → Bool
is_at k none = false
is_at k (some (v, j)) = j == k

module _ (today : Day) (locate : Locator) where
  -- A search from index `i` finds no waiver before it.
  first_cover-behind :
      (ws : List Waiver) (i k : ℕ) (f : Finding)
      → k < i
      → is_at k (first_cover ws i f today locate) ≡ false
  unfolding first_cover
  first_cover-behind [] i k f h = refl
  first_cover-behind (w ∷ ws) i k f h =
      ground (arith, first_cover-behind ws (suc i) k f (omega arith))

  pub hits-middle :
      (before : List Waiver) (w : Waiver) (ws : List Waiver) (i : ℕ) (f : Finding)
      → is_at (i + length before) (first_cover (before ++ (w ∷ ws)) i f today locate)
        ≡ covers w f today locate && not (any before (λ v. covers v f today locate))
  unfolding first_cover
  hits-middle [] w ws i f = ground (arith, first_cover-behind ws (suc i) i f (omega arith))
  hits-middle (b ∷ before) w ws i f = ground (arith, hits-middle before w ws (suc i) f)

module _ (p : Policy) (today : Day) (locate : Locator) where
  abbrev pub run : List Finding → Sorted
  run = apply_waivers p today locate

  pub counted-sublist : (fs : List Finding) → Sublistᴰ (run fs).counted fs
  unfolding apply_waivers
  counted-sublist [] = Sublistᴰ.slnil
  counted-sublist (f ∷ fs) = elim (Option-cases (waiver_for p f today locate)) [
    | inl e ↦ rw (e, apply_waivers) (Sublistᴰ.cons-cons refl (counted-sublist fs))
    | inr (w, e) ↦ rw (e, apply_waivers) (Sublistᴰ.cons (counted-sublist fs))
  ]

  pub run-perm :
      (fs : List Finding) → Perm ((run fs).counted ++ map (λ w. w.finding) (run fs).waived) fs
  unfolding apply_waivers
  run-perm [] = Perm.refl []
  run-perm (f ∷ fs) = elim (Option-cases (waiver_for p f today locate)) [
    | inl e ↦ rw (e, apply_waivers) (Perm.cons f (run-perm fs))
    | inr (w, e) ↦
        rw (e, apply_waivers)
          (Perm.trans (perm_middle (run fs).counted (map (λ w. w.finding) (run fs).waived))
            (Perm.cons f (run-perm fs)))
  ]

  first_cover-listed :
      (ws : List Waiver) (i : ℕ) (f : Finding) (v : Waiver) (j : ℕ)
      → first_cover ws i f today locate ≡ some (v, j)
      → Memᴰ v ws × (covers v f today locate ≡ true)
  unfolding first_cover
  first_cover-listed [] i f v j h = absurd (ground arith)
  first_cover-listed (w ∷ ws) i f v j h = elim (Bool-cases (covers w f today locate)) [
    | inl e ↦ let same : v ≡ w = ground arith in (Memᴰ.head same, rw same e)
    | inr e ↦ let (m, c) = first_cover-listed ws (suc i) f v j (ground arith) in (Memᴰ.tail m, c)
  ]

  waiver_for-IsJustified :
      (f : Finding) (v : Waiver) (j : ℕ)
      → waiver_for p f today locate ≡ some (v, j)
      → IsJustified p today locate (waived_by f v)
  unfolding waiver_for
  waiver_for-IsJustified f v j h = elim (Bool-cases (is_waivable f.reversibility)) [
    | inl e ↦
        let (m, c) = first_cover-listed p.waivers 0 f v j (ground arith) in
        record { waivable = e; by = v; listed = m; covered = c; carried = refl }
    | inr e ↦ absurd (ground arith)
  ]

  pub run-IsJustified : (fs : List Finding) → All (IsJustified p today locate) (run fs).waived
  unfolding apply_waivers
  run-IsJustified [] = tt
  run-IsJustified (f ∷ fs) = elim (Option-cases (waiver_for p f today locate)) [
    | inl e ↦ rw (e, apply_waivers) (run-IsJustified fs)
    | inr ((v, j), e) ↦ rw (e, apply_waivers) (waiver_for-IsJustified f v j e, run-IsJustified fs)
  ]

  -- The waiver of index `i` is the one that sets the finding aside.
  abbrev pub fires : ℕ → Finding → Bool
  fires i f = is_at i (waiver_for p f today locate)

  pub fired_any : (fs : List Finding) (i : ℕ) → any (run fs).fired (λ j. j == i) ≡ any fs (fires i)
  unfolding apply_waivers
  fired_any [] i = refl
  fired_any (f ∷ fs) i = ground (arith, fired_any fs i)
