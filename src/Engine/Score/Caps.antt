-- ===== src/Engine/Score/Caps.antt =====
-- What each cap of `score` does to a grade, and what the caps do together.
use reversibility_engine.Prelude.{
  ℕ, ◌≤◌, ◌∙◌, ap, ◌≡◌, refl, ◌⊎◌, Bool, true, false, not, ◌||◌, List, [], ◌∷◌, arith, any, leb,
  Option, none, some, if◌then◌else◌,
}
use reversibility_engine.Domain.Verdict.{
  LockHazard, lock_none, lock_full_scan, lock_table_rewrite, at_least,
}
use reversibility_engine.Domain.Grade.{Grade, grade_a, grade_b, grade_c, cap_at}
use reversibility_engine.Domain.Finding.{
  Finding, FindingContext, LockDurationBand, band_disruptive, band_outage, DownMigrationStatus,
}
use reversibility_engine.Engine.Score.{
  Scoring, assign, apply_bands, apply_band, cap_down, cap_lock, cap_a_row,
}
use reversibility_engine.Engine.Score.Loop.{costly_count, not_reversible, locks}

abbrev pub is_outage_band : LockDurationBand → Bool
is_outage_band band_outage = true
is_outage_band _ = false

abbrev pub is_disruptive_band : LockDurationBand → Bool
is_disruptive_band band_disruptive = true
is_disruptive_band _ = false

abbrev pub band_test : (LockDurationBand → Bool) → Option FindingContext → Bool
band_test p none = false
band_test p (some c) = p c.lock_duration_band

-- Production context estimates an outage for the finding.
abbrev pub is_outage : Finding → Bool
is_outage f = band_test is_outage_band f.context

-- Production context estimates a disruption for the finding.
abbrev pub is_disruptive : Finding → Bool
is_disruptive f = band_test is_disruptive_band f.context

abbrev pub IsMeasured : Grade → Type 0
IsMeasured g = (g ≡ grade_a) ⊎ (g ≡ grade_b) ⊎ (g ≡ grade_c)

-- What the two bands that cap leave of a grade.
abbrev pub banded : Bool → Bool → Grade → Grade
banded outage disruptive g =
    if outage then grade_c else (if disruptive then cap_at g grade_b else g)

band_step :
    (f : Finding) (s : Scoring)
    → IsMeasured s.grade
    → (apply_band f f.context s).grade ≡ banded (is_outage f) (is_disruptive f) s.grade
unfolding apply_band cap_at
band_step f s h = ground arith

banded-IsMeasured : (o d : Bool) (g : Grade) → IsMeasured g → IsMeasured (banded o d g)
unfolding cap_at
banded-IsMeasured o d g h = ground arith

banded-banded :
    (o d o' d' : Bool) (g : Grade)
    → IsMeasured g
    → (o ≡ true → d ≡ false)
    → banded o' d' (banded o d g) ≡ banded (o || o') (d || d') g
unfolding cap_at
banded-banded o d o' d' g h e = ground arith

outage_excludes : (f : Finding) → is_outage f ≡ true → is_disruptive f ≡ false
outage_excludes f h = ground arith

pub bands_grade :
    (fs : List Finding) (s : Scoring)
    → IsMeasured s.grade
    → (apply_bands fs s).grade ≡ banded (any fs is_outage) (any fs is_disruptive) s.grade
unfolding apply_bands
bands_grade [] s h = refl
bands_grade (f ∷ fs) s h =
    let s' = apply_band f f.context s in
    let e = band_step f s h in
    let m = banded-IsMeasured (is_outage f) (is_disruptive f) s.grade h in
    bands_grade fs s' (rw e m)
    ∙ ap (banded (any fs is_outage) (any fs is_disruptive)) e
    ∙ banded-banded (is_outage f) (is_disruptive f) (any fs is_outage) (any fs is_disruptive)
        s.grade h (outage_excludes f)

abbrev pub assigned : ℕ → Grade
assigned n = if leb 3 n then grade_c else (if leb 1 n then grade_b else grade_a)

pub capped_if : Bool → Grade → Grade → Grade
unfolding cap_at
capped_if b limit g = if b then cap_at g limit else g

pub assign_grade : (n : ℕ) → (assign n).grade ≡ assigned n
unfolding assign
assign_grade n = ground arith

pub cap_down_grade :
    (ok : Bool) (ds : List DownMigrationStatus) (s : Scoring)
    → (cap_down ok ds s).grade ≡ capped_if (not ok) grade_c s.grade
unfolding cap_down capped_if
cap_down_grade ok ds s = ground arith

pub cap_lock_grade :
    (l : LockHazard) (s : Scoring)
    → (cap_lock l s).grade ≡ capped_if (at_least l lock_table_rewrite) grade_b s.grade
unfolding cap_lock capped_if
cap_lock_grade l s = ground arith

pub cap_a_row_grade :
    (r : Bool) (l : LockHazard) (ok : Bool) (s : Scoring)
    → (cap_a_row r l ok s).grade
      ≡ capped_if (not r || (at_least l lock_full_scan || not ok)) grade_b s.grade
unfolding cap_a_row capped_if
cap_a_row_grade r l ok s = ground arith

-- The caps on their own, over what they test.
pub caps_table :
    (n : ℕ) (ok rewrite scan outage disruptive any_rev : Bool)
    → (rewrite ≡ true → scan ≡ true)
    → (1 ≤ n → any_rev ≡ true)
    → capped_if (any_rev || (scan || not ok)) grade_b (
        banded outage disruptive
          (capped_if rewrite grade_b (capped_if (not ok) grade_c (assigned n))))
      ≡ (if leb 3 n || (not ok || outage)
          then grade_c
          else (if any_rev || (scan || disruptive) then grade_b else grade_a))
unfolding capped_if
caps_table n ok rewrite scan outage disruptive any_rev h k = ground arith

pub before_bands-IsMeasured :
    (n : ℕ) (ok rewrite : Bool)
    → IsMeasured (capped_if rewrite grade_b (capped_if (not ok) grade_c (assigned n)))
unfolding capped_if
before_bands-IsMeasured n ok rewrite = ground arith

pub rewrite_scans :
    (fs : List Finding)
    → any fs (locks lock_table_rewrite) ≡ true
    → any fs (locks lock_full_scan) ≡ true
unfolding at_least
rewrite_scans [] h = h
rewrite_scans (f ∷ fs) h = ground (arith, rewrite_scans fs)

pub costly_not_reversible : (fs : List Finding) → 1 ≤ costly_count fs → any fs not_reversible ≡ true
costly_not_reversible [] h = absurd (omega arith)
costly_not_reversible (f ∷ fs) h = ground (arith, costly_not_reversible fs)

pub none_below_rewrite : at_least lock_none lock_table_rewrite ≡ false
unfolding at_least
none_below_rewrite = refl

pub none_below_scan : at_least lock_none lock_full_scan ≡ false
unfolding at_least
none_below_scan = refl
