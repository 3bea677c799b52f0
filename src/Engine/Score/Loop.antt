-- ===== src/Engine/Score/Loop.antt =====
-- The loop of `score` over the findings against counts and searches of the whole list.
use mathlib.Core.List.{foldl}
use reversibility_engine.Prelude.{
  ℕ, ◌+◌, ◌≡◌, Bool, not, ◌&&◌, ◌||◌, List, [], ◌∷◌, arith, any, count_p,
}
use reversibility_engine.Domain.Verdict.{is_costly, is_reversible, LockHazard, lock_none, at_least}
use reversibility_engine.Domain.Finding.{Finding}
use reversibility_engine.Engine.Score.{Tally, tally_step, tally}

-- The findings that are COSTLY.
abbrev pub costly_count : List Finding → ℕ
costly_count = count_p (λ f. is_costly f.reversibility)

-- The finding is anything but REVERSIBLE.
abbrev pub not_reversible : Finding → Bool
not_reversible f = not (is_reversible f.reversibility)

-- The lock of the finding is `l` or worse.
abbrev pub locks : LockHazard → Finding → Bool
locks l f = at_least f.lock_hazard l

worst_step :
    (t : Tally) (f : Finding) (l : LockHazard)
    → at_least (tally_step t f).worst_lock l ≡ locks l f || at_least t.worst_lock l
unfolding tally_step at_least
worst_step t f l = ground arith

costly_from :
    (t : Tally) (fs : List Finding) → (foldl tally_step t fs).costly ≡ t.costly + costly_count fs
unfolding tally_step
costly_from t [] = omega arith
costly_from t (f ∷ fs) = ground (arith, costly_from (tally_step t f) fs)

reversible_from :
    (t : Tally) (fs : List Finding)
    → (foldl tally_step t fs).all_reversible ≡ t.all_reversible && not (any fs not_reversible)
unfolding tally_step
reversible_from t [] = ground arith
reversible_from t (f ∷ fs) = ground (arith, reversible_from (tally_step t f) fs)

worst_from :
    (t : Tally) (fs : List Finding) (l : LockHazard)
    → at_least (foldl tally_step t fs).worst_lock l ≡ at_least t.worst_lock l || any fs (locks l)
worst_from t [] l = ground arith
worst_from t (f ∷ fs) l = ground (arith, worst_from (tally_step t f) fs l, worst_step t f l)

pub tally-costly : (fs : List Finding) → (tally fs).costly ≡ costly_count fs
unfolding tally
tally-costly fs = omega (arith, costly_from _ fs)

pub tally-all_reversible :
    (fs : List Finding) → (tally fs).all_reversible ≡ not (any fs not_reversible)
unfolding tally
tally-all_reversible fs = reversible_from _ fs

pub tally-worst_lock :
    (fs : List Finding) (l : LockHazard)
    → at_least (tally fs).worst_lock l ≡ at_least lock_none l || any fs (locks l)
unfolding tally
tally-worst_lock fs l = worst_from _ fs l
