-- ===== src/Engine/Outcome/Unread.antt =====
-- Which files a run reports as unread (internal/engine/candidate.go).
use mathlib.Core.List.{Memᴰ}
use reversibility_engine.Prelude.Text.{Text, text_eq, text_eq_refl}
use reversibility_engine.Prelude.Sort.{sort_strings, is_empty-sort_strings}
use reversibility_engine.Prelude.{
  ◌≡◌, refl, Bool, true, false, not, ◌&&◌, ◌||◌, List, [], ◌∷◌, arith, any, keep, is_empty, ◌∙◌, ap,
  map, if◌then◌else◌, Bool-cases, inl, inr,
}
use reversibility_engine.Domain.Grade.{analyzed, no_candidates, unsupported_content}
use reversibility_engine.Domain.Located.{Locator, parent, ChangedFile}
use reversibility_engine.Engine.Candidate.{contains, in_migration_dir}
use reversibility_engine.Engine.Interfaces.{Analyzer}
use reversibility_engine.Engine.Outcome.{
  supports, migration_directories, claims, is_read, is_unread, outcome,
}

is_empty-keep : {A : Type 0} (p : A → Bool) (xs : List A) → is_empty (keep p xs) ≡ not (any xs p)
is_empty-keep p [] = refl
is_empty-keep p (x ∷ xs) = ground (arith, is_empty-keep p xs)

any-map-keep :
    {A B : Type 0} (p : A → Bool) (f : A → B) (q : B → Bool) (xs : List A) (x : A)
    → Memᴰ x xs
    → p x ≡ true
    → q (f x) ≡ true
    → any (map f (keep p xs)) q ≡ true
any-map-keep p f q [] x m hp hq = elim m [ ]
any-map-keep p f q (y ∷ ys) x (Memᴰ.head e) hp hq = ground (arith, ap p e, ap (λ z. q (f z)) e)
any-map-keep p f q (y ∷ ys) x (Memᴰ.tail m) hp hq =
    let ih = any-map-keep p f q ys x m hp hq in
    elim (Bool-cases (p y)) [ inl e ↦ ground arith | inr e ↦ ground arith ]

or_true : (b : Bool) → (b || true) ≡ true
or_true true = refl
or_true false = refl

module _ (analyzers : List Analyzer) (files : List ChangedFile) (enumerated : List Text)
    (locate : Locator) where
  unread_keep :
      is_empty (sort_strings (keep (is_unread analyzers files enumerated locate) enumerated))
      ≡ not (any enumerated (is_unread analyzers files enumerated locate))
  unread_keep =
      is_empty-sort_strings (keep (is_unread analyzers files enumerated locate) enumerated)
      ∙ is_empty-keep (is_unread analyzers files enumerated locate) enumerated

  -- The outcome is ANALYZED exactly when an analyzer claims a file; otherwise it tells whether any
  -- enumerated path went unread.
  pub outcome_lem : (outcome analyzers files enumerated locate).0 ≡ (
      if claims analyzers files
      then analyzed
      else (if any enumerated (is_unread analyzers files enumerated locate)
          then unsupported_content
          else no_candidates))
  unfolding outcome
  outcome_lem = ground (arith, unread_keep)

  -- The report lists an unread file exactly when an enumerated path is unread.
  pub unread_empty :
      is_empty (outcome analyzers files enumerated locate).1
      ≡ not (any enumerated (is_unread analyzers files enumerated locate))
  unfolding outcome
  unread_empty = ground (arith, unread_keep)

  is_listed : Text → Bool
  is_listed p = supports analyzers (locate p) || in_migration_dir (locate p)

  is_listed-in_dir : (p : Text) → in_migration_dir (locate p) ≡ true → is_listed p ≡ true
  unfolding is_listed
  is_listed-in_dir p h = rw h (or_true (supports analyzers (locate p)))

  listed_dir :
      (p : Text)
      → Memᴰ p enumerated
      → in_migration_dir (locate p) ≡ true
      → contains (migration_directories analyzers enumerated locate) (parent (locate p)).path ≡ true
  unfolding contains migration_directories is_listed
  listed_dir p m h =
      any-map-keep is_listed (λ q. (parent (locate q)).path) (text_eq (parent (locate p)).path)
        enumerated p m (is_listed-in_dir p h) (text_eq_refl (parent (locate p)).path)

  -- A path in a migration directory is unread unless it was read and an analyzer claims it.
  pub is_unread-in_migration_dir :
      (p : Text)
      → Memᴰ p enumerated
      → in_migration_dir (locate p) ≡ true
      → is_unread analyzers files enumerated locate p
        ≡ not (is_read files p && supports analyzers (locate p))
  unfolding is_unread
  is_unread-in_migration_dir p m h = ground (arith, listed_dir p m h)
