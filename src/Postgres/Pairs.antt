-- ===== src/Postgres/Pairs.antt =====
-- The pairs of migrations (`pairMigrations`, internal/analyzer/postgres/migration.go).
use reversibility_engine.Prelude.Assoc.{text_eq_congr, text_eq_left}
use reversibility_engine.Prelude.Sort.{sort_by-perm}
use reversibility_engine.Prelude.Reorder.{count_p-perm}
use reversibility_engine.Prelude.Text.{Text, text_eq}
use reversibility_engine.Prelude.{
  Bool, true, false, ◌&&◌, ◌≡◌, refl, ◌∙◌, arith, List, [], ◌∷◌, any, count_p, ◌==◌, none,
  if◌then◌else◌,
}
use reversibility_engine.Domain.Located.{ChangedFile}
use reversibility_engine.Postgres.Migration.{
  Pair, classify_path, key_folder, fill, enter, collect_pairs, pair_less, pair_migrations,
}

-- The pair has the key.
unfoldable pub has_key : Text → Text → Pair → Bool
unfolding text_eq
has_key folder id p = text_eq folder p.folder && text_eq id p.id

-- The file is a migration with the key.
unfoldable pub is_keyed : Text → Text → ChangedFile → Bool
unfolding text_eq key_folder classify_path
is_keyed folder id f =
    (classify_path f.path).is_migration
    && (text_eq folder (key_folder f.path) && text_eq id (classify_path f.path).id)

has_key-fill :
    (folder id : Text) (p : Pair) (down : Bool) (f : ChangedFile)
    → has_key folder id (fill p down f) ≡ has_key folder id p
unfolding has_key fill
has_key-fill folder id p true f = refl
has_key-fill folder id p false f = refl

count-enter :
    (folder id a b : Text) (down : Bool) (f : ChangedFile) (ps : List Pair)
    → count_p (has_key folder id) (enter a b down f ps) ≡ (
        if text_eq folder a && text_eq id b && count_p (has_key folder id) ps == 0
        then 1
        else count_p (has_key folder id) ps)
unfolding enter has_key
count-enter folder id a b down f [] =
    ground
      (arith, has_key-fill folder id (record { folder = a; id = b; up = none; down = none }) down f)
count-enter folder id a b down f (p ∷ ps) = ground (
  arith,
  has_key-fill folder id p down f,
  count-enter folder id a b down f ps,
  text_eq_congr folder a p.folder,
  text_eq_congr id b p.id,
  text_eq_left folder a p.folder,
  text_eq_left id b p.id,
)

count-collect_pairs :
    (folder id : Text) (fs : List ChangedFile) (ps : List Pair)
    → count_p (has_key folder id) (collect_pairs fs ps) ≡ (
        if any fs (is_keyed folder id) && count_p (has_key folder id) ps == 0
        then 1
        else count_p (has_key folder id) ps)
unfolding collect_pairs is_keyed
count-collect_pairs folder id [] ps = refl
count-collect_pairs folder id (f ∷ fs) ps =
    let r = classify_path f.path in
    ground (
      arith,
      count-collect_pairs folder id fs ps,
      count-collect_pairs folder id fs (enter (key_folder f.path) r.id r.is_down f ps),
      count-enter folder id (key_folder f.path) r.id r.is_down f ps,
    )

-- For every directory and identity, `pairMigrations` has exactly one pair with that key where some
-- migration of the changeset has it, and none where no migration has.
pub count-pair_migrations :
    (folder id : Text) (files : List ChangedFile)
    → count_p (has_key folder id) (pair_migrations files)
      ≡ (if any files (is_keyed folder id) then 1 else 0)
unfolding pair_migrations
count-pair_migrations folder id files =
    count_p-perm (has_key folder id) (sort_by-perm pair_less (collect_pairs files []))
    ∙ ground (arith, count-collect_pairs folder id files [])
