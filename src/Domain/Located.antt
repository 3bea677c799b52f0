-- ===== src/Domain/Located.antt =====
-- The namespace of path-keyed decisions (internal/domain/located.go), and the files of a changeset
-- (internal/domain/change.go).
use reversibility_engine.Prelude.Text.{Text, text_eq, to_lower}
use reversibility_engine.Prelude.{ℕ, ◌||◌, List, [], ◌∷◌, is_empty, if◌then◌else◌}
use reversibility_engine.Paths.{split_slash, clean, dir, ext, join_path, forward_slashes}

-- A path as the rules read it. It is another type than a path as the caller named it.
pub record Located : Type 0 where
  pub path : Text

-- `Located.Dir`.
unfoldable pub parent : Located → Located
unfolding dir
parent l = record { path = dir l.path }

-- `Located.Ext`.
unfoldable pub extension : Located → Text
unfolding ext to_lower
extension l = to_lower (ext l.path)

-- `Located.Segments`.
unfoldable pub segments : Located → List Text
unfolding split_slash to_lower
segments l = split_slash (to_lower l.path)

abbrev pub Locator : Type 0
Locator = Text → Located

-- `normalizeSlashes`.
unfoldable pub normalize_slashes : Text → Text
unfolding clean forward_slashes
normalize_slashes p =
    let slashed = forward_slashes p in if is_empty slashed then [] else clean slashed

-- `NewLocator`: an empty prefix restores nothing.
unfoldable pub new_locator : Text → Locator
unfolding normalize_slashes join_path text_eq
new_locator prefix p =
    let c = normalize_slashes prefix in
    if is_empty c || text_eq c (b'.' ∷ [])
    then record { path = normalize_slashes p }
    else record { path = join_path c (normalize_slashes p) }

-- `Identity`.
unfoldable pub identity : Locator
unfolding new_locator
identity = new_locator []

pub data ChangeStatus : Type 0 where
  added modified removed renamed : ChangeStatus
  other : Text → ChangeStatus

-- One file of a changeset with both sides of the change; a nil side is empty. `at` is empty where
-- no locator has stamped the file.
pub record ChangedFile : Type 0 where
  pub path : Text
  pub previous_path : Text
  pub status : ChangeStatus
  pub previous : List ℕ
  pub current : List ℕ
  pub at : Located

-- `ChangedFile.Location`.
unfoldable pub location : ChangedFile → Located
location f = if is_empty f.at.path then record { path = f.path } else f.at
