-- ===== src/Paths.antt =====
-- What the program uses of Go's `path` and `strings` packages, on slash-separated paths.
use mathlib.Core.List.{foldl, reverse}
use reversibility_engine.Prelude.Text.{Text, text_eq, join}
use reversibility_engine.Prelude.{
  ℕ, Bool, false, ◌||◌, ◌&&◌, List, [], ◌∷◌, ◌++◌, map, ◌==◌, is_empty, if◌then◌else◌, keep, not,
}

abbrev slash : Text
slash = b'/' ∷ []

abbrev dot : Text
dot = b'.' ∷ []

abbrev dot_dot : Text
dot_dot = b'.' ∷ b'.' ∷ []

abbrev push_char : ℕ → List Text → List Text
push_char c [] = (c ∷ []) ∷ []
push_char c (w ∷ ws) = (c ∷ w) ∷ ws

-- `strings.Split(s, "/")`: never empty.
unfoldable pub split_slash : Text → List Text
split_slash [] = [] ∷ []
split_slash (c ∷ cs) =
    let rest = split_slash cs in if c == b'/' then [] ∷ rest else push_char c rest

abbrev is_rooted : Text → Bool
is_rooted [] = false
is_rooted (c ∷ cs) = c == b'/'

-- A `..` takes the last element away, and stays where there is none in a relative path.
abbrev pop_element : Bool → List Text → List Text
pop_element rooted [] = if rooted then [] else dot_dot ∷ []
pop_element rooted (top ∷ rest) = if text_eq top dot_dot then dot_dot ∷ top ∷ rest else rest

-- One element of the path, on a stack whose top is the last element kept.
clean_step : Bool → List Text → Text → List Text
clean_step rooted stack w =
    if is_empty w || text_eq w dot
    then stack
    else (if text_eq w dot_dot then pop_element rooted stack else w ∷ stack)

-- `path.Clean`.
unfoldable pub clean : Text → Text
unfolding clean_step split_slash text_eq join
clean p =
    let body = join slash (reverse (foldl (clean_step (is_rooted p)) [] (split_slash p))) in
    if is_rooted p then b'/' ∷ body else (if is_empty body then dot else body)

abbrev pub last_or : Text → List Text → Text
last_or d [] = d
last_or d (w ∷ []) = w
last_or d (w ∷ v ∷ ws) = last_or d (v ∷ ws)

abbrev but_last : List Text → List Text
but_last [] = []
but_last (w ∷ []) = []
but_last (w ∷ v ∷ ws) = w ∷ but_last (v ∷ ws)

-- The part of `path.Split` up to the last slash, that slash included.
abbrev up_to_slash : List Text → Text
up_to_slash [] = []
up_to_slash (w ∷ ws) = join slash (w ∷ ws) ++ slash

-- `path.Dir`.
unfoldable pub dir : Text → Text
unfolding clean
dir p = clean (up_to_slash (but_last (split_slash p)))

-- `path.Base`: the last element that is not empty.
unfoldable pub base : Text → Text
unfolding split_slash
base p = if is_empty p then dot else last_or slash (keep (λ w. not (is_empty w)) (split_slash p))

-- The suffix from the last dot on.
from_dot : Text → Text
from_dot [] = []
from_dot (c ∷ cs) =
    let rest = from_dot cs in
    if not (is_empty rest) then rest else (if c == b'.' then c ∷ cs else [])

-- `path.Ext`: looks at the last element only.
unfoldable pub ext : Text → Text
unfolding from_dot split_slash
ext p = from_dot (last_or [] (split_slash p))

-- `path.Join` of two elements.
unfoldable pub join_path : Text → Text → Text
unfolding clean
join_path a b =
    if is_empty a && is_empty b
    then []
    else clean (join slash (keep (λ w. not (is_empty w)) (a ∷ b ∷ [])))

-- `strings.ReplaceAll(p, "\\", "/")`.
unfoldable pub forward_slashes : Text → Text
forward_slashes = map (λ c. if c == 92 then b'/' else c)

-- `strings.HasSuffix`.
unfoldable pub has_suffix : Text → Text → Bool
unfolding text_eq
has_suffix [] t = is_empty t
has_suffix (c ∷ cs) t = text_eq (c ∷ cs) t || has_suffix cs t
