-- ===== src/Glob.antt =====
-- Go's `path.Match` on one pattern and one name: the pattern is read into items, and a malformed
-- one is an error whatever the name.
pub mod Fuel
use reversibility_engine.Prelude.Text.{Text}
use reversibility_engine.Prelude.{
  ℕ, zero, suc, Bool, true, false, not, ◌&&◌, ◌||◌, List, [], ◌∷◌, Option, none, some, leb, ◌==◌,
  if◌then◌else◌, is_empty, any, length,
}

-- A range of characters in a class.
pub record Range : Type 0 where
  pub lo : ℕ
  pub hi : ℕ

-- `*`, `?`, a class and a plain character.
pub data Item : Type 0 where
  star one : Item
  class : Bool → List Range → Item
  plain : ℕ → Item

-- A character of a class, after a backslash as well, and what follows; something has to.
abbrev escaped_rest : Text → Option (ℕ × Text)
escaped_rest [] = none
escaped_rest (c ∷ []) = none
escaped_rest (c ∷ d ∷ cs) = some (c, d ∷ cs)

pub get_esc : Text → Option (ℕ × Text)
get_esc [] = none
get_esc (c ∷ cs) =
    if c == b'-' || c == b']'
    then none
    else (if c == 92 then escaped_rest cs else escaped_rest (c ∷ cs))

pub range_end : ℕ → Text → Option (Range × Text)
unfolding get_esc
range_end lo [] = none
range_end lo (c ∷ cs) =
    if c == b'-'
    then elim (get_esc cs) [
      | none ↦ none
      | some (hi, rest) ↦ some (record { lo = lo; hi = hi }, rest)
    ]
    else some (record { lo = lo; hi = lo }, c ∷ cs)

-- The ranges of a class up to its `]`. Each round reads a character, so the length is fuel enough.
pub ranges : ℕ → List Range → Text → Option (List Range × Text)
unfolding range_end get_esc
ranges zero seen s = none
ranges (suc fuel) seen [] = none
ranges (suc fuel) seen (c ∷ cs) =
    if c == b']' && not (is_empty seen) then some (seen, cs) else elim (get_esc (c ∷ cs)) [
      | none ↦ none
      | some (lo, rest) ↦ elim (range_end lo rest) [
        | none ↦ none
        | some (r, rest') ↦ ranges fuel (r ∷ seen) rest'
      ]
    ]

abbrev pub negated : Text → Bool × Text
negated [] = (false, [])
negated (c ∷ cs) = if c == b'^' then (true, cs) else (false, c ∷ cs)

abbrev pub cons_item : Item → Option (List Item) → Option (List Item)
cons_item i none = none
cons_item i (some is) = some (i ∷ is)

-- The items of a pattern; `none` is `ErrBadPattern`. Each round reads a character.
pub items : ℕ → Text → Option (List Item)
unfolding ranges
items fuel [] = some []
items zero (c ∷ cs) = none
items (suc fuel) (c ∷ cs) = elim (c == b'*') [
  | true ↦ cons_item star (items fuel cs)
  | false ↦ elim (c == b'?') [
    | true ↦ cons_item one (items fuel cs)
    | false ↦ elim (c == b'[') [
      | true ↦ elim (ranges (suc (length cs)) [] (negated cs).1) [
        | none ↦ none
        | some (rs, rest) ↦ cons_item (class (negated cs).0 rs) (items fuel rest)
      ]
      | false ↦ elim (c == 92) [
        | true ↦ elim cs [ [] ↦ none | d ∷ ds ↦ cons_item (plain d) (items fuel ds) ]
        | false ↦ cons_item (plain c) (items fuel cs)
      ]
    ]
  ]
]

abbrev in_range : ℕ → Range → Bool
in_range c r = leb r.lo c && leb c r.hi

-- One item other than `*` on one character.
item_matches : Item → ℕ → Bool
item_matches star c = false
item_matches one c = not (c == b'/')
item_matches (class neg rs) c = if any rs (in_range c) then not neg else neg
item_matches (plain d) c = c == d

-- A `*` takes any run of characters within the element.
glob_items : List Item → Text → Bool
unfolding item_matches
glob_items [] s = is_empty s
glob_items (star ∷ is) [] = glob_items is []
glob_items (star ∷ is) (c ∷ cs) = elim (glob_items is (c ∷ cs)) [
  | true ↦ true
  | false ↦ elim (c == b'/') [ true ↦ false | false ↦ glob_items (star ∷ is) cs ]
]
glob_items (i ∷ is) [] = false
glob_items (i ∷ is) (c ∷ cs) = elim (item_matches i c) [ true ↦ glob_items is cs | false ↦ false ]

abbrev on_items : Option (List Item) → Text → Option Bool
on_items none s = none
on_items (some is) s = some (glob_items is s)

-- `path.Match(pattern, name)`: `none` is `ErrBadPattern`.
unfoldable pub path_match : Text → Text → Option Bool
unfolding items glob_items
path_match pattern name = on_items (items (length pattern) pattern) name
