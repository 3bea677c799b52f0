-- ===== src/Policy/Match.antt =====
-- Glob matching of whole paths (internal/policy/match.go).
pub mod Decides
use reversibility_engine.Prelude.Text.{Text, text_eq}
use reversibility_engine.Prelude.{
  Bool, true, false, ◌&&◌, ◌||◌, List, [], ◌∷◌, Option, none, some, if◌then◌else◌, is_empty, any,
}
use reversibility_engine.Paths.{split_slash}
use reversibility_engine.Glob.{path_match}
use reversibility_engine.Domain.Located.{Located}

abbrev pub double_star : Text
double_star = b'*' ∷ b'*' ∷ []

unfoldable pub is_deep : Text → Bool
unfolding text_eq
is_deep p = text_eq p double_star

abbrev ends_deep : List Text → Bool
ends_deep [] = false
ends_deep (p ∷ ps) = is_deep p

-- The loop of `segments`; `out` is held with its last element first.
segments_from : List Text → List Text → List Text
unfolding is_deep text_eq
segments_from out [] = out
segments_from out (p ∷ ps) =
    segments_from
      (if is_empty p || text_eq p (b'.' ∷ [])
        then out
        else (if is_deep p && ends_deep out then out else p ∷ out))
      ps

reverse_onto : List Text → List Text → List Text
reverse_onto [] acc = acc
reverse_onto (x ∷ xs) acc = reverse_onto xs (x ∷ acc)

-- `segments`: empty segments and `.` are dropped, and runs of `**` collapsed.
unfoldable pub segments : Text → List Text
unfolding segments_from split_slash reverse_onto
segments s = reverse_onto (segments_from [] (split_slash s)) []

-- `ok, err := path.Match(p, n)` with `err != nil || !ok` turned round.
unfoldable pub segment_matches : Text → Text → Bool
unfolding path_match
segment_matches p n = elim (path_match p n) [ some true ↦ true | _ ↦ false ]

-- `name[i:]` for each `i` of `0 .. len(name)`.
abbrev pub suffixes : List Text → List (List Text)
suffixes [] = [] ∷ []
suffixes (n ∷ ns) = (n ∷ ns) ∷ suffixes ns

-- `matchSegments`.
unfoldable pub match_segments : List Text → List Text → Bool
match_segments [] name = is_empty name
match_segments (p ∷ ps) name = elim (is_deep p) [
  | true ↦ any (suffixes name) (λ rest. match_segments ps rest)
  | false ↦ elim name [
    | [] ↦ false
    | n ∷ ns ↦ elim (segment_matches p n) [ true ↦ match_segments ps ns | false ↦ false ]
  ]
]

-- `Match`.
unfoldable pub glob_match : Text → Located → Bool
unfolding match_segments segments segment_matches is_deep
glob_match pattern name = match_segments (segments pattern) (segments name.path)
