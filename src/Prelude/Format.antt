-- ===== src/Prelude/Format.antt =====
-- `fmt.Sprintf` for the verbs that the messages use, and the operators on strings beside it.
use reversibility_engine.Prelude.Tests.{◌==◌, if◌then◌else◌}
use reversibility_engine.Prelude.Text.{Text, text, quote}
use Prim.Native.Nat.{ℕ}
use mathlib.Core.Bool.{◌&&◌, ◌||◌}
use mathlib.Core.List.{List, [], ◌∷◌, ◌++◌}

-- The first argument that is left, or what Go prints where none is left.
argument : ℕ → List Text → Text
argument verb [] = text "%!" ++ (verb ∷ text "(MISSING)")
argument verb (a ∷ args) = a

later : List Text → List Text
later [] = []
later (a ∷ args) = args

-- `fmt.Sprintf(template, args...)`: `%s` and `%v` write an argument, `%q` quotes it.
unfoldable pub format : Text → List Text → Text
unfolding argument later quote
format [] args = []
format (c ∷ []) args = c ∷ []
format (c ∷ d ∷ rest) args =
    let plain = c ∷ format (d ∷ rest) args in
    let written = argument d args ++ format rest (later args) in
    let quoted = quote (argument d args) ++ format rest (later args) in
    if c == b'%' && (d == b's' || d == b'v')
    then written
    else (if c == b'%' && d == b'q' then quoted else plain)
