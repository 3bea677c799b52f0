-- ===== src/Prelude/Text.antt =====
-- Text as a list of code points, the order of Go's strings on it, and decimal numerals.
use Prim.Native.Char.{code}
use Prim.Native.Nat.{ℕ, zero, suc, ◌+◌, ◌-◌, ◌/◌, ◌%◌}
use Prim.Native.String.{String}
use mathlib.Core.Path.{◌≡◌, refl}
use mathlib.Core.Logic.{◌↔◌}
use mathlib.Core.Bool.{Bool, true, false, ◌&&◌, ◌||◌}
use mathlib.Core.List.{List, [], ◌∷◌, ◌++◌}
use native.Mathlib.Omega.{arith}
use reversibility_engine.Prelude.Tests.{ltb, leb, ◌==◌, if◌then◌else◌}

-- A Go string. UTF-8 orders by bytes as it does by code points, so the order below is Go's.
abbrev pub Text : Type 0
Text = List ℕ

abbrev codes : String → Text
codes String.[] = []
codes (String.◌∷◌ c s) = code c ∷ codes s

-- A literal. It stays shut in proofs.
unfoldable pub text : String → Text
text s = codes s

-- `a == b` on strings.
unfoldable pub text_eq : Text → Text → Bool
text_eq [] [] = true
text_eq (x ∷ xs) (y ∷ ys) = x == y && text_eq xs ys
text_eq _ _ = false

-- `a < b` on strings.
unfoldable pub text_lt : Text → Text → Bool
text_lt [] [] = false
text_lt [] (y ∷ ys) = true
text_lt (x ∷ xs) [] = false
text_lt (x ∷ xs) (y ∷ ys) = ltb x y || x == y && text_lt xs ys

pub text_eq_refl : (s : Text) → text_eq s s ≡ true
unfolding text_eq
text_eq_refl [] = refl
text_eq_refl (x ∷ xs) = ground (arith, text_eq_refl xs)

pub text_eq_sound : (s t : Text) → text_eq s t ≡ true → s ≡ t
unfolding text_eq
text_eq_sound [] [] h = refl
text_eq_sound [] (y ∷ ys) h = ground arith
text_eq_sound (x ∷ xs) [] h = ground arith
text_eq_sound (x ∷ xs) (y ∷ ys) h = ground (arith, text_eq_sound xs ys)

pub text_eq_iff : (s t : Text) → (text_eq s t ≡ true) ↔ (s ≡ t)
text_eq_iff s t = (text_eq_sound s t, λ e. ground (arith, text_eq_refl s))

pub text_lt_irrefl : (s : Text) → text_lt s s ≡ false
unfolding text_lt
text_lt_irrefl [] = refl
text_lt_irrefl (x ∷ xs) = ground (arith, text_lt_irrefl xs)

pub text_lt_asymm : (s t : Text) → text_lt s t ≡ true → text_lt t s ≡ false
unfolding text_lt
text_lt_asymm [] [] h = refl
text_lt_asymm [] (y ∷ ys) h = refl
text_lt_asymm (x ∷ xs) [] h = ground arith
text_lt_asymm (x ∷ xs) (y ∷ ys) h = ground (arith, text_lt_asymm xs ys)

-- `a ≤ b` is the failure of `b < a`, and is transitive.
pub text_le_trans : (s t u : Text) → text_lt t s ≡ false → text_lt u t ≡ false → text_lt u s ≡ false
unfolding text_lt
text_le_trans [] t [] h k = refl
text_le_trans [] [] (z ∷ zs) h k = refl
text_le_trans [] (y ∷ ys) (z ∷ zs) h k = refl
text_le_trans (x ∷ xs) [] u h k = ground arith
text_le_trans (x ∷ xs) (y ∷ ys) [] h k = ground arith
text_le_trans (x ∷ xs) (y ∷ ys) (z ∷ zs) h k = ground (arith, text_le_trans xs ys zs)

abbrev pub lower : ℕ → ℕ
lower c = if leb b'A' c && leb c b'Z' then c + 32 else c

-- `strings.ToLower` on ASCII.
unfoldable pub to_lower : Text → Text
to_lower [] = []
to_lower (c ∷ cs) = lower c ∷ to_lower cs

abbrev upper : ℕ → ℕ
upper c = if leb b'a' c && leb c b'z' then c - 32 else c

-- `strings.ToUpper` on ASCII.
unfoldable pub to_upper : Text → Text
to_upper [] = []
to_upper (c ∷ cs) = upper c ∷ to_upper cs

-- The digits of `n`, lowest last; the fuel `n + 1` is more than its number of digits.
decimal_from : ℕ → ℕ → Text → Text
decimal_from zero n acc = acc
decimal_from (suc f) n acc =
    let rest = decimal_from f (n / 10) ((48 + n % 10) ∷ acc) in
    if ltb n 10 then (48 + n) ∷ acc else rest

-- `%d` and `strconv.Itoa` of a number that is not negative.
unfoldable pub decimal : ℕ → Text
unfolding decimal_from
decimal n = decimal_from (n + 1) n []

-- `strings.Join`.
unfoldable pub join : Text → List Text → Text
join sep [] = []
join sep (x ∷ []) = x
join sep (x ∷ y ∷ rest) = x ++ (sep ++ join sep (y ∷ rest))

hex_digit : ℕ → ℕ
hex_digit n = if ltb n 10 then 48 + n else 87 + n

-- One character of a quoted string; every character above ASCII is taken as printable.
quote_char : ℕ → Text
unfolding hex_digit
quote_char c =
    if c == 34 || c == 92
    then 92 ∷ c ∷ []
    else (if c == 7
        then 92 ∷ 97 ∷ []
        else (if c == 8
            then 92 ∷ 98 ∷ []
            else (if c == 12
                then 92 ∷ 102 ∷ []
                else (if c == 10
                    then 92 ∷ 110 ∷ []
                    else (if c == 13
                        then 92 ∷ 114 ∷ []
                        else (if c == 9
                            then 92 ∷ 116 ∷ []
                            else (if c == 11
                                then 92 ∷ 118 ∷ []
                                else (if ltb c 32 || c == 127
                                    then 92 ∷ 120 ∷ hex_digit (c / 16) ∷ hex_digit (c % 16) ∷ []
                                    else c ∷ []))))))))

quote_all : Text → Text
unfolding quote_char
quote_all [] = []
quote_all (c ∷ cs) = quote_char c ++ quote_all cs

-- `%q`.
unfoldable pub quote : Text → Text
unfolding quote_all
quote s = 34 ∷ (quote_all s ++ 34 ∷ [])

abbrev is_space : ℕ → Bool
is_space c = c == 32 || (leb 9 c && leb c 13)

-- The text from its first character that is no space.
trim_left : Text → Text
trim_left [] = []
trim_left (c ∷ cs) = let rest = trim_left cs in if is_space c then rest else c ∷ cs

drop_space : ℕ → Text → Text
drop_space c [] = if is_space c then [] else c ∷ []
drop_space c (d ∷ rest) = c ∷ d ∷ rest

-- The text up to its last character that is no space.
trim_right : Text → Text
unfolding drop_space
trim_right [] = []
trim_right (c ∷ cs) = let rest = trim_right cs in drop_space c rest

-- `strings.TrimSpace` on ASCII.
unfoldable pub trim_space : Text → Text
unfolding trim_left trim_right
trim_space s = trim_right (trim_left s)
