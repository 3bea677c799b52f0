-- ===== src/Policy/Date.antt =====
-- Calendar days as `time.Parse("2006-01-02", s)` reads them (internal/policy/load.go).
use reversibility_engine.Prelude.Text.{Text}
use reversibility_engine.Prelude.{
  ℕ, zero, suc, ◌+◌, ◌-◌, ◌*◌, ◌%◌, Bool, true, not, ◌&&◌, ◌||◌, List, [], ◌∷◌, Option, none, some,
  ltb, leb, ◌==◌, if◌then◌else◌,
}

-- A day in UTC.
pub record Day : Type 0 where
  pub year : ℕ
  pub month : ℕ
  pub day : ℕ

abbrev is_leap : ℕ → Bool
is_leap y = y % 4 == 0 && (not (y % 100 == 0) || y % 400 == 0)

abbrev days_in : ℕ → ℕ → ℕ
days_in y m =
    if m == 2
    then (if is_leap y then 29 else 28)
    else (if m == 4 || (m == 6 || (m == 9 || m == 11)) then 30 else 31)

abbrev is_digit : ℕ → Bool
is_digit c = leb b'0' c && leb c b'9'

abbrev digit : ℕ → ℕ
digit c = c - b'0'

abbrev number : ℕ → List ℕ → ℕ
number acc [] = acc
number acc (c ∷ cs) = number (acc * 10 + digit c) cs

abbrev all_digits : List ℕ → Bool
all_digits [] = true
all_digits (c ∷ cs) = is_digit c && all_digits cs

abbrev day_of : ℕ → ℕ → ℕ → Option Day
day_of y m d =
    if leb 1 m && (leb m 12 && (leb 1 d && leb d (days_in y m)))
    then some (record { year = y; month = m; day = d })
    else none

-- `time.Parse(dateLayout, s)`: exactly YYYY-MM-DD, and a day that exists.
unfoldable pub parse_day : Text → Option Day
parse_day (y₁ ∷ y₂ ∷ y₃ ∷ y₄ ∷ s₁ ∷ m₁ ∷ m₂ ∷ s₂ ∷ d₁ ∷ d₂ ∷ []) =
    if all_digits (y₁ ∷ y₂ ∷ y₃ ∷ y₄ ∷ m₁ ∷ m₂ ∷ d₁ ∷ d₂ ∷ []) && (s₁ == b'-' && s₂ == b'-')
    then day_of (number 0 (y₁ ∷ y₂ ∷ y₃ ∷ y₄ ∷ [])) (number 0 (m₁ ∷ m₂ ∷ []))
        (number 0 (d₁ ∷ d₂ ∷ []))
    else none
parse_day _ = none

-- `a.After(b)` on days.
unfoldable pub is_after : Day → Day → Bool
is_after a b =
    ltb b.year a.year
    || (a.year == b.year && (ltb b.month a.month || (a.month == b.month && ltb b.day a.day)))

-- The day after.
abbrev pub next_day : Day → Day
next_day t =
    if ltb t.day (days_in t.year t.month)
    then record t { day = t.day + 1 }
    else (if ltb t.month 12
        then record { year = t.year; month = t.month + 1; day = 1 }
        else record { year = t.year + 1; month = 1; day = 1 })

-- `t.Add(n * 24 * time.Hour)` on days.
unfoldable pub add_days : ℕ → Day → Day
add_days zero t = t
add_days (suc n) t = add_days n (next_day t)
