-- ===== src/Postgres/Complexity.antt =====
-- The guard in front of the parser (internal/analyzer/postgres/parser/complexity.go), on the rest
-- of the text in the place of an offset into it.
use reversibility_engine.Prelude.Format.{format}
use reversibility_engine.Prelude.Words.{has_prefix}
use reversibility_engine.Prelude.Text.{Text, text, text_eq, to_upper, decimal}
use reversibility_engine.Prelude.{
  ℕ, zero, suc, ◌+◌, ◌-◌, Bool, not, ◌&&◌, ◌||◌, Option, none, some, [], ◌∷◌, ◌++◌, any, all, ltb,
  leb, ◌==◌, length, if◌then◌else◌,
}

abbrev pub max_nesting_depth : ℕ
max_nesting_depth = 100

abbrev pub max_operators_per_statement : ℕ
max_operators_per_statement = 500

-- `operatorChars`.
unfoldable pub is_operator : ℕ → Bool
unfolding text
is_operator c = any (text "+-*/<>=~!@#%^&|?") (λ o. c == o)

-- `wordOperators`.
unfoldable pub is_word_operator : Text → Bool
unfolding text_eq text
is_word_operator w =
    any
      (text "NOT"
        ∷ text "AND"
        ∷ text "OR"
        ∷ text "IS"
        ∷ text "LIKE"
        ∷ text "ILIKE"
        ∷ text "SIMILAR"
        ∷ text "BETWEEN"
        ∷ text "OVERLAPS"
        ∷ text "IN"
        ∷ [])
      (λ o. text_eq w o)

abbrev is_letter : ℕ → Bool
is_letter c = c == b'_' || (leb b'a' c && leb c b'z' || leb b'A' c && leb c b'Z')

-- `isIdentifierStart`.
unfoldable pub is_identifier_start : ℕ → Bool
is_identifier_start c = is_letter c

abbrev is_word_char : ℕ → Bool
is_word_char c = is_letter c || (c == b'$' || leb b'0' c && leb c b'9')

-- `readWord`: the word, and the text behind it.
unfoldable pub read_word : Text → Text × Text
read_word [] = ([], [])
read_word (c ∷ cs) =
    let rest = read_word cs in if is_word_char c then (c ∷ rest.0, rest.1) else ([], c ∷ cs)

-- The text behind a run of operator characters.
unfoldable pub skip_operator : Text → Text
unfolding is_operator
skip_operator [] = []
skip_operator (c ∷ cs) = let rest = skip_operator cs in if is_operator c then rest else c ∷ cs

-- `skipLineComment`.
unfoldable pub skip_line_comment : Text → Text
skip_line_comment [] = []
skip_line_comment (c ∷ cs) = let rest = skip_line_comment cs in if c == 10 then cs else rest

-- `skipBlockComment`, at a depth. The text starts with a comment, so the depth is 0 there alone.
unfoldable pub skip_block_comment : ℕ → Text → Text
skip_block_comment depth [] = []
skip_block_comment depth (c ∷ []) = []
skip_block_comment depth (c ∷ d ∷ rest) =
    let deeper = skip_block_comment (suc depth) rest in
    let outer = skip_block_comment (depth - 1) rest in
    let on = skip_block_comment depth (d ∷ rest) in
    if c == b'/' && d == b'*'
    then deeper
    else (if c == b'*' && d == b'/' then (if leb depth 1 then rest else outer) else on)

-- `skipQuoted`, behind the opening quote.
unfoldable pub skip_quoted : ℕ → Text → Text
skip_quoted quote [] = []
skip_quoted quote (c ∷ []) = []
skip_quoted quote (c ∷ d ∷ rest) =
    let on = skip_quoted quote (d ∷ rest) in
    let escaped = skip_quoted quote rest in
    if not (c == quote) then on else (if d == quote then escaped else d ∷ rest)

-- What a character in front of it makes of a tag.
unfoldable pub next_tag : ℕ → Text → Option (Text × Text) → Option (Text × Text)
next_tag c cs none = if c == b'$' then some ([], cs) else none
next_tag c cs (some p) = if c == b'$' then some ([], cs) else some (c ∷ p.0, p.1)

-- The name in front of the next dollar, and the text behind that.
unfoldable pub read_tag : Text → Option (Text × Text)
unfolding next_tag
read_tag [] = none
read_tag (c ∷ cs) = next_tag c cs (read_tag cs)

unfoldable pub drop : ℕ → Text → Text
drop zero s = s
drop (suc n) [] = []
drop (suc n) (c ∷ cs) = drop n cs

-- The text behind the first place where the tag stands, or the end.
unfoldable pub skip_to : Text → Text → Text
unfolding has_prefix drop
skip_to tag [] = []
skip_to tag (c ∷ cs) =
    let rest = skip_to tag cs in
    if has_prefix (c ∷ cs) tag then drop (length tag) (c ∷ cs) else rest

unfoldable pub dollar_body : Option (Text × Text) → Option Text
unfolding skip_to
dollar_body none = none
dollar_body (some p) =
    if all p.0 (λ c. is_letter c) then some (skip_to (b'$' ∷ (p.0 ++ b'$' ∷ [])) p.1) else none

-- `skipDollarQuoted`, behind the first dollar.
unfoldable pub skip_dollar_quoted : Text → Option Text
unfolding read_tag dollar_body
skip_dollar_quoted s = dollar_body (read_tag s)

-- What the loop counts.
pub record Counts : Type 0 where
  pub depth : ℕ
  pub max_depth : ℕ
  pub operators : ℕ
  pub statement : ℕ

-- How the guard ends. The last is no end of the code's: the fuel was too little.
pub data Guarded : Type 0 where
  accepted out_of_fuel : Guarded
  refused : Text → Guarded

-- What one turn of the loop does: the text and the counts that it leaves, or an error.
pub data Turn : Type 0 where
  goes_on : Text → Counts → Turn
  stops : Text → Turn

unfoldable pub count_operator : Text → Counts → Turn
unfolding format decimal text
count_operator rest k =
    let why : Text =
      format
        (text
          "parse: input is too deeply structured to parse safely: statement %s chains more than 500 operators")
        (decimal k.statement ∷ []) in
    if ltb max_operators_per_statement (k.operators + 1)
    then stops why
    else goes_on rest (record k { operators = k.operators + 1 })

unfoldable pub open_paren : Text → Counts → Turn
unfolding format decimal text
open_paren rest k =
    let depth = k.depth + 1 in
    let deepest = if ltb k.max_depth depth then depth else k.max_depth in
    let why : Text =
      format
        (text
          "parse: input is too deeply structured to parse safely: statement %s nests more than 100 levels deep")
        (decimal k.statement ∷ []) in
    if ltb max_nesting_depth deepest
    then stops why
    else goes_on rest (record k { depth = depth; max_depth = deepest })

unfoldable pub next_statement : Counts → Counts
next_statement k = record { depth = 0; max_depth = 0; operators = 0; statement = k.statement + 1 }

unfoldable pub dollar : Text → Option Text → Counts → Turn
dollar rest none k = goes_on rest k
dollar rest (some behind) k = goes_on behind k

unfoldable pub word : Text × Text → Counts → Turn
unfolding is_word_operator to_upper count_operator
word w k = if is_word_operator (to_upper w.0) then count_operator w.1 k else goes_on w.1 k

-- One turn of the loop of `guardComplexity`, on a text that is not empty.
unfoldable pub turn : ℕ → Text → Counts → Turn
unfolding has_prefix skip_line_comment skip_block_comment skip_quoted skip_dollar_quoted
    skip_operator is_operator is_identifier_start read_word count_operator open_paren next_statement
    dollar word text
turn c cs k =
    if has_prefix (c ∷ cs) (text "--")
    then goes_on (skip_line_comment cs) k
    else (if has_prefix (c ∷ cs) (text "/*")
        then goes_on (skip_block_comment 0 (c ∷ cs)) k
        else (if c == 39 || c == 34
            then goes_on (skip_quoted c cs) k
            else (if c == b'$'
                then dollar cs (skip_dollar_quoted cs) k
                else (if c == b'('
                    then open_paren cs k
                    else (if c == b')'
                        then goes_on cs (record k { depth = k.depth - 1 })
                        else (if c == b';'
                            then goes_on cs (next_statement k)
                            else (if is_operator c
                                then count_operator (skip_operator cs) k
                                else (if is_identifier_start c
                                    then word (read_word (c ∷ cs)) k
                                    else goes_on cs k))))))))

unfoldable pub after_turn : Turn → (Text → Counts → Guarded) → Guarded
after_turn (stops why) loop = refused why
after_turn (goes_on s k) loop = loop s k

-- The loop of `guardComplexity`. Each turn takes a unit of fuel.
unfoldable pub guard_from : ℕ → Text → Counts → Guarded
unfolding turn after_turn
guard_from zero s k = out_of_fuel
guard_from (suc fuel) [] k = accepted
guard_from (suc fuel) (c ∷ cs) k = after_turn (turn c cs k) (λ s k'. guard_from fuel s k')

-- `guardComplexity`. Each turn takes a character at least, so one more than their number is fuel
-- enough.
unfoldable pub guard_complexity : Text → Guarded
unfolding guard_from
guard_complexity sql =
    guard_from (length sql + 1) sql
      (record { depth = 0; max_depth = 0; operators = 0; statement = 1 })
