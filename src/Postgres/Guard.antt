-- ===== src/Postgres/Guard.antt =====
-- The guard ends, and its counts stay within the limits
-- (internal/analyzer/postgres/parser/complexity.go).
use reversibility_engine.Prelude.Words.{has_prefix}
use reversibility_engine.Prelude.Text.{Text, text, to_upper}
use reversibility_engine.Prelude.{
  ℕ, zero, suc, ◌+◌, ◌-◌, ◌≤◌, ◌<◌, Bool, true, false, ◌||◌, ◌≡◌, ◌≢◌, refl, arith, Option, none,
  some, [], ◌∷◌, ◌++◌, all, ltb, ◌==◌, length, if◌then◌else◌,
}
use reversibility_engine.Postgres.Complexity.{
  max_nesting_depth, max_operators_per_statement, is_operator, is_word_operator,
  is_identifier_start, read_word, skip_operator, skip_line_comment, skip_block_comment, skip_quoted,
  read_tag, next_tag, drop, skip_to, dollar_body, skip_dollar_quoted, Counts, out_of_fuel, Turn,
  goes_on, stops, count_operator, open_paren, next_statement, dollar, word, turn, after_turn,
  guard_from, guard_complexity,
}

length-read_word : (s : Text) → length (read_word s).1 ≤ length s
unfolding read_word
length-read_word [] = omega arith
length-read_word (c ∷ cs) = ground (arith, length-read_word cs)

read_word_start :
    (c : ℕ) (cs : Text) → is_identifier_start c ≡ true → length (read_word (c ∷ cs)).1 ≤ length cs
unfolding read_word is_identifier_start
read_word_start c cs h = ground (arith, length-read_word cs)

length-skip_operator : (s : Text) → length (skip_operator s) ≤ length s
unfolding skip_operator
length-skip_operator [] = omega arith
length-skip_operator (c ∷ cs) = ground (arith, length-skip_operator cs)

length-skip_line_comment : (s : Text) → length (skip_line_comment s) ≤ length s
unfolding skip_line_comment
length-skip_line_comment [] = omega arith
length-skip_line_comment (c ∷ cs) = ground (arith, length-skip_line_comment cs)

length-skip_block : (d : ℕ) (s : Text) → length (skip_block_comment d s) ≤ length s - 1
unfolding skip_block_comment
length-skip_block d [] = omega arith
length-skip_block d (c ∷ []) = omega arith
length-skip_block d (c ∷ e ∷ rest) = ground (
  arith,
  length-skip_block (suc d) rest,
  length-skip_block (d - 1) rest,
  length-skip_block d (e ∷ rest),
)

length-skip_quoted : (q : ℕ) (s : Text) → length (skip_quoted q s) ≤ length s
unfolding skip_quoted
length-skip_quoted q [] = omega arith
length-skip_quoted q (c ∷ []) = omega arith
length-skip_quoted q (c ∷ d ∷ rest) =
    ground (arith, length-skip_quoted q (d ∷ rest), length-skip_quoted q rest)

length-drop : (n : ℕ) (s : Text) → length (drop n s) ≤ length s
unfolding drop
length-drop zero s = omega arith
length-drop (suc n) [] = omega arith
length-drop (suc n) (c ∷ cs) = omega (arith, length-drop n cs)

length-skip_to : (tag s : Text) → length (skip_to tag s) ≤ length s
unfolding skip_to
length-skip_to tag [] = omega arith
length-skip_to tag (c ∷ cs) =
    ground (arith, length-skip_to tag cs, length-drop (length tag) (c ∷ cs))

-- The counts of a statement are within the limits.
pub record IsWithin (k : Counts) : Type 0 where
  pub nesting : k.depth ≤ k.max_depth
  pub deepest : k.max_depth ≤ max_nesting_depth
  pub chained : k.operators ≤ max_operators_per_statement

-- A turn that goes on has taken a character, and its counts are within the limits.
abbrev pub Progress : ℕ → Turn → Type 0
Progress n (stops why) = Unit
Progress n (goes_on s k) = (length s ≤ n) × IsWithin k

if_Progress :
    (n : ℕ) (b : Bool) (x y : Turn)
    → (b ≡ true → Progress n x)
    → (b ≡ false → Progress n y)
    → Progress n (if b then x else y)
if_Progress n true x y h k = h refl
if_Progress n false x y h k = k refl

operator_Progress :
    (n : ℕ) (s : Text) (k : Counts) → length s ≤ n → IsWithin k → Progress n (count_operator s k)
unfolding count_operator
operator_Progress n s k h w =
    if_Progress n (ltb max_operators_per_statement (k.operators + 1)) _ _ (λ e. tt)
      (λ e. (h, record { nesting = w.nesting; deepest = w.deepest; chained = ground arith }))

paren_Progress :
    (n : ℕ) (s : Text) (k : Counts) → length s ≤ n → IsWithin k → Progress n (open_paren s k)
unfolding open_paren
paren_Progress n s k h w =
    if_Progress n
      (ltb max_nesting_depth (if ltb k.max_depth (k.depth + 1) then k.depth + 1 else k.max_depth)) _
      _ (λ e. tt)
      (λ e. (h, record { nesting = ground arith; deepest = ground arith; chained = w.chained }))

word-Progress :
    (n : ℕ) (v : Text × Text) (k : Counts) → length v.1 ≤ n → IsWithin k → Progress n (word v k)
unfolding word
word-Progress n v k h w =
    if_Progress n (is_word_operator (to_upper v.0)) _ _ (λ e. operator_Progress n v.1 k h w)
      (λ e. (h, w))

-- What is left behind a tag is no longer than the bound.
TagWithin : ℕ → Option (Text × Text) → Type 0
TagWithin n none = Unit
TagWithin n (some p) = length p.1 ≤ n

if_TagWithin :
    (n : ℕ) (b : Bool) (x y : Option (Text × Text))
    → TagWithin n x
    → TagWithin n y
    → TagWithin n (if b then x else y)
if_TagWithin n true x y h k = h
if_TagWithin n false x y h k = k

tag_step :
    (c : ℕ) (cs : Text) (o : Option (Text × Text))
    → TagWithin (length cs) o
    → TagWithin (suc (length cs)) (next_tag c cs o)
unfolding next_tag TagWithin
tag_step c cs none h = if_TagWithin (suc (length cs)) (c == b'$') _ _ (omega arith) tt
tag_step c cs (some p) h =
    if_TagWithin (suc (length cs)) (c == b'$') _ _ (omega arith) (omega (arith, h))

read_tag-TagWithin : (s : Text) → TagWithin (length s) (read_tag s)
unfolding read_tag TagWithin
read_tag-TagWithin [] = tt
read_tag-TagWithin (c ∷ cs) = tag_step c cs (read_tag cs) (read_tag-TagWithin cs)

body_Progress :
    (n : ℕ) (cs : Text) (b : Bool) (behind : Text) (k : Counts)
    → length cs ≤ n
    → length behind ≤ n
    → IsWithin k
    → Progress n (dollar cs (if b then some behind else none) k)
unfolding dollar
body_Progress n cs true behind k h l w = (l, w)
body_Progress n cs false behind k h l w = (h, w)

skip_to_bound : (n : ℕ) (tag s : Text) → length s ≤ n → length (skip_to tag s) ≤ n
skip_to_bound n tag s h = omega (arith, length-skip_to tag s, h)

dollar-Progress :
    (n : ℕ) (cs : Text) (o : Option (Text × Text)) (k : Counts)
    → length cs ≤ n
    → TagWithin n o
    → IsWithin k
    → Progress n (dollar cs (dollar_body o) k)
unfolding dollar dollar_body TagWithin
dollar-Progress n cs none k h t w = (h, w)
dollar-Progress n cs (some p) k h t w =
    body_Progress n cs (all p.0 _) _ k h (skip_to_bound n (b'$' ∷ (p.0 ++ b'$' ∷ [])) p.1 t) w

-- Every turn of the guard's loop either refuses the text or takes a character at least, and leaves
-- counts within the limits where they were within the limits.
turn-Progress : (c : ℕ) (cs : Text) (k : Counts) → IsWithin k → Progress (length cs) (turn c cs k)
unfolding turn next_statement skip_dollar_quoted
turn-Progress c cs k w =
    let n = length cs in
    if_Progress n (has_prefix (c ∷ cs) (text "--")) _ _ (λ e. (length-skip_line_comment cs, w))
      (λ e.
        if_Progress n (has_prefix (c ∷ cs) (text "/*")) _ _
          (λ e. (omega (arith, length-skip_block 0 (c ∷ cs)), w))
          (λ e.
            if_Progress n (c == 39 || c == 34) _ _ (λ e. (length-skip_quoted c cs, w))
              (λ e.
                if_Progress n (c == b'$') _ _
                  (λ e.
                    dollar-Progress n cs (read_tag cs) k (omega arith) (read_tag-TagWithin cs) w)
                  (λ e.
                    if_Progress n (c == b'(') _ _ (λ e. paren_Progress n cs k (omega arith) w)
                      (λ e.
                        if_Progress n (c == b')') _ _
                          (λ e. (
                            omega arith,
                            record {
                              nesting = omega (arith, w.nesting);
                              deepest = w.deepest;
                              chained = w.chained;
                            },
                          ))
                          (λ e.
                            if_Progress n (c == b';') _ _
                              (λ e. (
                                omega arith,
                                record {
                                  nesting = omega arith;
                                  deepest = omega arith;
                                  chained = omega arith;
                                },
                              ))
                              (λ e.
                                if_Progress n (is_operator c) _ _
                                  (λ e.
                                    operator_Progress n (skip_operator cs) k
                                      (length-skip_operator cs) w)
                                  (λ e.
                                    if_Progress n (is_identifier_start c) _ _
                                      (λ e.
                                        word-Progress n (read_word (c ∷ cs)) k
                                          (read_word_start c cs e) w)
                                      (λ e. (omega arith, w))))))))))

after_ends :
    (fuel n : ℕ) (t : Turn)
    → Progress n t
    → ((s : Text) (k : Counts) → length s ≤ n → IsWithin k → guard_from fuel s k ≢ out_of_fuel)
    → after_turn t (λ s k. guard_from fuel s k) ≢ out_of_fuel
unfolding after_turn
after_ends fuel n (stops why) p loop = λ e. cc
after_ends fuel n (goes_on s k) p loop = loop s k p.0 p.1

guard_ends :
    (fuel : ℕ) (s : Text) (k : Counts)
    → length s < fuel
    → IsWithin k
    → guard_from fuel s k ≢ out_of_fuel
unfolding guard_from
guard_ends zero s k h w = absurd (omega arith)
guard_ends (suc fuel) [] k h w = λ e. cc
guard_ends (suc fuel) (c ∷ cs) k h w =
    after_ends fuel (length cs) (turn c cs k) (turn-Progress c cs k w)
      (λ s k' l v. guard_ends fuel s k' (omega (arith, l, h)) v)

-- The guard ends on every text: it accepts the text, or refuses it before the parser sees it.
pub guard_complexity-ends : (sql : Text) → guard_complexity sql ≢ out_of_fuel
unfolding guard_complexity
guard_complexity-ends sql =
    guard_ends (length sql + 1) sql _ (omega arith)
      (record { nesting = omega arith; deepest = omega arith; chained = omega arith })
