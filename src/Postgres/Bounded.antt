-- ===== src/Postgres/Bounded.antt =====
-- What `NormalizeStatement` (internal/analyzer/analyzer.go) keeps of a statement: its words, one
-- space between them, within the bound.
use reversibility_engine.Prelude.Text.{Text, join}
use reversibility_engine.Prelude.Words.{is_space, push_first, take}
use reversibility_engine.Prelude.{
  ℕ, zero, suc, ◌≤◌, Bool, true, false, not, ◌≡◌, refl, ap, arith, inl, inr, List, [], ◌∷◌, length,
  length-append, Bool-cases, if◌then◌else◌, leb, leb→le,
}
use reversibility_engine.Postgres.Normal.{
  max_statement_length, marker, collapse, bounded, normalize_statement,
}

-- Whether a word goes on with the text.
abbrev goes_on : Text → Bool
goes_on [] = false
goes_on (c ∷ cs) = not (is_space c)

-- `strings.Fields`: the words of a text.
unfoldable pub fields : Text → List Text
unfolding push_first is_space
fields [] = []
fields (c ∷ cs) =
    let rest = fields cs in
    if is_space c then rest else (if goes_on cs then push_first c rest else (c ∷ []) ∷ rest)

abbrev pub blank : Text
blank = 32 ∷ []

-- The words that follow others.
after_words : List Text → Text
after_words [] = []
after_words (w ∷ ws) = 32 ∷ join blank (w ∷ ws)

join-push_first : (c : ℕ) (ws : List Text) → join blank (push_first c ws) ≡ c ∷ join blank ws
unfolding push_first join
join-push_first c [] = refl
join-push_first c (w ∷ []) = refl
join-push_first c (w ∷ v ∷ ws) = refl

join-cons : (c : ℕ) (ws : List Text) → join blank ((c ∷ []) ∷ ws) ≡ c ∷ after_words ws
unfolding after_words join
join-cons c [] = refl
join-cons c (w ∷ ws) = refl

after-push_first : (c : ℕ) (ws : List Text) → after_words (push_first c ws) ≡ 32 ∷ c ∷ join blank ws
unfolding after_words push_first join
after-push_first c [] = refl
after-push_first c (w ∷ []) = refl
after-push_first c (w ∷ v ∷ ws) = refl

after-cons : (c : ℕ) (ws : List Text) → after_words ((c ∷ []) ∷ ws) ≡ 32 ∷ c ∷ after_words ws
unfolding after_words
after-cons c ws = ap (λ t. 32 ∷ t) (join-cons c ws)

mutual
  unfolding collapse fields after_words join

  collapse_start : (space : Bool) (s : Text) → collapse space false s ≡ join blank (fields s)
  collapse_start space [] = refl
  collapse_start space (c ∷ cs) = ground (
    arith,
    collapse_start true cs,
    collapse_word cs,
    join-push_first c (fields cs),
    join-cons c (fields cs),
  )

  collapse_space : (s : Text) → collapse true true s ≡ after_words (fields s)
  collapse_space [] = refl
  collapse_space (c ∷ cs) = ground (
    arith,
    collapse_space cs,
    collapse_word cs,
    after-push_first c (fields cs),
    after-cons c (fields cs),
  )

  collapse_word :
      (s : Text)
      → collapse false true s
        ≡ (if goes_on s then join blank (fields s) else after_words (fields s))
  collapse_word [] = refl
  collapse_word (c ∷ cs) = ground (
    arith,
    collapse_space cs,
    collapse_word cs,
    join-push_first c (fields cs),
    join-cons c (fields cs),
  )

length-take-le {ℓ} : {A : Type ℓ} (n : ℕ) (xs : List A) → length (take n xs) ≤ n
unfolding take
length-take-le zero xs = omega arith
length-take-le (suc n) [] = omega arith
length-take-le (suc n) (x ∷ xs) = omega (arith, length-take-le n xs)

length-bounded : (out : Text) → length (bounded out) ≤ max_statement_length
unfolding bounded
length-bounded out = elim (Bool-cases (leb (length out) max_statement_length)) [
  | inl e ↦ rw e (leb→le (length out) max_statement_length e)
  | inr e ↦ rw (e, length-append (take 197 out) marker) (omega (arith, length-take-le 197 out))
]

-- The stored form of a statement has at most 200 characters, whatever the statement.
pub length-normalize_statement : (s : Text) → length (normalize_statement s) ≤ max_statement_length
unfolding normalize_statement
length-normalize_statement s = length-bounded (collapse false false s)

-- The stored form of a statement is its words with one space between them, cut to the bound: two
-- statements that differ in white space alone are stored alike.
pub normalize_statement-eq-fields :
    (s : Text) → normalize_statement s ≡ bounded (join blank (fields s))
unfolding normalize_statement
normalize_statement-eq-fields s = ap bounded (collapse_start false s)
