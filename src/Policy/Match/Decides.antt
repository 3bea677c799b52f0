-- ===== src/Policy/Match/Decides.antt =====
-- What a glob means, and that `matchSegments` decides it (internal/policy/match.go).
use reversibility_engine.Prelude.Text.{Text}
use reversibility_engine.Prelude.{
  ◌≡◌, refl, ◌↔◌, Bool, true, false, List, [], ◌∷◌, ◌++◌, arith, any, Bool-cases, ◌⊎◌, inl, inr,
  ||-true, &&-true, sym, ◌∙◌, ◌&&◌,
}
use reversibility_engine.Policy.Match.{is_deep, segment_matches, suffixes, match_segments}

-- A list of pattern segments against the segments of a path: `**` stands for any run of segments,
-- and every other segment for one that it matches.
pub data Globs : List Text → List Text → Type 0 where
  done : Globs [] []
  deep :
      {p : Text} {ps : List Text} (skipped rest : List Text) {name : List Text}
      → is_deep p ≡ true
      → name ≡ skipped ++ rest
      → Globs ps rest
      → Globs (p ∷ ps) name
  next :
      {p n : Text} {ps ns : List Text}
      → is_deep p ≡ false
      → segment_matches p n ≡ true
      → Globs ps ns
      → Globs (p ∷ ps) (n ∷ ns)

any-suffix :
    (q : List Text → Bool) (skipped rest : List Text)
    → q rest ≡ true
    → any (suffixes (skipped ++ rest)) q ≡ true
any-suffix q [] [] h = ground arith
any-suffix q [] (r ∷ rs) h = ground arith
any-suffix q (s ∷ ss) rest h = ground (arith, any-suffix q ss rest)

suffix-of_any :
    (q : List Text → Bool) (name : List Text)
    → any (suffixes name) q ≡ true
    → (skipped : List Text) × (rest : List Text) × (name ≡ skipped ++ rest) × (q rest ≡ true)
suffix-of_any q [] h = ([], [], refl, ground arith)
suffix-of_any q (n ∷ ns) h = elim (||-true (q (n ∷ ns)) (any (suffixes ns) q) h) [
  | inl e ↦ ([], n ∷ ns, refl, e)
  | inr e ↦
      let (skipped, rest, split, hit) = suffix-of_any q ns e in (n ∷ skipped, rest, rw split, hit)
]

match_deep :
    (p : Text) (ps ns : List Text)
    → is_deep p ≡ true
    → match_segments (p ∷ ps) ns ≡ any (suffixes ns) (match_segments ps)
unfolding match_segments
match_deep p ps ns d = rw (d, match_segments)

match_next :
    (p n : Text) (ps ns : List Text)
    → is_deep p ≡ false
    → match_segments (p ∷ ps) (n ∷ ns) ≡ segment_matches p n && match_segments ps ns
unfolding match_segments
match_next p n ps ns d = ground arith

match_short : (p : Text) (ps : List Text) → is_deep p ≡ false → match_segments (p ∷ ps) [] ≡ false
unfolding match_segments
match_short p ps d = rw (d, match_segments)

Globs→match : (ps ns : List Text) → Globs ps ns → match_segments ps ns ≡ true
unfolding match_segments
Globs→match _ _ done = refl
Globs→match _ _ (deep {p} {ps} skipped rest {name} d e g) =
    match_deep p ps name d
    ∙ rw e (any-suffix (match_segments ps) skipped rest (Globs→match ps rest g))
Globs→match _ _ (next {p} {n} {ps} {ns} d m g) =
    match_next p n ps ns d ∙ ground (arith, Globs→match ps ns g)

match→Globs : (ps ns : List Text) → match_segments ps ns ≡ true → Globs ps ns
match→Globs [] [] h = done
match→Globs [] (n ∷ ns) h = absurd (unfold match_segments in ground arith)
match→Globs (p ∷ ps) ns h = split (Bool-cases (is_deep p)) ns (match→Globs ps) h
  where
    split :
        (is_deep p ≡ true) ⊎ (is_deep p ≡ false)
        → (ns : List Text) → ((rest : List Text) → match_segments ps rest ≡ true → Globs ps rest)
        → match_segments (p ∷ ps) ns ≡ true
        → Globs (p ∷ ps) ns
    split (inl d) ns ih h =
        let (skipped, rest, e, hit) =
          suffix-of_any (match_segments ps) ns (sym (match_deep p ps ns d) ∙ h) in
        deep skipped rest d e (ih rest hit)
    split (inr d) [] ih h = absurd (ground (arith, match_short p ps d))
    split (inr d) (n ∷ ns) ih h =
        let (m, r) = &&-true _ _ (sym (match_next p n ps ns d) ∙ h) in next d m (ih ns r)

-- `matchSegments` answers true exactly where the pattern describes the path: `**` for any run of
-- segments, none included, and each other segment for one that `path.Match` accepts.
pub match_segments_iff : (ps ns : List Text) → (match_segments ps ns ≡ true) ↔ Globs ps ns
match_segments_iff ps ns = (match→Globs ps ns, Globs→match ps ns)
