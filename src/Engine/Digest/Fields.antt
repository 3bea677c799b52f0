-- ===== src/Engine/Digest/Fields.antt =====
-- What is hashed determines the fields (internal/engine/digest.go).
use native.Mathlib.Nat
use mathlib.Core.List.{append_assoc}
use reversibility_engine.Prelude.{
  ℕ, zero, suc, ◌≡◌, ◌<◌, refl, ◌/◌, ◌%◌, ◌^◌, List, [], ◌∷◌, ◌++◌, length, arith, All, ap, ◌∙◌,
  sym, is_empty, false, map,
}
use reversibility_engine.Prelude.Text.{text_lt}
use reversibility_engine.Prelude.Sort.{sort_by, sort_by-All}
use reversibility_engine.Domain.Located.{ChangedFile}
use reversibility_engine.Engine.Digest.{
  big_endian, write_field, write_fields, file_fields, all_fields, digest_input,
}

append-cancel :
    (xs ys us vs : List ℕ) → length xs ≡ length ys → xs ++ us ≡ ys ++ vs → (xs ≡ ys) × (us ≡ vs)
append-cancel [] [] us vs h e = (refl, e)
append-cancel [] (y ∷ ys) us vs h e = absurd (ground arith)
append-cancel (x ∷ xs) [] us vs h e = absurd (ground arith)
append-cancel (x ∷ xs) (y ∷ ys) us vs h e =
    let r = append-cancel xs ys us vs (ground arith) (ground arith) in ground (arith, r.0, r.1)

length-big_endian : (k n m : ℕ) → length (big_endian k n) ≡ length (big_endian k m)
unfolding big_endian
length-big_endian zero n m = refl
length-big_endian (suc k) n m = ground (arith, length-big_endian k n m)

-- One byte further up.
shift : (k n : ℕ) → n / 256 ^ suc k ≡ n / 256 ^ k / 256
shift k n = ap (λ p. n / p) (Nat.pow-suc 256 k) ∙ sym (Nat.div-div-eq-div-mul n (256 ^ k) 256)

big_endian_injective :
    (k n m : ℕ) → n / 256 ^ k ≡ m / 256 ^ k → big_endian k n ≡ big_endian k m → n ≡ m
unfolding big_endian
big_endian_injective zero n m q e = omega arith
big_endian_injective (suc k) n m q e =
    let q' : n / 256 ^ k / 256 ≡ m / 256 ^ k / 256 = sym (shift k n) ∙ q ∙ shift k m in
    big_endian_injective k n m (byte q' (ground arith)) (ground arith)
  where
    byte :
        n / 256 ^ k / 256 ≡ m / 256 ^ k / 256
        → n / 256 ^ k % 256 ≡ m / 256 ^ k % 256
        → n / 256 ^ k ≡ m / 256 ^ k
    byte u v = omega arith

-- A length that eight bytes hold.
abbrev pub IsShort : List ℕ → Type 0
IsShort b = length b < 256 ^ 8

short_top : (b : List ℕ) → IsShort b → length b / 256 ^ 8 ≡ 0
short_top b h = Nat.div-eq_of_lt h

field-cancel :
    (b c us vs : List ℕ)
    → IsShort b
    → IsShort c
    → write_field b ++ us ≡ write_field c ++ vs
    → (b ≡ c) × (us ≡ vs)
unfolding write_field
field-cancel b c us vs h k e =
    let (front, rest) =
      append-cancel (big_endian 8 (length b)) (big_endian 8 (length c)) (b ++ us) (c ++ vs)
        (length-big_endian 8 (length b) (length c))
        (sym (append_assoc (big_endian 8 (length b)) b us)
          ∙ e
          ∙ append_assoc (big_endian 8 (length c)) c vs) in
    let same =
      big_endian_injective 8 (length b) (length c) (short_top b h ∙ sym (short_top c k)) front in
    append-cancel b c us vs same rest

is_empty-write_fields : (b : List ℕ) (bs : List (List ℕ)) → is_empty (write_fields (b ∷ bs)) ≡ false
unfolding write_fields write_field
is_empty-write_fields b bs = refl

-- The bytes that are hashed determine the fields: two lists of fields, each shorter than 2^64
-- bytes, that write the same bytes are the same list.
pub write_fields_injective :
    (bs cs : List (List ℕ))
    → All IsShort bs
    → All IsShort cs
    → write_fields bs ≡ write_fields cs
    → bs ≡ cs
unfolding write_fields
write_fields_injective [] [] h k e = refl
write_fields_injective [] (c ∷ cs) h k e = absurd (ground (arith, is_empty-write_fields c cs))
write_fields_injective (b ∷ bs) [] h k e = absurd (ground (arith, is_empty-write_fields b bs))
write_fields_injective (b ∷ bs) (c ∷ cs) h k e =
    let (same, rest) = field-cancel b c (write_fields bs) (write_fields cs) h.0 k.0 e in
    let ih = write_fields_injective bs cs h.1 k.1 rest in ground arith

-- The files in the order in which they are hashed.
abbrev pub by_path : List ChangedFile → List ChangedFile
by_path files = sort_by (λ a b. text_lt a.path b.path) files

abbrev pub HasShortFields : ChangedFile → Type 0
HasShortFields f = All IsShort (file_fields f)

all_fields-IsShort :
    (files : List ChangedFile) → All HasShortFields files → All IsShort (all_fields files)
unfolding all_fields file_fields
all_fields-IsShort [] h = tt
all_fields-IsShort (f ∷ fs) ((a, (b, (c, (d, (e, _))))), hs) =
    (a, (b, (c, (d, (e, all_fields-IsShort fs hs)))))

all_fields_injective :
    (fs gs : List ChangedFile)
    → all_fields fs ≡ all_fields gs
    → map file_fields fs ≡ map file_fields gs
unfolding all_fields file_fields
all_fields_injective [] [] e = refl
all_fields_injective [] (g ∷ gs) e = absurd (ground arith)
all_fields_injective (f ∷ fs) [] e = absurd (ground arith)
all_fields_injective (f ∷ fs) (g ∷ gs) e =
    let ih = all_fields_injective fs gs (ground arith) in ground arith

-- The bytes that `InputDigest` hashes determine the changeset: if two changesets write the same
-- bytes, and no field of theirs has 2^64 bytes, then in the order of their paths they hold the same
-- files, with the same paths, statuses and contents on both sides.
pub digest_input_injective :
    (fs gs : List ChangedFile)
    → All HasShortFields fs
    → All HasShortFields gs
    → digest_input fs ≡ digest_input gs
    → map file_fields (by_path fs) ≡ map file_fields (by_path gs)
unfolding digest_input
digest_input_injective fs gs h k e =
    let less = λ (a b : ChangedFile). text_lt a.path b.path in
    all_fields_injective (by_path fs) (by_path gs) (
      write_fields_injective (all_fields (by_path fs)) (all_fields (by_path gs))
        (all_fields-IsShort (by_path fs) (sort_by-All less HasShortFields fs h))
        (all_fields-IsShort (by_path gs) (sort_by-All less HasShortFields gs k)) e)
