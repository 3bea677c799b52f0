-- ===== src/Examples/Snapshots.antt =====
-- The theorems on production data, on a table with nulls.
use reversibility_engine.Prelude.Text.{text}
use reversibility_engine.Prelude.Int.{ℤ, pos, pos_part, ltb_ℤ, ◌≤ℤ◌}
use reversibility_engine.Prelude.{
  ◌<◌, ◌≡◌, refl, List, not, arith, ◌+◌, ◌*◌, ◌/◌, none, some, [], ◌∷◌, ◌==◌, ℕ, Bool,
}
use reversibility_engine.Domain.Verdict.{costly, lock_full_scan}
use reversibility_engine.Domain.Grade.{rank}
use reversibility_engine.Domain.Finding.{Finding}
use reversibility_engine.Engine.Score.{ScoreInput, score}
use reversibility_engine.Postgres.Width.{width_widening, compare_types}
use reversibility_engine.Postgres.Digits.{numeric, integral_digits, compare_types-numeric}
use reversibility_engine.Snapshot.Float.{Floats}
use reversibility_engine.Snapshot.Lookup.{Set}
use reversibility_engine.Snapshot.Apply.{enrich, ratchet, enrich_all}
use reversibility_engine.Snapshot.Ratchet.{IsEnriched, score-enrich_all, ratchet-IsEnriched}
use reversibility_engine.Examples.Samples.{finding, input_of}

-- Fixed-point numbers of three decimals in the place of floats.
abbrev thousandths : Floats ℤ
thousandths = record {
  of_int = λ n. pos (pos_part n * 1000);
  to_int = λ x. pos (pos_part x / 1000);
  plus = λ x y. pos (pos_part x + pos_part y);
  divide = λ x y. pos (pos_part x * 1000 / pos_part y);
  times = λ x y. pos (pos_part x * pos_part y / 1000);
  less = ltb_ℤ;
  at_most = λ x y. not (ltb_ℤ y x);
  round = λ x. x;
  fixed_0 = λ x. text "1";
  fixed_1 = λ x. text "1.0";
  fixed_2 = λ x. text "1.00";
  general = λ x. text "1";
}

abbrev production : Set ℤ
production = record {
  postgres = some (record {
    tables =
        record {
          schema = text "public";
          name = text "t";
          row_estimate = pos 5000;
          size_bytes = pos 90000;
          total_size_bytes = pos 90000;
        }
        ∷ [];
    indexes = [];
    columns =
        record {
          schema = text "public";
          table = text "t";
          name = text "c";
          null_fraction = pos 20;
          average_width = pos 8;
        }
        ∷ [];
  });
  kubernetes = none;
}

abbrev not_null : Finding
not_null = record (finding (text "PG017") 3 costly lock_full_scan (text "DROP NOT NULL")) {
  subject = record { relation = text "t"; object = text "c" };
}

abbrev enriched_input : ScoreInput
enriched_input = record (input_of (not_null ∷ [])) {
  findings = enrich_all thousandths (some production) (not_null ∷ []);
}

score-enrich_all_example :
    rank (score enriched_input).grade ≤ℤ rank (score (input_of (not_null ∷ []))).grade
score-enrich_all_example =
    score-enrich_all thousandths production (input_of (not_null ∷ [])) refl (refl, tt)

ratchet-IsEnriched_example :
    IsEnriched thousandths production not_null
      (ratchet not_null (enrich thousandths production not_null))
ratchet-IsEnriched_example = ratchet-IsEnriched thousandths production not_null

abbrev is_three : ℕ → Bool
is_three n = n == 3

abbrev numbers : List ℕ
numbers = 3 ∷ 2 ∷ 3 ∷ 4 ∷ []

compare_types-numeric_example :
    (compare_types (numeric 10 2) (numeric 10 4) ≡ width_widening)
    × (integral_digits (numeric 10 4) < integral_digits (numeric 10 2))
compare_types-numeric_example = compare_types-numeric 10 2 2 (omega arith) (omega arith)
