-- ===== src/Examples/Policies.antt =====
-- The theorems on policies, on a concrete policy.
use reversibility_engine.Prelude.Text.{Text, text, text_eq}
use reversibility_engine.Prelude.Sort.{sort_by}
use reversibility_engine.Prelude.Result.{ok}
use reversibility_engine.Prelude.{◌≡◌, refl, ◌↔◌, true, List, [], ◌∷◌, any, keep, not}
use reversibility_engine.Domain.Verdict.{costly, severity}
use reversibility_engine.Domain.Finding.{Finding}
use reversibility_engine.Domain.Located.{Located, identity}
use reversibility_engine.Policy.Apply.{Decision, covers, apply_overrides, decide_with}
use reversibility_engine.Policy.Apply.Tighten.{AllTightened, apply_overrides-AllTightened}
use reversibility_engine.Policy.Apply.Decided.{IsDecided, decide_with-IsDecided}
use reversibility_engine.Policy.Match.{glob_match, match_segments}
use reversibility_engine.Policy.Match.Decides.{Globs, match_segments_iff}
use reversibility_engine.Policy.Ignore.{
  ignores, matcher_ignores, matcher_run, dead, matcher_ignores-eq-ignores, dead_lem,
}
use reversibility_engine.Examples.Samples.{add_column, add_index, policy, today}

abbrev hardened : Finding
hardened = record add_column { reversibility = costly }

overrides_accepted :
    apply_overrides policy (add_column ∷ add_index ∷ []) ≡ ok (hardened ∷ add_index ∷ [])
unfolding apply_overrides severity text_eq text
overrides_accepted = refl

apply_overrides-AllTightened_example :
    AllTightened policy.overrides (add_column ∷ add_index ∷ []) (hardened ∷ add_index ∷ [])
apply_overrides-AllTightened_example =
    apply_overrides-AllTightened policy (add_column ∷ add_index ∷ []) overrides_accepted

abbrev decision : Decision
decision = record {
  all_findings = hardened ∷ add_index ∷ [];
  findings = hardened ∷ [];
  waived =
      record {
        finding = add_index;
        reason = text "small table";
        expires = text "2026-02-01";
        approved_by = text "ana";
      }
      ∷ [];
  dead_waivers = [];
}

policy_decides : decide_with policy (add_column ∷ add_index ∷ []) today identity ≡ ok decision
unfolding decide_with text covers sort_by
policy_decides = refl

decide_with-IsDecided_example :
    IsDecided policy today identity (add_column ∷ add_index ∷ []) decision
decide_with-IsDecided_example =
    decide_with-IsDecided policy today identity (add_column ∷ add_index ∷ []) decision
      policy_decides

abbrev pattern_segments : List Text
pattern_segments = text "db" ∷ text "**" ∷ text "*.sql" ∷ []

abbrev path_segments : List Text
path_segments = text "db" ∷ text "old" ∷ text "1.sql" ∷ []

match_segments_iff_example :
    (match_segments pattern_segments path_segments ≡ true) ↔ Globs pattern_segments path_segments
match_segments_iff_example = match_segments_iff pattern_segments path_segments

abbrev patterns : List Text
patterns = text "vendor/**" ∷ text "docs/*" ∷ []

abbrev asked : List Located
asked = record { path = text "vendor/a.sql" } ∷ record { path = text "db/1.sql" } ∷ []

matcher_ignores-eq-ignores_example :
    (matcher_ignores patterns [] (record { path = text "vendor/a.sql" })).0
    ≡ ignores patterns (record { path = text "vendor/a.sql" })
matcher_ignores-eq-ignores_example =
    matcher_ignores-eq-ignores patterns [] (record { path = text "vendor/a.sql" })

dead_lem_example :
    dead patterns (matcher_run patterns [] asked)
    ≡ keep (λ p. not (any asked (glob_match p))) patterns
dead_lem_example = dead_lem patterns asked
