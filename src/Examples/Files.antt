-- ===== src/Examples/Files.antt =====
-- The theorems on policy files, on a small one.
use reversibility_engine.Prelude.Text.{Text, text}
use reversibility_engine.Prelude.Int.{pos}
use reversibility_engine.Prelude.Result.{ok}
use reversibility_engine.Prelude.{ℕ, ◌≡◌, refl, List, [], ◌∷◌, ◌++◌}
use reversibility_engine.Domain.Verdict.{costly, verdict_text, verdict_of}
use reversibility_engine.Domain.Verdict
use reversibility_engine.Domain.Grade
use reversibility_engine.Domain.Grade.{grade_of}
use reversibility_engine.Policy.Apply.{Policy}
use reversibility_engine.Policy.Load.{File, validate_waiver, validate_override}
use reversibility_engine.Policy.Load.Resolve.{resolve, policy_digest}
use reversibility_engine.Policy.Load.Resolve.Loaded.{
  IsLoaded, resolve-IsLoaded, policy_digest-ambiguous,
}
use reversibility_engine.Examples.Samples.{policy, today}

abbrev constant : List ℕ → Text
constant bytes = []

-- The file of the sample policy, with the spaces and the small letters that a person writes.
abbrev file : File
file = record {
  version = pos 1;
  gate = text "b";
  ignore = [];
  waivers = policy.waivers;
  overrides = policy.overrides;
  terraform_types = [];
}

abbrev loaded : Policy
loaded = record policy { digest = [] }

file_loads : resolve constant file (text ".reversibility.yml") today ≡ ok loaded
unfolding resolve text validate_waiver validate_override verdict_text verdict_of grade_of
    Grade.is_valid Verdict.is_valid
file_loads = refl

resolve-IsLoaded_example : IsLoaded today loaded
resolve-IsLoaded_example =
    resolve-IsLoaded constant file (text ".reversibility.yml") today loaded file_loads

abbrev plain : Policy
plain = record policy { waivers = [] }

policy_digest-ambiguous_example :
    policy_digest constant
      (record plain { ignore = plain.ignore ++ (text "PG001" ∷ verdict_text costly ∷ []) })
    ≡ policy_digest constant (record plain {
      overrides = record { rule = text "PG001"; severity_set = costly } ∷ plain.overrides;
    })
policy_digest-ambiguous_example = policy_digest-ambiguous constant plain (text "PG001") costly refl
