-- ===== src/Examples/Digests.antt =====
-- The theorem on digests, on two changesets.
use reversibility_engine.Prelude.Text.{text}
use reversibility_engine.Prelude.{◌≡◌, refl, List, [], ◌∷◌, All, map, arith}
use reversibility_engine.Domain.Located.{ChangedFile}
use reversibility_engine.Engine.Digest.{file_fields, digest_input}
use reversibility_engine.Engine.Digest.Fields.{HasShortFields, by_path, digest_input_injective}
use reversibility_engine.Examples.Samples.{sql_file}

-- The same files listed the other way round.
abbrev two_files : List ChangedFile
two_files = sql_file (text "a.sql") ∷ sql_file (text "b.sql") ∷ []

abbrev reversed_files : List ChangedFile
reversed_files = sql_file (text "b.sql") ∷ sql_file (text "a.sql") ∷ []

short_files : All HasShortFields two_files
unfolding file_fields text
short_files = ground arith

short_reversed : All HasShortFields reversed_files
unfolding file_fields text
short_reversed = ground arith

same_digest : digest_input two_files ≡ digest_input reversed_files
unfolding digest_input text
same_digest = refl

digest_input_injective_example :
    map file_fields (by_path two_files) ≡ map file_fields (by_path reversed_files)
digest_input_injective_example =
    digest_input_injective two_files reversed_files short_files short_reversed same_digest
