-- ===== src/Engine/Digest.antt =====
-- The digests of the engine (internal/engine/digest.go). SHA-256 in hex is a parameter.
pub mod Fields
use reversibility_engine.Prelude.Text.{Text, text, text_lt}
use reversibility_engine.Prelude.Sort.{sort_by}
use reversibility_engine.Prelude.{ℕ, zero, suc, ◌/◌, ◌%◌, ◌^◌, List, [], ◌∷◌, ◌++◌, length}
use reversibility_engine.Domain.Located.{
  ChangedFile, ChangeStatus, added, modified, removed, renamed,
}

-- `binary.BigEndian.PutUint64`, for the `k` lowest bytes.
unfoldable pub big_endian : ℕ → ℕ → List ℕ
big_endian zero n = []
big_endian (suc k) n = (n / 256 ^ k % 256) ∷ big_endian k n

-- `writeField`: the length in eight bytes, then the bytes.
unfoldable pub write_field : List ℕ → List ℕ
unfolding big_endian
write_field b = big_endian 8 (length b) ++ b

-- The string behind a status.
unfoldable pub status_text : ChangeStatus → Text
status_text added = text "ADDED"
status_text modified = text "MODIFIED"
status_text removed = text "REMOVED"
status_text renamed = text "RENAMED"
status_text (ChangeStatus.other s) = s

unfoldable pub write_fields : List (List ℕ) → List ℕ
unfolding write_field
write_fields [] = []
write_fields (b ∷ bs) = write_field b ++ write_fields bs

-- The fields of a file, in the order in which they are hashed.
unfoldable pub file_fields : ChangedFile → List (List ℕ)
unfolding status_text
file_fields f = f.path ∷ f.previous_path ∷ status_text f.status ∷ f.previous ∷ f.current ∷ []

unfoldable pub all_fields : List ChangedFile → List (List ℕ)
unfolding file_fields
all_fields [] = []
all_fields (f ∷ fs) = file_fields f ++ all_fields fs

-- The bytes that `InputDigest` hashes.
unfoldable pub digest_input : List ChangedFile → List ℕ
unfolding write_fields all_fields sort_by text_lt
digest_input files = write_fields (all_fields (sort_by (λ a b. text_lt a.path b.path) files))

module _ (hash : List ℕ → Text) where
  -- `InputDigest`.
  unfoldable pub input_digest : List ChangedFile → Text
  unfolding digest_input
  input_digest files = hash (digest_input files)

  -- `combineDigests`.
  unfoldable pub combine_digests : Text → Text → Text
  unfolding write_field
  combine_digests input policy = hash (write_field input ++ write_field policy)
