-- ===== src/Postgres/Classification.antt =====
-- One row of the table of rules, resolved for a statement, and the helpers of its texts
-- (internal/analyzer/postgres/rules.go).
use reversibility_engine.Prelude.Text.{Text, text}
use reversibility_engine.Prelude.Format.{format}
use reversibility_engine.Prelude.{false, ◌≡◌, refl, [], ◌∷◌, ◌++◌, is_empty, if◌then◌else◌}
use reversibility_engine.Domain.Verdict.{Reversibility, LockHazard, unknown, lock_exclusive}
use reversibility_engine.Postgres.Statement.{Kind, Statement}

-- `classification`.
pub record Classification : Type 0 where
  pub rule_id : Text
  pub reversibility : Reversibility
  pub lock : LockHazard
  pub rationale : Text
  pub undo : Text

-- `undoUnavailable`.
unfoldable pub undo_unavailable : Text
unfolding text
undo_unavailable =
    text "/* original definition unavailable: recover from the down migration or schema history */"

-- `or`.
unfoldable pub or : Text → Text → Text
or s fallback = if is_empty s then fallback else s

-- `qualified`.
unfoldable pub qualified : Text → Text → Text
unfolding text
qualified [] [] = text "the column"
qualified [] (c ∷ column) = c ∷ column
qualified (t ∷ table) [] = t ∷ table
qualified (t ∷ table) (c ∷ column) = (t ∷ table) ++ (b'.' ∷ c ∷ column)

-- `unknown`.
unfoldable pub unclassified : Text → Classification
unfolding text
unclassified why = record {
  rule_id = text "PG027";
  reversibility = unknown;
  lock = lock_exclusive;
  rationale = why;
  undo = [];
}

-- `cteNote`.
unfoldable pub cte_note : Statement → Text
unfolding text
cte_note s =
    let note : Text =
      text
        " This is a data-modifying CTE: the statement is a SELECT node carrying a non-SELECT effect, and it is classified by that effect rather than by the node." in
    if s.in_cte then note else []

reverse_of : Kind → Text → Text
unfolding format text
reverse_of Kind.kind_grant target =
    format (text "-- REVOKE the privileges this statement granted on %s, from the same grantees.")
      (target ∷ [])
reverse_of _ target =
    format (text "-- GRANT back the privileges this statement revoked on %s, to the same grantees.")
      (target ∷ [])

-- `reverseGrant`.
unfoldable pub reverse_grant : Statement → Text
unfolding or reverse_of text
reverse_grant s = reverse_of s.kind (or s.object (text "the target"))

reverse_of-nonempty : (k : Kind) (target : Text) → is_empty (reverse_of k target) ≡ false
unfolding reverse_of format text
reverse_of-nonempty Kind.kind_grant target = refl
reverse_of-nonempty _ target = refl

-- Whichever privilege change it is, there is a statement that reverses it.
pub reverse_grant-nonempty : (s : Statement) → is_empty (reverse_grant s) ≡ false
unfolding reverse_grant
reverse_grant-nonempty s = reverse_of-nonempty s.kind (or s.object (text "the target"))
