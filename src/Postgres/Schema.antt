-- ===== src/Postgres/Schema.antt =====
-- The tracker of the column types that a changeset declares (`schema`,
-- internal/analyzer/postgres/schema.go).
use reversibility_engine.Prelude.Assoc.{lookup, put, delete}
use reversibility_engine.Prelude.Text.{Text, to_lower}
use reversibility_engine.Prelude.{◌||◌, Option, none, some, List, [], ◌∷◌, is_empty, if◌then◌else◌}
use reversibility_engine.Postgres.Statement.{Kind, Column, SqlType, Statement}

-- The known column types of each table, under lower-cased names.
pub record Schema : Type 0 where
  pub tables : List (Text × List (Text × SqlType))

-- `newSchema`.
unfoldable pub new_schema : Schema
new_schema = record { tables = [] }

-- `key`.
unfoldable pub key : Text → Text
unfolding to_lower
key s = to_lower s

unfoldable pub columns_of : Option (List (Text × SqlType)) → List (Text × SqlType)
columns_of none = []
columns_of (some cols) = cols

-- `s.set`: nothing where a name is missing.
unfoldable pub schema_set : Schema → Text → Text → SqlType → Schema
unfolding key lookup put columns_of
schema_set s table column t = if is_empty table || is_empty column then s else record {
  tables = put (key table) (put (key column) t (columns_of (lookup (key table) s.tables))) s.tables;
}

unfoldable pub removed_from : Option (List (Text × SqlType)) → Schema → Text → Text → Schema
unfolding key put delete
removed_from none s table column = s
removed_from (some cols) s table column = record {
  tables = put (key table) (delete (key column) cols) s.tables;
}

-- `s.remove`: the map of the table is shared, so what is deleted from it is gone from the schema.
unfoldable pub schema_remove : Schema → Text → Text → Schema
unfolding key lookup removed_from
schema_remove s table column = removed_from (lookup (key table) s.tables) s table column

unfoldable pub column_in : Option (List (Text × SqlType)) → Text → Option SqlType
unfolding lookup
column_in none column = none
column_in (some cols) column = lookup column cols

-- `s.columnType`.
unfoldable pub column_type_of : Schema → Text → Text → Option SqlType
unfolding key lookup column_in
column_type_of s table column = column_in (lookup (key table) s.tables) (key column)

-- `s.set` where the type is known.
unfoldable pub set_known : Schema → Text → Text → Option SqlType → Schema
unfolding schema_set
set_known s table column none = s
set_known s table column (some t) = schema_set s table column t

-- The columns of `CREATE TABLE`, in order.
unfoldable pub set_columns : Schema → Text → List Column → Schema
unfolding set_known
set_columns s table [] = s
set_columns s table (c ∷ cs) = set_columns (set_known s table c.name c.type) table cs

-- `delete(s.tables, key(table))`.
unfoldable pub drop_table_of : Schema → Text → Schema
unfolding key delete
drop_table_of s table = record { tables = delete (key table) s.tables }

unfoldable pub apply_kind : Kind → Schema → Statement → Schema
unfolding set_columns set_known schema_remove drop_table_of
apply_kind Kind.kind_create_table s st = set_columns s st.relation st.columns
apply_kind Kind.kind_add_column s st = set_known s st.relation st.object st.column_type
apply_kind Kind.kind_alter_column_type s st = set_known s st.relation st.object st.column_type
apply_kind Kind.kind_drop_column s st = schema_remove s st.relation st.object
apply_kind Kind.kind_drop_table s st = drop_table_of s st.object
apply_kind _ s st = s

-- `s.apply`.
unfoldable pub schema_apply : Schema → Statement → Schema
unfolding apply_kind
schema_apply s st = apply_kind st.kind s st
