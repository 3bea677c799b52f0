-- ===== src/Postgres/Statement.antt =====
-- What the SQL parser hands to the rules (internal/analyzer/postgres/parser/parser.go): the kinds
-- of operation, column types, and one statement per operation.
use reversibility_engine.Prelude.Text.{Text, text, text_eq, join, decimal}
use reversibility_engine.Prelude.Int.{ℤ, pos, negsuc}
use reversibility_engine.Prelude.{ℕ, suc, Bool, ◌&&◌, Option, none, some, List, [], ◌∷◌, ◌++◌, map}

-- The operation that a statement performs; a `Kind` is a string, so it may be none of these.
pub data Kind : Type 0 where
  kind_unrecognized kind_drop_table kind_drop_column kind_truncate kind_drop_schema : Kind
  kind_drop_database kind_alter_column_type kind_delete kind_update : Kind
  kind_alter_sequence_restart kind_drop_type kind_drop_sequence kind_drop_extension : Kind
  kind_rename_table kind_rename_column kind_drop_constraint kind_drop_index : Kind
  kind_drop_view kind_drop_function kind_drop_trigger kind_drop_mat_view : Kind
  kind_set_not_null kind_drop_not_null kind_set_default kind_drop_default : Kind
  kind_add_column kind_add_constraint kind_create_index kind_create_table : Kind
  kind_create_view kind_replace_view kind_add_constraint_using_index : Kind
  kind_validate_constraint kind_grant kind_revoke kind_comment kind_set_variable : Kind
  kind_lock_table kind_analyze kind_vacuum kind_vacuum_full kind_replace_function : Kind
  kind_create_mat_view kind_create_mat_view_no_data kind_refresh_mat_view : Kind
  kind_refresh_mat_view_concurr kind_add_enum_value kind_create_policy kind_drop_policy : Kind
  kind_enable_rls kind_disable_rls kind_rename_index kind_set_rel_options : Kind
  kind_set_logged kind_attach_partition kind_detach_partition kind_insert kind_upsert : Kind
  kind_create_type kind_create_schema kind_create_sequence kind_create_extension : Kind
  kind_create_function kind_create_trigger : Kind
  kind_other : Text → Kind

pub data ConstraintKind : Type 0 where
  constraint_none constraint_foreign_key constraint_check constraint_other : ConstraintKind

-- The kinds of object that symmetry pairs.
pub data ObjectType : Type 0 where
  object_table object_view object_type object_index object_schema object_sequence : ObjectType
  object_extension object_function object_trigger object_column object_constraint : ObjectType

-- The string behind an object type.
unfoldable pub object_type_text : ObjectType → Text
object_type_text object_table = text "TABLE"
object_type_text object_view = text "VIEW"
object_type_text object_type = text "TYPE"
object_type_text object_index = text "INDEX"
object_type_text object_schema = text "SCHEMA"
object_type_text object_sequence = text "SEQUENCE"
object_type_text object_extension = text "EXTENSION"
object_type_text object_function = text "FUNCTION"
object_type_text object_trigger = text "TRIGGER"
object_type_text object_column = text "COLUMN"
object_type_text object_constraint = text "CONSTRAINT"

pub record ObjectRef : Type 0 where
  pub kind : ObjectType
  pub name : Text

-- `o.String()`.
unfoldable pub ref_text : ObjectRef → Text
unfolding object_type_text
ref_text o = object_type_text o.kind ++ (b' ' ∷ o.name)

-- `a == b` on references, as a key of a map.
unfoldable pub ref_eq : ObjectRef → ObjectRef → Bool
unfolding text_eq object_type_text
ref_eq a b = text_eq (object_type_text a.kind) (object_type_text b.kind) && text_eq a.name b.name

-- A column type under its internal name, with its modifiers, which are `int32`.
pub record SqlType : Type 0 where
  pub name : Text
  pub mods : List ℤ

-- `fmt.Sprint` of an integer.
unfoldable pub signed_decimal : ℤ → Text
unfolding decimal
signed_decimal (pos n) = decimal n
signed_decimal (negsuc n) = b'-' ∷ decimal (suc n)

-- `t.String()`.
unfoldable pub type_text : SqlType → Text
unfolding signed_decimal join text
type_text t = elim t.mods [
  | [] ↦ t.name
  | _ ↦ t.name ++ (b'(' ∷ (join (text ",") (map signed_decimal t.mods) ++ text ")"))
]

pub record Column : Type 0 where
  pub name : Text
  pub type : Option SqlType

-- One operation. A nil type is `none`.
pub record Statement : Type 0 where
  pub kind : Kind
  pub sql : Text
  pub line : ℕ
  pub relation : Text
  pub object : Text
  pub new_name : Text
  pub cascade : Bool
  pub concurrent : Bool
  pub has_where : Bool
  pub not_valid : Bool
  pub index : Text
  pub in_cte : Bool
  pub column_type : Option SqlType
  pub not_null : Bool
  pub has_default : Bool
  pub volatile_default : Bool
  pub constraint_kind : ConstraintKind
  pub columns : List Column

abbrev ref : ObjectType → Text → Option ObjectRef
ref k n = some (record { kind = k; name = n })

-- `s.Relation + "." + s.Object`.
abbrev member : Statement → Text
member s = s.relation ++ (b'.' ∷ s.object)

creates_of : Kind → Statement → Option ObjectRef
creates_of kind_create_table s = ref object_table s.relation
creates_of kind_create_view s = ref object_view s.relation
creates_of kind_create_type s = ref object_type s.object
creates_of kind_create_index s = ref object_index s.object
creates_of kind_create_schema s = ref object_schema s.object
creates_of kind_create_sequence s = ref object_sequence s.relation
creates_of kind_create_extension s = ref object_extension s.object
creates_of kind_create_function s = ref object_function s.object
creates_of kind_create_trigger s = ref object_trigger s.object
creates_of kind_add_column s = ref object_column (member s)
creates_of kind_add_constraint s = ref object_constraint (member s)
creates_of _ s = none

-- `s.Creates()`.
unfoldable pub creates : Statement → Option ObjectRef
unfolding creates_of
creates s = creates_of s.kind s

drops_of : Kind → Statement → Option ObjectRef
drops_of kind_drop_table s = ref object_table s.object
drops_of kind_drop_view s = ref object_view s.object
drops_of kind_drop_type s = ref object_type s.object
drops_of kind_drop_index s = ref object_index s.object
drops_of kind_drop_schema s = ref object_schema s.object
drops_of kind_drop_sequence s = ref object_sequence s.object
drops_of kind_drop_extension s = ref object_extension s.object
drops_of kind_drop_function s = ref object_function s.object
drops_of kind_drop_trigger s = ref object_trigger s.object
drops_of kind_drop_column s = ref object_column (member s)
drops_of kind_drop_constraint s = ref object_constraint (member s)
drops_of _ s = none

-- `s.Drops()`.
unfoldable pub drops : Statement → Option ObjectRef
unfolding drops_of
drops s = drops_of s.kind s
