-- ===== src/Planner/Binder.antt =====
-- planner/binder.cpp: a statement's names and values are checked against the catalog. The catalog is
-- its GetTable at the state in which the statement is bound.
use database_management_syst.Prelude.{
  List, [], ◌∷◌, Bool, false, not, ◌&&◌, ◌||◌, ◌==◌, if◌then◌else◌, Option, none, some, length,
}
use database_management_syst.Prelude.Sets.{is_empty}
use database_management_syst.Status.{
  Result, ok, err, bind_error, constraint_violation, ◌>>=◌, ◌>>◌, require,
}
use database_management_syst.Binary.{Bytes}
use database_management_syst.Value.{
  ValueType, int_type, string_type, Value, value_type, type_number, is_null, eq_bytes,
}
use database_management_syst.Schema.{
  ColumnType, int_column, string_column, bool_column, unknown, ColumnSchema, TableSchema,
  TableDescriptor, find_column, find_column_schema,
}
use database_management_syst.Parser.Syntax.{
  Expr, column_ref, literal, binary, logical, between, like, QualifiedName, SelectItem, Statement,
}

abbrev pub GetTable : Type 0
GetTable = Bytes → Bytes → Result TableDescriptor

unfoldable pub resolve_db : Bytes → Bytes → Bytes
unfolding is_empty
resolve_db current_db explicit_db = if is_empty explicit_db then current_db else explicit_db

unfoldable pub require_db : Bytes → Result (Unit {0})
unfolding is_empty
require_db db_name = require (not (is_empty db_name)) bind_error

-- A column whose values cannot be null.
unfoldable pub is_required : ColumnSchema → Bool
is_required column = column.not_null || column.indexed

unfoldable pub has_type : ValueType → Value → Bool
unfolding value_type type_number
has_type type value = type_number (value_type value) == type_number type

-- The types of other columns are not checked.
unfoldable pub check_column_type : ColumnType → Value → Result (Unit {0})
unfolding has_type
check_column_type int_column value = require (has_type int_type value) bind_error
check_column_type string_column value = require (has_type string_type value) bind_error
check_column_type bool_column value = ok tt
check_column_type (unknown n) value = ok tt

unfoldable pub check_value_type : ColumnSchema → Value → Result (Unit {0})
unfolding is_null is_required check_column_type
check_value_type column value =
    if is_null value
    then require (not (is_required column)) constraint_violation
    else check_column_type column.type value

-- `FindColumn(name) < 0` is an error.
unfoldable pub known_column : TableSchema → Bytes → Result (Unit {0})
unfolding find_column
known_column schema name = elim (find_column schema name) [
  | none ↦ err bind_error
  | some index ↦ ok tt
]

unfoldable pub check_expr_columns : TableSchema → Expr → Result (Unit {0})
unfolding known_column
check_expr_columns schema (column_ref name) = known_column schema name
check_expr_columns schema (literal v) = ok tt
check_expr_columns schema (binary op left right) =
    check_expr_columns schema left >> check_expr_columns schema right
check_expr_columns schema (logical op left right) =
    check_expr_columns schema left >> check_expr_columns schema right
check_expr_columns schema (between value low high) =
    check_expr_columns schema value
    >> (check_expr_columns schema low >> check_expr_columns schema high)
check_expr_columns schema (like value pattern_text) =
    check_expr_columns schema value >> check_expr_columns schema pattern_text

unfoldable pub check_where : TableSchema → Option Expr → Result (Unit {0})
unfolding check_expr_columns
check_where schema none = ok tt
check_where schema (some condition) = check_expr_columns schema condition

unfoldable pub has_name : Bytes → List Bytes → Bool
unfolding eq_bytes
has_name name [] = false
has_name name (first ∷ names) = eq_bytes first name || has_name name names

-- The loop over the columns of CREATE TABLE, with the names seen before.
unfoldable pub check_new_columns : List Bytes → TableSchema → Result (Unit {0})
unfolding has_name
check_new_columns seen [] = ok tt
check_new_columns seen (column ∷ columns) = do
  require (not (has_name column.name seen)) bind_error
  require (not (column.indexed && not column.not_null)) bind_error
  check_new_columns (column.name ∷ seen) columns

unfoldable pub check_items : TableSchema → List SelectItem → Result (Unit {0})
unfolding known_column
check_items schema [] = ok tt
check_items schema (item ∷ items) = known_column schema item.column >> check_items schema items

-- A value for the column of that name.
unfoldable pub check_named_value : TableSchema → Bytes → Value → Result (Unit {0})
unfolding find_column_schema check_value_type
check_named_value schema name value = elim (find_column_schema schema name) [
  | none ↦ err bind_error
  | some column ↦ check_value_type column value
]

unfoldable pub check_insert_values : TableSchema → List Bytes → List Value → Result (Unit {0})
unfolding check_named_value
check_insert_values schema [] values = ok tt
check_insert_values schema (name ∷ names) [] = ok tt
check_insert_values schema (name ∷ names) (value ∷ values) =
    check_named_value schema name value >> check_insert_values schema names values

unfoldable pub check_insert_rows : TableSchema → List Bytes → List (List Value) → Result (Unit {0})
unfolding check_insert_values
check_insert_rows schema columns [] = ok tt
check_insert_rows schema columns (row ∷ rows) = do
  require (length row == length columns) bind_error
  check_insert_values schema columns row
  check_insert_rows schema columns rows

-- The loop over the schema that looks for required columns which the list leaves out.
unfoldable pub check_provided : List Bytes → TableSchema → Result (Unit {0})
unfolding is_required has_name
check_provided columns [] = ok tt
check_provided columns (column ∷ schema) = do
  require (not (is_required column) || has_name column.name columns) constraint_violation
  check_provided columns schema

unfoldable pub check_assignments : TableSchema → List (Bytes × Value) → Result (Unit {0})
unfolding check_named_value
check_assignments schema [] = ok tt
check_assignments schema ((name, value) ∷ assignments) =
    check_named_value schema name value >> check_assignments schema assignments

-- What a statement on a table is checked for, once the table is found.
unfoldable pub check_table : Statement → TableSchema → Result (Unit {0})
unfolding check_items check_insert_rows check_provided check_assignments check_expr_columns
    check_where is_empty
check_table (Statement.select name select_all columns condition) schema = do
  if select_all then ok tt else check_items schema columns
  check_where schema condition
check_table (Statement.insert name columns rows) schema = do
  require (not (is_empty columns)) bind_error
  check_insert_rows schema columns rows
  check_provided columns schema
check_table (Statement.update name assignments condition) schema =
    check_assignments schema assignments >> check_expr_columns schema condition
check_table (Statement.delete name condition) schema = check_expr_columns schema condition
check_table statement schema = ok tt

-- A `TableDescriptor` that nothing was assigned to.
abbrev pub no_table : TableDescriptor
no_table = record {
  database_name = [];
  table_name = [];
  data_file = [];
  index_dir = [];
  schema = [];
  indexes = [];
}

unfoldable pub bind_table : GetTable → Bytes → QualifiedName → Statement → Result TableDescriptor
unfolding resolve_db require_db check_table
bind_table get_table current_db name statement = do
  let db_name = resolve_db current_db name.database_name
  require_db db_name
  table ← get_table db_name name.table_name
  check_table statement table.schema
  ok table

-- The table that the statement is about; `no_table` where none is looked up.
unfoldable pub bind : GetTable → Bytes → Statement → Result TableDescriptor
unfolding resolve_db require_db check_new_columns bind_table
bind get_table current_db (Statement.create_table name schema) =
    require_db (resolve_db current_db name.database_name)
    >> (check_new_columns [] schema >> ok no_table)
bind get_table current_db (Statement.drop_table name) =
    bind_table get_table current_db name (Statement.drop_table name)
bind get_table current_db (Statement.insert name columns rows) =
    bind_table get_table current_db name (Statement.insert name columns rows)
bind get_table current_db (Statement.select name select_all columns condition) =
    bind_table get_table current_db name (Statement.select name select_all columns condition)
bind get_table current_db (Statement.update name assignments condition) =
    bind_table get_table current_db name (Statement.update name assignments condition)
bind get_table current_db (Statement.delete name condition) =
    bind_table get_table current_db name (Statement.delete name condition)
bind get_table current_db (Statement.revert name timestamp_ms) =
    bind_table get_table current_db name (Statement.revert name timestamp_ms)
bind get_table current_db statement = ok no_table
