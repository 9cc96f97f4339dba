-- ===== src/Tables.antt =====
-- storage/table_storage.cpp: a table's rows behind the check of their tuples against the schema.
pub mod Prepared
pub mod Columns
mod Examples
use database_management_syst.Prelude.{
  ℕ, List, [], ◌∷◌, Bool, true, false, if◌then◌else◌, ltb, Option, none, some, length,
}
use database_management_syst.Prelude.Sets.{is_empty}
use database_management_syst.Status.{Result, ok, err, invalid_argument, internal_error, ◌>>=◌, ◌>>◌}
use database_management_syst.Value.{Value, null, int, string, bool}
use database_management_syst.Schema.{
  ColumnType, int_column, string_column, bool_column, unknown, ColumnSchema, TableSchema,
  TableDescriptor,
}
use database_management_syst.Serialization.Rows.{Row, Tuple}
use database_management_syst.RowStore.State.{RowStore, StoreM}
use database_management_syst.RowStore.Methods.{
  open_store, insert, get, update, delete, scan, restore, active_row,
}

pub record TableStorage : Type 0 where
  pub descriptor : TableDescriptor
  pub row_store : RowStore
  pub is_open : Bool

-- The switch on the column's type; a number that is no enumerator has no case.
unfoldable pub check_type : ColumnType → Value → Result (Unit {0})
check_type int_column (int v) = ok tt
check_type bool_column (bool v) = ok tt
check_type string_column (string v) = ok tt
check_type (unknown n) value = ok tt
check_type type value = err invalid_argument

unfoldable pub validate_value : Value → ColumnSchema → Result (Unit {0})
unfolding check_type
validate_value null column = if column.not_null then err invalid_argument else ok tt
validate_value value column = check_type column.type value

-- The value of a column that the tuple does not reach.
unfoldable pub missing_value : ColumnSchema → Result Value
missing_value column = elim column.default_value [
  | none ↦ if column.not_null then err invalid_argument else ok null
  | some candidate ↦ validate_value candidate column >> ok candidate
]

-- The loop of `PrepareTupleForWrite` over the columns.
unfoldable pub fill_columns : TableSchema → Tuple → Result Tuple
fill_columns [] values = ok []
fill_columns (column ∷ columns) [] = do
  value ← missing_value column
  rest ← fill_columns columns []
  ok (value ∷ rest)
fill_columns (column ∷ columns) (value ∷ values) = do
  validate_value value column
  rest ← fill_columns columns values
  ok (value ∷ rest)

unfoldable pub prepare_tuple : TableSchema → Tuple → Result Tuple
unfolding is_empty
prepare_tuple schema input =
    if is_empty schema
    then err internal_error
    else if ltb (length schema) (length input)
    then err invalid_argument
    else fill_columns schema input

abbrev pub TableM : Type 0 → Type 0
TableM A = TableStorage → Result A × TableStorage

-- A call of the row store behind the check that the table is open.
on_rows : {A : Type 0} → StoreM A → TableM A
on_rows call t =
    let (r, s) = call t.row_store in
    if t.is_open then (r, record t { row_store = s }) else (err internal_error, t)

-- A call with a prepared tuple.
with_prepared : {A : Type 0} → Tuple → (Tuple → StoreM A) → TableM A
unfolding on_rows
with_prepared tuple call t = elim (prepare_tuple t.descriptor.schema tuple) [
  | ok prepared ↦ on_rows (call prepared) t
  | err code ↦ (if t.is_open then err code else err internal_error, t)
]

pub insert_tuple : Tuple → TableM ℕ
unfolding with_prepared
insert_tuple tuple = with_prepared tuple λ prepared. insert (active_row 0 prepared)

pub update_tuple : ℕ → Tuple → TableM (Unit {0})
unfolding with_prepared
update_tuple rid tuple = with_prepared tuple λ prepared. update rid prepared

pub restore_tuple : ℕ → Tuple → TableM (Unit {0})
unfolding with_prepared
restore_tuple rid tuple = with_prepared tuple λ prepared. restore (active_row rid prepared)

pub get_row : ℕ → TableM Row
unfolding on_rows
get_row rid = on_rows (get rid)

pub scan_rows : TableM (List Row)
unfolding on_rows
scan_rows = on_rows scan

pub delete_row : ℕ → TableM (Unit {0})
unfolding on_rows
delete_row rid = on_rows (delete rid)

-- The table is open once its store is.
pub open_table : TableM (Unit {0})
unfolding is_empty
open_table t =
    let (r, s) = open_store t.row_store in
    if t.is_open
    then (ok tt, t)
    else if is_empty t.descriptor.data_file
    then (err invalid_argument, t)
    else elim r [
      | ok done ↦ (ok tt, record t { row_store = s; is_open = true })
      | err code ↦ (err code, record t { row_store = s })
    ]
