-- ===== src/Execution/Select.antt =====
-- execution/seq_scan_executor.cpp and index_scan_executor.cpp: the rows of a table that a SELECT asks
-- for, by a look at every row or by one key of an index.
use database_management_syst.Prelude.{
  ℕ, List, [], ◌∷◌, map, Bool, true, not, ◌&&◌, ◌==◌, if◌then◌else◌, Option, none, some, length,
  get_elem?,
}
use database_management_syst.Prelude.Sets.{is_empty}
use database_management_syst.Status.{Result, ok, err, execution_error}
use database_management_syst.Status
use database_management_syst.Binary.{Bytes}
use database_management_syst.Value.{Value}
use database_management_syst.Schema.{ColumnSchema, TableSchema, find_column}
use database_management_syst.Serialization.Rows.{Row, Tuple}
use database_management_syst.Parser.Syntax.{
  eq, and, or, Expr, column_ref, literal, binary, logical, SelectItem,
}
use database_management_syst.Evaluation.{RegexMatch, truthy, evaluate}
use database_management_syst.Execution.Engine.{EngineM, ◌>>=◌, return, lift, Engine, QueryResult}

-- The evaluator's status, and the value if it is a true boolean.
unfoldable pub matches : RegexMatch → Option Expr → TableSchema → Tuple → Result Bool
unfolding evaluate truthy
matches regex none schema tuple = ok true
matches regex (some predicate) schema tuple =
    Status.◌>>=◌ (evaluate regex schema tuple predicate) (λ value. ok (truthy value))

unfoldable pub item_name : SelectItem → Bytes
unfolding is_empty
item_name item = if is_empty item.alias then item.column else item.alias

unfoldable pub fill_columns : TableSchema → Bool → List SelectItem → List Bytes
unfolding item_name
fill_columns schema select_all items =
    if select_all then map (λ (column : ColumnSchema). column.name) schema else map item_name items

unfoldable pub item_value : TableSchema → Tuple → SelectItem → Option Value
unfolding find_column
item_value schema tuple item = elim (find_column schema item.column) [
  | none ↦ none
  | some index ↦ get_elem? tuple index
]

unfoldable pub project_items : TableSchema → Tuple → List SelectItem → Option Tuple
unfolding item_value
project_items schema tuple [] = some []
project_items schema tuple (item ∷ items) = elim (item_value schema tuple item) [
  | none ↦ none
  | some value ↦ elim (project_items schema tuple items) [
    | none ↦ none
    | some values ↦ some (value ∷ values)
  ]
]

unfoldable pub project_row : TableSchema → Tuple → Bool → List SelectItem → Option Tuple
unfolding project_items
project_row schema tuple select_all items =
    if select_all then some tuple else project_items schema tuple items

-- What a SELECT asks of each row.
pub record Query : Type 0 where
  pub select_all : Bool
  pub columns : List SelectItem
  pub predicate : Option Expr

-- The loop over the rows, those that `keep` refuses skipped. The first evaluation that fails ends it.
unfoldable pub collect_rows :
    RegexMatch → TableSchema → Query → (Row → Bool) → List Row → Result (List (Option Tuple))
unfolding matches project_row
collect_rows regex schema q keep [] = ok []
collect_rows regex schema q keep (row ∷ rows) =
    let rest = collect_rows regex schema q keep rows in
    let found : Result (List (Option Tuple)) =
      Status.◌>>=◌ (matches regex q.predicate schema row.tuple) (λ hit. Status.◌>>=◌ rest (λ out.
        ok (if hit then project_row schema row.tuple q.select_all q.columns ∷ out else out))) in
    if keep row then found else rest

unfoldable pub is_active : Row → Bool
is_active row = not row.deleted

unfoldable pub is_active_at : ℕ → Row → Bool
unfolding is_active
is_active_at rid row = is_active row && row.rid == rid

unfoldable pub with_rows : TableSchema → Query → List (Option Tuple) → QueryResult
unfolding fill_columns
with_rows schema q rows = record {
  columns = fill_columns schema q.select_all q.columns;
  rows = rows;
  affected_rows = length rows;
}

-- The literal of the first comparison `column == literal` that no OR stands above.
unfoldable pub equality_key : Expr → Option Value
equality_key (logical and left right) = elim (equality_key left) [
  | none ↦ equality_key right
  | some key ↦ some key
]
equality_key (logical or left right) = none
equality_key (binary eq (column_ref name) (literal key)) = some key
equality_key (binary eq (literal key) (column_ref name)) = some key
equality_key e = none

unfoldable pub extract_equality_key : Option Expr → Result Value
unfolding equality_key
extract_equality_key none = err execution_error
extract_equality_key (some e) = elim (equality_key e) [
  | none ↦ err execution_error
  | some key ↦ ok key
]

module _ {S : Type 0} (engine : Engine S) (regex : RegexMatch) (db table : Bytes) (q : Query) where
  unfoldable pub seq_scan : EngineM S QueryResult
  unfolding collect_rows is_active with_rows
  seq_scan = do
    descriptor ← engine.get_table_descriptor db table
    rows ← engine.scan_table db table
    out ← lift (collect_rows regex descriptor.schema q is_active rows)
    return (with_rows descriptor.schema q out)

  -- The scan behind a look into the index.
  unfoldable pub scan_found : TableSchema → Option ℕ → EngineM S QueryResult
  unfolding collect_rows is_active_at with_rows
  scan_found schema none = return (with_rows schema q [])
  scan_found schema (some rid) = do
    rows ← engine.scan_table db table
    out ← lift (collect_rows regex schema q (is_active_at rid) rows)
    return (with_rows schema q out)

  unfoldable pub index_scan : Bytes → EngineM S QueryResult
  unfolding extract_equality_key scan_found
  index_scan index_name = do
    descriptor ← engine.get_table_descriptor db table
    key ← lift (extract_equality_key q.predicate)
    rid ← engine.find_key index_name key
    scan_found descriptor.schema rid
