-- ===== src/Execution/Write.antt =====
-- execution/insert_executor.cpp, update_executor.cpp and delete_executor.cpp: a row at a time, and what
-- was done before a failure stays.
use database_management_syst.Prelude.{
  ℕ, suc, List, [], ◌∷◌, Bool, true, false, not, ◌&&◌, ◌==◌, if◌then◌else◌, Option, none, some,
  length, get_elem?, set, replicate,
}
use database_management_syst.Status.{
  Result, ok, err, execution_error, constraint_violation, require, ◌>>◌,
}
use database_management_syst.Status
use database_management_syst.Binary.{Bytes}
use database_management_syst.Value.{Value, null, is_null}
use database_management_syst.Schema.{ColumnSchema, TableSchema, find_column}
use database_management_syst.Serialization.Rows.{Row, Tuple}
use database_management_syst.Parser.Syntax.{Expr}
use database_management_syst.Planner.Binder.{is_required, has_name}
use database_management_syst.Evaluation.{RegexMatch}
use database_management_syst.Execution.Engine.{
  EngineM, ◌>>=◌, return, lift, Engine, QueryResult, affected,
}
use database_management_syst.Execution.Select.{matches}

-- The loop of BuildTuple over the named values, with the names seen before.
unfoldable pub place_values :
    TableSchema → List Bytes → List Bytes → List Value → Tuple → Result Tuple
unfolding has_name find_column
place_values schema seen [] values tuple = ok tuple
place_values schema seen (name ∷ names) [] tuple = ok tuple
place_values schema seen (name ∷ names) (value ∷ values) tuple =
    require (not (has_name name seen)) execution_error >> elim (find_column schema name) [
      | none ↦ err execution_error
      | some index ↦ place_values schema (name ∷ seen) names values (set tuple index value)
    ]

-- A null gives way to the column's default.
unfoldable pub value_or_default : ColumnSchema → Value → Value
unfolding is_null
value_or_default column value = elim column.default_value [
  | none ↦ value
  | some default ↦ if is_null value then default else value
]

-- The loop of BuildTuple over the columns; the tuple is as long as the schema.
unfoldable pub apply_defaults : TableSchema → Tuple → Result Tuple
unfolding value_or_default is_required is_null
apply_defaults [] tuple = ok []
apply_defaults (column ∷ columns) [] = ok []
apply_defaults (column ∷ columns) (value ∷ tuple) =
    let filled = value_or_default column value in
    require (not (is_null filled && is_required column)) constraint_violation
    >> Status.◌>>=◌ (apply_defaults columns tuple) (λ rest. ok (filled ∷ rest))

unfoldable pub build_tuple : TableSchema → List Bytes → List Value → Result Tuple
unfolding place_values apply_defaults
build_tuple schema columns values =
    require (length columns == length values) execution_error
    >> Status.◌>>=◌ (place_values schema [] columns values (replicate (length schema) null))
        (apply_defaults schema)

-- A value is written at its column. A row has a value for each column of its table; a write
-- outside it, which is undefined, changes nothing here.
unfoldable pub assign_value : TableSchema → Tuple → Bytes → Value → Result Tuple
unfolding find_column is_null is_required
assign_value schema tuple name value = elim (find_column schema name) [
  | none ↦ err execution_error
  | some index ↦ elim (get_elem? schema index) [
    | none ↦ err execution_error
    | some column ↦
        require (not (is_null value && is_required column)) constraint_violation
        >> ok (set tuple index value)
  ]
]

unfoldable pub assign_values : TableSchema → Tuple → List (Bytes × Value) → Result Tuple
unfolding assign_value
assign_values schema tuple [] = ok tuple
assign_values schema tuple ((name, value) ∷ assignments) =
    Status.◌>>=◌ (assign_value schema tuple name value)
      (λ tuple. assign_values schema tuple assignments)

-- A row that matches is changed and counted.
unfoldable pub change_if : {S : Type 0} → Bool → EngineM S (Unit {0}) → EngineM S ℕ → EngineM S ℕ
change_if false change rest = rest
change_if true change rest = do changed ← change; n ← rest; return (suc n)

module _ {S : Type 0} (engine : Engine S) (regex : RegexMatch) (db table : Bytes) where
  unfoldable pub insert_rows : TableSchema → List Bytes → List (List Value) → EngineM S ℕ
  unfolding build_tuple
  insert_rows schema columns [] = return 0
  insert_rows schema columns (values ∷ rows) = do
    tuple ← lift (build_tuple schema columns values)
    rid ← engine.insert_row db table tuple
    n ← insert_rows schema columns rows
    return (suc n)

  unfoldable pub execute_insert : List Bytes → List (List Value) → EngineM S QueryResult
  unfolding insert_rows
  execute_insert columns rows = do
    descriptor ← engine.get_table_descriptor db table
    n ← insert_rows descriptor.schema columns rows
    return (affected n)

  -- The loop of UPDATE and of DELETE: what is done to each row that matches.
  unfoldable pub change_rows :
      TableSchema → Option Expr → (Row → EngineM S (Unit {0})) → List Row → EngineM S ℕ
  unfolding matches change_if
  change_rows schema predicate change [] = return 0
  change_rows schema predicate change (row ∷ rows) =
      let rest = change_rows schema predicate change rows in
      let tested : EngineM S ℕ = lift (matches regex predicate schema row.tuple) >>= λ hit.
      change_if hit (change row) rest in
      if row.deleted then rest else tested

  unfoldable pub update_one : TableSchema → List (Bytes × Value) → Row → EngineM S (Unit {0})
  unfolding assign_values
  update_one schema assignments row = do
    updated ← lift (assign_values schema row.tuple assignments)
    engine.update_row db table row.rid updated

  unfoldable pub delete_one : Row → EngineM S (Unit {0})
  delete_one row = engine.delete_row db table row.rid

  unfoldable pub execute_update : List (Bytes × Value) → Option Expr → EngineM S QueryResult
  unfolding change_rows update_one
  execute_update assignments predicate = do
    descriptor ← engine.get_table_descriptor db table
    rows ← engine.scan_table db table
    n ← change_rows descriptor.schema predicate (update_one descriptor.schema assignments) rows
    return (affected n)

  unfoldable pub execute_delete : Option Expr → EngineM S QueryResult
  unfolding change_rows delete_one
  execute_delete predicate = do
    descriptor ← engine.get_table_descriptor db table
    rows ← engine.scan_table db table
    n ← change_rows descriptor.schema predicate delete_one rows
    return (affected n)
