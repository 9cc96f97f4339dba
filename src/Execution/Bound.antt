-- ===== src/Execution/Bound.antt =====
-- What binding a SELECT gives its execution.
use database_management_syst.Prelude.{
  ℕ, zero, suc, ◌+◌, ◌<◌, ◌≡◌, refl, subst, List, [], ◌∷◌, Bool, true, false, Option, none, some,
  length, get_elem?, arith,
}
use database_management_syst.Status.{Result, ok, err, bind_error, ◌>>◌, ◌>>=◌}
use database_management_syst.Binary.{Bytes}
use database_management_syst.Value.{Value}
use database_management_syst.Schema.{TableSchema, TableDescriptor, find_column_from, find_column}
use database_management_syst.Serialization.Rows.{Tuple}
use database_management_syst.Parser.Syntax.{Expr, QualifiedName, SelectItem, Statement}
use database_management_syst.Planner.Binder.{
  GetTable, resolve_db, require_db, known_column, check_items, check_where, check_table, bind_table,
  bind,
}
use database_management_syst.Catalog.Steps.{both_checks}
use database_management_syst.Tables.Prepared.{ok_same}
use database_management_syst.Execution.Select.{item_value, project_items, project_row}

find_column_from-lt :
    (k : ℕ) (name : Bytes) (schema : TableSchema) (i : ℕ)
    → find_column_from k name schema ≡ some i
    → i < k + length schema
unfolding find_column_from
find_column_from-lt k name [] i h = absurd (cc)
find_column_from-lt k name (column ∷ columns) i h =
    ground (arith, find_column_from-lt (suc k) name columns i)

get_elem?-lt : (t : Tuple) (i : ℕ) → i < length t → (v : Value) × (get_elem? t i ≡ some v)
get_elem?-lt [] i h = absurd (omega arith)
get_elem?-lt (x ∷ t) zero h = (x, refl)
get_elem?-lt (x ∷ t) (suc i) h = get_elem?-lt t i (omega arith)

module _ (schema : TableSchema) (t : Tuple) (full : length t ≡ length schema) where
  known_value :
      (item : SelectItem)
      → known_column schema item.column ≡ ok tt
      → (v : Value) × (item_value schema t item ≡ some v)
  unfolding known_column item_value find_column
  known_value item h = go (find_column_from 0 item.column schema) refl h
    where
      go :
          (found : Option ℕ)
          → find_column_from 0 item.column schema ≡ found
          → elim found as (λ _. Result (Unit {0})) [ none ↦ err bind_error | some i ↦ ok tt ]
            ≡ ok tt
          → (v : Value) × (elim found as (λ _. Option Value) [
            | none ↦ none
            | some i ↦ get_elem? t i
          ]
              ≡ some v)
      go none e h = absurd (cc)
      go (some i) e h =
          get_elem?-lt t i (omega (arith, full, find_column_from-lt 0 item.column schema i e))

  known_items :
      (items : List SelectItem)
      → check_items schema items ≡ ok tt
      → (values : Tuple) × (project_items schema t items ≡ some values)
  unfolding check_items project_items
  known_items [] h = ([], refl)
  known_items (item ∷ items) h =
      let (first, others) =
        both_checks (known_column schema item.column) (check_items schema items) h in
      let (v, e) = known_value item first in
      let (values, es) = known_items items others in
      (v ∷ values, rw (e, project_items) (rw es refl))

-- The table that a SELECT is bound to has the columns that are asked for.
bound_items :
    (get_table : GetTable) (current_db : Bytes) (name : QualifiedName) (items : List SelectItem)
    (condition : Option Expr) (table : TableDescriptor)
    → bind get_table current_db (Statement.select name false items condition) ≡ ok table
    → check_items table.schema items ≡ ok tt
unfolding bind bind_table check_table
bound_items get_table current_db name items condition table h =
    go (require_db (resolve_db current_db name.database_name))
      (get_table (resolve_db current_db name.database_name) name.table_name) h
  where
    checked :
        (found : TableDescriptor) (r : Result (Unit {0}))
        → check_items found.schema items ≡ r
        → ((r >> check_where found.schema condition) >> ok found) ≡ ok table
        → check_items table.schema items ≡ ok tt
    checked found (ok u) e h = last (check_where found.schema condition) h
      where
        last :
            (w : Result (Unit {0}))
            → (w >> ok found) ≡ ok table
            → check_items table.schema items ≡ ok tt
        last (ok u) h =
            subst (λ (d : TableDescriptor). check_items d.schema items ≡ ok tt)
              (ok_same found table h) e
        last (err code) h = absurd (cc)
    checked found (err code) e h = absurd (cc)

    go :
        (r : Result (Unit {0})) (found : Result TableDescriptor)
        → (r
            >> (found >>= λ d.
                check_table (Statement.select name false items condition) d.schema >> ok d))
          ≡ ok table
        → check_items table.schema items ≡ ok tt
    go (ok u) (ok d) h = checked d (check_items d.schema items) refl h
    go (ok u) (err code) h = absurd (cc)
    go (err code) found h = absurd (cc)

-- A SELECT that the binder accepts reads no column outside a row: each row of the table that has a value
-- for each column is projected to values.
pub project_row_bound :
    (get_table : GetTable) (current_db : Bytes) (name : QualifiedName) (select_all : Bool)
    (items : List SelectItem) (condition : Option Expr) (table : TableDescriptor) (t : Tuple)
    → bind get_table current_db (Statement.select name select_all items condition) ≡ ok table
    → length t ≡ length table.schema
    → (values : Tuple) × (project_row table.schema t select_all items ≡ some values)
unfolding project_row
project_row_bound get_table current_db name true items condition table t bound full = (t, refl)
project_row_bound get_table current_db name false items condition table t bound full =
    known_items table.schema t full items
      (bound_items get_table current_db name items condition table bound)
