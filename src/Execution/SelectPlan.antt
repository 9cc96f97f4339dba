-- ===== src/Execution/SelectPlan.antt =====
-- What a SELECT answers, from its statement to its rows, against a look at every row.
use database_management_syst.Prelude.{
  ℕ, ◌≡◌, refl, ap, sym, ◌∙◌, List, [], Bool, Option, none, some, All,
}
use database_management_syst.Status.{Result, ok, err}
use database_management_syst.Binary.{Bytes}
use database_management_syst.Value.{Value}
use database_management_syst.Schema.{TableDescriptor}
use database_management_syst.Serialization.Rows.{Row, Tuple}
use database_management_syst.Parser.Syntax.{Expr, QualifiedName, SelectItem, Statement}
use database_management_syst.Planner.Plans.{PhysicalPlan}
use database_management_syst.Planner.Binder.{resolve_db, bind}
use database_management_syst.Planner.Build.{
  index_of_column, indexed_equality, clone_expr, find_indexed_equality, select_plan, plan_of,
  build_logical_plan, physical_plan, build_physical_plan,
}
use database_management_syst.Evaluation.{RegexMatch}
use database_management_syst.Execution.Engine.{Engine, QueryResult}
use database_management_syst.Execution.Select.{
  Query, collect_rows, is_active, is_active_at, extract_equality_key, seq_scan, scan_found,
  index_scan, with_rows,
}
use database_management_syst.Execution.Execute.{
  QueryAnswer, answered, execute_failed, execute, run_plan, run_statement,
}
use database_management_syst.Execution.IndexChoice.{
  copy_expr_lem, FirstEquality, equality_key-FirstEquality, indexed_equality-FirstEquality, Finds,
  Evaluates, select_query, collect-none, collect-some,
}

abbrev answer_of : Result QueryResult → QueryAnswer
answer_of result = elim result [ ok out ↦ answered out | err code ↦ execute_failed code ]

key_of_first :
    {column_name : Bytes} {key : Value} {e : Expr}
    → FirstEquality column_name key e
    → extract_equality_key (some e) ≡ ok key
unfolding extract_equality_key
key_of_first first = rw (equality_key-FirstEquality first, extract_equality_key) refl

module _ {S : Type 0} (engine : Engine S) (regex : RegexMatch) (name : QualifiedName)
    (select_all : Bool) (items : List SelectItem) (e : Expr) (current_db : Bytes) (s : S) where
  abbrev statement : Statement
  statement = Statement.select name select_all items (some e)

  abbrev db_name : Bytes
  db_name = resolve_db current_db name.database_name

  abbrev query : Query
  query = select_query select_all items e

  -- A SELECT whose condition has an indexed comparison is planned as its index's scan.
  index_plan :
      (table : TableDescriptor) (index_name : Bytes)
      → bind (engine.get_table s) current_db statement ≡ ok table
      → indexed_equality table e ≡ some index_name
      → build_physical_plan (engine.get_table s) current_db statement
        ≡ ok (PhysicalPlan.index_scan db_name name.table_name index_name select_all items (some e))
  unfolding build_physical_plan build_logical_plan plan_of physical_plan select_plan
      find_indexed_equality
  index_plan table index_name bound chosen =
      rw (bound, build_logical_plan) (rw chosen (simp (copy_expr_lem, clone_expr)))

  run-index_scan :
      (table : TableDescriptor) (index_name : Bytes)
      → bind (engine.get_table s) current_db statement ≡ ok table
      → indexed_equality table e ≡ some index_name
      → (run_statement engine regex statement current_db s).0
        ≡ answer_of (index_scan engine regex db_name name.table_name query index_name s).0
  unfolding run_statement run_plan execute
  run-index_scan table index_name bound chosen =
      rw (index_plan table index_name bound chosen, run_statement) refl

  -- The answer of an index's scan, and of a look at every row.
  index_answer :
      {column_name : Bytes} {key : Value} (index_name : Bytes) (table : TableDescriptor)
      (found : Option ℕ)
      → FirstEquality column_name key e
      → engine.get_table_descriptor db_name name.table_name s ≡ (ok table, s)
      → engine.find_key index_name key s ≡ (ok found, s)
      → index_scan engine regex db_name name.table_name query index_name s
        ≡ scan_found engine regex db_name name.table_name query table.schema found s
  unfolding index_scan extract_equality_key
  index_answer index_name table found first described looked =
      rw described (rw (key_of_first first) (rw looked refl))

  -- What the loop over the rows leads to.
  abbrev collected : TableDescriptor → Result (List (Option Tuple)) → QueryAnswer
  collected table out = answer_of (elim out as (λ _. Result QueryResult) [
    | ok rows ↦ ok (with_rows table.schema query rows)
    | err code ↦ err code
  ])

  seq_answer :
      (table : TableDescriptor) (rows : List Row) (s' : S) (out : Result (List (Option Tuple)))
      → engine.get_table_descriptor db_name name.table_name s ≡ (ok table, s)
      → engine.scan_table db_name name.table_name s ≡ (ok rows, s')
      → collect_rows regex table.schema query is_active rows ≡ out
      → answer_of (seq_scan engine regex db_name name.table_name query s).0 ≡ collected table out
  unfolding seq_scan
  seq_answer table rows s' (ok out) described scanned c = rw described (rw scanned (rw c refl))
  seq_answer table rows s' (err code) described scanned c = rw described (rw scanned (rw c refl))

  run-seq_scan :
      (run_plan engine regex
        (PhysicalPlan.seq_scan db_name name.table_name select_all items (some e))
        current_db
        s).0
      ≡ answer_of (seq_scan engine regex db_name name.table_name query s).0
  unfolding run_plan execute
  run-seq_scan = refl

  rid_answer :
      (table : TableDescriptor) (rid : ℕ) (rows : List Row) (s' : S)
      (out : Result (List (Option Tuple)))
      → engine.scan_table db_name name.table_name s ≡ (ok rows, s')
      → collect_rows regex table.schema query (is_active_at rid) rows ≡ out
      → answer_of
          (scan_found engine regex db_name name.table_name query table.schema (some rid) s).0
        ≡ collected table out
  unfolding scan_found
  rid_answer table rid rows s' (ok out) scanned c = rw scanned (rw c refl)
  rid_answer table rid rows s' (err code) scanned c = rw scanned (rw c refl)

  found_answer :
      {column_name : Bytes} {key : Value} (table : TableDescriptor) (found : Option ℕ)
      (rows : List Row) (s' : S)
      → FirstEquality column_name key e
      → engine.scan_table db_name name.table_name s ≡ (ok rows, s')
      → All (Evaluates regex table.schema e) rows
      → All (Finds table.schema column_name key found) rows
      → answer_of (scan_found engine regex db_name name.table_name query table.schema found s).0
        ≡ collected table (collect_rows regex table.schema query is_active rows)
  unfolding scan_found
  found_answer table none rows s' first scanned evaluates finds =
      rw (collect-none regex table.schema select_all items first rows evaluates finds) refl
  found_answer table (some rid) rows s' first scanned evaluates finds =
      rid_answer table rid rows s' _ scanned
        (collect-some regex table.schema select_all items first rid rows evaluates finds)

  -- A SELECT on a bound table whose first comparison `column == literal` (below AND only) is on a column
  -- with an index is answered as by a look at every row: the index's scan finds the same rows in the
  -- same order. The index answers for the literal as one that is up to date, the condition's evaluation
  -- fails at no row that is not deleted, and descriptor and index are read without a change of the state.
  pub run_statement_by_index :
      {column_name : Bytes} {key : Value} (index_name : Bytes) (table : TableDescriptor)
      (found : Option ℕ) (rows : List Row) (s' : S)
      → FirstEquality column_name key e
      → bind (engine.get_table s) current_db statement ≡ ok table
      → index_of_column table column_name ≡ some index_name
      → engine.get_table_descriptor db_name name.table_name s ≡ (ok table, s)
      → engine.find_key index_name key s ≡ (ok found, s)
      → engine.scan_table db_name name.table_name s ≡ (ok rows, s')
      → All (Evaluates regex table.schema e) rows
      → All (Finds table.schema column_name key found) rows
      → (run_statement engine regex statement current_db s).0
        ≡ (run_plan engine regex
            (PhysicalPlan.seq_scan db_name name.table_name select_all items (some e))
            current_db
            s).0
  run_statement_by_index index_name table found rows s' first bound indexed described looked scanned
        evaluates finds =
      run-index_scan table index_name bound (indexed_equality-FirstEquality table first indexed)
      ∙ ap (λ result. answer_of result.0)
          (index_answer index_name table found first described looked)
      ∙ found_answer table found rows s' first scanned evaluates finds
      ∙ sym (seq_answer table rows s' _ described scanned refl)
      ∙ sym run-seq_scan

  -- The planner takes the index of any comparison below AND, but its scan looks there for the literal of
  -- the first one. If the index has no such key, the SELECT answers no rows, whatever the table holds.
  -- The table is bound, and its descriptor and the index are read without a change of the state.
  pub run_statement_other_column :
      {column_name : Bytes} {key : Value} (index_name : Bytes) (table : TableDescriptor)
      → FirstEquality column_name key e
      → bind (engine.get_table s) current_db statement ≡ ok table
      → indexed_equality table e ≡ some index_name
      → engine.get_table_descriptor db_name name.table_name s ≡ (ok table, s)
      → engine.find_key index_name key s ≡ (ok none, s)
      → (run_statement engine regex statement current_db s).0
        ≡ answered (with_rows table.schema query [])
  unfolding scan_found
  run_statement_other_column index_name table first bound chosen described looked =
      run-index_scan table index_name bound chosen
      ∙ ap (λ result. answer_of result.0)
          (index_answer index_name table none first described looked)
