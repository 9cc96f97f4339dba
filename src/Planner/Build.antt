-- ===== src/Planner/Build.antt =====
-- planner/planner.cpp: the plans of a statement, and the choice between a scan of the table and one by
-- an index.
use database_management_syst.Prelude.{
  List, [], ◌∷◌, ◌++◌, Bool, true, ◌&&◌, if◌then◌else◌, Option, none, some,
}
use database_management_syst.Prelude.Text.{codes}
use database_management_syst.Status.{Result, ok, err, plan_error, ◌>>=◌}
use database_management_syst.Binary.{Bytes}
use database_management_syst.Value.{eq_bytes}
use database_management_syst.Schema.{TableSchema, IndexDescriptor, TableDescriptor}
use database_management_syst.Parser.Syntax.{
  eq, and, Expr, column_ref, literal, binary, logical, between, like, SelectItem, Statement,
}
use database_management_syst.Planner.Plans.{LogicalPlan, PhysicalPlan}
use database_management_syst.Planner.Binder.{GetTable, resolve_db, bind}

unfoldable pub copy_expr : Expr → Expr
copy_expr (column_ref name) = column_ref name
copy_expr (literal v) = literal v
copy_expr (binary op left right) = binary op (copy_expr left) (copy_expr right)
copy_expr (logical op left right) = logical op (copy_expr left) (copy_expr right)
copy_expr (between value low high) = between (copy_expr value) (copy_expr low) (copy_expr high)
copy_expr (like value pattern_text) = like (copy_expr value) (copy_expr pattern_text)

unfoldable pub clone_expr : Option Expr → Option Expr
unfolding copy_expr
clone_expr none = none
clone_expr (some e) = some (copy_expr e)

-- The column of a comparison `column == literal`, on either side.
unfoldable pub column_of_equality : Expr → Option Bytes
column_of_equality (binary eq (column_ref name) (literal v)) = some name
column_of_equality (binary eq (literal v) (column_ref name)) = some name
column_of_equality e = none

unfoldable pub implicit_index_name : Bytes → Bytes → Bytes
implicit_index_name table_name column_name =
    table_name ++ (codes "_" ++ (column_name ++ codes "_idx"))

unfoldable pub named_index : Bytes → List IndexDescriptor → Option Bytes
unfolding eq_bytes
named_index column_name [] = none
named_index column_name (index ∷ indexes) =
    let rest = named_index column_name indexes in
    if eq_bytes index.column_name column_name then some index.name else rest

unfoldable pub indexed_column : Bytes → Bytes → TableSchema → Option Bytes
unfolding eq_bytes implicit_index_name
indexed_column table_name column_name [] = none
indexed_column table_name column_name (column ∷ columns) =
    let rest = indexed_column table_name column_name columns in
    if eq_bytes column.name column_name && column.indexed
    then some (implicit_index_name table_name column.name)
    else rest

-- `a || b` on calls that fill an output when they answer true.
abbrev pub or_else {ℓ} : {A : Type ℓ} → Option A → Option A → Option A
or_else first second = elim first [ none ↦ second | some a ↦ some a ]

-- The index of a column: one of the descriptor's, or that of a column marked as indexed.
unfoldable pub index_of_column : TableDescriptor → Bytes → Option Bytes
unfolding named_index indexed_column
index_of_column table column_name =
    or_else (named_index column_name table.indexes)
      (indexed_column table.table_name column_name table.schema)

unfoldable pub indexed_equality : TableDescriptor → Expr → Option Bytes
unfolding column_of_equality index_of_column
indexed_equality table (logical and left right) =
    or_else (indexed_equality table left) (indexed_equality table right)
indexed_equality table e = elim (column_of_equality e) [
  | none ↦ none
  | some column_name ↦ index_of_column table column_name
]

unfoldable pub find_indexed_equality : TableDescriptor → Option Expr → Option Bytes
unfolding indexed_equality
find_indexed_equality table none = none
find_indexed_equality table (some e) = indexed_equality table e

-- The indexes of a new table: one for each column marked as indexed. Its file is chosen later.
unfoldable pub make_indexes : Bytes → TableSchema → List IndexDescriptor
unfolding implicit_index_name
make_indexes table_name [] = []
make_indexes table_name (column ∷ columns) =
    let rest = make_indexes table_name columns in
    let index : IndexDescriptor = record {
      name = implicit_index_name table_name column.name;
      table_name = table_name;
      column_name = column.name;
      file_path = [];
      unique = true;
    } in
    if column.indexed then index ∷ rest else rest

unfoldable pub make_table_descriptor : Bytes → Bytes → TableSchema → TableDescriptor
unfolding make_indexes
make_table_descriptor db_name table_name schema = record {
  database_name = db_name;
  table_name = table_name;
  data_file = [];
  index_dir = [];
  schema = schema;
  indexes = make_indexes table_name schema;
}

-- The plan of a SELECT on a bound table.
unfoldable pub select_plan :
    Bytes → Bytes → Bool → List SelectItem → Option Expr → Option Bytes → LogicalPlan
unfolding clone_expr
select_plan db table select_all columns condition (some index_name) =
    LogicalPlan.index_scan db table index_name select_all columns (clone_expr condition)
select_plan db table select_all columns condition none =
    LogicalPlan.seq_scan db table select_all columns (clone_expr condition)

-- The plan of a statement whose table is bound.
unfoldable pub plan_of : Bytes → Statement → TableDescriptor → Result LogicalPlan
unfolding resolve_db find_indexed_equality select_plan clone_expr
plan_of current_db (Statement.create_database name) table = ok (LogicalPlan.create_database name)
plan_of current_db (Statement.drop_database name) table = ok (LogicalPlan.drop_database name)
plan_of current_db (Statement.use_database name) table = ok (LogicalPlan.use_database name)
plan_of current_db (Statement.create_table name schema) table =
    ok (LogicalPlan.create_table (resolve_db current_db name.database_name) name.table_name schema)
plan_of current_db (Statement.drop_table name) table =
    ok (LogicalPlan.drop_table (resolve_db current_db name.database_name) name.table_name)
plan_of current_db (Statement.insert name columns rows) table =
    ok (LogicalPlan.insert (resolve_db current_db name.database_name) name.table_name columns rows)
plan_of current_db (Statement.select name select_all columns condition) table = ok (
    select_plan (resolve_db current_db name.database_name) name.table_name select_all columns
      condition (find_indexed_equality table condition))
plan_of current_db (Statement.update name assignments condition) table = ok (
    LogicalPlan.update (resolve_db current_db name.database_name) name.table_name assignments
      (clone_expr (some condition)))
plan_of current_db (Statement.delete name condition) table = ok (
    LogicalPlan.delete (resolve_db current_db name.database_name) name.table_name
      (clone_expr (some condition)))
plan_of current_db (Statement.revert name timestamp_ms) table =
    ok (LogicalPlan.revert (resolve_db current_db name.database_name) name.table_name timestamp_ms)
plan_of current_db statement table = err plan_error

unfoldable pub build_logical_plan : GetTable → Bytes → Statement → Result LogicalPlan
unfolding bind plan_of
build_logical_plan get_table current_db statement =
    bind get_table current_db statement >>= plan_of current_db statement

unfoldable pub physical_plan : LogicalPlan → Result PhysicalPlan
unfolding make_table_descriptor clone_expr
physical_plan (LogicalPlan.create_database name) = ok (PhysicalPlan.create_database name)
physical_plan (LogicalPlan.drop_database name) = ok (PhysicalPlan.drop_database name)
physical_plan (LogicalPlan.use_database name) = ok (PhysicalPlan.use_database name)
physical_plan (LogicalPlan.create_table db table schema) =
    ok (PhysicalPlan.create_table (make_table_descriptor db table schema))
physical_plan (LogicalPlan.drop_table db table) = ok (PhysicalPlan.drop_table db table)
physical_plan (LogicalPlan.seq_scan db table select_all columns predicate) =
    ok (PhysicalPlan.seq_scan db table select_all columns (clone_expr predicate))
physical_plan (LogicalPlan.index_scan db table index_name select_all columns predicate) =
    ok (PhysicalPlan.index_scan db table index_name select_all columns (clone_expr predicate))
physical_plan (LogicalPlan.insert db table columns rows) =
    ok (PhysicalPlan.insert db table columns rows)
physical_plan (LogicalPlan.update db table assignments predicate) =
    ok (PhysicalPlan.update db table assignments (clone_expr predicate))
physical_plan (LogicalPlan.delete db table predicate) =
    ok (PhysicalPlan.delete db table (clone_expr predicate))
physical_plan (LogicalPlan.revert db table timestamp_ms) =
    ok (PhysicalPlan.revert db table timestamp_ms)
physical_plan (LogicalPlan.create_index descriptor key_type) = err plan_error

unfoldable pub build_physical_plan : GetTable → Bytes → Statement → Result PhysicalPlan
unfolding build_logical_plan physical_plan
build_physical_plan get_table current_db statement =
    build_logical_plan get_table current_db statement >>= physical_plan
