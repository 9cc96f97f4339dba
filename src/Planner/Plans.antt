-- ===== src/Planner/Plans.antt =====
-- planner/logical_plan.h and physical_plan.h. A class hierarchy is a data type with a constructor for
-- each class; `none` is a null predicate.
use database_management_syst.Prelude.{List, Bool, Option}
use database_management_syst.Prelude.Int.{ℤ}
use database_management_syst.Binary.{Bytes}
use database_management_syst.Value.{Value, ValueType}
use database_management_syst.Schema.{TableSchema, IndexDescriptor, TableDescriptor}
use database_management_syst.Parser.Syntax.{Expr, SelectItem}

pub data LogicalPlan : Type 0 where
  create_database drop_database use_database : (database_name : Bytes) → LogicalPlan
  create_table : (database_name table_name : Bytes) (schema : TableSchema) → LogicalPlan
  drop_table : (database_name table_name : Bytes) → LogicalPlan
  seq_scan :
      (database_name table_name : Bytes) (select_all : Bool) (columns : List SelectItem)
      (predicate : Option Expr)
      → LogicalPlan
  index_scan :
      (database_name table_name index_name : Bytes) (select_all : Bool) (columns : List SelectItem)
      (predicate : Option Expr)
      → LogicalPlan
  insert :
      (database_name table_name : Bytes) (columns : List Bytes) (rows : List (List Value))
      → LogicalPlan
  update :
      (database_name table_name : Bytes) (assignments : List (Bytes × Value))
      (predicate : Option Expr)
      → LogicalPlan
  delete : (database_name table_name : Bytes) (predicate : Option Expr) → LogicalPlan
  create_index : (descriptor : IndexDescriptor) (key_type : ValueType) → LogicalPlan
  revert : (database_name table_name : Bytes) (timestamp_ms : ℤ) → LogicalPlan

pub data PhysicalPlan : Type 0 where
  create_database drop_database use_database : (database_name : Bytes) → PhysicalPlan
  create_table : (descriptor : TableDescriptor) → PhysicalPlan
  drop_table : (database_name table_name : Bytes) → PhysicalPlan
  seq_scan :
      (database_name table_name : Bytes) (select_all : Bool) (columns : List SelectItem)
      (predicate : Option Expr)
      → PhysicalPlan
  index_scan :
      (database_name table_name index_name : Bytes) (select_all : Bool) (columns : List SelectItem)
      (predicate : Option Expr)
      → PhysicalPlan
  insert :
      (database_name table_name : Bytes) (columns : List Bytes) (rows : List (List Value))
      → PhysicalPlan
  update :
      (database_name table_name : Bytes) (assignments : List (Bytes × Value))
      (predicate : Option Expr)
      → PhysicalPlan
  delete : (database_name table_name : Bytes) (predicate : Option Expr) → PhysicalPlan
  create_index : (descriptor : IndexDescriptor) (key_type : ValueType) → PhysicalPlan
  revert : (database_name table_name : Bytes) (timestamp_ms : ℤ) → PhysicalPlan
