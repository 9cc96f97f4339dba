-- ===== src/Parser/Syntax.antt =====
-- parser/ast.h and parser/sql_statement.h. A class hierarchy is a data type with a constructor for
-- each class; `none` is a null pointer.
use database_management_syst.Prelude.{List, Bool, Option}
use database_management_syst.Prelude.Int.{ℤ}
use database_management_syst.Binary.{Bytes}
use database_management_syst.Value.{Value}
use database_management_syst.Schema.{TableSchema}

pub data BinaryOp : Type 0 where
  eq ne lt gt le ge : BinaryOp

pub data LogicalOp : Type 0 where
  and or : LogicalOp

pub data Expr : Type 0 where
  column_ref : (column_name : Bytes) → Expr
  literal : (value : Value) → Expr
  binary : (op : BinaryOp) (left right : Expr) → Expr
  logical : (op : LogicalOp) (left right : Expr) → Expr
  between : (value low high : Expr) → Expr
  like : (value pattern_text : Expr) → Expr

-- A table behind the name of its database, which may be empty.
pub record QualifiedName : Type 0 where
  pub database_name : Bytes
  pub table_name : Bytes

pub record SelectItem : Type 0 where
  pub column : Bytes
  pub alias : Bytes

pub data Statement : Type 0 where
  create_database drop_database use_database : (db_name : Bytes) → Statement
  create_table : (name : QualifiedName) (schema : TableSchema) → Statement
  drop_table : (name : QualifiedName) → Statement
  insert : (name : QualifiedName) (columns : List Bytes) (rows : List (List Value)) → Statement
  select :
      (name : QualifiedName) (select_all : Bool) (columns : List SelectItem)
      (condition : Option Expr)
      → Statement
  update :
      (name : QualifiedName) (assignments : List (Bytes × Value)) (condition : Expr) → Statement
  delete : (name : QualifiedName) (condition : Expr) → Statement
  revert : (name : QualifiedName) (timestamp_ms : ℤ) → Statement
  create_user login : (user_id password : Bytes) → Statement
  drop_user : (user_id : Bytes) → Statement
  create_group drop_group : (group_name : Bytes) → Statement
  add_user_to_group : (user_id group_name : Bytes) → Statement
  grant revoke : (permission target_type target_name : Bytes) → Statement
  submit_query : (inner_sql : Bytes) → Statement
  get_task cancel_task : (request_id : Bytes) → Statement
  show_metrics : Statement
