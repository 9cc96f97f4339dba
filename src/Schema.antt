-- ===== src/Schema.antt =====
-- catalog/schema.h, table_descriptor.h and index_descriptor.h, and the lookups of schema.cpp.
use database_management_syst.Prelude.{
  ℕ, suc, List, [], ◌∷◌, Bool, Option, none, some, if◌then◌else◌, get_elem?,
}
use database_management_syst.Binary.{Bytes}
use database_management_syst.Value.{Value, eq_bytes}

-- The reader casts a number to the enumeration unchecked, so a variable of it may hold any number:
-- `unknown` is one that is no enumerator.
pub data ColumnType : Type 0 where
  int_column string_column bool_column : ColumnType
  unknown : ℕ → ColumnType

pub record ColumnSchema : Type 0 where
  pub name : Bytes
  pub type : ColumnType
  pub not_null : Bool
  pub indexed : Bool
  pub default_value : Option Value

abbrev pub TableSchema : Type 0
TableSchema = List ColumnSchema

pub record IndexDescriptor : Type 0 where
  pub name : Bytes
  pub table_name : Bytes
  pub column_name : Bytes
  pub file_path : Bytes
  pub unique : Bool

pub record TableDescriptor : Type 0 where
  pub database_name : Bytes
  pub table_name : Bytes
  pub data_file : Bytes
  pub index_dir : Bytes
  pub schema : TableSchema
  pub indexes : List IndexDescriptor

-- The position of the first column of that name; `none` is the source's -1.
unfoldable pub find_column_from : ℕ → Bytes → TableSchema → Option ℕ
find_column_from i name [] = none
find_column_from i name (column ∷ columns) =
    let rest = find_column_from (suc i) name columns in
    if eq_bytes column.name name then some i else rest

unfoldable pub find_column : TableSchema → Bytes → Option ℕ
unfolding find_column_from
find_column schema name = find_column_from 0 name schema

unfoldable pub find_column_schema : TableSchema → Bytes → Option ColumnSchema
unfolding find_column
find_column_schema schema name = elim (find_column schema name) [
  | none ↦ none
  | some i ↦ get_elem? schema i
]
