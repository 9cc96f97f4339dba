-- ===== src/Catalog/Checks.antt =====
-- The checks of names, schemas and descriptors in catalog/catalog_manager.cpp, and the paths that a
-- descriptor leaves open.
use database_management_syst.Prelude.{
  List, [], ◌∷◌, map, Bool, true, false, not, ◌&&◌, ◌||◌, ◌==◌, if◌then◌else◌, Option, none, some,
}
use database_management_syst.Prelude.Sets.{is_empty}
use database_management_syst.Prelude.Text.{is_space}
use database_management_syst.Status.{Result, ok, invalid_argument, require, ◌>>◌}
use database_management_syst.Binary.{Bytes}
use database_management_syst.Value.{int_type, string_type, bool_type, Value, eq_bytes}
use database_management_syst.Schema.{
  ColumnType, int_column, string_column, bool_column, unknown, ColumnSchema, TableSchema,
  IndexDescriptor, TableDescriptor, find_column,
}
use database_management_syst.Planner.Binder.{has_type, has_name}
use database_management_syst.Catalog.Files.{
  is_some, default_table_data_path, default_table_index_dir, default_index_file_path,
}

-- The loop over a name: whether the last byte was a dot, and whether there was one that is no space.
unfoldable pub scan_name : Bytes → Bool → Bool → Bool
unfolding is_space
scan_name [] prev_dot has_non_space = has_non_space
scan_name (ch ∷ name) prev_dot has_non_space =
    let rest = scan_name name (ch == b'.') (has_non_space || not (is_space ch)) in
    if ch == b'/' || ch == b'\\' then false else if ch == b'.' && prev_dot then false else rest

unfoldable pub is_valid_name : Bytes → Bool
unfolding scan_name
is_valid_name name = scan_name name false false

-- `ValidateDatabaseName` and `ValidateTableName`.
unfoldable pub validate_name : Bytes → Result (Unit {0})
unfolding is_valid_name
validate_name name = require (is_valid_name name) invalid_argument

unfoldable pub default_fits : ColumnType → Value → Bool
unfolding has_type
default_fits int_column value = has_type int_type value
default_fits string_column value = has_type string_type value
default_fits bool_column value = has_type bool_type value
default_fits (unknown n) value = true

unfoldable pub validate_default : ColumnType → Option Value → Result (Unit {0})
unfolding default_fits
validate_default type none = ok tt
validate_default type (some value) = require (default_fits type value) invalid_argument

unfoldable pub validate_column_schema : ColumnSchema → Result (Unit {0})
unfolding is_valid_name validate_default
validate_column_schema column =
    require (is_valid_name column.name) invalid_argument
    >> validate_default column.type column.default_value

unfoldable pub validate_columns : List Bytes → TableSchema → Result (Unit {0})
unfolding validate_column_schema has_name
validate_columns seen [] = ok tt
validate_columns seen (column ∷ columns) =
    validate_column_schema column
    >> (require (not (has_name column.name seen)) invalid_argument
        >> validate_columns (column.name ∷ seen) columns)

unfoldable pub validate_table_schema : TableSchema → Result (Unit {0})
unfolding validate_columns is_empty
validate_table_schema schema =
    require (not (is_empty schema)) invalid_argument >> validate_columns [] schema

unfoldable pub validate_index_descriptor : TableSchema → Bytes → IndexDescriptor → Result (Unit {0})
unfolding is_valid_name eq_bytes find_column is_some is_empty
validate_index_descriptor schema table_name index =
    require (is_valid_name index.name) invalid_argument
    >> (require (eq_bytes index.table_name table_name) invalid_argument
        >> (require (is_some (find_column schema index.column_name)) invalid_argument
            >> require (not (is_empty index.file_path)) invalid_argument))

unfoldable pub validate_indexes :
    TableSchema → Bytes → List Bytes → List IndexDescriptor → Result (Unit {0})
unfolding validate_index_descriptor has_name
validate_indexes schema table_name seen [] = ok tt
validate_indexes schema table_name seen (index ∷ indexes) =
    validate_index_descriptor schema table_name index
    >> (require (not (has_name index.name seen)) invalid_argument
        >> validate_indexes schema table_name (index.name ∷ seen) indexes)

unfoldable pub validate_table_descriptor : TableDescriptor → Result (Unit {0})
unfolding validate_name validate_table_schema validate_indexes is_empty
validate_table_descriptor desc =
    validate_name desc.database_name
    >> (validate_name desc.table_name
        >> (validate_table_schema desc.schema
            >> (validate_indexes desc.schema desc.table_name [] desc.indexes
                >> (require (not (is_empty desc.data_file)) invalid_argument
                    >> require (not (is_empty desc.index_dir)) invalid_argument))))

-- A text that is not given is the default.
unfoldable pub given_or : Bytes → Bytes → Bytes
unfolding is_empty
given_or text default = if is_empty text then default else text

unfoldable pub normalize_index : Bytes → Bytes → IndexDescriptor → IndexDescriptor
unfolding given_or default_index_file_path
normalize_index table_name index_dir index = record index {
  table_name = given_or index.table_name table_name;
  file_path = given_or index.file_path (default_index_file_path index_dir index.name);
}

unfoldable pub normalize_table_descriptor : Bytes → TableDescriptor → TableDescriptor
unfolding given_or normalize_index default_table_data_path default_table_index_dir
normalize_table_descriptor root_dir desc =
    let index_dir : Bytes =
      given_or desc.index_dir
        (default_table_index_dir root_dir desc.database_name desc.table_name) in
    record desc {
      data_file =
          given_or desc.data_file
            (default_table_data_path root_dir desc.database_name desc.table_name);
      index_dir = index_dir;
      indexes = map (normalize_index desc.table_name index_dir) desc.indexes;
    }
