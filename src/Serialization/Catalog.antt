-- ===== src/Serialization/Catalog.antt =====
-- common/catalog_serialization.cpp: the metadata of a table.
pub mod RoundTrip
use database_management_syst.Prelude.{
  ℕ, ◌+◌, ◌%◌, ◌^◌, List, [], Bool, true, false, Option, none, some, ◌==◌, if◌then◌else◌, length,
}
use database_management_syst.Status.{Result, ok, ◌>>=◌}
use database_management_syst.Binary.{
  Bytes, write_uint32, write_string, write_bool, read_uint32, read_string, read_bool,
}
use database_management_syst.Value.{Value}
use database_management_syst.Schema.{
  ColumnType, int_column, string_column, bool_column, unknown, ColumnSchema, TableSchema,
  IndexDescriptor, TableDescriptor,
}
use database_management_syst.Serialization.Sequence.{write_sequence, read_sequence}
use database_management_syst.Serialization.Values.{serialize_value, deserialize_value}

pub column_type_number : ColumnType → ℕ
column_type_number int_column = 0
column_type_number string_column = 1
column_type_number bool_column = 2
column_type_number (unknown n) = n

-- `static_cast<ColumnType>(raw_type)`
pub column_type_of : ℕ → ColumnType
column_type_of raw =
    if raw == 0
    then int_column
    else if raw == 1
    then string_column
    else if raw == 2
    then bool_column
    else unknown raw

pub write_default : Option Value → Bytes → Bytes
write_default none buffer = write_bool buffer false
write_default (some v) buffer = serialize_value v (write_bool buffer true)

pub serialize_column_schema : ColumnSchema → Bytes → Bytes
serialize_column_schema column buffer =
    let named = write_string buffer column.name in
    let typed = write_uint32 named (column_type_number column.type % 2 ^ 32) in
    write_default column.default_value
      (write_bool (write_bool typed column.not_null) column.indexed)

unfoldable pub read_default : Bool → Bytes → ℕ → Result (Option Value × ℕ)
read_default false bytes offset = ok (none, offset)
read_default true bytes offset = do (v, next) ← deserialize_value bytes offset; ok (some v, next)

unfoldable pub deserialize_column_schema : Bytes → ℕ → Result (ColumnSchema × ℕ)
deserialize_column_schema bytes offset = do
  (name, o1) ← read_string bytes offset
  (raw_type, o2) ← read_uint32 bytes o1
  (not_null, o3) ← read_bool bytes o2
  (indexed, o4) ← read_bool bytes o3
  (has_default, o5) ← read_bool bytes o4
  (default_value, o6) ← read_default has_default bytes o5
  ok (
    record {
      name = name;
      type = column_type_of raw_type;
      not_null = not_null;
      indexed = indexed;
      default_value = default_value;
    },
    o6,
  )

pub serialize_table_schema : TableSchema → Bytes → Bytes
serialize_table_schema schema buffer =
    write_sequence serialize_column_schema schema (write_uint32 buffer (length schema % 2 ^ 32))

unfoldable pub deserialize_table_schema : Bytes → ℕ → Result (TableSchema × ℕ)
deserialize_table_schema bytes offset = do
  (column_count, next) ← read_uint32 bytes offset
  read_sequence deserialize_column_schema column_count bytes next

pub serialize_index_descriptor : IndexDescriptor → Bytes → Bytes
serialize_index_descriptor index buffer =
    let names = write_string (write_string buffer index.name) index.table_name in
    write_bool (write_string (write_string names index.column_name) index.file_path) index.unique

unfoldable pub deserialize_index_descriptor : Bytes → ℕ → Result (IndexDescriptor × ℕ)
deserialize_index_descriptor bytes offset = do
  (name, o1) ← read_string bytes offset
  (table_name, o2) ← read_string bytes o1
  (column_name, o3) ← read_string bytes o2
  (file_path, o4) ← read_string bytes o3
  (unique, o5) ← read_bool bytes o4
  ok (
    record {
      name = name;
      table_name = table_name;
      column_name = column_name;
      file_path = file_path;
      unique = unique;
    },
    o5,
  )

pub serialize_table_descriptor : TableDescriptor → Bytes → Bytes
serialize_table_descriptor desc buffer =
    let names = write_string (write_string buffer desc.database_name) desc.table_name in
    let paths = write_string (write_string names desc.data_file) desc.index_dir in
    let columns = serialize_table_schema desc.schema paths in
    write_sequence serialize_index_descriptor desc.indexes
      (write_uint32 columns (length desc.indexes % 2 ^ 32))

unfoldable pub deserialize_table_descriptor : Bytes → ℕ → Result (TableDescriptor × ℕ)
deserialize_table_descriptor bytes offset = do
  (database_name, o1) ← read_string bytes offset
  (table_name, o2) ← read_string bytes o1
  (data_file, o3) ← read_string bytes o2
  (index_dir, o4) ← read_string bytes o3
  (schema, o5) ← deserialize_table_schema bytes o4
  (index_count, o6) ← read_uint32 bytes o5
  (indexes, o7) ← read_sequence deserialize_index_descriptor index_count bytes o6
  ok (
    record {
      database_name = database_name;
      table_name = table_name;
      data_file = data_file;
      index_dir = index_dir;
      schema = schema;
      indexes = indexes;
    },
    o7,
  )
