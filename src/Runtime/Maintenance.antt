-- ===== src/Runtime/Maintenance.antt =====
-- How StorageNodeEngine keeps the indexes and the version log of a table in step with its rows.
use database_management_syst.Prelude.{ℕ, List, [], ◌∷◌, ◌&&◌, if◌then◌else◌, none, some, get_elem?}
use database_management_syst.Prelude.Sets.{is_empty}
use database_management_syst.Status.{Result, ok, err, internal_error}
use database_management_syst.Binary.{Bytes}
use database_management_syst.Value.{ValueType, int_type, string_type, bool_type, Value, is_null}
use database_management_syst.Value
use database_management_syst.Schema.{
  ColumnType, int_column, string_column, bool_column, unknown, IndexDescriptor, TableDescriptor,
  find_column, find_column_schema,
}
use database_management_syst.Serialization.Rows.{Tuple}
use database_management_syst.Versions.{VersionOp}
use database_management_syst.Execution.Engine.{EngineM, ◌>>=◌, return, lift}
use database_management_syst.Runtime.Parts.{
  NodeParts, NodeM, on_parts, make_cache_key, open_version_log,
}

unfoldable pub map_column_type_to_value_type : ColumnType → Result ValueType
map_column_type_to_value_type int_column = ok int_type
map_column_type_to_value_type string_column = ok string_type
map_column_type_to_value_type bool_column = ok bool_type
map_column_type_to_value_type (unknown n) = err internal_error

unfoldable pub extract_index_key : TableDescriptor → IndexDescriptor → Tuple → Result Value
unfolding find_column
extract_index_key descriptor index tuple = elim (find_column descriptor.schema index.column_name) [
  | none ↦ err internal_error
  | some column_index ↦ elim (get_elem? tuple column_index) [
    | none ↦ err internal_error
    | some key ↦ ok key
  ]
]

-- The type of an index's keys.
unfoldable pub index_key_type : TableDescriptor → IndexDescriptor → Result ValueType
unfolding find_column_schema map_column_type_to_value_type
index_key_type descriptor index = elim (find_column_schema descriptor.schema index.column_name) [
  | none ↦ err internal_error
  | some column ↦ map_column_type_to_value_type column.type
]

module _ {P : Type 0} (parts : NodeParts P) where
  -- A loop over the indexes that stops at the first failure.
  unfoldable pub each_index :
      (IndexDescriptor → NodeM P (Unit {0})) → List IndexDescriptor → NodeM P (Unit {0})
  each_index action [] = return tt
  each_index action (index ∷ indexes) = do done ← action index; each_index action indexes

  unfoldable pub register_index :
      (IndexDescriptor → ValueType → EngineM P (Unit {0}))
      → TableDescriptor
      → IndexDescriptor
      → NodeM P (Unit {0})
  unfolding index_key_type
  register_index register descriptor index = do
    key_type ← lift (index_key_type descriptor index)
    on_parts (register index key_type)

  unfoldable pub make_index_dir : TableDescriptor → NodeM P (Unit {0})
  unfolding is_empty
  make_index_dir descriptor =
      if is_empty descriptor.indexes
      then return tt
      else on_parts (parts.ensure_dir descriptor.index_dir)

  unfoldable pub ensure_table_indexes_created : TableDescriptor → NodeM P (Unit {0})
  unfolding make_index_dir each_index register_index
  ensure_table_indexes_created descriptor = do
    made ← make_index_dir descriptor
    each_index (register_index parts.create_index descriptor) descriptor.indexes

  unfoldable pub open_table_indexes : TableDescriptor → NodeM P (Unit {0})
  unfolding each_index register_index
  open_table_indexes descriptor =
      each_index (register_index parts.open_index descriptor) descriptor.indexes

  unfoldable pub insert_into_index :
      TableDescriptor → Tuple → ℕ → IndexDescriptor → NodeM P (Unit {0})
  unfolding extract_index_key is_null
  insert_into_index descriptor tuple rid index =
      lift (extract_index_key descriptor index tuple) >>= λ key.
      if is_null key then return tt else on_parts (parts.insert_key index.name key rid)

  unfoldable pub insert_into_indexes : TableDescriptor → Tuple → ℕ → NodeM P (Unit {0})
  unfolding each_index insert_into_index
  insert_into_indexes descriptor tuple rid =
      each_index (insert_into_index descriptor tuple rid) descriptor.indexes

  unfoldable pub delete_from_index : TableDescriptor → Tuple → IndexDescriptor → NodeM P (Unit {0})
  unfolding extract_index_key is_null
  delete_from_index descriptor tuple index =
      lift (extract_index_key descriptor index tuple) >>= λ key.
      if is_null key then return tt else on_parts (parts.delete_key index.name key)

  unfoldable pub delete_from_indexes : TableDescriptor → Tuple → NodeM P (Unit {0})
  unfolding each_index delete_from_index
  delete_from_indexes descriptor tuple =
      each_index (delete_from_index descriptor tuple) descriptor.indexes

  -- The old key makes place for the new one.
  unfoldable pub replace_key : Bytes → Value → Value → ℕ → NodeM P (Unit {0})
  replace_key name old_key new_key rid = do
    deleted ← on_parts (parts.delete_key name old_key)
    on_parts (parts.insert_key name new_key rid)

  unfoldable pub change_key : Bytes → Value → Value → ℕ → NodeM P (Unit {0})
  unfolding is_null replace_key
  change_key name old_key new_key rid =
      if is_null old_key && is_null new_key
      then return tt
      else if is_null old_key
      then on_parts (parts.insert_key name new_key rid)
      else if is_null new_key
      then on_parts (parts.delete_key name old_key)
      else if Value.eq old_key new_key
      then return tt
      else replace_key name old_key new_key rid

  unfoldable pub update_index :
      TableDescriptor → Tuple → Tuple → ℕ → IndexDescriptor → NodeM P (Unit {0})
  unfolding extract_index_key change_key
  update_index descriptor before after rid index = do
    old_key ← lift (extract_index_key descriptor index before)
    new_key ← lift (extract_index_key descriptor index after)
    change_key index.name old_key new_key rid

  unfoldable pub update_indexes : TableDescriptor → Tuple → Tuple → ℕ → NodeM P (Unit {0})
  unfolding each_index update_index
  update_indexes descriptor before after rid =
      each_index (update_index descriptor before after rid) descriptor.indexes

  -- A record of the present time.
  unfoldable pub append_now : Bytes → Bytes → VersionOp → ℕ → Tuple → Tuple → NodeM P (Unit {0})
  append_now key table_name op rid before after e =
      on_parts
        (parts.append_record key (record {
          timestamp_ms = parts.now_timestamp_ms e.parts;
          table_name = table_name;
          rid = rid;
          op = op;
          before = before;
          after = after;
        }))
        e

  -- `AppendInsertVersion`, `AppendUpdateVersion` and `AppendDeleteVersion`: a tuple that is not given is
  -- empty.
  unfoldable pub append_version : Bytes → Bytes → VersionOp → ℕ → Tuple → Tuple → NodeM P (Unit {0})
  unfolding open_version_log make_cache_key append_now
  append_version db_name table_name op rid before after = do
    opened ← open_version_log parts db_name table_name
    appended ← append_now (make_cache_key db_name table_name) table_name op rid before after
    on_parts (parts.flush_log (make_cache_key db_name table_name))
