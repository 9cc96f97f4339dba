-- ===== src/Runtime/Interface.antt =====
-- The engine as the executors and the revert service use it.
use database_management_syst.Prelude.{List}
use database_management_syst.Binary.{Bytes}
use database_management_syst.Versions.{VersionRecord}
use database_management_syst.Versions.Revert.{EngineOps}
use database_management_syst.Execution.Engine.{◌>>=◌, return, Engine}
use database_management_syst.Runtime.Parts.{
  NodeParts, NodeEngine, NodeM, on_parts, make_cache_key, open_table, open_version_log,
}
use database_management_syst.Runtime.Operations.{
  create_database, drop_database, create_table, drop_table, get_table_descriptor, scan_table,
  insert_row, update_row, delete_row, delete_internal, restore_internal, update_internal,
}

module _ {P : Type 0} (parts : NodeParts P) where
  unfoldable pub open_only : Bytes → Bytes → NodeM P (Unit {0})
  unfolding open_table
  open_only db_name table_name = do descriptor ← open_table parts db_name table_name; return tt

  unfoldable pub read_version_log : Bytes → Bytes → NodeM P (List VersionRecord)
  unfolding open_version_log make_cache_key
  read_version_log db_name table_name = do
    opened ← open_version_log parts db_name table_name
    on_parts (parts.read_log (make_cache_key db_name table_name))

  unfoldable pub revert_ops : EngineOps (NodeEngine P)
  unfolding open_only read_version_log delete_internal restore_internal update_internal
  revert_ops = record {
    open_table = open_only;
    read_version_log = read_version_log;
    delete_internal = delete_internal parts;
    restore_internal = restore_internal parts;
    update_internal = update_internal parts;
  }

  unfoldable pub node_engine : Engine (NodeEngine P)
  unfolding revert_ops create_database drop_database create_table drop_table get_table_descriptor
      scan_table insert_row update_row delete_row
  node_engine = record {
    get_table = λ e. parts.get_table e.parts;
    create_database = create_database parts;
    drop_database = drop_database parts;
    create_table = create_table parts;
    drop_table = drop_table parts;
    get_table_descriptor = get_table_descriptor parts;
    scan_table = scan_table parts;
    insert_row = insert_row parts;
    update_row = update_row parts;
    delete_row = delete_row parts;
    create_index = λ descriptor key_type. on_parts (parts.create_index descriptor key_type);
    find_key = λ name key. on_parts (parts.find_key name key);
    revert_ops = revert_ops;
  }
