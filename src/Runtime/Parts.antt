-- ===== src/Runtime/Parts.antt =====
-- What StorageNodeEngine calls of the catalog, the open tables, the indexes, the version logs and the
-- clock, as an interface, and what it keeps itself: which tables and logs are open.
use database_management_syst.Prelude.{
  ℕ, List, [], ◌∷◌, ◌++◌, Bool, true, false, if◌then◌else◌, Option, none, some,
}
use database_management_syst.Prelude.Int.{ℤ}
use database_management_syst.Prelude.Text.{codes}
use database_management_syst.Status.{Result, ok, internal_error, require}
use database_management_syst.Binary.{Bytes}
use database_management_syst.Value.{ValueType, Value, eq_bytes}
use database_management_syst.Schema.{IndexDescriptor, TableDescriptor}
use database_management_syst.Serialization.Rows.{Row, Tuple}
use database_management_syst.Versions.{VersionRecord}
use database_management_syst.Execution.Engine.{EngineM, ◌>>=◌}

-- The first argument of a call on an open table or log is the name under which it is kept.
pub record NodeParts (P : Type 0) : Type 0 where
  pub create_database : Bytes → EngineM P (Unit {0})
  pub drop_database : Bytes → EngineM P (Unit {0})
  pub create_table : TableDescriptor → EngineM P (Unit {0})
  pub drop_table : Bytes → Bytes → EngineM P (Unit {0})
  pub get_table : P → Bytes → Bytes → Result TableDescriptor
  pub open_storage : Bytes → TableDescriptor → EngineM P (Unit {0})
  pub close_storage : Bytes → P → P
  pub storage_insert : Bytes → Tuple → EngineM P ℕ
  pub storage_update : Bytes → ℕ → Tuple → EngineM P (Unit {0})
  pub storage_delete : Bytes → ℕ → EngineM P (Unit {0})
  pub storage_restore : Bytes → ℕ → Tuple → EngineM P (Unit {0})
  pub storage_get : Bytes → ℕ → EngineM P Row
  pub storage_scan : Bytes → EngineM P (List Row)
  pub ensure_dir : Bytes → EngineM P (Unit {0})
  pub create_index : IndexDescriptor → ValueType → EngineM P (Unit {0})
  pub open_index : IndexDescriptor → ValueType → EngineM P (Unit {0})
  pub insert_key : Bytes → Value → ℕ → EngineM P (Unit {0})
  pub delete_key : Bytes → Value → EngineM P (Unit {0})
  pub find_key : Bytes → Value → EngineM P (Option ℕ)
  pub open_log : Bytes → Bytes → EngineM P (Unit {0})
  pub close_log : Bytes → P → P
  pub append_record : Bytes → VersionRecord → EngineM P (Unit {0})
  pub flush_log : Bytes → EngineM P (Unit {0})
  pub read_log : Bytes → EngineM P (List VersionRecord)
  pub now_timestamp_ms : P → ℤ

-- `opened_tables_` with the descriptor of each table, and the keys of `opened_version_logs_`.
pub record NodeEngine (P : Type 0) : Type 0 where
  pub data_dir : Bytes
  pub started : Bool
  pub opened_tables : List (Bytes × TableDescriptor)
  pub opened_version_logs : List Bytes
  pub parts : P

abbrev pub NodeM : Type 0 → Type 0 → Type 0
NodeM P A = EngineM (NodeEngine P) A

abbrev pub with_parts : {P A : Type 0} → NodeEngine P → Result A × P → Result A × NodeEngine P
with_parts e (r, p) = (r, record e { parts = p })

abbrev pub on_parts : {P A : Type 0} → EngineM P A → NodeM P A
on_parts call e = with_parts e (call e.parts)

-- Of tables and of version logs alike.
unfoldable pub make_cache_key : Bytes → Bytes → Bytes
make_cache_key db_name table_name = db_name ++ (codes "::" ++ table_name)

unfoldable pub ensure_started : {P : Type 0} → NodeM P (Unit {0})
ensure_started e = (require e.started internal_error, e)

unfoldable pub opened_table : Bytes → List (Bytes × TableDescriptor) → Option TableDescriptor
unfolding eq_bytes
opened_table key [] = none
opened_table key ((first, descriptor) ∷ opened) =
    let rest = opened_table key opened in if eq_bytes first key then some descriptor else rest

unfoldable pub is_opened : Bytes → List Bytes → Bool
unfolding eq_bytes
is_opened key [] = false
is_opened key (first ∷ opened) =
    let rest = is_opened key opened in if eq_bytes first key then true else rest

-- `data_dir / database / "versions" / (table + ".vlog")`, for names that are not absolute paths.
unfoldable pub version_log_path : Bytes → TableDescriptor → Bytes
version_log_path data_dir descriptor =
    data_dir
    ++ (codes "/"
        ++ (descriptor.database_name
            ++ (codes "/versions/" ++ (descriptor.table_name ++ codes ".vlog"))))

module _ {P : Type 0} (parts : NodeParts P) where
  unfoldable pub load_table_descriptor : Bytes → Bytes → NodeM P TableDescriptor
  load_table_descriptor db_name table_name e = (parts.get_table e.parts db_name table_name, e)

  unfoldable pub keep_table : Bytes → TableDescriptor → NodeM P TableDescriptor
  keep_table key descriptor e =
      (ok descriptor, record e { opened_tables = (key, descriptor) ∷ e.opened_tables })

  unfoldable pub open_new_table : Bytes → Bytes → NodeM P TableDescriptor
  unfolding load_table_descriptor make_cache_key keep_table
  open_new_table db_name table_name = do
    descriptor ← load_table_descriptor db_name table_name
    opened ← on_parts (parts.open_storage (make_cache_key db_name table_name) descriptor)
    keep_table (make_cache_key db_name table_name) descriptor

  -- The descriptor of the open table.
  unfoldable pub open_table : Bytes → Bytes → NodeM P TableDescriptor
  unfolding opened_table make_cache_key open_new_table
  open_table db_name table_name e =
      elim (opened_table (make_cache_key db_name table_name) e.opened_tables) [
        | some descriptor ↦ (ok descriptor, e)
        | none ↦ open_new_table db_name table_name e
      ]

  unfoldable pub keep_log : Bytes → NodeM P (Unit {0})
  keep_log key e = (ok tt, record e { opened_version_logs = key ∷ e.opened_version_logs })

  unfoldable pub open_new_log : Bytes → Bytes → NodeM P (Unit {0})
  unfolding load_table_descriptor make_cache_key keep_log version_log_path
  open_new_log db_name table_name e =
      (do
        descriptor ← load_table_descriptor db_name table_name
        opened ← on_parts (
            parts.open_log (make_cache_key db_name table_name)
              (version_log_path e.data_dir descriptor))
        keep_log (make_cache_key db_name table_name))
        e

  unfoldable pub open_version_log : Bytes → Bytes → NodeM P (Unit {0})
  unfolding is_opened make_cache_key open_new_log
  open_version_log db_name table_name e =
      if is_opened (make_cache_key db_name table_name) e.opened_version_logs
      then (ok tt, e)
      else open_new_log db_name table_name e
