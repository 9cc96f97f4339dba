-- ===== src/Runtime/Operations.antt =====
-- The operations of StorageNodeEngine on databases, tables and rows. The pointers of its results are
-- the keys under which tables and logs are kept.
use database_management_syst.Prelude.{ℕ, List, [], ◌∷◌, ◌++◌, Bool, true, false, if◌then◌else◌}
use database_management_syst.Prelude.Text.{codes}
use database_management_syst.Status.{Result, ok, err, not_found, already_exists}
use database_management_syst.Binary.{Bytes}
use database_management_syst.Value.{eq_bytes}
use database_management_syst.Schema.{TableDescriptor}
use database_management_syst.Serialization.Rows.{Row, Tuple}
use database_management_syst.Versions.{insert, update, delete}
use database_management_syst.Catalog.Files.{starts_with}
use database_management_syst.Execution.Engine.{◌>>=◌, return}
use database_management_syst.Runtime.Parts.{
  NodeParts, NodeEngine, NodeM, on_parts, make_cache_key, ensure_started, load_table_descriptor,
  open_table,
}
use database_management_syst.Runtime.Maintenance.{
  ensure_table_indexes_created, open_table_indexes, insert_into_indexes, delete_from_indexes,
  update_indexes, append_version,
}

unfoldable pub kept_tables :
    (Bytes → Bool) → List (Bytes × TableDescriptor) → List (Bytes × TableDescriptor)
kept_tables closes [] = []
kept_tables closes ((key, descriptor) ∷ opened) =
    let rest = kept_tables closes opened in if closes key then rest else (key, descriptor) ∷ rest

unfoldable pub kept_logs : (Bytes → Bool) → List Bytes → List Bytes
kept_logs closes [] = []
kept_logs closes (key ∷ opened) =
    let rest = kept_logs closes opened in if closes key then rest else key ∷ rest

unfoldable pub table_keys : List (Bytes × TableDescriptor) → List Bytes
table_keys [] = []
table_keys ((key, descriptor) ∷ opened) = key ∷ table_keys opened

-- The destructors of what is erased.
unfoldable pub close_each : {P : Type 0} → (Bytes → P → P) → (Bytes → Bool) → List Bytes → P → P
close_each close closes [] p = p
close_each close closes (key ∷ opened) p =
    close_each close closes opened (if closes key then close key p else p)

-- The tables and logs under the keys that are closed are erased.
unfoldable pub close_tables :
    {P : Type 0} → NodeParts P → (Bytes → Bool) → NodeEngine P → NodeEngine P
unfolding kept_tables kept_logs table_keys close_each
close_tables parts closes e = record e {
  opened_tables = kept_tables closes e.opened_tables;
  opened_version_logs = kept_logs closes e.opened_version_logs;
  parts =
      close_each parts.close_log closes e.opened_version_logs
        (close_each parts.close_storage closes (table_keys e.opened_tables) e.parts);
}

module _ {P : Type 0} (parts : NodeParts P) where
  unfoldable pub start : NodeM P (Unit {0})
  start e = (ok tt, record e { started = true })

  unfoldable pub stop : NodeM P (Unit {0})
  unfolding close_tables
  stop e = (ok tt, record (close_tables parts (λ key. true) e) { started = false })

  unfoldable pub create_database : Bytes → NodeM P (Unit {0})
  unfolding ensure_started
  create_database db_name = do started ← ensure_started; on_parts (parts.create_database db_name)

  unfoldable pub close_all_of : (Bytes → Bool) → NodeM P (Unit {0})
  unfolding close_tables
  close_all_of closes e = (ok tt, close_tables parts closes e)

  unfoldable pub drop_database : Bytes → NodeM P (Unit {0})
  unfolding ensure_started close_all_of starts_with
  drop_database db_name = do
    started ← ensure_started
    erased ← close_all_of (starts_with (db_name ++ codes "::"))
    on_parts (parts.drop_database db_name)

  unfoldable pub create_table : TableDescriptor → NodeM P (Unit {0})
  unfolding ensure_started load_table_descriptor ensure_table_indexes_created
  create_table desc = do
    started ← ensure_started
    created ← on_parts (parts.create_table desc)
    normalized ← load_table_descriptor parts desc.database_name desc.table_name
    ensure_table_indexes_created parts normalized

  unfoldable pub drop_table : Bytes → Bytes → NodeM P (Unit {0})
  unfolding ensure_started close_all_of make_cache_key eq_bytes
  drop_table db_name table_name = do
    started ← ensure_started
    erased ← close_all_of (eq_bytes (make_cache_key db_name table_name))
    on_parts (parts.drop_table db_name table_name)

  unfoldable pub get_table_descriptor : Bytes → Bytes → NodeM P TableDescriptor
  unfolding ensure_started load_table_descriptor
  get_table_descriptor db_name table_name = do
    started ← ensure_started
    load_table_descriptor parts db_name table_name

  unfoldable pub scan_table : Bytes → Bytes → NodeM P (List Row)
  unfolding ensure_started open_table make_cache_key
  scan_table db_name table_name = do
    started ← ensure_started
    descriptor ← open_table parts db_name table_name
    on_parts (parts.storage_scan (make_cache_key db_name table_name))

  -- What every change of a row begins with.
  unfoldable pub open_for_change : Bytes → Bytes → NodeM P TableDescriptor
  unfolding ensure_started open_table open_table_indexes
  open_for_change db_name table_name = do
    started ← ensure_started
    descriptor ← open_table parts db_name table_name
    opened ← open_table_indexes parts descriptor
    return descriptor

  abbrev pub when_logged : Bool → NodeM P (Unit {0}) → NodeM P (Unit {0})
  when_logged write_version_record append = if write_version_record then append else return tt

  unfoldable pub insert_internal : Bytes → Bytes → Tuple → Bool → NodeM P ℕ
  unfolding open_for_change insert_into_indexes append_version make_cache_key
  insert_internal db_name table_name tuple write_version_record = do
    descriptor ← open_for_change db_name table_name
    rid ← on_parts (parts.storage_insert (make_cache_key db_name table_name) tuple)
    inserted ← on_parts (parts.storage_get (make_cache_key db_name table_name) rid)
    indexed ← insert_into_indexes parts descriptor inserted.tuple rid
    done ←
        when_logged write_version_record
          (append_version parts db_name table_name insert rid [] inserted.tuple)
    return rid

  unfoldable pub update_internal : Bytes → Bytes → ℕ → Tuple → Bool → NodeM P (Unit {0})
  unfolding open_for_change update_indexes append_version make_cache_key
  update_internal db_name table_name rid tuple write_version_record = do
    descriptor ← open_for_change db_name table_name
    before ← on_parts (parts.storage_get (make_cache_key db_name table_name) rid)
    updated ← on_parts (parts.storage_update (make_cache_key db_name table_name) rid tuple)
    after ← on_parts (parts.storage_get (make_cache_key db_name table_name) rid)
    indexed ← update_indexes parts descriptor before.tuple after.tuple rid
    when_logged write_version_record
        (append_version parts db_name table_name update rid before.tuple after.tuple)

  unfoldable pub delete_internal : Bytes → Bytes → ℕ → Bool → NodeM P (Unit {0})
  unfolding open_for_change delete_from_indexes append_version make_cache_key
  delete_internal db_name table_name rid write_version_record = do
    descriptor ← open_for_change db_name table_name
    before ← on_parts (parts.storage_get (make_cache_key db_name table_name) rid)
    unindexed ← delete_from_indexes parts descriptor before.tuple
    deleted ← on_parts (parts.storage_delete (make_cache_key db_name table_name) rid)
    when_logged write_version_record
        (append_version parts db_name table_name delete rid before.tuple [])

  -- The row must not be there: NotFound goes on, and any other failure ends the call.
  unfoldable pub require_absent : Result Row → Result (Unit {0})
  require_absent (ok row) = err already_exists
  require_absent (err not_found) = ok tt
  require_absent (err code) = err code

  unfoldable pub check_absent : Bytes → ℕ → NodeM P (Unit {0})
  unfolding require_absent
  check_absent key rid e =
      let (r, p) = parts.storage_get key rid e.parts in (require_absent r, record e { parts = p })

  unfoldable pub restore_internal : Bytes → Bytes → ℕ → Tuple → Bool → NodeM P (Unit {0})
  unfolding open_for_change check_absent insert_into_indexes append_version make_cache_key
  restore_internal db_name table_name rid tuple write_version_record = do
    descriptor ← open_for_change db_name table_name
    absent ← check_absent (make_cache_key db_name table_name) rid
    restored ← on_parts (parts.storage_restore (make_cache_key db_name table_name) rid tuple)
    row ← on_parts (parts.storage_get (make_cache_key db_name table_name) rid)
    indexed ← insert_into_indexes parts descriptor row.tuple rid
    when_logged write_version_record
        (append_version parts db_name table_name insert rid [] row.tuple)

  unfoldable pub insert_row : Bytes → Bytes → Tuple → NodeM P ℕ
  unfolding insert_internal
  insert_row db_name table_name tuple = insert_internal db_name table_name tuple true

  unfoldable pub update_row : Bytes → Bytes → ℕ → Tuple → NodeM P (Unit {0})
  unfolding update_internal
  update_row db_name table_name rid tuple = update_internal db_name table_name rid tuple true

  unfoldable pub delete_row : Bytes → Bytes → ℕ → NodeM P (Unit {0})
  unfolding delete_internal
  delete_row db_name table_name rid = delete_internal db_name table_name rid true
