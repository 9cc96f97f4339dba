-- ===== src/Catalog/Tables.antt =====
-- What GetTable finds behind CreateTable and DropTable.
use database_management_syst.Prelude.{
  ◌≡◌, refl, sym, ap, subst, inl, inr, true, false, ◌&&◌, Bool-cases, if◌then◌else◌, none, arith,
}
use database_management_syst.Status.{Result, ok, err, not_found}
use database_management_syst.Binary.{Bytes}
use database_management_syst.Value.{eq_bytes}
use database_management_syst.Value.Order.{eq_bytes→eq, eq_bytes_refl}
use database_management_syst.Schema.{TableDescriptor}
use database_management_syst.Serialization.Catalog.RoundTrip.{IsStorableDescriptor}
use database_management_syst.Catalog.Files.{
  FileSystem, remove_file, file_exists, is_some, table_meta_path,
}
use database_management_syst.Catalog.Checks.{
  is_valid_name, validate_name, normalize_table_descriptor,
}
use database_management_syst.Catalog.Manager.{
  database_exists, create_table, find_meta_file, drop_table, get_table,
}
use database_management_syst.Catalog.Steps.{
  both_checks, required_test, guarded_parts, created_files, created_parts, created_names, get_own,
  changed, get_elsewhere,
}

same_names :
    (P : Bytes → Bytes → Type 0) (db table db' table' : Bytes)
    → (eq_bytes db db' && eq_bytes table table') ≡ true
    → P db table
    → P db' table'
same_names P db table db' table' same p =
    let dbs : db ≡ db' = eq_bytes→eq _ _ (ground (arith, same)) in
    let tables : table ≡ table' = eq_bytes→eq _ _ (ground (arith, same)) in
    subst (λ t. P db' t) tables (subst (λ n. P n table) dbs p)

-- Behind a CreateTable that succeeds, GetTable answers the names of the new table with its descriptor,
-- the paths that were left open filled in, and any other names with what it answered before. The
-- format can hold the descriptor.
pub get_table-create_table :
    (root_dir : Bytes) (d : TableDescriptor) (fs fs' : FileSystem) (db table : Bytes)
    → create_table root_dir d fs ≡ (ok tt, fs')
    → IsStorableDescriptor (normalize_table_descriptor root_dir d)
    → get_table root_dir fs' db table ≡ (
        if eq_bytes d.database_name db && eq_bytes d.table_name table
        then ok (normalize_table_descriptor root_dir d)
        else get_table root_dir fs db table)
get_table-create_table root_dir d fs fs' db table created storable =
    let (known, valid, fresh, e) = created_parts root_dir d fs fs' created in
    let (v, w) = created_names root_dir d fs fs' created in
    elim (Bool-cases (eq_bytes d.database_name db && eq_bytes d.table_name table)) [
      | inl same ↦
          rw (same, e)
            (same_names
              (λ db table.
                get_table root_dir (created_files root_dir d fs) db table
                ≡ ok (normalize_table_descriptor root_dir d))
              d.database_name d.table_name db table same
              (get_own root_dir d fs fs' created storable))
      | inr differ ↦
          rw (differ, e)
            (get_elsewhere root_dir d.database_name d.table_name db table fs _ v differ)
    ]

module _ (root_dir db table : Bytes) (fs fs' : FileSystem)
    (dropped : drop_table root_dir db table fs ≡ (ok tt, fs')) where
  abbrev meta_path : Bytes
  meta_path = table_meta_path root_dir db table

  dropped_parts :
      (is_valid_name db ≡ true)
      × (is_valid_name table ≡ true)
      × (database_exists root_dir fs db ≡ true)
      × (fs' ≡ changed meta_path fs none)
  unfolding drop_table remove_file find_meta_file validate_name
  dropped_parts =
      let (checks, done) = guarded_parts _ _ fs fs' dropped in
      let (valid_db, others) = both_checks _ _ checks in
      let (valid_table, rest) = both_checks _ _ others in
      let (known, found) = both_checks _ _ rest in
      (
        required_test _ _ valid_db,
        required_test _ _ valid_table,
        required_test _ _ known,
        sym (ap (λ (r : Result (Unit {0}) × FileSystem). r.1) done),
      )

  get_dropped :
      fs.directories meta_path ≡ false
      → get_table root_dir (changed meta_path fs none) db table ≡ err not_found
  unfolding get_table find_meta_file validate_name database_exists file_exists is_some
  get_dropped no_dir =
      let (valid_db, valid_table, known, e) = dropped_parts in
      rw (valid_db, valid_table, known, no_dir, eq_bytes_refl meta_path) refl

  -- Behind a DropTable that succeeds, GetTable answers the names of the table with NotFound, and any other
  -- names with what it answered before; every other file stays, those with the table's rows, indexes and
  -- versions too. No directory stands where the table's metadata is to be.
  pub get_table-drop_table :
      (db' table' : Bytes)
      → fs.directories meta_path ≡ false
      → (get_table root_dir fs' db' table' ≡ (
          if eq_bytes db db' && eq_bytes table table'
          then err not_found
          else get_table root_dir fs db' table'))
        × ((file : Bytes) → eq_bytes meta_path file ≡ false → fs'.files file ≡ fs.files file)
  get_table-drop_table db' table' no_dir =
      let (valid_db, valid_table, known, e) = dropped_parts in
      (
        elim (Bool-cases (eq_bytes db db' && eq_bytes table table')) [
          | inl same ↦
              rw (same, e)
                (same_names
                  (λ db table.
                    get_table root_dir (changed meta_path fs none) db table ≡ err not_found)
                  db table db' table' same (get_dropped no_dir))
          | inr differ ↦
              rw (differ, e) (get_elsewhere root_dir db table db' table' fs none valid_db differ)
        ],
        (λ file other. rw (e, other) refl),
      )
