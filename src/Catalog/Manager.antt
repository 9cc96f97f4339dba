-- ===== src/Catalog/Manager.antt =====
-- The operations of CatalogManager on the file system, for one root directory.
use database_management_syst.Prelude.{
  ℕ, List, [], ◌∷◌, Bool, not, ◌&&◌, ◌==◌, ltb, if◌then◌else◌, length, drop, ◌-◌,
}
use database_management_syst.Prelude.Text.{codes}
use database_management_syst.Status.{
  Result, ok, err, invalid_argument, not_found, already_exists, ◌>>=◌, ◌>>◌, require,
}
use database_management_syst.Binary.{Bytes}
use database_management_syst.Value.{eq_bytes, lt_bytes}
use database_management_syst.Schema.{TableDescriptor}
use database_management_syst.Serialization.Catalog.{
  serialize_table_descriptor, deserialize_table_descriptor,
}
use database_management_syst.Catalog.Files.{
  FileSystem, ensure_dir, file_exists, remove_file, remove_all, read_all_bytes, write_all_bytes,
  is_some, database_path, catalog_dir_path, tables_dir_path, indexes_dir_path, versions_dir_path,
  table_meta_path,
}
use database_management_syst.Catalog.Checks.{
  validate_name, validate_table_descriptor, normalize_table_descriptor,
}

abbrev pub FilesM : Type 0
FilesM = FileSystem → Result (Unit {0}) × FileSystem

-- A change of the files behind checks that only read them.
unfoldable pub guarded : Result (Unit {0}) → FilesM → FilesM
guarded (ok done) change fs = change fs
guarded (err code) change fs = (err code, fs)

abbrev pub changed_by : (FileSystem → FileSystem) → FilesM
changed_by change fs = (ok tt, change fs)

unfoldable pub write_table_meta_file : Bytes → TableDescriptor → FilesM
unfolding write_all_bytes
write_table_meta_file path desc = write_all_bytes path (serialize_table_descriptor desc [])

-- The descriptor must take all of the file's bytes and be valid.
unfoldable pub whole_descriptor : Bytes → TableDescriptor × ℕ → Result TableDescriptor
unfolding validate_table_descriptor
whole_descriptor bytes (desc, offset) =
    require (offset == length bytes) invalid_argument >> (validate_table_descriptor desc >> ok desc)

unfoldable pub read_table_meta_file : FileSystem → Bytes → Result TableDescriptor
unfolding read_all_bytes whole_descriptor
read_table_meta_file fs path = do
  bytes ← read_all_bytes fs path
  result ← deserialize_table_descriptor bytes 0
  whole_descriptor bytes result

-- Whether the path's last name ends with `.meta`, with something in front of it.
unfoldable pub has_meta_extension : Bytes → Bool
unfolding eq_bytes
has_meta_extension path =
    let stem_length = length path - 5 in
    ltb 5 (length path)
    && (eq_bytes (drop stem_length path) (codes ".meta")
        && not (eq_bytes (drop (stem_length - 1) path) (codes "/.meta")))

-- std::sort by the tables' names.
unfoldable pub insert_table : TableDescriptor → List TableDescriptor → List TableDescriptor
unfolding lt_bytes
insert_table desc [] = desc ∷ []
insert_table desc (first ∷ rest) =
    let later = insert_table desc rest in
    if lt_bytes first.table_name desc.table_name then first ∷ later else desc ∷ (first ∷ rest)

unfoldable pub sort_tables : List TableDescriptor → List TableDescriptor
unfolding insert_table
sort_tables [] = []
sort_tables (desc ∷ rest) = insert_table desc (sort_tables rest)

module _ (root_dir : Bytes) where
  unfoldable pub database_exists : FileSystem → Bytes → Bool
  unfolding database_path
  database_exists fs db_name = fs.directories (database_path root_dir db_name)

  unfoldable pub make_directories : Bytes → FileSystem → FileSystem
  unfolding ensure_dir database_path catalog_dir_path tables_dir_path indexes_dir_path
      versions_dir_path
  make_directories db_name fs = ensure_dir (versions_dir_path root_dir db_name) (
      ensure_dir (indexes_dir_path root_dir db_name) (
        ensure_dir (tables_dir_path root_dir db_name) (
          ensure_dir (catalog_dir_path root_dir db_name)
            (ensure_dir (database_path root_dir db_name) fs))))

  -- The root directory is made in front of the check that the database is not there.
  unfoldable pub create_in_root : Bytes → FilesM
  unfolding guarded database_exists make_directories
  create_in_root db_name fs =
      guarded (require (not (database_exists fs db_name)) already_exists)
        (changed_by (make_directories db_name)) fs

  unfoldable pub create_database : Bytes → FilesM
  unfolding validate_name guarded create_in_root ensure_dir
  create_database db_name =
      guarded (validate_name db_name) (λ fs. create_in_root db_name (ensure_dir root_dir fs))

  unfoldable pub drop_database : Bytes → FilesM
  unfolding validate_name guarded database_exists remove_all database_path
  drop_database db_name fs =
      guarded (validate_name db_name >> require (database_exists fs db_name) not_found)
        (changed_by (remove_all (database_path root_dir db_name))) fs

  unfoldable pub create_checks : FileSystem → TableDescriptor → Result (Unit {0})
  unfolding database_exists validate_table_descriptor file_exists table_meta_path
  create_checks fs normalized =
      validate_table_descriptor normalized
      >> require
          (not (
            file_exists fs
              (table_meta_path root_dir normalized.database_name normalized.table_name)))
          already_exists

  unfoldable pub create_table : TableDescriptor → FilesM
  unfolding guarded create_checks write_table_meta_file normalize_table_descriptor table_meta_path
  create_table table fs =
      let normalized = normalize_table_descriptor root_dir table in
      guarded
        (require (database_exists fs table.database_name) not_found >> create_checks fs normalized)
        (write_table_meta_file
          (table_meta_path root_dir normalized.database_name normalized.table_name) normalized)
        fs

  -- What DropTable and GetTable check.
  unfoldable pub find_meta_file : FileSystem → Bytes → Bytes → Result (Unit {0})
  unfolding validate_name database_exists file_exists table_meta_path
  find_meta_file fs db_name table_name =
      validate_name db_name
      >> (validate_name table_name
          >> (require (database_exists fs db_name) not_found
              >> require (file_exists fs (table_meta_path root_dir db_name table_name)) not_found))

  unfoldable pub drop_table : Bytes → Bytes → FilesM
  unfolding find_meta_file guarded remove_file table_meta_path
  drop_table db_name table_name fs =
      guarded (find_meta_file fs db_name table_name)
        (changed_by (remove_file (table_meta_path root_dir db_name table_name))) fs

  unfoldable pub get_table : FileSystem → Bytes → Bytes → Result TableDescriptor
  unfolding find_meta_file read_table_meta_file table_meta_path
  get_table fs db_name table_name =
      find_meta_file fs db_name table_name
      >> read_table_meta_file fs (table_meta_path root_dir db_name table_name)

  unfoldable pub meta_entry : FileSystem → Bytes → Bool
  unfolding is_some has_meta_extension
  meta_entry fs entry = is_some (fs.files entry) && has_meta_extension entry

  -- The loop over the paths in the directory, in the order in which the iterator gives them.
  unfoldable pub read_tables : FileSystem → List Bytes → Result (List TableDescriptor)
  unfolding meta_entry read_table_meta_file
  read_tables fs [] = ok []
  read_tables fs (entry ∷ entries) =
      let rest = read_tables fs entries in
      let found : Result (List TableDescriptor) =
        read_table_meta_file fs entry >>= λ desc. rest >>= λ others. ok (desc ∷ others) in
      if meta_entry fs entry then found else rest

  unfoldable pub list_tables : FileSystem → Bytes → List Bytes → Result (List TableDescriptor)
  unfolding validate_name database_exists catalog_dir_path read_tables sort_tables
  list_tables fs db_name entries =
      validate_name db_name
      >> (require (database_exists fs db_name) not_found
          >> (require (fs.directories (catalog_dir_path root_dir db_name)) not_found
              >> (read_tables fs entries >>= λ tables. ok (sort_tables tables))))
