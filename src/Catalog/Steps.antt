-- ===== src/Catalog/Steps.antt =====
-- What CreateTable and DropTable check and change, and what GetTable reads of it.
use mathlib.Core.List.{append-nil}
use database_management_syst.Prelude.{
  ◌≡◌, refl, sym, ap, subst, inl, inr, [], Bool, true, false, not, ◌&&◌, Bool-cases, ==_iff,
  if◌then◌else◌, Option, some, length, arith,
}
use database_management_syst.Status
use database_management_syst.Status.{Result, ok, err, StatusCode, not_found, require, ◌>>◌, ◌>>=◌}
use database_management_syst.Binary.{Bytes}
use database_management_syst.Value.{eq_bytes}
use database_management_syst.Value.Order.{eq_bytes→eq, eq_bytes_refl}
use database_management_syst.Schema.{TableDescriptor}
use database_management_syst.Serialization.Catalog.{
  serialize_table_descriptor, deserialize_table_descriptor,
}
use database_management_syst.Serialization.Catalog.RoundTrip.{
  IsStorableDescriptor, deserialize_table_descriptor-serialize,
}
use database_management_syst.Catalog.Files.{
  FileSystem, parent_dir, write_all_bytes, read_all_bytes, file_exists, is_some, table_meta_path,
}
use database_management_syst.Catalog.Checks.{
  is_valid_name, validate_name, validate_table_descriptor, normalize_table_descriptor,
}
use database_management_syst.Catalog.Manager.{
  FilesM, guarded, write_table_meta_file, whole_descriptor, read_table_meta_file, database_exists,
  create_checks, create_table, find_meta_file, get_table,
}
use database_management_syst.Catalog.Paths.{is_valid_name-has_slash, table_meta_path_injective}

abbrev pub Passes : Result (Unit {0}) → Type 0
Passes r = r ≡ ok tt

pub both_checks : (a b : Result (Unit {0})) → Passes (a >> b) → Passes a × Passes b
both_checks (ok u) b h = (refl, h)
both_checks (err code) b h = absurd (cc)

pub required_test : (test : Bool) (code : StatusCode) → Passes (require test code) → test ≡ true
required_test true code h = refl
required_test false code h = absurd (cc)

pub guarded_parts :
    (r : Result (Unit {0})) (change : FilesM) (fs fs' : FileSystem)
    → guarded r change fs ≡ (ok tt, fs')
    → Passes r × (change fs ≡ (ok tt, fs'))
unfolding guarded
guarded_parts (ok u) change fs fs' h = (refl, h)
guarded_parts (err code) change fs fs' h = absurd (cc)

-- A file in its place.
abbrev pub with_file : Bytes → Bytes → FileSystem → FileSystem
with_file path bytes fs = record fs {
  files = λ p. if eq_bytes path p then some bytes else fs.files p;
}

written :
    (path bytes : Bytes) (fs fs' : FileSystem)
    → write_all_bytes path bytes fs ≡ (ok tt, fs')
    → fs' ≡ with_file path bytes fs
unfolding write_all_bytes
written path bytes fs fs' h = go (fs.directories (parent_dir path) && not (fs.directories path)) h
  where
    go :
        (b : Bool)
        → ◌≡◌ {A = Result (Unit {0}) × FileSystem}
            (if b then (ok tt, with_file path bytes fs) else (err Status.internal_error, fs))
            (ok tt, fs')
        → fs' ≡ with_file path bytes fs
    go true h = ap (λ (r : Result (Unit {0}) × FileSystem). r.1) (sym h)
    go false h = absurd (cc)

-- The files behind a CreateTable.
abbrev pub created_files : Bytes → TableDescriptor → FileSystem → FileSystem
created_files root_dir d fs =
    with_file (table_meta_path root_dir d.database_name d.table_name)
      (serialize_table_descriptor (normalize_table_descriptor root_dir d) []) fs

module _ (root_dir : Bytes) (d : TableDescriptor) (fs fs' : FileSystem)
    (created : create_table root_dir d fs ≡ (ok tt, fs')) where
  abbrev stored : TableDescriptor
  stored = normalize_table_descriptor root_dir d

  abbrev path : Bytes
  path = table_meta_path root_dir d.database_name d.table_name

  abbrev bytes : Bytes
  bytes = serialize_table_descriptor stored []

  -- What a creation that succeeds has checked and done.
  pub created_parts :
      (database_exists root_dir fs d.database_name ≡ true)
      × Passes (validate_table_descriptor stored)
      × (file_exists fs path ≡ false)
      × (fs' ≡ with_file path bytes fs)
  unfolding create_table create_checks write_table_meta_file normalize_table_descriptor
  created_parts =
      let (checks, wrote) = guarded_parts _ _ fs fs' created in
      let (known, others) = both_checks _ _ checks in
      let (valid, fresh) = both_checks _ _ others in
      (
        required_test _ _ known,
        valid,
        ground (arith, required_test _ _ fresh),
        written path bytes fs fs' wrote,
      )

  pub created_names : (is_valid_name d.database_name ≡ true) × (is_valid_name d.table_name ≡ true)
  unfolding validate_table_descriptor validate_name normalize_table_descriptor
  created_names =
      let (known, valid, fresh, e) = created_parts in
      let (db, others) = both_checks _ _ valid in
      let (table, rest) = both_checks _ _ others in (required_test _ _ db, required_test _ _ table)

  find_own : Passes (find_meta_file root_dir (with_file path bytes fs) d.database_name d.table_name)
  unfolding find_meta_file validate_name database_exists file_exists is_some
  find_own =
      let (known, valid, fresh, e) = created_parts in
      let (db, table) = created_names in
      let no_dir : fs.directories path ≡ false = ground (arith, fresh) in
      rw (db, table, known, no_dir, eq_bytes_refl path) refl

  read_bytes : read_all_bytes (with_file path bytes fs) path ≡ ok bytes
  unfolding read_all_bytes
  read_bytes = rw (eq_bytes_refl path, read_all_bytes) refl

  whole_own : whole_descriptor bytes (stored, length bytes) ≡ ok stored
  unfolding whole_descriptor
  whole_own =
      let (known, valid, fresh, e) = created_parts in
      rw ((==_iff (length bytes) (length bytes)).1 refl) (rw valid refl)

  read_own :
      IsStorableDescriptor stored → read_table_meta_file (with_file path bytes fs) path ≡ ok stored
  unfolding read_table_meta_file
  read_own storable =
      let back : deserialize_table_descriptor bytes 0 ≡ ok (stored, length bytes) =
        subst (λ b. deserialize_table_descriptor b 0 ≡ ok (stored, length bytes)) (append-nil bytes)
          (deserialize_table_descriptor-serialize stored [] [] storable) in
      rw (read_bytes, read_table_meta_file) (rw back whole_own)

  pub get_own :
      IsStorableDescriptor stored
      → get_table root_dir (with_file path bytes fs) d.database_name d.table_name ≡ ok stored
  unfolding get_table
  get_own storable = rw (find_own, get_table) (read_own storable)

abbrev pub changed : Bytes → FileSystem → Option Bytes → FileSystem
changed path fs new = record fs { files = λ p. if eq_bytes path p then new else fs.files p }

-- Another file does not matter to a table.
module _ (root_dir db table path : Bytes) (fs : FileSystem) (new : Option Bytes)
    (other : eq_bytes path (table_meta_path root_dir db table) ≡ false) where
  find_other :
      find_meta_file root_dir (changed path fs new) db table ≡ find_meta_file root_dir fs db table
  unfolding find_meta_file database_exists file_exists
  find_other = rw other refl

  bytes_other :
      read_all_bytes (changed path fs new) (table_meta_path root_dir db table)
      ≡ read_all_bytes fs (table_meta_path root_dir db table)
  unfolding read_all_bytes
  bytes_other = rw (other, read_all_bytes) refl

  read_other :
      read_table_meta_file (changed path fs new) (table_meta_path root_dir db table)
      ≡ read_table_meta_file fs (table_meta_path root_dir db table)
  unfolding read_table_meta_file
  read_other = rw (bytes_other, read_table_meta_file) refl

  get_other : get_table root_dir (changed path fs new) db table ≡ get_table root_dir fs db table
  unfolding get_table
  get_other = simp (find_other, read_other)

-- An invalid name of a database is refused whatever the files are.
get_invalid :
    (root_dir db table : Bytes) (fs fs' : FileSystem)
    → is_valid_name db ≡ false
    → get_table root_dir fs db table ≡ get_table root_dir fs' db table
unfolding get_table find_meta_file validate_name
get_invalid root_dir db table fs fs' invalid = rw invalid refl

-- Two tables have the same names, or their metadata is in different files.
same_or_other :
    (root_dir db table db' table' : Bytes)
    → is_valid_name db ≡ true
    → is_valid_name db' ≡ true
    → (eq_bytes db db' && eq_bytes table table') ≡ false
    → eq_bytes (table_meta_path root_dir db table) (table_meta_path root_dir db' table') ≡ false
same_or_other root_dir db table db' table' v v' differ =
    elim (Bool-cases
      (eq_bytes (table_meta_path root_dir db table) (table_meta_path root_dir db' table'))) [
        | inr other ↦ other
        | inl same ↦
            let (dbs, tables) =
              table_meta_path_injective root_dir db table db' table' (is_valid_name-has_slash db v)
                (is_valid_name-has_slash db' v') (eq_bytes→eq _ _ same) in
            absurd (
              ground (
                arith,
                differ,
                subst (λ x. eq_bytes db x ≡ true) dbs (eq_bytes_refl db),
                subst (λ x. eq_bytes table x ≡ true) tables (eq_bytes_refl table),
              ))
      ]

-- A change of the file of a valid table leaves every table of other names.
pub get_elsewhere :
    (root_dir db table db' table' : Bytes) (fs : FileSystem) (new : Option Bytes)
    → is_valid_name db ≡ true
    → (eq_bytes db db' && eq_bytes table table') ≡ false
    → get_table root_dir (changed (table_meta_path root_dir db table) fs new) db' table'
      ≡ get_table root_dir fs db' table'
get_elsewhere root_dir db table db' table' fs new v differ = elim (Bool-cases (is_valid_name db')) [
  | inl v' ↦
      get_other root_dir db' table' _ fs new
        (same_or_other root_dir db table db' table' v v' differ)
  | inr invalid ↦ get_invalid root_dir db' table' _ fs invalid
]
