-- ===== src/Catalog/Files.antt =====
-- common/file_utils.cpp over a file system, and the paths of catalog_manager.cpp. A path is its text: the
-- names `.` and links are left out. Only the failures that the files' presence decides occur.
use database_management_syst.Prelude.{
  [], ◌∷◌, ◌++◌, Bool, true, false, not, ◌&&◌, ◌||◌, ◌==◌, if◌then◌else◌, Option, none, some,
}
use database_management_syst.Prelude.Text.{codes}
use database_management_syst.Status.{Result, ok, err, internal_error}
use database_management_syst.Binary.{Bytes}
use database_management_syst.Value.{eq_bytes}

-- Whether a directory is at a path, and the bytes of the file there.
pub record FileSystem : Type 0 where
  pub directories : Bytes → Bool
  pub files : Bytes → Option Bytes

unfoldable pub has_slash : Bytes → Bool
has_slash [] = false
has_slash (c ∷ cs) = c == b'/' || has_slash cs

-- The text in front of the last slash.
unfoldable pub parent_dir : Bytes → Bytes
unfolding has_slash
parent_dir [] = []
parent_dir (c ∷ cs) = let rest = parent_dir cs in if has_slash cs then c ∷ rest else []

unfoldable pub starts_with : Bytes → Bytes → Bool
starts_with [] text = true
starts_with (c ∷ prefix) [] = false
starts_with (c ∷ prefix) (d ∷ text) = c == d && starts_with prefix text

unfoldable pub is_some {ℓ} : {A : Type ℓ} → Option A → Bool
is_some none = false
is_some (some a) = true

unfoldable pub ensure_dir : Bytes → FileSystem → FileSystem
unfolding eq_bytes
ensure_dir path fs = record fs {
  directories = λ p. if eq_bytes path p then true else fs.directories p;
}

unfoldable pub file_exists : FileSystem → Bytes → Bool
unfolding is_some
file_exists fs path = fs.directories path || is_some (fs.files path)

unfoldable pub remove_file : Bytes → FileSystem → FileSystem
unfolding eq_bytes
remove_file path fs = record fs { files = λ p. if eq_bytes path p then none else fs.files p }

-- A directory with all that is under it.
unfoldable pub is_under : Bytes → Bytes → Bool
unfolding eq_bytes starts_with
is_under path p = eq_bytes path p || starts_with (path ++ codes "/") p

unfoldable pub remove_all : Bytes → FileSystem → FileSystem
unfolding is_under
remove_all path fs = record {
  directories = λ p. if is_under path p then false else fs.directories p;
  files = λ p. if is_under path p then none else fs.files p;
}

unfoldable pub read_all_bytes : FileSystem → Bytes → Result Bytes
read_all_bytes fs path = elim (fs.files path) [ none ↦ err internal_error | some bytes ↦ ok bytes ]

-- The file can be opened if its directory is there and it is no directory itself.
unfoldable pub write_all_bytes : Bytes → Bytes → FileSystem → Result (Unit {0}) × FileSystem
unfolding parent_dir eq_bytes
write_all_bytes path bytes fs =
    if fs.directories (parent_dir path) && not (fs.directories path)
    then (ok tt, record fs { files = λ p. if eq_bytes path p then some bytes else fs.files p })
    else (err internal_error, fs)

unfoldable pub database_path : Bytes → Bytes → Bytes
database_path root_dir db_name = root_dir ++ (codes "/" ++ db_name)

unfoldable pub catalog_dir_path : Bytes → Bytes → Bytes
unfolding database_path
catalog_dir_path root_dir db_name = database_path root_dir db_name ++ codes "/catalog"

unfoldable pub tables_dir_path : Bytes → Bytes → Bytes
unfolding database_path
tables_dir_path root_dir db_name = database_path root_dir db_name ++ codes "/tables"

unfoldable pub indexes_dir_path : Bytes → Bytes → Bytes
unfolding database_path
indexes_dir_path root_dir db_name = database_path root_dir db_name ++ codes "/indexes"

unfoldable pub versions_dir_path : Bytes → Bytes → Bytes
unfolding database_path
versions_dir_path root_dir db_name = database_path root_dir db_name ++ codes "/versions"

unfoldable pub table_meta_path : Bytes → Bytes → Bytes → Bytes
unfolding catalog_dir_path
table_meta_path root_dir db_name table_name =
    catalog_dir_path root_dir db_name ++ (codes "/" ++ (table_name ++ codes ".meta"))

unfoldable pub default_table_data_path : Bytes → Bytes → Bytes → Bytes
unfolding tables_dir_path
default_table_data_path root_dir db_name table_name =
    tables_dir_path root_dir db_name ++ (codes "/" ++ (table_name ++ codes ".tbl"))

unfoldable pub default_table_index_dir : Bytes → Bytes → Bytes → Bytes
unfolding indexes_dir_path
default_table_index_dir root_dir db_name table_name =
    indexes_dir_path root_dir db_name ++ (codes "/" ++ table_name)

unfoldable pub default_index_file_path : Bytes → Bytes → Bytes
default_index_file_path index_dir index_name =
    index_dir ++ (codes "/" ++ (index_name ++ codes ".idx"))
