-- ===== src/Catalog/Examples.antt =====
-- A table in a catalog under the directory `r`.
use database_management_syst.Prelude.{
  ◌≡◌, refl, [], ◌∷◌, ◌&&◌, true, false, if◌then◌else◌, none, arith,
}
use database_management_syst.Prelude.Text.{codes}
use database_management_syst.Status.{ok, err, not_found}
use database_management_syst.Binary.{Bytes}
use database_management_syst.Value.{eq_bytes}
use database_management_syst.Schema.{int_column, TableDescriptor}
use database_management_syst.Planner.Build.{make_table_descriptor}
use database_management_syst.Catalog.Files.{FileSystem, table_meta_path}
use database_management_syst.Catalog.Checks.{normalize_table_descriptor}
use database_management_syst.Catalog.Manager.{create_database, create_table, drop_table, get_table}
use database_management_syst.Catalog.Steps.{created_files, changed}
use database_management_syst.Catalog.Tables.{get_table-create_table, get_table-drop_table}

abbrev root : Bytes
root = codes "r"

abbrev no_files : FileSystem
no_files = record { directories = λ p. false; files = λ p. none }

-- Behind CREATE DATABASE d.
abbrev with_database : FileSystem
with_database = (create_database root (codes "d") no_files).1

abbrev users : TableDescriptor
users = make_table_descriptor (codes "d") (codes "users") (
    record {
      name = codes "id";
      type = int_column;
      not_null = true;
      indexed = true;
      default_value = none;
    }
    ∷ [])

users_created :
    create_table root users with_database ≡ (ok tt, created_files root users with_database)
unfolding create_table create_database make_table_descriptor
users_created = refl

get_table-create_table_example :
    get_table root (created_files root users with_database) (codes "d") (codes "users") ≡ (
      if eq_bytes users.database_name (codes "d") && eq_bytes users.table_name (codes "users")
      then ok (normalize_table_descriptor root users)
      else get_table root with_database (codes "d") (codes "users"))
unfolding normalize_table_descriptor make_table_descriptor
get_table-create_table_example =
    get_table-create_table root users with_database (created_files root users with_database)
      (codes "d") (codes "users") users_created (omega arith)

abbrev with_users : FileSystem
with_users = created_files root users with_database

abbrev users_meta : Bytes
users_meta = table_meta_path root (codes "d") (codes "users")

users_dropped :
    drop_table root (codes "d") (codes "users") with_users
    ≡ (ok tt, changed users_meta with_users none)
unfolding drop_table create_database make_table_descriptor
users_dropped = refl

get_table-drop_table_example :
    (get_table root (changed users_meta with_users none) (codes "d") (codes "users") ≡ (
      if eq_bytes (codes "d") (codes "d") && eq_bytes (codes "users") (codes "users")
      then err not_found
      else get_table root with_users (codes "d") (codes "users")))
    × ((file : Bytes)
        → eq_bytes users_meta file ≡ false
        → (changed users_meta with_users none).files file ≡ with_users.files file)
unfolding create_database table_meta_path
get_table-drop_table_example =
    get_table-drop_table root (codes "d") (codes "users") with_users
      (changed users_meta with_users none) users_dropped (codes "d") (codes "users") refl
