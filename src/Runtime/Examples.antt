-- ===== src/Runtime/Examples.antt =====
-- Tables of users in two databases, of which one is dropped.
use database_management_syst.Prelude.{
  ℕ, ◌≡◌, refl, List, [], ◌∷◌, Bool, true, false, ◌||◌, ◌==◌, if◌then◌else◌, none, length,
}
use database_management_syst.Prelude.Int.{pos}
use database_management_syst.Prelude.Text.{codes}
use database_management_syst.Status.{Result, ok, err, not_found, already_exists}
use database_management_syst.Binary.{Bytes}
use database_management_syst.Value.{Value, int, int_type, is_null, eq_bytes}
use database_management_syst.Value
use database_management_syst.Schema.{int_column, TableDescriptor}
use database_management_syst.Serialization.Rows.{Row}
use database_management_syst.Planner.Build.{make_table_descriptor}
use database_management_syst.Catalog.Files.{starts_with}
use database_management_syst.Runtime.Parts.{NodeParts, NodeEngine, make_cache_key, opened_table}
use database_management_syst.Runtime.Operations.{drop_database}
use database_management_syst.Runtime.Dropping.{Closes, drop_database-Closes}

abbrev users : TableDescriptor
users = make_table_descriptor (codes "d") (codes "users") (
    record {
      name = codes "id";
      type = int_column;
      not_null = true;
      indexed = true;
      default_value = none;
    }
    ∷ [])

-- The rows of the table and the keys of its index.
abbrev Memory : Type 0
Memory = List Row × List Value

abbrev has_key : Value → List Value → Bool
has_key key [] = false
has_key key (first ∷ others) = let rest = has_key key others in Value.eq first key || rest

abbrev row_of : ℕ → List Row → Result Row
row_of rid [] = err not_found
row_of rid (row ∷ rows) = let rest = row_of rid rows in if row.rid == rid then ok row else rest

-- A key that is there already is refused.
abbrev insert_new : Bool → Value → Memory → Result (Unit {0}) × Memory
insert_new true key p = (err already_exists, p)
insert_new false key p = (ok tt, (p.0, key ∷ p.1))

abbrev in_memory : NodeParts Memory
in_memory = record {
  create_database = λ db p. (ok tt, p);
  drop_database = λ db p. (ok tt, p);
  create_table = λ desc p. (ok tt, p);
  drop_table = λ db table p. (ok tt, p);
  get_table = λ p db table. ok users;
  open_storage = λ key desc p. (ok tt, p);
  close_storage = λ key p. p;
  storage_insert = λ key t p.
      (ok (length p.0), (record { rid = length p.0; tuple = t; deleted = false } ∷ p.0, p.1));
  storage_update = λ key rid t p. (err not_found, p);
  storage_delete = λ key rid p. (err not_found, p);
  storage_restore = λ key rid t p. (err not_found, p);
  storage_get = λ key rid p. (row_of rid p.0, p);
  storage_scan = λ key p. (ok p.0, p);
  ensure_dir = λ path p. (ok tt, p);
  create_index = λ index type p. (ok tt, p);
  open_index = λ index type p. (ok tt, p);
  insert_key = λ name key rid p. insert_new (has_key key p.1) key p;
  delete_key = λ name key p. (ok tt, p);
  find_key = λ name key p. (ok none, p);
  open_log = λ key path p. (ok tt, p);
  close_log = λ key p. p;
  append_record = λ key r p. (ok tt, p);
  flush_log = λ key p. (ok tt, p);
  read_log = λ key p. (ok [], p);
  now_timestamp_ms = λ p. pos 0;
}

abbrev engine : NodeEngine Memory
engine = record {
  data_dir = codes "r";
  started = true;
  opened_tables = (codes "d::users", users) ∷ (codes "e::users", users) ∷ [];
  opened_version_logs = codes "d::users" ∷ [];
  parts = ([], []);
}

drop_database-Closes_example :
    let e' = (drop_database in_memory (codes "d") engine).1 in
    Closes (starts_with (codes "d::")) engine e'
    × ((table_name : Bytes)
        → opened_table (make_cache_key (codes "d") table_name) e'.opened_tables ≡ none)
drop_database-Closes_example = drop_database-Closes in_memory (codes "d") engine refl
