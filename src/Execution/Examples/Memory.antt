-- ===== src/Execution/Examples/Memory.antt =====
-- An engine that holds the rows of one table in memory, for the examples.
use database_management_syst.Prelude.{
  ℕ, List, [], ◌∷◌, Bool, true, false, not, ◌&&◌, ◌==◌, if◌then◌else◌, Option, none, some,
}
use database_management_syst.Prelude.Int.{pos}
use database_management_syst.Prelude.Text.{codes}
use database_management_syst.Status.{ok, err, not_found}
use database_management_syst.Binary.{Bytes}
use database_management_syst.Value.{Value, int, eq_bytes}
use database_management_syst.Value
use database_management_syst.Schema.{int_column, ColumnSchema, TableDescriptor}
use database_management_syst.Serialization.Rows.{Row}
use database_management_syst.Execution.Engine.{Engine}

abbrev pub int_of : Bytes → Bool → ColumnSchema
int_of name indexed = record {
  name = name;
  type = int_column;
  not_null = true;
  indexed = indexed;
  default_value = none;
}

abbrev pub users : TableDescriptor
users = record {
  database_name = codes "d";
  table_name = codes "users";
  data_file = codes "f";
  index_dir = codes "i";
  schema = int_of (codes "age") false ∷ int_of (codes "id") true ∷ [];
  indexes = [];
}

abbrev pub user : ℕ → ℕ → ℕ → Row
user rid age id = record { rid = rid; tuple = int (pos age) ∷ int (pos id) ∷ []; deleted = false }

abbrev pub mark : (Row → Row) → ℕ → List Row → List Row
mark f rid [] = []
mark f rid (row ∷ rows) =
    let rest = mark f rid rows in if row.rid == rid then f row ∷ rows else row ∷ rest

abbrev pub is_id : Value → Row → Bool
is_id key row = elim row.tuple [
  | [] ↦ false
  | age ∷ values ↦ elim values [ [] ↦ false | id ∷ others ↦ Value.eq id key ]
]

-- The index on `id`.
abbrev pub find_id : Value → List Row → Option ℕ
find_id key [] = none
find_id key (row ∷ rows) =
    let rest = find_id key rows in if not row.deleted && is_id key row then some row.rid else rest

abbrev pub memory : Engine (List Row)
memory = record {
  get_table = λ rows db table. ok users;
  create_database = λ db rows. (ok tt, rows);
  drop_database = λ db rows. (ok tt, []);
  create_table = λ descriptor rows. (ok tt, rows);
  drop_table = λ db table rows. (ok tt, []);
  get_table_descriptor = λ db table rows. (ok users, rows);
  scan_table = λ db table rows. (ok rows, rows);
  insert_row = λ db table t rows. (ok 0, record { rid = 0; tuple = t; deleted = false } ∷ rows);
  update_row = λ db table rid t rows. (ok tt, mark (λ row. record row { tuple = t }) rid rows);
  delete_row = λ db table rid rows. (ok tt, mark (λ row. record row { deleted = true }) rid rows);
  create_index = λ descriptor type rows. (ok tt, rows);
  find_key = λ name key rows. (ok (find_id key rows), rows);
  revert_ops = record {
    open_table = λ db table rows. (ok tt, rows);
    read_version_log = λ db table rows. (ok [], rows);
    delete_internal = λ db table rid logged rows. (err not_found, rows);
    restore_internal = λ db table rid t logged rows. (err not_found, rows);
    update_internal = λ db table rid t logged rows. (err not_found, rows);
  };
}
