-- ===== src/Execution/Engine.antt =====
-- What the executors call of StorageNodeEngine and of its index manager, as an interface, and
-- server/query_result.h. A QueryResult that is not ok is an `err`.
use database_management_syst.Prelude.{ℕ, List, [], Option}
use database_management_syst.Status.{Result, ok}
use database_management_syst.Binary.{Bytes}
use database_management_syst.Value.{Value, ValueType}
use database_management_syst.Schema.{IndexDescriptor, TableDescriptor}
use database_management_syst.Serialization.Rows.{Row, Tuple}
use database_management_syst.Versions.Revert.{EngineOps, then_do}

-- A call changes the engine's state and returns its outputs or fails.
abbrev pub EngineM : Type 0 → Type 0 → Type 0
EngineM S A = S → Result A × S

-- `if (!status.ok()) return status;`
infixl 5 ◌>>=◌
abbrev pub ◌>>=◌ : {S A B : Type 0} → EngineM S A → (A → EngineM S B) → EngineM S B
◌>>=◌ call next s = then_do (call s) next

abbrev pub return : {S A : Type 0} → A → EngineM S A
return a s = (ok a, s)

-- A step that does not touch the engine.
abbrev pub lift : {S A : Type 0} → Result A → EngineM S A
lift r s = (r, s)

-- Each call on a table takes the names of its database and of the table.
pub record Engine (S : Type 0) : Type 0 where
  -- `catalog().GetTable`.
  pub get_table : S → Bytes → Bytes → Result TableDescriptor
  pub create_database : Bytes → EngineM S (Unit {0})
  pub drop_database : Bytes → EngineM S (Unit {0})
  pub create_table : TableDescriptor → EngineM S (Unit {0})
  pub drop_table : Bytes → Bytes → EngineM S (Unit {0})
  pub get_table_descriptor : Bytes → Bytes → EngineM S TableDescriptor
  pub scan_table : Bytes → Bytes → EngineM S (List Row)
  pub insert_row : Bytes → Bytes → Tuple → EngineM S ℕ
  pub update_row : Bytes → Bytes → ℕ → Tuple → EngineM S (Unit {0})
  pub delete_row : Bytes → Bytes → ℕ → EngineM S (Unit {0})
  pub create_index : IndexDescriptor → ValueType → EngineM S (Unit {0})
  pub find_key : Bytes → Value → EngineM S (Option ℕ)
  pub revert_ops : EngineOps S

-- `none` is a row of which a column outside it was read, which is undefined.
pub record QueryResult : Type 0 where
  pub columns : List Bytes
  pub rows : List (Option Tuple)
  pub affected_rows : ℕ

abbrev pub affected : ℕ → QueryResult
affected n = record { columns = []; rows = []; affected_rows = n }
