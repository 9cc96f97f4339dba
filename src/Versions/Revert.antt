-- ===== src/Versions/Revert.antt =====
-- versioning/revert.cpp: a table is brought back to a time by undoing the changes that its log has
-- behind that time, the last one first. The storage node engine is an interface.
pub mod Views
pub mod Undo
mod Examples
use database_management_syst.Prelude.{
  ℕ, List, [], ◌∷◌, ◌++◌, Bool, true, false, not, ◌&&◌, if◌then◌else◌,
}
use database_management_syst.Prelude.Int.{ℤ, ltb_ℤ}
use database_management_syst.Status.{Result, ok, err, invalid_argument}
use database_management_syst.Binary.{Bytes}
use database_management_syst.Value.{eq_bytes}
use database_management_syst.Serialization.Rows.{Tuple}
use database_management_syst.Versions.{VersionOp, insert, update, delete, unknown, VersionRecord}

-- What RevertService calls of StorageNodeEngine: each takes the names of database and table. The flag
-- says whether the change is logged.
pub record EngineOps (S : Type 0) : Type 0 where
  pub open_table : Bytes → Bytes → S → Result (Unit {0}) × S
  pub read_version_log : Bytes → Bytes → S → Result (List VersionRecord) × S
  pub delete_internal : Bytes → Bytes → ℕ → Bool → S → Result (Unit {0}) × S
  pub restore_internal : Bytes → Bytes → ℕ → Tuple → Bool → S → Result (Unit {0}) × S
  pub update_internal : Bytes → Bytes → ℕ → Tuple → Bool → S → Result (Unit {0}) × S

-- `if (!status.ok()) return status;`
abbrev pub then_do : {S A B : Type 0} → Result A × S → (A → S → Result B × S) → Result B × S
then_do (ok a, s) next = next a s
then_do (err code, s) next = (err code, s)

unfoldable pub is_after : Bytes → ℤ → VersionRecord → Bool
is_after table_name timestamp_ms r =
    eq_bytes r.table_name table_name && ltb_ℤ timestamp_ms r.timestamp_ms

unfoldable pub collect_rollback_records : Bytes → ℤ → List VersionRecord → List VersionRecord
unfolding is_after
collect_rollback_records table_name timestamp_ms [] = []
collect_rollback_records table_name timestamp_ms (r ∷ rs) =
    let rest = collect_rollback_records table_name timestamp_ms rs in
    if is_after table_name timestamp_ms r then r ∷ rest else rest

abbrev pub reversed {ℓ} : {A : Type ℓ} → List A → List A
reversed [] = []
reversed (x ∷ xs) = reversed xs ++ (x ∷ [])

module _ {S : Type 0} (engine : EngineOps S) (db_name table_name : Bytes) where
  unfoldable pub apply_inverse : VersionOp → ℕ → Tuple → S → Result (Unit {0}) × S
  apply_inverse insert rid before s = engine.delete_internal db_name table_name rid false s
  apply_inverse delete rid before s = engine.restore_internal db_name table_name rid before false s
  apply_inverse update rid before s = engine.update_internal db_name table_name rid before false s
  apply_inverse (unknown n) rid before s = (err invalid_argument, s)

  unfoldable pub apply_inverse_record : VersionRecord → S → Result (Unit {0}) × S
  unfolding apply_inverse
  apply_inverse_record r = apply_inverse r.op r.rid r.before

  unfoldable pub apply_inverse_records : List VersionRecord → S → Result (Unit {0}) × S
  unfolding apply_inverse_record
  apply_inverse_records [] s = (ok tt, s)
  apply_inverse_records (r ∷ rs) s =
      then_do (apply_inverse_record r s) (λ _ s. apply_inverse_records rs s)

  unfoldable pub load_records : S → Result (List VersionRecord) × S
  load_records s =
      then_do (engine.open_table db_name table_name s)
        (λ _ s. engine.read_version_log db_name table_name s)

  unfoldable pub revert_table_to_timestamp : ℤ → S → Result (Unit {0}) × S
  unfolding load_records collect_rollback_records apply_inverse_records
  revert_table_to_timestamp timestamp_ms s = then_do (load_records s) λ all_records s.
      apply_inverse_records
        (reversed (collect_rollback_records table_name timestamp_ms all_records)) s
