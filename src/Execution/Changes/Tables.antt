-- ===== src/Execution/Changes/Tables.antt =====
-- UPDATE and DELETE as plans of calls, for any engine.
use database_management_syst.Prelude.{ℕ, ◌≡◌, ap, List, Bool, Option}
use database_management_syst.Status.{Result, ok}
use database_management_syst.Status
use database_management_syst.Binary.{Bytes}
use database_management_syst.Value.{Value}
use database_management_syst.Schema.{TableSchema, TableDescriptor}
use database_management_syst.Serialization.Rows.{Row, Tuple}
use database_management_syst.Parser.Syntax.{Expr}
use database_management_syst.Evaluation.{RegexMatch}
use database_management_syst.Versions.Revert.{then_do}
use database_management_syst.Execution.Engine.{EngineM, ◌>>=◌, return, Engine, affected}
use database_management_syst.Execution.Select.{matches}
use database_management_syst.Execution.Write.{assign_values, delete_one, execute_delete}
use database_management_syst.Execution.Changes.{plan_rows, carry_out, change_rows-eq}

-- The call for a row: its id, and for an UPDATE the tuple with the values assigned.
abbrev pub deletion : Row → Result ℕ
deletion row = ok row.rid

abbrev pub replacement : TableSchema → List (Bytes × Value) → Row → Result (ℕ × Tuple)
replacement schema assignments row =
    Status.◌>>=◌ (assign_values schema row.tuple assignments) (λ tuple. ok (row.rid, tuple))

module _ {S : Type 0} (engine : Engine S) (db table : Bytes) where
  abbrev pub delete_call : ℕ → EngineM S (Unit {0})
  delete_call rid = engine.delete_row db table rid

  abbrev pub update_call : ℕ × Tuple → EngineM S (Unit {0})
  update_call (rid, tuple) = engine.update_row db table rid tuple

module _ {S : Type 0} (engine : Engine S) (regex : RegexMatch) (db table : Bytes)
    (predicate : Option Expr) where
  -- Whether the condition holds at a row.
  abbrev pub condition_at : TableDescriptor → Row → Result Bool
  condition_at descriptor row = matches regex predicate descriptor.schema row.tuple

  module _ (descriptor : TableDescriptor) (rows : List Row) (s s1 s2 : S)
      (described : engine.get_table_descriptor db table s ≡ (ok descriptor, s1))
      (scanned : engine.scan_table db table s1 ≡ (ok rows, s2)) where
    -- If the table's descriptor and then its rows are read, a DELETE is the calls of a plan made from
    -- these rows: the ids, in order, of the rows that are not deleted and that the condition holds
    -- at, up to the first row, not deleted, at which its evaluation fails. The calls are done in
    -- order, and the first that fails ends the statement with its failure, in the state it left;
    -- else the answer is the evaluation's failure, or the count of the calls.
    pub execute_delete_lem :
        execute_delete engine regex db table predicate s
        ≡ (carry_out
                (delete_call engine db table)
                (plan_rows (condition_at descriptor) deletion rows)
              >>= λ n. return (affected n))
            s2
    unfolding execute_delete delete_one
    execute_delete_lem =
        rw (described, scanned)
          (ap (λ outcome. then_do outcome (λ n. return (affected n)))
            (change_rows-eq engine regex db table descriptor.schema predicate deletion
              (delete_call engine db table) rows s2))
