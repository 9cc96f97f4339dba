-- ===== src/Transactions/Examples.antt =====
-- The end of a transaction at a concrete input.
use database_management_syst.Prelude.{refl, [], ◌∷◌, some, List}
use database_management_syst.Locks.{Transaction, active, committed, aborted, serializable}
use database_management_syst.Locks.Invariant.{empty_manager}
use database_management_syst.Locks.Runs.{Call, shares, excludes, run, run_empty-Inv}
use database_management_syst.Transactions.{TransactionManager, commit, rollback}
use database_management_syst.Transactions.Ending.{Ends, ending_releases}

abbrev writer : Transaction
writer = record { id = 1; isolation = serializable; state = active }

abbrev locked : List Call
locked = shares writer 5 ∷ excludes writer 6 ∷ []

abbrev manager : TransactionManager
manager = record { lock_manager = some (run empty_manager locked); next_txn_id = 2 }

ending_releases_example :
    Ends (run empty_manager locked) writer committed (commit manager writer)
    × Ends (run empty_manager locked) writer aborted (rollback manager writer)
ending_releases_example =
    ending_releases manager (run empty_manager locked) writer refl (run_empty-Inv locked) refl
