-- ===== src/Transactions.antt =====
-- transaction/transaction_manager.cpp. The lock manager behind the pointer, if there is one, is part
-- of the state that a call returns.
pub mod Ending
mod Examples
use database_management_syst.Prelude.{
  ℕ, ◌+◌, ◌%◌, ◌^◌, Bool, true, false, not, if◌then◌else◌, Option, none, some,
}
use database_management_syst.Status.{Result, ok, err, transaction_error}
use database_management_syst.Locks.{
  IsolationLevel, TransactionState, active, committed, aborted, Transaction, LockManager,
  can_acquire_locks, unlock_all,
}

pub record TransactionManager : Type 0 where
  pub lock_manager : Option LockManager
  pub next_txn_id : ℕ

-- next_txn_id_ is a uint64_t.
pub begin : TransactionManager → IsolationLevel → Transaction × TransactionManager
begin m isolation = (
  record { id = m.next_txn_id; isolation = isolation; state = active },
  record m { next_txn_id = (m.next_txn_id + 1) % 2 ^ 64 },
)

release_locks :
    TransactionManager
    → Transaction
    → Option LockManager
    → Result (Unit {0}) × Transaction × TransactionManager
release_locks m txn none = (ok tt, txn, m)
release_locks m txn (some locks) =
    let (status, locks') = unlock_all locks txn in
    (status, txn, record m { lock_manager = some locks' })

finish_active :
    TransactionManager
    → Transaction
    → TransactionState
    → TransactionState
    → Result (Unit {0}) × Transaction × TransactionManager
unfolding release_locks
finish_active m txn target active = release_locks m (record txn { state = target }) m.lock_manager
finish_active m txn target s = (err transaction_error, txn, m)

-- The status, the transaction as the call leaves it, and the manager.
pub finish_transaction :
    TransactionManager
    → Transaction
    → TransactionState
    → Result (Unit {0}) × Transaction × TransactionManager
unfolding finish_active
finish_transaction m txn target = finish_active m txn target txn.state

pub commit : TransactionManager → Transaction → Result (Unit {0}) × Transaction × TransactionManager
unfolding finish_transaction
commit m txn = finish_transaction m txn committed

pub rollback :
    TransactionManager → Transaction → Result (Unit {0}) × Transaction × TransactionManager
unfolding finish_transaction
rollback m txn = finish_transaction m txn aborted
