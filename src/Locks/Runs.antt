-- ===== src/Locks/Runs.antt =====
-- Interleavings: the calls of all sessions in the order in which they take the mutex.
use database_management_syst.Prelude.{ℕ, ◌≡◌, List, [], ◌∷◌, true}
use database_management_syst.Locks.{
  Transaction, LockManager, lock_shared, lock_exclusive, unlock, unlock_all,
}
use database_management_syst.Locks.Holders.{holds, holds_exclusive, owns}
use database_management_syst.Locks.Invariant.{
  Inv, empty_manager, empty_manager-Inv, lock_shared-Inv, lock_exclusive-Inv, unlock-Inv,
  unlock_all-Inv,
}

pub data Call : Type 0 where
  shares excludes unlocks : Transaction → ℕ → Call
  unlocks_all : Transaction → Call

unfoldable pub step : LockManager → Call → LockManager
step m (shares txn rid) = (lock_shared m txn rid).1
step m (excludes txn rid) = (lock_exclusive m txn rid).1
step m (unlocks txn rid) = (unlock m txn rid).1
step m (unlocks_all txn) = (unlock_all m txn).1

unfoldable pub run : LockManager → List Call → LockManager
run m [] = m
run m (c ∷ cs) = run (step m c) cs

step-Inv : (m : LockManager) (c : Call) → Inv m → Inv (step m c)
unfolding step
step-Inv m (shares txn rid) v = lock_shared-Inv m txn rid v
step-Inv m (excludes txn rid) v = lock_exclusive-Inv m txn rid v
step-Inv m (unlocks txn rid) v = unlock-Inv m txn rid v
step-Inv m (unlocks_all txn) v = unlock_all-Inv m txn v

run-Inv : (m : LockManager) (cs : List Call) → Inv m → Inv (run m cs)
unfolding run
run-Inv m [] v = v
run-Inv m (c ∷ cs) v = run-Inv (step m c) cs (step-Inv m c v)

pub run_empty-Inv : (cs : List Call) → Inv (run empty_manager cs)
run_empty-Inv cs = run-Inv empty_manager cs empty_manager-Inv

-- After any sequence of calls on a fresh manager, by any transactions in any order: if a transaction
-- holds a row exclusively, nobody else holds that row in any mode.
pub run_exclusive :
    (cs : List Call) (t u r : ℕ)
    → holds_exclusive (run empty_manager cs) t r ≡ true
    → holds (run empty_manager cs) u r ≡ true
    → u ≡ t
run_exclusive cs t u r = (run_empty-Inv cs).exclusive t u r

-- After any sequence of calls on a fresh manager, the set of rows that the manager keeps for each
-- transaction lists exactly the rows that the lock table says it holds.
pub run_consistent :
    (cs : List Call) (t r : ℕ) → holds (run empty_manager cs) t r ≡ owns (run empty_manager cs) t r
run_consistent cs t r = (run_empty-Inv cs).consistent t r
