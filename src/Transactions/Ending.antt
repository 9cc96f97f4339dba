-- ===== src/Transactions/Ending.antt =====
-- The end of a transaction releases its locks.
use database_management_syst.Prelude.{ℕ, ◌≡◌, ◌≢◌, refl, sym, subst, not, ◌&&◌, ◌==◌, some}
use database_management_syst.Status.{Result, ok, err, transaction_error}
use database_management_syst.Locks.{
  TransactionState, active, committed, aborted, Transaction, LockManager, lock_shared,
  lock_exclusive, unlock_all,
}
use database_management_syst.Locks.Holders.{holds}
use database_management_syst.Locks.Invariant.{Inv, unlock_all-Inv}
use database_management_syst.Locks.Grants.{
  unlock_all_releases, lock_shared_closed, lock_exclusive_closed,
}
use database_management_syst.Transactions.{TransactionManager, finish_transaction, commit, rollback}

-- What a finishing call yields for an active transaction over the lock manager `locks`: success,
-- the transaction in its last state, the lock manager well formed with exactly the transaction's
-- locks gone, and the transaction closed to further locks and to a second end.
abbrev pub Ends :
    LockManager
    → Transaction
    → TransactionState
    → Result (Unit {0}) × Transaction × TransactionManager
    → Type 0
Ends locks txn target (status, ended, after) =
    (status ≡ ok tt)
    × (ended ≡ record txn { state = target })
    × ((locks' : LockManager) × (after.lock_manager ≡ some locks')
        × Inv locks'
        × ((u r : ℕ) → holds locks' u r ≡ (not (txn.id == u) && holds locks u r))
        × ((rid : ℕ) → lock_shared locks' ended rid ≡ (err transaction_error, locks'))
        × ((rid : ℕ) → lock_exclusive locks' ended rid ≡ (err transaction_error, locks')))
    × (commit after ended ≡ (err transaction_error, ended, after))
    × (rollback after ended ≡ (err transaction_error, ended, after))

abbrev in_state : Transaction → TransactionState → Transaction
in_state txn target = record txn { state = target }

-- A transaction that has ended cannot be ended again.
finish_twice :
    (m : TransactionManager) (txn : Transaction) (target again : TransactionState)
    → target ≢ active
    → finish_transaction m (in_state txn target) again
      ≡ (err transaction_error, in_state txn target, m)
unfolding finish_transaction
finish_twice m txn active again n = absurd (n refl)
finish_twice m txn committed again n = refl
finish_twice m txn aborted again n = refl

finish_active :
    (m : TransactionManager) (locks : LockManager) (txn : Transaction) (target : TransactionState)
    → m.lock_manager ≡ some locks
    → txn.state ≡ active
    → finish_transaction m txn target ≡ (
      (unlock_all locks (in_state txn target)).0,
      in_state txn target,
      record m { lock_manager = some (unlock_all locks (in_state txn target)).1 },
    )
unfolding finish_transaction
finish_active m locks txn target e a = rw (a, e, finish_transaction)

finish_transaction-Ends :
    (m : TransactionManager) (locks : LockManager) (txn : Transaction) (target : TransactionState)
    → target ≢ active
    → m.lock_manager ≡ some locks
    → Inv locks
    → txn.state ≡ active
    → Ends locks txn target (finish_transaction m txn target)
unfolding commit rollback
finish_transaction-Ends m locks txn target n e v a =
    let ended = in_state txn target in
    let (_, locks') = unlock_all locks ended in
    let after : TransactionManager = record m { lock_manager = some locks' } in
    subst (Ends locks txn target) (sym (finish_active m locks txn target e a)) (
      (unlock_all_releases locks ended 0 0 v).0,
      refl,
      (
        locks',
        refl,
        unlock_all-Inv locks ended v,
        (λ u r. (unlock_all_releases locks ended u r v).1),
        (λ rid. lock_shared_closed locks' ended rid n),
        (λ rid. lock_exclusive_closed locks' ended rid n),
      ),
      finish_twice after txn target committed n,
      finish_twice after txn target aborted n,
    )

-- Committing or rolling back an active transaction over a well-formed lock manager succeeds: the
-- transaction is committed or aborted, the lock manager stays well formed and loses exactly this
-- transaction's locks, the ended transaction gets no further lock, and ending it again fails and
-- changes nothing.
pub ending_releases :
    (m : TransactionManager) (locks : LockManager) (txn : Transaction)
    → m.lock_manager ≡ some locks
    → Inv locks
    → txn.state ≡ active
    → Ends locks txn committed (commit m txn) × Ends locks txn aborted (rollback m txn)
unfolding commit rollback
ending_releases m locks txn e v a = (
  finish_transaction-Ends m locks txn committed (λ x. cc) e v a,
  finish_transaction-Ends m locks txn aborted (λ x. cc) e v a,
)
