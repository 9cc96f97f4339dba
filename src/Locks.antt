-- ===== src/Locks.antt =====
-- transaction/lock_manager.cpp: row locks, shared or exclusive, refused at once when they conflict.
-- Each call runs under the manager's mutex, so a run is a sequence of calls. A call returns its
-- status and the new tables, also when it fails.
pub mod Holders
pub mod Effects
pub mod Invariant
pub mod Grants
pub mod Runs
mod Examples
use database_management_syst.Prelude.{
  ℕ, suc, ◌+◌, ◌≡◌, List, [], ◌∷◌, Bool, true, false, not, ◌&&◌, ◌||◌, ◌==◌, if◌then◌else◌, Option,
  none, some, length,
}
use database_management_syst.Prelude.Sets.{contains, insert, erase, is_empty, Map, put, remove}
use database_management_syst.Status.{Result, ok, err, transaction_error}

pub data IsolationLevel : Type 0 where
  read_committed repeatable_read serializable : IsolationLevel

pub data TransactionState : Type 0 where
  active committed aborted : TransactionState

pub record Transaction : Type 0 where
  pub id : ℕ
  pub isolation : IsolationLevel
  pub state : TransactionState

pub record LockEntry : Type 0 where
  pub shared_holders : List ℕ
  pub exclusive_holder : Option ℕ

pub record LockManager : Type 0 where
  pub lock_table : Map LockEntry
  pub txn_locks : Map (List ℕ)

abbrev pub empty_entry : LockEntry
empty_entry = record { shared_holders = []; exclusive_holder = none }

abbrev pub or_default {ℓ} : {A : Type ℓ} → A → Option A → A
or_default d none = d
or_default d (some a) = a

-- `lock_table_[rid]` reads a fresh entry where there is none; `txn_locks_[id]` an empty set.
abbrev pub entry_of : Map LockEntry → ℕ → LockEntry
entry_of table rid = or_default empty_entry (table rid)

abbrev pub owned : Map (List ℕ) → ℕ → List ℕ
owned locks txn = or_default [] (locks txn)

pub can_acquire_locks : TransactionState → Bool
can_acquire_locks active = true
can_acquire_locks s = false

pub can_unlock : TransactionState → Bool
can_unlock active = true
can_unlock committed = true
can_unlock aborted = true

abbrev pub remember : Map (List ℕ) → ℕ → ℕ → Map (List ℕ)
remember locks txn rid = put locks txn (insert rid (owned locks txn))

forget_from : Map (List ℕ) → ℕ → ℕ → Option (List ℕ) → Map (List ℕ)
forget_from locks txn rid none = locks
forget_from locks txn rid (some rids) =
    let rest = erase rid rids in if is_empty rest then remove locks txn else put locks txn rest

pub forget : Map (List ℕ) → ℕ → ℕ → Map (List ℕ)
unfolding forget_from is_empty
forget locks txn rid = forget_from locks txn rid (locks txn)

-- `exclusive_holder == id`
abbrev pub is_exclusive : LockEntry → ℕ → Bool
is_exclusive e txn = elim e.exclusive_holder [ none ↦ false | some t ↦ t == txn ]

-- `exclusive_holder.has_value() && exclusive_holder.value() != id`
abbrev pub is_exclusive_other : LockEntry → ℕ → Bool
is_exclusive_other e txn = elim e.exclusive_holder [ none ↦ false | some t ↦ not (t == txn) ]

abbrev pub is_free : LockEntry → Bool
is_free e = elim e.exclusive_holder [ none ↦ is_empty e.shared_holders | some t ↦ false ]

abbrev failed : LockManager → Result (Unit {0}) × LockManager
failed m = (err transaction_error, m)

-- Keep the entry, and note that the transaction owns a lock on the row.
grant : LockManager → ℕ → ℕ → LockEntry → Result (Unit {0}) × LockManager
grant m txn rid e = (
  ok tt,
  record { lock_table = put m.lock_table rid e; txn_locks = remember m.txn_locks txn rid },
)

pub lock_shared : LockManager → Transaction → ℕ → Result (Unit {0}) × LockManager
unfolding can_acquire_locks grant
lock_shared m txn rid =
    let e = entry_of m.lock_table rid in
    if not (can_acquire_locks txn.state)
    then failed m
    else if is_exclusive_other e txn.id
    then failed (record m { lock_table = put m.lock_table rid e })
    else grant m txn.id rid (record e { shared_holders = insert txn.id e.shared_holders })

pub lock_exclusive : LockManager → Transaction → ℕ → Result (Unit {0}) × LockManager
unfolding can_acquire_locks grant is_empty
lock_exclusive m txn rid =
    let e = entry_of m.lock_table rid in
    if not (can_acquire_locks txn.state)
    then failed m
    else if is_exclusive e txn.id
    then grant m txn.id rid e
    else if is_exclusive_other e txn.id
    then failed (record m { lock_table = put m.lock_table rid e })
    else if is_empty e.shared_holders
    then grant m txn.id rid (record e { exclusive_holder = some txn.id })
    else if length e.shared_holders == 1 && contains e.shared_holders txn.id
    then grant m txn.id rid
        (record { shared_holders = erase txn.id e.shared_holders; exclusive_holder = some txn.id })
    else failed (record m { lock_table = put m.lock_table rid e })

-- What `Unlock` and `UnlockAll` do to one entry, and to the table.
pub release_entry : LockEntry → ℕ → LockEntry
release_entry e txn = record {
  shared_holders = erase txn e.shared_holders;
  exclusive_holder = if is_exclusive e txn then none else e.exclusive_holder;
}

release_found : Map LockEntry → ℕ → ℕ → Option LockEntry → Map LockEntry
release_found table txn rid none = table
release_found table txn rid (some e) =
    let e' = release_entry e txn in if is_free e' then remove table rid else put table rid e'

pub release : Map LockEntry → ℕ → ℕ → Map LockEntry
unfolding release_found release_entry is_empty
release table txn rid = release_found table txn rid (table rid)

pub unlock : LockManager → Transaction → ℕ → Result (Unit {0}) × LockManager
unfolding can_unlock
unlock m txn rid = if not (can_unlock txn.state) then failed m else (
  ok tt,
  record {
    lock_table = release m.lock_table txn.id rid;
    txn_locks = forget m.txn_locks txn.id rid;
  },
)

pub release_all : Map LockEntry → ℕ → List ℕ → Map LockEntry
release_all table txn [] = table
release_all table txn (rid ∷ rids) = release_all (release table txn rid) txn rids

unlock_held : LockManager → ℕ → Option (List ℕ) → LockManager
unlock_held m txn none = m
unlock_held m txn (some rids) = record {
  lock_table = release_all m.lock_table txn rids;
  txn_locks = remove m.txn_locks txn;
}

pub unlock_all : LockManager → Transaction → Result (Unit {0}) × LockManager
unfolding can_unlock unlock_held
unlock_all m txn =
    if not (can_unlock txn.state)
    then failed m
    else (ok tt, unlock_held m txn.id (m.txn_locks txn.id))
