-- ===== src/Locks/Effects.antt =====
-- What each call of the lock manager does to the holders, whether it is granted or refused.
use database_management_syst.Prelude.{
  ℕ, ◌≡◌, List, [], ◌∷◌, Bool, true, false, not, ◌&&◌, ◌||◌, ◌==◌, arith,
}
use database_management_syst.Prelude.Sets.{contains, Map, contains-insert, contains-erase}
use database_management_syst.Status.{Result, ok, err}
use database_management_syst.Locks.{
  Transaction, LockEntry, LockManager, entry_of, owned, is_exclusive, release_entry, release,
  release_all, lock_shared, lock_exclusive, unlock, unlock_all,
}
use database_management_syst.Locks.Holders.{
  holder, holds, holds_exclusive, owns, is_empty→eq, entry_of-release, holder-release_entry,
  owned-forget, owned-remember,
}

-- The call succeeded.
abbrev pub granted {ℓ} : {A : Type ℓ} → Result A → Bool
granted (ok a) = true
granted (err e) = false

module _ (m : LockManager) (txn : Transaction) (rid u r : ℕ) where
  pub holds-lock_shared :
      holds (lock_shared m txn rid).1 u r
      ≡ (granted (lock_shared m txn rid).0 && (txn.id == u && rid == r) || holds m u r)
  unfolding holds lock_shared
  holds-lock_shared =
      ground (arith, contains-insert txn.id u (entry_of m.lock_table rid).shared_holders)

  pub owns-lock_shared :
      owns (lock_shared m txn rid).1 u r
      ≡ (granted (lock_shared m txn rid).0 && (txn.id == u && rid == r) || owns m u r)
  unfolding owns lock_shared
  owns-lock_shared = ground (arith, owned-remember m.txn_locks txn.id rid u r)

  pub holds_exclusive-lock_shared :
      holds_exclusive (lock_shared m txn rid).1 u r ≡ holds_exclusive m u r
  unfolding holds_exclusive lock_shared
  holds_exclusive-lock_shared = ground arith

  pub holds-lock_exclusive :
      holds (lock_exclusive m txn rid).1 u r
      ≡ (granted (lock_exclusive m txn rid).0 && (txn.id == u && rid == r) || holds m u r)
  unfolding holds lock_exclusive
  holds-lock_exclusive =
      let shared = (entry_of m.lock_table rid).shared_holders in
      ground (arith, contains-erase txn.id u shared, is_empty→eq shared)

  pub owns-lock_exclusive :
      owns (lock_exclusive m txn rid).1 u r
      ≡ (granted (lock_exclusive m txn rid).0 && (txn.id == u && rid == r) || owns m u r)
  unfolding owns lock_exclusive
  owns-lock_exclusive = ground (arith, owned-remember m.txn_locks txn.id rid u r)

  pub holds_exclusive-lock_exclusive :
      holds_exclusive (lock_exclusive m txn rid).1 u r
      ≡ (granted (lock_exclusive m txn rid).0 && (txn.id == u && rid == r) || holds_exclusive m u r)
  unfolding holds_exclusive lock_exclusive
  holds_exclusive-lock_exclusive = ground arith

  pub holds-unlock : holds (unlock m txn rid).1 u r ≡ (not (txn.id == u && rid == r) && holds m u r)
  unfolding holds unlock
  holds-unlock = ground (
    arith,
    entry_of-release m.lock_table txn.id rid r,
    holder-release_entry (entry_of m.lock_table r) txn.id u,
  )

  pub owns-unlock : owns (unlock m txn rid).1 u r ≡ (not (txn.id == u && rid == r) && owns m u r)
  unfolding owns unlock
  owns-unlock = ground (arith, owned-forget m.txn_locks txn.id rid u r)

  pub holds_exclusive-unlock :
      holds_exclusive (unlock m txn rid).1 u r
      ≡ (not (txn.id == u && rid == r) && holds_exclusive m u r)
  unfolding holds_exclusive unlock release_entry
  holds_exclusive-unlock = ground (arith, entry_of-release m.lock_table txn.id rid r)

-- Over a list of rows the releases of one transaction add up.
pub holder-release_all :
    (table : Map LockEntry) (txn u r : ℕ) (rids : List ℕ)
    → holder (entry_of (release_all table txn rids) r) u
      ≡ (not (txn == u && contains rids r) && holder (entry_of table r) u)
unfolding release_all contains
holder-release_all table txn u r [] = ground arith
holder-release_all table txn u r (rid ∷ rids) = ground (
  arith,
  holder-release_all (release table txn rid) txn u r rids,
  entry_of-release table txn rid r,
  holder-release_entry (entry_of table r) txn u,
)

pub exclusive-release_all :
    (table : Map LockEntry) (txn u r : ℕ) (rids : List ℕ)
    → is_exclusive (entry_of (release_all table txn rids) r) u
      ≡ (not (txn == u && contains rids r) && is_exclusive (entry_of table r) u)
unfolding release_all contains release_entry
exclusive-release_all table txn u r [] = ground arith
exclusive-release_all table txn u r (rid ∷ rids) = ground (
  arith,
  exclusive-release_all (release table txn rid) txn u r rids,
  entry_of-release table txn rid r,
)

module _ (m : LockManager) (txn : Transaction) (u r : ℕ) where
  pub holds-unlock_all :
      holds (unlock_all m txn).1 u r ≡ (not (txn.id == u && owns m txn.id r) && holds m u r)
  unfolding holds owns unlock_all contains
  holds-unlock_all =
      ground (arith, holder-release_all m.lock_table txn.id u r (owned m.txn_locks txn.id))

  pub holds_exclusive-unlock_all :
      holds_exclusive (unlock_all m txn).1 u r
      ≡ (not (txn.id == u && owns m txn.id r) && holds_exclusive m u r)
  unfolding holds_exclusive owns unlock_all contains
  holds_exclusive-unlock_all =
      ground (arith, exclusive-release_all m.lock_table txn.id u r (owned m.txn_locks txn.id))

  pub owns-unlock_all : owns (unlock_all m txn).1 u r ≡ (not (txn.id == u) && owns m u r)
  unfolding owns unlock_all contains
  owns-unlock_all = ground arith
