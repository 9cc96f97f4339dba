-- ===== src/Locks/Invariant.antt =====
-- What holds of the lock tables after any sequence of calls: an exclusive lock excludes every other
-- holder, and the transactions' sets list exactly the locks held.
use database_management_syst.Prelude.{ℕ, ◌≡◌, refl, List, [], ◌∷◌, true, ◌==◌, none, length, arith}
use database_management_syst.Prelude.Sets.{contains, Map, Distinct, insert-Distinct, erase-Distinct}
use database_management_syst.Locks.{
  Transaction, LockEntry, LockManager, entry_of, owned, release_entry, release, release_all,
  lock_shared, lock_exclusive, unlock, unlock_all,
}
use database_management_syst.Locks.Holders.{
  holds, holds_exclusive, owns, is_empty→eq, entry_of-release,
}
use database_management_syst.Locks.Effects.{
  granted, holds-lock_shared, owns-lock_shared, holds_exclusive-lock_shared, holds-lock_exclusive,
  owns-lock_exclusive, holds_exclusive-lock_exclusive, holds-unlock, owns-unlock,
  holds_exclusive-unlock, holds-unlock_all, owns-unlock_all, holds_exclusive-unlock_all,
}

pub record Inv (m : LockManager) : Type 0 where
  pub consistent : (t r : ℕ) → holds m t r ≡ owns m t r
  pub exclusive : (t u r : ℕ) → holds_exclusive m t r ≡ true → holds m u r ≡ true → u ≡ t
  pub distinct : (r : ℕ) → Distinct (entry_of m.lock_table r).shared_holders

unfoldable pub empty_manager : LockManager
empty_manager = record { lock_table = λ rid. none; txn_locks = λ txn. none }

pub empty_manager-Inv : Inv empty_manager
unfolding empty_manager holds owns holds_exclusive contains
empty_manager-Inv = record {
  consistent = λ t r. refl;
  exclusive = λ t u r h k. cc;
  distinct = λ r. tt;
}

pub holds_exclusive→holds :
    (m : LockManager) (t r : ℕ) → holds_exclusive m t r ≡ true → holds m t r ≡ true
unfolding holds holds_exclusive
holds_exclusive→holds m t r h = ground arith

pub only_element :
    (xs : List ℕ) (a b : ℕ)
    → (length xs == 1) ≡ true
    → contains xs a ≡ true
    → contains xs b ≡ true
    → a ≡ b
unfolding contains
only_element [] a b n h k = cc
only_element (x ∷ []) a b n h k = ground arith
only_element (x ∷ y ∷ xs) a b n h k = absurd (ground arith)

abbrev IsDistinct : Map LockEntry → Type 0
IsDistinct table = (r : ℕ) → Distinct (entry_of table r).shared_holders

release-Distinct :
    (table : Map LockEntry) (txn rid : ℕ) → IsDistinct table → IsDistinct (release table txn rid)
unfolding release_entry
release-Distinct table txn rid h r = ground (
  arith,
  h r,
  entry_of-release table txn rid r,
  erase-Distinct txn (entry_of table r).shared_holders,
)

release_all-Distinct :
    (table : Map LockEntry) (txn : ℕ) (rids : List ℕ)
    → IsDistinct table
    → IsDistinct (release_all table txn rids)
unfolding release_all
release_all-Distinct table txn [] h = h
release_all-Distinct table txn (rid ∷ rids) h =
    release_all-Distinct (release table txn rid) txn rids (release-Distinct table txn rid h)

module _ (m : LockManager) (txn : Transaction) (rid : ℕ) (v : Inv m) where
  -- A shared lock is refused while another transaction holds the row exclusively.
  pub shared_compatible :
      (t : ℕ)
      → granted (lock_shared m txn rid).0 ≡ true
      → holds_exclusive m t rid ≡ true
      → txn.id ≡ t
  unfolding lock_shared holds_exclusive
  shared_compatible t g h = ground arith

  pub lock_shared-Inv : Inv (lock_shared m txn rid).1
  lock_shared-Inv = record {
    consistent = λ t r.
        ground (
          arith,
          holds-lock_shared m txn rid t r,
          owns-lock_shared m txn rid t r,
          v.consistent t r,
        );
    exclusive = λ t u r h k. ground (
      arith,
      holds-lock_shared m txn rid u r,
      holds_exclusive-lock_shared m txn rid t r,
      v.exclusive t u r,
      shared_compatible t,
    );
    distinct = λ r.
        unfold lock_shared in
        ground (
          arith,
          v.distinct r,
          v.distinct rid,
          insert-Distinct txn.id (entry_of m.lock_table rid).shared_holders,
        );
  }

  -- An exclusive lock is refused while another transaction holds the row at all.
  pub exclusive_compatible :
      (u : ℕ) → granted (lock_exclusive m txn rid).0 ≡ true → holds m u rid ≡ true → txn.id ≡ u
  unfolding lock_exclusive holds holds_exclusive contains
  exclusive_compatible u g h =
      let shared = (entry_of m.lock_table rid).shared_holders in
      ground (arith, v.exclusive txn.id u rid, only_element shared txn.id u, is_empty→eq shared)

  pub lock_exclusive-Inv : Inv (lock_exclusive m txn rid).1
  lock_exclusive-Inv = record {
    consistent = λ t r. ground (
      arith,
      holds-lock_exclusive m txn rid t r,
      owns-lock_exclusive m txn rid t r,
      v.consistent t r,
    );
    exclusive = λ t u r h k. ground (
      arith,
      holds-lock_exclusive m txn rid u r,
      holds_exclusive-lock_exclusive m txn rid t r,
      v.exclusive t u r,
      exclusive_compatible u,
      exclusive_compatible t,
      holds_exclusive→holds m t r,
    );
    distinct = λ r.
        unfold lock_exclusive in
        ground (
          arith,
          v.distinct r,
          v.distinct rid,
          erase-Distinct txn.id (entry_of m.lock_table rid).shared_holders,
        );
  }

  pub unlock-Inv : Inv (unlock m txn rid).1
  unlock-Inv = record {
    consistent = λ t r.
        ground (arith, holds-unlock m txn rid t r, owns-unlock m txn rid t r, v.consistent t r);
    exclusive = λ t u r h k. ground (
      arith,
      holds-unlock m txn rid u r,
      holds_exclusive-unlock m txn rid t r,
      v.exclusive t u r,
    );
    distinct = λ r.
        unfold unlock in
        ground (arith, v.distinct r, release-Distinct m.lock_table txn.id rid v.distinct r);
  }

pub unlock_all-Inv : (m : LockManager) (txn : Transaction) → Inv m → Inv (unlock_all m txn).1
unlock_all-Inv m txn v = record {
  consistent = λ t r. ground (
    arith,
    holds-unlock_all m txn t r,
    owns-unlock_all m txn t r,
    v.consistent t r,
    v.consistent txn.id r,
  );
  exclusive = λ t u r h k.
      ground (
        arith,
        holds-unlock_all m txn u r,
        holds_exclusive-unlock_all m txn t r,
        v.exclusive t u r,
      );
  distinct = λ r.
      unfold unlock_all in
      ground (
        arith,
        v.distinct r,
        release_all-Distinct m.lock_table txn.id (owned m.txn_locks txn.id) v.distinct r,
      );
}
