-- ===== src/Locks/Grants.antt =====
-- When a lock is granted, and what a refusal changes.
use database_management_syst.Prelude.{
  ℕ, ◌≡◌, ◌≢◌, ◌↔◌, refl, sym, List, [], ◌∷◌, true, false, not, ◌&&◌, ◌||◌, ◌==◌, Option, none,
  some, length, arith,
}
use database_management_syst.Prelude.Sets.{contains, is_empty, Distinct}
use database_management_syst.Status.{ok, err, transaction_error}
use database_management_syst.Locks.{
  Transaction, active, LockManager, entry_of, can_acquire_locks, lock_shared, lock_exclusive,
  unlock_all,
}
use database_management_syst.Locks.Holders.{holds, holds_exclusive}
use database_management_syst.Locks.Effects.{
  granted, holds-lock_shared, holds_exclusive-lock_shared, holds-lock_exclusive,
  holds_exclusive-lock_exclusive, holds-unlock_all, holds_exclusive-unlock_all,
}
use database_management_syst.Locks.Invariant.{
  Inv, shared_compatible, exclusive_compatible, holds_exclusive→holds,
}

-- `a` is the only element, if any.
abbrev Only : ℕ → List ℕ → Type 0
Only a xs = (b : ℕ) → contains xs b ≡ true → b ≡ a

singleton :
    (a : ℕ) (xs : List ℕ)
    → Distinct xs
    → Only a xs
    → is_empty xs ≡ false
    → (length xs == 1 && contains xs a) ≡ true
unfolding contains is_empty
singleton a [] d h e = cc
singleton a (x ∷ []) d h e = ground (arith, h x)
singleton a (x ∷ y ∷ xs) d h e = absurd (ground (arith, h x, h y))

exclusive_grants :
    (m : LockManager) (txn : Transaction) (rid : ℕ)
    → Inv m
    → txn.state ≡ active
    → ((t : ℕ) → holds m t rid ≡ true → t ≡ txn.id)
    → (x : Option ℕ) → (entry_of m.lock_table rid).exclusive_holder ≡ x
    → granted (lock_exclusive m txn rid).0 ≡ true
unfolding lock_exclusive holds
exclusive_grants m txn rid v a h (some t) e = ground (arith, h t)
exclusive_grants m txn rid v a h none e =
    let shared = (entry_of m.lock_table rid).shared_holders in
    ground (arith, singleton txn.id shared (v.distinct rid) (λ b k. h b (ground arith)))

shared_grants :
    (m : LockManager) (txn : Transaction) (rid : ℕ)
    → txn.state ≡ active
    → ((t : ℕ) → holds_exclusive m t rid ≡ true → t ≡ txn.id)
    → (x : Option ℕ) → (entry_of m.lock_table rid).exclusive_holder ≡ x
    → granted (lock_shared m txn rid).0 ≡ true
unfolding lock_shared holds_exclusive
shared_grants m txn rid a h none e = ground arith
shared_grants m txn rid a h (some t) e = ground (arith, h t)

active_of_shared :
    (m : LockManager) (txn : Transaction) (rid : ℕ)
    → granted (lock_shared m txn rid).0 ≡ true
    → txn.state ≡ active
unfolding lock_shared can_acquire_locks
active_of_shared m txn rid g = ground arith

active_of_exclusive :
    (m : LockManager) (txn : Transaction) (rid : ℕ)
    → granted (lock_exclusive m txn rid).0 ≡ true
    → txn.state ≡ active
unfolding lock_exclusive can_acquire_locks
active_of_exclusive m txn rid g = ground arith

-- In a well-formed manager a shared lock is granted exactly if the transaction is active and no
-- other transaction holds the row exclusively; then the transaction holds the row as well as all
-- earlier holders. Whether it is granted or refused, nobody else's locks change, and the exclusive
-- holders of all rows stay the same.
pub lock_shared_iff :
    (m : LockManager) (txn : Transaction) (rid : ℕ)
    → Inv m
    → ((granted (lock_shared m txn rid).0 ≡ true)
        ↔ ((txn.state ≡ active) × ((t : ℕ) → holds_exclusive m t rid ≡ true → t ≡ txn.id)))
      × ((u r : ℕ)
          → (holds (lock_shared m txn rid).1 u r
              ≡ (granted (lock_shared m txn rid).0 && (txn.id == u && rid == r) || holds m u r))
            × (holds_exclusive (lock_shared m txn rid).1 u r ≡ holds_exclusive m u r))
lock_shared_iff m txn rid v = (
  (
    (λ g. (active_of_shared m txn rid g, λ t h. sym (shared_compatible m txn rid v t g h))),
    (λ (a, h). shared_grants m txn rid a h _ refl),
  ),
  λ u r. (holds-lock_shared m txn rid u r, holds_exclusive-lock_shared m txn rid u r),
)

-- In a well-formed manager an exclusive lock is granted, or a shared one upgraded, exactly if the
-- transaction is active and no other transaction holds the row in any mode; then the transaction
-- holds the row exclusively, and if it is refused nobody's locks change.
pub lock_exclusive_iff :
    (m : LockManager) (txn : Transaction) (rid : ℕ)
    → Inv m
    → ((granted (lock_exclusive m txn rid).0 ≡ true)
        ↔ ((txn.state ≡ active) × ((t : ℕ) → holds m t rid ≡ true → t ≡ txn.id)))
      × ((u r : ℕ)
          → (holds (lock_exclusive m txn rid).1 u r
              ≡ (granted (lock_exclusive m txn rid).0 && (txn.id == u && rid == r) || holds m u r))
            × (holds_exclusive (lock_exclusive m txn rid).1 u r ≡ (
                granted (lock_exclusive m txn rid).0 && (txn.id == u && rid == r)
                || holds_exclusive m u r)))
lock_exclusive_iff m txn rid v = (
  (
    (λ g. (active_of_exclusive m txn rid g, λ t h. sym (exclusive_compatible m txn rid v t g h))),
    (λ (a, h). exclusive_grants m txn rid v a h _ refl),
  ),
  λ u r. (holds-lock_exclusive m txn rid u r, holds_exclusive-lock_exclusive m txn rid u r),
)

-- In a well-formed manager releasing all locks of a transaction takes exactly its locks: it holds
-- nothing afterwards, and every other transaction holds what it held, in the same mode.
pub unlock_all_releases :
    (m : LockManager) (txn : Transaction) (u r : ℕ)
    → Inv m
    → ((unlock_all m txn).0 ≡ ok tt)
      × (holds (unlock_all m txn).1 u r ≡ (not (txn.id == u) && holds m u r))
      × (holds_exclusive (unlock_all m txn).1 u r ≡ (not (txn.id == u) && holds_exclusive m u r))
unfolding unlock_all
unlock_all_releases m txn u r v = (
  ground arith,
  ground (arith, holds-unlock_all m txn u r, v.consistent u r),
  ground
      (arith, holds_exclusive-unlock_all m txn u r, v.consistent u r, holds_exclusive→holds m u r),
)

-- A transaction that is not active gets no lock, and the tables stay as they are.
module _ (m : LockManager) (txn : Transaction) (rid : ℕ) (closed : txn.state ≢ active) where
  pub lock_shared_closed : lock_shared m txn rid ≡ (err transaction_error, m)
  unfolding lock_shared can_acquire_locks
  lock_shared_closed = ground arith

  pub lock_exclusive_closed : lock_exclusive m txn rid ≡ (err transaction_error, m)
  unfolding lock_exclusive can_acquire_locks
  lock_exclusive_closed = ground arith
