-- ===== src/Locks/Holders.antt =====
-- Who holds a lock on a row, read off the entries, and who owns one, read off the transaction's
-- set: what each call does to both.
use database_management_syst.Prelude.{
  ℕ, ◌≡◌, refl, List, [], ◌∷◌, Bool, true, not, ◌&&◌, ◌||◌, ◌==◌, if◌then◌else◌, arith,
  Option-cases, inl, inr,
}
use database_management_syst.Prelude.Sets.{
  contains, erase, is_empty, Map, contains-insert, contains-erase,
}
use database_management_syst.Locks.{
  LockEntry, LockManager, empty_entry, entry_of, owned, remember, forget, is_exclusive, is_free,
  release_entry, release_found, release,
}

abbrev pub holder : LockEntry → ℕ → Bool
holder e txn = is_exclusive e txn || contains e.shared_holders txn

unfoldable pub holds : LockManager → ℕ → ℕ → Bool
holds m txn rid = holder (entry_of m.lock_table rid) txn

unfoldable pub holds_exclusive : LockManager → ℕ → ℕ → Bool
holds_exclusive m txn rid = is_exclusive (entry_of m.lock_table rid) txn

unfoldable pub owns : LockManager → ℕ → ℕ → Bool
owns m txn rid = contains (owned m.txn_locks txn) rid

pub is_empty→eq {ℓ} : {A : Type ℓ} (xs : List A) → is_empty xs ≡ true → xs ≡ []
unfolding is_empty
is_empty→eq [] h = refl
is_empty→eq (x ∷ xs) h = cc

free→eq : (e : LockEntry) → is_free e ≡ true → e ≡ empty_entry
free→eq e h = ground (arith, is_empty→eq e.shared_holders)

release_entry-empty : (txn : ℕ) → release_entry empty_entry txn ≡ empty_entry
unfolding release_entry erase
release_entry-empty txn = refl

-- Releasing touches the entry of that row only, and an entry that becomes free reads as a fresh one.
pub entry_of-release :
    (table : Map LockEntry) (txn rid r : ℕ)
    → entry_of (release table txn rid) r
      ≡ (if rid == r then release_entry (entry_of table r) txn else entry_of table r)
unfolding release release_found
entry_of-release table txn rid r = elim (Option-cases (table rid)) [
  | inl e ↦ ground (arith, e, release_entry-empty txn)
  | inr (x, e) ↦ ground (arith, e, free→eq (release_entry x txn))
]

pub holder-release_entry :
    (e : LockEntry) (txn u : ℕ) → holder (release_entry e txn) u ≡ (not (txn == u) && holder e u)
unfolding release_entry
holder-release_entry e txn u = ground (arith, contains-erase txn u e.shared_holders)

pub owned-forget :
    (locks : Map (List ℕ)) (txn rid u r : ℕ)
    → contains (owned (forget locks txn rid) u) r
      ≡ (not (txn == u && rid == r) && contains (owned locks u) r)
unfolding forget contains
owned-forget locks txn rid u r = elim (Option-cases (locks txn)) [
  | inl e ↦ ground (arith, e)
  | inr (rids, e) ↦ ground (arith, e, is_empty→eq (erase rid rids), contains-erase rid r rids)
]

pub owned-remember :
    (locks : Map (List ℕ)) (txn rid u r : ℕ)
    → contains (owned (remember locks txn rid) u) r
      ≡ (txn == u && rid == r || contains (owned locks u) r)
owned-remember locks txn rid u r = ground (arith, contains-insert rid r (owned locks txn))
