-- ===== src/Locks/Examples.antt =====
-- The lock manager at concrete inputs: transactions 1 and 2 on row 5.
use database_management_syst.Prelude.{
  ℕ, ◌≡◌, ◌↔◌, refl, List, [], ◌∷◌, true, false, ◌&&◌, ◌||◌, ◌==◌,
}
use database_management_syst.Prelude.Sets.{contains, insert, erase}
use database_management_syst.Locks.{Transaction, active, serializable, lock_shared, lock_exclusive}
use database_management_syst.Locks.Holders.{holds, holds_exclusive, owns}
use database_management_syst.Locks.Effects.{granted}
use database_management_syst.Locks.Invariant.{empty_manager}
use database_management_syst.Locks.Grants.{lock_shared_iff, lock_exclusive_iff}
use database_management_syst.Locks.Runs.{
  Call, shares, excludes, step, run, run_empty-Inv, run_exclusive, run_consistent,
}

abbrev first : Transaction
first = record { id = 1; isolation = serializable; state = active }

abbrev second : Transaction
second = record { id = 2; isolation = serializable; state = active }

-- The first reads row 5 and upgrades; the second is refused.
abbrev history : List Call
history = shares first 5 ∷ excludes first 5 ∷ shares second 5 ∷ excludes second 6 ∷ []

upgraded : holds_exclusive (run empty_manager history) 1 5 ≡ true
unfolding run step empty_manager lock_shared lock_exclusive holds_exclusive contains insert erase
upgraded = refl

holds_upgraded : holds (run empty_manager history) 1 5 ≡ true
unfolding run step empty_manager lock_shared lock_exclusive holds contains insert erase
holds_upgraded = refl

refused : holds (run empty_manager history) 2 5 ≡ false
unfolding run step empty_manager lock_shared lock_exclusive holds contains insert erase
refused = refl

run_exclusive_example : ◌≡◌ {A = ℕ} 1 1
run_exclusive_example = run_exclusive history 1 1 5 upgraded holds_upgraded

run_consistent_example :
    holds (run empty_manager history) 2 6 ≡ owns (run empty_manager history) 2 6
run_consistent_example = run_consistent history 2 6

lock_shared_iff_example :
    ((granted (lock_shared (run empty_manager history) second 5).0 ≡ true) ↔ (
      (second.state ≡ active)
      × ((t : ℕ) → holds_exclusive (run empty_manager history) t 5 ≡ true → t ≡ second.id)))
    × ((u r : ℕ)
        → (holds (lock_shared (run empty_manager history) second 5).1 u r ≡ (
            granted (lock_shared (run empty_manager history) second 5).0
              && (second.id == u && 5 == r)
            || holds (run empty_manager history) u r))
          × (holds_exclusive (lock_shared (run empty_manager history) second 5).1 u r
              ≡ holds_exclusive (run empty_manager history) u r))
lock_shared_iff_example =
    lock_shared_iff (run empty_manager history) second 5 (run_empty-Inv history)

lock_exclusive_iff_example :
    (granted (lock_exclusive (run empty_manager history) first 6).0 ≡ true) ↔ (
      (first.state ≡ active)
      × ((t : ℕ) → holds (run empty_manager history) t 6 ≡ true → t ≡ first.id))
lock_exclusive_iff_example =
    (lock_exclusive_iff (run empty_manager history) first 6 (run_empty-Inv history)).0
