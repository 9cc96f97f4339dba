-- ===== src/Prelude/Sets.antt =====
-- Finite sets of numbers as lists with no repetition (std::unordered_set), and maps from numbers as
-- functions (std::unordered_map, where the code never iterates over it).
use Prim.Native.Nat.{ℕ}
use mathlib.Core.Path.{◌≡◌}
use mathlib.Core.Bool.{Bool, true, false, not, ◌&&◌, ◌||◌}
use mathlib.Core.List.{List, [], ◌∷◌}
use mathlib.Core.Option.{Option, none, some}
use native.Mathlib.Omega.{arith}
use database_management_syst.Prelude.Tests.{◌==◌, if◌then◌else◌}

unfoldable pub contains : List ℕ → ℕ → Bool
contains [] a = false
contains (x ∷ xs) a = x == a || contains xs a

unfoldable pub insert : ℕ → List ℕ → List ℕ
unfolding contains
insert a xs = if contains xs a then xs else a ∷ xs

unfoldable pub erase : ℕ → List ℕ → List ℕ
erase a [] = []
erase a (x ∷ xs) = let rest = erase a xs in if x == a then rest else x ∷ rest

unfoldable pub is_empty {ℓ} : {A : Type ℓ} → List A → Bool
is_empty [] = true
is_empty (x ∷ xs) = false

pub contains-insert : (a b : ℕ) (xs : List ℕ) → contains (insert a xs) b ≡ (a == b || contains xs b)
unfolding insert
contains-insert a b xs = ground (arith, contains_eq a b xs)
  where
    contains_eq : (a b : ℕ) (xs : List ℕ) → a ≡ b → contains xs a ≡ contains xs b
    contains_eq a b xs e = ground arith

pub contains-erase :
    (a b : ℕ) (xs : List ℕ) → contains (erase a xs) b ≡ (not (a == b) && contains xs b)
unfolding contains erase
contains-erase a b [] = ground arith
contains-erase a b (x ∷ xs) = ground (arith, contains-erase a b xs)

abbrev pub Map {ℓ} : Type ℓ → Type ℓ
Map V = ℕ → Option V

module _ {ℓ} {V : Type ℓ} where
  abbrev pub put : Map V → ℕ → V → Map V
  put m k v j = if k == j then some v else m j

  abbrev pub remove : Map V → ℕ → Map V
  remove m k j = if k == j then none else m j

-- No element stands twice.
abbrev pub Distinct : List ℕ → Type 0
Distinct [] = Unit {0}
Distinct (x ∷ xs) = (contains xs x ≡ false) × Distinct xs

pub insert-Distinct : (a : ℕ) (xs : List ℕ) → Distinct xs → Distinct (insert a xs)
unfolding insert
insert-Distinct a xs h = ground arith

pub erase-Distinct : (a : ℕ) (xs : List ℕ) → Distinct xs → Distinct (erase a xs)
unfolding erase
erase-Distinct a [] h = tt
erase-Distinct a (x ∷ xs) h = ground (arith, erase-Distinct a xs, contains-erase a x xs)
