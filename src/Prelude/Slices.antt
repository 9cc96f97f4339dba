-- ===== src/Prelude/Slices.antt =====
-- Slices of a list and writes over a slice, as a file offers them.
use Prim.Native.Nat.{ℕ, zero, suc, ◌+◌, ◌-◌, ◌≤◌}
use mathlib.Core.Path.{◌≡◌, refl, ap, ◌∙◌}
use mathlib.Core.List.{List, [], ◌∷◌, ◌++◌}
use native.Mathlib.Omega.{arith}
use database_management_syst.Prelude.Lists.{
  length, take, drop, replicate, length-append, length-take, length-drop, take-append_self,
  drop-drop,
}

module _ {ℓ} {A : Type ℓ} where
  -- `n` elements from position `k` on.
  abbrev pub slice : ℕ → ℕ → List A → List A
  slice k n xs = take n (drop k xs)

  pub slice-append_left :
      (k n : ℕ) (xs ys : List A) → k + n ≤ length xs → slice k n (xs ++ ys) ≡ slice k n xs
  slice-append_left zero zero xs ys h = refl
  slice-append_left zero (suc n) [] ys h = absurd (omega arith)
  slice-append_left zero (suc n) (x ∷ xs) ys h =
      ap (◌∷◌ x) (slice-append_left zero n xs ys (omega arith))
  slice-append_left (suc k) n [] ys h = absurd (omega arith)
  slice-append_left (suc k) n (x ∷ xs) ys h = slice-append_left k n xs ys (omega arith)

  pub slice-append_right :
      (k n : ℕ) (xs ys : List A) → length xs ≤ k → slice k n (xs ++ ys) ≡ slice (k - length xs) n ys
  slice-append_right k n [] ys h = ap (λ j. slice j n ys) (omega arith)
  slice-append_right zero n (x ∷ xs) ys h = absurd (omega arith)
  slice-append_right (suc k) n (x ∷ xs) ys h =
      slice-append_right k n xs ys (omega arith) ∙ ap (λ j. slice j n ys) (omega arith)

  pub slice-take : (k n m : ℕ) (xs : List A) → k + n ≤ m → slice k n (take m xs) ≡ slice k n xs
  slice-take k zero m xs h = refl
  slice-take k (suc n) zero xs h = absurd (omega arith)
  slice-take zero (suc n) (suc m) [] h = refl
  slice-take zero (suc n) (suc m) (x ∷ xs) h = ap (◌∷◌ x) (slice-take zero n m xs (omega arith))
  slice-take (suc k) (suc n) (suc m) [] h = refl
  slice-take (suc k) (suc n) (suc m) (x ∷ xs) h = slice-take k (suc n) m xs (omega arith)

  pub slice-drop : (k n m : ℕ) (xs : List A) → slice k n (drop m xs) ≡ slice (m + k) n xs
  slice-drop k n m xs = ap (take n) (drop-drop k m xs)

  pub length-slice : (k n : ℕ) (xs : List A) → k + n ≤ length xs → length (slice k n xs) ≡ n
  length-slice k n xs h = omega (arith, length-take n (drop k xs), length-drop k xs)

  pub slice_all : (ys : List A) (zs : List A) → slice 0 (length ys) (ys ++ zs) ≡ ys
  slice_all ys zs = take-append_self ys zs

pub slice-replicate {ℓ} : {A : Type ℓ} (n : ℕ) (a : A) → slice 0 n (replicate n a) ≡ replicate n a
slice-replicate zero a = refl
slice-replicate (suc n) a = ap (◌∷◌ a) (slice-replicate n a)

-- Bytes `ys` written at position `k`; a gap behind the end is filled with zeros.
pub overwrite : List ℕ → ℕ → List ℕ → List ℕ
overwrite xs k ys = take k xs ++ (replicate (k - length xs) 0 ++ (ys ++ drop (k + length ys) xs))

module _ (xs : List ℕ) (k : ℕ) (ys : List ℕ) (inside : k + length ys ≤ length xs) where
  -- Inside the list there is no gap.
  overwrite_inside : overwrite xs k ys ≡ take k xs ++ (ys ++ drop (k + length ys) xs)
  unfolding overwrite
  overwrite_inside =
      ap (λ n. take k xs ++ (replicate n 0 ++ (ys ++ drop (k + length ys) xs))) {y = 0}
        (omega arith)

  length_front : length (take k xs) ≡ k
  length_front = omega (arith, length-take k xs)

  pub length-overwrite : length (overwrite xs k ys) ≡ length xs
  length-overwrite =
      ap length overwrite_inside
      ∙ omega (
        arith,
        length-append (take k xs) (ys ++ drop (k + length ys) xs),
        length-append ys (drop (k + length ys) xs),
        length_front,
        length-drop (k + length ys) xs,
      )

  pub slice-overwrite_same : slice k (length ys) (overwrite xs k ys) ≡ ys
  slice-overwrite_same =
      ap (slice k (length ys)) overwrite_inside
      ∙ slice-append_right k (length ys) (take k xs) _ (omega (arith, length_front))
      ∙ ap (λ j. slice j (length ys) (ys ++ drop (k + length ys) xs)) {y = 0}
          (omega (arith, length_front))
      ∙ slice_all ys (drop (k + length ys) xs)

  pub slice-overwrite_before : (j n : ℕ) → j + n ≤ k → slice j n (overwrite xs k ys) ≡ slice j n xs
  slice-overwrite_before j n h =
      ap (slice j n) overwrite_inside
      ∙ slice-append_left j n (take k xs) _ (omega (arith, length_front))
      ∙ slice-take j n k xs h

  pub slice-overwrite_behind :
      (j n : ℕ) → k + length ys ≤ j → slice j n (overwrite xs k ys) ≡ slice j n xs
  slice-overwrite_behind j n h =
      ap (slice j n) overwrite_inside
      ∙ slice-append_right j n (take k xs) _ (omega (arith, length_front))
      ∙ slice-append_right (j - length (take k xs)) n ys _ (omega (arith, length_front))
      ∙ slice-drop (j - length (take k xs) - length ys) n (k + length ys) xs
      ∙ ap (λ i. slice i n xs) (omega (arith, length_front))
