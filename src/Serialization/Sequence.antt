-- ===== src/Serialization/Sequence.antt =====
-- The loops of common/*_serialization.cpp over the elements of a vector: one element after the
-- other is written, and as many as were counted are read.
use database_management_syst.Prelude.{
  ℕ, zero, suc, ◌≡◌, sym, List, [], ◌∷◌, ◌++◌, length, All, append-nil, append_assoc,
}
use database_management_syst.Status.{Result, ok, ◌>>=◌}
use database_management_syst.Binary.{Bytes}
use database_management_syst.Binary.Cursor.{Cursor, Yields, Yields-bind, Yields-ok}

pub write_sequence {ℓ} : {A : Type ℓ} → (A → Bytes → Bytes) → List A → Bytes → Bytes
write_sequence write [] buffer = buffer
write_sequence write (x ∷ xs) buffer = write_sequence write xs (write x buffer)

unfoldable pub read_sequence {ℓ} :
    {A : Type ℓ} → (Bytes → ℕ → Result (A × ℕ)) → ℕ → Bytes → ℕ → Result (List A × ℕ)
read_sequence read zero bytes offset = ok ([], offset)
read_sequence read (suc n) bytes offset = do
  (x, next) ← read bytes offset
  (xs, last) ← read_sequence read n bytes next
  ok (x ∷ xs, last)

unfoldable pub sequence_bytes {ℓ} : {A : Type ℓ} → (A → Bytes) → List A → Bytes
sequence_bytes encode [] = []
sequence_bytes encode (x ∷ xs) = encode x ++ sequence_bytes encode xs

module _ {ℓ} {A : Type ℓ} (write : A → Bytes → Bytes) (encode : A → Bytes)
    (appends : (x : A) (buffer : Bytes) → write x buffer ≡ buffer ++ encode x) where
  pub write_sequence-eq :
      (xs : List A) (buffer : Bytes)
      → write_sequence write xs buffer ≡ buffer ++ sequence_bytes encode xs
  unfolding write_sequence sequence_bytes
  write_sequence-eq [] buffer = sym (append-nil buffer)
  write_sequence-eq (x ∷ xs) buffer = simp (write_sequence-eq xs, appends x, append_assoc)

-- If the reader yields each element that has been encoded, a sequence of them is read back.
module _ {ℓ} {A : Type ℓ} (read : Bytes → ℕ → Result (A × ℕ)) (encode : A → Bytes) (P : A → Type 0)
    (trip : (x : A) (bytes : Bytes) (off : ℕ) (rest : Bytes)
      → P x
      → Cursor bytes off (encode x ++ rest)
      → Yields (read bytes off) x bytes rest) where
  pub read_sequence-bytes :
      (xs : List A) {bytes : Bytes} {off : ℕ} {rest : Bytes}
      → All P xs
      → Cursor bytes off (sequence_bytes encode xs ++ rest)
      → Yields (read_sequence read (length xs) bytes off) xs bytes rest
  unfolding read_sequence sequence_bytes
  read_sequence-bytes [] h c = Yields-ok c
  read_sequence-bytes (x ∷ xs) {bytes} {off} {rest} (h, hs) c =
      Yields-bind _ (trip x bytes off (sequence_bytes encode xs ++ rest) h (rw append_assoc at c))
        λ _ c1. Yields-bind _ (read_sequence-bytes xs hs c1) λ _ c2. Yields-ok c2
