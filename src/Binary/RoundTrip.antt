-- ===== src/Binary/RoundTrip.antt =====
-- Each reader of common/binary_io.cpp yields what the writer of its type wrote.
use database_management_syst.Prelude.{
  ℕ, zero, suc, ◌+◌, ◌/◌, ◌^◌, ◌<◌, ◌≡◌, refl, sym, ap, ◌++◌, Bool, true, false, length, take, drop,
  arith, append_assoc, subst,
}
use native.Mathlib.Nat.{pow-suc, mod-eq_of_lt}
use database_management_syst.Prelude.Int.{
  ℤ, IsInt64, int64_bits, int64_bits-lt, int64_of_bits-int64_bits,
}
use database_management_syst.Status.{ok, ◌>>◌}
use database_management_syst.Binary.{
  Bytes, le_bytes, le_value, ensure_readable, read_pod, read_uint8, read_uint32, read_uint64,
  read_int64, read_bool, read_string,
}
use database_management_syst.Binary.Format.{
  uint32_bytes, uint64_bytes, int64_bytes, bool_bytes, string_bytes,
}
use database_management_syst.Binary.Cursor.{
  Cursor, Yields, Yields-bind, Yields-ok, chunk_readable, chunk_take, chunk_advance,
}

pub length-le_bytes : (w v : ℕ) → length (le_bytes w v) ≡ w
unfolding le_bytes
length-le_bytes zero v = refl
length-le_bytes (suc w) v = ap suc (length-le_bytes w (v / 256))

pub le_value-le_bytes : (w v : ℕ) → v < 256 ^ w → le_value (le_bytes w v) ≡ v
unfolding le_bytes le_value
le_value-le_bytes zero v h = omega arith
le_value-le_bytes (suc w) v h =
    omega (arith, le_value-le_bytes w (v / 256) (omega (arith, pow-suc 256 w)))

-- A chunk of `n` bytes, read after the check that it is there.
read_chunk {ℓ} :
    {A : Type ℓ} (n : ℕ) (f : Bytes → A) {bytes : Bytes} {off : ℕ} (xs : Bytes) {rest : Bytes}
    → length xs ≡ n
    → Cursor bytes off (xs ++ rest)
    → Yields
        (ensure_readable bytes off n >> ok (f (take n (drop off bytes)), off + n))
        (f xs)
        bytes
        rest
read_chunk n f {bytes} {off} xs {rest} e c =
    subst
      (λ k.
        Yields (ensure_readable bytes off k >> ok (f (take k (drop off bytes)), off + k)) (f xs)
          bytes rest)
      e
      (record {
        next = off + length xs;
        returns = rw (chunk_readable bytes off xs rest c, chunk_take bytes off xs rest c);
        cursor = chunk_advance bytes off xs rest c;
      })

read_pod-le_bytes :
    (w v : ℕ) {bytes : Bytes} {off : ℕ} {rest : Bytes}
    → v < 256 ^ w
    → Cursor bytes off (le_bytes w v ++ rest)
    → Yields (read_pod w bytes off) v bytes rest
unfolding read_pod
read_pod-le_bytes w v {bytes} {off} {rest} h c =
    subst (λ a. Yields (read_pod w bytes off) a bytes rest) (le_value-le_bytes w v h)
      (read_chunk w le_value (le_bytes w v) (length-le_bytes w v) c)

module _ {bytes : Bytes} {off : ℕ} {rest : Bytes} where
  pub read_uint32-bytes :
      (v : ℕ)
      → v < 2 ^ 32
      → Cursor bytes off (uint32_bytes v ++ rest)
      → Yields (read_uint32 bytes off) v bytes rest
  unfolding uint32_bytes read_uint32
  read_uint32-bytes v h c = read_pod-le_bytes 4 v (omega arith) c

  pub read_uint64-bytes :
      (v : ℕ)
      → v < 2 ^ 64
      → Cursor bytes off (uint64_bytes v ++ rest)
      → Yields (read_uint64 bytes off) v bytes rest
  unfolding uint64_bytes read_uint64
  read_uint64-bytes v h c = read_pod-le_bytes 8 v (omega arith) c

  pub read_int64-bytes :
      (v : ℤ)
      → IsInt64 v
      → Cursor bytes off (int64_bytes v ++ rest)
      → Yields (read_int64 bytes off) v bytes rest
  unfolding int64_bytes read_int64
  read_int64-bytes v h c =
      Yields-bind _ (read_pod-le_bytes 8 (int64_bits v) (int64_bits-lt v h) c) λ next c'.
        subst (λ a. Yields (ok (a, next)) v bytes rest) (sym (int64_of_bits-int64_bits v h))
          (Yields-ok c')

  pub read_bool-bytes :
      (v : Bool)
      → Cursor bytes off (bool_bytes v ++ rest)
      → Yields (read_bool bytes off) v bytes rest
  unfolding bool_bytes read_bool read_uint8
  read_bool-bytes true c =
      Yields-bind _ (read_pod-le_bytes 1 1 (omega arith) c) (λ next c'. Yields-ok c')
  read_bool-bytes false c =
      Yields-bind _ (read_pod-le_bytes 1 0 (omega arith) c) (λ next c'. Yields-ok c')

module _ {bytes : Bytes} {off : ℕ} {rest : Bytes} where
  -- A text is read back if its size fits 32 bits.
  pub read_string-bytes :
      (v : Bytes)
      → length v < 2 ^ 32
      → Cursor bytes off (string_bytes v ++ rest)
      → Yields (read_string bytes off) v bytes rest
  unfolding string_bytes read_string
  read_string-bytes v h c =
      Yields-bind _ (read_uint32-bytes (length v) h sized)
        (λ next c'. read_chunk (length v) (λ xs. xs) v refl c')
    where
      sized : Cursor bytes off (uint32_bytes (length v) ++ (v ++ rest))
      sized =
          subst (λ n. Cursor bytes off (uint32_bytes n ++ (v ++ rest))) (mod-eq_of_lt h)
            (rw append_assoc at c)
