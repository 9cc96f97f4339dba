-- ===== src/Serialization/Values/RoundTrip.antt =====
-- A value is read back as it was written.
use database_management_syst.Prelude.{ℕ, ◌^◌, ◌<◌, ◌≡◌, ◌++◌, length, arith, append_assoc}
use database_management_syst.Prelude.Int.{IsInt64}
use database_management_syst.Status.{ok}
use database_management_syst.Binary.{Bytes}
use database_management_syst.Binary.Cursor.{Cursor, Yields, Yields-bind, Yields-ok, read_back}
use database_management_syst.Binary.Format.{
  writes, uint32_bytes, int64_bytes, string_bytes, bool_bytes,
}
use database_management_syst.Binary.RoundTrip.{
  read_uint32-bytes, read_int64-bytes, read_string-bytes, read_bool-bytes,
}
use database_management_syst.Value.{Value, null, int, string, bool, value_type, type_number}
use database_management_syst.Serialization.Values.{serialize_value, deserialize_value}

-- The values that the format can hold: a 64-bit integer, a text whose size fits 32 bits.
abbrev pub IsStorable : Value → Type 0
IsStorable null = Unit {0}
IsStorable (int v) = IsInt64 v
IsStorable (string v) = length v < 2 ^ 32
IsStorable (bool v) = Unit {0}

-- The format: the type's number, then the payload.
unfoldable pub value_bytes : Value → Bytes
value_bytes null = uint32_bytes 0
value_bytes (int v) = uint32_bytes 1 ++ int64_bytes v
value_bytes (string v) = uint32_bytes 2 ++ string_bytes v
value_bytes (bool v) = uint32_bytes 3 ++ bool_bytes v

pub serialize_value-eq :
    (v : Value) (buffer : Bytes) → serialize_value v buffer ≡ buffer ++ value_bytes v
unfolding serialize_value value_bytes type_number value_type
serialize_value-eq null buffer = simp writes
serialize_value-eq (int v) buffer = simp writes
serialize_value-eq (string v) buffer = simp writes
serialize_value-eq (bool v) buffer = simp writes

-- A storable value is read back from wherever its serialization stands in a buffer.
pub deserialize_value-bytes :
    (v : Value) {bytes : Bytes} {off : ℕ} {rest : Bytes}
    → IsStorable v
    → Cursor bytes off (value_bytes v ++ rest)
    → Yields (deserialize_value bytes off) v bytes rest
unfolding deserialize_value value_bytes
deserialize_value-bytes null h c =
    Yields-bind _ (read_uint32-bytes 0 (omega arith) c) λ _ c1. Yields-ok c1
deserialize_value-bytes (int v) h c =
    Yields-bind _ (read_uint32-bytes 1 (omega arith) (rw append_assoc at c))
      λ _ c1. Yields-bind _ (read_int64-bytes v h c1) λ _ c2. Yields-ok c2
deserialize_value-bytes (string v) h c =
    Yields-bind _ (read_uint32-bytes 2 (omega arith) (rw append_assoc at c))
      λ _ c1. Yields-bind _ (read_string-bytes v h c1) λ _ c2. Yields-ok c2
deserialize_value-bytes (bool v) h c =
    Yields-bind _ (read_uint32-bytes 3 (omega arith) (rw append_assoc at c))
      λ _ c1. Yields-bind _ (read_bool-bytes v c1) λ _ c2. Yields-ok c2

-- A storable value is read back from the buffer that it was written to, whatever the buffer held
-- before and whatever follows, and the reader stops where the value ends.
pub deserialize_value-serialize :
    (v : Value) (buffer rest : Bytes)
    → IsStorable v
    → deserialize_value (serialize_value v buffer ++ rest) (length buffer)
      ≡ ok (v, length (serialize_value v buffer))
deserialize_value-serialize v buffer rest h =
    read_back deserialize_value v buffer (value_bytes v) rest (serialize_value-eq v buffer)
      (λ bytes off. deserialize_value-bytes v h)
