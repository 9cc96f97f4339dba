-- ===== src/Serialization/Rows/RoundTrip.antt =====
-- A tuple and a row are read back as they were written, if the tuple is not too long.
use database_management_syst.Prelude.{
  ℕ, ◌-◌, ◌^◌, ◌<◌, ◌≤◌, ◌≡◌, ◌++◌, true, ◌==◌, length, All, arith, ge→ltb, append_assoc, lt→ltb,
  length-append, ==_iff,
}
use database_management_syst.Status.{ok, err, invalid_argument}
use database_management_syst.Binary.{Bytes, read_uint64}
use database_management_syst.Binary.Cursor.{
  Cursor, Yields, Yields-bind, Yields-ok, read_back, Cursor-append, chunk_readable,
}
use database_management_syst.Binary.Format.{writes, uint64_bytes, bool_bytes}
use database_management_syst.Binary.RoundTrip.{read_uint64-bytes, read_bool-bytes}
use database_management_syst.Serialization.Sequence.{
  sequence_bytes, write_sequence-eq, read_sequence-bytes,
}
use database_management_syst.Serialization.Values.{serialize_value, deserialize_value}
use database_management_syst.Serialization.Values.RoundTrip.{
  IsStorable, value_bytes, serialize_value-eq, deserialize_value-bytes,
}
use database_management_syst.Serialization.Rows.{
  Tuple, Row, max_tuple_values, serialize_tuple, deserialize_tuple, serialize_row, deserialize_row,
}

abbrev pub IsStorableTuple : Tuple → Type 0
IsStorableTuple t = All IsStorable t × (length t ≤ max_tuple_values)

unfoldable pub tuple_bytes : Tuple → Bytes
tuple_bytes t = uint64_bytes (length t) ++ sequence_bytes value_bytes t

abbrev pub IsStorableRow : Row → Type 0
IsStorableRow r =
    (r.rid < 2 ^ 64) × (length (tuple_bytes r.tuple) < 2 ^ 64) × IsStorableTuple r.tuple

unfoldable pub row_bytes : Row → Bytes
row_bytes r =
    let temp = tuple_bytes r.tuple in
    uint64_bytes r.rid ++ (bool_bytes r.deleted ++ (uint64_bytes (length temp) ++ temp))

pub serialize_tuple-eq :
    (t : Tuple) (buffer : Bytes) → serialize_tuple t buffer ≡ buffer ++ tuple_bytes t
unfolding serialize_tuple tuple_bytes
serialize_tuple-eq t buffer =
    simp (write_sequence-eq serialize_value value_bytes serialize_value-eq, writes)

pub serialize_row-eq : (r : Row) (buffer : Bytes) → serialize_row r buffer ≡ buffer ++ row_bytes r
unfolding serialize_row row_bytes
serialize_row-eq r buffer = simp (serialize_tuple-eq, writes)

-- A tuple of at most 2^20 storable values is read back from wherever it stands in a buffer.
pub deserialize_tuple-bytes :
    (t : Tuple) {bytes : Bytes} {off : ℕ} {rest : Bytes}
    → IsStorableTuple t
    → Cursor bytes off (tuple_bytes t ++ rest)
    → Yields (deserialize_tuple bytes off) t bytes rest
unfolding deserialize_tuple tuple_bytes
deserialize_tuple-bytes t {bytes} {off} {rest} (h, n) c =
    Yields-bind _ (read_uint64-bytes (length t) (omega arith) (rw append_assoc at c)) λ _ c1.
      rw (ge→ltb max_tuple_values (length t) n) (
        read_sequence-bytes deserialize_value value_bytes IsStorable
          (λ v bytes off rest. deserialize_value-bytes v) t h c1)

-- A longer one is written all the same, and then refused by the reader.
deserialize_tuple_refuses :
    (t : Tuple) {bytes : Bytes} {off : ℕ} (rest : Bytes)
    → max_tuple_values < length t
    → length t < 2 ^ 64
    → Cursor bytes off (tuple_bytes t ++ rest)
    → deserialize_tuple bytes off ≡ err invalid_argument
unfolding deserialize_tuple tuple_bytes
deserialize_tuple_refuses t {bytes} {off} rest h n c =
    rw (y.returns, lt→ltb max_tuple_values (length t) h)
  where
    y : Yields (read_uint64 bytes off) (length t) bytes (sequence_bytes value_bytes t ++ rest)
    y = read_uint64-bytes (length t) n (rw append_assoc at c)

-- What the reader has consumed between two cursors.
pub consumed :
    (xs : Bytes) {bytes : Bytes} {off next : ℕ} (rest : Bytes)
    → Cursor bytes off (xs ++ rest)
    → Cursor bytes next rest
    → (next - off == length xs) ≡ true
consumed xs {off = off} {next = next} rest c d =
    (==_iff (next - off) (length xs)).1 (omega (arith, c.fits, d.fits, length-append xs rest))

-- A row is read back from wherever it stands in a buffer.
pub deserialize_row-bytes :
    (r : Row) {bytes : Bytes} {off : ℕ} {rest : Bytes}
    → IsStorableRow r
    → Cursor bytes off (row_bytes r ++ rest)
    → Yields (deserialize_row bytes off) r bytes rest
unfolding deserialize_row row_bytes
deserialize_row-bytes r {bytes} {off} {rest} (hr, hs, ht) c =
    let temp = tuple_bytes r.tuple in
    Yields-bind _ (read_uint64-bytes r.rid hr (simp append_assoc at c)) λ _ c1.
      Yields-bind _ (read_bool-bytes r.deleted c1) λ _ c2.
        Yields-bind _ (read_uint64-bytes (length temp) hs c2) λ at_tuple c3.
          rw (chunk_readable bytes at_tuple temp rest c3) (
            Yields-bind _ (deserialize_tuple-bytes r.tuple ht c3)
              λ _ c4. rw (consumed temp rest c3 c4) (Yields-ok c4))

-- A tuple of storable values is read back from the buffer that it was written to, if it has at most
-- 2^20 values, and the reader stops where it ends.
pub deserialize_tuple-serialize :
    (t : Tuple) (buffer rest : Bytes)
    → IsStorableTuple t
    → deserialize_tuple (serialize_tuple t buffer ++ rest) (length buffer)
      ≡ ok (t, length (serialize_tuple t buffer))
deserialize_tuple-serialize t buffer rest h =
    read_back deserialize_tuple t buffer (tuple_bytes t) rest (serialize_tuple-eq t buffer)
      (λ bytes off. deserialize_tuple-bytes t h)

-- A tuple of more than 2^20 values (its count in 64 bits) is written all the same, and the reader
-- refuses what was written.
pub deserialize_tuple_too_long :
    (t : Tuple) (buffer rest : Bytes)
    → max_tuple_values < length t
    → length t < 2 ^ 64
    → deserialize_tuple (serialize_tuple t buffer ++ rest) (length buffer) ≡ err invalid_argument
deserialize_tuple_too_long t buffer rest h n =
    deserialize_tuple_refuses t rest h n (
      rw (serialize_tuple-eq t buffer, append_assoc) (Cursor-append buffer (tuple_bytes t ++ rest)))

-- A row whose id and tuple the format can hold is read back, its deleted flag included, from the
-- buffer that it was written to, and the reader stops where it ends.
pub deserialize_row-serialize :
    (r : Row) (buffer rest : Bytes)
    → IsStorableRow r
    → deserialize_row (serialize_row r buffer ++ rest) (length buffer)
      ≡ ok (r, length (serialize_row r buffer))
deserialize_row-serialize r buffer rest h =
    read_back deserialize_row r buffer (row_bytes r) rest (serialize_row-eq r buffer)
      (λ bytes off. deserialize_row-bytes r h)
