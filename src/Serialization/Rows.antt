-- ===== src/Serialization/Rows.antt =====
-- common/row_serialization.cpp: a tuple is its length and its values, a row its id, its deleted
-- flag and its tuple behind the tuple's size in bytes.
pub mod RoundTrip
use database_management_syst.Prelude.{
  ℕ, zero, suc, ◌+◌, ◌-◌, ◌^◌, List, [], ◌∷◌, ◌++◌, Bool, not, ◌==◌, ltb, length,
}
use database_management_syst.Status.{Result, ok, invalid_argument, require, ◌>>=◌, ◌>>◌}
use database_management_syst.Binary.{
  Bytes, write_uint64, write_bool, read_uint64, read_bool, ensure_readable,
}
use database_management_syst.Value.{Value}
use database_management_syst.Serialization.Sequence.{write_sequence, read_sequence}
use database_management_syst.Serialization.Values.{serialize_value, deserialize_value}

abbrev pub Tuple : Type 0
Tuple = List Value

pub record Row : Type 0 where
  pub rid : ℕ
  pub tuple : Tuple
  pub deleted : Bool

-- kMaxTupleValues
abbrev pub max_tuple_values : ℕ
max_tuple_values = 2 ^ 20

pub serialize_tuple : Tuple → Bytes → Bytes
serialize_tuple tuple buffer =
    write_sequence serialize_value tuple (write_uint64 buffer (length tuple))

unfoldable pub deserialize_tuple : Bytes → ℕ → Result (Tuple × ℕ)
deserialize_tuple bytes offset = do
  (num_values, next) ← read_uint64 bytes offset
  require (not (ltb max_tuple_values num_values)) invalid_argument
  read_sequence deserialize_value num_values bytes next

pub serialize_row : Row → Bytes → Bytes
serialize_row row buffer =
    let temp = serialize_tuple row.tuple [] in
    write_uint64 (write_bool (write_uint64 buffer row.rid) row.deleted) (length temp) ++ temp

unfoldable pub deserialize_row : Bytes → ℕ → Result (Row × ℕ)
deserialize_row bytes offset = do
  (rid, at_deleted) ← read_uint64 bytes offset
  (deleted, at_size) ← read_bool bytes at_deleted
  (tuple_size, at_tuple) ← read_uint64 bytes at_size
  ensure_readable bytes at_tuple tuple_size
  (tuple, tuple_end) ← deserialize_tuple bytes at_tuple
  require (tuple_end - at_tuple == tuple_size) invalid_argument
  ok (record { rid = rid; tuple = tuple; deleted = deleted }, tuple_end)
