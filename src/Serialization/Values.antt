-- ===== src/Serialization/Values.antt =====
-- common/value_serialization.cpp: a type tag of 32 bits, then the payload.
pub mod RoundTrip
use database_management_syst.Prelude.{ℕ, ◌+◌, ◌%◌, ◌^◌, List, [], Bool, ◌==◌, if◌then◌else◌}
use database_management_syst.Status.{Result, ok, err, invalid_argument, ◌>>=◌}
use database_management_syst.Binary.{
  Bytes, write_uint32, write_int64, write_string, write_bool, read_uint32, read_int64, read_string,
  read_bool,
}
use database_management_syst.Value.{Value, null, int, string, bool, value_type, type_number}

write_payload : Value → Bytes → Bytes
write_payload null buffer = buffer
write_payload (int v) buffer = write_int64 buffer v
write_payload (string v) buffer = write_string buffer v
write_payload (bool v) buffer = write_bool buffer v

pub serialize_value : Value → Bytes → Bytes
unfolding write_payload
serialize_value value buffer =
    write_payload value (write_uint32 buffer (type_number (value_type value) % 2 ^ 32))

pub read_payload : ℕ → Bytes → ℕ → Result (Value × ℕ)
read_payload raw bytes offset =
    if raw == 0
    then ok (null, offset)
    else if raw == 1
    then (do (v, next) ← read_int64 bytes offset; ok (int v, next))
    else if raw == 2
    then (do (v, next) ← read_string bytes offset; ok (string v, next))
    else if raw == 3
    then (do (v, next) ← read_bool bytes offset; ok (bool v, next))
    else err invalid_argument

unfoldable pub deserialize_value : Bytes → ℕ → Result (Value × ℕ)
unfolding read_payload
deserialize_value bytes offset = do
  (raw, next) ← read_uint32 bytes offset
  read_payload raw bytes next
