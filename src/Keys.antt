-- ===== src/Keys.antt =====
-- index/key_encoder.cpp: a key of an index as bytes, without its type.
pub mod RoundTrip
mod Examples
use database_management_syst.Prelude.{
  ℕ, List, [], ◌∷◌, ◌++◌, Bool, true, false, not, ◌||◌, ◌==◌, if◌then◌else◌, length,
}
use database_management_syst.Prelude.Sets.{is_empty}
use database_management_syst.Status.{Result, ok, err, invalid_argument, require, ◌>>=◌, ◌>>◌}
use database_management_syst.Binary.{Bytes, write_int64, write_bool, read_int64}
use database_management_syst.Value.{
  Value, null, int, string, bool, ValueType, null_type, int_type, string_type, bool_type,
}

pub encode : Value → Bytes
encode null = []
encode (int v) = write_int64 [] v
encode (string v) = v
encode (bool v) = write_bool [] v

decode_bool : Bytes → Result Value
decode_bool (byte ∷ []) =
    if byte == 0 || byte == 1 then ok (bool (byte == 1)) else err invalid_argument
decode_bool bytes = err invalid_argument

pub decode : Bytes → ValueType → Result Value
unfolding decode_bool is_empty
decode bytes null_type = do require (is_empty bytes) invalid_argument; ok null
decode bytes int_type = do
  require (length bytes == 8) invalid_argument
  (value, end) ← read_int64 bytes 0
  ok (int value)
decode bytes string_type = ok (string bytes)
decode bytes bool_type = decode_bool bytes
