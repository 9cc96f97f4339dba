-- ===== src/Binary/Format.antt =====
-- What the writers of common/binary_io.cpp add to a buffer.
use database_management_syst.Prelude.{
  ℕ, ◌%◌, ◌^◌, ◌≡◌, refl, List, [], ◌∷◌, ◌++◌, Bool, if◌then◌else◌, length, append_assoc,
}
use database_management_syst.Prelude.Int.{ℤ, int64_bits}
use database_management_syst.Binary.{
  Bytes, le_bytes, write_uint32, write_uint64, write_int64, write_bool, write_string,
}

unfoldable pub uint32_bytes : ℕ → Bytes
uint32_bytes = le_bytes 4

unfoldable pub uint64_bytes : ℕ → Bytes
uint64_bytes = le_bytes 8

unfoldable pub int64_bytes : ℤ → Bytes
int64_bytes v = le_bytes 8 (int64_bits v)

unfoldable pub bool_bytes : Bool → Bytes
bool_bytes v = le_bytes 1 (if v then 1 else 0)

unfoldable pub string_bytes : Bytes → Bytes
string_bytes v = uint32_bytes (length v % 2 ^ 32) ++ v

pub write_uint32-eq : (buffer : Bytes) (v : ℕ) → write_uint32 buffer v ≡ buffer ++ uint32_bytes v
unfolding write_uint32 uint32_bytes
write_uint32-eq buffer v = refl

pub write_uint64-eq : (buffer : Bytes) (v : ℕ) → write_uint64 buffer v ≡ buffer ++ uint64_bytes v
unfolding write_uint64 uint64_bytes
write_uint64-eq buffer v = refl

pub write_int64-eq : (buffer : Bytes) (v : ℤ) → write_int64 buffer v ≡ buffer ++ int64_bytes v
unfolding write_int64 int64_bytes
write_int64-eq buffer v = refl

pub write_bool-eq : (buffer : Bytes) (v : Bool) → write_bool buffer v ≡ buffer ++ bool_bytes v
unfolding write_bool bool_bytes le_bytes
write_bool-eq buffer v = refl

pub write_string-eq : (buffer v : Bytes) → write_string buffer v ≡ buffer ++ string_bytes v
unfolding write_string string_bytes uint32_bytes
write_string-eq buffer v = append_assoc buffer (le_bytes 4 (length v % 2 ^ 32)) v

-- These bring every write to the right of the buffer that it extends.
pub ruleset writes =
    (write_uint32-eq, write_uint64-eq, write_int64-eq, write_bool-eq, write_string-eq, append_assoc)
