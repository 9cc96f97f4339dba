-- ===== src/Binary.antt =====
-- common/binary_io.cpp. A ByteBuffer is a list of numbers below 256. A writer returns the buffer
-- that it has grown; a reader takes the whole buffer and an offset, and returns the value and the
-- offset behind it. `memcpy` of a number stores its bytes lowest first, as on x86 and ARM.
pub mod Cursor
pub mod Bounds
pub mod Format
pub mod RoundTrip
use database_management_syst.Prelude.{
  ℕ, zero, suc, ◌+◌, ◌-◌, ◌*◌, ◌/◌, ◌%◌, ◌^◌, List, [], ◌∷◌, ◌++◌, Bool, not, ◌||◌, ltb, ◌==◌,
  if◌then◌else◌, length, take, drop,
}
use database_management_syst.Prelude.Int.{ℤ, int64_bits, int64_of_bits}
use database_management_syst.Status.{Result, ok, invalid_argument, require, ◌>>=◌, ◌>>◌}

abbrev pub Bytes : Type 0
Bytes = List ℕ

-- The object representation of an unsigned number of `w` bytes.
unfoldable pub le_bytes : ℕ → ℕ → Bytes
le_bytes zero v = []
le_bytes (suc w) v = v % 256 ∷ le_bytes w (v / 256)

pub le_value : Bytes → ℕ
le_value [] = 0
le_value (b ∷ bs) = b + 256 * le_value bs

abbrev pub write_bytes : Bytes → Bytes → Bytes
write_bytes buffer bytes = buffer ++ bytes

pub write_uint8 : Bytes → ℕ → Bytes
write_uint8 buffer v = buffer ++ (v % 256 ∷ [])

pub write_uint32 : Bytes → ℕ → Bytes
write_uint32 buffer v = write_bytes buffer (le_bytes 4 v)

pub write_uint64 : Bytes → ℕ → Bytes
write_uint64 buffer v = write_bytes buffer (le_bytes 8 v)

pub write_int64 : Bytes → ℤ → Bytes
write_int64 buffer v = write_bytes buffer (le_bytes 8 (int64_bits v))

pub write_bool : Bytes → Bool → Bytes
unfolding write_uint8
write_bool buffer v = write_uint8 buffer (if v then 1 else 0)

-- The size is cast to 32 bits, the payload is written whole.
pub write_string : Bytes → Bytes → Bytes
unfolding write_uint32
write_string buffer v = write_bytes (write_uint32 buffer (length v % 2 ^ 32)) v

pub ensure_readable : Bytes → ℕ → ℕ → Result (Unit {0})
ensure_readable bytes offset need =
    require (not (ltb (length bytes) offset || ltb (length bytes - offset) need)) invalid_argument

pub read_pod : ℕ → Bytes → ℕ → Result (ℕ × ℕ)
read_pod w bytes offset = do
  ensure_readable bytes offset w
  ok (le_value (take w (drop offset bytes)), offset + w)

pub read_uint8 : Bytes → ℕ → Result (ℕ × ℕ)
read_uint8 = read_pod 1

pub read_uint32 : Bytes → ℕ → Result (ℕ × ℕ)
read_uint32 = read_pod 4

pub read_uint64 : Bytes → ℕ → Result (ℕ × ℕ)
read_uint64 = read_pod 8

pub read_int64 : Bytes → ℕ → Result (ℤ × ℕ)
read_int64 bytes offset = do (bits, next) ← read_pod 8 bytes offset; ok (int64_of_bits bits, next)

pub read_bool : Bytes → ℕ → Result (Bool × ℕ)
read_bool bytes offset = do
  (raw, next) ← read_uint8 bytes offset
  require (not (ltb 1 raw)) invalid_argument
  ok (raw == 1, next)

pub read_string : Bytes → ℕ → Result (Bytes × ℕ)
read_string bytes offset = do
  (size, next) ← read_uint32 bytes offset
  ensure_readable bytes next size
  ok (take size (drop next bytes), next + size)
