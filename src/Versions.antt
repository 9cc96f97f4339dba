-- ===== src/Versions.antt =====
-- versioning/version_log.cpp: the log of a table's changes, a file of records behind a header. The
-- file is its bytes; `none` is a path where no file is. Opening, seeking and writing succeed.
pub mod RoundTrip
pub mod Reading
pub mod History
pub mod Revert
mod Examples
use database_management_syst.Prelude.{
  ℕ, zero, suc, ◌-◌, ◌^◌, ◌%◌, List, [], ◌∷◌, ◌++◌, Bool, true, false, not, ltb, ◌==◌,
  if◌then◌else◌, Option, none, some, length, take, drop,
}
use database_management_syst.Prelude.Int.{ℤ}
use database_management_syst.Prelude.Sets.{is_empty}
use database_management_syst.Prelude.Slices.{overwrite}
use database_management_syst.Status.{
  Result, ok, err, invalid_argument, internal_error, require, ◌>>=◌, ◌>>◌,
}
use database_management_syst.Binary.{
  Bytes, le_value, write_int64, write_string, write_uint64, write_uint32, read_int64, read_string,
  read_uint64, read_uint32,
}
use database_management_syst.Value.{eq_bytes}
use database_management_syst.Serialization.Rows.{Tuple, serialize_tuple, deserialize_tuple}

-- The reader casts a number to the enumeration: `unknown` is one that is no enumerator.
pub data VersionOp : Type 0 where
  insert update delete : VersionOp
  unknown : ℕ → VersionOp

pub record VersionRecord : Type 0 where
  pub timestamp_ms : ℤ
  pub table_name : Bytes
  pub rid : ℕ
  pub op : VersionOp
  pub before : Tuple
  pub after : Tuple

pub record VersionLog : Type 0 where
  pub file_path : Bytes
  pub file : Option Bytes
  pub is_open : Bool

unfoldable pub version_op_of : ℕ → VersionOp
version_op_of zero = insert
version_op_of (suc zero) = update
version_op_of (suc (suc zero)) = delete
version_op_of (suc (suc (suc n))) = unknown (suc (suc (suc n)))

unfoldable pub version_op_number : VersionOp → ℕ
version_op_number insert = 0
version_op_number update = 1
version_op_number delete = 2
version_op_number (unknown n) = n

unfoldable pub is_valid_version_op : VersionOp → Bool
is_valid_version_op (unknown n) = false
is_valid_version_op op = true

-- kVersionLogMagic, kVersionLogVersion, LogHeaderSize()
abbrev pub version_log_magic : Bytes
version_log_magic = b'C' ∷ b'D' ∷ b'B' ∷ b'V' ∷ b'L' ∷ b'O' ∷ b'G' ∷ b'1' ∷ []

abbrev pub version_log_version : ℕ
version_log_version = 1

abbrev pub log_header_size : ℕ
log_header_size = 12

unfoldable pub log_header : Bytes
log_header = write_uint32 version_log_magic version_log_version

abbrev pub Outcome : Type 0 → Type 0
Outcome A = Result A × VersionLog

abbrev pub contents : VersionLog → Bytes
contents log = elim log.file [ none ↦ [] | some bytes ↦ bytes ]

unfoldable pub validate_log_header : Bytes → Result (Unit {0})
validate_log_header bytes =
    if ltb (length bytes) log_header_size
    then err invalid_argument
    else if not (eq_bytes (take 8 bytes) version_log_magic)
    then err invalid_argument
    else do
      (version, next) ← read_uint32 (take log_header_size bytes) 8
      require (version == version_log_version) invalid_argument

unfoldable pub open_validated : VersionLog → Outcome (Unit {0})
unfolding validate_log_header
open_validated log = elim (validate_log_header (contents log)) [
  | ok done ↦ (ok tt, record log { is_open = true })
  | err code ↦ (err code, log)
]

unfoldable pub initialize_log_file : VersionLog → VersionLog
unfolding log_header
initialize_log_file log = elim log.file [
  | none ↦ record log { file = some log_header }
  | some bytes ↦ log
]

unfoldable pub open_log : VersionLog → Outcome (Unit {0})
unfolding open_validated initialize_log_file is_empty
open_log log =
    if log.is_open
    then (ok tt, log)
    else if is_empty log.file_path
    then (err invalid_argument, log)
    else open_validated (initialize_log_file log)

unfoldable pub flush_log : VersionLog → Outcome (Unit {0})
flush_log log = (if log.is_open then ok tt else err internal_error, log)

-- No caller uses it.
unfoldable pub write_log_header : VersionLog → Outcome (Unit {0})
unfolding log_header
write_log_header log =
    if log.is_open
    then (ok tt, record log { file = some (overwrite (contents log) 0 log_header) })
    else (err internal_error, log)

unfoldable pub validate_record : VersionRecord → Result (Unit {0})
unfolding is_empty is_valid_version_op
validate_record r = do
  require (not (is_empty r.table_name)) invalid_argument
  require (is_valid_version_op r.op) invalid_argument

unfoldable pub serialize_record : VersionRecord → Bytes
unfolding version_op_number
serialize_record r =
    let head = write_string (write_int64 [] r.timestamp_ms) r.table_name in
    let numbers = write_uint32 (write_uint64 head r.rid) (version_op_number r.op) in
    serialize_tuple r.after (serialize_tuple r.before numbers)

unfoldable pub deserialize_record : Bytes → ℕ → Result (VersionRecord × ℕ)
unfolding version_op_of is_valid_version_op
deserialize_record bytes offset = do
  (timestamp_ms, at_name) ← read_int64 bytes offset
  (table_name, at_rid) ← read_string bytes at_name
  (rid, at_op) ← read_uint64 bytes at_rid
  (raw_op, at_before) ← read_uint32 bytes at_op
  require (is_valid_version_op (version_op_of raw_op)) invalid_argument
  (before, at_after) ← deserialize_tuple bytes at_before
  (after, next) ← deserialize_tuple bytes at_after
  ok (
    record {
      timestamp_ms = timestamp_ms;
      table_name = table_name;
      rid = rid;
      op = version_op_of raw_op;
      before = before;
      after = after;
    },
    next,
  )

unfoldable pub log_entry : Bytes → Bytes
log_entry payload = write_uint32 [] (length payload % 2 ^ 32) ++ payload

unfoldable pub append_record : VersionRecord → VersionLog → Outcome (Unit {0})
unfolding validate_record serialize_record log_entry
append_record r log =
    if not log.is_open then (err internal_error, log) else elim (validate_record r) [
      | err code ↦ (err code, log)
      | ok done ↦
          if ltb (2 ^ 32 - 1) (length (serialize_record r))
          then (err invalid_argument, log)
          else (ok tt, record log { file = some (contents log ++ log_entry (serialize_record r)) })
    ]

-- One entry's payload as a record; it must end where the payload ends.
unfoldable pub read_payload : Bytes → Result VersionRecord
unfolding deserialize_record
read_payload payload = do
  (r, offset) ← deserialize_record payload 0
  require (offset == length payload) invalid_argument
  ok r

-- The status of the reading and the records pushed to the output up to its end.
abbrev pub ReadOutcome : Type 0
ReadOutcome = Result (Unit {0}) × List VersionRecord

abbrev pub cons_record : Result VersionRecord → Option ReadOutcome → Option ReadOutcome
cons_record (err code) rest = some (err code, [])
cons_record (ok r) none = none
cons_record (ok r) (some (status, rs)) = some (status, r ∷ rs)

-- The loop over the bytes behind the header; `none` if the fuel is used up.
unfoldable pub read_records : ℕ → Bytes → Option ReadOutcome
unfolding read_payload
read_records zero bytes = none
read_records (suc fuel) bytes =
    let size = le_value (take 4 bytes) in
    let payload = take size (drop 4 bytes) in
    let rest = read_records fuel (drop size (drop 4 bytes)) in
    if length bytes == 0
    then some (ok tt, [])
    else if ltb (length bytes) 4
    then some (err invalid_argument, [])
    else if ltb (length (drop 4 bytes)) size
    then some (err invalid_argument, [])
    else cons_record (read_payload payload) rest

-- `out` holds the last argument before the call.
unfoldable pub read_all : VersionLog → List VersionRecord → Option ReadOutcome
unfolding read_records
read_all log out =
    if not log.is_open
    then some (err internal_error, out)
    else read_records (suc (length (contents log))) (drop log_header_size (contents log))
