-- ===== src/Versions/RoundTrip.antt =====
-- The records of version_log.cpp as bytes, written and read.
use database_management_syst.Prelude.{
  ℕ, ◌^◌, ◌<◌, ◌≡◌, refl, sym, subst, ◌∙◌, [], ◌++◌, true, ◌==◌, ==_iff, length, append-nil,
  append_assoc, arith,
}
use database_management_syst.Prelude.Int.{IsInt64}
use database_management_syst.Status.{ok}
use database_management_syst.Binary.{Bytes}
use database_management_syst.Binary.Cursor.{Cursor, Yields, Yields-bind, Yields-ok, Cursor-start}
use database_management_syst.Binary.Format.{
  writes, uint32_bytes, uint64_bytes, int64_bytes, string_bytes,
}
use database_management_syst.Binary.RoundTrip.{
  read_int64-bytes, read_string-bytes, read_uint64-bytes, read_uint32-bytes,
}
use database_management_syst.Serialization.Rows.RoundTrip.{
  IsStorableTuple, tuple_bytes, serialize_tuple-eq, deserialize_tuple-bytes,
}
use database_management_syst.Versions.{
  VersionOp, insert, update, delete, unknown, VersionRecord, version_op_of, version_op_number,
  is_valid_version_op, validate_record, serialize_record, deserialize_record, read_payload,
}

-- What the format can hold, and `Append` takes: a name that is not empty and an operation.
pub record IsStorableRecord (r : VersionRecord) : Type 0 where
  pub valid : validate_record r ≡ ok tt
  pub operation : is_valid_version_op r.op ≡ true
  pub time : IsInt64 r.timestamp_ms
  pub name : length r.table_name < 2 ^ 32
  pub id : r.rid < 2 ^ 64
  pub old : IsStorableTuple r.before
  pub new : IsStorableTuple r.after
  pub fits : length (serialize_record r) < 2 ^ 32

unfoldable pub record_bytes : VersionRecord → Bytes
record_bytes r =
    int64_bytes r.timestamp_ms
    ++ (string_bytes r.table_name
        ++ (uint64_bytes r.rid
            ++ (uint32_bytes (version_op_number r.op)
                ++ (tuple_bytes r.before ++ tuple_bytes r.after))))

pub serialize_record-eq : (r : VersionRecord) → serialize_record r ≡ record_bytes r
unfolding serialize_record record_bytes
serialize_record-eq r = simp (serialize_tuple-eq, writes)

-- The operation is read back from its number.
version_op_of-number :
    (op : VersionOp) → is_valid_version_op op ≡ true → version_op_of (version_op_number op) ≡ op
unfolding version_op_of version_op_number is_valid_version_op
version_op_of-number insert h = refl
version_op_of-number update h = refl
version_op_of-number delete h = refl
version_op_of-number (unknown n) h = absurd (ground (arith, h))

version_op_number-bound :
    (op : VersionOp) → is_valid_version_op op ≡ true → version_op_number op < 3
unfolding version_op_number is_valid_version_op
version_op_number-bound insert h = omega arith
version_op_number-bound update h = omega arith
version_op_number-bound delete h = omega arith
version_op_number-bound (unknown n) h = absurd (ground (arith, h))

deserialize_record-bytes :
    (r : VersionRecord) {bytes : Bytes} {off : ℕ} {rest : Bytes}
    → IsStorableRecord r
    → Cursor bytes off (record_bytes r ++ rest)
    → Yields (deserialize_record bytes off) r bytes rest
unfolding deserialize_record record_bytes
deserialize_record-bytes r {bytes} {off} {rest} h c =
    Yields-bind _ (read_int64-bytes r.timestamp_ms h.time (simp append_assoc at c)) λ _ c1.
      Yields-bind _ (read_string-bytes r.table_name h.name c1) λ _ c2.
        Yields-bind _ (read_uint64-bytes r.rid h.id c2) λ _ c3.
          Yields-bind _
            (read_uint32-bytes (version_op_number r.op)
              (omega (arith, version_op_number-bound r.op h.operation)) c3)
            λ _ c4.
              rw (version_op_of-number r.op h.operation, h.operation)
                (Yields-bind _ (deserialize_tuple-bytes r.before h.old c4) λ _ c5.
                  Yields-bind _ (deserialize_tuple-bytes r.after h.new c5) λ _ c6. Yields-ok c6)

pub read_payload-serialize :
    (r : VersionRecord) → IsStorableRecord r → read_payload (serialize_record r) ≡ ok r
unfolding read_payload
read_payload-serialize r h = rw (y.returns, ended) refl
  where
    bytes : Bytes
    bytes = serialize_record r

    y : Yields (deserialize_record bytes 0) r bytes []
    y = deserialize_record-bytes r h (
        subst (λ b. Cursor bytes 0 b) (serialize_record-eq r ∙ sym (append-nil (record_bytes r)))
          (Cursor-start bytes))

    ended : (y.next == length bytes) ≡ true
    ended = (==_iff y.next (length bytes)).1 (omega (arith, y.cursor.fits))
