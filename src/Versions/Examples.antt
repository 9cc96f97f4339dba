-- ===== src/Versions/Examples.antt =====
-- A log with two records.
use database_management_syst.Prelude.{
  ◌≡◌, refl, ◌<◌, List, [], ◌∷◌, ◌++◌, false, none, some, length, take, arith, subst, sym, ◌^◌,
}
use database_management_syst.Binary.{le_bytes}
use database_management_syst.Binary.Format.{int64_bytes, string_bytes, uint64_bytes, uint32_bytes}
use database_management_syst.Serialization.Sequence.{sequence_bytes}
use database_management_syst.Serialization.Values.RoundTrip.{value_bytes}
use database_management_syst.Serialization.Rows.RoundTrip.{tuple_bytes}
use database_management_syst.Prelude.Int.{pos}
use database_management_syst.Prelude.Text.{codes}
use database_management_syst.Prelude.Sets.{is_empty}
use database_management_syst.Status.{ok, err, invalid_argument}
use database_management_syst.Value.{int}
use database_management_syst.Versions.{
  VersionRecord, VersionLog, insert, update, open_log, append_record, read_all, contents, log_entry,
  serialize_record, validate_record, is_valid_version_op,
}
use database_management_syst.Versions.RoundTrip.{
  IsStorableRecord, record_bytes, serialize_record-eq,
}
use database_management_syst.Versions.Reading.{length-log_entry}
use database_management_syst.Versions.History.{
  Holds, open_log-new, read_all-append_record, read_all_torn,
}

abbrev new_log : VersionLog
new_log = record { file_path = codes "t.vlog"; file = none; is_open = false }

abbrev inserted : VersionRecord
inserted = record {
  timestamp_ms = pos 10;
  table_name = codes "t";
  rid = 1;
  op = insert;
  before = [];
  after = int (pos 7) ∷ [];
}

abbrev changed : VersionRecord
changed = record {
  timestamp_ms = pos 20;
  table_name = codes "t";
  rid = 1;
  op = update;
  before = int (pos 7) ∷ [];
  after = int (pos 8) ∷ [];
}

inserted-IsStorableRecord : IsStorableRecord inserted
unfolding validate_record is_valid_version_op record_bytes int64_bytes string_bytes uint64_bytes
    uint32_bytes tuple_bytes sequence_bytes value_bytes le_bytes
inserted-IsStorableRecord = record {
  valid = refl;
  operation = refl;
  time = omega arith;
  name = omega arith;
  id = omega arith;
  old = (tt, omega arith);
  new = ((omega arith, tt), omega arith);
  fits = subst (λ b. length b < 2 ^ 32) (sym (serialize_record-eq inserted)) (omega arith);
}

changed-IsStorableRecord : IsStorableRecord changed
unfolding validate_record is_valid_version_op record_bytes int64_bytes string_bytes uint64_bytes
    uint32_bytes tuple_bytes sequence_bytes value_bytes le_bytes
changed-IsStorableRecord = record {
  valid = refl;
  operation = refl;
  time = omega arith;
  name = omega arith;
  id = omega arith;
  old = ((omega arith, tt), omega arith);
  new = ((omega arith, tt), omega arith);
  fits = subst (λ b. length b < 2 ^ 32) (sym (serialize_record-eq changed)) (omega arith);
}

opened : (log : VersionLog) × (open_log new_log ≡ (ok tt, log)) × Holds log []
unfolding is_empty
opened = open_log-new (codes "t.vlog") refl

read_all-append_record_example :
    (l : VersionLog) × (append_record inserted opened.0 ≡ (ok tt, l))
    × ((out : List VersionRecord) → read_all l out ≡ some (ok tt, inserted ∷ []))
    × (open_log (record l { is_open = false }) ≡ (ok tt, l))
    × Holds l (inserted ∷ [])
read_all-append_record_example =
    read_all-append_record opened.0 [] inserted opened.2 inserted-IsStorableRecord

with_inserted :
    (l : VersionLog) × (append_record inserted opened.0 ≡ (ok tt, l))
    × ((out : List VersionRecord) → read_all l out ≡ some (ok tt, inserted ∷ []))
    × (open_log (record l { is_open = false }) ≡ (ok tt, l))
    × Holds l (inserted ∷ [])
with_inserted = read_all-append_record opened.0 [] inserted opened.2 inserted-IsStorableRecord

read_all_torn_example :
    read_all
      (record with_inserted.0 {
        file = some (contents with_inserted.0 ++ take 3 (log_entry (serialize_record changed)));
      })
      (changed ∷ [])
    ≡ some (err invalid_argument, inserted ∷ [])
read_all_torn_example =
    read_all_torn with_inserted.0 (inserted ∷ []) changed 3 (changed ∷ []) with_inserted.4
      changed-IsStorableRecord (omega arith)
      (omega (arith, length-log_entry (serialize_record changed) changed-IsStorableRecord.fits))
