-- ===== src/Versions/History.antt =====
-- The version log as a history of records.
use database_management_syst.Prelude.{
  ℕ, zero, suc, ◌-◌, ◌^◌, ◌≤◌, ◌<◌, ◌≡◌, refl, sym, ap, subst, ◌∙◌, inl, inr, List, [], ◌∷◌, ◌++◌,
  true, false, Bool-cases, ge→ltb, none, some, length, take, drop, length-append, length-drop,
  take-append_self, drop-append_self, append-nil, append_assoc, All, arith,
}
use database_management_syst.Prelude.Sets.{is_empty}
use database_management_syst.Status.{ok, err, invalid_argument, internal_error}
use database_management_syst.Binary.{Bytes, read_uint32}
use database_management_syst.Binary.Cursor.{Yields, Cursor-append}
use database_management_syst.Binary.Format.{uint32_bytes, write_uint32-eq}
use database_management_syst.Binary.RoundTrip.{read_uint32-bytes}
use database_management_syst.Value.{eq_bytes}
use database_management_syst.Versions.{
  VersionRecord, VersionLog, contents, log_header, version_log_magic, log_header_size, open_log,
  open_validated, initialize_log_file, validate_log_header, serialize_record, log_entry,
  append_record, ReadOutcome, read_records, read_all,
}
use database_management_syst.Versions.RoundTrip.{IsStorableRecord}
use database_management_syst.Versions.Reading.{
  entries, length-entries, length-log_header, read_records_total, read_records-entries,
  read_records_torn, length-log_entry,
}

-- An open log whose file holds the records.
pub record Holds (log : VersionLog) (rs : List VersionRecord) : Type 0 where
  pub opened : log.is_open ≡ true
  pub named : is_empty log.file_path ≡ false
  pub stored : log.file ≡ some (log_header ++ entries rs)
  pub storable : All IsStorableRecord rs

-- The open log of a file with these bytes after the header.
abbrev with_entries : VersionLog → Bytes → VersionLog
with_entries log bytes = record {
  file_path = log.file_path;
  file = some (log_header ++ bytes);
  is_open = true;
}

read_all-with_entries :
    (log : VersionLog) (out : List VersionRecord) (bytes : Bytes)
    → read_all (with_entries log bytes) out
      ≡ read_records (suc (length (log_header ++ bytes))) bytes
unfolding read_all
read_all-with_entries log out bytes =
    rw
      (subst (λ n. drop n (log_header ++ bytes) ≡ bytes) length-log_header
        (drop-append_self log_header bytes))
      refl

entries-append :
    (rs : List VersionRecord) (r : VersionRecord)
    → entries (rs ++ (r ∷ [])) ≡ entries rs ++ log_entry (serialize_record r)
unfolding entries
entries-append [] r = append-nil _
entries-append (first ∷ rs) r = rw (entries-append rs r, append_assoc) refl

All-append :
    (rs : List VersionRecord) (r : VersionRecord)
    → All IsStorableRecord rs
    → IsStorableRecord r
    → All IsStorableRecord (rs ++ (r ∷ []))
All-append [] r hs h = (h, tt)
All-append (first ∷ rs) r (g, hs) h = (g, All-append rs r hs h)

read_records-end : (k : ℕ) → 0 < k → read_records k [] ≡ some (ok tt, [])
unfolding read_records
read_records-end zero h = absurd (omega arith)
read_records-end (suc k) h = refl

module _ (log : VersionLog) (rs : List VersionRecord) (h : Holds log rs) where
  same_log : log ≡ with_entries log (entries rs)
  same_log =
      ap (λ f. record log { file = f }) h.stored
      ∙ ap (λ b. record log { file = some (log_header ++ entries rs); is_open = b }) h.opened

  -- A log that holds records returns them all, in their order.
  read_all_lem : (out : List VersionRecord) → read_all log out ≡ some (ok tt, rs)
  read_all_lem out =
      let fuel = suc (length (log_header ++ entries rs)) in
      let bound : length rs ≤ fuel =
        omega (arith, length-entries rs, length-append log_header (entries rs)) in
      ap (λ l. read_all l out) same_log
      ∙ read_all-with_entries log out (entries rs)
      ∙ ap (read_records fuel) (sym (append-nil (entries rs)))
      ∙ read_records-entries rs fuel [] (ok tt, []) h.storable bound
          (read_records-end (fuel - length rs)
            (omega (arith, length-entries rs, length-append log_header (entries rs))))
      ∙ ap (λ xs. some (ok tt, xs)) (append-nil rs)

  module _ (r : VersionRecord) (hr : IsStorableRecord r) where
    appended : VersionLog
    appended = with_entries log (entries rs ++ log_entry (serialize_record r))

    grown : append_record r (with_entries log (entries rs)) ≡ (ok tt, appended)
    unfolding append_record appended
    grown =
        rw
          (
            hr.valid,
            ge→ltb (2 ^ 32 - 1) (length (serialize_record r)) (omega (arith, hr.fits)),
            append_assoc,
          )
          refl

    append_record_lem : append_record r log ≡ (ok tt, appended)
    append_record_lem = ap (append_record r) same_log ∙ grown

    appended-Holds : Holds appended (rs ++ (r ∷ []))
    unfolding appended
    appended-Holds = record {
      opened = refl;
      named = h.named;
      stored = rw (entries-append rs r) refl;
      storable = All-append rs r h.storable hr;
    }

closed : VersionLog → VersionLog
closed log = record log { is_open = false }

log_header-eq : log_header ≡ version_log_magic ++ uint32_bytes 1
unfolding log_header
log_header-eq = write_uint32-eq _ 1

validate_log_header-header : (bytes : Bytes) → validate_log_header (log_header ++ bytes) ≡ ok tt
unfolding validate_log_header eq_bytes
validate_log_header-header bytes =
    rw
      (
        ge→ltb (length (log_header ++ bytes)) log_header_size
            (omega (arith, length-log_header, length-append log_header bytes)),
        header_taken,
        magic_there,
        version_read.returns,
      )
      refl
  where
    header_taken : take log_header_size (log_header ++ bytes) ≡ log_header
    header_taken =
        subst (λ n. take n (log_header ++ bytes) ≡ log_header) length-log_header
          (take-append_self log_header bytes)

    magic_there : eq_bytes (take 8 (log_header ++ bytes)) version_log_magic ≡ true
    magic_there = rw log_header-eq refl

    version_read : Yields (read_uint32 log_header 8) 1 log_header []
    version_read =
        read_uint32-bytes 1 (omega arith)
          (rw (log_header-eq, append-nil) (Cursor-append version_log_magic (uint32_bytes 1)))

open_validated-header :
    (log : VersionLog) (bytes : Bytes)
    → open_validated (closed (with_entries log bytes)) ≡ (ok tt, with_entries log bytes)
unfolding open_validated closed
open_validated-header log bytes = rw (open_validated, validate_log_header-header bytes) refl

-- Opening a file that a log has written.
open_log-closed :
    (log : VersionLog) (bytes : Bytes)
    → is_empty log.file_path ≡ false
    → open_log (closed (with_entries log bytes)) ≡ (ok tt, with_entries log bytes)
unfolding open_log initialize_log_file closed
open_log-closed log bytes h = rw (h) (open_validated-header log bytes)

-- A log at a path where no file is opens with no records.
pub open_log-new :
    (path : Bytes)
    → is_empty path ≡ false
    → (log : VersionLog) × (open_log (record { file_path = path; file = none; is_open = false })
        ≡ (ok tt, log))
      × Holds log []
unfolding open_log initialize_log_file entries closed
open_log-new path h = (
  with_entries fresh [],
  rw (h) (
      subst
        (λ b.
          open_validated (record { file_path = path; file = some b; is_open = false })
          ≡ (ok tt, with_entries fresh []))
        (append-nil log_header) (open_validated-header fresh [])),
  record { opened = refl; named = h; stored = refl; storable = tt },
)
  where
    fresh : VersionLog
    fresh = record { file_path = path; file = none; is_open = false }

-- Appending a record that the format can hold to an open log that holds records succeeds; the log then
-- holds them with the record at the end, ReadAll succeeds and leaves exactly them in this order in its
-- output, whatever that held before, and a closed log of this file opens to the same state.
pub read_all-append_record :
    (log : VersionLog) (rs : List VersionRecord) (r : VersionRecord)
    → Holds log rs
    → IsStorableRecord r
    → (l : VersionLog) × (append_record r log ≡ (ok tt, l))
      × ((out : List VersionRecord) → read_all l out ≡ some (ok tt, rs ++ (r ∷ [])))
      × (open_log (record l { is_open = false }) ≡ (ok tt, l))
      × Holds l (rs ++ (r ∷ []))
unfolding appended closed
read_all-append_record log rs r h hr =
    let held = appended-Holds log rs h r hr in
    (
      appended log rs h r hr,
      append_record_lem log rs h r hr,
      read_all_lem _ _ held,
      open_log-closed log _ h.named,
      held,
    )

-- ReadAll on any state of a log returns a result: the loop ends.
pub read_all_total :
    (log : VersionLog) (out : List VersionRecord)
    → (answer : ReadOutcome) × (read_all log out ≡ some answer)
unfolding read_all
read_all_total log out = elim (Bool-cases log.is_open) [
  | inl e ↦ rw e (
      read_records_total (suc (length (contents log))) (drop log_header_size (contents log))
        (omega (arith, length-drop log_header_size (contents log))))
  | inr e ↦ rw e ((err internal_error, out), refl)
]

-- An open log that holds records, with a part of a further entry behind them, neither empty nor whole,
-- as a crash within Append leaves it: ReadAll fails with InvalidArgument, and its output, whatever it
-- held before, holds exactly the records in front of the torn entry.
pub read_all_torn :
    (log : VersionLog) (rs : List VersionRecord) (r : VersionRecord) (k : ℕ)
    (out : List VersionRecord)
    → Holds log rs
    → IsStorableRecord r
    → 0 < k
    → k < length (log_entry (serialize_record r))
    → read_all
        (record log { file = some (contents log ++ take k (log_entry (serialize_record r))) })
        out
      ≡ some (err invalid_argument, rs)
read_all_torn log rs r k out h hr pos l =
    let fuel = suc (length (log_header ++ (entries rs ++ part))) in
    let bound : length rs < fuel = omega (
      arith,
      length-entries rs,
      length-append log_header (entries rs ++ part),
      length-append (entries rs) part,
    ) in
    ap (λ w. read_all (record w { file = some (contents w ++ part) }) out) (same_log log rs h)
    ∙ ap (λ b. read_all (record { file_path = log.file_path; file = some b; is_open = true }) out)
        (append_assoc log_header (entries rs) part)
    ∙ read_all-with_entries log out (entries rs ++ part)
    ∙ read_records-entries rs fuel part (err invalid_argument, []) h.storable (omega (arith, bound))
        (torn (fuel - length rs) (omega (arith, bound)))
    ∙ ap (λ xs. some (err invalid_argument, xs)) (append-nil rs)
  where
    part : Bytes
    part = take k (log_entry (serialize_record r))

    torn : (f : ℕ) → 0 < f → read_records f part ≡ some (err invalid_argument, [])
    torn zero p = absurd (omega arith)
    torn (suc f) p =
        read_records_torn f k (serialize_record r) hr.fits pos
          (omega (arith, l, length-log_entry (serialize_record r) hr.fits))
