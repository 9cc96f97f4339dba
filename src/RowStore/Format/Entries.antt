-- ===== src/RowStore/Format/Entries.antt =====
-- Entries of a data page are read back as they were written.
use database_management_syst.Prelude.{
  ℕ, ◌+◌, ◌^◌, ◌<◌, ◌≤◌, ◌≡◌, ap, subst, List, [], ◌∷◌, ◌++◌, false, leb, length, All, arith,
  append_assoc, length-append,
}
use database_management_syst.Binary.{Bytes, le_bytes}
use database_management_syst.Binary.Cursor.{Cursor, Yields, Yields-bind, Yields-ok, chunk_readable}
use database_management_syst.Binary.Format.{writes, uint32_bytes}
use database_management_syst.Binary.RoundTrip.{read_uint32-bytes, length-le_bytes}
use database_management_syst.Serialization.Rows.{Row}
use database_management_syst.Serialization.Rows.RoundTrip.{
  IsStorableRow, row_bytes, serialize_row-eq, deserialize_row-bytes, consumed,
}
use database_management_syst.RowStore.Format.{
  serialize_row_entry, deserialize_row_entry, entries_payload, read_entries,
}
use native.Mathlib.Nat.{mod-eq_of_lt}

-- Rows that a page can hold.
abbrev pub IsStorableEntry : Row → Type 0
IsStorableEntry row = IsStorableRow row × (length (row_bytes row) < 2 ^ 32)

entry_bytes : Row → Bytes
entry_bytes row = uint32_bytes (length (row_bytes row)) ++ row_bytes row

serialize_row_entry-eq :
    (row : Row) → IsStorableEntry row → serialize_row_entry row ≡ entry_bytes row
unfolding serialize_row_entry entry_bytes
serialize_row_entry-eq row (_, h) = simp (serialize_row-eq, writes) (rw (mod-eq_of_lt h))

deserialize_row_entry-bytes :
    (row : Row) {bytes : Bytes} {off : ℕ} {rest : Bytes}
    → IsStorableEntry row
    → Cursor bytes off (entry_bytes row ++ rest)
    → Yields (deserialize_row_entry bytes off) row bytes rest
unfolding deserialize_row_entry entry_bytes
deserialize_row_entry-bytes row {bytes} {off} {rest} (h, n) c =
    Yields-bind _ (read_uint32-bytes (length (row_bytes row)) n (rw append_assoc at c)) λ at_row c1.
      rw (chunk_readable bytes at_row (row_bytes row) rest c1) (
        Yields-bind _ (deserialize_row-bytes row h c1)
          λ _ c2. rw (consumed (row_bytes row) rest c1 c2) (Yields-ok c2))

pub length-entry :
    (row : Row)
    → IsStorableEntry row
    → length (serialize_row_entry row) ≡ 4 + length (row_bytes row)
unfolding entry_bytes uint32_bytes
length-entry row h = omega (
  arith,
  ap length (serialize_row_entry-eq row h),
  length-append (le_bytes 4 (length (row_bytes row))) (row_bytes row),
  length-le_bytes 4 (length (row_bytes row)),
)

pub read_entries-payload :
    (rows : List Row) {bytes : Bytes} {off : ℕ} (used_end : ℕ) (rest : Bytes)
    → All IsStorableEntry rows
    → used_end ≡ off + length (entries_payload rows)
    → Cursor bytes off (entries_payload rows ++ rest)
    → Yields (read_entries (length rows) bytes used_end off) rows bytes rest
unfolding read_entries entries_payload
read_entries-payload [] used_end rest h e c = Yields-ok c
read_entries-payload (row ∷ rows) {bytes} {off} used_end rest (h, hs) e c = rw not_done (
    Yields-bind _ (deserialize_row_entry-bytes row h start) λ next c1.
      Yields-bind _ (read_entries-payload rows used_end rest hs (end next c1) c1)
        λ _ c2. Yields-ok c2)
  where
    parts :
        length (serialize_row_entry row ++ entries_payload rows)
        ≡ length (serialize_row_entry row) + length (entries_payload rows)
    parts = length-append (serialize_row_entry row) (entries_payload rows)

    not_done : leb used_end off ≡ false
    not_done = ground (arith, e, parts, length-entry row h)

    start : Cursor bytes off (entry_bytes row ++ (entries_payload rows ++ rest))
    start =
        subst (λ x. Cursor bytes off (x ++ (entries_payload rows ++ rest)))
          (serialize_row_entry-eq row h) (rw append_assoc at c)

    end :
        (next : ℕ)
        → Cursor bytes next (entries_payload rows ++ rest)
        → used_end ≡ next + length (entries_payload rows)
    end next c1 = omega (
      arith,
      e,
      parts,
      c.fits,
      c1.fits,
      length-append (serialize_row_entry row ++ entries_payload rows) rest,
      length-append (entries_payload rows) rest,
    )

pub entries-count :
    (rows : List Row) → All IsStorableEntry rows → length rows ≤ length (entries_payload rows)
unfolding entries_payload
entries-count [] h = omega arith
entries-count (row ∷ rows) (h, hs) = omega (
  arith,
  entries-count rows hs,
  length-entry row h,
  length-append (serialize_row_entry row) (entries_payload rows),
)
