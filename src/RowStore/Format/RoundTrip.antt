-- ===== src/RowStore/Format/RoundTrip.antt =====
-- A data page is decoded to the rows that it encodes.
use database_management_syst.Prelude.{
  ℕ, ◌+◌, ◌-◌, ◌%◌, ◌^◌, ◌<◌, ◌≤◌, ◌≡◌, refl, subst, List, ◌++◌, false, ltb, length, replicate, All,
  arith, append_assoc, length-append, length-replicate, ==_iff, ge→ltb,
}
use database_management_syst.Status.{ok, err, invalid_argument}
use database_management_syst.Binary.{Bytes}
use database_management_syst.Binary.Cursor.{Cursor, Cursor-append, Yields-then}
use database_management_syst.Serialization.Rows.{Row}
use database_management_syst.RowStore.Format.{
  DataPageHeader, row_store_version, serialize_data_page_header, deserialize_data_page_header,
  page_header_size, entries_payload, page_image, page_header, encode_page, decode_page,
}
use native.Mathlib.Nat.{mod-eq_of_lt}
use database_management_syst.RowStore.Format.Entries.{
  IsStorableEntry, read_entries-payload, entries-count,
}
use database_management_syst.RowStore.Format.Headers.{length-header, header_of_page}

-- The number of bytes of a page that its header and its rows take.
abbrev pub used_size : List Row → ℕ
used_size rows = page_header_size + length (entries_payload rows)

encode_page_fits :
    (page_size : ℕ) (rows : List Row)
    → used_size rows ≤ page_size
    → encode_page page_size rows
      ≡ ok (
          page_image page_size
            (serialize_data_page_header (page_header rows) ++ entries_payload rows))
unfolding encode_page
encode_page_fits page_size rows h = ground (arith, length-header (page_header rows))

Cursor-behind :
    (pre xs rest : Bytes) (k : ℕ) → length pre ≡ k → Cursor ((pre ++ xs) ++ rest) k (xs ++ rest)
Cursor-behind pre xs rest k e =
    subst (λ k. Cursor ((pre ++ xs) ++ rest) k (xs ++ rest)) e
      (rw (append_assoc pre xs rest) (Cursor-append pre (xs ++ rest)))

page_size-at_least :
    (h : DataPageHeader) (xs rest : Bytes)
    → length ((serialize_data_page_header h ++ xs) ++ rest)
      ≡ page_header_size + length xs + length rest
page_size-at_least h xs rest = omega (
  arith,
  length-append (serialize_data_page_header h ++ xs) rest,
  length-append (serialize_data_page_header h) xs,
  length-header h,
)

-- A page is decoded if its header is read, counts the entries and their bytes, and they follow it.
decode_page_lem :
    (rows : List Row) {bytes : Bytes} (rest : Bytes) {h : DataPageHeader}
    → All IsStorableEntry rows
    → deserialize_data_page_header bytes ≡ ok h
    → h.version ≡ row_store_version
    → h.entry_count ≡ length rows
    → h.used_bytes ≡ length (entries_payload rows)
    → Cursor bytes 20 (entries_payload rows ++ rest)
    → decode_page bytes ≡ ok rows
unfolding decode_page
decode_page_lem rows {bytes} rest hs header v count used start =
    rw (header, v, count, used, long)
      (Yields-then _ (read_entries-payload rows (20 + length payload) rest hs refl start)
        λ off c. rw ((==_iff off (20 + length payload)).1 (end off c)) refl)
  where
    payload : Bytes
    payload = entries_payload rows

    long : ltb (length bytes) (20 + length payload) ≡ false
    long = ge→ltb _ _ (omega (arith, start.fits, length-append payload rest))

    end : (off : ℕ) → Cursor bytes off rest → off ≡ 20 + length payload
    end off c = omega (arith, c.fits, start.fits, length-append payload rest)

-- A page whose header is written in front of its entries is decoded, whatever follows them.
decode_page-bytes :
    (rows : List Row) (rest : Bytes)
    → All IsStorableEntry rows
    → length (entries_payload rows) < 2 ^ 32
    → decode_page ((serialize_data_page_header (page_header rows) ++ entries_payload rows) ++ rest)
      ≡ ok rows
unfolding page_header
decode_page-bytes rows rest hs n =
    let payload = entries_payload rows in
    let count : length rows % 2 ^ 32 ≡ length rows =
      mod-eq_of_lt (omega (arith, entries-count rows hs)) in
    let used : length payload % 2 ^ 32 ≡ length payload = mod-eq_of_lt n in
    let header =
      header_of_page (page_header rows) payload rest (omega arith)
        (omega (arith, count, entries-count rows hs)) (omega (arith, used)) in
    decode_page_lem rows rest hs header refl count used (
      Cursor-behind (serialize_data_page_header (page_header rows)) payload rest 20
        (length-header (page_header rows)))

module _ (page_size : ℕ) (rows : List Row) where
  encoded : Bytes
  encoded =
      page_image page_size (serialize_data_page_header (page_header rows) ++ entries_payload rows)

  length-encoded : used_size rows ≤ page_size → length encoded ≡ page_size
  unfolding encoded page_image
  length-encoded h =
      let bytes = serialize_data_page_header (page_header rows) ++ entries_payload rows in
      omega (
        arith,
        length-append bytes (replicate (page_size - length bytes) 0),
        length-replicate (page_size - length bytes) (let zero_byte : ℕ = 0 in zero_byte),
        length-append (serialize_data_page_header (page_header rows)) (entries_payload rows),
        length-header (page_header rows),
      )

-- Rows that the format can hold, and that fit into a page behind its header, are encoded; the image
-- has the page size, and is decoded to the rows.
pub decode_page-encode_page :
    (page_size : ℕ) (rows : List Row)
    → All IsStorableEntry rows
    → page_size < 2 ^ 32
    → used_size rows ≤ page_size
    → (image : Bytes) × ((encode_page page_size rows ≡ ok image)
        × (length image ≡ page_size)
        × (decode_page image ≡ ok rows))
unfolding encoded page_image
decode_page-encode_page page_size rows hs small fits = (
  encoded page_size rows,
  (
    encode_page_fits page_size rows fits,
    length-encoded page_size rows fits,
    decode_page-bytes rows _ hs (omega arith),
  ),
)

-- Rows that do not fit are refused.
pub encode_page_too_large :
    (page_size : ℕ) (rows : List Row)
    → page_size < used_size rows
    → encode_page page_size rows ≡ err invalid_argument
unfolding encode_page
encode_page_too_large page_size rows h = ground (arith, length-header (page_header rows))
