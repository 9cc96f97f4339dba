-- ===== src/RowStore/Format.antt =====
-- The formats of storage/row_store.cpp: the metadata page, the header of a data page, the entries of
-- a data page, and the split of all rows into pages.
pub mod Entries
pub mod Headers
pub mod RoundTrip
pub mod Batches
mod Examples
use database_management_syst.Prelude.{
  ℕ, zero, suc, ◌+◌, ◌-◌, ◌%◌, ◌^◌, List, [], ◌∷◌, ◌++◌, Bool, true, false, not, ◌&&◌, ltb, leb,
  ◌==◌, if◌then◌else◌, length, take, replicate,
}
use database_management_syst.Prelude.Sets.{is_empty}
use database_management_syst.Status.{Result, ok, err, invalid_argument, require, ◌>>=◌, ◌>>◌}
use database_management_syst.Binary.{
  Bytes, write_uint32, write_uint64, read_uint32, read_uint64, ensure_readable,
}
use database_management_syst.Value.{eq_bytes}
use database_management_syst.Serialization.Rows.{Row, serialize_row, deserialize_row}

-- kRowStoreMagic, kRowStoreDataPageMagic, kRowStoreVersion
abbrev pub row_store_magic : Bytes
row_store_magic = b'C' ∷ b'D' ∷ b'B' ∷ b'R' ∷ b'S' ∷ b'T' ∷ b'R' ∷ b'1' ∷ []

abbrev pub data_page_magic : Bytes
data_page_magic = b'C' ∷ b'D' ∷ b'B' ∷ b'R' ∷ b'P' ∷ b'A' ∷ b'G' ∷ b'E' ∷ []

abbrev pub row_store_version : ℕ
row_store_version = 1

pub record Metadata : Type 0 where
  pub version : ℕ
  pub next_row_id : ℕ
  pub data_page_count : ℕ
  pub active_row_count : ℕ

pub record DataPageHeader : Type 0 where
  pub version : ℕ
  pub entry_count : ℕ
  pub used_bytes : ℕ

pub serialize_metadata : Metadata → Bytes
serialize_metadata m =
    let versioned = write_uint32 row_store_magic m.version in
    write_uint64 (write_uint64 (write_uint64 versioned m.next_row_id) m.data_page_count)
      m.active_row_count

-- `std::equal` of a magic and the first eight bytes, after the check that they are there.
check_magic : Bytes → Bytes → Result (Unit {0})
check_magic magic bytes = do
  require (not (ltb (length bytes) 8)) invalid_argument
  require (eq_bytes magic (take 8 bytes)) invalid_argument

pub deserialize_metadata : Bytes → Result Metadata
unfolding check_magic
deserialize_metadata bytes = do
  check_magic row_store_magic bytes
  (version, o1) ← read_uint32 bytes 8
  (next_row_id, o2) ← read_uint64 bytes o1
  (data_page_count, o3) ← read_uint64 bytes o2
  (active_row_count, o4) ← read_uint64 bytes o3
  ok (record {
    version = version;
    next_row_id = next_row_id;
    data_page_count = data_page_count;
    active_row_count = active_row_count;
  })

pub serialize_data_page_header : DataPageHeader → Bytes
serialize_data_page_header h =
    write_uint32 (write_uint32 (write_uint32 data_page_magic h.version) h.entry_count) h.used_bytes

pub deserialize_data_page_header : Bytes → Result DataPageHeader
unfolding check_magic
deserialize_data_page_header bytes = do
  check_magic data_page_magic bytes
  (version, o1) ← read_uint32 bytes 8
  (entry_count, o2) ← read_uint32 bytes o1
  (used_bytes, o3) ← read_uint32 bytes o2
  ok (record { version = version; entry_count = entry_count; used_bytes = used_bytes })

-- The row behind its size in 32 bits.
pub serialize_row_entry : Row → Bytes
serialize_row_entry row =
    let payload = serialize_row row [] in write_uint32 [] (length payload % 2 ^ 32) ++ payload

pub deserialize_row_entry : Bytes → ℕ → Result (Row × ℕ)
deserialize_row_entry bytes offset = do
  (row_size, at_row) ← read_uint32 bytes offset
  ensure_readable bytes at_row row_size
  (row, row_end) ← deserialize_row bytes at_row
  require (row_end - at_row == row_size) invalid_argument
  ok (row, row_end)

abbrev pub page_header_size : ℕ
page_header_size = 20

unfoldable pub entries_payload : List Row → Bytes
entries_payload [] = []
entries_payload (row ∷ rows) = serialize_row_entry row ++ entries_payload rows

-- A page of zeros with the bytes copied to its front.
unfoldable pub page_image : ℕ → Bytes → Bytes
page_image page_size bytes = bytes ++ replicate (page_size - length bytes) 0

pub page_header : List Row → DataPageHeader
page_header rows = record {
  version = row_store_version;
  entry_count = length rows % 2 ^ 32;
  used_bytes = length (entries_payload rows) % 2 ^ 32;
}

-- What `WritePageRows` hands to the page manager.
pub encode_page : ℕ → List Row → Result Bytes
encode_page page_size rows =
    let header = serialize_data_page_header (page_header rows) in
    let payload = entries_payload rows in
    if ltb page_size (length header + length payload)
    then err invalid_argument
    else ok (page_image page_size (header ++ payload))

-- The loop of `LoadPageRows`.
pub read_entries : ℕ → Bytes → ℕ → ℕ → Result (List Row × ℕ)
read_entries zero bytes used_end offset = ok ([], offset)
read_entries (suc n) bytes used_end offset = do
  require (not (leb used_end offset)) invalid_argument
  (row, next) ← deserialize_row_entry bytes offset
  (rows, last) ← read_entries n bytes used_end next
  ok (row ∷ rows, last)

-- `LoadPageRows` on the bytes of the page.
pub decode_page : Bytes → Result (List Row)
decode_page bytes = do
  header ← deserialize_data_page_header bytes
  require (header.version == row_store_version) invalid_argument
  require (not (ltb (length bytes) (page_header_size + header.used_bytes))) invalid_argument
  let used_end = page_header_size + header.used_bytes
  (rows, offset) ← read_entries header.entry_count bytes used_end page_header_size
  require (offset == used_end) invalid_argument
  ok rows

-- The loop of `RewriteAllRows` that splits the rows into pages: the full pages so far, the page
-- being filled, and the size of its entries.
unfoldable pub batch_rows : ℕ → List (List Row) → List Row → ℕ → List Row → Result (List (List Row))
batch_rows page_size pages current size [] =
    ok (if is_empty current then pages else pages ++ (current ∷ []))
batch_rows page_size pages current size (row ∷ rows) =
    let entry = length (serialize_row_entry row) in
    let full = not (is_empty current) && ltb page_size (page_header_size + size + entry) in
    let rest =
      batch_rows page_size (if full then pages ++ (current ∷ []) else pages)
        (if full then row ∷ [] else current ++ (row ∷ [])) (if full then entry else size + entry)
        rows in
    if ltb page_size (page_header_size + entry) then err invalid_argument else rest
