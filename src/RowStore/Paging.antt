-- ===== src/RowStore/Paging.antt =====
-- Pages of the row store: loading and writing the rows of a page, the metadata page, all rows, and
-- the page with room for an entry.
use database_management_syst.Prelude.{
  ℕ, zero, suc, ◌+◌, ◌%◌, ◌^◌, List, [], ◌++◌, not, ltb, if◌then◌else◌, Option, some, none, length,
}
use database_management_syst.Status.{ok, invalid_argument, internal_error}
use database_management_syst.Serialization.Rows.{Row}
use database_management_syst.Pages.{read_page, write_page, allocate_page}
use database_management_syst.RowStore.Format.{
  Metadata, row_store_version, serialize_metadata, deserialize_data_page_header, page_header_size,
  page_image, encode_page, decode_page,
}
use database_management_syst.RowStore.State.{
  RowStore, StoreM, ◌>>=◌, ◌>>◌, result, state, put, check, pages, check_open,
}

-- kMetadataPageId and DataPageIdFromOrdinal
abbrev pub metadata_page_id : ℕ
metadata_page_id = 0

abbrev pub data_page_id : ℕ → ℕ
data_page_id ordinal = ordinal + 1

unfoldable pub load_page_rows : ℕ → StoreM (List Row)
load_page_rows id = do page ← pages (λ m. read_page m id); result (decode_page page.bytes)

unfoldable pub write_page_rows : ℕ → List Row → StoreM (Unit {0})
write_page_rows id rows = do
  s ← state
  image ← result (encode_page s.page_size rows)
  pages (λ m. write_page m (record { id = id; bytes = image }))

abbrev pub metadata_of : RowStore → Metadata
metadata_of s = record {
  version = row_store_version;
  next_row_id = s.next_row_id;
  data_page_count = s.data_page_count;
  active_row_count = s.active_row_count;
}

-- The metadata page as `InitializeStore`, `WriteMetadataPage` and `RewriteAllRows` write it.
unfoldable pub put_metadata : Metadata → StoreM (Unit {0})
put_metadata metadata = do
  s ← state
  let bytes = serialize_metadata metadata
  check (not (ltb s.page_size (length bytes))) internal_error
  pages (λ m. write_page m (record { id = metadata_page_id; bytes = page_image s.page_size bytes }))

pub write_metadata_page : StoreM (Unit {0})
write_metadata_page = do check_open; s ← state; put_metadata (metadata_of s)

-- The loop of `LoadAllRows` over the ordinals from `ordinal` on.
unfoldable pub load_rows_from : ℕ → ℕ → StoreM (List Row)
load_rows_from zero ordinal = result (ok [])
load_rows_from (suc n) ordinal = do
  page_rows ← load_page_rows (data_page_id ordinal)
  rest ← load_rows_from n (ordinal + 1)
  result (ok (page_rows ++ rest))

unfoldable pub load_all_rows : StoreM (List Row)
load_all_rows = do check_open; s ← state; load_rows_from s.data_page_count 0

abbrev pub count_page : RowStore → RowStore
count_page s = record s { data_page_count = (s.data_page_count + 1) % 2 ^ 64 }

-- The loop of `FindPageWithFreeSpace`: the first page with room, if there is one.
pub find_free_from : ℕ → ℕ → ℕ → StoreM (Option ℕ)
find_free_from zero ordinal entry_size = result (ok none)
find_free_from (suc n) ordinal entry_size = do
  page ← pages (λ m. read_page m (data_page_id ordinal))
  header ← result (deserialize_data_page_header page.bytes)
  s ← state
  if ltb s.page_size (page_header_size + header.used_bytes + entry_size)
      then find_free_from n (ordinal + 1) entry_size
      else result (ok (some (data_page_id ordinal)))

-- A new page when no page has room.
append_page : StoreM ℕ
append_page = do
  id ← pages allocate_page
  s ← state
  put (count_page s)
  write_page_rows id []
  result (ok id)

pub find_page_with_free_space : ℕ → StoreM ℕ
unfolding append_page
find_page_with_free_space entry_size = do
  check_open
  s ← state
  check (not (ltb s.page_size (page_header_size + entry_size))) invalid_argument
  found ← find_free_from s.data_page_count 0 entry_size
  elim found [ none ↦ append_page | some id ↦ result (ok id) ]
