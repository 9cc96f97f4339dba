-- ===== src/RowStore/Methods.antt =====
-- The public methods of the row store.
use database_management_syst.Prelude.{
  ℕ, zero, suc, ◌+◌, ◌-◌, ◌%◌, ◌^◌, List, [], ◌∷◌, ◌++◌, true, false, not, ltb, ◌==◌, if◌then◌else◌,
  length, set,
}
use database_management_syst.Status.{Result, ok, err, invalid_argument, internal_error, not_found}
use database_management_syst.Serialization.Rows.{Row, Tuple}
use database_management_syst.Pages.{Page, open_pages, read_page, allocate_page, flush_pages}
use database_management_syst.RowStore.Format.{
  row_store_version, deserialize_metadata, serialize_row_entry,
}
use database_management_syst.RowStore.State.{
  RowStore, StoreM, ◌>>=◌, ◌>>◌, result, state, put, check, pages, check_open,
}
use database_management_syst.RowStore.Paging.{
  metadata_page_id, load_page_rows, write_page_rows, put_metadata, write_metadata_page,
  load_all_rows, find_page_with_free_space,
}
use database_management_syst.RowStore.Rewrite.{rewrite_all_rows}

initialize_store : StoreM (Unit {0})
initialize_store = do
  id ← pages allocate_page
  check (id == metadata_page_id) internal_error
  put_metadata (record {
    version = row_store_version;
    next_row_id = 0;
    data_page_count = 0;
    active_row_count = 0;
  })
  s ← state
  put (record s { next_row_id = 0; data_page_count = 0; active_row_count = 0 })

-- The metadata page of a file that has one.
read_metadata : Page → StoreM (Unit {0})
read_metadata page = do
  metadata ← result (deserialize_metadata page.bytes)
  check (metadata.version == row_store_version) invalid_argument
  s ← state
  put (record s {
    next_row_id = metadata.next_row_id;
    data_page_count = metadata.data_page_count;
    active_row_count = metadata.active_row_count;
  })

-- What `Open` does after it has read the metadata page, or has failed to.
load_or_initialize : Result Page × RowStore → Result (Unit {0}) × RowStore
unfolding initialize_store read_metadata
load_or_initialize (ok page, s) = read_metadata page s
load_or_initialize (err not_found, s) = initialize_store s
load_or_initialize (err code, s) = (err code, s)

pub open_store : StoreM (Unit {0})
unfolding load_or_initialize
open_store s =
    if s.is_open
    then (ok tt, s)
    else ((do
      pages open_pages
      (λ s. load_or_initialize (pages (λ m. read_page m metadata_page_id) s))
      opened ← state
      put (record opened { is_open = true }))
        s)

pub flush_store : StoreM (Unit {0})
flush_store = do check_open; pages flush_pages

unfoldable pub next_index : Result ℕ → Result ℕ
next_index (ok index) = ok (suc index)
next_index (err code) = err code

-- The index of the first row with the id.
unfoldable pub find_row_index_by_id : List Row → ℕ → Result ℕ
unfolding next_index
find_row_index_by_id [] rid = err not_found
find_row_index_by_id (row ∷ rows) rid =
    if row.rid == rid then ok 0 else next_index (find_row_index_by_id rows rid)

-- `rows[index]`; the index was found, so that it is inside the list.
unfoldable pub row_at : List Row → ℕ → Result Row
row_at [] index = err internal_error
row_at (row ∷ rows) zero = ok row
row_at (row ∷ rows) (suc index) = row_at rows index

abbrev pub active_row : ℕ → Tuple → Row
active_row rid tuple = record { rid = rid; tuple = tuple; deleted = false }

unfoldable pub insert : Row → StoreM ℕ
insert given = do
  check_open
  s ← state
  let row = active_row s.next_row_id given.tuple
  id ← find_page_with_free_space (length (serialize_row_entry row))
  page_rows ← load_page_rows id
  write_page_rows id (page_rows ++ (row ∷ []))
  written ← state
  put (record written {
    next_row_id = (written.next_row_id + 1) % 2 ^ 64;
    active_row_count = (written.active_row_count + 1) % 2 ^ 64;
  })
  write_metadata_page
  result (ok row.rid)

unfoldable pub get_including_deleted : ℕ → StoreM Row
get_including_deleted rid = do
  check_open
  rows ← load_all_rows
  index ← result (find_row_index_by_id rows rid)
  result (row_at rows index)

unfoldable pub get : ℕ → StoreM Row
get rid = do
  check_open
  row ← get_including_deleted rid
  check (not row.deleted) not_found
  result (ok row)

unfoldable pub update : ℕ → Tuple → StoreM (Unit {0})
update rid tuple = do
  check_open
  rows ← load_all_rows
  index ← result (find_row_index_by_id rows rid)
  row ← result (row_at rows index)
  check (not row.deleted) not_found
  rewrite_all_rows (set rows index (record row { tuple = tuple }))

-- `Delete` of a row that is not deleted yet.
unfoldable pub delete_active : List Row → ℕ → Row → StoreM (Unit {0})
delete_active rows index row = do
  s ← state
  put (record s { active_row_count = (s.active_row_count + (2 ^ 64 - 1)) % 2 ^ 64 })
  rewrite_all_rows (set rows index (record row { deleted = true }))

unfoldable pub delete : ℕ → StoreM (Unit {0})
unfolding delete_active
delete rid = do
  check_open
  rows ← load_all_rows
  index ← result (find_row_index_by_id rows rid)
  row ← result (row_at rows index)
  if row.deleted then result (ok tt) else delete_active rows index row

unfoldable pub active_rows : List Row → List Row
active_rows [] = []
active_rows (row ∷ rows) = let rest = active_rows rows in if row.deleted then rest else row ∷ rest

unfoldable pub scan : StoreM (List Row)
scan = do check_open; rows ← load_all_rows; result (ok (active_rows rows))

unfoldable pub scan_including_deleted : StoreM (List Row)
scan_including_deleted = do check_open; load_all_rows

abbrev pub count_active : RowStore → RowStore
count_active s = record s { active_row_count = (s.active_row_count + 1) % 2 ^ 64 }

-- The rows after `Restore` has put the row back, with its count of active rows.
unfoldable pub restore_row : List Row → Row → Result ℕ → StoreM (List Row)
restore_row rows row (ok index) = do
  old ← result (row_at rows index)
  s ← state
  put (if old.deleted then count_active s else s)
  result (ok (set rows index (record row { deleted = false })))
restore_row rows row (err not_found) = do
  s ← state
  put (count_active s)
  result (ok (rows ++ (record row { deleted = false } ∷ [])))
restore_row rows row (err code) = result (err code)

unfoldable pub max_id : ℕ → ℕ → ℕ
max_id a b = if ltb a b then b else a

unfoldable pub restore : Row → StoreM (Unit {0})
unfolding restore_row max_id
restore row = do
  check_open
  rows ← load_all_rows
  restored ← restore_row rows row (find_row_index_by_id rows row.rid)
  s ← state
  put (record s { next_row_id = max_id s.next_row_id ((row.rid + 1) % 2 ^ 64) })
  rewrite_all_rows restored
