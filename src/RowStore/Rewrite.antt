-- ===== src/RowStore/Rewrite.antt =====
-- `RewriteAllRows` of the row store: all rows are split into pages, missing pages are allocated, every
-- page is written, the unused ones empty, and the metadata last.
use database_management_syst.Prelude.{ℕ, zero, suc, ◌+◌, ◌-◌, List, [], ◌∷◌, length}
use database_management_syst.Status.{ok}
use database_management_syst.Serialization.Rows.{Row}
use database_management_syst.Pages.{allocate_page}
use database_management_syst.RowStore.Format.{batch_rows}
use database_management_syst.RowStore.State.{
  StoreM, ◌>>=◌, ◌>>◌, result, state, put, pages, check_open,
}
use database_management_syst.RowStore.Paging.{
  data_page_id, count_page, write_page_rows, put_metadata, metadata_of,
}

-- The loop that allocates pages, run for the number of pages that are missing.
unfoldable pub allocate_pages : ℕ → StoreM (Unit {0})
allocate_pages zero = result (ok tt)
allocate_pages (suc n) = do pages allocate_page; s ← state; put (count_page s); allocate_pages n

-- The loop that writes the pages from `ordinal` on.
unfoldable pub write_batches : ℕ → ℕ → List (List Row) → StoreM (Unit {0})
write_batches zero ordinal batches = result (ok tt)
write_batches (suc n) ordinal [] = do
  write_page_rows (data_page_id ordinal) []
  write_batches n (ordinal + 1) []
write_batches (suc n) ordinal (batch ∷ batches) = do
  write_page_rows (data_page_id ordinal) batch
  write_batches n (ordinal + 1) batches

unfoldable pub rewrite_all_rows : List Row → StoreM (Unit {0})
rewrite_all_rows rows = do
  check_open
  s ← state
  batches ← result (batch_rows s.page_size [] [] 0 rows)
  allocate_pages (length batches - s.data_page_count)
  grown ← state
  write_batches grown.data_page_count 0 batches
  written ← state
  put_metadata (metadata_of written)
