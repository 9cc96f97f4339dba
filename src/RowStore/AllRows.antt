-- ===== src/RowStore/AllRows.antt =====
-- The rows that a store holds: what `LoadAllRows` returns, and what `RewriteAllRows` leaves.
use database_management_syst.Prelude.{
  ℕ, ◌+◌, ◌-◌, ◌^◌, ◌≤◌, ◌<◌, ◌≡◌, sym, ap, subst, ◌∙◌, List, [], ◌∷◌, true, if◌then◌else◌, length,
  All, All-append_split, concat, arith,
}
use database_management_syst.Status.{Result, ok, err, internal_error}
use database_management_syst.Serialization.Rows.{Row}
use database_management_syst.Pages.{PageManager}
use database_management_syst.RowStore.Format.{batch_rows}
use database_management_syst.RowStore.Format.Entries.{IsStorableEntry}
use database_management_syst.RowStore.Format.Batches.{IsSmallEntry, FitsPage, concat-batch_rows}
use database_management_syst.RowStore.State.{RowStore, continue, check_open}
use database_management_syst.RowStore.Paging.{load_all_rows, load_rows_from, metadata_of}
use database_management_syst.RowStore.Rewrite.{rewrite_all_rows}
use database_management_syst.RowStore.Contents.{Serves, Holds, Holds-same, load_rows_from_lem}
use database_management_syst.RowStore.Rewriting.{
  padded, length-padded, concat-padded, IsWritable, write_batches_lem,
}
use database_management_syst.RowStore.Growing.{allocate_pages-Grows, put_metadata-PutsPage}

-- An open store over a page for the metadata and the data pages that it counts. The page size holds
-- the metadata, and fits in the 32 bits of a page's header.
pub record IsReady (s : RowStore) : Type 0 where
  pub opened : s.is_open ≡ true
  pub serves : Serves s.page_size (s.data_page_count + 1) s.page_manager
  pub small : s.page_size < 2 ^ 32
  pub large : 36 ≤ s.page_size

-- The data pages hold these rows, in this order.
pub record Represents (s : RowStore) (rows : List Row) : Type 0 where
  pub ready : IsReady s
  pub batches : List (List Row)
  pub counted : length batches ≡ s.data_page_count
  pub holds : Holds s.page_manager 0 batches
  pub all : concat batches ≡ rows

pub check_open_lem : (s : RowStore) → s.is_open ≡ true → check_open s ≡ (ok tt, s)
unfolding check_open
check_open_lem s e = ap (λ b. (if b then ok tt else err internal_error, s)) e

-- Loading the rows of a store returns them, and changes nothing.
pub load_all_rows_lem :
    (s : RowStore) {rows : List Row} → Represents s rows → load_all_rows s ≡ (ok rows, s)
unfolding load_all_rows continue
load_all_rows_lem s {rows} r =
    let loads : load_rows_from s.data_page_count 0 s ≡ (ok rows, s) =
      ap (λ n. load_rows_from n 0 s) (sym r.counted)
      ∙ load_rows_from_lem s (s.data_page_count + 1) 0 r.batches r.ready.serves
          (omega (arith, r.counted)) r.holds
      ∙ ap (λ rows. (ok rows, s)) r.all in
    rw (check_open_lem s r.ready.opened) loads

writable :
    (page_size : ℕ) (batches : List (List Row))
    → All IsStorableEntry (concat batches)
    → All (FitsPage page_size) batches
    → All (IsWritable page_size) batches
writable page_size [] hs fits = tt
writable page_size (rows ∷ batches) hs (fit, fits) =
    let (l, r) = All-append_split IsStorableEntry rows (concat batches) hs in
    ((l, fit), writable page_size batches r fits)

-- A run that has succeeded and left a store of these rows, its counts of rows and its page size as
-- before, with at most one page more for each row.
pub record Rewrites (s : RowStore) (rows : List Row) (run : Result (Unit {0}) × RowStore)
    : Type 0 where
  pub manager : PageManager
  pub count : ℕ
  pub returns : run ≡ (ok tt, record s { page_manager = manager; data_page_count = count })
  pub represents : Represents (record s { page_manager = manager; data_page_count = count }) rows
  pub bounded : count ≤ s.data_page_count + length rows

rewrite_batches :
    (s : RowStore) (rows : List Row) (batches : List (List Row))
    → IsReady s
    → batch_rows s.page_size [] [] 0 rows ≡ ok batches
    → concat batches ≡ rows
    → All (IsWritable s.page_size) batches
    → length batches ≤ length rows
    → s.data_page_count + length rows < 2 ^ 64
    → Rewrites s rows (rewrite_all_rows rows s)
unfolding rewrite_all_rows continue
rewrite_batches s rows batches r e all ws split few =
    let n = length batches - s.data_page_count in
    let grown = allocate_pages-Grows s n r.serves (omega arith) in
    let s1 : RowStore = record s {
      page_manager = grown.manager;
      data_page_count = s.data_page_count + n;
    } in
    let wrote =
      write_batches_lem s1 (s1.data_page_count + 1) s1.data_page_count 0 batches grown.serves
        (omega arith) r.small (omega (arith, r.large)) ws in
    let s2 : RowStore = record s1 { page_manager = wrote.manager } in
    let put = put_metadata-PutsPage s2 s1.data_page_count (metadata_of s2) wrote.serves r.large in
    record {
      manager = put.manager;
      count = s1.data_page_count;
      returns = rw (check_open_lem s r.opened, e, grown.returns, wrote.returns) put.returns;
      represents = record {
        ready = record { opened = r.opened; serves = put.serves; small = r.small; large = r.large };
        batches = padded s1.data_page_count batches;
        counted = length-padded s1.data_page_count batches;
        holds =
            Holds-same wrote.manager put.manager 0 _ (λ j l. put.keeps j (omega arith)) wrote.holds;
        all = concat-padded s1.data_page_count batches (omega arith) ∙ all;
      };
      bounded = omega arith;
    }

-- Rewriting a ready store with rows that pages can hold succeeds, and leaves a store of these rows.
pub rewrite_all_rows_lem :
    (s : RowStore) (rows : List Row)
    → IsReady s
    → All IsStorableEntry rows
    → All (IsSmallEntry s.page_size) rows
    → s.data_page_count + length rows < 2 ^ 64
    → Rewrites s rows (rewrite_all_rows rows s)
rewrite_all_rows_lem s rows r hs smalls few =
    let (batches, (e, splits)) =
      concat-batch_rows s.page_size rows (omega (arith, r.large)) smalls in
    rewrite_batches s rows batches r e splits.all
      (writable s.page_size batches (subst (All IsStorableEntry) (sym splits.all) hs) splits.fit)
      splits.few few
