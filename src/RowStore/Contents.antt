-- ===== src/RowStore/Contents.antt =====
-- The pages of a row store over a well-formed page manager, and the rows that they hold.
use database_management_syst.Prelude.{
  ℕ, ◌+◌, ◌^◌, ◌≤◌, ◌<◌, ◌≡◌, ◌≢◌, refl, sym, ap, ◌∙◌, List, [], ◌∷◌, length, All, concat, arith,
}
use database_management_syst.Status.{Result, ok}
use database_management_syst.Binary.{Bytes}
use database_management_syst.Serialization.Rows.{Row}
use database_management_syst.Pages.{PageManager, Page, write_page}
use database_management_syst.Pages.Contents.{
  IsWellFormed, page_at, read_page_lem, written, write_page_lem, written-IsWellFormed,
  page_at-written,
}
use database_management_syst.RowStore.Format.{decode_page}
use database_management_syst.RowStore.Format.Entries.{IsStorableEntry}
use database_management_syst.RowStore.Format.RoundTrip.{used_size, decode_page-encode_page}
use database_management_syst.RowStore.State.{RowStore, pages, continue}
use database_management_syst.RowStore.Paging.{load_page_rows, write_page_rows, load_rows_from}

-- A well-formed manager with this page size and so many pages.
pub record Serves (page_size page_count : ℕ) (m : PageManager) : Type 0 where
  pub formed : IsWellFormed m
  pub sized : m.page_size ≡ page_size
  pub counted : m.page_count ≡ page_count

-- A run that has put the bytes on a page and changed nothing else.
pub record PutsPage (s : RowStore) (count id : ℕ) (image : Bytes)
    (run : Result (Unit {0}) × RowStore) : Type 0 where
  pub manager : PageManager
  pub returns : run ≡ (ok tt, record s { page_manager = manager })
  pub serves : Serves s.page_size count manager
  pub holds : page_at manager id ≡ image
  pub keeps : (j : ℕ) → j ≢ id → page_at manager j ≡ page_at s.page_manager j

pub write_page-PutsPage :
    (s : RowStore) (count id : ℕ) (image : Bytes)
    → Serves s.page_size count s.page_manager
    → id < count
    → length image ≡ s.page_size
    → PutsPage s count id image (pages (λ m. write_page m (record { id = id; bytes = image })) s)
unfolding pages
write_page-PutsPage s count id image v h n = record {
  manager = m';
  returns =
      ap (λ o. (o.0, record s { page_manager = o.1 })) (write_page_lem m page v.formed inside fits);
  serves = record {
    formed = written-IsWellFormed m page v.formed inside fits;
    sized = unfold written in v.sized;
    counted = unfold written in v.counted;
  };
  holds = ground (arith, page_at-written m page v.formed inside fits id);
  keeps = λ j d. ground (arith, d, page_at-written m page v.formed inside fits j);
}
  where
    m : PageManager
    m = s.page_manager

    page : Page
    page = record { id = id; bytes = image }

    inside : id < m.page_count
    inside = omega (arith, v.counted, h)

    fits : length image ≡ m.page_size
    fits = n ∙ sym v.sized

    m' : PageManager
    m' = written m page v.formed inside fits

-- A run that has put rows on a page and changed nothing else.
pub record PutsRows (s : RowStore) (count id : ℕ) (rows : List Row)
    (run : Result (Unit {0}) × RowStore) : Type 0 where
  pub image : Bytes
  pub puts : PutsPage s count id image run
  pub decodes : decode_page image ≡ ok rows

pub write_page_rows-PutsRows :
    (s : RowStore) (count id : ℕ) (rows : List Row)
    → Serves s.page_size count s.page_manager
    → id < count
    → All IsStorableEntry rows
    → s.page_size < 2 ^ 32
    → used_size rows ≤ s.page_size
    → PutsRows s count id rows (write_page_rows id rows s)
unfolding write_page_rows continue
write_page_rows-PutsRows s count id rows v h hs small fits =
    let (image, (e, n, d)) = decode_page-encode_page s.page_size rows hs small fits in
    record { image = image; puts = rw e (write_page-PutsPage s count id image v h n); decodes = d }

-- The pages behind a page number hold these rows, one list for each page.
abbrev pub Holds : PageManager → ℕ → List (List Row) → Type 0
Holds m ordinal [] = Unit {0}
Holds m ordinal (rows ∷ batches) =
    (decode_page (page_at m (ordinal + 1)) ≡ ok rows) × Holds m (ordinal + 1) batches

pub Holds-same :
    (m m' : PageManager) (ordinal : ℕ) (batches : List (List Row))
    → ((j : ℕ) → ordinal < j → page_at m' j ≡ page_at m j)
    → Holds m ordinal batches
    → Holds m' ordinal batches
Holds-same m m' ordinal [] same h = tt
Holds-same m m' ordinal (rows ∷ batches) same (h, hs) = (
  ap decode_page (same (ordinal + 1) (omega arith)) ∙ h,
  Holds-same m m' (ordinal + 1) batches (λ j l. same j (omega arith)) hs,
)

pub load_page_rows_lem :
    (s : RowStore) (count id : ℕ) {rows : List Row}
    → Serves s.page_size count s.page_manager
    → id < count
    → decode_page (page_at s.page_manager id) ≡ ok rows
    → load_page_rows id s ≡ (ok rows, s)
unfolding load_page_rows pages continue
load_page_rows_lem s count id v h d =
    rw (read_page_lem s.page_manager id v.formed (omega (arith, v.counted)), d) refl

-- Loading returns the rows that the pages hold, and changes nothing.
pub load_rows_from_lem :
    (s : RowStore) (count ordinal : ℕ) (batches : List (List Row))
    → Serves s.page_size count s.page_manager
    → ordinal + length batches < count
    → Holds s.page_manager ordinal batches
    → load_rows_from (length batches) ordinal s ≡ (ok (concat batches), s)
unfolding load_rows_from continue
load_rows_from_lem s count ordinal [] v h d = refl
load_rows_from_lem s count ordinal (rows ∷ batches) v h (d, ds) =
    rw
      (
        load_page_rows_lem s count (ordinal + 1) v (omega arith) d,
        load_rows_from_lem s count (ordinal + 1) batches v (omega arith) ds,
      )
      refl
