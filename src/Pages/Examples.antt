-- ===== src/Pages/Examples.antt =====
-- The page manager at concrete inputs.
use database_management_syst.Prelude.{
  ◌≡◌, ap, refl, [], ◌∷◌, ◌++◌, true, false, some, ◌==◌, ◌+◌, replicate, if◌then◌else◌, length,
  arith,
}
use database_management_syst.Status.{ok}
use database_management_syst.Binary.{le_bytes}
use database_management_syst.Pages.{
  PageManager, Page, make_header, allocate_page, open_pages, read_page, write_page,
}
use database_management_syst.Pages.Contents.{IsWellFormed}
use database_management_syst.Pages.ReadWrite.{read_page-write_page, read_page-allocate_page}
use database_management_syst.Pages.Reopen.{open_pages_again}

-- Two pages of four bytes.
abbrev two_pages : PageManager
two_pages = record {
  file_path = b'p' ∷ [];
  page_size = 4;
  file = some (make_header 4 2 ++ (1 ∷ 2 ∷ 3 ∷ 4 ∷ 5 ∷ 6 ∷ 7 ∷ 8 ∷ []));
  is_open = true;
  page_count = 2;
}

abbrev new_page : Page
new_page = record { id = 1; bytes = 9 ∷ 9 ∷ 9 ∷ 9 ∷ [] }

two_pages-IsWellFormed : IsWellFormed two_pages
unfolding make_header le_bytes
two_pages-IsWellFormed = record {
  opened = refl;
  sized = omega arith;
  headed = refl;
  positive = omega arith;
}

read_page-write_page_example :
    ((write_page two_pages new_page).0 ≡ ok tt)
    × IsWellFormed (write_page two_pages new_page).1
    × ((read_page (write_page two_pages new_page).1 0).0
        ≡ (if 0 == 1 then ok new_page else (read_page two_pages 0).0))
read_page-write_page_example =
    read_page-write_page two_pages new_page 0 two_pages-IsWellFormed (omega arith) refl

read_page-allocate_page_example :
    ((allocate_page two_pages).0 ≡ ok 2)
    × IsWellFormed (allocate_page two_pages).1
    × ((allocate_page two_pages).1.page_count ≡ 2 + 1)
    × ((read_page (allocate_page two_pages).1 2).0 ≡ (
        if 2 == 2
        then ok (record { id = 2; bytes = replicate 4 0 })
        else (read_page two_pages 2).0))
read_page-allocate_page_example =
    read_page-allocate_page two_pages 2 two_pages-IsWellFormed (omega arith)

open_pages_again_example :
    open_pages (record two_pages { is_open = false; page_count = 0 }) ≡ (ok tt, two_pages)
open_pages_again_example =
    open_pages_again two_pages two_pages-IsWellFormed (λ e. omega (arith, ap length e))
      (omega arith) (omega arith)
