-- ===== src/Pages/ReadWrite.antt =====
-- Reading after writing, and after allocating.
use database_management_syst.Prelude.{
  ℕ, ◌+◌, ◌≤◌, ◌<◌, ◌≡◌, ◌↔◌, refl, sym, subst, ◌==◌, if◌then◌else◌, length, replicate, arith,
}
use database_management_syst.Status.{ok, err, not_found}
use database_management_syst.Pages.{PageManager, Page, read_page, write_page, allocate_page}
use database_management_syst.Pages.Contents.{
  IsWellFormed, read_page_lem, written, write_page_lem, written-IsWellFormed, page_at-written,
  allocated, allocate_page_lem, allocated-IsWellFormed, page_at-allocated,
}

read_page_missing :
    (m : PageManager) (id : ℕ)
    → IsWellFormed m
    → m.page_count ≤ id
    → read_page m id ≡ (err not_found, m)
unfolding read_page
read_page_missing m id w h = ground (arith, w.opened)

-- Writing a page of the right size in a well-formed manager succeeds and leaves the manager well
-- formed; then that page reads as written, and any other number reads as before, also one that is
-- no page.
pub read_page-write_page :
    (m : PageManager) (page : Page) (id : ℕ)
    → IsWellFormed m
    → page.id < m.page_count
    → length page.bytes ≡ m.page_size
    → ((write_page m page).0 ≡ ok tt)
      × IsWellFormed (write_page m page).1
      × ((read_page (write_page m page).1 id).0
          ≡ (if id == page.id then ok page else (read_page m id).0))
read_page-write_page m page id w h n =
    let m' = written m page w h n in
    subst
      (λ r.
        (r.0 ≡ ok tt)
        × IsWellFormed r.1
        × ((read_page r.1 id).0 ≡ (if id == page.id then ok page else (read_page m id).0)))
      (sym (write_page_lem m page w h n)) (refl, written-IsWellFormed m page w h n, reads)
  where
    reads :
        (read_page (written m page w h n) id).0
        ≡ (if id == page.id then ok page else (read_page m id).0)
    reads =
        unfold written in
        ground (
          arith,
          page_at-written m page w h n id,
          read_page_lem (written m page w h n) id (written-IsWellFormed m page w h n),
          read_page_lem m id w,
          read_page_missing (written m page w h n) id (written-IsWellFormed m page w h n),
          read_page_missing m id w,
        )

allocated_reads :
    (m : PageManager) (id : ℕ) (w : IsWellFormed m)
    → id ≤ m.page_count
    → (read_page (allocated m w) id).0 ≡ (
        if id == m.page_count
        then ok (record { id = id; bytes = replicate m.page_size 0 })
        else (read_page m id).0)
unfolding allocated
allocated_reads m id w h = ground (
  arith,
  page_at-allocated m w id h,
  read_page_lem (allocated m w) id (allocated-IsWellFormed m w),
  read_page_lem m id w,
)

-- In a well-formed manager a page write succeeds exactly if its number is that of a page and its data
-- has the page size.
pub write_page_iff :
    (m : PageManager) (page : Page)
    → IsWellFormed m
    → ((write_page m page).0 ≡ ok tt)
      ↔ ((page.id < m.page_count) × (length page.bytes ≡ m.page_size))
unfolding write_page
write_page_iff m page w = (λ h. ground (arith, w.opened), λ h. ground (arith, w.opened))

-- Allocating a page in a well-formed manager succeeds, leaves the manager well formed with one page
-- more, and returns the number of the new page; it reads as zeros, and every page that was there
-- reads as before.
pub read_page-allocate_page :
    (m : PageManager) (id : ℕ)
    → IsWellFormed m
    → id ≤ m.page_count
    → ((allocate_page m).0 ≡ ok m.page_count)
      × IsWellFormed (allocate_page m).1
      × ((allocate_page m).1.page_count ≡ m.page_count + 1)
      × ((read_page (allocate_page m).1 id).0 ≡ (
          if id == m.page_count
          then ok (record { id = id; bytes = replicate m.page_size 0 })
          else (read_page m id).0))
read_page-allocate_page m id w h =
    rw (allocate_page_lem m w)
      (refl, allocated-IsWellFormed m w, (unfold allocated in refl), allocated_reads m id w h)
