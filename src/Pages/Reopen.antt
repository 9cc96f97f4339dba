-- ===== src/Pages/Reopen.antt =====
-- A file that a well-formed manager has written is opened again.
use database_management_syst.Prelude.{
  ℕ, ◌+◌, ◌-◌, ◌*◌, ◌/◌, ◌%◌, ◌^◌, ◌<◌, ◌≤◌, ◌≡◌, ◌≢◌, refl, sym, ap, ◌∙◌, [], ◌∷◌, true, false,
  Option-cases, inl, inr, some, length, arith,
}
use native.Mathlib.Nat.{mul-div_cancel, mul-mod_left}
use database_management_syst.Prelude.Sets.{is_empty}
use database_management_syst.Prelude.Slices.{slice, slice-take}
use database_management_syst.Status.{ok}
use database_management_syst.Binary.{Bytes, le_bytes}
use database_management_syst.Binary.RoundTrip.{le_value-le_bytes}
use database_management_syst.Value.Order.{eq_bytes_refl}
use database_management_syst.Pages.{
  PageManager, make_header, contents, page_file_magic, header_magic, header_version,
  header_page_size, header_page_count, open_pages, check_file, create_file,
}
use database_management_syst.Pages.Contents.{IsWellFormed}

-- The fields of a header are read where `make_header` puts them.
module _ (size count : ℕ) where
  magic_of : header_magic (make_header size count) ≡ page_file_magic
  unfolding make_header
  magic_of = refl

  version_of : header_version (make_header size count) ≡ 1
  unfolding make_header le_bytes
  version_of = le_value-le_bytes 4 1 (omega arith)

  page_size_of : size < 2 ^ 64 → header_page_size (make_header size count) ≡ size
  unfolding make_header le_bytes
  page_size_of h = le_value-le_bytes 8 size (omega arith)

  page_count_of : count < 2 ^ 64 → header_page_count (make_header size count) ≡ count
  unfolding make_header le_bytes
  page_count_of h = le_value-le_bytes 8 count (omega arith)

-- A field of the header is a slice of the file's first 32 bytes.
field_of :
    (bytes : Bytes) {header : Bytes} (k n : ℕ)
    → k + n ≤ 32
    → slice 0 32 bytes ≡ header
    → slice k n bytes ≡ slice k n header
field_of bytes k n h e = sym (slice-take k n 32 bytes h) ∙ ap (slice k n) e

payload_pages :
    (size count : ℕ)
    → 0 < size
    → ((32 + count * size - 32) % size ≡ 0) × ((32 + count * size - 32) / size ≡ count)
payload_pages size count h =
    let e : 32 + count * size - 32 ≡ count * size = omega arith in
    rw e (mul-mod_left count size, mul-div_cancel count h)

check_file_lem :
    (m : PageManager) (bytes : Bytes)
    → length bytes ≡ 32 + m.page_count * m.page_size
    → slice 0 32 bytes ≡ make_header m.page_size m.page_count
    → 0 < m.page_size
    → m.page_size < 2 ^ 64
    → m.page_count < 2 ^ 64
    → (closed : PageManager) → closed.page_size ≡ m.page_size
    → check_file closed bytes ≡ (ok tt, record closed { is_open = true; page_count = m.page_count })
unfolding check_file
check_file_lem m bytes n e h small few closed s =
    let header = make_header m.page_size m.page_count in
    ground (
      arith,
      field_of bytes 0 8 (omega arith) e,
      field_of bytes 8 4 (omega arith) e,
      field_of bytes 16 8 (omega arith) e,
      field_of bytes 24 8 (omega arith) e,
      magic_of m.page_size m.page_count,
      version_of m.page_size m.page_count,
      page_size_of m.page_size m.page_count small,
      page_count_of m.page_size m.page_count few,
      eq_bytes_refl page_file_magic,
      payload_pages m.page_size m.page_count h,
    )

not_empty : (path : Bytes) → path ≢ [] → is_empty path ≡ false
unfolding is_empty
not_empty [] h = absurd (h refl)
not_empty (x ∷ path) h = refl

some_file : (m : PageManager) → IsWellFormed m → m.file ≡ some (contents m)
some_file m w = elim (Option-cases m.file) [
  | inl e ↦ absurd (ground (arith, e, w.sized))
  | inr (bytes, e) ↦ ground (arith, e)
]

-- A manager that is closed and opened again over the file of a well-formed one, with its path and page
-- size, is in the state of the well-formed one. The path is not empty, and the page size and the number
-- of pages have 64 bits.
pub open_pages_again :
    (m : PageManager)
    → IsWellFormed m
    → m.file_path ≢ []
    → m.page_size < 2 ^ 64
    → m.page_count < 2 ^ 64
    → open_pages (record m { is_open = false; page_count = 0 }) ≡ (ok tt, m)
unfolding open_pages
open_pages_again m w p small few =
    let closed : PageManager = record m { is_open = false; page_count = 0 } in
    let created : PageManager = record closed { file = some (create_file closed) } in
    let same : create_file closed ≡ contents m =
      unfold create_file in ground (arith, some_file m w) in
    ground (
      arith,
      w.opened,
      w.positive,
      not_empty m.file_path p,
      same,
      some_file m w,
      check_file_lem m (create_file closed) (ap length same ∙ w.sized)
          (ap (slice 0 32) same ∙ w.headed) w.positive small few created refl,
    )
