-- ===== src/Pages/Contents.antt =====
-- What the pages of a well-formed manager hold, and how each call changes it.
use database_management_syst.Prelude.{
  ℕ, ◌+◌, ◌*◌, ◌≤◌, ◌<◌, ◌≡◌, subst, ◌∙◌, ◌++◌, true, ◌==◌, if◌then◌else◌, some, length, replicate,
  arith, length-replicate, length-append,
}
use database_management_syst.Prelude.Slices.{
  slice, overwrite, length-overwrite, slice-overwrite_same, slice-overwrite_before,
  slice-overwrite_behind, slice-append_left, slice-append_right, slice-replicate,
}
use database_management_syst.Status.{ok}
use database_management_syst.Binary.{Bytes, le_bytes}
use database_management_syst.Binary.RoundTrip.{length-le_bytes}
use database_management_syst.Pages.{
  PageManager, Page, make_header, header_size, contents, page_offset, read_page, write_page,
  allocate_page, write_header,
}

-- An open manager whose file is the header that it would write, and as many pages as it counts.
pub record IsWellFormed (m : PageManager) : Type 0 where
  pub opened : m.is_open ≡ true
  pub sized : length (contents m) ≡ header_size + m.page_count * m.page_size
  pub headed : slice 0 header_size (contents m) ≡ make_header m.page_size m.page_count
  pub positive : 0 < m.page_size

-- The bytes of a page.
abbrev pub page_at : PageManager → ℕ → Bytes
page_at m id = slice (page_offset id m.page_size) m.page_size (contents m)

pub length-make_header : (size count : ℕ) → length (make_header size count) ≡ header_size
unfolding make_header
length-make_header size count = omega (
  arith,
  length-append (le_bytes 4 1) (le_bytes 4 0 ++ (le_bytes 8 size ++ le_bytes 8 count)),
  length-append (le_bytes 4 0) (le_bytes 8 size ++ le_bytes 8 count),
  length-append (le_bytes 8 size) (le_bytes 8 count),
  length-le_bytes 4 1,
  length-le_bytes 4 0,
  length-le_bytes 8 size,
  length-le_bytes 8 count,
)

pub pages_apart : (i j size : ℕ) → i < j → i * size + size ≤ j * size
pages_apart i j size h = grind arith

page_fits :
    (m : PageManager) (id : ℕ)
    → IsWellFormed m
    → id < m.page_count
    → page_offset id m.page_size + m.page_size ≤ length (contents m)
page_fits m id w h = omega (arith, w.sized, pages_apart id m.page_count m.page_size h)

pub read_page_lem :
    (m : PageManager) (id : ℕ)
    → IsWellFormed m
    → id < m.page_count
    → read_page m id ≡ (ok (record { id = id; bytes = page_at m id }), m)
unfolding read_page
read_page_lem m id w h = ground (arith, page_fits m id w)

-- Writing a page of a well-formed manager succeeds.
module _ (m : PageManager) (page : Page) (w : IsWellFormed m) (h : page.id < m.page_count)
    (n : length page.bytes ≡ m.page_size) where
  unfoldable pub written : PageManager
  written = record m {
    file = some (overwrite (contents m) (page_offset page.id m.page_size) page.bytes);
  }

  inside : page_offset page.id m.page_size + length page.bytes ≤ length (contents m)
  inside = rw n (page_fits m page.id w h)

  pub write_page_lem : write_page m page ≡ (ok tt, written)
  unfolding write_page written
  write_page_lem = ground arith

  pub written-IsWellFormed : IsWellFormed written
  unfolding written
  written-IsWellFormed = record {
    opened = w.opened;
    sized =
        length-overwrite (contents m) (page_offset page.id m.page_size) page.bytes inside ∙ w.sized;
    headed =
        slice-overwrite_before (contents m) (page_offset page.id m.page_size) page.bytes inside 0
          header_size (omega arith)
        ∙ w.headed;
    positive = w.positive;
  }

  pub page_at-written :
      (id : ℕ) → page_at written id ≡ (if id == page.id then page.bytes else page_at m id)
  unfolding written
  page_at-written id =
      let k = page_offset page.id m.page_size in
      let j = page_offset id m.page_size in
      ground (
        arith,
        n,
        pages_apart id page.id m.page_size,
        pages_apart page.id id m.page_size,
        slice-overwrite_before (contents m) k page.bytes inside j m.page_size,
        slice-overwrite_behind (contents m) k page.bytes inside j m.page_size,
        slice-overwrite_same (contents m) k page.bytes inside,
      )

-- Allocation appends a page of zeros.
module _ (m : PageManager) (w : IsWellFormed m) where
  pub grown : Bytes
  grown = contents m ++ replicate m.page_size 0

  unfoldable pub allocated : PageManager
  allocated = record m {
    file = some (write_header grown m.page_size (m.page_count + 1));
    page_count = m.page_count + 1;
  }

  pub allocate_page_lem : allocate_page m ≡ (ok m.page_count, allocated)
  unfolding allocate_page allocated grown
  allocate_page_lem = ground arith

  length-grown : length grown ≡ length (contents m) + m.page_size
  unfolding grown
  length-grown = omega (
    arith,
    length-append (contents m) (replicate m.page_size 0),
    length-replicate m.page_size (let z : ℕ = 0 in z),
  )

  header_inside : 0 + length (make_header m.page_size (m.page_count + 1)) ≤ length grown
  header_inside =
      omega (arith, length-make_header m.page_size (m.page_count + 1), length-grown, w.sized)

  pub allocated-IsWellFormed : IsWellFormed allocated
  unfolding allocated write_header
  allocated-IsWellFormed =
      let header = make_header m.page_size (m.page_count + 1) in
      record {
        opened = w.opened;
        sized = omega (
          arith,
          length-overwrite grown 0 header header_inside,
          length-grown,
          w.sized,
          page_more m.page_count m.page_size,
        );
        headed =
            subst (λ n. slice 0 n (overwrite grown 0 header) ≡ header)
              (length-make_header m.page_size (m.page_count + 1))
              (slice-overwrite_same grown 0 header header_inside);
        positive = w.positive;
      }
    where
      page_more : (n k : ℕ) → (n + 1) * k ≡ n * k + k
      page_more n k = grind arith

  -- The header that allocation writes lies in front of every page.
  page_at-grown :
      (id : ℕ) → page_at allocated id ≡ slice (page_offset id m.page_size) m.page_size grown
  unfolding allocated write_header
  page_at-grown id =
      let header = make_header m.page_size (m.page_count + 1) in
      slice-overwrite_behind grown 0 header header_inside (page_offset id m.page_size) m.page_size
        (omega (arith, length-make_header m.page_size (m.page_count + 1)))

  pub page_at-allocated :
      (id : ℕ)
      → id ≤ m.page_count
      → page_at allocated id
        ≡ (if id == m.page_count then replicate m.page_size 0 else page_at m id)
  unfolding grown
  page_at-allocated id h =
      let k = page_offset id m.page_size in
      let zeros : Bytes = replicate m.page_size 0 in
      page_at-grown id
      ∙ ground (
        arith,
        w.sized,
        pages_apart id m.page_count m.page_size,
        slice-append_left k m.page_size (contents m) zeros,
        slice-append_right k m.page_size (contents m) zeros,
        slice-replicate m.page_size (let z : ℕ = 0 in z),
      )
