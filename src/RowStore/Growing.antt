-- ===== src/RowStore/Growing.antt =====
-- The loop of `RewriteAllRows` that allocates pages, and the write of the metadata page.
use database_management_syst.Prelude.{
  ℕ, zero, suc, ◌+◌, ◌-◌, ◌%◌, ◌^◌, ◌≤◌, ◌<◌, ◌≡◌, ap, subst, ◌∙◌, false, length, replicate, ltb,
  ge→ltb, length-append, length-replicate, arith,
}
use database_management_syst.Status.{Result, ok}
use database_management_syst.Pages.{PageManager}
use database_management_syst.Pages.Contents.{allocate_page_lem, allocated, allocated-IsWellFormed}
use database_management_syst.RowStore.Format.{Metadata, serialize_metadata, page_image}
use database_management_syst.RowStore.Format.Headers.{length-serialize_metadata}
use database_management_syst.RowStore.State.{RowStore, pages, continue}
use database_management_syst.RowStore.Paging.{put_metadata}
use database_management_syst.RowStore.Rewrite.{allocate_pages}
use database_management_syst.RowStore.Contents.{Serves, PutsPage, write_page-PutsPage}
use native.Mathlib.Nat.{mod-eq_of_lt}

-- A run that has appended so many pages and counted them.
pub record Grows (s : RowStore) (n : ℕ) (run : Result (Unit {0}) × RowStore) : Type 0 where
  pub manager : PageManager
  pub returns :
      run ≡ (ok tt, record s { page_manager = manager; data_page_count = s.data_page_count + n })
  pub serves : Serves s.page_size (s.data_page_count + n + 1) manager

with_page : (s : RowStore) → Serves s.page_size (s.data_page_count + 1) s.page_manager → RowStore
with_page s v = record s {
  page_manager = allocated s.page_manager v.formed;
  data_page_count = s.data_page_count + 1;
}

with_page-Serves :
    (s : RowStore) (v : Serves s.page_size (s.data_page_count + 1) s.page_manager)
    → Serves s.page_size (s.data_page_count + 1 + 1) (allocated s.page_manager v.formed)
with_page-Serves s v = record {
  formed = allocated-IsWellFormed s.page_manager v.formed;
  sized = unfold allocated in v.sized;
  counted = unfold allocated in ap (λ n. n + 1) v.counted;
}

pub allocate_pages-Grows :
    (s : RowStore) (n : ℕ)
    → Serves s.page_size (s.data_page_count + 1) s.page_manager
    → s.data_page_count + n < 2 ^ 64
    → Grows s n (allocate_pages n s)
unfolding allocate_pages continue pages with_page
allocate_pages-Grows s zero v h = record {
  manager = s.page_manager;
  returns =
      ap (λ c. (ok tt, record s { data_page_count = c })) {y = s.data_page_count + 0} (omega arith);
  serves =
      subst (λ c. Serves s.page_size c s.page_manager) {y = s.data_page_count + 0 + 1} (omega arith)
        v;
}
allocate_pages-Grows s (suc n) v h =
    let rest = allocate_pages-Grows (with_page s v) n (with_page-Serves s v) (omega arith) in
    let wraps : (s.data_page_count + 1) % 2 ^ 64 ≡ s.data_page_count + 1 =
      mod-eq_of_lt (omega arith) in
    let count : s.data_page_count + 1 + n ≡ s.data_page_count + suc n = omega arith in
    record {
      manager = rest.manager;
      returns =
          rw (allocate_page_lem s.page_manager v.formed, wraps)
            (rest.returns
              ∙ ap (λ c. (ok tt, record s { page_manager = rest.manager; data_page_count = c }))
                  count);
      serves = subst (λ c. Serves s.page_size (c + 1) rest.manager) count rest.serves;
    }

pub put_metadata-PutsPage :
    (s : RowStore) (count : ℕ) (metadata : Metadata)
    → Serves s.page_size (count + 1) s.page_manager
    → 36 ≤ s.page_size
    → PutsPage s
        (count + 1)
        0
        (page_image s.page_size (serialize_metadata metadata))
        (put_metadata metadata s)
unfolding put_metadata continue page_image
put_metadata-PutsPage s count metadata v h =
    let bytes = serialize_metadata metadata in
    let fits : ltb s.page_size (length bytes) ≡ false =
      ge→ltb _ _ (omega (arith, length-serialize_metadata metadata)) in
    rw fits (
      write_page-PutsPage s (count + 1) 0 _ v (omega arith) (
        omega (
          arith,
          length-serialize_metadata metadata,
          length-append bytes (replicate (s.page_size - length bytes) 0),
          length-replicate (s.page_size - length bytes) (let z : ℕ = 0 in z),
        )))
