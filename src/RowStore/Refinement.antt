-- ===== src/RowStore/Refinement.antt =====
-- What the methods of the row store do to the rows that it holds.
use database_management_syst.Prelude.{
  ℕ, ◌+◌, ◌-◌, ◌%◌, ◌^◌, ◌<◌, ◌≡◌, refl, sym, ap, ◌∙◌, List, true, false, not, ◌==◌, if◌then◌else◌,
  Option, some, none, length, set, All, arith, Option-cases, inl, inr,
}
use database_management_syst.Status.{Result, ok, err, not_found}
use database_management_syst.Serialization.Rows.{Row, Tuple}
use database_management_syst.RowStore.Format.Entries.{IsStorableEntry}
use database_management_syst.RowStore.Format.Batches.{IsSmallEntry}
use database_management_syst.RowStore.State.{RowStore, continue, check, result, ◌>>◌}
use database_management_syst.RowStore.Paging.{load_all_rows}
use database_management_syst.RowStore.Rewrite.{rewrite_all_rows}
use database_management_syst.RowStore.AllRows.{
  IsReady, Represents, load_all_rows_lem, Rewrites, rewrite_all_rows_lem, check_open_lem,
}
use database_management_syst.RowStore.Methods.{
  get, get_including_deleted, update, delete, delete_active,
}
use database_management_syst.RowStore.Lookup.{
  first_with, Found, first_with-Found, first_with-rid, find_missing,
}

-- In an open store whose page size holds the metadata page, rewriting with rows that pages can hold
-- succeeds, and loading all rows then returns the rows. The data pages and the rows together are
-- fewer than 2^64.
pub load_all_rows-rewrite_all_rows :
    (s : RowStore) (rows : List Row)
    → IsReady s
    → All IsStorableEntry rows
    → All (IsSmallEntry s.page_size) rows
    → s.data_page_count + length rows < 2 ^ 64
    → ((rewrite_all_rows rows s).0 ≡ ok tt)
      × ((load_all_rows (rewrite_all_rows rows s).1).0 ≡ ok rows)
load_all_rows-rewrite_all_rows s rows r hs smalls few =
    let w = rewrite_all_rows_lem s rows r hs smalls few in
    rw w.returns (refl, ap (λ o. o.0) (load_all_rows_lem _ w.represents))

found : Option Row → Result Row
found none = err not_found
found (some row) = ok row

-- What `Get` makes of the first row with the id.
unfoldable pub visible : Option Row → Result Row
visible none = err not_found
visible (some row) = if row.deleted then err not_found else ok row

get_including_deleted_lem :
    (s : RowStore) (rows : List Row) (rid : ℕ)
    → Represents s rows
    → get_including_deleted rid s ≡ (found (first_with rows rid), s)
unfolding get_including_deleted continue found
get_including_deleted_lem s rows rid r = elim (Option-cases (first_with rows rid)) [
  | inl missing ↦
      rw (check_open_lem s r.ready.opened)
        (rw (load_all_rows_lem s r) (rw (find_missing rows rid missing, missing) refl))
  | inr (row, e) ↦
      let f = first_with-Found rows rid row row e (first_with-rid rows rid e) in
      rw (check_open_lem s r.ready.opened)
        (rw (load_all_rows_lem s r) (rw (f.finds, e) (rw f.at refl)))
]

-- `Get` on a store that holds the rows returns the first row with the id, if there is one and it is
-- not deleted, and NotFound otherwise; the store is unchanged.
pub get_lem :
    (s : RowStore) (rows : List Row) (rid : ℕ)
    → Represents s rows
    → get rid s ≡ (visible (first_with rows rid), s)
unfolding get continue visible found
get_lem s rows rid r =
    rw (check_open_lem s r.ready.opened)
      (rw (get_including_deleted_lem s rows rid r) (shows (first_with rows rid)))
  where
    shows :
        (o : Option Row)
        → continue (found o, s) (λ row. check (not row.deleted) not_found >> result (ok row))
          ≡ (visible o, s)
    shows none = refl
    shows (some row) = ground arith

-- A store that holds rows each of which fits into a page of its own.
pub record Stores (s : RowStore) (rows : List Row) : Type 0 where
  pub represents : Represents s rows
  pub storable : All IsStorableEntry rows
  pub small : All (IsSmallEntry s.page_size) rows

-- Rewriting the rows with another one in the place of the first row with an id.
module _ (s : RowStore) (rows : List Row) (rid : ℕ) (row new : Row) (r : Stores s rows)
    (f : Found rows rid row new) (storable : IsStorableEntry new)
    (small : IsSmallEntry s.page_size new) (few : s.data_page_count + length rows < 2 ^ 64) where
  pub rewrites : Rewrites s (set rows f.index new) (rewrite_all_rows (set rows f.index new) s)
  rewrites =
      rewrite_all_rows_lem s (set rows f.index new) r.represents.ready
        (f.keeps IsStorableEntry storable r.storable)
        (f.keeps (IsSmallEntry s.page_size) small r.small) (omega (arith, f.same_length))

-- After such a rewrite, `Get` returns the new row for its id, and the same as before for any other id.
get-rewritten :
    (s : RowStore) (rows : List Row) (rid : ℕ) (row new : Row)
    → Represents s rows
    → (f : Found rows rid row new) → (s' : RowStore) → Represents s' (set rows f.index new)
    → (other : ℕ)
    → (get other s').0 ≡ (if other == rid then visible (some new) else (get other s).0)
unfolding visible
get-rewritten s rows rid row new r f s' r' other =
    ap (λ o. o.0) (get_lem s' (set rows f.index new) other r')
    ∙ ap visible (f.others other)
    ∙ sym (ground (arith, ap (λ o. o.0) (get_lem s rows other r)))

abbrev pub with_tuple : Row → Tuple → Row
with_tuple row tuple = record row { tuple = tuple }

pub update_lem :
    (s : RowStore) (rows : List Row) (rid : ℕ) (tuple : Tuple) (row : Row)
    → Represents s rows
    → (f : Found rows rid row (with_tuple row tuple)) → row.deleted ≡ false
    → update rid tuple s ≡ rewrite_all_rows (set rows f.index (with_tuple row tuple)) s
unfolding update continue
update_lem s rows rid tuple row r f active =
    rw (check_open_lem s r.ready.opened)
      (rw (load_all_rows_lem s r) (rw f.finds (rw f.at (rw active refl))))

visible-active : (row : Row) → row.deleted ≡ false → visible (some row) ≡ ok row
unfolding visible
visible-active row active = ground (arith, active)

-- In a store that holds the rows, the data pages and the rows together fewer than 2^64, let the first
-- row with the id not be deleted, and let it fit into a page of its own with the new tuple. Then `Update` succeeds; after it, `Get` returns the row with the
-- new tuple for the id, and for any other id what it returned before.
pub get-update :
    (s : RowStore) (rows : List Row) (rid : ℕ) (tuple : Tuple) (row : Row) (other : ℕ)
    → Stores s rows
    → first_with rows rid ≡ some row
    → row.deleted ≡ false
    → IsStorableEntry (with_tuple row tuple)
    → IsSmallEntry s.page_size (with_tuple row tuple)
    → s.data_page_count + length rows < 2 ^ 64
    → ((update rid tuple s).0 ≡ ok tt)
      × ((get other (update rid tuple s).1).0
          ≡ (if other == rid then ok (with_tuple row tuple) else (get other s).0))
get-update s rows rid tuple row other r e active storable small few =
    let f = first_with-Found rows rid row (with_tuple row tuple) e (first_with-rid rows rid e) in
    let w = rewrites s rows rid row (with_tuple row tuple) r f storable small few in
    rw (update_lem s rows rid tuple row r.represents f active ∙ w.returns) (
      refl,
      get-rewritten s rows rid row _ r.represents f _ w.represents other
          ∙ ap (λ v. if other == rid then v else (get other s).0)
              (visible-active (with_tuple row tuple) active),
    )

abbrev mark_deleted : Row → Row
mark_deleted row = record row { deleted = true }

abbrev uncount_active : RowStore → RowStore
uncount_active s = record s { active_row_count = (s.active_row_count + (2 ^ 64 - 1)) % 2 ^ 64 }

uncount_active-Represents :
    (s : RowStore) (rows : List Row) → Represents s rows → Represents (uncount_active s) rows
uncount_active-Represents s rows r = record {
  ready = record {
    opened = r.ready.opened;
    serves = r.ready.serves;
    small = r.ready.small;
    large = r.ready.large;
  };
  batches = r.batches;
  counted = r.counted;
  holds = r.holds;
  all = r.all;
}

delete_lem :
    (s : RowStore) (rows : List Row) (rid : ℕ) (row : Row)
    → Represents s rows
    → (f : Found rows rid row (mark_deleted row)) → row.deleted ≡ false
    → delete rid s ≡ rewrite_all_rows (set rows f.index (mark_deleted row)) (uncount_active s)
unfolding delete delete_active continue
delete_lem s rows rid row r f active =
    rw (check_open_lem s r.ready.opened)
      (rw (load_all_rows_lem s r) (rw f.finds (rw f.at (rw active refl))))

-- In a store that holds the rows, the data pages and the rows together fewer than 2^64, with a count of
-- active rows that is positive and has 64 bits, let the first row with the id not be deleted, and let it
-- fit into a page of its own with the deleted flag. Then `Delete` succeeds and lowers the count of active rows by
-- one; after it, `Get` answers NotFound for the id, and for any other id what it returned before.
pub get-delete :
    (s : RowStore) (rows : List Row) (rid : ℕ) (row : Row) (other : ℕ)
    → Stores s rows
    → first_with rows rid ≡ some row
    → row.deleted ≡ false
    → IsStorableEntry (mark_deleted row)
    → IsSmallEntry s.page_size (mark_deleted row)
    → s.data_page_count + length rows < 2 ^ 64
    → 0 < s.active_row_count
    → s.active_row_count < 2 ^ 64
    → ((delete rid s).0 ≡ ok tt)
      × ((delete rid s).1.active_row_count ≡ s.active_row_count - 1)
      × ((get other (delete rid s).1).0 ≡ (if other == rid then err not_found else (get other s).0))
unfolding visible
get-delete s rows rid row other r e active storable small few some_active bounded =
    let new = mark_deleted row in
    let f = first_with-Found rows rid row new e (first_with-rid rows rid e) in
    let r1 : Stores (uncount_active s) rows = record {
      represents = uncount_active-Represents s rows r.represents;
      storable = r.storable;
      small = r.small;
    } in
    let w = rewrites (uncount_active s) rows rid row new r1 f storable small few in
    rw (delete_lem s rows rid row r.represents f active ∙ w.returns)
      (refl, omega arith, get-rewritten s rows rid row new r.represents f _ w.represents other)
