-- ===== src/RowStore/Refusals.antt =====
-- Rows that are too large for a page are refused, and what the refused calls leave.
use database_management_syst.Prelude.{
  ℕ, zero, suc, ◌+◌, ◌%◌, ◌^◌, ◌≡◌, refl, ◌∙◌, List, [], ◌∷◌, ◌++◌, Bool, Bool-cases, true, false,
  ◌||◌, ltb, some, none, length, set, arith, inl, inr,
}
use database_management_syst.Status.{ok, err, invalid_argument}
use database_management_syst.Serialization.Rows.{Row, Tuple}
use database_management_syst.RowStore.Format.{serialize_row_entry, batch_rows, page_header_size}
use database_management_syst.RowStore.State.{RowStore, continue}
use database_management_syst.RowStore.Rewrite.{rewrite_all_rows}
use database_management_syst.RowStore.AllRows.{Represents, check_open_lem}
use database_management_syst.RowStore.Methods.{row_at, update, restore, max_id}
use database_management_syst.RowStore.Lookup.{first_with, first_with-Found, first_with-rid}
use database_management_syst.RowStore.Refinement.{with_tuple, update_lem}
use database_management_syst.RowStore.Restoring.{undeleted, missing-PutsBack, restore_lem}

abbrev pub is_large : ℕ → Row → Bool
is_large page_size row = ltb page_size (page_header_size + length (serialize_row_entry row))

unfoldable pub has_large : ℕ → List Row → Bool
has_large page_size [] = false
has_large page_size (row ∷ rows) = is_large page_size row || has_large page_size rows

batch_rows_refuses :
    (page_size : ℕ) (rows : List Row) (pages : List (List Row)) (current : List Row) (size : ℕ)
    → has_large page_size rows ≡ true
    → batch_rows page_size pages current size rows ≡ err invalid_argument
unfolding batch_rows has_large
batch_rows_refuses page_size [] pages current size h = absurd (ground (arith, h))
batch_rows_refuses page_size (row ∷ rows) pages current size h =
    elim (Bool-cases (is_large page_size row)) [
      | inl large ↦ rw large refl
      | inr small ↦ rw small (batch_rows_refuses page_size rows _ _ _ (ground (arith, h, small)))
    ]

rewrite_all_rows_refuses :
    (s : RowStore) (rows : List Row)
    → s.is_open ≡ true
    → has_large s.page_size rows ≡ true
    → rewrite_all_rows rows s ≡ (err invalid_argument, s)
unfolding rewrite_all_rows continue
rewrite_all_rows_refuses s rows o h =
    rw (check_open_lem s o) (rw (batch_rows_refuses s.page_size rows [] [] 0 h) refl)

large-append :
    (page_size : ℕ) (rows : List Row) (row : Row)
    → is_large page_size row ≡ true
    → has_large page_size (rows ++ (row ∷ [])) ≡ true
unfolding has_large
large-append page_size [] row h = ground (arith, h)
large-append page_size (r ∷ rows) row h = ground (arith, large-append page_size rows row h)

large-set :
    (page_size : ℕ) (rows : List Row) (index : ℕ) (row old : Row)
    → row_at rows index ≡ ok old
    → is_large page_size row ≡ true
    → has_large page_size (set rows index row) ≡ true
unfolding has_large row_at
large-set page_size [] index row old e h = absurd (ground (arith, e))
large-set page_size (r ∷ rows) zero row old e h = ground (arith, h)
large-set page_size (r ∷ rows) (suc index) row old e h =
    ground (arith, large-set page_size rows index row old e h)

-- In a store that holds the rows, let the first row with the id not be deleted. If it does not fit into
-- a page with the new tuple, `Update` fails with InvalidArgument and leaves the store as it is.
pub update_too_large :
    (s : RowStore) (rows : List Row) (rid : ℕ) (tuple : Tuple) (row : Row)
    → Represents s rows
    → first_with rows rid ≡ some row
    → row.deleted ≡ false
    → is_large s.page_size (with_tuple row tuple) ≡ true
    → update rid tuple s ≡ (err invalid_argument, s)
update_too_large s rows rid tuple row r e active large =
    let f = first_with-Found rows rid row (with_tuple row tuple) e (first_with-rid rows rid e) in
    update_lem s rows rid tuple row r f active
    ∙ rewrite_all_rows_refuses s (set rows f.index (with_tuple row tuple)) r.ready.opened
        (large-set s.page_size rows f.index (with_tuple row tuple) row f.at large)

-- In a store that holds the rows, let no row have the id of a row that does not fit into a page without
-- the deleted flag. `Restore` of that row fails with InvalidArgument, and yet leaves the count of
-- active rows raised by one, wrapping at 64 bits, and the next id as the larger of the old one and the
-- row's plus one, both in memory; the rest of the store is as before.
pub restore_too_large :
    (s : RowStore) (rows : List Row) (row : Row)
    → Represents s rows
    → first_with rows row.rid ≡ none
    → is_large s.page_size (undeleted row) ≡ true
    → restore row s ≡ (
      err invalid_argument,
      record s {
        active_row_count = (s.active_row_count + 1) % 2 ^ 64;
        next_row_id = max_id s.next_row_id ((row.rid + 1) % 2 ^ 64);
      },
    )
unfolding missing-PutsBack
restore_too_large s rows row r e large =
    restore_lem s rows row r (missing-PutsBack s rows row e)
    ∙ rewrite_all_rows_refuses _ (rows ++ (undeleted row ∷ [])) r.ready.opened
        (large-append s.page_size rows (undeleted row) large)
