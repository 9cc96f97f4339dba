-- ===== src/RowStore/Restoring.antt =====
-- `Restore` on the rows that a store holds.
use database_management_syst.Prelude.{
  ℕ, ◌+◌, ◌%◌, ◌^◌, ◌≤◌, ◌<◌, ◌≡◌, refl, sym, ap, ◌∙◌, List, [], ◌∷◌, ◌++◌, Bool, Bool-cases, true,
  false, ◌==◌, if◌then◌else◌, some, none, length, set, length-append, All, All-append, arith,
  Option-cases, inl, inr,
}
use database_management_syst.Status.{ok}
use database_management_syst.Serialization.Rows.{Row}
use database_management_syst.RowStore.Format.Entries.{IsStorableEntry}
use database_management_syst.RowStore.Format.Batches.{IsSmallEntry}
use database_management_syst.RowStore.State.{RowStore, continue}
use database_management_syst.RowStore.Rewrite.{rewrite_all_rows}
use database_management_syst.RowStore.AllRows.{
  Represents, load_all_rows_lem, check_open_lem, rewrite_all_rows_lem,
}
use database_management_syst.RowStore.Methods.{
  find_row_index_by_id, get, restore, restore_row, count_active, max_id,
}
use database_management_syst.RowStore.Lookup.{first_with, first_with-Found, find_missing}
use database_management_syst.RowStore.Refinement.{Stores, visible, get_lem}
use native.Mathlib.Nat.{mod-eq_of_lt}

abbrev pub undeleted : Row → Row
undeleted row = record row { deleted = false }

abbrev pub with_count : RowStore → ℕ → RowStore
with_count s count = record s { active_row_count = count }

-- The rows with a row put back: it is the first one with its id, and all others are as before.
pub record PutsBack (s : RowStore) (rows : List Row) (row : Row) : Type 1 where
  pub restored : List Row
  pub count : ℕ
  pub returns :
      restore_row rows row (find_row_index_by_id rows row.rid) s ≡ (ok restored, with_count s count)
  pub others :
      (other : ℕ)
      → first_with restored other
        ≡ (if other == row.rid then some (undeleted row) else first_with rows other)
  pub keeps : (P : Row → Type 0) → P (undeleted row) → All P rows → All P restored
  pub bounded : length restored ≤ length rows + 1

pub first_with-append :
    (rows : List Row) (new : Row) (other : ℕ)
    → first_with rows new.rid ≡ none
    → first_with (rows ++ (new ∷ [])) other
      ≡ (if other == new.rid then some new else first_with rows other)
unfolding first_with
first_with-append [] new other e = ground arith
first_with-append (row ∷ rows) new other e = elim (Bool-cases (row.rid == new.rid)) [
  | inl same ↦ absurd (ground (arith, e, same))
  | inr apart ↦
      ground (arith, e, apart, first_with-append rows new other (ground (arith, e, apart)))
]

unfoldable pub missing-PutsBack :
    (s : RowStore) (rows : List Row) (row : Row)
    → first_with rows row.rid ≡ none
    → PutsBack s rows row
unfolding restore_row continue
missing-PutsBack s rows row e = record {
  restored = rows ++ (undeleted row ∷ []);
  count = (s.active_row_count + 1) % 2 ^ 64;
  returns = rw (find_missing rows row.rid e) refl;
  others = λ other. first_with-append rows (undeleted row) other e;
  keeps = λ P p ps. All-append P rows (undeleted row ∷ []) ps (p, tt);
  bounded = omega (arith, length-append rows (undeleted row ∷ []));
}

counts :
    (s : RowStore) (b : Bool)
    → (if b then count_active s else s)
      ≡ with_count s (if b then (s.active_row_count + 1) % 2 ^ 64 else s.active_row_count)
counts s true = refl
counts s false = refl

present-PutsBack :
    (s : RowStore) (rows : List Row) (row old : Row)
    → first_with rows row.rid ≡ some old
    → PutsBack s rows row
unfolding restore_row continue
present-PutsBack s rows row old e =
    let f = first_with-Found rows row.rid old (undeleted row) e refl in
    record {
      restored = set rows f.index (undeleted row);
      count = if old.deleted then (s.active_row_count + 1) % 2 ^ 64 else s.active_row_count;
      returns =
          rw f.finds
            (rw f.at (ap (λ t. (ok (set rows f.index (undeleted row)), t)) (counts s old.deleted)));
      others = f.others;
      keeps = f.keeps;
      bounded = omega (arith, f.same_length);
    }

puts_back : (s : RowStore) (rows : List Row) (row : Row) → PutsBack s rows row
puts_back s rows row = elim (Option-cases (first_with rows row.rid)) [
  | inl missing ↦ missing-PutsBack s rows row missing
  | inr (old, e) ↦ present-PutsBack s rows row old e
]

abbrev pub renumbered : RowStore → ℕ → ℕ → RowStore
renumbered s count next = record s { active_row_count = count; next_row_id = next }

renumbered-Represents :
    (s : RowStore) (rows : List Row) (count next : ℕ)
    → Represents s rows
    → Represents (renumbered s count next) rows
renumbered-Represents s rows count next r = record {
  ready = record {
    opened = r.ready.opened;
    serves = r.ready.serves;
    small = r.ready.small;
    large = r.ready.large;
  };
  batches = r.batches;
  counted = r.counted;
  holds = r.holds;
  all = r.all;
}

pub restore_lem :
    (s : RowStore) (rows : List Row) (row : Row)
    → Represents s rows
    → (p : PutsBack s rows row)
    → restore row s
      ≡ rewrite_all_rows p.restored
          (renumbered s p.count (max_id s.next_row_id ((row.rid + 1) % 2 ^ 64)))
unfolding restore continue
restore_lem s rows row r p =
    rw (check_open_lem s r.ready.opened) (rw (load_all_rows_lem s r) (rw p.returns refl))

-- In a store that holds the rows, the data pages, the rows and one more together fewer than 2^64, let a
-- row with an id below 2^64 - 1 fit into a page of its own without the deleted flag. Then
-- `Restore` of the row succeeds, also when its id is not there; after it, `Get` returns the row, not
-- deleted, for its id, and for any other id what it returned before; and the next row to be inserted
-- gets an id above the row's.
pub get-restore :
    (s : RowStore) (rows : List Row) (row : Row) (other : ℕ)
    → Stores s rows
    → IsStorableEntry (undeleted row)
    → IsSmallEntry s.page_size (undeleted row)
    → row.rid + 1 < 2 ^ 64
    → s.data_page_count + length rows + 1 < 2 ^ 64
    → ((restore row s).0 ≡ ok tt)
      × ((get other (restore row s).1).0
          ≡ (if other == row.rid then ok (undeleted row) else (get other s).0))
      × (row.rid < (restore row s).1.next_row_id)
unfolding visible max_id
get-restore s rows row other r storable small id few =
    let p = puts_back s rows row in
    let s1 = renumbered s p.count (max_id s.next_row_id ((row.rid + 1) % 2 ^ 64)) in
    let ready =
      renumbered-Represents s rows p.count (max_id s.next_row_id ((row.rid + 1) % 2 ^ 64))
        r.represents in
    let w =
      rewrite_all_rows_lem s1 p.restored ready.ready (p.keeps IsStorableEntry storable r.storable)
        (p.keeps (IsSmallEntry s.page_size) small r.small) (omega (arith, p.bounded)) in
    rw (restore_lem s rows row r.represents p ∙ w.returns) (
      refl,
      ap (λ o. o.0) (get_lem _ p.restored other w.represents)
          ∙ ap visible (p.others other)
          ∙ sym (ground (arith, ap (λ o. o.0) (get_lem s rows other r.represents))),
      ground (arith, mod-eq_of_lt id),
    )
