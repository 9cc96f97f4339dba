-- ===== src/RowStore/Lookup.antt =====
-- The first row with an id: finding it, and putting another row in its place.
use database_management_syst.Prelude.{
  ℕ, suc, ◌≡◌, refl, sym, ap, subst, ◌∙◌, List, [], ◌∷◌, false, ◌==◌, if◌then◌else◌, Option, some,
  none, length, set, All, arith, Bool-cases, inl, inr, ==_iff,
}
use database_management_syst.Status.{ok, err, not_found}
use database_management_syst.Serialization.Rows.{Row}
use database_management_syst.RowStore.Methods.{find_row_index_by_id, next_index, row_at}

unfoldable pub first_with : List Row → ℕ → Option Row
first_with [] rid = none
first_with (row ∷ rows) rid = if row.rid == rid then some row else first_with rows rid

-- Where the row with the id is found, and what another row with the id in its place changes.
pub record Found (rows : List Row) (rid : ℕ) (row new : Row) : Type 1 where
  pub index : ℕ
  pub finds : find_row_index_by_id rows rid ≡ ok index
  pub at : row_at rows index ≡ ok row
  pub others :
      (other : ℕ)
      → first_with (set rows index new) other
        ≡ (if other == rid then some new else first_with rows other)
  pub keeps : (P : Row → Type 0) → P new → All P rows → All P (set rows index new)
  pub same_length : length (set rows index new) ≡ length rows

Found-here :
    (row : Row) (rows : List Row) (rid : ℕ) (new : Row)
    → row.rid ≡ rid
    → new.rid ≡ rid
    → Found (row ∷ rows) rid row new
unfolding find_row_index_by_id row_at first_with
Found-here row rows rid new e n = record {
  index = 0;
  finds = ground (arith, e);
  at = refl;
  others = λ other. ground (arith, e, n);
  keeps = λ P p ps. (p, ps.1);
  same_length = refl;
}

Found-later :
    (first : Row) (rows : List Row) (rid : ℕ) (row new : Row)
    → (first.rid == rid) ≡ false
    → Found rows rid row new
    → Found (first ∷ rows) rid row new
unfolding find_row_index_by_id row_at first_with next_index
Found-later first rows rid row new e f = record {
  index = suc f.index;
  finds = rw (e, f.finds) refl;
  at = f.at;
  others = λ other. ground (arith, e, f.others other);
  keeps = λ P p ps. (ps.0, f.keeps P p ps.1);
  same_length = ap suc f.same_length;
}

row_or : Row → Option Row → Row
row_or row none = row
row_or row (some r) = r

pub first_with-Found :
    (rows : List Row) (rid : ℕ) (row new : Row)
    → first_with rows rid ≡ some row
    → new.rid ≡ rid
    → Found rows rid row new
unfolding first_with row_or
first_with-Found [] rid row new e n = absurd (ground (arith, e))
first_with-Found (first ∷ rows) rid row new e n = elim (Bool-cases (first.rid == rid)) [
  | inl here ↦
      let same : some first ≡ some row = ground (arith, e, here) in
      subst (λ r. Found (first ∷ rows) rid r new) (ap (row_or first) same)
        (Found-here first rows rid new ((==_iff first.rid rid).0 here) n)
  | inr later ↦
      Found-later first rows rid row new later
        (first_with-Found rows rid row new (ground (arith, e, later)) n)
]

pub find_missing :
    (rows : List Row) (rid : ℕ)
    → first_with rows rid ≡ none
    → find_row_index_by_id rows rid ≡ err not_found
unfolding first_with find_row_index_by_id next_index
find_missing [] rid e = refl
find_missing (first ∷ rows) rid e = elim (Bool-cases (first.rid == rid)) [
  | inl here ↦ absurd (ground (arith, e, here))
  | inr later ↦ rw (later, find_missing rows rid (ground (arith, e, later))) refl
]

pub first_with-rid :
    (rows : List Row) (rid : ℕ) {row : Row} → first_with rows rid ≡ some row → row.rid ≡ rid
unfolding first_with row_or
first_with-rid [] rid e = absurd (ground (arith, e))
first_with-rid (first ∷ rows) rid {row} e = elim (Bool-cases (first.rid == rid)) [
  | inl here ↦
      let same : some first ≡ some row = ground (arith, e, here) in
      ap (λ o. (row_or first o).rid) (sym same) ∙ (==_iff first.rid rid).0 here
  | inr later ↦ first_with-rid rows rid {row = row} (ground (arith, e, later))
]
