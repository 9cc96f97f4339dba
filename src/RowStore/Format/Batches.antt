-- ===== src/RowStore/Format/Batches.antt =====
-- The loop of `RewriteAllRows` splits the rows into pages that hold them.
use database_management_syst.Prelude.{
  ℕ, ◌+◌, ◌≤◌, ◌≡◌, refl, sym, ap, ◌∙◌, List, [], ◌∷◌, ◌++◌, Bool, true, false, Bool-cases, inl,
  inr, false, ltb, not, ◌&&◌, length, All, All-append, concat, arith, append-nil, append_assoc,
  length-append,
}
use database_management_syst.Prelude.Sets.{is_empty}
use database_management_syst.Status.{ok}
use database_management_syst.Serialization.Rows.{Row}
use database_management_syst.RowStore.Format.{
  serialize_row_entry, entries_payload, batch_rows, page_header_size,
}
use database_management_syst.RowStore.Format.RoundTrip.{used_size}

-- A page with this row alone does not exceed the page size.
abbrev pub IsSmallEntry : ℕ → Row → Type 0
IsSmallEntry page_size row = page_header_size + length (serialize_row_entry row) ≤ page_size

abbrev pub FitsPage : ℕ → List Row → Type 0
FitsPage page_size rows = used_size rows ≤ page_size

concat-append_one :
    (pages : List (List Row)) (page : List Row)
    → concat (pages ++ (page ∷ [])) ≡ concat pages ++ page
concat-append_one [] page = append-nil page
concat-append_one (p ∷ pages) page =
    ap (p ++◌) (concat-append_one pages page) ∙ sym (append_assoc p (concat pages) page)

length-payload_one :
    (rows : List Row) (row : Row)
    → length (entries_payload (rows ++ (row ∷ [])))
      ≡ length (entries_payload rows) + length (serialize_row_entry row)
unfolding entries_payload
length-payload_one [] row = omega (arith, length-append (serialize_row_entry row) [])
length-payload_one (r ∷ rows) row = omega (
  arith,
  length-payload_one rows row,
  length-append (serialize_row_entry r) (entries_payload (rows ++ (row ∷ []))),
  length-append (serialize_row_entry r) (entries_payload rows),
)

-- The pages hold the rows in their order, each fits, and they are not more than a bound.
pub record Splits (page_size : ℕ) (rows : List Row) (bound : ℕ) (pages : List (List Row))
    : Type 0 where
  pub all : concat pages ≡ rows
  pub fit : All (FitsPage page_size) pages
  pub few : length pages ≤ bound

-- A row for which the page being filled has room.
room-FitsPage :
    (page_size : ℕ) (current : List Row) (size : ℕ) (row : Row)
    → IsSmallEntry page_size row
    → size ≡ length (entries_payload current)
    → (not (is_empty current)
        && ltb page_size (page_header_size + size + length (serialize_row_entry row)))
      ≡ false
    → FitsPage page_size (current ++ (row ∷ []))
unfolding is_empty entries_payload
room-FitsPage page_size [] size row h e room = omega (arith, h, length-payload_one [] row)
room-FitsPage page_size (c ∷ cs) size row h e room =
    ground (arith, e, room, length-payload_one (c ∷ cs) row)

full_some :
    (current : List Row) (b : Bool) → (not (is_empty current) && b) ≡ true → 1 ≤ length current
unfolding is_empty
full_some [] b h = ground (arith, h)
full_some (c ∷ cs) b h = omega arith

batch_rows_from :
    (page_size : ℕ) (pages : List (List Row)) (current : List Row) (size : ℕ) (rows : List Row)
    → All (IsSmallEntry page_size) rows
    → All (FitsPage page_size) pages
    → page_header_size ≤ page_size
    → FitsPage page_size current
    → size ≡ length (entries_payload current)
    → (result : List (List Row)) × ((batch_rows page_size pages current size rows ≡ ok result)
        × Splits page_size
            (concat pages ++ (current ++ rows))
            (length pages + length current + length rows)
            result)
unfolding batch_rows is_empty entries_payload
batch_rows_from page_size pages [] size [] hs ps hp fits e =
    (pages, (refl, record { all = sym (append-nil (concat pages)); fit = ps; few = omega arith }))
batch_rows_from page_size pages (c ∷ cs) size [] hs ps hp fits e =
    let current = c ∷ cs in
    (
      pages ++ (current ∷ []),
      (
        refl,
        record {
          all = concat-append_one pages current ∙ ap (concat pages ++◌) (sym (append-nil current));
          fit = All-append (FitsPage page_size) pages (current ∷ []) ps (fits, tt);
          few = omega (arith, length-append pages (current ∷ []));
        },
      ),
    )
batch_rows_from page_size pages current size (row ∷ rows) (h, hs) ps hp fits e =
    let entry = length (serialize_row_entry row) in
    elim (Bool-cases (not (is_empty current) && ltb page_size (page_header_size + size + entry))) [
      | inl full ↦
          let (result, (returns, splits)) =
            batch_rows_from page_size (pages ++ (current ∷ [])) (row ∷ []) entry rows hs
              (All-append (FitsPage page_size) pages (current ∷ []) ps (fits, tt)) hp
              (omega (arith, h, length-payload_one [] row))
              (omega (arith, length-payload_one [] row)) in
          (
            result,
            (
              ground (arith, full, h, returns),
              record {
                all =
                    splits.all
                    ∙ sym (
                        rw
                          (
                            concat-append_one pages current,
                            append_assoc (concat pages) current (row ∷ rows),
                          )
                          refl);
                fit = splits.fit;
                few = omega (
                  arith,
                  splits.few,
                  length-append pages (current ∷ []),
                  full_some current _ full,
                );
              },
            ),
          )
      | inr room ↦
          let (result, (returns, splits)) =
            batch_rows_from page_size pages (current ++ (row ∷ [])) (size + entry) rows hs ps hp
              (room-FitsPage page_size current size row h e room)
              (omega (arith, e, length-payload_one current row)) in
          (
            result,
            (
              ground (arith, room, h, returns),
              record {
                all = splits.all ∙ ap (concat pages ++◌) (append_assoc current (row ∷ []) rows);
                fit = splits.fit;
                few = omega (arith, splits.few, length-append current (row ∷ []));
              },
            ),
          )
    ]

-- Rows each of which fits into a page of its own are split; the pages hold the rows in their order,
-- none lost, each fits into the page size, and there are at most as many pages as rows.
pub concat-batch_rows :
    (page_size : ℕ) (rows : List Row)
    → page_header_size ≤ page_size
    → All (IsSmallEntry page_size) rows
    → (pages : List (List Row)) × ((batch_rows page_size [] [] 0 rows ≡ ok pages)
        × Splits page_size rows (length rows) pages)
unfolding entries_payload
concat-batch_rows page_size rows hp hs =
    let (pages, (returns, splits)) =
      batch_rows_from page_size [] [] 0 rows hs tt hp (omega arith) refl in
    (
      pages,
      (returns, record { all = splits.all; fit = splits.fit; few = omega (arith, splits.few) }),
    )
