-- ===== src/RowStore/Rewriting.antt =====
-- The loop of `RewriteAllRows` that writes the pages leaves pages that hold exactly the batches.
use database_management_syst.Prelude.{
  ℕ, zero, suc, ◌+◌, ◌^◌, ◌≤◌, ◌<◌, ◌≡◌, refl, ap, ◌∙◌, List, [], ◌∷◌, ◌++◌, length, All, concat,
  arith,
}
use database_management_syst.Status.{Result, ok}
use database_management_syst.Serialization.Rows.{Row}
use database_management_syst.Pages.{PageManager}
use database_management_syst.Pages.Contents.{page_at}
use database_management_syst.RowStore.Format.{decode_page, entries_payload}
use database_management_syst.RowStore.Format.Entries.{IsStorableEntry}
use database_management_syst.RowStore.Format.Batches.{FitsPage}
use database_management_syst.RowStore.State.{RowStore, StoreM, continue}
use database_management_syst.RowStore.Paging.{write_page_rows}
use database_management_syst.RowStore.Rewrite.{write_batches}
use database_management_syst.RowStore.Contents.{Serves, PutsRows, write_page_rows-PutsRows, Holds}

-- The lists of rows that the pages hold after the write: the batches, and nothing on the other pages.
unfoldable pub padded : ℕ → List (List Row) → List (List Row)
padded zero batches = []
padded (suc n) [] = [] ∷ padded n []
padded (suc n) (rows ∷ batches) = rows ∷ padded n batches

pub length-padded : (n : ℕ) (batches : List (List Row)) → length (padded n batches) ≡ n
unfolding padded
length-padded zero batches = refl
length-padded (suc n) [] = ap suc (length-padded n [])
length-padded (suc n) (rows ∷ batches) = ap suc (length-padded n batches)

pub concat-padded :
    (n : ℕ) (batches : List (List Row))
    → length batches ≤ n
    → concat (padded n batches) ≡ concat batches
unfolding padded
concat-padded zero [] h = refl
concat-padded zero (rows ∷ batches) h = absurd (omega arith)
concat-padded (suc n) [] h = concat-padded n [] (omega arith)
concat-padded (suc n) (rows ∷ batches) h = ap (rows ++◌) (concat-padded n batches (omega arith))

abbrev pub IsWritable : ℕ → List Row → Type 0
IsWritable page_size rows = All IsStorableEntry rows × FitsPage page_size rows

-- What the loop leaves: a manager that serves the same pages, those up to an ordinal unchanged.
pub record WritesBatches (s : RowStore) (count ordinal : ℕ) (batches : List (List Row))
    (run : Result (Unit {0}) × RowStore) : Type 0 where
  pub manager : PageManager
  pub returns : run ≡ (ok tt, record s { page_manager = manager })
  pub serves : Serves s.page_size count manager
  pub holds : Holds manager ordinal batches
  pub keeps : (j : ℕ) → j ≤ ordinal → page_at manager j ≡ page_at s.page_manager j

write_batches_step :
    (s : RowStore) (count ordinal : ℕ) (rows : List Row) (batches : List (List Row))
    (loop : StoreM (Unit {0}))
    → PutsRows s count (ordinal + 1) rows (write_page_rows (ordinal + 1) rows s)
    → ((m : PageManager)
        → Serves s.page_size count m
        → WritesBatches
            (record s { page_manager = m })
            count
            (ordinal + 1)
            batches
            (loop (record s { page_manager = m })))
    → WritesBatches s count ordinal
        (rows ∷ batches)
        (continue (write_page_rows (ordinal + 1) rows s) λ _. loop)
unfolding continue
write_batches_step s count ordinal rows batches loop p after =
    let rest = after p.puts.manager p.puts.serves in
    record {
      manager = rest.manager;
      returns = rw p.puts.returns rest.returns;
      serves = rest.serves;
      holds = (
        ap decode_page (rest.keeps (ordinal + 1) (omega arith) ∙ p.puts.holds) ∙ p.decodes,
        rest.holds,
      );
      keeps = λ j l. rest.keeps j (omega arith) ∙ p.puts.keeps j (omega arith);
    }

pub write_batches_lem :
    (s : RowStore) (count n ordinal : ℕ) (batches : List (List Row))
    → Serves s.page_size count s.page_manager
    → ordinal + n < count
    → s.page_size < 2 ^ 32
    → 20 ≤ s.page_size
    → All (IsWritable s.page_size) batches
    → WritesBatches s count ordinal (padded n batches) (write_batches n ordinal batches s)
unfolding write_batches padded entries_payload
write_batches_lem s count zero ordinal batches v h small large ws = record {
  manager = s.page_manager;
  returns = refl;
  serves = v;
  holds = tt;
  keeps = λ j l. refl;
}
write_batches_lem s count (suc n) ordinal [] v h small large ws =
    write_batches_step s count ordinal [] (padded n []) (write_batches n (ordinal + 1) [])
      (write_page_rows-PutsRows s count (ordinal + 1) [] v (omega arith) tt small (omega arith))
      (λ m v'.
        write_batches_lem (record s { page_manager = m }) count n (ordinal + 1) [] v' (omega arith)
          small large tt)
write_batches_lem s count (suc n) ordinal (rows ∷ batches) v h small large ((hs, fits), ws) =
    write_batches_step s count ordinal rows (padded n batches)
      (write_batches n (ordinal + 1) batches)
      (write_page_rows-PutsRows s count (ordinal + 1) rows v (omega arith) hs small fits)
      (λ m v'.
        write_batches_lem (record s { page_manager = m }) count n (ordinal + 1) batches v'
          (omega arith) small large ws)
