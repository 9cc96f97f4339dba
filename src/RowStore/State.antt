-- ===== src/RowStore/State.antt =====
-- The state of storage/row_store.cpp. A method runs on the store's state and returns its result with
-- the state that it leaves, also where it fails.
use database_management_syst.Prelude.{ℕ, Bool, if◌then◌else◌}
use database_management_syst.Status.{Result, ok, err, StatusCode, internal_error}
use database_management_syst.Binary.{Bytes}
use database_management_syst.Pages.{PageManager, Outcome}

pub record RowStore : Type 0 where
  pub file_path : Bytes
  pub page_size : ℕ
  pub page_manager : PageManager
  pub is_open : Bool
  pub next_row_id : ℕ
  pub data_page_count : ℕ
  pub active_row_count : ℕ

abbrev pub StoreM : Type 0 → Type 0
StoreM A = RowStore → Result A × RowStore

unfoldable pub continue :
    {A B : Type 0} → Result A × RowStore → (A → StoreM B) → Result B × RowStore
continue (ok a, s) k = k a s
continue (err e, s) k = (err e, s)

infixl 5 ◌>>=◌ ◌>>◌
abbrev pub ◌>>=◌ : {A B : Type 0} → StoreM A → (A → StoreM B) → StoreM B
(m >>= k) s = continue (m s) k

abbrev pub ◌>>◌ : {A B : Type 0} → StoreM A → StoreM B → StoreM B
m >> n = m >>= λ _. n

abbrev pub result : {A : Type 0} → Result A → StoreM A
result r s = (r, s)

abbrev pub state : StoreM RowStore
state s = (ok s, s)

abbrev pub put : RowStore → StoreM (Unit {0})
put s' s = (ok tt, s')

abbrev pub check : Bool → StatusCode → StoreM (Unit {0})
check b code s = (if b then ok tt else err code, s)

-- A call of the page manager that the store owns.
unfoldable pub pages : {A : Type 0} → (PageManager → Outcome A) → StoreM A
pages call s = let (r, m) = call s.page_manager in (r, record s { page_manager = m })

unfoldable pub check_open : StoreM (Unit {0})
check_open s = check s.is_open internal_error s
