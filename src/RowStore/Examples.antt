-- ===== src/RowStore/Examples.antt =====
-- The row store at concrete rows.
use database_management_syst.Prelude.{
  ◌-◌, ◌≡◌, ◌<◌, length, replicate, refl, List, [], ◌∷◌, ◌++◌, true, false, some, ◌==◌,
  if◌then◌else◌, replicate, All, arith,
}
use database_management_syst.Prelude.Int.{pos}
use database_management_syst.Status.{ok, err, not_found, invalid_argument}
use database_management_syst.Binary.{le_bytes}
use database_management_syst.Binary.Format.{
  uint32_bytes, uint64_bytes, int64_bytes, bool_bytes, string_bytes,
}
use database_management_syst.Value.{int, null}
use database_management_syst.Serialization.Sequence.{sequence_bytes}
use database_management_syst.Serialization.Values.RoundTrip.{value_bytes}
use database_management_syst.Serialization.Rows.{Row, Tuple}
use database_management_syst.Serialization.Rows.RoundTrip.{tuple_bytes, row_bytes}
use database_management_syst.Pages.{make_header}
use database_management_syst.RowStore.Format.Entries.{IsStorableEntry, length-entry}
use database_management_syst.RowStore.Format.Batches.{IsSmallEntry}
use database_management_syst.RowStore.State.{RowStore}
use database_management_syst.RowStore.Paging.{load_all_rows}
use database_management_syst.RowStore.Rewrite.{rewrite_all_rows}
use database_management_syst.RowStore.AllRows.{IsReady, Rewrites, rewrite_all_rows_lem}
use database_management_syst.RowStore.Methods.{max_id, get, restore, update, delete}
use database_management_syst.RowStore.Lookup.{first_with}
use database_management_syst.RowStore.Refusals.{is_large, restore_too_large}
use database_management_syst.RowStore.Restoring.{undeleted, get-restore}
use database_management_syst.RowStore.Refinement.{
  Stores, load_all_rows-rewrite_all_rows, visible, get_lem, get-update, get-delete,
}

abbrev first_row : Row
first_row = record { rid = 0; tuple = int (pos 3) ∷ []; deleted = true }

abbrev second_row : Row
second_row = record { rid = 1; tuple = null ∷ []; deleted = false }

abbrev two_rows : List Row
two_rows = first_row ∷ second_row ∷ []

-- The metadata page alone.
abbrev blank : RowStore
blank = record {
  file_path = b's' ∷ [];
  page_size = 128;
  page_manager = record {
    file_path = b's' ∷ [];
    page_size = 128;
    file = some (make_header 128 1 ++ replicate 128 0);
    is_open = true;
    page_count = 1;
  };
  is_open = true;
  next_row_id = 2;
  data_page_count = 0;
  active_row_count = 1;
}

blank-IsReady : IsReady blank
unfolding make_header le_bytes
blank-IsReady = record {
  opened = refl;
  serves = record {
    formed = record { opened = refl; sized = omega arith; headed = refl; positive = omega arith };
    sized = refl;
    counted = refl;
  };
  small = omega arith;
  large = omega arith;
}

abbrev changed : Row
changed = record { rid = 1; tuple = int (pos 9) ∷ []; deleted = false }

abbrev removed : Row
removed = record { rid = 1; tuple = null ∷ []; deleted = true }

storable : All IsStorableEntry (changed ∷ removed ∷ two_rows)
unfolding row_bytes tuple_bytes value_bytes sequence_bytes uint32_bytes uint64_bytes int64_bytes
    bool_bytes string_bytes le_bytes
storable = omega arith

small : All (IsSmallEntry 128) (changed ∷ removed ∷ two_rows)
unfolding row_bytes tuple_bytes value_bytes sequence_bytes uint32_bytes uint64_bytes int64_bytes
    bool_bytes string_bytes le_bytes
small = omega (
  arith,
  length-entry changed storable.0,
  length-entry removed storable.1.0,
  length-entry first_row storable.1.1.0,
  length-entry second_row storable.1.1.1.0,
)

load_all_rows-rewrite_all_rows_example :
    ((rewrite_all_rows two_rows blank).0 ≡ ok tt)
    × ((load_all_rows (rewrite_all_rows two_rows blank).1).0 ≡ ok two_rows)
load_all_rows-rewrite_all_rows_example =
    load_all_rows-rewrite_all_rows blank two_rows blank-IsReady storable.1.1 small.1.1 (omega arith)

filled : Rewrites blank two_rows (rewrite_all_rows two_rows blank)
filled = rewrite_all_rows_lem blank two_rows blank-IsReady storable.1.1 small.1.1 (omega arith)

-- The store that rewriting leaves.
abbrev stored : RowStore
stored = record blank { page_manager = filled.manager; data_page_count = filled.count }

stored-Stores : Stores stored two_rows
stored-Stores = record {
  represents = filled.represents;
  storable = storable.1.1;
  small = small.1.1;
}

get_lem_example : get 1 stored ≡ (visible (first_with two_rows 1), stored)
get_lem_example = get_lem stored two_rows 1 filled.represents

get-update_example :
    ((update 1 (int (pos 9) ∷ []) stored).0 ≡ ok tt)
    × ((get 1 (update 1 (int (pos 9) ∷ []) stored).1).0
        ≡ (if 1 == 1 then ok changed else (get 1 stored).0))
unfolding first_with
get-update_example =
    get-update stored two_rows 1 (int (pos 9) ∷ []) second_row 1 stored-Stores refl refl storable.0
      small.0 (omega (arith, filled.bounded))

get-delete_example :
    ((delete 1 stored).0 ≡ ok tt)
    × ((delete 1 stored).1.active_row_count ≡ 1 - 1)
    × ((get 1 (delete 1 stored).1).0 ≡ (if 1 == 1 then err not_found else (get 1 stored).0))
unfolding first_with
get-delete_example =
    get-delete stored two_rows 1 second_row 1 stored-Stores refl refl storable.1.0 small.1.0
      (omega (arith, filled.bounded)) (omega arith) (omega arith)

undeleted-IsStorableEntry : IsStorableEntry (undeleted first_row)
unfolding row_bytes tuple_bytes value_bytes sequence_bytes uint32_bytes uint64_bytes int64_bytes
    bool_bytes string_bytes le_bytes
undeleted-IsStorableEntry = omega arith

undeleted-length : length (row_bytes (undeleted first_row)) ≡ 37
unfolding row_bytes tuple_bytes value_bytes sequence_bytes uint32_bytes uint64_bytes int64_bytes
    bool_bytes string_bytes le_bytes
undeleted-length = refl

get-restore_example :
    ((restore first_row stored).0 ≡ ok tt)
    × ((get 0 (restore first_row stored).1).0
        ≡ (if 0 == 0 then ok (undeleted first_row) else (get 0 stored).0))
    × (0 < (restore first_row stored).1.next_row_id)
get-restore_example =
    get-restore stored two_rows first_row 0 stored-Stores undeleted-IsStorableEntry
      (omega
        (arith, length-entry (undeleted first_row) undeleted-IsStorableEntry, undeleted-length))
      (omega arith) (omega (arith, filled.bounded))

abbrev long_tuple : Tuple
long_tuple = replicate 16 (int (pos 1))

abbrev long_row : Row
long_row = record { rid = 1; tuple = long_tuple; deleted = false }

abbrev new_long_row : Row
new_long_row = record { rid = 5; tuple = long_tuple; deleted = true }

long_rows : All IsStorableEntry (long_row ∷ undeleted new_long_row ∷ [])
unfolding row_bytes tuple_bytes value_bytes sequence_bytes uint32_bytes uint64_bytes int64_bytes
    bool_bytes string_bytes le_bytes
long_rows = omega arith

long_lengths :
    (128 < length (row_bytes long_row)) × (128 < length (row_bytes (undeleted new_long_row)))
unfolding row_bytes tuple_bytes value_bytes sequence_bytes uint32_bytes uint64_bytes int64_bytes
    bool_bytes string_bytes le_bytes
long_lengths = omega arith

long_row-large : is_large 128 long_row ≡ true
long_row-large = ground (arith, length-entry long_row long_rows.0, long_lengths.0)

new_long_row-large : is_large 128 (undeleted new_long_row) ≡ true
new_long_row-large =
    ground (arith, length-entry (undeleted new_long_row) long_rows.1.0, long_lengths.1)

restore_too_large_example :
    restore new_long_row stored
    ≡ (err invalid_argument, record stored { active_row_count = 2; next_row_id = 6 })
unfolding first_with max_id
restore_too_large_example =
    restore_too_large stored two_rows new_long_row filled.represents refl new_long_row-large
