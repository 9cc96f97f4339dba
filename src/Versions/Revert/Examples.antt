-- ===== src/Versions/Revert/Examples.antt =====
-- A table of two rows in memory as an engine, brought back to a time.
use database_management_syst.Prelude.{◌≡◌, refl, List, [], ◌∷◌, ℕ, Option, some, none}
use database_management_syst.Prelude.Int.{pos}
use database_management_syst.Prelude.Text.{codes}
use database_management_syst.Status.{Result, ok, err, not_found, already_exists}
use database_management_syst.Value.{int, eq_bytes}
use database_management_syst.Serialization.Rows.{Tuple}
use database_management_syst.Versions.{VersionRecord, insert, update}
use database_management_syst.Versions.Revert.{
  EngineOps, is_after, load_records, revert_table_to_timestamp,
}
use database_management_syst.Versions.Revert.Views.{
  View, put, start, change, change_views, inverses,
}
use database_management_syst.Versions.Revert.Undo.{change_each, revert_table_to_timestamp_lem}

-- The rows that can be seen, and the log.
abbrev Memory : Type 0
Memory = View × List VersionRecord

abbrev if_there : Option Tuple → Memory → View → Result (Unit {0}) × Memory
if_there none s after = (err not_found, s)
if_there (some t) (view, log) after = (ok tt, (after, log))

abbrev if_missing : Option Tuple → Memory → View → Result (Unit {0}) × Memory
if_missing (some t) s after = (err already_exists, s)
if_missing none (view, log) after = (ok tt, (after, log))

abbrev memory_engine : EngineOps Memory
memory_engine = record {
  open_table = λ db table s. (ok tt, s);
  read_version_log = λ db table s. (ok s.1, s);
  delete_internal = λ db table rid logged s. if_there (s.0 rid) s (put s.0 rid none);
  restore_internal = λ db table rid t logged s. if_missing (s.0 rid) s (put s.0 rid (some t));
  update_internal = λ db table rid t logged s. if_there (s.0 rid) s (put s.0 rid (some t));
}

abbrev tuple_of : ℕ → Tuple
tuple_of n = int (pos n) ∷ []

abbrev no_rows : View
no_rows rid = none

-- Row 1 came at time 10; then it was changed, and row 2 came.
abbrev first_insert : VersionRecord
first_insert = record {
  timestamp_ms = pos 10;
  table_name = codes "t";
  rid = 1;
  op = insert;
  before = [];
  after = tuple_of 7;
}

abbrev first_update : VersionRecord
first_update = record {
  timestamp_ms = pos 20;
  table_name = codes "t";
  rid = 1;
  op = update;
  before = tuple_of 7;
  after = tuple_of 8;
}

abbrev second_insert : VersionRecord
second_insert = record {
  timestamp_ms = pos 30;
  table_name = codes "t";
  rid = 2;
  op = insert;
  before = [];
  after = tuple_of 9;
}

abbrev view_then : View
view_then = put no_rows 1 (some (tuple_of 7))

abbrev view_changed : View
view_changed = put view_then 1 (some (tuple_of 8))

abbrev view_now : View
view_now = put view_changed 2 (some (tuple_of 9))

abbrev records : List VersionRecord
records = first_insert ∷ first_update ∷ second_insert ∷ []

revert_table_to_timestamp_lem_example :
    (revert_table_to_timestamp memory_engine (codes "d") (codes "t") (pos 15) (view_now, records)
      ≡ change_each memory_engine
          (codes "d")
          (codes "t")
          (inverses (first_update ∷ second_insert ∷ []))
          (view_now, records))
    × (change_views (inverses (first_update ∷ second_insert ∷ [])) view_now ≡ some view_then)
unfolding load_records is_after eq_bytes
revert_table_to_timestamp_lem_example =
    revert_table_to_timestamp_lem memory_engine (codes "d") (codes "t") (pos 15) (view_now, records)
      (view_now, records) (first_insert ∷ []) (first_update ∷ second_insert ∷ []) view_then view_now
      refl (refl, tt) (refl, (refl, tt))
      (change view_then view_changed view_now first_update (second_insert ∷ []) (refl, refl)
        (change view_changed view_now view_now second_insert [] (refl, refl) (start view_now)))

-- The same again: row 2 is not there any more, since a revert leaves the log as it is.
reverted_again :
    revert_table_to_timestamp memory_engine (codes "d") (codes "t") (pos 15) (view_then, records)
    ≡ (err not_found, (view_then, records))
unfolding revert_table_to_timestamp is_after eq_bytes
reverted_again = refl
