-- ===== src/Indexes/Examples.antt =====
-- Two databases with a table of users each.
use database_management_syst.Prelude.{ℕ, ◌≡◌, refl, List, [], ◌∷◌, false, true, none}
use database_management_syst.Prelude.Int.{pos}
use database_management_syst.Prelude.Text.{codes}
use database_management_syst.Status.{ok}
use database_management_syst.Binary.{Bytes}
use database_management_syst.Value.{int_type, int}
use database_management_syst.Schema.{IndexDescriptor}
use database_management_syst.Indexes.{
  TreeOps, IndexManager, with_trees, create_index, insert_key, find_key, opened_file,
}
use database_management_syst.Indexes.Sharing.{create_index_shared}

-- Trees that remember the files and row ids of the insertions.
abbrev Insertions : Type 0
Insertions = List (Bytes × ℕ)

abbrev recorder : TreeOps Insertions
recorder = record {
  file_exists = λ file s. (ok false, s);
  max_encoded_key_size = λ type payload. ok 8;
  min_degree_for_page = λ page_size key_size. ok 2;
  open_tree = λ file type degree s. (ok tt, s);
  tree_insert = λ file key rid s. (ok tt, (file, rid) ∷ s);
  tree_delete = λ file key s. (ok tt, s);
  tree_find = λ file key s. (ok none, s);
  tree_range_search = λ file range s. (ok [], s);
}

abbrev index_in : Bytes → IndexDescriptor
index_in file = record {
  name = codes "users_id_idx";
  table_name = codes "users";
  column_name = codes "id";
  file_path = file;
  unique = true;
}

abbrev fresh : IndexManager Insertions
fresh = record {
  page_size = 4096;
  max_variable_key_payload_bytes = 256;
  opened_indexes = [];
  trees = [];
}

abbrev first_open : IndexManager Insertions
first_open = record fresh { opened_indexes = (codes "users_id_idx", codes "d1.idx") ∷ [] }

create_index_shared_example :
    (first_open ≡ first_open)
    × (insert_key recorder (codes "users_id_idx") (int (pos 5)) 1 first_open
        ≡ with_trees first_open (ok tt, (codes "d1.idx", 1) ∷ []))
    × (find_key recorder (codes "users_id_idx") (int (pos 5)) first_open
        ≡ with_trees first_open (ok none, []))
unfolding create_index opened_file
create_index_shared_example =
    create_index_shared recorder (index_in (codes "d1.idx")) (index_in (codes "d2.idx")) int_type
      int_type fresh first_open first_open (int (pos 5)) 1 refl refl refl refl
