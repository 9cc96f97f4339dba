-- ===== src/Indexes.antt =====
-- index/index_manager.cpp: the open indexes by their names. The B*-tree of a file is an interface.
pub mod Sharing
mod Examples
use database_management_syst.Prelude.{
  ℕ, List, [], ◌∷◌, Bool, true, false, not, ◌&&◌, ◌||◌, if◌then◌else◌, Option, none, some,
}
use database_management_syst.Prelude.Sets.{is_empty}
use database_management_syst.Status.{Result, ok, err, invalid_argument, not_found, require}
use database_management_syst.Status
use database_management_syst.Binary.{Bytes}
use database_management_syst.Value.{Value, ValueType, eq_bytes}
use database_management_syst.Schema.{IndexDescriptor}
use database_management_syst.Execution.Engine.{EngineM, ◌>>=◌, return, lift}

-- The bounds of a range of keys; `none` is an open end.
pub record KeyRange : Type 0 where
  pub low : Option Value
  pub high : Option Value
  pub include_low : Bool
  pub include_high : Bool

-- What IndexManager calls of BStarTree: its sizes for a key type, and the tree in a file. `S` is the
-- state of all trees and their files.
pub record TreeOps (S : Type 0) : Type 0 where
  pub file_exists : Bytes → EngineM S Bool
  pub max_encoded_key_size : ValueType → ℕ → Result ℕ
  pub min_degree_for_page : ℕ → ℕ → Result ℕ
  pub open_tree : Bytes → ValueType → ℕ → EngineM S (Unit {0})
  pub tree_insert : Bytes → Value → ℕ → EngineM S (Unit {0})
  pub tree_delete : Bytes → Value → EngineM S (Unit {0})
  pub tree_find : Bytes → Value → EngineM S (Option ℕ)
  pub tree_range_search : Bytes → KeyRange → EngineM S (List ℕ)

-- `opened_indexes_` has for each name the file of its tree.
pub record IndexManager (S : Type 0) : Type 0 where
  pub page_size : ℕ
  pub max_variable_key_payload_bytes : ℕ
  pub opened_indexes : List (Bytes × Bytes)
  pub trees : S

unfoldable pub validate_descriptor : IndexDescriptor → Result (Unit {0})
unfolding is_empty
validate_descriptor desc =
    require
      (not (
        is_empty desc.name
        || is_empty desc.table_name
        || is_empty desc.column_name
        || is_empty desc.file_path))
      invalid_argument

unfoldable pub opened_file : Bytes → List (Bytes × Bytes) → Option Bytes
unfolding eq_bytes
opened_file name [] = none
opened_file name ((first, file) ∷ opened) =
    let rest = opened_file name opened in if eq_bytes first name then some file else rest

abbrev pub with_trees : {S A : Type 0} → IndexManager S → Result A × S → Result A × IndexManager S
with_trees m (r, s) = (r, record m { trees = s })

module _ {S : Type 0} (ops : TreeOps S) where
  abbrev pub IndexM : Type 0 → Type 0
  IndexM A = EngineM (IndexManager S) A

  abbrev pub on_trees : {A : Type 0} → EngineM S A → IndexM A
  on_trees call m = with_trees m (call m.trees)

  unfoldable pub remember_index : Bytes → Bytes → IndexM (Unit {0})
  remember_index name file m =
      (ok tt, record m { opened_indexes = (name, file) ∷ m.opened_indexes })

  unfoldable pub open_tree_file : IndexDescriptor → ValueType → Bool → IndexM (Unit {0})
  open_tree_file desc key_type create_if_missing m =
      (do
        exists ← on_trees (ops.file_exists desc.file_path)
        found ← lift (require (create_if_missing || exists) not_found)
        key_size ← lift (ops.max_encoded_key_size key_type m.max_variable_key_payload_bytes)
        degree ← lift (ops.min_degree_for_page m.page_size key_size)
        on_trees (ops.open_tree desc.file_path key_type degree))
        m

  -- The tree of a file is opened and kept under the name.
  unfoldable pub open_file : IndexDescriptor → ValueType → Bool → IndexM (Unit {0})
  unfolding open_tree_file remember_index
  open_file desc key_type create_if_missing = do
    opened ← open_tree_file desc key_type create_if_missing
    remember_index desc.name desc.file_path

  unfoldable pub register_valid :
      Option Bytes → IndexDescriptor → ValueType → Bool → IndexM (Unit {0})
  unfolding open_file
  register_valid (some file) desc key_type create_if_missing = return tt
  register_valid none desc key_type create_if_missing = open_file desc key_type create_if_missing

  unfoldable pub register_index : IndexDescriptor → ValueType → Bool → IndexM (Unit {0})
  unfolding validate_descriptor opened_file register_valid
  register_index desc key_type create_if_missing m =
      (do
        valid ← lift (validate_descriptor desc)
        register_valid (opened_file desc.name m.opened_indexes) desc key_type create_if_missing)
        m

  unfoldable pub create_index : IndexDescriptor → ValueType → IndexM (Unit {0})
  unfolding register_index
  create_index desc key_type = register_index desc key_type true

  unfoldable pub open_index : IndexDescriptor → ValueType → IndexM (Unit {0})
  unfolding register_index
  open_index desc key_type = register_index desc key_type false

  -- A call on the tree of an open index.
  unfoldable pub on_index : {A : Type 0} → Option Bytes → (Bytes → EngineM S A) → IndexM A
  on_index none call m = (err not_found, m)
  on_index (some file) call m = with_trees m (call file m.trees)

  unfoldable pub insert_key : Bytes → Value → ℕ → IndexM (Unit {0})
  unfolding opened_file on_index
  insert_key name key rid m =
      on_index (opened_file name m.opened_indexes) (λ file. ops.tree_insert file key rid) m

  unfoldable pub delete_key : Bytes → Value → IndexM (Unit {0})
  unfolding opened_file on_index
  delete_key name key m =
      on_index (opened_file name m.opened_indexes) (λ file. ops.tree_delete file key) m

  unfoldable pub find_key : Bytes → Value → IndexM (Option ℕ)
  unfolding opened_file on_index
  find_key name key m =
      on_index (opened_file name m.opened_indexes) (λ file. ops.tree_find file key) m

  unfoldable pub range_search : Bytes → KeyRange → IndexM (List ℕ)
  unfolding opened_file on_index
  range_search name range m =
      on_index (opened_file name m.opened_indexes) (λ file. ops.tree_range_search file range) m
