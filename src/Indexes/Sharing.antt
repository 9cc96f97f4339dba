-- ===== src/Indexes/Sharing.antt =====
-- Indexes of one name share the tree that was opened first.
use database_management_syst.Prelude.{ℕ, ◌≡◌, refl, sym, ap, ◌∷◌, Bool, true, none, some}
use database_management_syst.Status.{Result, ok, err}
use database_management_syst.Binary.{Bytes}
use database_management_syst.Value.{Value, ValueType}
use database_management_syst.Value.Order.{eq_bytes_refl}
use database_management_syst.Schema.{IndexDescriptor}
use database_management_syst.Versions.Revert.{then_do}
use database_management_syst.Indexes.{
  TreeOps, IndexManager, validate_descriptor, opened_file, with_trees, remember_index,
  open_tree_file, open_file, register_valid, register_index, create_index, on_index, insert_key,
  find_key,
}

module _ {S : Type 0} (ops : TreeOps S) where
  -- A tree that is opened is kept under its name.
  opened_file-open_file :
      (desc : IndexDescriptor) (key_type : ValueType) (create_if_missing : Bool)
      (m m' : IndexManager S)
      → open_file ops desc key_type create_if_missing m ≡ (ok tt, m')
      → opened_file desc.name m'.opened_indexes ≡ some desc.file_path
  unfolding open_file remember_index opened_file
  opened_file-open_file desc key_type create_if_missing m m' h =
      go (open_tree_file ops desc key_type create_if_missing m) h
    where
      go :
          (outcome : Result (Unit {0}) × IndexManager S)
          → then_do outcome (λ opened. remember_index ops desc.name desc.file_path) ≡ (ok tt, m')
          → opened_file desc.name m'.opened_indexes ≡ some desc.file_path
      go (ok u, s) h =
          let kept : m'.opened_indexes ≡ (desc.name, desc.file_path) ∷ s.opened_indexes =
            ap (λ (r : Result (Unit {0}) × IndexManager S). r.1.opened_indexes) (sym h) in
          rw (kept, eq_bytes_refl desc.name) refl
      go (err code, s) h = absurd (cc)

  registered :
      (desc : IndexDescriptor) (key_type : ValueType) (create_if_missing : Bool)
      (m m' : IndexManager S)
      → register_index ops desc key_type create_if_missing m ≡ (ok tt, m')
      → opened_file desc.name m.opened_indexes ≡ none
      → opened_file desc.name m'.opened_indexes ≡ some desc.file_path
  unfolding register_index register_valid
  registered desc key_type create_if_missing m m' h fresh =
      let (valid, s1, h1) = go (validate_descriptor desc) (rw fresh at h) in
      opened_file-open_file desc key_type create_if_missing m m' h1
    where
      go :
          (r : Result (Unit {0}))
          → then_do (r, m) (λ valid. register_valid ops none desc key_type create_if_missing)
            ≡ (ok tt, m')
          → Unit {0}
            × IndexManager S
            × (open_file ops desc key_type create_if_missing m ≡ (ok tt, m'))
      go (ok u) h = (u, m, h)
      go (err code) h = absurd (cc)

  -- Nothing is opened for a name that is open.
  registered_again :
      (desc : IndexDescriptor) (key_type : ValueType) (create_if_missing : Bool) (file : Bytes)
      (m m' : IndexManager S)
      → register_index ops desc key_type create_if_missing m ≡ (ok tt, m')
      → opened_file desc.name m.opened_indexes ≡ some file
      → m' ≡ m
  unfolding register_index register_valid
  registered_again desc key_type create_if_missing file m m' h known =
      go (validate_descriptor desc) (rw known at h)
    where
      go :
          (r : Result (Unit {0}))
          → then_do (r, m) (λ valid. register_valid ops (some file) desc key_type create_if_missing)
            ≡ (ok tt, m')
          → m' ≡ m
      go (ok u) h = ap (λ (r : Result (Unit {0}) × IndexManager S). r.1) (sym h)
      go (err code) h = absurd (cc)

  -- If two indexes of one name, under which none is open, are created in turn, whatever tables,
  -- columns and files they are of, the creation of the second changes nothing, and what is
  -- inserted or looked for in the second one goes to the tree in the first one's file.
  pub create_index_shared :
      (first second : IndexDescriptor) (type type' : ValueType) (m m' m'' : IndexManager S)
      (key : Value) (rid : ℕ)
      → opened_file first.name m.opened_indexes ≡ none
      → create_index ops first type m ≡ (ok tt, m')
      → second.name ≡ first.name
      → create_index ops second type' m' ≡ (ok tt, m'')
      → (m'' ≡ m')
        × (insert_key ops second.name key rid m'
            ≡ with_trees m' (ops.tree_insert first.file_path key rid m'.trees))
        × (find_key ops second.name key m'
            ≡ with_trees m' (ops.tree_find first.file_path key m'.trees))
  unfolding create_index insert_key find_key on_index
  create_index_shared first second type type' m m' m'' key rid fresh created same again =
      let known : opened_file second.name m'.opened_indexes ≡ some first.file_path =
        rw same (registered first type true m m' created fresh) in
      (
        registered_again second type' true first.file_path m' m'' again known,
        rw known refl,
        rw known refl,
      )
