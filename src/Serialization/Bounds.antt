-- ===== src/Serialization/Bounds.antt =====
-- The readers of common/*_serialization.cpp on any input: each ends inside the buffer.
use database_management_syst.Prelude.{
  ℕ, zero, suc, ◌-◌, ◌≤◌, ◌≡◌, Bool, true, false, ltb, not, ◌==◌, length, arith,
}
use database_management_syst.Status.{Result, ok, invalid_argument}
use database_management_syst.Binary.{Bytes}
use database_management_syst.Binary.Bounds.{
  Within, Within-ok, Within-err, Within-bind, Within-require, Within-ensure, Within-if,
  read_uint32-Within, read_uint64-Within, read_int64-Within, read_bool-Within, read_string-Within,
}
use database_management_syst.Serialization.Values.{deserialize_value}
use database_management_syst.Serialization.Sequence.{read_sequence}
use database_management_syst.Serialization.Rows.{
  Row, max_tuple_values, deserialize_tuple, deserialize_row,
}
use database_management_syst.Schema.{TableDescriptor}
use database_management_syst.Serialization.Catalog.{
  read_default, deserialize_column_schema, deserialize_table_schema, deserialize_index_descriptor,
  deserialize_table_descriptor,
}

deserialize_value-Within :
    (bytes : Bytes) (off : ℕ) → Within bytes off (deserialize_value bytes off)
unfolding deserialize_value
deserialize_value-Within bytes off = Within-bind _ _ (read_uint32-Within bytes off) λ raw o1 lo hi.
    Within-if (raw == 0) (Within-ok _ _ (omega arith) hi) (
      Within-if (raw == 1)
        (Within-bind _ _ (read_int64-Within bytes o1) λ v o2 lo hi. Within-ok _ _ (omega arith) hi)
        (Within-if (raw == 2)
          (Within-bind _ _ (read_string-Within bytes o1)
            λ v o2 lo hi. Within-ok _ _ (omega arith) hi)
          (Within-if (raw == 3)
            (Within-bind _ _ (read_bool-Within bytes o1)
              λ v o2 lo hi. Within-ok _ _ (omega arith) hi)
            (Within-err invalid_argument))))

read_sequence-Within {ℓ} :
    {A : Type ℓ} (read : Bytes → ℕ → Result (A × ℕ)) (bytes : Bytes)
    → ((off : ℕ) → Within bytes off (read bytes off))
    → (n off : ℕ) → off ≤ length bytes
    → Within bytes off (read_sequence read n bytes off)
unfolding read_sequence
read_sequence-Within read bytes h zero off fits = Within-ok _ _ (omega arith) fits
read_sequence-Within read bytes h (suc n) off fits = Within-bind _ _ (h off) λ x o1 lo hi.
    Within-bind _ _ (read_sequence-Within read bytes h n o1 hi)
      λ xs o2 lo hi. Within-ok _ _ (omega arith) hi

deserialize_tuple-Within :
    (bytes : Bytes) (off : ℕ) → Within bytes off (deserialize_tuple bytes off)
unfolding deserialize_tuple
deserialize_tuple-Within bytes off = Within-bind _ _ (read_uint64-Within bytes off) λ n o1 lo hi.
    Within-require (not (ltb max_tuple_values n)) invalid_argument _
      λ _. read_sequence-Within deserialize_value bytes (deserialize_value-Within bytes) n o1 hi

deserialize_row-Within : (bytes : Bytes) (off : ℕ) → Within bytes off (deserialize_row bytes off)
unfolding deserialize_row
deserialize_row-Within bytes off = Within-bind _ _ (read_uint64-Within bytes off) λ rid o1 lo hi.
    Within-bind _ _ (read_bool-Within bytes o1) λ deleted o2 lo hi.
      Within-bind _ _ (read_uint64-Within bytes o2) λ size o3 lo hi. Within-ensure size _ λ fits.
        Within-bind _ _ (deserialize_tuple-Within bytes o3) λ t o4 lo hi.
          Within-require (o4 - o3 == size) invalid_argument _ λ _. Within-ok _ _ (omega arith) hi

read_default-Within :
    (has : Bool) (bytes : Bytes) (off : ℕ)
    → off ≤ length bytes
    → Within bytes off (read_default has bytes off)
unfolding read_default
read_default-Within false bytes off h = Within-ok _ _ (omega arith) h
read_default-Within true bytes off h =
    Within-bind _ _ (deserialize_value-Within bytes off)
      λ v o1 lo hi. Within-ok _ _ (omega arith) hi

deserialize_column_schema-Within :
    (bytes : Bytes) (off : ℕ) → Within bytes off (deserialize_column_schema bytes off)
unfolding deserialize_column_schema
deserialize_column_schema-Within bytes off =
    Within-bind _ _ (read_string-Within bytes off) λ name o1 lo hi.
      Within-bind _ _ (read_uint32-Within bytes o1) λ raw o2 lo hi.
        Within-bind _ _ (read_bool-Within bytes o2) λ not_null o3 lo hi.
          Within-bind _ _ (read_bool-Within bytes o3) λ indexed o4 lo hi.
            Within-bind _ _ (read_bool-Within bytes o4) λ has o5 lo hi.
              Within-bind _ _ (read_default-Within has bytes o5 hi)
                λ d o6 lo hi. Within-ok _ _ (omega arith) hi

deserialize_table_schema-Within :
    (bytes : Bytes) (off : ℕ) → Within bytes off (deserialize_table_schema bytes off)
unfolding deserialize_table_schema
deserialize_table_schema-Within bytes off =
    Within-bind _ _ (read_uint32-Within bytes off) λ n o1 lo hi.
      read_sequence-Within deserialize_column_schema bytes (deserialize_column_schema-Within bytes)
        n o1 hi

deserialize_index_descriptor-Within :
    (bytes : Bytes) (off : ℕ) → Within bytes off (deserialize_index_descriptor bytes off)
unfolding deserialize_index_descriptor
deserialize_index_descriptor-Within bytes off =
    Within-bind _ _ (read_string-Within bytes off) λ name o1 lo hi.
      Within-bind _ _ (read_string-Within bytes o1) λ table o2 lo hi.
        Within-bind _ _ (read_string-Within bytes o2) λ column o3 lo hi.
          Within-bind _ _ (read_string-Within bytes o3) λ path o4 lo hi.
            Within-bind _ _ (read_bool-Within bytes o4)
              λ unique o5 lo hi. Within-ok _ _ (omega arith) hi

deserialize_table_descriptor-Within :
    (bytes : Bytes) (off : ℕ) → Within bytes off (deserialize_table_descriptor bytes off)
unfolding deserialize_table_descriptor
deserialize_table_descriptor-Within bytes off =
    Within-bind _ _ (read_string-Within bytes off) λ database o1 lo hi.
      Within-bind _ _ (read_string-Within bytes o1) λ table o2 lo hi.
        Within-bind _ _ (read_string-Within bytes o2) λ file o3 lo hi.
          Within-bind _ _ (read_string-Within bytes o3) λ dir o4 lo hi.
            Within-bind _ _ (deserialize_table_schema-Within bytes o4) λ schema o5 lo hi.
              Within-bind _ _ (read_uint32-Within bytes o5) λ n o6 lo hi.
                Within-bind _ _
                  (read_sequence-Within deserialize_index_descriptor bytes
                    (deserialize_index_descriptor-Within bytes) n o6 hi)
                  λ indexes o7 lo hi. Within-ok _ _ (omega arith) hi

-- On any bytes and any offset, a row that is read successfully ends at or behind that offset and
-- inside the buffer.
pub deserialize_row_within :
    (bytes : Bytes) (off next : ℕ) (row : Row)
    → deserialize_row bytes off ≡ ok (row, next)
    → (off ≤ next) × (next ≤ length bytes)
deserialize_row_within bytes off next row = (deserialize_row-Within bytes off).bounds row next

-- On any bytes and any offset, table metadata that is read successfully ends at or behind that offset
-- and inside the buffer.
pub deserialize_table_descriptor_within :
    (bytes : Bytes) (off next : ℕ) (desc : TableDescriptor)
    → deserialize_table_descriptor bytes off ≡ ok (desc, next)
    → (off ≤ next) × (next ≤ length bytes)
deserialize_table_descriptor_within bytes off next desc =
    (deserialize_table_descriptor-Within bytes off).bounds desc next
