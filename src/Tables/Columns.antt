-- ===== src/Tables/Columns.antt =====
-- The values of a prepared tuple, column by column.
use database_management_syst.Prelude.{
  ℕ, zero, suc, ◌≡◌, refl, subst, ◌⊎◌, inl, inr, [], ◌∷◌, true, Bool-cases, Option, none, some,
  get_elem?, length, ltb, arith,
}
use database_management_syst.Prelude.Sets.{is_empty}
use database_management_syst.Status.{ok}
use database_management_syst.Value.{
  ValueType, int_type, string_type, bool_type, Value, null, int, string, bool, value_type, is_null,
}
use database_management_syst.Schema.{
  ColumnType, int_column, string_column, bool_column, unknown, ColumnSchema, TableSchema,
}
use database_management_syst.Serialization.Rows.{Tuple}
use database_management_syst.Tables.{
  check_type, validate_value, missing_value, fill_columns, prepare_tuple,
}
use database_management_syst.Tables.Prepared.{ok_parts, ok_same, missing_value-valid}

abbrev pub column_value_type : ColumnType → Option ValueType
column_value_type int_column = some int_type
column_value_type string_column = some string_type
column_value_type bool_column = some bool_type
column_value_type (unknown n) = none

-- Null, or of that type.
abbrev pub Fits : ValueType → Value → Type 0
Fits type v = (is_null v ≡ true) ⊎ (value_type v ≡ type)

check_type-Fits :
    (column : ColumnType) (type : ValueType) (v : Value)
    → column_value_type column ≡ some type
    → check_type column v ≡ ok tt
    → Fits type v
unfolding check_type value_type is_null
check_type-Fits column type null e h = inl refl
check_type-Fits int_column type (int v) e h = inr (ground (arith, e))
check_type-Fits string_column type (string v) e h = inr (ground (arith, e))
check_type-Fits bool_column type (bool v) e h = inr (ground (arith, e))
check_type-Fits int_column type (string v) e h = absurd (ground (arith, h))
check_type-Fits int_column type (bool v) e h = absurd (ground (arith, h))
check_type-Fits string_column type (int v) e h = absurd (ground (arith, h))
check_type-Fits string_column type (bool v) e h = absurd (ground (arith, h))
check_type-Fits bool_column type (int v) e h = absurd (ground (arith, h))
check_type-Fits bool_column type (string v) e h = absurd (ground (arith, h))
check_type-Fits (unknown n) type (int v) e h = absurd (ground (arith, e))
check_type-Fits (unknown n) type (string v) e h = absurd (ground (arith, e))
check_type-Fits (unknown n) type (bool v) e h = absurd (ground (arith, e))

pub validate_value-Fits :
    (column : ColumnSchema) (type : ValueType) (v : Value)
    → column_value_type column.type ≡ some type
    → validate_value v column ≡ ok tt
    → Fits type v
unfolding validate_value is_null
validate_value-Fits column type null e h = inl refl
validate_value-Fits column type (int v) e h = check_type-Fits column.type type (int v) e h
validate_value-Fits column type (string v) e h = check_type-Fits column.type type (string v) e h
validate_value-Fits column type (bool v) e h = check_type-Fits column.type type (bool v) e h

-- The value at a column, which the check of the column accepts.
record HasColumn (t : Tuple) (i : ℕ) (column : ColumnSchema) : Type 0 where
  value : Value
  found : get_elem? t i ≡ some value
  valid : validate_value value column ≡ ok tt

HasColumn-cons :
    (first : ColumnSchema) (value : Value) (rest : Tuple) (columns : TableSchema) (i : ℕ)
    (column : ColumnSchema)
    → validate_value value first ≡ ok tt
    → ((k : ℕ) → get_elem? columns k ≡ some column → HasColumn rest k column)
    → get_elem? (first ∷ columns) i ≡ some column
    → HasColumn (value ∷ rest) i column
HasColumn-cons first value rest columns zero column valid rec at = record {
  value = value;
  found = refl;
  valid = ground (arith, at, valid);
}
HasColumn-cons first value rest columns (suc i) column valid rec at =
    let h = rec i at in record { value = h.value; found = h.found; valid = h.valid }

filled_column :
    (columns : TableSchema) (input t : Tuple) (i : ℕ) (column : ColumnSchema)
    → fill_columns columns input ≡ ok t
    → get_elem? columns i ≡ some column
    → HasColumn t i column
unfolding fill_columns
filled_column [] input t i column e at = absurd (ground (arith, at))
filled_column (first ∷ columns) [] t i column e at =
    let (value, (missing, e1)) = ok_parts (missing_value first) _ e in
    let (rest, (filled, e2)) = ok_parts (fill_columns columns []) _ e1 in
    subst (λ t. HasColumn t i column) (ok_same (value ∷ rest) t e2)
      (HasColumn-cons first value rest columns i column (missing_value-valid first value missing)
        (λ k. filled_column columns [] rest k column filled) at)
filled_column (first ∷ columns) (value ∷ values) t i column e at =
    let (done, (valid, e1)) = ok_parts (validate_value value first) _ e in
    let (rest, (filled, e2)) = ok_parts (fill_columns columns values) _ e1 in
    subst (λ t. HasColumn t i column) (ok_same (value ∷ rest) t e2)
      (HasColumn-cons first value rest columns i column valid
        (λ k. filled_column columns values rest k column filled) at)

-- A prepared tuple has, at each column of a known type, null or a value of that type.
pub prepared_column :
    (schema : TableSchema) (input t : Tuple) (i : ℕ) (column : ColumnSchema) (type : ValueType)
    → prepare_tuple schema input ≡ ok t
    → get_elem? schema i ≡ some column
    → column_value_type column.type ≡ some type
    → (v : Value) × (get_elem? t i ≡ some v) × Fits type v
unfolding prepare_tuple is_empty
prepared_column [] input t i column type e at known = absurd (ground (arith, at))
prepared_column (first ∷ columns) input t i column type e at known =
    elim (Bool-cases (ltb (length (first ∷ columns)) (length input))) [
      | inl long ↦ absurd (ground (arith, e, long))
      | inr fits ↦
          let h = filled_column (first ∷ columns) input t i column (ground (arith, e, fits)) at in
          (h.value, h.found, validate_value-Fits column type h.value known h.valid)
    ]
