-- ===== src/Tables/Prepared.antt =====
-- What a prepared tuple is.
use database_management_syst.Prelude.{
  suc, ◌≤◌, ◌≡◌, refl, ap, subst, Option-cases, [], ◌∷◌, take, Bool-cases, inl, inr, if◌then◌else◌,
  ltb, none, some, length, arith,
}
use database_management_syst.Prelude.Sets.{is_empty}
use database_management_syst.Status.{Result, ok, err, invalid_argument, ◌>>=◌, ◌>>◌}
use database_management_syst.Value.{Value, null}
use database_management_syst.Schema.{ColumnSchema, TableSchema}
use database_management_syst.Serialization.Rows.{Tuple}
use database_management_syst.Tables.{validate_value, missing_value, fill_columns, prepare_tuple}

-- A chain of results succeeds only if both parts do.
pub ok_parts {ℓ κ} :
    {A : Type ℓ} {B : Type κ} (m : Result A) (k : A → Result B) {b : B}
    → (m >>= k) ≡ ok b
    → (a : A) × ((m ≡ ok a) × (k a ≡ ok b))
ok_parts (ok a) k e = (a, (refl, e))
ok_parts (err code) k e = absurd (ground (arith, e))

ok_or {ℓ} : {A : Type ℓ} → A → Result A → A
ok_or d (ok a) = a
ok_or d (err code) = d

pub ok_same {ℓ} : {A : Type ℓ} (a b : A) → ok a ≡ ok b → a ≡ b
unfolding ok_or
ok_same a b e = ap (ok_or a) e

pub missing_value-valid :
    (column : ColumnSchema) (v : Value)
    → missing_value column ≡ ok v
    → validate_value v column ≡ ok tt
unfolding missing_value validate_value
missing_value-valid column v e = elim (Option-cases column.default_value) [
  | inl none_given ↦ elim (Bool-cases column.not_null) [
    | inl required ↦ absurd (ground (arith, e, none_given, required))
    | inr optional ↦
        let same : null ≡ v = ok_same null v (ground (arith, e, none_given, optional)) in
        subst (λ v. validate_value v column ≡ ok tt) same (ground (arith, optional))
  ]
  | inr (candidate, given) ↦
      let (done, (valid, same)) =
        ok_parts (validate_value candidate column) (λ _. ok candidate)
          (subst
            (λ o.
              elim o as (λ _. Result Value) [
                | none ↦ (if column.not_null then err invalid_argument else ok null)
                | some c ↦ validate_value c column >> ok c
              ]
              ≡ ok v)
            given e) in
      subst (λ v. validate_value v column ≡ ok tt) (ok_same candidate v same) valid
]

abbrev IsFilled : TableSchema → Tuple → Tuple → Type 0
IsFilled columns input t =
    (length t ≡ length columns) × (take (length input) t ≡ input) × (fill_columns columns t ≡ ok t)

-- A filled tuple has a value for each column, starts with the given values, and is filled to itself.
fill_columns_lem :
    (columns : TableSchema) (input t : Tuple)
    → length input ≤ length columns
    → fill_columns columns input ≡ ok t
    → IsFilled columns input t
unfolding fill_columns
fill_columns_lem [] [] t h e = subst (IsFilled [] []) (ok_same [] t e) (refl, refl, refl)
fill_columns_lem [] (v ∷ vs) t h e = absurd (omega arith)
fill_columns_lem (column ∷ columns) [] t h e =
    let (value, (missing, e1)) = ok_parts (missing_value column) _ e in
    let (rest, (filled, e2)) = ok_parts (fill_columns columns []) _ e1 in
    let (n, _, again) = fill_columns_lem columns [] rest (omega arith) filled in
    subst (IsFilled (column ∷ columns) []) (ok_same (value ∷ rest) t e2)
      (ap suc n, refl, rw (missing_value-valid column value missing) (rw again refl))
fill_columns_lem (column ∷ columns) (value ∷ values) t h e =
    let (done, (valid, e1)) = ok_parts (validate_value value column) _ e in
    let (rest, (filled, e2)) = ok_parts (fill_columns columns values) _ e1 in
    let (n, starts, again) = fill_columns_lem columns values rest (omega arith) filled in
    subst (IsFilled (column ∷ columns) (value ∷ values)) (ok_same (value ∷ rest) t e2)
      (ap suc n, ap (value ∷◌) starts, rw valid (rw again refl))

-- A tuple that is prepared has a value for each column and starts with the given values, and preparing
-- it again changes nothing: each of its values passes the check of its column.
pub prepare_tuple_again :
    (schema : TableSchema) (input t : Tuple)
    → prepare_tuple schema input ≡ ok t
    → (length t ≡ length schema) × (take (length input) t ≡ input) × (prepare_tuple schema t ≡ ok t)
unfolding prepare_tuple is_empty
prepare_tuple_again [] input t e = absurd (ground (arith, e))
prepare_tuple_again (column ∷ columns) input t e =
    elim (Bool-cases (ltb (length (column ∷ columns)) (length input))) [
      | inl long ↦ absurd (ground (arith, e, long))
      | inr fits ↦
          let (n, starts, again) =
            fill_columns_lem (column ∷ columns) input t (ground (arith, fits))
              (ground (arith, e, fits)) in
          (n, starts, ground (arith, n, again))
    ]
