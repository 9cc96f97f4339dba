-- ===== src/Execution/Rows.antt =====
-- The rows that INSERT builds.
use database_management_syst.Prelude.{
  ℕ, zero, suc, ◌≡◌, refl, sym, ap, subst, ◌∙◌, List, [], ◌∷◌, Bool, true, false, not, ◌&&◌, Option,
  none, some, length, set, replicate, length-replicate, arith,
}
use database_management_syst.Status.{
  Result, ok, err, StatusCode, require, ◌>>◌, constraint_violation, execution_error,
}
use database_management_syst.Binary.{Bytes}
use database_management_syst.Value.{Value, null, is_null}
use database_management_syst.Schema.{ColumnSchema, TableSchema, find_column}
use database_management_syst.Serialization.Rows.{Tuple}
use database_management_syst.Planner.Binder.{is_required}
use database_management_syst.Tables.Prepared.{ok_parts, ok_same}
use database_management_syst.Execution.Write.{place_values, apply_defaults, build_tuple}

length-set : (t : Tuple) (i : ℕ) (v : Value) → length (set t i v) ≡ length t
length-set [] i v = refl
length-set (x ∷ t) zero v = refl
length-set (x ∷ t) (suc i) v = ap suc (length-set t i v)

required_parts :
    {A : Type 0} (test : Bool) (code : StatusCode) (next : Result A) (a : A)
    → (require test code >> next) ≡ ok a
    → (test ≡ true) × (next ≡ ok a)
required_parts true code next a h = (refl, h)
required_parts false code next a h = absurd (cc)

length-place_values :
    (schema : TableSchema) (seen names : List Bytes) (values : List Value) (t t' : Tuple)
    → place_values schema seen names values t ≡ ok t'
    → length t' ≡ length t
unfolding place_values
length-place_values schema seen [] values t t' h = ap length (sym (ok_same t t' h))
length-place_values schema seen (name ∷ names) [] t t' h = ap length (sym (ok_same t t' h))
length-place_values schema seen (name ∷ names) (v ∷ values) t t' h =
    go (find_column schema name)
      (λ i. length-place_values schema (name ∷ seen) names values (set t i v) t')
      (required_parts _ execution_error _ t' h).1
  where
    go :
        (found : Option ℕ)
        → ((i : ℕ)
            → place_values schema (name ∷ seen) names values (set t i v) ≡ ok t'
            → length t' ≡ length (set t i v))
        → elim found as (λ _. Result Tuple) [
          | none ↦ err execution_error
          | some index ↦ place_values schema (name ∷ seen) names values (set t index v)
        ]
          ≡ ok t'
        → length t' ≡ length t
    go none ih h = absurd (cc)
    go (some i) ih h = ih i h ∙ length-set t i v

-- A value for each column, and none null where the column forbids it.
pub data IsComplete : TableSchema → Tuple → Type 0 where
  no_columns : IsComplete [] []
  one_column :
      {column : ColumnSchema} {columns : TableSchema} {v : Value} {t : Tuple}
      → (is_null v && is_required column) ≡ false
      → IsComplete columns t
      → IsComplete (column ∷ columns) (v ∷ t)

is_false : (b : Bool) → not b ≡ true → b ≡ false
is_false true h = cc
is_false false h = refl

apply_defaults-IsComplete :
    (schema : TableSchema) (t t' : Tuple)
    → length t ≡ length schema
    → apply_defaults schema t ≡ ok t'
    → IsComplete schema t'
unfolding apply_defaults
apply_defaults-IsComplete [] t t' l h = subst (IsComplete []) (ok_same [] t' h) no_columns
apply_defaults-IsComplete (column ∷ columns) [] t' l h = absurd (omega (arith, l))
apply_defaults-IsComplete (column ∷ columns) (v ∷ t) t' l h =
    let (tested, done) = required_parts _ constraint_violation _ t' h in
    let (rest, (filled, e)) = ok_parts (apply_defaults columns t) _ done in
    subst (IsComplete (column ∷ columns)) (ok_same _ t' e) (
      one_column (is_false _ tested)
        (apply_defaults-IsComplete columns t rest (omega (arith, l)) filled))

-- A tuple that INSERT builds from the named values has a value for each column of the table, and no null
-- for a column that is NOT_NULL or INDEXED.
pub build_tuple-IsComplete :
    (schema : TableSchema) (columns : List Bytes) (values : List Value) (t : Tuple)
    → build_tuple schema columns values ≡ ok t
    → IsComplete schema t
unfolding build_tuple
build_tuple-IsComplete schema columns values t h =
    let (same, done) = required_parts _ execution_error _ t h in
    let (placed, (e, filled)) =
      ok_parts (place_values schema [] columns values (replicate (length schema) null)) _ done in
    apply_defaults-IsComplete schema placed t
      (length-place_values schema [] columns values _ placed e
        ∙ length-replicate (length schema) null)
      filled
