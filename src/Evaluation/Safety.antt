-- ===== src/Evaluation/Safety.antt =====
-- Conditions as the grammar has them, well typed for a table, at a tuple that the table accepts.
use database_management_syst.Prelude.{
  ℕ, ◌≡◌, refl, inl, inr, Bool, true, false, Bool-cases, ◌&&◌, ==_iff, Option, none, some,
  get_elem?, arith,
}
use database_management_syst.Status.{Result, ok, ◌>>=◌}
use database_management_syst.Binary.{Bytes}
use database_management_syst.Value.{
  ValueType, int_type, string_type, bool_type, Value, null, int, string, bool, value_type,
  type_number, is_null,
}
use database_management_syst.Value
use database_management_syst.Schema.{ColumnSchema, TableSchema, find_column, find_column_schema}
use database_management_syst.Serialization.Rows.{Tuple}
use database_management_syst.Tables.{prepare_tuple}
use database_management_syst.Tables.Columns.{column_value_type, Fits, prepared_column}
use database_management_syst.Parser.Syntax.{
  BinaryOp, ge, lt, LogicalOp, and, or, Expr, column_ref, literal, binary, logical, between, like,
}
use database_management_syst.Evaluation.{
  RegexMatch, same_value_type, compare, compare_with, truthy, column_value, combine, is_between,
  is_like, evaluate,
}

-- A literal, or a column of the table.
pub data IsOperand (schema : TableSchema) : Expr → ValueType → Type 0 where
  literal_operand : (v : Value) (type : ValueType) → Fits type v → IsOperand schema (literal v) type
  column_operand :
      (name : Bytes) (column : ColumnSchema) (type : ValueType)
      → find_column_schema schema name ≡ some column
      → column_value_type column.type ≡ some type
      → IsOperand schema (column_ref name) type

-- What may stand behind WHERE: operands of one type compared, texts matched with a pattern that is a
-- regular expression, and AND and OR of conditions.
pub data IsCondition (regex : RegexMatch) (schema : TableSchema) : Expr → Type 0 where
  comparison :
      (op : BinaryOp) (left right : Expr) (type : ValueType)
      → IsOperand schema left type
      → IsOperand schema right type
      → IsCondition regex schema (binary op left right)
  range :
      (value low high : Expr) (type : ValueType)
      → IsOperand schema value type
      → IsOperand schema low type
      → IsOperand schema high type
      → IsCondition regex schema (between value low high)
  text_match :
      (value : Expr) (pattern_text : Bytes)
      → IsOperand schema value string_type
      → ((text : Bytes) → (b : Bool) × (regex text pattern_text ≡ some b))
      → IsCondition regex schema (like value (literal (string pattern_text)))
  connective :
      (op : LogicalOp) (left right : Expr)
      → IsCondition regex schema left
      → IsCondition regex schema right
      → IsCondition regex schema (logical op left right)

-- The result is null or of that type.
abbrev Yields : ValueType → Result Value → Type 0
Yields type r = (v : Value) × (r ≡ ok v) × Fits type v

-- The result is true or false.
abbrev pub Decides : Result Value → Type 0
Decides r = (b : Bool) × (r ≡ ok (bool b))

same_value_type-Fits :
    (type : ValueType) (v w : Value)
    → Fits type v
    → Fits type w
    → is_null v ≡ false
    → is_null w ≡ false
    → same_value_type v w ≡ true
unfolding same_value_type
same_value_type-Fits type v w (inl h) k e f = absurd (ground (arith, h, e))
same_value_type-Fits type v w (inr h) (inl k) e f = absurd (ground (arith, k, f))
same_value_type-Fits type v w (inr h) (inr k) e f =
    rw (h, k) ((==_iff (type_number type) (type_number type)).1 refl)

compare-Decides :
    (type : ValueType) (op : BinaryOp) (l r : Value)
    → Fits type l
    → Fits type r
    → Decides (compare l r op)
unfolding compare
compare-Decides type op l r h k = elim (Bool-cases (is_null l)) [
  | inl e ↦ rw e (false, refl)
  | inr e ↦ elim (Bool-cases (is_null r)) [
    | inl f ↦ rw (e, f) (false, refl)
    | inr f ↦ rw (e, f, same_value_type-Fits type l r h k e f) (compare_with op l r, refl)
  ]
]

abbrev ge_and_lt : Value → Value → Value → Result Value
ge_and_lt v l h = compare v l ge >>= λ a. combine and a (compare v h lt)

is_between-Fits :
    (type : ValueType) (v l h : Value)
    → Fits type v
    → Fits type l
    → Fits type h
    → is_between v l h ≡ ge_and_lt v l h
unfolding is_between compare compare_with combine truthy
is_between-Fits type v l h fv fl fh = elim (Bool-cases (is_null v)) [
  | inl e ↦ rw e refl
  | inr e ↦ elim (Bool-cases (is_null l)) [
    | inl f ↦ rw (e, f) refl
    | inr f ↦
        let low = same_value_type-Fits type v l fv fl e f in
        elim (Bool-cases (is_null h)) [
          | inl g ↦
              rw (e, f, g, low)
                (elim (Bool-cases (Value.ge v l)) [ inl b ↦ rw b refl | inr b ↦ rw b refl ])
          | inr g ↦
              rw (e, f, g, low, same_value_type-Fits type v h fv fh e g)
                (elim (Bool-cases (Value.ge v l)) [ inl b ↦ rw b refl | inr b ↦ rw b refl ])
        ]
  ]
]

is_between-Decides :
    (type : ValueType) (v l h : Value)
    → Fits type v
    → Fits type l
    → Fits type h
    → Decides (is_between v l h)
unfolding is_between
is_between-Decides type v l h fv fl fh = elim (Bool-cases (is_null v)) [
  | inl e ↦ rw e (false, refl)
  | inr e ↦ elim (Bool-cases (is_null l)) [
    | inl f ↦ rw (e, f) (false, refl)
    | inr f ↦ elim (Bool-cases (is_null h)) [
      | inl g ↦ rw (e, f, g) (false, refl)
      | inr g ↦
          rw
            (
              e,
              f,
              g,
              same_value_type-Fits type v l fv fl e f,
              same_value_type-Fits type v h fv fh e g,
            )
            (Value.ge v l && Value.lt v h, refl)
    ]
  ]
]

is_like-Decides :
    (regex : RegexMatch) (v : Value) (pattern_text : Bytes)
    → Fits string_type v
    → ((text : Bytes) → (b : Bool) × (regex text pattern_text ≡ some b))
    → Decides (is_like regex v (string pattern_text))
unfolding is_like is_null value_type
is_like-Decides regex null p f valid = (false, refl)
is_like-Decides regex (string text) p f valid = let (b, e) = valid text in (b, rw e refl)
is_like-Decides regex (int n) p (inl h) valid = absurd (ground (arith, h))
is_like-Decides regex (int n) p (inr h) valid = absurd (ground (arith, h))
is_like-Decides regex (bool n) p (inl h) valid = absurd (ground (arith, h))
is_like-Decides regex (bool n) p (inr h) valid = absurd (ground (arith, h))

combine-Decides :
    (op : LogicalOp) (l : Bool) (r : Result Value) → Decides r → Decides (combine op (bool l) r)
unfolding combine truthy
combine-Decides and true r (b, e) = (b, rw e refl)
combine-Decides and false r d = (false, refl)
combine-Decides or true r d = (true, refl)
combine-Decides or false r (b, e) = (b, rw e refl)

module _ (regex : RegexMatch) (schema : TableSchema) (input tuple : Tuple)
    (prepared : prepare_tuple schema input ≡ ok tuple) where
  evaluate-IsOperand :
      (e : Expr) (type : ValueType)
      → IsOperand schema e type
      → Yields type (evaluate regex schema tuple e)
  unfolding evaluate column_value find_column_schema
  evaluate-IsOperand e _ (literal_operand v type f) = (v, refl, f)
  evaluate-IsOperand e _ (column_operand name column type known typed) =
      go (find_column schema name) refl known
    where
      go :
          (o : Option ℕ)
          → find_column schema name ≡ o
          → elim o as (λ _. Option ColumnSchema) [ none ↦ none | some i ↦ get_elem? schema i ]
            ≡ some column
          → Yields type (column_value schema tuple name)
      go none absent k = absurd (ground (arith, k))
      go (some i) found k =
          let (v, at, f) = prepared_column schema input tuple i column type prepared k typed in
          (v, rw (column_value, found, at) refl, f)

  -- At a tuple that the table accepts, a condition that is well typed for the table's schema, its
  -- patterns regular expressions, evaluates to true or false: it does not fail, and is never null.
  pub evaluate-IsCondition :
      (e : Expr) → IsCondition regex schema e → Decides (evaluate regex schema tuple e)
  unfolding evaluate
  evaluate-IsCondition e (comparison op left right type l r) =
      let (v, ev, fv) = evaluate-IsOperand left type l in
      let (w, ew, fw) = evaluate-IsOperand right type r in
      rw (ev, ew) (compare-Decides type op v w fv fw)
  evaluate-IsCondition e (range value low high type x l h) =
      let (v, ev, fv) = evaluate-IsOperand value type x in
      let (w, ew, fw) = evaluate-IsOperand low type l in
      let (u, eu, fu) = evaluate-IsOperand high type h in
      rw (ev, ew, eu) (is_between-Decides type v w u fv fw fu)
  evaluate-IsCondition e (text_match value pattern_text x valid) =
      let (v, ev, fv) = evaluate-IsOperand value string_type x in
      rw ev (is_like-Decides regex v pattern_text fv valid)
  evaluate-IsCondition e (connective op left right l r) =
      let (b, eb) = evaluate-IsCondition left l in
      rw eb (combine-Decides op b _ (evaluate-IsCondition right r))

  -- At a tuple that the table accepts, BETWEEN with operands of one type is the half-open range: it
  -- evaluates as the value at least the lower bound AND less than the upper one, nulls included.
  pub between_lem :
      (value low high : Expr) (type : ValueType)
      → IsOperand schema value type
      → IsOperand schema low type
      → IsOperand schema high type
      → evaluate regex schema tuple (between value low high)
        ≡ evaluate regex schema tuple (logical and (binary ge value low) (binary lt value high))
  unfolding evaluate
  between_lem value low high type x l h =
      let (v, ev, fv) = evaluate-IsOperand value type x in
      let (w, ew, fw) = evaluate-IsOperand low type l in
      let (u, eu, fu) = evaluate-IsOperand high type h in
      rw (ev, ew, eu) (is_between-Fits type v w u fv fw fu)
