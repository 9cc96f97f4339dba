-- ===== src/Execution/IndexChoice.antt =====
-- A SELECT that the planner answers from an index, against a look at every row.
use database_management_syst.Prelude.{
  ℕ, ◌≡◌, refl, sym, ap, inl, inr, List, [], ◌∷◌, Bool, true, false, ◌==◌, Bool-cases, Option-cases,
  Option, none, some, All, arith,
}
use database_management_syst.Status.{Result, ok, err}
use database_management_syst.Binary.{Bytes}
use database_management_syst.Value.{Value, null, int, string, bool}
use database_management_syst.Value.Order.{eq_iff}
use database_management_syst.Schema.{TableSchema, TableDescriptor}
use database_management_syst.Serialization.Rows.{Row, Tuple}
use database_management_syst.Parser.Syntax.{
  eq, and, Expr, column_ref, literal, binary, logical, between, like, SelectItem,
}
use database_management_syst.Planner.Build.{
  copy_expr, clone_expr, column_of_equality, index_of_column, indexed_equality,
}
use database_management_syst.Evaluation.{
  RegexMatch, truthy, evaluate, compare, combine, column_value,
}
use database_management_syst.Execution.Select.{
  Query, matches, collect_rows, is_active, is_active_at, equality_key,
}

pub copy_expr_lem : (e : Expr) → copy_expr e ≡ e
unfolding copy_expr
copy_expr_lem (column_ref name) = refl
copy_expr_lem (literal v) = refl
copy_expr_lem (binary op l r) = simp (copy_expr_lem l, copy_expr_lem r)
copy_expr_lem (logical op l r) = simp (copy_expr_lem l, copy_expr_lem r)
copy_expr_lem (between v l h) = simp (copy_expr_lem v, copy_expr_lem l, copy_expr_lem h)
copy_expr_lem (like v p) = simp (copy_expr_lem v, copy_expr_lem p)

pub clone_expr_lem : (e : Option Expr) → clone_expr e ≡ e
unfolding clone_expr
clone_expr_lem none = refl
clone_expr_lem (some e) = ap some (copy_expr_lem e)

-- The first comparison `column == literal` that no OR stands above.
pub data FirstEquality (name : Bytes) (key : Value) : Expr → Type 0 where
  column_first : FirstEquality name key (binary eq (column_ref name) (literal key))
  literal_first : FirstEquality name key (binary eq (literal key) (column_ref name))
  on_left : {l r : Expr} → FirstEquality name key l → FirstEquality name key (logical and l r)
  on_right :
      {l r : Expr}
      → equality_key l ≡ none
      → FirstEquality name key r
      → FirstEquality name key (logical and l r)

pub equality_key-FirstEquality :
    {name : Bytes} {key : Value} {e : Expr} → FirstEquality name key e → equality_key e ≡ some key
unfolding equality_key
equality_key-FirstEquality column_first = refl
equality_key-FirstEquality literal_first = refl
equality_key-FirstEquality (on_left h) = rw (equality_key-FirstEquality h) refl
equality_key-FirstEquality (on_right n h) = rw n (equality_key-FirstEquality h)

no_key-no_index :
    (table : TableDescriptor) (e : Expr) → equality_key e ≡ none → indexed_equality table e ≡ none
unfolding equality_key indexed_equality column_of_equality
no_key-no_index table (binary eq (column_ref n) (literal k)) h = absurd (cc)
no_key-no_index table (binary eq (literal k) (column_ref n)) h = absurd (cc)
no_key-no_index table (logical and l r) h = elim (Option-cases (equality_key l)) [
  | inl none_l ↦ ground (arith, no_key-no_index table l, no_key-no_index table r)
  | inr (k, key_l) ↦ absurd (ground arith)
]
no_key-no_index table e h = refl

-- The planner takes the index of the first comparison's column, if there is one.
pub indexed_equality-FirstEquality :
    (table : TableDescriptor) {name : Bytes} {key : Value} {e : Expr} {index_name : Bytes}
    → FirstEquality name key e
    → index_of_column table name ≡ some index_name
    → indexed_equality table e ≡ some index_name
unfolding indexed_equality column_of_equality
indexed_equality-FirstEquality table column_first i = i
indexed_equality-FirstEquality table literal_first i = i
indexed_equality-FirstEquality table (on_left h) i =
    rw (indexed_equality-FirstEquality table h i) refl
indexed_equality-FirstEquality table (on_right {l} n h) i =
    rw (no_key-no_index table l n) (indexed_equality-FirstEquality table h i)

same_values : (l key v : Value) → compare l key eq ≡ ok v → truthy v ≡ true → l ≡ key
unfolding compare truthy
same_values l key v h t = ground (arith, eq_iff l key)

-- A true conjunction has true parts.
and_parts :
    (left right : Result Value) (v : Value)
    → elim left as (λ _. Result Value) [ ok l ↦ combine and l right | err code ↦ err code ] ≡ ok v
    → truthy v ≡ true
    → ((l : Value) × (left ≡ ok l) × (truthy l ≡ true))
      × ((r : Value) × (right ≡ ok r) × (truthy r ≡ true))
unfolding combine truthy
and_parts (ok (bool true)) (ok r) v h t = ((bool true, refl, refl), (r, refl, ground (arith, h, t)))
and_parts (ok (bool true)) (err code) v h t = absurd (cc)
and_parts (ok (bool false)) r v h t = absurd (ground arith)
and_parts (ok null) r v h t = absurd (ground arith)
and_parts (ok (int n)) r v h t = absurd (ground arith)
and_parts (ok (string n)) r v h t = absurd (ground arith)
and_parts (err code) r v h t = absurd (cc)

module _ (regex : RegexMatch) (schema : TableSchema) (tuple : Tuple) where
  -- Where the condition holds, the column of its first comparison has the literal's value.
  column_value-FirstEquality :
      {name : Bytes} {key : Value} {e : Expr} (v : Value)
      → FirstEquality name key e
      → evaluate regex schema tuple e ≡ ok v
      → truthy v ≡ true
      → column_value schema tuple name ≡ ok key
  unfolding evaluate
  column_value-FirstEquality {name} {key} v column_first h t = go (column_value schema tuple name) h
    where
      go :
          (r : Result Value)
          → elim r as (λ _. Result Value) [ ok l ↦ compare l key eq | err code ↦ err code ] ≡ ok v
          → r ≡ ok key
      go (ok l) h = ap ok (same_values l key v h t)
      go (err code) h = absurd (cc)
  column_value-FirstEquality {name} {key} v literal_first h t =
      go (column_value schema tuple name) h
    where
      go :
          (r : Result Value)
          → elim r as (λ _. Result Value) [ ok l ↦ compare key l eq | err code ↦ err code ] ≡ ok v
          → r ≡ ok key
      go (ok l) h = ap ok (sym (same_values key l v h t))
      go (err code) h = absurd (cc)
  column_value-FirstEquality v (on_left {l} {r} f) h t =
      let (left, right) =
        and_parts (evaluate regex schema tuple l) (evaluate regex schema tuple r) v h t in
      column_value-FirstEquality left.0 f left.1 left.2
  column_value-FirstEquality v (on_right {l} {r} n f) h t =
      let (left, right) =
        and_parts (evaluate regex schema tuple l) (evaluate regex schema tuple r) v h t in
      column_value-FirstEquality right.0 f right.1 right.2

-- The condition's evaluation succeeds.
abbrev pub Succeeds : Result Value → Type 0
Succeeds r = (v : Value) × (r ≡ ok v)

-- What an index that is up to date answers for a key: the id of each row that is not deleted and has
-- the key at its column.
abbrev pub Finds : TableSchema → Bytes → Value → Option ℕ → Row → Type 0
Finds schema name key found row =
    is_active row ≡ true → column_value schema row.tuple name ≡ ok key → found ≡ some row.rid

abbrev pub Evaluates : RegexMatch → TableSchema → Expr → Row → Type 0
Evaluates regex schema e row = is_active row ≡ true → Succeeds (evaluate regex schema row.tuple e)

abbrev pub select_query : Bool → List SelectItem → Expr → Query
select_query select_all items e = record {
  select_all = select_all;
  columns = items;
  predicate = some e;
}

ok_again {ℓ} :
    {A : Type ℓ} (r : Result A) → elim r as (λ _. Result A) [ ok a ↦ ok a | err c ↦ err c ] ≡ r
ok_again (ok a) = refl
ok_again (err c) = refl

module _ (regex : RegexMatch) (schema : TableSchema) (select_all : Bool) (items : List SelectItem)
    {name : Bytes} {key : Value} {e : Expr} (first : FirstEquality name key e) where
  pub collect-none :
      (rows : List Row)
      → All (Evaluates regex schema e) rows
      → All (Finds schema name key none) rows
      → collect_rows regex schema (select_query select_all items e) is_active rows ≡ ok []
  unfolding collect_rows matches
  collect-none [] v f = refl
  collect-none (row ∷ rows) (v, vs) (f, fs) = elim (Bool-cases (is_active row)) [
    | inl active ↦
        let w = v active in
        elim (Bool-cases (truthy w.0)) [
          | inl hit ↦
              absurd (
                cc (f active (column_value-FirstEquality regex schema row.tuple w.0 first w.1 hit)))
          | inr miss ↦ rw (active, w.1, miss, collect-none rows vs fs) refl
        ]
    | inr gone ↦ rw gone (collect-none rows vs fs)
  ]

  pub collect-some :
      (rid : ℕ) (rows : List Row)
      → All (Evaluates regex schema e) rows
      → All (Finds schema name key (some rid)) rows
      → collect_rows regex schema (select_query select_all items e) (is_active_at rid) rows
        ≡ collect_rows regex schema (select_query select_all items e) is_active rows
  unfolding collect_rows matches is_active_at
  collect-some rid [] v f = refl
  collect-some rid (row ∷ rows) (v, vs) (f, fs) = elim (Bool-cases (is_active row)) [
    | inl active ↦
        let w = v active in
        elim (Bool-cases (row.rid == rid)) [
          | inl here ↦ rw (active, here, collect-some rid rows vs fs) refl
          | inr other ↦ elim (Bool-cases (truthy w.0)) [
            | inl hit ↦ absurd (
                ground (
                  arith,
                  other,
                  f active (column_value-FirstEquality regex schema row.tuple w.0 first w.1 hit),
                ))
            | inr miss ↦
                rw (active, other, w.1, miss, collect-some rid rows vs fs) (sym (ok_again _))
          ]
        ]
    | inr gone ↦ rw gone (collect-some rid rows vs fs)
  ]
