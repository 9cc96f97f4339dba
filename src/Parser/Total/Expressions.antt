-- ===== src/Parser/Total/Expressions.antt =====
-- The parsers of expressions, by the rules.
use database_management_syst.Prelude.{ℕ, zero, suc, ◌≤◌, refl, arith}
use database_management_syst.Binary.{Bytes}
use database_management_syst.Parser.Tokens.{left_paren, same_type}
use database_management_syst.Parser.Syntax.{Expr, LogicalOp}
use database_management_syst.Parser.Monad.{ParserM}
use database_management_syst.Parser.Expressions.{
  parse_literal_value, parse_operand, first_operator, parse_binary_op, parse_predicate,
  logical_rest, parse_and, parse_or,
}
use database_management_syst.Parser.Total.{
  Runs, runs, Runs-zero, Runs-bind, Runs-Tests, Runs-return, match_token-Tests, match_keyword-Tests,
}

pub Runs-parse_literal_value : (n : ℕ) → Runs n parse_literal_value
unfolding parse_literal_value same_type
Runs-parse_literal_value n = search runs depth 30 fits 2000

pub Runs-parse_operand : (n : ℕ) → Runs n parse_operand
unfolding parse_operand same_type
Runs-parse_operand n = search (runs, Runs-parse_literal_value) depth 30 fits 2000

Runs-parse_binary_op : (n : ℕ) → Runs n parse_binary_op
unfolding parse_binary_op first_operator same_type
Runs-parse_binary_op n = search runs depth 30 fits 2000

-- The nested expression has a token less to go.
Runs-parse_predicate :
    (n : ℕ) (nested : ParserM Expr) → Runs n nested → Runs (suc n) (parse_predicate nested)
unfolding parse_predicate same_type
Runs-parse_predicate n nested r =
    Runs-Tests n _ _ _ (match_token-Tests left_paren refl) (search runs depth 30 fits 2000)
      (search (runs, Runs-parse_operand, Runs-parse_binary_op) depth 30 fits 2000)

Runs-logical_rest :
    (keyword : Bytes) (op : LogicalOp) (item : ParserM Expr) (fuel : ℕ)
    → ((k : ℕ) → k ≤ fuel → Runs k item)
    → (n : ℕ) → n ≤ fuel
    → (left : Expr) → Runs n (logical_rest keyword op item fuel left)
unfolding logical_rest
Runs-logical_rest keyword op item fuel r zero h left = Runs-zero _
Runs-logical_rest keyword op item zero r (suc n) h left = absurd (omega arith)
Runs-logical_rest keyword op item (suc fuel) r (suc n) h left =
    Runs-Tests n _ _ _ (match_keyword-Tests keyword)
      (Runs-bind n _ _ (r n (omega arith)) λ right.
        Runs-logical_rest keyword op item fuel (λ k l. r k (omega arith)) n (omega arith) _)
      (Runs-return (suc n) left)

module _ (fuel : ℕ) (nested : ParserM Expr) (r : (k : ℕ) → k ≤ fuel → Runs k nested) where
  predicate : (k : ℕ) → k ≤ suc fuel → Runs k (parse_predicate nested)
  predicate zero h = Runs-zero _
  predicate (suc k) h = Runs-parse_predicate k nested (r k (omega arith))

  conjunction : (k : ℕ) → k ≤ suc fuel → Runs k (parse_and (parse_predicate nested) (suc fuel))
  unfolding parse_and
  conjunction k h =
      Runs-bind k _ _ (predicate k h) λ left. Runs-logical_rest _ _ _ (suc fuel) predicate k h left

pub Runs-parse_or : (fuel n : ℕ) → n ≤ fuel → Runs n (parse_or fuel)
unfolding parse_or
Runs-parse_or fuel zero h = Runs-zero _
Runs-parse_or zero (suc n) h = absurd (omega arith)
Runs-parse_or (suc fuel) (suc n) h =
    let operand = conjunction fuel (parse_or fuel) (Runs-parse_or fuel) in
    Runs-bind (suc n) _ _ (operand (suc n) h)
      λ left. Runs-logical_rest _ _ _ (suc fuel) operand (suc n) h left
