-- ===== src/Parser/Expressions.antt =====
-- ParserImpl's expressions, from ParseLiteralValue to ParseWhereIfPresent.
use database_management_syst.Prelude.{
  ℕ, zero, suc, ◌+◌, ◌-◌, ◌*◌, ◌^◌, List, [], ◌∷◌, if◌then◌else◌, ltb, Option, none, some, ◌||◌,
}
use database_management_syst.Prelude.Int.{ℤ, pos}
use database_management_syst.Prelude.Text.{codes}
use database_management_syst.Binary.{Bytes}
use database_management_syst.Value.{Value, null, int, string}
use database_management_syst.Parser.Tokens.{
  identifier, number, left_paren, right_paren, syntax, no_fuel,
}
use database_management_syst.Parser.Tokens
use database_management_syst.Parser.Syntax.{
  BinaryOp, eq, ne, lt, gt, le, ge, LogicalOp, and, or, Expr, column_ref, literal, binary, logical,
  between, like,
}
use database_management_syst.Parser.Monad.{
  ParserM, ◌>>=◌, ◌>>◌, return, fail, check, at, match_token, match_keyword, expect, expect_keyword,
  take_lexeme, parse_identifier,
}

-- std::strtoll on a lexeme of digits: the largest value stands for all that are larger.
unfoldable pub decimal : ℕ → Bytes → ℕ
decimal acc [] = acc
decimal acc (c ∷ cs) = decimal (acc * 10 + (c - b'0')) cs

unfoldable pub to_int64 : Bytes → ℤ
unfolding decimal
to_int64 digits = let n = decimal 0 digits in pos (if ltb n (2 ^ 63) then n else 2 ^ 63 - 1)

unfoldable pub parse_literal_value : ParserM Value
unfolding to_int64
parse_literal_value = do
  is_number ← at number
  is_string ← at Tokens.string
  if is_number
      then (do text ← take_lexeme number; return (int (to_int64 text)))
      else if is_string
      then (do text ← take_lexeme Tokens.string; return (string text))
      else (do b ← match_keyword (codes "NULL"); check b; return null)

unfoldable pub parse_operand : ParserM Expr
parse_operand = do
  is_number ← at number
  is_string ← at Tokens.string
  if is_number || is_string then (do v ← parse_literal_value; return (literal v)) else do
    b ← match_keyword (codes "NULL")
    if b then return (literal null) else (do name ← parse_identifier; return (column_ref name))

-- The first operator of the list that matches.
unfoldable pub first_operator : List (Tokens.TokenType × BinaryOp) → ParserM BinaryOp
first_operator [] = fail syntax
first_operator ((type, op) ∷ rest) = do
  b ← match_token type
  if b then return op else first_operator rest

unfoldable pub parse_binary_op : ParserM BinaryOp
unfolding first_operator
parse_binary_op = first_operator (
    (Tokens.eq, eq)
    ∷ (Tokens.ne, ne)
    ∷ (Tokens.lt, lt)
    ∷ (Tokens.gt, gt)
    ∷ (Tokens.le, le)
    ∷ (Tokens.ge, ge)
    ∷ [])

-- ParsePredicate, with ParseOr for the expression between parentheses.
unfoldable pub parse_predicate : ParserM Expr → ParserM Expr
unfolding parse_binary_op
parse_predicate nested = do
  paren ← match_token left_paren
  if paren then (do expr ← nested; expect right_paren; return expr) else do
    left ← parse_operand
    is_between ← match_keyword (codes "BETWEEN")
    if is_between
        then (do
          low ← parse_operand
          expect_keyword (codes "AND")
          high ← parse_operand
          return (between left low high))
        else do
          is_like ← match_keyword (codes "LIKE")
          if is_like
              then (do text ← parse_operand; return (like left text))
              else do op ← parse_binary_op; right ← parse_operand; return (binary op left right)

-- The loops of ParseAnd and ParseOr behind their first operand.
unfoldable pub logical_rest : Bytes → LogicalOp → ParserM Expr → ℕ → Expr → ParserM Expr
logical_rest keyword op item zero left = fail no_fuel
logical_rest keyword op item (suc fuel) left = do
  b ← match_keyword keyword
  if b
      then (do right ← item; logical_rest keyword op item fuel (logical op left right))
      else return left

unfoldable pub parse_and : ParserM Expr → ℕ → ParserM Expr
unfolding logical_rest
parse_and predicate fuel = do left ← predicate; logical_rest (codes "AND") and predicate fuel left

-- The fuel bounds the nesting of parentheses and the length of the loops.
unfoldable pub parse_or : ℕ → ParserM Expr
unfolding logical_rest
parse_or zero = fail no_fuel
parse_or (suc fuel) = do
  left ← parse_and (parse_predicate (parse_or fuel)) (suc fuel)
  logical_rest (codes "OR") or (parse_and (parse_predicate (parse_or fuel)) (suc fuel)) (suc fuel)
      left

unfoldable pub parse_where_if_present : ℕ → ParserM (Option Expr)
parse_where_if_present fuel = do
  b ← match_keyword (codes "WHERE")
  if b then (do expr ← parse_or fuel; return (some expr)) else return none
