-- ===== src/Evaluation.antt =====
-- execution/expression.cpp: the value of an expression at a tuple of a table.
pub mod Safety
mod Examples
use database_management_syst.Prelude.{
  Option, none, some, Bool, true, false, not, ◌&&◌, ◌||◌, ◌==◌, if◌then◌else◌, get_elem?,
}
use database_management_syst.Status.{Result, ok, err, execution_error, ◌>>=◌, ◌>>◌, require}
use database_management_syst.Binary.{Bytes}
use database_management_syst.Value.{
  Value, null, int, string, bool, value_type, type_number, is_null, as_string,
}
use database_management_syst.Value
use database_management_syst.Schema.{TableSchema, find_column}
use database_management_syst.Serialization.Rows.{Tuple}
use database_management_syst.Parser.Syntax.{
  BinaryOp, eq, ne, lt, gt, le, ge, LogicalOp, and, or, Expr, column_ref, literal, binary, logical,
  between, like,
}

-- std::regex_match on a text and a pattern, a parameter; `none` is a std::regex_error.
abbrev pub RegexMatch : Type 0
RegexMatch = Bytes → Bytes → Option Bool

unfoldable pub compare_with : BinaryOp → Value → Value → Bool
compare_with eq left right = Value.eq left right
compare_with ne left right = Value.ne left right
compare_with lt left right = Value.lt left right
compare_with gt left right = Value.gt left right
compare_with le left right = Value.le left right
compare_with ge left right = Value.ge left right

unfoldable pub same_value_type : Value → Value → Bool
unfolding value_type type_number
same_value_type left right = type_number (value_type left) == type_number (value_type right)

unfoldable pub compare : Value → Value → BinaryOp → Result Value
unfolding is_null same_value_type compare_with
compare left right op =
    if is_null left || is_null right
    then ok (bool false)
    else if not (same_value_type left right)
    then err execution_error
    else ok (bool (compare_with op left right))

unfoldable pub truthy : Value → Bool
truthy (bool b) = b
truthy v = false

unfoldable pub column_value : TableSchema → Tuple → Bytes → Result Value
column_value schema tuple name = elim (find_column schema name) [
  | none ↦ err execution_error
  | some index ↦ elim (get_elem? tuple index) [ none ↦ err execution_error | some v ↦ ok v ]
]

-- The left operand's value when it decides, and the right operand's otherwise.
unfoldable pub combine : LogicalOp → Value → Result Value → Result Value
unfolding truthy
combine and left rest = elim (truthy left) [
  | false ↦ ok (bool false)
  | true ↦ rest >>= λ right. ok (bool (truthy left && truthy right))
]
combine or left rest = elim (truthy left) [
  | true ↦ ok (bool true)
  | false ↦ rest >>= λ right. ok (bool (truthy left || truthy right))
]

unfoldable pub is_between : Value → Value → Value → Result Value
unfolding is_null same_value_type
is_between value low high =
    if is_null value || is_null low || is_null high
    then ok (bool false)
    else if not (same_value_type value low) || not (same_value_type value high)
    then err execution_error
    else ok (bool (Value.ge value low && Value.lt value high))

abbrev pub matched : Option Bool → Result Value
matched none = err execution_error
matched (some b) = ok (bool b)

unfoldable pub is_like : RegexMatch → Value → Value → Result Value
unfolding is_null
is_like regex (string text) (string regex_text) = matched (regex text regex_text)
is_like regex value pattern_text =
    if is_null value || is_null pattern_text then ok (bool false) else err execution_error

unfoldable pub evaluate : RegexMatch → TableSchema → Tuple → Expr → Result Value
unfolding compare column_value combine is_between is_like
evaluate regex schema tuple (column_ref name) = column_value schema tuple name
evaluate regex schema tuple (literal v) = ok v
evaluate regex schema tuple (binary op left right) = evaluate regex schema tuple left >>= λ l.
    evaluate regex schema tuple right >>= λ r. compare l r op
evaluate regex schema tuple (logical op left right) =
    evaluate regex schema tuple left >>= λ l. combine op l (evaluate regex schema tuple right)
evaluate regex schema tuple (between value low high) = evaluate regex schema tuple value >>= λ v.
    evaluate regex schema tuple low >>= λ l.
    evaluate regex schema tuple high >>= λ h. is_between v l h
evaluate regex schema tuple (like value pattern_text) = evaluate regex schema tuple value >>= λ v.
    evaluate regex schema tuple pattern_text >>= λ p. is_like regex v p
