-- ===== src/Evaluation/Examples.antt =====
-- Conditions at a row of a table.
use database_management_syst.Prelude.{◌≡◌, refl, [], ◌∷◌, true, false, none, some, inl, inr}
use database_management_syst.Prelude.Int.{pos}
use database_management_syst.Prelude.Text.{codes}
use database_management_syst.Status.{ok}
use database_management_syst.Value.{
  int_type, string_type, Value, null, int, string, bool, eq_bytes, value_type, is_null,
}
use database_management_syst.Value
use database_management_syst.Schema.{
  int_column, string_column, ColumnSchema, TableSchema, find_column_schema, find_column,
}
use database_management_syst.Serialization.Rows.{Tuple}
use database_management_syst.Tables.{prepare_tuple, fill_columns, missing_value, validate_value}
use database_management_syst.Parser.Syntax.{
  ge, lt, and, or, Expr, column_ref, literal, binary, logical, between, like,
}
use database_management_syst.Evaluation.{RegexMatch, evaluate}
use database_management_syst.Evaluation.Safety.{
  IsOperand, literal_operand, column_operand, IsCondition, range, text_match, connective, Decides,
  evaluate-IsCondition, between_lem,
}

-- Patterns without special characters.
abbrev plain : RegexMatch
plain text pattern_text = some (eq_bytes text pattern_text)

abbrev number_column : ColumnSchema
number_column = record {
  name = codes "n";
  type = int_column;
  not_null = true;
  indexed = false;
  default_value = none;
}

abbrev text_column : ColumnSchema
text_column = record {
  name = codes "s";
  type = string_column;
  not_null = false;
  indexed = false;
  default_value = none;
}

abbrev columns : TableSchema
columns = number_column ∷ text_column ∷ []

abbrev row : Tuple
row = int (pos 7) ∷ null ∷ []

row_prepared : prepare_tuple columns (int (pos 7) ∷ []) ≡ ok row
unfolding prepare_tuple fill_columns validate_value missing_value
row_prepared = refl

number_operand : IsOperand columns (column_ref (codes "n")) int_type
unfolding find_column_schema eq_bytes
number_operand = column_operand (codes "n") number_column _ refl refl

abbrev condition : Expr
condition =
    logical or (like (column_ref (codes "s")) (literal (string (codes "q"))))
      (between (column_ref (codes "n")) (literal (int (pos 3))) (literal (int (pos 7))))

condition-IsCondition : IsCondition plain columns condition
unfolding find_column_schema eq_bytes value_type is_null
condition-IsCondition =
    connective or _ _
      (text_match _ _ (column_operand (codes "s") text_column _ refl refl) λ text. (_, refl))
      (range _ _ _ int_type number_operand (literal_operand _ _ (inr refl))
        (literal_operand _ _ (inr refl)))

-- The upper bound is not in the range.
upper_bound : evaluate plain columns row condition ≡ ok (bool false)
unfolding evaluate find_column eq_bytes Value.ge
upper_bound = refl

evaluate-IsCondition_example : Decides (evaluate plain columns row condition)
evaluate-IsCondition_example =
    evaluate-IsCondition plain columns (int (pos 7) ∷ []) row row_prepared condition
      condition-IsCondition

between_lem_example :
    evaluate plain columns row
      (between (column_ref (codes "n")) (literal (int (pos 3))) (literal null))
    ≡ evaluate plain columns row (
        logical and
          (binary ge (column_ref (codes "n")) (literal (int (pos 3))))
          (binary lt (column_ref (codes "n")) (literal null)))
unfolding value_type is_null
between_lem_example =
    between_lem plain columns (int (pos 7) ∷ []) row row_prepared _ _ _ int_type number_operand
      (literal_operand (int (pos 3)) int_type (inr refl)) (literal_operand null int_type (inl refl))
