-- ===== src/Parser/Examples.antt =====
-- The parser at concrete texts.
use database_management_syst.Prelude.{◌≡◌, refl, [], ◌∷◌, false, some}
use database_management_syst.Prelude.Int.{pos}
use database_management_syst.Prelude.Text.{codes, is_digit, is_alpha, is_alnum, is_space}
use database_management_syst.Binary.{Bytes}
use database_management_syst.Value.{int, eq_bytes}
use database_management_syst.Value
use database_management_syst.Parser.Tokens.{same_type, ok, err, syntax}
use database_management_syst.Parser.Syntax.{
  Expr, column_ref, literal, binary, logical, lt, and, or, Statement, select,
}
use database_management_syst.Parser.Syntax
use database_management_syst.Parser.Monad.{
  ◌>>=◌, match_keyword, peek, return, check, consume, match_token, expect, separated,
  parse_qualified_name, take_lexeme, expect_keyword, finish, fail,
}
use database_management_syst.Parser.Lexer.{tokenize}
use database_management_syst.Parser.Expressions.{
  decimal, parse_where_if_present, parse_or, parse_and, parse_predicate, parse_operand,
  parse_literal_value,
}
use database_management_syst.Parser.Timestamp.{Mktime, parse_revert_timestamp_ms}
use database_management_syst.Parser.Statements.{parse, parse_select, dispatch}
use database_management_syst.Parser.Total.Parse.{Answers, parse_total}

-- A clock that knows the seconds of one minute.
abbrev seconds_only : Mktime
seconds_only c = some (pos c.second)

abbrev query : Bytes
query = codes "SELECT (a AS x) FROM t.u WHERE a < 3 OR b = 'q' AND c > 1;"

abbrev small : Expr
small = binary lt (column_ref (codes "a")) (literal (int (pos 3)))

abbrev named : Expr
named = binary Syntax.eq (column_ref (codes "b")) (literal (Value.string (codes "q")))

abbrev large : Expr
large = binary Syntax.gt (column_ref (codes "c")) (literal (int (pos 1)))

query_parsed :
    parse seconds_only query
    ≡ ok (
        select
          (record { database_name = codes "t"; table_name = codes "u" })
          false
          (record { column = codes "a"; alias = codes "x" } ∷ [])
          (some (logical or small (logical and named large))))
unfolding parse tokenize is_space is_alpha is_alnum is_digit dispatch ◌>>=◌ match_keyword peek
    same_type eq_bytes return check consume parse_select match_token expect separated
    parse_qualified_name take_lexeme expect_keyword parse_where_if_present parse_or parse_and
    parse_predicate parse_operand parse_literal_value finish
query_parsed = refl

-- A list of columns wants parentheses, and there is no transaction statement.
bare_columns : parse seconds_only (codes "SELECT id, name FROM users WHERE id = 1;") ≡ err syntax
unfolding parse tokenize is_space is_alpha is_alnum is_digit dispatch ◌>>=◌ match_keyword peek
    same_type eq_bytes return check consume parse_select match_token expect separated
    parse_qualified_name take_lexeme expect_keyword fail
bare_columns = refl

no_transactions : parse seconds_only (codes "BEGIN;") ≡ err syntax
unfolding parse tokenize is_space is_alpha is_alnum is_digit dispatch ◌>>=◌ match_keyword peek
    same_type eq_bytes return check consume parse_select match_token expect separated
    parse_qualified_name take_lexeme expect_keyword fail
no_transactions = refl

revert_timestamp :
    parse_revert_timestamp_ms seconds_only (codes "2024.01.31-10:20:30.125") ≡ some (pos 30125)
unfolding parse_revert_timestamp_ms is_digit decimal
revert_timestamp = refl

parse_total_example : Answers (parse seconds_only query)
parse_total_example = parse_total seconds_only query
