-- ===== src/Parser/Statements.antt =====
-- ParserImpl's statements and Parser::Parse. The fuel bounds each loop over the tokens that are left.
use database_management_syst.Prelude.{
  ℕ, zero, suc, List, [], ◌∷◌, ◌++◌, Bool, true, false, not, ◌&&◌, if◌then◌else◌, none, some,
  length,
}
use database_management_syst.Prelude.Text.{codes}
use database_management_syst.Binary.{Bytes}
use database_management_syst.Value.{Value, eq_bytes}
use database_management_syst.Schema.{ColumnSchema, int_column, string_column}
use database_management_syst.Parser.Tokens.{
  Token, identifier, number, comma, left_paren, right_paren, star, syntax, no_fuel, same_type,
  Parsed, ok, err,
}
use database_management_syst.Parser.Tokens
use database_management_syst.Parser.Lexer.{tokenize}
use database_management_syst.Parser.Syntax.{
  SelectItem, Statement, create_database, drop_database, use_database, create_table, drop_table,
  insert, select, update, delete, revert, create_user, login, drop_user, create_group, drop_group,
  add_user_to_group, grant, revoke, submit_query, get_task, cancel_task, show_metrics,
}
use database_management_syst.Parser.Monad.{
  ParserM, ◌>>=◌, ◌>>◌, return, fail, check, peek, at, match_token, match_keyword, expect,
  expect_keyword, take_lexeme, parse_identifier, parse_qualified_name, finish, separated, upper,
}
use database_management_syst.Parser.Expressions.{
  parse_literal_value, parse_or, parse_where_if_present,
}
use database_management_syst.Parser.Timestamp.{Mktime, parse_revert_timestamp_ms}

-- The loop over the attributes of a column.
unfoldable pub column_attributes : ℕ → ColumnSchema → ParserM ColumnSchema
column_attributes zero column = fail no_fuel
column_attributes (suc fuel) column = do
  more ← at identifier
  if not more then return column else do
    not_null ← match_keyword (codes "NOT_NULL")
    if not_null then column_attributes fuel (record column { not_null = true }) else do
      indexed ← match_keyword (codes "INDEXED")
      if indexed
          then column_attributes fuel (record column { indexed = true; not_null = true })
          else return column

unfoldable pub column_of_type : Bytes → Bytes → ParserM ColumnSchema
column_of_type name type =
    let column : ColumnSchema = record {
      name = name;
      type = int_column;
      not_null = false;
      indexed = false;
      default_value = none;
    } in
    if eq_bytes type (codes "INT")
    then return column
    else if eq_bytes type (codes "STRING")
    then return (record column { type = string_column })
    else fail syntax

unfoldable pub parse_column : ℕ → ParserM ColumnSchema
unfolding column_of_type column_attributes upper
parse_column fuel = do
  name ← parse_identifier
  type ← parse_identifier
  column ← column_of_type name (upper type)
  column_attributes fuel column

unfoldable pub parse_create_table : ℕ → ParserM Statement
unfolding parse_column
parse_create_table fuel = do
  name ← parse_qualified_name
  expect left_paren
  columns ← separated (parse_column fuel) fuel
  expect right_paren
  finish
  return (create_table name columns)

-- One parenthesis of values.
unfoldable pub parse_row : ℕ → ParserM (List Value)
parse_row fuel = do
  expect left_paren
  row ← separated parse_literal_value fuel
  expect right_paren
  return row

unfoldable pub parse_insert : ℕ → ParserM Statement
unfolding parse_row
parse_insert fuel = do
  expect_keyword (codes "INTO")
  name ← parse_qualified_name
  expect left_paren
  columns ← separated parse_identifier fuel
  expect right_paren
  expect_keyword (codes "VALUE")
  rows ← separated (parse_row fuel) fuel
  finish
  return (insert name columns rows)

unfoldable pub parse_select_item : ParserM SelectItem
parse_select_item = do
  column ← parse_identifier
  renamed ← match_keyword (codes "AS")
  if renamed
      then (do alias ← parse_identifier; return (record { column = column; alias = alias }))
      else return (record { column = column; alias = [] })

unfoldable pub parse_columns : ℕ → ParserM (Bool × List SelectItem)
unfolding parse_select_item
parse_columns fuel = do
  all ← match_token star
  if all then return (true, []) else do
    expect left_paren
    columns ← separated parse_select_item fuel
    expect right_paren
    return (false, columns)

unfoldable pub parse_select : ℕ → ParserM Statement
unfolding parse_columns
parse_select fuel = do
  (all, columns) ← parse_columns fuel
  expect_keyword (codes "FROM")
  name ← parse_qualified_name
  condition ← parse_where_if_present fuel
  finish
  return (select name all columns condition)

unfoldable pub parse_assignment : ParserM (Bytes × Value)
parse_assignment = do
  column ← parse_identifier
  expect Tokens.eq
  value ← parse_literal_value
  return (column, value)

unfoldable pub parse_update : ℕ → ParserM Statement
unfolding parse_assignment
parse_update fuel = do
  name ← parse_qualified_name
  expect_keyword (codes "SET")
  assignments ← separated parse_assignment fuel
  expect_keyword (codes "WHERE")
  condition ← parse_or fuel
  finish
  return (update name assignments condition)

unfoldable pub parse_delete : ℕ → ParserM Statement
parse_delete fuel = do
  expect_keyword (codes "FROM")
  name ← parse_qualified_name
  expect_keyword (codes "WHERE")
  condition ← parse_or fuel
  finish
  return (delete name condition)

-- An identifier or a number.
unfoldable pub take_timestamp : ParserM Bytes
take_timestamp = do
  is_identifier ← at identifier
  if is_identifier then take_lexeme identifier else take_lexeme number

unfoldable pub parse_revert : Mktime → ParserM Statement
unfolding take_timestamp
parse_revert mktime = do
  name ← parse_qualified_name
  raw ← take_timestamp
  timestamp ← elim (parse_revert_timestamp_ms mktime raw) [ some t ↦ return t | none ↦ fail syntax ]
  finish
  return (revert name timestamp)

-- A statement of one name.
unfoldable pub parse_named : (Bytes → Statement) → ParserM Statement
parse_named statement = do name ← parse_identifier; finish; return (statement name)

-- ParseCreateUser and ParseLogin.
unfoldable pub parse_credentials : (Bytes → Bytes → Statement) → ParserM Statement
parse_credentials statement = do
  user_id ← parse_identifier
  expect_keyword (codes "PASSWORD")
  password ← take_lexeme Tokens.string
  finish
  return (statement user_id password)

-- The loop over the words of a permission up to the keyword.
unfoldable pub permission_words : Bytes → ℕ → Bytes → ParserM Bytes
permission_words stop zero permission = fail no_fuel
permission_words stop (suc fuel) permission = do
  t ← peek
  if not (same_type t.type identifier && not (eq_bytes (upper t.lexeme) stop))
      then return permission
      else do
        word ← take_lexeme identifier
        permission_words stop fuel (permission ++ (b'_' ∷ upper word))

unfoldable pub parse_target_type : ParserM Bytes
parse_target_type = do
  is_user ← match_keyword (codes "USER")
  if is_user
      then return (codes "USER")
      else do is_group ← match_keyword (codes "GROUP"); check is_group; return (codes "GROUP")

-- ParseGrant and ParseRevoke, which differ in their keyword.
unfoldable pub parse_permission :
    Bytes → (Bytes → Bytes → Bytes → Statement) → ℕ → ParserM Statement
unfolding permission_words parse_target_type upper
parse_permission preposition statement fuel = do
  first ← parse_identifier
  permission ← permission_words preposition fuel (upper first)
  expect_keyword preposition
  target_type ← parse_target_type
  target_name ← parse_identifier
  finish
  return (statement permission target_type target_name)

unfoldable pub parse_add_user_to_group : ParserM Statement
parse_add_user_to_group = do
  expect_keyword (codes "USER")
  user_id ← parse_identifier
  expect_keyword (codes "TO")
  expect_keyword (codes "GROUP")
  group_name ← parse_identifier
  finish
  return (add_user_to_group user_id group_name)

unfoldable pub parse_submit_query : ParserM Statement
parse_submit_query = do
  expect_keyword (codes "QUERY")
  inner_sql ← take_lexeme Tokens.string
  finish
  return (submit_query inner_sql)

-- ParseGetTask and ParseCancelTask.
unfoldable pub parse_task : (Bytes → Statement) → ParserM Statement
unfolding parse_named
parse_task statement = do expect_keyword (codes "TASK"); parse_named statement

unfoldable pub parse_drop_table : ParserM Statement
parse_drop_table = do name ← parse_qualified_name; finish; return (drop_table name)

unfoldable pub parse_show : ParserM Statement
parse_show = do b ← match_keyword (codes "METRICS"); check b; finish; return show_metrics

-- A chain of `if (MatchKeyword(…)) { return …; }`, and the ParseError behind it.
unfoldable pub dispatch : List (Bytes × ParserM Statement) → ParserM Statement
dispatch [] = fail syntax
dispatch ((keyword, parse) ∷ rest) = do
  b ← match_keyword keyword
  if b then parse else dispatch rest

abbrev pub create_commands : ℕ → List (Bytes × ParserM Statement)
create_commands fuel =
    (codes "DATABASE", parse_named create_database)
    ∷ (codes "TABLE", parse_create_table fuel)
    ∷ (codes "USER", parse_credentials create_user)
    ∷ (codes "GROUP", parse_named create_group)
    ∷ []

abbrev pub drop_commands : List (Bytes × ParserM Statement)
drop_commands =
    (codes "DATABASE", parse_named drop_database)
    ∷ (codes "TABLE", parse_drop_table)
    ∷ (codes "USER", parse_named drop_user)
    ∷ (codes "GROUP", parse_named drop_group)
    ∷ []

abbrev pub commands : Mktime → ℕ → List (Bytes × ParserM Statement)
commands mktime fuel =
    (codes "CREATE", dispatch (create_commands fuel))
    ∷ (codes "DROP", dispatch drop_commands)
    ∷ (codes "USE", parse_named use_database)
    ∷ (codes "INSERT", parse_insert fuel)
    ∷ (codes "SELECT", parse_select fuel)
    ∷ (codes "UPDATE", parse_update fuel)
    ∷ (codes "DELETE", parse_delete fuel)
    ∷ (codes "REVERT", parse_revert mktime)
    ∷ (codes "LOGIN", parse_credentials login)
    ∷ (codes "GRANT", parse_permission (codes "TO") grant fuel)
    ∷ (codes "REVOKE", parse_permission (codes "FROM") revoke fuel)
    ∷ (codes "ADD", parse_add_user_to_group)
    ∷ (codes "SUBMIT", parse_submit_query)
    ∷ (codes "GET", parse_task get_task)
    ∷ (codes "CANCEL", parse_task cancel_task)
    ∷ (codes "SHOW", parse_show)
    ∷ []

unfoldable pub parse_statement : Mktime → ℕ → ParserM Statement
parse_statement mktime fuel = dispatch (commands mktime fuel)

abbrev pub statement_of : Parsed (Statement × List Token) → Parsed Statement
statement_of (ok (statement, rest)) = ok statement
statement_of (err fault) = err fault

unfoldable pub parse : Mktime → Bytes → Parsed Statement
unfolding parse_statement
parse mktime sql = elim (tokenize sql) [
  | ok tokens ↦ statement_of (parse_statement mktime (suc (length tokens)) tokens)
  | err fault ↦ err fault
]
