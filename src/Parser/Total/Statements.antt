-- ===== src/Parser/Total/Statements.antt =====
-- The parsers of statements, by the rules.
use database_management_syst.Prelude.{
  ℕ, zero, suc, ◌≤◌, refl, List, [], ◌∷◌, not, Option, none, some, All, arith,
}
use database_management_syst.Prelude.Int.{ℤ}
use database_management_syst.Binary.{Bytes}
use database_management_syst.Schema.{ColumnSchema}
use database_management_syst.Parser.Tokens.{identifier, same_type, syntax}
use database_management_syst.Parser.Syntax.{Statement}
use database_management_syst.Parser.Monad.{ParserM, return, fail, separated, parse_identifier}
use database_management_syst.Parser.Expressions.{parse_literal_value, parse_where_if_present}
use database_management_syst.Parser.Timestamp.{Mktime, parse_revert_timestamp_ms}
use database_management_syst.Parser.Statements
use database_management_syst.Parser.Statements.{parse_statement, parse, dispatch}
use database_management_syst.Parser.Total.{
  Runs, runs, Runs-zero, Runs-bind, Runs-Tests, Runs-Takes, Runs-return, Runs-fail, Runs-if,
  Runs-at, Runs-peek, Runs-take_lexeme, Runs-match_keyword, Runs-separated,
  Runs-parse_qualified_name, Runs-finish, take_lexeme-Takes, match_keyword-Tests,
}
use database_management_syst.Parser.Total.Expressions.{Runs-parse_literal_value, Runs-parse_or}

ruleset parts = (runs, Runs-parse_qualified_name, Runs-finish, Runs-parse_literal_value)

Runs-parse_where : (n fuel : ℕ) → n ≤ fuel → Runs n (parse_where_if_present fuel)
unfolding parse_where_if_present
Runs-parse_where n fuel h = search (parts, Runs-parse_or) depth 30 fits 2000

Runs-column_attributes :
    (fuel n : ℕ)
    → n ≤ fuel
    → (column : ColumnSchema) → Runs n (Statements.column_attributes fuel column)
unfolding Statements.column_attributes
Runs-column_attributes fuel zero h column = Runs-zero _
Runs-column_attributes zero (suc n) h column = absurd (omega arith)
Runs-column_attributes (suc fuel) (suc n) h column =
    Runs-bind (suc n) _ _ (Runs-at (suc n) identifier) λ more.
      Runs-if (suc n) (not more) _ _ (Runs-return (suc n) column) (
        Runs-Tests n _ _ _ (match_keyword-Tests _) (Runs-column_attributes fuel n (omega arith) _) (
          Runs-Tests n _ _ _ (match_keyword-Tests _) (Runs-column_attributes fuel n (omega arith) _)
            (Runs-return (suc n) column)))

Runs-column_of_type : (n : ℕ) (name type : Bytes) → Runs n (Statements.column_of_type name type)
unfolding Statements.column_of_type
Runs-column_of_type n name type = search runs depth 10

Runs-parse_column : (n fuel : ℕ) → n ≤ fuel → Runs n (Statements.parse_column fuel)
unfolding Statements.parse_column same_type
Runs-parse_column n fuel h =
    search (parts, Runs-column_attributes, Runs-column_of_type) depth 30 fits 2000

Runs-columns : (n fuel : ℕ) → n ≤ fuel → Runs n (separated (Statements.parse_column fuel) fuel)
Runs-columns n fuel h =
    Runs-separated (Statements.parse_column fuel) fuel (λ k l. Runs-parse_column k fuel l) n h

Runs-parse_create_table : (n fuel : ℕ) → n ≤ fuel → Runs n (Statements.parse_create_table fuel)
unfolding Statements.parse_create_table same_type
Runs-parse_create_table n fuel h = search (parts, Runs-columns) depth 30 fits 2000

Runs-values : (n fuel : ℕ) → n ≤ fuel → Runs n (separated parse_literal_value fuel)
Runs-values n fuel h =
    Runs-separated parse_literal_value fuel (λ k l. Runs-parse_literal_value k) n h

Runs-parse_row : (n fuel : ℕ) → n ≤ fuel → Runs n (Statements.parse_row fuel)
unfolding Statements.parse_row same_type
Runs-parse_row n fuel h = search (parts, Runs-values) depth 30 fits 2000

Runs-rows : (n fuel : ℕ) → n ≤ fuel → Runs n (separated (Statements.parse_row fuel) fuel)
Runs-rows n fuel h =
    Runs-separated (Statements.parse_row fuel) fuel (λ k l. Runs-parse_row k fuel l) n h

Runs-names : (n fuel : ℕ) → n ≤ fuel → Runs n (separated parse_identifier fuel)
unfolding same_type
Runs-names n fuel h =
    Runs-separated parse_identifier fuel (λ k l. Runs-take_lexeme k identifier refl) n h

Runs-parse_insert : (n fuel : ℕ) → n ≤ fuel → Runs n (Statements.parse_insert fuel)
unfolding Statements.parse_insert same_type
Runs-parse_insert n fuel h = search (parts, Runs-names, Runs-rows) depth 30 fits 2000

Runs-parse_select_item : (n : ℕ) → Runs n Statements.parse_select_item
unfolding Statements.parse_select_item same_type
Runs-parse_select_item n = search parts depth 30 fits 2000

Runs-select_items : (n fuel : ℕ) → n ≤ fuel → Runs n (separated Statements.parse_select_item fuel)
Runs-select_items n fuel h =
    Runs-separated Statements.parse_select_item fuel (λ k l. Runs-parse_select_item k) n h

Runs-parse_columns : (n fuel : ℕ) → n ≤ fuel → Runs n (Statements.parse_columns fuel)
unfolding Statements.parse_columns same_type
Runs-parse_columns n fuel h = search (parts, Runs-select_items) depth 30 fits 2000

Runs-parse_select : (n fuel : ℕ) → n ≤ fuel → Runs n (Statements.parse_select fuel)
unfolding Statements.parse_select same_type
Runs-parse_select n fuel h = search (parts, Runs-parse_columns, Runs-parse_where) depth 30 fits 2000

Runs-parse_assignment : (n : ℕ) → Runs n Statements.parse_assignment
unfolding Statements.parse_assignment same_type
Runs-parse_assignment n = search parts depth 30 fits 2000

Runs-assignments : (n fuel : ℕ) → n ≤ fuel → Runs n (separated Statements.parse_assignment fuel)
Runs-assignments n fuel h =
    Runs-separated Statements.parse_assignment fuel (λ k l. Runs-parse_assignment k) n h

Runs-parse_update : (n fuel : ℕ) → n ≤ fuel → Runs n (Statements.parse_update fuel)
unfolding Statements.parse_update same_type
Runs-parse_update n fuel h = search (parts, Runs-assignments, Runs-parse_or) depth 30 fits 2000

Runs-parse_delete : (n fuel : ℕ) → n ≤ fuel → Runs n (Statements.parse_delete fuel)
unfolding Statements.parse_delete same_type
Runs-parse_delete n fuel h = search (parts, Runs-parse_or) depth 30 fits 2000

Runs-take_timestamp : (n : ℕ) → Runs n Statements.take_timestamp
unfolding Statements.take_timestamp same_type
Runs-take_timestamp n = search parts depth 30

Runs-parse_revert : (mktime : Mktime) (n : ℕ) → Runs n (Statements.parse_revert mktime)
unfolding Statements.parse_revert
Runs-parse_revert mktime n = Runs-bind n _ _ (Runs-parse_qualified_name n) λ name.
    Runs-bind n _ _ (Runs-take_timestamp n) λ raw.
      Runs-bind n _ _ (timestamp (parse_revert_timestamp_ms mktime raw))
        λ t. Runs-bind n _ _ (Runs-finish n) λ _. Runs-return n _
  where
    timestamp :
        (o : Option ℤ)
        → Runs n (elim o as (λ _. ParserM ℤ) [ some t ↦ return t | none ↦ fail syntax ])
    timestamp none = Runs-fail n
    timestamp (some t) = Runs-return n t

Runs-parse_named :
    (statement : Bytes → Statement) (n : ℕ) → Runs n (Statements.parse_named statement)
unfolding Statements.parse_named same_type
Runs-parse_named statement n = search parts depth 30

Runs-parse_credentials :
    (statement : Bytes → Bytes → Statement) (n : ℕ)
    → Runs n (Statements.parse_credentials statement)
unfolding Statements.parse_credentials same_type
Runs-parse_credentials statement n = search parts depth 30 fits 2000

Runs-permission_words :
    (stop : Bytes) (fuel n : ℕ)
    → n ≤ fuel
    → (permission : Bytes) → Runs n (Statements.permission_words stop fuel permission)
unfolding Statements.permission_words same_type
Runs-permission_words stop fuel zero h permission = Runs-zero _
Runs-permission_words stop zero (suc n) h permission = absurd (omega arith)
Runs-permission_words stop (suc fuel) (suc n) h permission =
    Runs-bind (suc n) _ _ (Runs-peek (suc n)) λ t.
      Runs-if (suc n) _ _ _ (Runs-return (suc n) permission) (
        Runs-Takes n _ _ (take_lexeme-Takes identifier refl)
          λ word. Runs-permission_words stop fuel n (omega arith) _)

Runs-parse_target_type : (n : ℕ) → Runs n Statements.parse_target_type
unfolding Statements.parse_target_type
Runs-parse_target_type n = search parts depth 30 fits 2000

Runs-parse_permission :
    (preposition : Bytes) (statement : Bytes → Bytes → Bytes → Statement) (n fuel : ℕ)
    → n ≤ fuel
    → Runs n (Statements.parse_permission preposition statement fuel)
unfolding Statements.parse_permission same_type
Runs-parse_permission preposition statement n fuel h =
    search (parts, Runs-permission_words, Runs-parse_target_type) depth 30 fits 2000

Runs-parse_add_user : (n : ℕ) → Runs n Statements.parse_add_user_to_group
unfolding Statements.parse_add_user_to_group same_type
Runs-parse_add_user n = search parts depth 30 fits 2000

Runs-parse_submit_query : (n : ℕ) → Runs n Statements.parse_submit_query
unfolding Statements.parse_submit_query same_type
Runs-parse_submit_query n = search parts depth 30 fits 2000

Runs-parse_task : (statement : Bytes → Statement) (n : ℕ) → Runs n (Statements.parse_task statement)
unfolding Statements.parse_task
Runs-parse_task statement n = search (parts, Runs-parse_named) depth 30

Runs-parse_drop_table : (n : ℕ) → Runs n Statements.parse_drop_table
unfolding Statements.parse_drop_table
Runs-parse_drop_table n = search parts depth 30

Runs-parse_show : (n : ℕ) → Runs n Statements.parse_show
unfolding Statements.parse_show
Runs-parse_show n = search parts depth 30

Runs-dispatch :
    (n : ℕ) (commands : List (Bytes × ParserM Statement))
    → All (λ c. Runs n c.1) commands
    → Runs n (dispatch commands)
unfolding dispatch
Runs-dispatch n [] rs = Runs-fail n
Runs-dispatch n ((keyword, command) ∷ commands) (r, rs) =
    Runs-bind n _ _ (Runs-match_keyword n keyword)
      λ b. Runs-if n b _ _ r (Runs-dispatch n commands rs)

module _ (n : ℕ) where
  Runs-create : Runs n (dispatch (Statements.create_commands n))
  Runs-create = Runs-dispatch n _ (
      search (Runs-parse_named, Runs-parse_create_table n n (omega arith), Runs-parse_credentials)
        depth 20)

  Runs-drop : Runs n (dispatch Statements.drop_commands)
  Runs-drop = Runs-dispatch n _ (search (Runs-parse_named, Runs-parse_drop_table) depth 20)

  pub Runs-parse_statement : (mktime : Mktime) → Runs n (parse_statement mktime n)
  unfolding parse_statement
  Runs-parse_statement mktime = Runs-dispatch n _ (
      search
        (
          Runs-create,
          Runs-drop,
          Runs-parse_named,
          Runs-parse_insert n n (omega arith),
          Runs-parse_select n n (omega arith),
          Runs-parse_update n n (omega arith),
          Runs-parse_delete n n (omega arith),
          Runs-parse_revert,
          Runs-parse_credentials,
          λ (p : Bytes) (s : Bytes → Bytes → Bytes → Statement).
              Runs-parse_permission p s n n (omega arith),
          Runs-parse_add_user,
          Runs-parse_submit_query,
          Runs-parse_task,
          Runs-parse_show,
        )
        depth 30 fits 2000)
