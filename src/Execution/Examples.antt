-- ===== src/Execution/Examples.antt =====
-- Statements on a table of users, from their texts to their rows.
mod Memory
use database_management_syst.Prelude.{
  ℕ, ◌≡◌, refl, List, [], ◌∷◌, Bool, true, false, Option, none, some, arith, All,
}
use database_management_syst.Prelude.Int.{pos}
use database_management_syst.Prelude.Text.{codes}
use database_management_syst.Prelude.Sets.{contains, is_empty}
use database_management_syst.Status.{Result, ok, err}
use database_management_syst.Status
use database_management_syst.Binary.{Bytes}
use database_management_syst.Value.{Value, int, string, bool, eq_bytes, is_null, value_type}
use database_management_syst.Value
use database_management_syst.Schema.{find_column, find_column_schema}
use database_management_syst.Serialization.Rows.{Row, Tuple}
use database_management_syst.Parser.Syntax.{
  eq, and, or, gt, Expr, column_ref, literal, binary, logical, QualifiedName, SelectItem, Statement,
}
use database_management_syst.Planner.Plans.{PhysicalPlan}
use database_management_syst.Planner.Binder.{bind, bind_table, check_table}
use database_management_syst.Planner.Build.{index_of_column, indexed_equality, build_physical_plan}
use database_management_syst.Evaluation.{RegexMatch, evaluate}
use database_management_syst.Execution.Engine.{◌>>=◌, return, QueryResult, affected}
use database_management_syst.Execution.Select.{
  project_row, matches, collect_rows, is_active, with_rows,
}
use database_management_syst.Execution.Write.{build_tuple, execute_delete}
use database_management_syst.Execution.Bound.{project_row_bound}
use database_management_syst.Execution.Rows.{IsComplete, build_tuple-IsComplete}
use database_management_syst.Execution.Execute.{
  QueryAnswer, answered, run_plan, run_statement, execute,
}
use database_management_syst.Execution.IndexChoice.{
  FirstEquality, column_first, literal_first, on_left, on_right, Evaluates, Finds,
}
use database_management_syst.Execution.SelectPlan.{
  run_statement_by_index, run_statement_other_column,
}
use database_management_syst.Execution.Changes.{plan_rows, carry_out}
use database_management_syst.Execution.Changes.Tables.{deletion, delete_call, execute_delete_lem}
use database_management_syst.Execution.Examples.Memory.{users, user, memory}

abbrev no_regex : RegexMatch
no_regex text pattern_text = none

abbrev users_name : QualifiedName
users_name = record { database_name = []; table_name = codes "users" }

abbrev is_number : Bytes → ℕ → Expr
is_number name n = binary eq (column_ref name) (literal (int (pos n)))

abbrev two_users : List Row
two_users = user 1 30 5 ∷ user 2 40 7 ∷ []

abbrev by_id : Expr
by_id = is_number (codes "id") 7

abbrev by_age_and_id : Expr
by_age_and_id = logical and (is_number (codes "age") 30) (is_number (codes "id") 5)

abbrev statement : Expr → Statement
statement e = Statement.select users_name true [] (some e)

abbrev full_scan : Expr → PhysicalPlan
full_scan e = PhysicalPlan.seq_scan (codes "d") (codes "users") true [] (some e)

run_statement_by_index_example :
    (run_statement memory no_regex (statement by_id) (codes "d") two_users).0
    ≡ (run_plan memory no_regex (full_scan by_id) (codes "d") two_users).0
unfolding bind evaluate is_active index_of_column find_column eq_bytes Value.eq
run_statement_by_index_example =
    run_statement_by_index memory no_regex users_name true [] by_id (codes "d") two_users
      (codes "users_id_idx") users (some 2) two_users two_users column_first refl refl refl refl
      refl ((λ active. (bool false, refl)), ((λ active. (bool true, refl)), tt))
      ((λ active h. absurd (ground (arith, h))), ((λ active h. refl), tt))

-- The row that a look at every row finds is missed, since the index of `id` is asked for 30.
run_statement_other_column_example :
    (run_statement memory no_regex (statement by_age_and_id) (codes "d") two_users).0
    ≡ answered (
        with_rows users.schema
          (record { select_all = true; columns = []; predicate = some by_age_and_id })
          [])
unfolding bind indexed_equality eq_bytes Value.eq
run_statement_other_column_example =
    run_statement_other_column memory no_regex users_name true [] by_age_and_id (codes "d")
      two_users (codes "users_id_idx") users (on_left column_first) refl refl refl refl

scan_of_age_and_id :
    (run_plan memory no_regex (full_scan by_age_and_id) (codes "d") two_users).0
    ≡ answered (
        with_rows users.schema
          (record { select_all = true; columns = []; predicate = some by_age_and_id })
          (some (int (pos 30) ∷ int (pos 5) ∷ []) ∷ []))
unfolding run_plan eq_bytes Value.eq
scan_of_age_and_id = refl

-- A condition whose evaluation fails at the second row: a number is compared with a text.
abbrev half_failing : Expr
half_failing =
    logical or (is_number (codes "id") 5)
      (binary eq (column_ref (codes "age")) (literal (string (codes "x"))))

abbrev test_half : Row → Result Bool
test_half row = matches no_regex (some half_failing) users.schema row.tuple

execute_delete_lem_example :
    execute_delete memory no_regex (codes "d") (codes "users") (some half_failing) two_users
    ≡ (carry_out
            (delete_call memory (codes "d") (codes "users"))
            (plan_rows test_half deletion two_users)
          >>= λ n. return (affected n))
        two_users
execute_delete_lem_example =
    execute_delete_lem memory no_regex (codes "d") (codes "users") (some half_failing) users
      two_users two_users two_users two_users refl refl

-- The first row's deletion is planned all the same, and done.
planned_half : plan_rows test_half deletion two_users ≡ (1 ∷ [], err Status.execution_error)
unfolding plan_rows matches eq_bytes Value.eq find_column
planned_half = refl

deleted_half :
    execute_delete memory no_regex (codes "d") (codes "users") (some half_failing) two_users
    ≡ (err Status.execution_error, record (user 1 30 5) { deleted = true } ∷ user 2 40 7 ∷ [])
unfolding execute_delete matches eq_bytes Value.eq find_column
deleted_half = refl

abbrev new_age : List (Bytes × Value)
new_age = (codes "age", int (pos 31)) ∷ []

-- The values of a row of users, in the order of an INSERT.
abbrev id_and_age : List Bytes
id_and_age = codes "id" ∷ codes "age" ∷ []

built :
    build_tuple users.schema id_and_age (int (pos 5) ∷ int (pos 30) ∷ []) ≡ ok (user 1 30 5).tuple
unfolding build_tuple eq_bytes
built = refl

build_tuple-IsComplete_example : IsComplete users.schema (user 1 30 5).tuple
build_tuple-IsComplete_example =
    build_tuple-IsComplete users.schema id_and_age (int (pos 5) ∷ int (pos 30) ∷ [])
      (user 1 30 5).tuple built

abbrev only_id : List SelectItem
only_id = record { column = codes "id"; alias = [] } ∷ []

project_row_bound_example :
    (values : Tuple) × (project_row users.schema (user 1 30 5).tuple false only_id ≡ some values)
unfolding bind eq_bytes
project_row_bound_example =
    project_row_bound (memory.get_table []) (codes "d") users_name false only_id none users
      (user 1 30 5).tuple refl refl
