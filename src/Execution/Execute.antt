-- ===== src/Execution/Execute.antt =====
-- execution/executor.cpp with create_table_executor.cpp and create_index_executor.cpp, and
-- server/query_processor.cpp: the plan of a text is run, and the session's database follows a USE.
use database_management_syst.Status.{ok, err, StatusCode}
use database_management_syst.Binary.{Bytes}
use database_management_syst.Versions.Revert.{revert_table_to_timestamp}
use database_management_syst.Parser.Tokens.{Parsed}
use database_management_syst.Parser.Timestamp.{Mktime}
use database_management_syst.Parser.Syntax.{Statement}
use database_management_syst.Parser.Statements.{parse}
use database_management_syst.Planner.Plans.{PhysicalPlan}
use database_management_syst.Planner.Build.{build_physical_plan}
use database_management_syst.Evaluation.{RegexMatch}
use database_management_syst.Execution.Engine.{
  EngineM, ◌>>=◌, return, Engine, QueryResult, affected,
}
use database_management_syst.Execution.Select.{seq_scan, index_scan}
use database_management_syst.Execution.Write.{execute_insert, execute_update, execute_delete}

-- A call without a result of its own.
abbrev pub done : {S : Type 0} → EngineM S (Unit {0}) → EngineM S QueryResult
done call = do outputs ← call; return (affected 0)

unfoldable pub execute : {S : Type 0} → Engine S → RegexMatch → PhysicalPlan → EngineM S QueryResult
unfolding seq_scan index_scan execute_insert execute_update execute_delete revert_table_to_timestamp
execute engine regex (PhysicalPlan.create_database name) = done (engine.create_database name)
execute engine regex (PhysicalPlan.drop_database name) = done (engine.drop_database name)
execute engine regex (PhysicalPlan.use_database name) = return (affected 0)
execute engine regex (PhysicalPlan.create_table descriptor) = done (engine.create_table descriptor)
execute engine regex (PhysicalPlan.drop_table db table) = done (engine.drop_table db table)
execute engine regex (PhysicalPlan.seq_scan db table select_all columns predicate) =
    seq_scan engine regex db table
      (record { select_all = select_all; columns = columns; predicate = predicate })
execute engine regex (PhysicalPlan.index_scan db table index_name select_all columns predicate) =
    index_scan engine regex db table
      (record { select_all = select_all; columns = columns; predicate = predicate }) index_name
execute engine regex (PhysicalPlan.insert db table columns rows) =
    execute_insert engine regex db table columns rows
execute engine regex (PhysicalPlan.update db table assignments predicate) =
    execute_update engine regex db table assignments predicate
execute engine regex (PhysicalPlan.delete db table predicate) =
    execute_delete engine regex db table predicate
execute engine regex (PhysicalPlan.create_index descriptor key_type) =
    done (engine.create_index descriptor key_type)
execute engine regex (PhysicalPlan.revert db table timestamp_ms) =
    done (revert_table_to_timestamp engine.revert_ops db table timestamp_ms)

-- `ctx.current_db` after the plan is run.
unfoldable pub next_db : PhysicalPlan → Bytes → Bytes
next_db (PhysicalPlan.use_database name) current_db = name
next_db plan current_db = current_db

-- A QueryResult of the query processor, its message's prefix as a constructor.
pub data QueryAnswer : Type 0 where
  answered : (result : QueryResult) → QueryAnswer
  parse_failed : QueryAnswer
  plan_failed execute_failed : (code : StatusCode) → QueryAnswer

-- With the session's current database.
unfoldable pub run_plan :
    {S : Type 0} → Engine S → RegexMatch → PhysicalPlan → Bytes → S → QueryAnswer × Bytes × S
unfolding execute next_db
run_plan engine regex plan current_db s =
    let (result, s') = execute engine regex plan s in
    let answer : QueryAnswer = elim result [
      | ok out ↦ answered out
      | err code ↦ execute_failed code
    ] in
    (answer, next_db plan current_db, s')

unfoldable pub run_statement :
    {S : Type 0} → Engine S → RegexMatch → Statement → Bytes → S → QueryAnswer × Bytes × S
unfolding build_physical_plan run_plan
run_statement engine regex statement current_db s =
    elim (build_physical_plan (engine.get_table s) current_db statement) [
      | ok plan ↦ run_plan engine regex plan current_db s
      | err code ↦ (plan_failed code, current_db, s)
    ]

unfoldable pub run_query :
    {S : Type 0} → Engine S → RegexMatch → Mktime → Bytes → Bytes → S → QueryAnswer × Bytes × S
unfolding parse run_statement
run_query engine regex mktime sql current_db s = elim (parse mktime sql) [
  | Parsed.ok statement ↦ run_statement engine regex statement current_db s
  | Parsed.err fault ↦ (parse_failed, current_db, s)
]
