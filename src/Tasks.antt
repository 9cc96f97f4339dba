-- ===== src/Tasks.antt =====
-- queue/task_queue.cpp: tasks that workers run, with a log of every change. Each critical section of the
-- source is a step, since it holds the mutex. A line of the log is the task that its JSON stands for;
-- opening, writing and renaming it succeed. The clock, new ids, the executor's answer
-- and the order of an unordered_map are arguments.
pub mod Recovery
pub mod Replay
mod Examples
use database_management_syst.Prelude.{
  ℕ, List, [], ◌∷◌, ◌++◌, Bool, true, false, not, ◌&&◌, leb, ltb, if◌then◌else◌, Option, none, some,
  length,
}
use database_management_syst.Prelude.Int.{ℤ, pos}
use database_management_syst.Status.{Result, ok, err, internal_error, invalid_argument, not_found}
use database_management_syst.Binary.{Bytes}
use database_management_syst.Value.{eq_bytes}

pub data TaskStatus : Type 0 where
  queued running completed failed cancelled : TaskStatus

pub record TaskInfo : Type 0 where
  pub request_id : Bytes
  pub sql : Bytes
  pub database : Bytes
  pub user_id : Bytes
  pub status : TaskStatus
  pub progress : ℕ
  pub result : Bytes
  pub error : Bytes
  pub submitted_ms : ℤ
  pub started_ms : ℤ
  pub finished_ms : ℤ
  pub retry_count : ℕ

unfoldable pub is_terminal : TaskStatus → Bool
is_terminal completed = true
is_terminal failed = true
is_terminal cancelled = true
is_terminal status = false

unfoldable pub is_cancelled : TaskStatus → Bool
is_cancelled cancelled = true
is_cancelled status = false

-- The std::unordered_map of tasks by their ids, whose order is unspecified: `evict` takes the entry at
-- its beginning as an argument, and `replay_wal` the iteration.
abbrev pub TaskMap : Type 0
TaskMap = List TaskInfo

unfoldable pub find_task : Bytes → TaskMap → Option TaskInfo
find_task id [] = none
find_task id (t ∷ ts) =
    let rest = find_task id ts in if eq_bytes t.request_id id then some t else rest

-- `task_map_[task.request_id] = task`
unfoldable pub set_task : TaskInfo → TaskMap → TaskMap
set_task task [] = task ∷ []
set_task task (t ∷ ts) =
    let rest = set_task task ts in
    if eq_bytes t.request_id task.request_id then task ∷ ts else t ∷ rest

-- Of the pending tasks, the first with that id goes.
unfoldable pub erase_task : Bytes → List TaskInfo → List TaskInfo
erase_task id [] = []
erase_task id (t ∷ ts) =
    let rest = erase_task id ts in if eq_bytes t.request_id id then ts else t ∷ rest

pub record TaskQueue : Type 0 where
  pub task_queue_max : ℕ
  pub pending_queue : List TaskInfo
  pub task_map : TaskMap
  pub wal : List TaskInfo

abbrev pub max_completed_results : ℕ
max_completed_results = 10000

-- The map's entry and a line of the log.
unfoldable pub record_task : TaskInfo → TaskQueue → TaskQueue
unfolding set_task
record_task task q = record q { task_map = set_task task q.task_map; wal = q.wal ++ (task ∷ []) }

abbrev pub new_task : Bytes → Bytes → Bytes → Bytes → ℤ → TaskInfo
new_task id sql database user_id now = record {
  request_id = id;
  sql = sql;
  database = database;
  user_id = user_id;
  status = queued;
  progress = 0;
  result = [];
  error = [];
  submitted_ms = now;
  started_ms = pos 0;
  finished_ms = pos 0;
  retry_count = 0;
}

unfoldable pub submit : TaskInfo → TaskQueue → Result Bytes × TaskQueue
unfolding record_task
submit task q = if leb q.task_queue_max (length q.pending_queue) then (err internal_error, q) else (
  ok task.request_id,
  record_task task (record q { pending_queue = q.pending_queue ++ (task ∷ []) }),
)

unfoldable pub get_status : Bytes → TaskQueue → Result TaskInfo
unfolding find_task
get_status id q = elim (find_task id q.task_map) [ none ↦ err not_found | some task ↦ ok task ]

unfoldable pub cancel_found : TaskInfo → ℤ → TaskQueue → Result (Unit {0}) × TaskQueue
unfolding is_terminal erase_task record_task
cancel_found task now q = if is_terminal task.status then (err invalid_argument, q) else (
  ok tt,
  record_task (record task { status = cancelled; finished_ms = now })
      (record q { pending_queue = erase_task task.request_id q.pending_queue }),
)

unfoldable pub cancel : Bytes → ℤ → TaskQueue → Result (Unit {0}) × TaskQueue
unfolding find_task cancel_found
cancel id now q = elim (find_task id q.task_map) [
  | none ↦ (err not_found, q)
  | some task ↦ cancel_found task now q
]

-- What a worker makes of the task it has taken from the queue, and the task that it runs, if any.
unfoldable pub start_task : TaskInfo → Option TaskInfo → ℤ → TaskQueue → Option TaskInfo × TaskQueue
unfolding is_cancelled record_task
start_task task none now q = (some task, record q { wal = q.wal ++ (task ∷ []) })
start_task task (some known) now q =
    let started = record known { status = running; started_ms = now } in
    if is_cancelled known.status then (none, q) else (some started, record_task started q)

unfoldable pub take_task : ℤ → TaskQueue → Option TaskInfo × TaskQueue
unfolding find_task start_task
take_task now q = elim q.pending_queue [
  | [] ↦ (none, q)
  | task ∷ rest ↦
      start_task task (find_task task.request_id q.task_map) now (record q { pending_queue = rest })
]

-- The executor's answer: the result it has put into the task, or the message of its failure.
pub data Answer : Type 0 where
  answered refused : Bytes → Answer

unfoldable pub finished : Answer → ℤ → TaskInfo → TaskInfo
finished (answered text) now t = record t {
  status = completed;
  progress = 100;
  result = text;
  finished_ms = now;
}
finished (refused text) now t = record t { status = failed; error = text; finished_ms = now }

-- `erase` of a map, where an id stands once.
unfoldable pub without : Bytes → TaskMap → TaskMap
without id [] = []
without id (t ∷ ts) =
    let rest = without id ts in if eq_bytes t.request_id id then rest else t ∷ rest

-- The task that `begin()` of the map stands at goes, if it has ended and is not the present one.
unfoldable pub evict_oldest : Bytes → Option TaskInfo → TaskMap → TaskMap
unfolding is_terminal without
evict_oldest id none tasks = tasks
evict_oldest id (some oldest) tasks =
    if is_terminal oldest.status && not (eq_bytes oldest.request_id id)
    then without oldest.request_id tasks
    else tasks

-- Above the limit. The order of an unordered_map is unspecified, so the key that `begin()` stands at is
-- the second argument, which may be any key of the map.
unfoldable pub evict : Bytes → Bytes → TaskMap → TaskMap
unfolding find_task evict_oldest
evict id begin tasks =
    if ltb max_completed_results (length tasks)
    then evict_oldest id (find_task begin tasks) tasks
    else tasks

unfoldable pub finish_task : Bytes → Answer → ℤ → Bytes → TaskQueue → TaskQueue
unfolding find_task is_cancelled finished record_task evict
finish_task id answer now begin q = elim (find_task id q.task_map) [
  | none ↦ q
  | some task ↦
      let ended = record_task (finished answer now task) q in
      if is_cancelled task.status
      then q
      else record ended { task_map = evict id begin ended.task_map }
]

-- The last line of each task.
unfoldable pub latest : TaskMap → List TaskInfo → TaskMap
unfolding set_task
latest tasks [] = tasks
latest tasks (line ∷ lines) = latest (set_task line tasks) lines

unfoldable pub requeued : TaskInfo → TaskInfo
unfolding is_terminal
requeued t = if is_terminal t.status then t else record t { status = queued }

unfoldable pub unfinished : List TaskInfo → List TaskInfo
unfolding requeued is_terminal
unfinished [] = []
unfinished (t ∷ ts) =
    let rest = unfinished ts in if is_terminal t.status then rest else requeued t ∷ rest

unfoldable pub put_back : List TaskInfo → TaskMap → TaskMap
unfolding set_task requeued
put_back [] tasks = tasks
put_back (t ∷ ts) tasks = set_task (requeued t) (put_back ts tasks)

-- The log is then written anew, a line for each task of the map. The first argument is the iteration
-- over an unordered_map.
unfoldable pub replay_wal : (TaskMap → List TaskInfo) → TaskQueue → TaskQueue
unfolding latest put_back unfinished
replay_wal traversed q =
    let last_lines = traversed (latest [] q.wal) in
    let tasks = put_back last_lines q.task_map in
    record q {
      task_map = tasks;
      pending_queue = q.pending_queue ++ unfinished last_lines;
      wal = traversed tasks;
    }
