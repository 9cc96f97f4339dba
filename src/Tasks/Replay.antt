-- ===== src/Tasks/Replay.antt =====
-- A queue that starts from the log of one that has crashed.
use database_management_syst.Prelude.{
  ℕ, ◌≡◌, refl, ap, ◌∙◌, inl, inr, List, [], ◌∷◌, Bool, true, false, Bool-cases, if◌then◌else◌,
  Option, none, some, arith,
}
use database_management_syst.Status.{Result, ok, err, not_found}
use database_management_syst.Binary.{Bytes}
use database_management_syst.Value.{eq_bytes}
use database_management_syst.Value.Order.{eq_bytes→eq, eq_bytes_refl}
use database_management_syst.Tasks.{
  TaskInfo, TaskMap, TaskQueue, is_terminal, find_task, get_status, latest, requeued, put_back,
  set_task, unfinished, replay_wal,
}
use database_management_syst.Tasks.Recovery.{
  Call, apart, run_calls, run_calls-Logged, find_task-set_task,
}

requeued_id : (t : TaskInfo) → (requeued t).request_id ≡ t.request_id
unfolding requeued
requeued_id t = elim (Bool-cases (is_terminal t.status)) [ inl e ↦ rw e refl | inr e ↦ rw e refl ]

find_task-put_back :
    (id : Bytes) (ts : TaskMap) (t : TaskInfo)
    → find_task id ts ≡ some t
    → find_task id (put_back ts []) ≡ some (requeued t)
unfolding put_back find_task
find_task-put_back id [] t h = absurd (none_found h)
  where
    none_found : find_task id [] ≡ some t → ⊥
    none_found h = ground (arith, h)
find_task-put_back id (u ∷ ts) t h =
    rw (find_task-set_task id (requeued u) (put_back ts []), requeued_id u)
      (go (find_task-put_back id ts t) (eq_bytes u.request_id id) h)
  where
    go :
        (find_task id ts ≡ some t → find_task id (put_back ts []) ≡ some (requeued t))
        → (b : Bool) → (if b then some u else find_task id ts) ≡ some t
        → (if b then some (requeued u) else find_task id (put_back ts [])) ≡ some (requeued t)
    go rest true e = ground (arith, e)
    go rest false e = rest e

-- The entries with an id.
abbrev pub with_id : Bytes → List TaskInfo → List TaskInfo
with_id id [] = []
with_id id (t ∷ ts) =
    let rest = with_id id ts in if eq_bytes t.request_id id then t ∷ rest else rest

-- Each id stands once.
abbrev pub Unique : TaskMap → Type 0
Unique [] = Unit {0}
Unique (t ∷ ts) = (find_task t.request_id ts ≡ none) × Unique ts

set_task-Unique : (t : TaskInfo) (ts : TaskMap) → Unique ts → Unique (set_task t ts)
unfolding set_task find_task
set_task-Unique t [] u = (refl, tt)
set_task-Unique t (v ∷ ts) (absent, u) = elim (Bool-cases (eq_bytes v.request_id t.request_id)) [
  | inl e ↦ rw e (rw (eq_bytes→eq v.request_id t.request_id e) at absent, u)
  | inr e ↦
      let flipped : eq_bytes t.request_id v.request_id ≡ false =
        apart v.request_id t.request_id v.request_id e (eq_bytes_refl v.request_id) in
      rw e (rw (find_task-set_task v.request_id t ts, flipped) absent, set_task-Unique t ts u)
]

latest-Unique :
    (tasks : TaskMap) (lines : List TaskInfo) → Unique tasks → Unique (latest tasks lines)
unfolding latest
latest-Unique tasks [] u = u
latest-Unique tasks (line ∷ lines) u =
    latest-Unique (set_task line tasks) lines (set_task-Unique line tasks u)

pub absent-with_id : (id : Bytes) (ts : TaskMap) → find_task id ts ≡ none → with_id id ts ≡ []
unfolding find_task
absent-with_id id [] h = refl
absent-with_id id (t ∷ ts) h = elim (Bool-cases (eq_bytes t.request_id id)) [
  | inl e ↦ absurd (ground (arith, h, e))
  | inr e ↦ rw e (absent-with_id id ts (ground (arith, h, e)))
]

found-with_id :
    (id : Bytes) (ts : TaskMap) (t : TaskInfo)
    → Unique ts
    → find_task id ts ≡ some t
    → with_id id ts ≡ t ∷ []
unfolding find_task
found-with_id id [] t u h = absurd (ground (arith, h))
found-with_id id (v ∷ ts) t (absent, u) h = elim (Bool-cases (eq_bytes v.request_id id)) [
  | inl e ↦
      let none_left : find_task id ts ≡ none = rw (eq_bytes→eq v.request_id id e) at absent in
      let same : v ≡ t = ground (arith, h, e) in rw (e, absent-with_id id ts none_left, same) refl
  | inr e ↦ rw e (found-with_id id ts t u (ground (arith, h, e)))
]

find_task-with_id :
    (id : Bytes) (ts : List TaskInfo) (t : TaskInfo)
    → with_id id ts ≡ t ∷ []
    → find_task id ts ≡ some t
unfolding find_task
find_task-with_id id [] t h = absurd (ground (arith, h))
find_task-with_id id (v ∷ ts) t h = elim (Bool-cases (eq_bytes v.request_id id)) [
  | inl e ↦ ground (arith, h, e)
  | inr e ↦ rw e (find_task-with_id id ts t (rw e at h))
]

with_id-unfinished :
    (id : Bytes) (ts : List TaskInfo) → with_id id (unfinished ts) ≡ unfinished (with_id id ts)
unfolding unfinished requeued
with_id-unfinished id [] = refl
with_id-unfinished id (t ∷ ts) =
    let rest = with_id-unfinished id ts in
    elim (Bool-cases (is_terminal t.status)) [
      | inl f ↦ elim (Bool-cases (eq_bytes t.request_id id)) [
        | inl e ↦ rw (f, e) (rw f rest)
        | inr e ↦ rw (f, e) rest
      ]
      | inr f ↦ elim (Bool-cases (eq_bytes t.request_id id)) [
        | inl e ↦ rw (f, e) (rw (f, rest) refl)
        | inr e ↦ rw (f, e) rest
      ]
    ]

-- What is left of a queue after a crash: the log, and the configuration.
abbrev pub after_crash : TaskQueue → TaskQueue
after_crash q = record q { pending_queue = []; task_map = [] }

abbrev pub new_queue : ℕ → TaskQueue
new_queue task_queue_max = record {
  task_queue_max = task_queue_max;
  pending_queue = [];
  task_map = [];
  wal = [];
}

-- An iteration over a map, in which each id stands once, visits the entry of each id once.
abbrev pub VisitsEach : (TaskMap → List TaskInfo) → Type 0
VisitsEach traversed =
    (tasks : TaskMap) (id : Bytes) → Unique tasks → with_id id (traversed tasks) ≡ with_id id tasks

-- After any calls on a new queue and a crash at any point between them, starting from the log finds
-- each task that could be asked for before, as it was, except that one that had not ended has the
-- status queued; of this id exactly that task is pending if it had not ended, and none if it had. This
-- holds in whatever order the map is iterated over, as long as each of its entries is visited once.
pub get_status-replay_wal :
    (traversed : TaskMap → List TaskInfo) (task_queue_max : ℕ) (calls : List Call) (id : Bytes)
    (t : TaskInfo)
    → VisitsEach traversed
    → get_status id (run_calls calls (new_queue task_queue_max)) ≡ ok t
    → let again = replay_wal traversed (after_crash (run_calls calls (new_queue task_queue_max))) in
      (get_status id again ≡ ok (requeued t))
      × (with_id id again.pending_queue ≡ (if is_terminal t.status then [] else requeued t ∷ []))
unfolding get_status replay_wal unfinished
get_status-replay_wal traversed task_queue_max calls id t visits h = (
  ap answer (find_task-put_back id last_lines t (find_task-with_id id last_lines t visited)),
  with_id-unfinished id last_lines ∙ ap unfinished visited,
)
  where
    q : TaskQueue
    q = run_calls calls (new_queue task_queue_max)

    last_lines : List TaskInfo
    last_lines = traversed (latest [] q.wal)

    answer : Option TaskInfo → Result TaskInfo
    answer o = elim o [ none ↦ err not_found | some task ↦ ok task ]

    found : (o : Option TaskInfo) → answer o ≡ ok t → o ≡ some t
    found none e = absurd (ground (arith, e))
    found (some u) e = ground (arith, e)

    in_log : find_task id (latest [] q.wal) ≡ some t
    in_log =
        (run_calls-Logged calls (new_queue task_queue_max) (record { logged = λ id u e. e })).logged
          id t (found (find_task id q.task_map) h)

    visited : with_id id last_lines ≡ t ∷ []
    visited =
        visits (latest [] q.wal) id (latest-Unique [] q.wal tt)
        ∙ found-with_id id (latest [] q.wal) t (latest-Unique [] q.wal tt) in_log
