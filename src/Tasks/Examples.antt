-- ===== src/Tasks/Examples.antt =====
-- A queue of two tasks that crashes while one runs.
use database_management_syst.Prelude.{
  ◌≡◌, refl, ap, ◌∙◌, inl, inr, [], ◌∷◌, ◌++◌, List, Bool-cases, append-nil,
}
use database_management_syst.Binary.{Bytes}
use database_management_syst.Value.Order.{eq_bytes→eq}
use database_management_syst.Prelude.Int.{pos}
use database_management_syst.Prelude.Text.{codes}
use database_management_syst.Status.{ok}
use database_management_syst.Value.{eq_bytes}
use database_management_syst.Tasks.{
  TaskInfo, TaskMap, running, new_task, submit, take_task, get_status, requeued, replay_wal,
  is_terminal,
}
use database_management_syst.Tasks.Recovery.{Call, submitted, taken, step, run_calls}
use database_management_syst.Tasks.Replay.{
  after_crash, new_queue, with_id, VisitsEach, absent-with_id, get_status-replay_wal,
}

abbrev first_task : TaskInfo
first_task = new_task (codes "1") (codes "SHOW METRICS") (codes "d") (codes "u") (pos 5)

abbrev second_task : TaskInfo
second_task = new_task (codes "2") (codes "SHOW METRICS") (codes "d") (codes "u") (pos 6)

abbrev calls : List Call
calls = submitted first_task ∷ submitted second_task ∷ taken (pos 7) ∷ []

abbrev first_running : TaskInfo
first_running = record first_task { status = running; started_ms = pos 7 }

status_running : get_status (codes "1") (run_calls calls (new_queue 10)) ≡ ok first_running
unfolding get_status run_calls step submit take_task eq_bytes
status_running = refl

-- A map that is iterated over from its end.
abbrev backwards : TaskMap → List TaskInfo
backwards [] = []
backwards (t ∷ ts) = backwards ts ++ (t ∷ [])

with_id-append :
    (id : Bytes) (xs ys : List TaskInfo) → with_id id (xs ++ ys) ≡ with_id id xs ++ with_id id ys
with_id-append id [] ys = refl
with_id-append id (x ∷ xs) ys = elim (Bool-cases (eq_bytes x.request_id id)) [
  | inl e ↦ rw e (ap (x ∷◌) (with_id-append id xs ys))
  | inr e ↦ rw e (with_id-append id xs ys)
]

backwards-VisitsEach : VisitsEach backwards
backwards-VisitsEach [] id u = refl
backwards-VisitsEach (t ∷ ts) id (absent, u) =
    with_id-append id (backwards ts) (t ∷ [])
    ∙ ap (λ xs. xs ++ with_id id (t ∷ [])) (backwards-VisitsEach ts id u)
    ∙ elim (Bool-cases (eq_bytes t.request_id id)) [
      | inl e ↦
          let gone : with_id id ts ≡ [] =
            absent-with_id id ts (rw (eq_bytes→eq t.request_id id e) at absent) in
          rw (e, gone) refl
      | inr e ↦ rw e (append-nil (with_id id ts))
    ]

get_status-replay_wal_example :
    let again = replay_wal backwards (after_crash (run_calls calls (new_queue 10))) in
    (get_status (codes "1") again ≡ ok (requeued first_running))
    × (with_id (codes "1") again.pending_queue ≡ requeued first_running ∷ [])
unfolding is_terminal
get_status-replay_wal_example =
    get_status-replay_wal backwards 10 calls (codes "1") first_running backwards-VisitsEach
      status_running
