-- ===== src/Tasks/Recovery.antt =====
-- What the log knows of the tasks, and what is read back from it.
use database_management_syst.Prelude.{
  ◌≡◌, refl, sym, subst, ◌∙◌, inl, inr, List, [], ◌∷◌, ◌++◌, Bool, true, false, Bool-cases,
  Option-cases, not, ◌&&◌, leb, ltb, if◌then◌else◌, Option, none, some, length, arith,
}
use database_management_syst.Prelude.Int.{ℤ}
use database_management_syst.Binary.{Bytes}
use database_management_syst.Value.{eq_bytes}
use database_management_syst.Value.Order.{eq_bytes→eq, eq_bytes_refl}
use database_management_syst.Tasks.{
  without, cancelled, TaskInfo, TaskMap, TaskQueue, Answer, is_terminal, is_cancelled, find_task,
  set_task, erase_task, record_task, submit, cancel, cancel_found, start_task, take_task, finished,
  evict, evict_oldest, finish_task, latest, max_completed_results,
}

pub apart : (a b c : Bytes) → eq_bytes a b ≡ false → eq_bytes a c ≡ true → eq_bytes b c ≡ false
apart a b c h e = elim (Bool-cases (eq_bytes b c)) [
  | inr f ↦ f
  | inl f ↦ absurd (
      ground (
        arith,
        h,
        subst (λ x. eq_bytes a x ≡ true) (eq_bytes→eq a c e ∙ sym (eq_bytes→eq b c f))
            (eq_bytes_refl a),
      ))
]

pub find_task-set_task :
    (id : Bytes) (t : TaskInfo) (ts : TaskMap)
    → find_task id (set_task t ts) ≡ (if eq_bytes t.request_id id then some t else find_task id ts)
unfolding find_task set_task
find_task-set_task id t [] = refl
find_task-set_task id t (u ∷ ts) = elim (Bool-cases (eq_bytes u.request_id t.request_id)) [
  | inl e ↦
      rw (e, eq_bytes→eq u.request_id t.request_id e)
        (elim (Bool-cases (eq_bytes t.request_id id)) [ inl f ↦ rw f refl | inr f ↦ rw f refl ])
  | inr e ↦ rw e (elim (Bool-cases (eq_bytes u.request_id id)) [
    | inl f ↦ rw (f, apart u.request_id t.request_id id e f) refl
    | inr f ↦ rw f (find_task-set_task id t ts)
  ])
]

latest-append :
    (tasks : TaskMap) (lines : List TaskInfo) (t : TaskInfo)
    → latest tasks (lines ++ (t ∷ [])) ≡ set_task t (latest tasks lines)
unfolding latest
latest-append tasks [] t = refl
latest-append tasks (line ∷ lines) t = latest-append (set_task line tasks) lines t

find_task-without :
    (id k : Bytes) (ts : TaskMap) (t : TaskInfo)
    → find_task id (without k ts) ≡ some t
    → find_task id ts ≡ some t
unfolding find_task without
find_task-without id k [] t h = h
find_task-without id k (u ∷ ts) t h = elim (Bool-cases (eq_bytes u.request_id k)) [
  | inr e ↦ elim (Bool-cases (eq_bytes u.request_id id)) [
    | inl f ↦ ground (arith, h, e, f)
    | inr f ↦ rw f (find_task-without id k ts t (ground (arith, h, e, f)))
  ]
  | inl e ↦
      let kept : find_task id (without k ts) ≡ some t = ground (arith, h, e) in
      elim (Bool-cases (eq_bytes u.request_id id)) [
        | inl f ↦
            absurd (gone ts (eq_bytes→eq u.request_id k e) (eq_bytes→eq u.request_id id f) kept)
        | inr f ↦ rw f (find_task-without id k ts t kept)
      ]
]
  where
    gone :
        (ts : TaskMap)
        → u.request_id ≡ k
        → u.request_id ≡ id
        → find_task id (without k ts) ≡ some t
        → ⊥
    gone [] a b h = ground (arith, h)
    gone (v ∷ ts) a b h = elim (Bool-cases (eq_bytes v.request_id k)) [
      | inl e ↦ gone ts a b (ground (arith, h, e))
      | inr e ↦
          gone ts a b
            (ground (arith, h, e, subst (λ x. eq_bytes v.request_id x ≡ false) (sym a ∙ b) e))
    ]

find_task-evict :
    (id k begin : Bytes) (ts : TaskMap) (t : TaskInfo)
    → find_task id (evict k begin ts) ≡ some t
    → find_task id ts ≡ some t
unfolding evict evict_oldest
find_task-evict id k begin ts t h =
    go (ltb max_completed_results (length ts)) (find_task begin ts) h
  where
    gone :
        (b : Bool) (oldest : TaskInfo)
        → find_task id (if b then without oldest.request_id ts else ts) ≡ some t
        → find_task id ts ≡ some t
    gone true oldest h = find_task-without id oldest.request_id ts t h
    gone false oldest h = h

    go :
        (b : Bool) (o : Option TaskInfo)
        → find_task id (if b then evict_oldest k o ts else ts) ≡ some t
        → find_task id ts ≡ some t
    go true none h = h
    go true (some oldest) h =
        gone (is_terminal oldest.status && not (eq_bytes oldest.request_id k)) oldest h
    go false o h = h

-- The last line of each task in the map is the task.
pub record IsLogged (tasks : TaskMap) (wal : List TaskInfo) : Type 0 where
  pub logged :
      (id : Bytes) (t : TaskInfo)
      → find_task id tasks ≡ some t
      → find_task id (latest [] wal) ≡ some t

set_task-IsLogged :
    (t : TaskInfo) (tasks : TaskMap) (wal : List TaskInfo)
    → IsLogged tasks wal
    → IsLogged (set_task t tasks) (wal ++ (t ∷ []))
set_task-IsLogged t tasks wal h = record {
  logged = λ id u e.
      rw (latest-append [] wal t, find_task-set_task id t (latest [] wal))
        (go id u (eq_bytes t.request_id id) (sym (find_task-set_task id t tasks) ∙ e));
}
  where
    go :
        (id : Bytes) (u : TaskInfo) (b : Bool)
        → (if b then some t else find_task id tasks) ≡ some u
        → (if b then some t else find_task id (latest [] wal)) ≡ some u
    go id u true e = e
    go id u false e = h.logged id u e

unknown-IsLogged :
    (t : TaskInfo) (tasks : TaskMap) (wal : List TaskInfo)
    → find_task t.request_id tasks ≡ none
    → IsLogged tasks wal
    → IsLogged tasks (wal ++ (t ∷ []))
unknown-IsLogged t tasks wal absent h = record {
  logged = λ id u e.
      rw (latest-append [] wal t, find_task-set_task id t (latest [] wal))
        (elim (Bool-cases (eq_bytes t.request_id id)) [
          | inr f ↦ rw f (h.logged id u e)
          | inl f ↦
              let there : find_task t.request_id tasks ≡ some u =
                subst (λ k. find_task k tasks ≡ some u) (sym (eq_bytes→eq t.request_id id f)) e in
              absurd (ground (arith, absent, there))
        ]);
}

-- The critical sections that change the state; a new task is queued.
pub data Call : Type 0 where
  submitted : (task : TaskInfo) → Call
  cancelled_at : (id : Bytes) (now : ℤ) → Call
  taken : (now : ℤ) → Call
  ended : (id : Bytes) (answer : Answer) (now : ℤ) (begin : Bytes) → Call

unfoldable pub step : Call → TaskQueue → TaskQueue
step (submitted task) q = (submit task q).1
step (cancelled_at id now) q = (cancel id now q).1
step (taken now) q = (take_task now q).1
step (ended id answer now begin) q = finish_task id answer now begin q

unfoldable pub run_calls : List Call → TaskQueue → TaskQueue
run_calls [] q = q
run_calls (call ∷ calls) q = run_calls calls (step call q)

abbrev pub Logged : TaskQueue → Type 0
Logged q = IsLogged q.task_map q.wal

Logged-if : (b : Bool) (q q' : TaskQueue) → Logged q → Logged q' → Logged (if b then q else q')
Logged-if true q q' h h' = h
Logged-if false q q' h h' = h'

record_task-Logged : (t : TaskInfo) (q : TaskQueue) → Logged q → Logged (record_task t q)
unfolding record_task
record_task-Logged t q h = set_task-IsLogged t q.task_map q.wal h

submit-Logged : (t : TaskInfo) (q : TaskQueue) → Logged q → Logged (submit t q).1
unfolding submit
submit-Logged t q h = elim (Bool-cases (leb q.task_queue_max (length q.pending_queue))) [
  | inl e ↦ rw e h
  | inr e ↦ rw e (record_task-Logged t (record q { pending_queue = q.pending_queue ++ (t ∷ []) }) h)
]

cancel-Logged : (id : Bytes) (now : ℤ) (q : TaskQueue) → Logged q → Logged (cancel id now q).1
unfolding cancel cancel_found
cancel-Logged id now q h = elim (Option-cases (find_task id q.task_map)) [
  | inl e ↦ rw (cancel, e) h
  | inr (t, e) ↦ elim (Bool-cases (is_terminal t.status)) [
    | inl f ↦ rw (cancel, e, f) h
    | inr f ↦
        rw (cancel, e, f)
          (record_task-Logged (record t { status = cancelled; finished_ms = now })
            (record q { pending_queue = erase_task t.request_id q.pending_queue }) h)
  ]
]

start_task-Logged :
    (t : TaskInfo) (o : Option TaskInfo) (now : ℤ) (q : TaskQueue)
    → find_task t.request_id q.task_map ≡ o
    → Logged q
    → Logged (start_task t o now q).1
unfolding start_task
start_task-Logged t none now q e h = unknown-IsLogged t q.task_map q.wal e h
start_task-Logged t (some known) now q e h = elim (Bool-cases (is_cancelled known.status)) [
  | inl f ↦ rw f h
  | inr f ↦ rw f (record_task-Logged _ q h)
]

take_task-Logged : (now : ℤ) (q : TaskQueue) → Logged q → Logged (take_task now q).1
unfolding take_task
take_task-Logged now q h = go q.pending_queue
  where
    go :
        (pending : List TaskInfo)
        → Logged
            (elim pending as (λ _. Option TaskInfo × TaskQueue) [
              | [] ↦ (none, q)
              | task ∷ rest ↦
                  start_task task
                    (find_task task.request_id q.task_map)
                    now
                    (record q { pending_queue = rest })
            ]).1
    go [] = h
    go (t ∷ rest) = start_task-Logged t _ now (record q { pending_queue = rest }) refl h

finish_task-Logged :
    (id : Bytes) (answer : Answer) (now : ℤ) (begin : Bytes) (q : TaskQueue)
    → Logged q
    → Logged (finish_task id answer now begin q)
unfolding finish_task
finish_task-Logged id answer now begin q h = elim (Option-cases (find_task id q.task_map)) [
  | inl e ↦ rw (finish_task, e) h
  | inr (t, e) ↦
      rw (finish_task, e)
        (Logged-if (is_cancelled t.status) _ _ h (
          let after = record_task-Logged (finished answer now t) q h in
          record { logged = λ k u found. after.logged k u (find_task-evict k id begin _ u found) }))
]

step-Logged : (call : Call) (q : TaskQueue) → Logged q → Logged (step call q)
unfolding step
step-Logged (submitted task) q h = submit-Logged task q h
step-Logged (cancelled_at id now) q h = cancel-Logged id now q h
step-Logged (taken now) q h = take_task-Logged now q h
step-Logged (ended id answer now begin) q h = finish_task-Logged id answer now begin q h

pub run_calls-Logged : (calls : List Call) (q : TaskQueue) → Logged q → Logged (run_calls calls q)
unfolding run_calls
run_calls-Logged [] q h = h
run_calls-Logged (call ∷ calls) q h = run_calls-Logged calls _ (step-Logged call q h)
