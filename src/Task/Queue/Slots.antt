-- ===== src/Task/Queue/Slots.antt =====
-- The slots of the queue of internal/task/queue.go: whether more downloads run than are allowed, and whether a task
-- waits while a slot is free.
pub mod Served
use afd.Prelude.{
  ℕ, zero, suc, ◌≤◌, ◌<◌, ◌≡◌, refl, ◌∙◌, ◌⊎◌, ℤ, pos, negsuc, ◌+ℤ◌, ◌-ℤ◌, ◌≤ℤ◌, Bool, true, false,
  ◌&&◌, List, [], ◌∷◌, some, String, ap, ◌≢◌, GoMap, lookup, delete, arith, ltb, length, ◌==◌,
  Bool-cases, Option-cases, inl, inr,
}
use afd.Task.Model.{
  Task, TaskStatus, pending, downloading, paused, done, is_pending, is_downloading, set_status,
  set_error,
}
use afd.Task.Heap.{PriorityQueue, pop}
use afd.Task.Heap.Content.{count, pop_keeps}
use afd.Task.Queue.{
  TaskQueue, Event, update, modify, status_of, emit, has_slot, enqueue, mark_started, start_task,
  start_loop, call_started, try_start_next, add, pause, resume, complete_task, fail_task, less_one,
  completed, errored, started, remove_task, drop_task, run_cancel, find_pq_index,
}
use afd.Task.Queue.Invariant.{Inv, of_task, try_start_next-Inv}
use afd.Task.Queue.Invariant.Calls.{complete_task-Inv}
use afd.Task.Queue.Store.{count_tasks}

-- The number of active downloads is within the limit.
abbrev pub IsCapped : TaskQueue → Type 0
IsCapped q = q.active_count ≤ℤ q.max_concurrent

-- No entry waits in the heap while a slot is free.
abbrev pub IsBusy : TaskQueue → Type 0
IsBusy q = (q.max_concurrent ≤ℤ q.active_count) ⊎ (length q.pq ≡ 0)

-- What the two predicates read of the queue.
record SameSlots (p q : TaskQueue) : Type 0 where
  same_active : p.active_count ≡ q.active_count
  same_max : p.max_concurrent ≡ q.max_concurrent
  same_heap : p.pq ≡ q.pq

emit-SameSlots : (b : Bool) (e : Event) (q : TaskQueue) → SameSlots (emit b e q) q
emit-SameSlots true e q = record { same_active = refl; same_max = refl; same_heap = refl }
emit-SameSlots false e q = record { same_active = refl; same_max = refl; same_heap = refl }

call_started-SameSlots : (q : TaskQueue) (rs : List ℕ) → SameSlots (call_started q rs) q
unfolding call_started
call_started-SameSlots q [] = record { same_active = refl; same_max = refl; same_heap = refl }
call_started-SameSlots q (r ∷ rs) =
    let e = emit-SameSlots q.callbacks.on_task_start (started r) q in
    let c = call_started-SameSlots (emit q.callbacks.on_task_start (started r) q) rs in
    record {
      same_active = c.same_active ∙ e.same_active;
      same_max = c.same_max ∙ e.same_max;
      same_heap = c.same_heap ∙ e.same_heap;
    }

start_loop_slots :
    (n now : ℕ) (q : TaskQueue)
    → length q.pq ≤ n
    → IsBusy (start_loop n now q).0
      × (IsCapped q → IsCapped (start_loop n now q).0)
      × ((start_loop n now q).0.max_concurrent ≡ q.max_concurrent)
unfolding start_loop mark_started ◌+ℤ◌
start_loop_slots zero now q h = (inr (omega arith), λ c. c, refl)
start_loop_slots (suc n) now q h = elim (Bool-cases (has_slot q && ltb 0 (length q.pq))) [
  | inr stop ↦ rw stop (ground (arith, stop), λ c. c, refl)
  | inl go ↦
      let some_entry : 0 < length q.pq = ground arith in
      let popped = record q { pq = (pop q.pq).0 } in
      let less = pop_keeps (λ _ _. true) q.pq some_entry in
      elim (Bool-cases (is_pending (status_of q (pop q.pq).1.task))) [
        | inl wait ↦
            let ih =
              start_loop_slots n now (mark_started now popped (pop q.pq).1.task)
                (omega (arith, less)) in
            rw (go, wait) (ih.0, λ c. ih.1 (ground (arith, go, c)), ih.2)
        | inr moved ↦
            let ih = start_loop_slots n now popped (omega (arith, less)) in
            rw (go, moved) (ih.0, λ c. ih.1 c, ih.2)
      ]
]

IsBusy-same : (p q : TaskQueue) → SameSlots p q → IsBusy q → IsBusy p
IsBusy-same p q s b = ground (arith, s.same_active, s.same_max, s.same_heap, b)

IsCapped-same : (p q : TaskQueue) → SameSlots p q → IsCapped q → IsCapped p
IsCapped-same p q s c = ground (arith, s.same_active, s.same_max, c)

pub try_start_next-IsBusy :
    (now : ℕ) (q : TaskQueue)
    → IsBusy (try_start_next now q) × (IsCapped q → IsCapped (try_start_next now q))
unfolding try_start_next
try_start_next-IsBusy now q =
    let l = start_loop_slots (length q.pq) now q (omega arith) in
    let s =
      call_started-SameSlots (start_loop (length q.pq) now q).0
        (start_loop (length q.pq) now q).1 in
    (IsBusy-same _ _ s l.0, λ c. IsCapped-same _ _ s (l.1 c))

-- `Add` of a pending task.
pub add_slots :
    (now : ℕ) (q : TaskQueue) (r : ℕ)
    → status_of q r ≡ pending
    → IsCapped q
    → IsBusy q
    → IsCapped (add now q r).0 × IsBusy (add now q r).0
unfolding add start_task mark_started enqueue ◌+ℤ◌
add_slots now q r wait c b = ground (arith, wait, c, b)

pub resume_slots :
    (now : ℕ) (q : TaskQueue) (id : String)
    → IsCapped q
    → IsBusy q
    → IsCapped (resume now q id).0 × IsBusy (resume now q id).0
unfolding resume start_task mark_started enqueue ◌+ℤ◌
resume_slots now q id c b = ground (arith, c, b)

less_one-le : (n : ℤ) → pos 0 ≤ℤ n → less_one n ≤ℤ n
unfolding ◌-ℤ◌
less_one-le n h = ground (arith, h)

-- `Pause`, `CompleteTask` and `FailTask` give a slot back and fill it again.
pub pause_slots :
    (now : ℕ) (q : TaskQueue) (id : String)
    → IsCapped q
    → IsBusy q
    → IsCapped (pause now q id).0 × IsBusy (pause now q id).0
unfolding pause
pause_slots now q id c b = elim (Option-cases (lookup id q.tasks)) [
  | inl missing ↦ rw (missing, pause) (c, b)
  | inr (r, found) ↦ elim (Bool-cases (is_downloading (status_of q r))) [
    | inr other ↦ rw (found, other, pause) (c, b)
    | inl busy ↦
        let q' = record (modify q r (set_status now paused)) {
          active_count = q.active_count -ℤ pos 1;
        } in
        let t = try_start_next-IsBusy now q' in
        rw (found, busy, pause) (t.1 (unfold ◌-ℤ◌ in ground (arith, c)), t.0)
  ]
]

finish_slots :
    (now : ℕ) (q : TaskQueue) (st : ℕ → Task) (m : GoMap ℕ) (b : Bool) (e : Event)
    → pos 0 ≤ℤ q.active_count
    → IsCapped q
    → let q' =
        emit b e (record q { store = st; tasks = m; active_count = less_one q.active_count }) in
      IsCapped (try_start_next now q') × IsBusy (try_start_next now q')
finish_slots now q st m b e h c =
    let q' = record q { store = st; tasks = m; active_count = less_one q.active_count } in
    let t = try_start_next-IsBusy now (emit b e q') in
    let c' : IsCapped q' = omega (arith, less_one-le q.active_count h, c) in
    (t.1 (IsCapped-same (emit b e q') q' (emit-SameSlots b e q') c'), t.0)

pub complete_task-IsBusy :
    (now : ℕ) (q : TaskQueue) (id : String)
    → pos 0 ≤ℤ q.active_count
    → IsCapped q
    → IsBusy q
    → IsCapped (complete_task now q id) × IsBusy (complete_task now q id)
unfolding complete_task
complete_task-IsBusy now q id h c b = elim (Option-cases (lookup id q.tasks)) [
  | inl missing ↦ rw (missing, complete_task) (c, b)
  | inr (r, found) ↦ elim (Bool-cases (is_downloading (status_of q r))) [
    | inr other ↦ rw (found, other, complete_task) (c, b)
    | inl busy ↦
        rw (found, busy, complete_task)
          (finish_slots now q (update q.store r (set_status now done)) (delete id q.tasks)
            q.callbacks.on_task_complete (completed r) h c)
  ]
]

pub fail_task_slots :
    (now : ℕ) (q : TaskQueue) (id msg : String)
    → pos 0 ≤ℤ q.active_count
    → IsCapped q
    → IsBusy q
    → IsCapped (fail_task now q id msg) × IsBusy (fail_task now q id msg)
unfolding fail_task
fail_task_slots now q id msg h c b = elim (Option-cases (lookup id q.tasks)) [
  | inl missing ↦ rw (missing, fail_task) (c, b)
  | inr (r, found) ↦ elim (Bool-cases (is_downloading (status_of q r))) [
    | inr other ↦ rw (found, other, fail_task) (c, b)
    | inl busy ↦
        rw (found, busy, fail_task)
          (finish_slots now q (update q.store r (set_error now msg)) (delete id q.tasks)
            q.callbacks.on_task_error (errored r) h c)
  ]
]

run_cancel-SameSlots : (q : TaskQueue) (r : ℕ) → SameSlots (run_cancel q r) q
unfolding run_cancel
run_cancel-SameSlots q r = ground arith

-- `Remove` of a downloading task without an entry in the heap, from a queue with no more active tasks than
-- allowed, while an entry waits: a slot is free afterwards and an entry still waits.
pub remove_leaves_slot :
    (q : TaskQueue) (id : String) (r k : ℕ)
    → lookup id q.tasks ≡ some r
    → is_downloading (status_of q r) ≡ true
    → find_pq_index q.store q.pq id ≡ negsuc k
    → IsCapped q
    → 0 < length q.pq
    → ¬ IsBusy (remove_task q id).0
unfolding remove_task drop_task ◌-ℤ◌
remove_leaves_slot q id r k found busy absent c wait b =
    ground (arith, found, busy, absent, c, wait, b)
