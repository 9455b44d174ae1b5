-- ===== src/Task/Queue/Invariant/Exact.antt =====
-- internal/task/queue.go: that the entries of the heap are of pending tasks, one for each, in `tryStartNext`,
-- `Add`, `Pause` and `CompleteTask`.
use afd.Prelude.{
  ℕ, zero, suc, ◌≤◌, ◌<◌, ◌≡◌, refl, ap, ◌∙◌, ℤ, pos, ◌-ℤ◌, Bool, true, false, ◌&&◌, List, [], ◌∷◌,
  String, lookup, insert, delete, has_key, arith, ltb, ◌==◌, length, Bool-cases, Option-cases, inl,
  inr,
}
use afd.Task.Model.{
  Task, TaskStatus, pending, downloading, paused, done, is_pending, is_downloading, set_status,
}
use afd.Task.Heap.{pop}
use afd.Task.Heap.Content.{count, push_keeps, pop_keeps}
use afd.Task.Queue.{
  TaskQueue, Event, update, modify, status_of, emit, has_slot, item_of, enqueue, mark_started,
  start_task, start_loop, call_started, try_start_next, started, completed, add, pause,
  complete_task, less_one, Callbacks, new_task_queue,
}
use afd.Task.Queue.Invariant.{of_task, Inv}
use afd.Task.Queue.Invariant.Calls.{has_key-lookup, add-Inv, complete_task-Inv}

-- Every entry is of a pending task, and no task has two.
pub record Exact (q : TaskQueue) : Type 0 where
  pub fresh : (r : ℕ) → 0 < count (of_task r) q.pq → status_of q r ≡ pending
  pub once : (r : ℕ) → count (of_task r) q.pq ≤ 1

-- A task without an entry may change, and whatever else changes but the store and the heap.
change-Exact :
    (q q' : TaskQueue) (r : ℕ)
    → q'.pq ≡ q.pq
    → ((x : ℕ) → (x == r) ≡ false → status_of q' x ≡ status_of q x)
    → count (of_task r) q.pq ≡ 0
    → Exact q
    → Exact q'
change-Exact q q' r same others none_left v = record {
  fresh = λ x c. elim (Bool-cases (x == r)) [
    | inl here ↦
        let e : x ≡ r = ground (arith, here) in absurd (omega (arith, none_left, rw (same, e) at c))
    | inr other ↦ others x other ∙ v.fresh x (rw same at c)
  ];
  once = λ x. rw same (v.once x);
}

emit-Exact : (b : Bool) (e : Event) (q : TaskQueue) → Exact q → Exact (emit b e q)
emit-Exact true e q v = record { fresh = v.fresh; once = v.once }
emit-Exact false e q v = v

pop-Exact :
    (q : TaskQueue)
    → 0 < length q.pq
    → Exact q
    → Exact (record q { pq = (pop q.pq).0 }) × (count (of_task (pop q.pq).1.task) (pop q.pq).0 ≡ 0)
pop-Exact q h v = (
  record {
    fresh = λ x c. v.fresh x (ground (arith, c, pop_keeps (of_task x) q.pq h));
    once = λ x. ground (arith, v.once x, pop_keeps (of_task x) q.pq h);
  },
  ground (arith, v.once (pop q.pq).1.task, pop_keeps (of_task (pop q.pq).1.task) q.pq h),
)

other_status :
    (q : TaskQueue) (r : ℕ) (f : Task → Task) (x : ℕ)
    → (x == r) ≡ false
    → (update q.store r f x).status ≡ status_of q x
other_status q r f x other = rw other refl

start_loop-Exact : (n now : ℕ) (q : TaskQueue) → Exact q → Exact (start_loop n now q).0
unfolding start_loop mark_started
start_loop-Exact zero now q v = v
start_loop-Exact (suc n) now q v = elim (Bool-cases (has_slot q && ltb 0 (length q.pq))) [
  | inr stop ↦ rw stop v
  | inl go ↦
      let popped = record q { pq = (pop q.pq).0 } in
      let r : ℕ = (pop q.pq).1.task in
      let p = pop-Exact q (ground (arith, go)) v in
      elim (Bool-cases (is_pending (status_of q r))) [
        | inl wait ↦
            rw (go, wait)
              (start_loop-Exact n now (mark_started now popped r) (
                change-Exact popped (mark_started now popped r) r refl
                  (other_status q r (set_status now downloading)) p.1 p.0))
        | inr moved ↦ rw (go, moved) (start_loop-Exact n now popped p.0)
      ]
]

call_started-Exact : (q : TaskQueue) (rs : List ℕ) → Exact q → Exact (call_started q rs)
unfolding call_started
call_started-Exact q [] v = v
call_started-Exact q (r ∷ rs) v =
    call_started-Exact _ rs (emit-Exact q.callbacks.on_task_start (started r) q v)

pub try_start_next-Exact : (now : ℕ) (q : TaskQueue) → Exact q → Exact (try_start_next now q)
unfolding try_start_next
try_start_next-Exact now q v =
    call_started-Exact (start_loop (length q.pq) now q).0 (start_loop (length q.pq) now q).1
      (start_loop-Exact (length q.pq) now q v)

-- A task that is not pending has no entry.
no_entry :
    (q : TaskQueue) (r : ℕ)
    → is_pending (status_of q r) ≡ false
    → Exact q
    → count (of_task r) q.pq ≡ 0
no_entry q r other v = elim (Bool-cases (ltb 0 (count (of_task r) q.pq))) [
  | inl some_entry ↦
      let s = v.fresh r (ground (arith, some_entry)) in absurd (cc (ap is_pending s, other))
  | inr empty ↦ ground (arith, empty)
]

not_pending : (s : TaskStatus) → is_downloading s ≡ true → is_pending s ≡ false
not_pending s busy = ground (arith, busy)

start_task-Exact :
    (now : ℕ) (q : TaskQueue) (r : ℕ)
    → count (of_task r) q.pq ≡ 0
    → Exact q
    → Exact (start_task now q r)
unfolding start_task mark_started
start_task-Exact now q r none_left v =
    emit-Exact q.callbacks.on_task_start (started r) (mark_started now q r) (
      change-Exact q (mark_started now q r) r refl (other_status q r (set_status now downloading))
        none_left v)

enqueue-Exact :
    (q : TaskQueue) (r : ℕ)
    → status_of q r ≡ pending
    → count (of_task r) q.pq ≡ 0
    → Exact q
    → Exact (enqueue q r)
unfolding enqueue
enqueue-Exact q r wait none_left v = record {
  fresh = λ x c. elim (Bool-cases (r == x)) [
    | inl here ↦ let e : x ≡ r = ground (arith, here) in rw e wait
    | inr other ↦ v.fresh x (ground (arith, other, c, push_keeps (of_task x) q.pq (item_of q r)))
  ];
  once = λ x. elim (Bool-cases (r == x)) [
    | inl here ↦
        let e : x ≡ r = ground (arith, here) in
        rw e (ground (arith, none_left, push_keeps (of_task r) q.pq (item_of q r)))
    | inr other ↦ ground (arith, other, v.once x, push_keeps (of_task x) q.pq (item_of q r))
  ];
}

-- `Add` of a pending task keeps the invariant of the queue, and that every entry is of a pending task and no task
-- has two: whether it is refused, started or put into the heap, it gets an entry only if it has to wait.
pub add-Exact :
    (now : ℕ) (q : TaskQueue) (r : ℕ)
    → status_of q r ≡ pending
    → Inv q
    → Exact q
    → Inv (add now q r).0 × Exact (add now q r).0
unfolding add
add-Exact now q r wait i v = (add-Inv now q r (ap is_downloading wait) i, added)
  where
    absent : has_key (q.store r).id q.tasks ≡ false → count (of_task r) q.pq ≡ 0
    absent new = elim (Bool-cases (ltb 0 (count (of_task r) q.pq))) [
      | inl some_entry ↦
          let e =
            has_key-lookup (q.store r).id q.tasks r (i.filed r (ground (arith, some_entry)) wait) in
          absurd (cc (e, new))
      | inr empty ↦ ground (arith, empty)
    ]

    added : Exact (add now q r).0
    added = elim (Bool-cases (has_key (q.store r).id q.tasks)) [
      | inl old ↦ rw (old, add) v
      | inr new ↦
          let q' = record q { tasks = insert (q.store r).id r q.tasks } in
          let v' : Exact q' = record { fresh = v.fresh; once = v.once } in
          elim (Bool-cases (has_slot q' && is_pending (status_of q' r))) [
            | inl go ↦ rw (new, go, add) (start_task-Exact now q' r (absent new) v')
            | inr full ↦ rw (new, full, add) (enqueue-Exact q' r wait (absent new) v')
          ]
    ]

-- A downloading task takes another status and gives its slot back.
leave-Exact :
    (q q' : TaskQueue) (r : ℕ)
    → is_downloading (status_of q r) ≡ true
    → q'.pq ≡ q.pq
    → ((x : ℕ) → (x == r) ≡ false → status_of q' x ≡ status_of q x)
    → Exact q
    → Exact q'
leave-Exact q q' r busy same others v =
    change-Exact q q' r same others (no_entry q r (not_pending (status_of q r) busy) v) v

pub pause-Exact : (now : ℕ) (q : TaskQueue) (id : String) → Exact q → Exact (pause now q id).0
unfolding pause
pause-Exact now q id v = elim (Option-cases (lookup id q.tasks)) [
  | inl missing ↦ rw (missing, pause) v
  | inr (r, found) ↦ elim (Bool-cases (is_downloading (status_of q r))) [
    | inr other ↦ rw (found, other, pause) v
    | inl busy ↦
        let q' = record (modify q r (set_status now paused)) {
          active_count = q.active_count -ℤ pos 1;
        } in
        rw (found, busy, pause)
          (try_start_next-Exact now q'
            (leave-Exact q q' r busy refl (other_status q r (set_status now paused)) v))
  ]
]

complete-Exact : (now : ℕ) (q : TaskQueue) (id : String) → Exact q → Exact (complete_task now q id)
unfolding complete_task
complete-Exact now q id v = elim (Option-cases (lookup id q.tasks)) [
  | inl missing ↦ rw (missing, complete_task) v
  | inr (r, found) ↦ elim (Bool-cases (is_downloading (status_of q r))) [
    | inr other ↦ rw (found, other, complete_task) v
    | inl busy ↦
        let q' = record (modify q r (set_status now done)) {
          active_count = less_one q.active_count;
          tasks = delete id q.tasks;
        } in
        rw (found, busy, complete_task)
          (try_start_next-Exact now (emit q.callbacks.on_task_complete (completed r) q') (
            emit-Exact q.callbacks.on_task_complete (completed r) q'
              (leave-Exact q q' r busy refl (other_status q r (set_status now done)) v)))
  ]
]

-- `CompleteTask` keeps, on every branch and with the next starts, the invariant of the queue, and that every entry
-- is of a pending task and no task has two.
pub complete_task-Exact :
    (now : ℕ) (q : TaskQueue) (id : String)
    → Inv q
    → Exact q
    → Inv (complete_task now q id) × Exact (complete_task now q id)
complete_task-Exact now q id i v = (complete_task-Inv now q id i, complete-Exact now q id v)

pub new-Exact : (st : ℕ → Task) (c : Callbacks) (max : ℤ) → Exact (new_task_queue st c max)
unfolding new_task_queue count
new-Exact st c max = record { fresh = λ r h. absurd (omega arith); once = λ r. omega arith }
