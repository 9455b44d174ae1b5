-- ===== src/Task/Queue/Slots/Served.antt =====
-- The slots of the queue of internal/task/queue.go together with the tasks of its map: which tasks `tryStartNext` and
-- `CompleteTask` leave waiting.
use afd.Prelude.{
  ℕ, zero, suc, ◌≡◌, refl, ◌⊎◌, pos, ◌≤ℤ◌, Bool, true, false, ◌&&◌, List, [], ◌∷◌, some, String, ap,
  ◌≢◌, lookup, arith, ltb, length, ◌==◌, Bool-cases, inl, inr,
}
use afd.Task.Model.{TaskStatus, pending, downloading, is_pending, is_downloading, set_status}
use afd.Task.Heap.{PriorityQueue, pop}
use afd.Task.Heap.Content.{count}
use afd.Task.Queue.{
  TaskQueue, status_of, emit, has_slot, mark_started, start_loop, call_started, try_start_next,
  complete_task, started,
}
use afd.Task.Queue.Invariant.{Inv, of_task, try_start_next-Inv}
use afd.Task.Queue.Invariant.Calls.{complete_task-Inv}
use afd.Task.Queue.Store.{count_tasks}
use afd.Task.Queue.Slots.{IsCapped, IsBusy, try_start_next-IsBusy, complete_task-IsBusy}

-- As many tasks of the map are downloading as are allowed, or none of the map is pending.
abbrev pub Served : TaskQueue → Type 0
Served q =
    (q.max_concurrent ≤ℤ pos (count_tasks is_downloading q.store q.tasks))
    ⊎ ((id : String) (r : ℕ) → lookup id q.tasks ≡ some r → status_of q r ≢ pending)

count-empty : (r : ℕ) (pq : PriorityQueue) → length pq ≡ 0 → count (of_task r) pq ≡ 0
unfolding count
count-empty r [] h = refl
count-empty r (x ∷ pq) h = absurd (omega arith)

busy-Served : (q : TaskQueue) → Inv q → IsBusy q → Served q
busy-Served q v (inl full) = inl (ground (arith, v.active, full))
busy-Served q v (inr empty) =
    inr λ id r e s.
      absurd (omega (arith, v.waiting id r e s (λ (y : ⊥). y), count-empty r q.pq empty))

-- The map stays as it is, and a task keeps its status or goes from pending to downloading.
abbrev pub OnlyStarts : TaskQueue → TaskQueue → Type 0
OnlyStarts q q' =
    (q'.tasks ≡ q.tasks)
    × ((r : ℕ)
        → (status_of q' r ≡ status_of q r)
          ⊎ ((status_of q r ≡ pending) × (status_of q' r ≡ downloading)))

start_loop-OnlyStarts : (n now : ℕ) (q : TaskQueue) → OnlyStarts q (start_loop n now q).0
unfolding start_loop mark_started
start_loop-OnlyStarts zero now q = (refl, λ r. inl refl)
start_loop-OnlyStarts (suc n) now q = elim (Bool-cases (has_slot q && ltb 0 (length q.pq))) [
  | inr stop ↦ rw stop (refl, λ r. inl refl)
  | inl go ↦
      let popped = record q { pq = (pop q.pq).0 } in
      let x : ℕ = (pop q.pq).1.task in
      elim (Bool-cases (is_pending (status_of q x))) [
        | inr moved ↦ rw (go, moved) (start_loop-OnlyStarts n now popped)
        | inl wait ↦
            let ih = start_loop-OnlyStarts n now (mark_started now popped x) in
            rw (go, wait) (ih.0, λ r. started_after now popped x r _ wait (ih.1 r))
      ]
]
  where
    started_after :
        (now : ℕ) (p : TaskQueue) (x r : ℕ) (s : TaskStatus)
        → is_pending (status_of p x) ≡ true
        → (s ≡ status_of (mark_started now p x) r)
          ⊎ ((status_of (mark_started now p x) r ≡ pending) × (s ≡ downloading))
        → (s ≡ status_of p r) ⊎ ((status_of p r ≡ pending) × (s ≡ downloading))
    started_after now p x r s wait h = elim (Bool-cases (r == x)) [
      | inl here ↦
          let e : r ≡ x = ground (arith, here) in
          unfold set_status in ground (arith, here, e, ap (status_of p) e, wait, h)
      | inr other ↦ unfold set_status in ground (arith, other, h)
    ]

call_started-OnlyStarts :
    (p q : TaskQueue) (rs : List ℕ) → OnlyStarts p q → OnlyStarts p (call_started q rs)
unfolding call_started
call_started-OnlyStarts p q [] h = h
call_started-OnlyStarts p q (r ∷ rs) h =
    call_started-OnlyStarts p _ rs (emit-OnlyStarts q.callbacks.on_task_start)
  where
    emit-OnlyStarts : (b : Bool) → OnlyStarts p (emit b (started r) q)
    emit-OnlyStarts true = (h.0, h.1)
    emit-OnlyStarts false = h

-- From a queue that keeps the invariant, with no more active tasks than allowed, `tryStartNext` fills the slots:
-- no more tasks are active than allowed; no entry waits while a slot is free; as many tasks of the map are
-- downloading as are allowed, or none of the map is pending. It changes nothing of the map, and no status
-- but from pending to downloading.
pub try_start_next_slots :
    (now : ℕ) (q : TaskQueue)
    → Inv q
    → IsCapped q
    → IsCapped (try_start_next now q)
      × IsBusy (try_start_next now q)
      × Served (try_start_next now q)
      × OnlyStarts q (try_start_next now q)
try_start_next_slots now q v c =
    let t = try_start_next-IsBusy now q in
    (
      t.1 c,
      t.0,
      busy-Served _ (try_start_next-Inv now q v) t.0,
      unfold try_start_next in
          call_started-OnlyStarts q (start_loop (length q.pq) now q).0
            (start_loop (length q.pq) now q).1 (start_loop-OnlyStarts (length q.pq) now q),
    )

-- From a queue that keeps the invariant, with no more active tasks than allowed and no slot free while an entry
-- waits, `CompleteTask` leaves the queue so; and as many tasks of the map are downloading as are allowed, or none of
-- the map is pending.
pub complete_task_slots :
    (now : ℕ) (q : TaskQueue) (id : String)
    → Inv q
    → IsCapped q
    → IsBusy q
    → IsCapped (complete_task now q id)
      × IsBusy (complete_task now q id)
      × Served (complete_task now q id)
complete_task_slots now q id v c b =
    let t = complete_task-IsBusy now q id (ground (arith, v.active)) c b in
    (t.0, t.1, busy-Served _ (complete_task-Inv now q id v) t.1)
