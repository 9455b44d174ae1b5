-- ===== src/Task/Queue/Invariant.antt =====
-- What holds of the queue between two calls: the count of active tasks is the number of downloading
-- ones, the heap is a heap, a pending task of the map has an entry in it, and a pending task that has an entry is
-- in the map. Entries of tasks that are no longer pending are allowed, and several of one task.
pub mod Calls
pub mod Drops
pub mod Exact
pub mod Purge
pub mod Resume
use afd.Prelude.{
  ℕ, zero, suc, ◌+◌, ◌-◌, ◌≤◌, ◌<◌, ◌≡◌, refl, ap, sym, subst, ◌∙◌, ◌≢◌, ◌⊎◌, ℤ, pos, negsuc, ◌+ℤ◌,
  ◌-ℤ◌, Bool, true, false, ◌&&◌, not, List, [], ◌∷◌, ◌++◌, Option, none, some, String, str_eq,
  eq_iff, GoMap, lookup, insert, delete, has_key, arith, if◌then◌else◌, ◌==◌, ltb, length,
  Bool-cases, inl, inr, lookup-insert, lookup-delete,
}
use afd.Task.Model.{Task, TaskStatus, pending, downloading, is_pending, is_downloading, set_status}
use afd.Task.Heap.{PriorityItem, PriorityQueue, push, pop, remove}
use afd.Task.Heap.Content.{count, ItemTest, push_keeps, pop_keeps, remove_keeps}
use afd.Task.Heap.Index.{Indexed, push-Indexed, pop-Indexed}
use afd.Task.Heap.Order.{IsHeap}
use afd.Task.Heap.Priority.{push-IsHeap, pop-IsHeap}
use afd.Task.Queue.{
  TaskQueue, Event, update, modify, status_of, emit, has_slot, item_of, enqueue, mark_started,
  start_task, start_loop, call_started, try_start_next, started, new_task_queue, Callbacks,
}
use afd.Task.Queue.Store.{Keyed, count_tasks, Keyed-update, count_tasks-update, lookup-id}

abbrev pub of_task : ℕ → ItemTest
of_task r t _ = t == r

-- The invariant, but that a pending task `hole` need not wait in the heap.
pub record InvBut (hole : ℕ → Type 0) (q : TaskQueue) : Type 0 where
  pub keyed : Keyed q.store q.tasks
  pub active : q.active_count ≡ pos (count_tasks is_downloading q.store q.tasks)
  pub indexed : Indexed q.pq
  pub heap : IsHeap q.pq (length q.pq)
  pub waiting :
      (id : String) (r : ℕ)
      → lookup id q.tasks ≡ some r
      → status_of q r ≡ pending
      → (hole r → ⊥)
      → 0 < count (of_task r) q.pq
  pub filed :
      (r : ℕ)
      → 0 < count (of_task r) q.pq
      → status_of q r ≡ pending
      → lookup (q.store r).id q.tasks ≡ some r

abbrev pub Nobody : ℕ → Type 0
Nobody r = ⊥

abbrev pub Only : ℕ → ℕ → Type 0
Only r x = x ≡ r

abbrev pub Inv : TaskQueue → Type 0
Inv = InvBut Nobody

pub emit-Inv :
    (hole : ℕ → Type 0) (b : Bool) (e : Event) (q : TaskQueue)
    → InvBut hole q
    → InvBut hole (emit b e q)
emit-Inv hole true e q v = record {
  keyed = v.keyed;
  active = v.active;
  indexed = v.indexed;
  heap = v.heap;
  waiting = v.waiting;
  filed = v.filed;
}
emit-Inv hole false e q v = v

set_status-KeepsId : (now : ℕ) (s : TaskStatus) (t : Task) → (set_status now s t).id ≡ t.id
unfolding set_status
set_status-KeepsId now s t = refl

-- Starting a pending task of the map.
pub mark_started-Inv :
    (now : ℕ) (q : TaskQueue) (r : ℕ)
    → InvBut (Only r) q
    → lookup (q.store r).id q.tasks ≡ some r
    → status_of q r ≡ pending
    → Inv (mark_started now q r)
unfolding mark_started
mark_started-Inv now q r v found wait = record {
  keyed =
      Keyed-update q.store q.tasks r (set_status now downloading)
        (set_status-KeepsId now downloading) v.keyed;
  active = one_more;
  indexed = v.indexed;
  heap = v.heap;
  waiting = λ id x e s _. still_waiting id x e s;
  filed = λ x c s. still_filed x c s;
}
  where
    one_more :
        q.active_count +ℤ pos 1
        ≡ pos (count_tasks is_downloading (update q.store r (set_status now downloading)) q.tasks)
    one_more =
        unfold set_status ◌+ℤ◌ in
        ground (
          arith,
          v.active,
          wait,
          count_tasks-update is_downloading q.store q.tasks (q.store r).id r
              (set_status now downloading) v.keyed found,
        )

    still_waiting :
        (id : String) (x : ℕ)
        → lookup id q.tasks ≡ some x
        → (update q.store r (set_status now downloading) x).status ≡ pending
        → 0 < count (of_task x) q.pq
    still_waiting id x e s = elim (Bool-cases (x == r)) [
      | inl same ↦ unfold set_status in absurd (cc (rw same at s))
      | inr other ↦ v.waiting id x e (rw other at s) (λ (y : x ≡ r). ground arith)
    ]

    still_filed :
        (x : ℕ)
        → 0 < count (of_task x) q.pq
        → (update q.store r (set_status now downloading) x).status ≡ pending
        → lookup (update q.store r (set_status now downloading) x).id q.tasks ≡ some x
    still_filed x c s = elim (Bool-cases (x == r)) [
      | inl same ↦ unfold set_status in absurd (cc (rw same at s))
      | inr other ↦ rw other (v.filed x c (rw other at s))
    ]

-- Putting a task of the map into the heap.
pub enqueue-Inv :
    (q : TaskQueue) (r : ℕ)
    → InvBut (Only r) q
    → lookup (q.store r).id q.tasks ≡ some r
    → Inv (enqueue q r)
unfolding enqueue
enqueue-Inv q r v found = record {
  keyed = v.keyed;
  active = v.active;
  indexed = push-Indexed q.pq (item_of q r) v.indexed;
  heap = push-IsHeap q.pq (item_of q r) v.heap;
  waiting = λ id x e s _. elim (Bool-cases (x == r)) [
    | inl same ↦
        let y : x ≡ r = ground arith in ground (arith, y, push_keeps (of_task x) q.pq (item_of q r))
    | inr other ↦ ground (
      arith,
      push_keeps (of_task x) q.pq (item_of q r),
      v.waiting id x e s (λ (y : x ≡ r). ground arith),
    )
  ];
  filed = λ x c s. elim (Bool-cases (r == x)) [
    | inl same ↦ let y : r ≡ x = ground arith in rw y at found
    | inr other ↦ v.filed x (ground (arith, other, c, push_keeps (of_task x) q.pq (item_of q r))) s
  ];
}

-- Popping an entry leaves at most the entry's task without one.
pop-Inv :
    (q : TaskQueue)
    → 0 < length q.pq
    → Inv q
    → InvBut (Only (pop q.pq).1.task) (record q { pq = (pop q.pq).0 })
pop-Inv q h v = record {
  keyed = v.keyed;
  active = v.active;
  indexed = pop-Indexed q.pq h v.indexed;
  heap = pop-IsHeap q.pq h v.heap;
  waiting = λ id x e s ne.
      ground (arith, pop_keeps (of_task x) q.pq h, v.waiting id x e s (λ (y : ⊥). y), ne);
  filed = λ x c s. v.filed x (ground (arith, c, pop_keeps (of_task x) q.pq h)) s;
}

-- A task that is not pending need not wait.
pub close-Inv : (q : TaskQueue) (r : ℕ) → InvBut (Only r) q → status_of q r ≢ pending → Inv q
close-Inv q r v ne = record {
  keyed = v.keyed;
  active = v.active;
  indexed = v.indexed;
  heap = v.heap;
  waiting = λ id x e s _. v.waiting id x e s (λ (y : x ≡ r). ne (rw y at s));
  filed = v.filed;
}

popped_pending : (q : TaskQueue) → 0 < length q.pq → 0 < count (of_task (pop q.pq).1.task) q.pq
popped_pending q h = ground (arith, pop_keeps (of_task (pop q.pq).1.task) q.pq h)

start_loop-Inv : (n now : ℕ) (q : TaskQueue) → Inv q → Inv (start_loop n now q).0
unfolding start_loop
start_loop-Inv zero now q v = v
start_loop-Inv (suc n) now q v = elim (Bool-cases (has_slot q && ltb 0 (length q.pq))) [
  | inr stop ↦ rw stop v
  | inl go ↦
      let some_entry : 0 < length q.pq = ground arith in
      let but = pop-Inv q some_entry v in
      let r : ℕ = (pop q.pq).1.task in
      elim (Bool-cases (is_pending (status_of q r))) [
        | inl wait ↦
            let s : status_of q r ≡ pending = ground (arith, wait) in
            rw (go, wait)
              (start_loop-Inv n now (mark_started now (record q { pq = (pop q.pq).0 }) r) (
                mark_started-Inv now (record q { pq = (pop q.pq).0 }) r but
                  (v.filed r (popped_pending q some_entry) s) s))
        | inr moved ↦
            rw (go, moved)
              (start_loop-Inv n now (record q { pq = (pop q.pq).0 })
                (close-Inv (record q { pq = (pop q.pq).0 }) r but (λ s. ground (arith, moved, s))))
      ]
]

call_started-Inv : (q : TaskQueue) (rs : List ℕ) → Inv q → Inv (call_started q rs)
unfolding call_started
call_started-Inv q [] v = v
call_started-Inv q (r ∷ rs) v =
    call_started-Inv _ rs (emit-Inv Nobody q.callbacks.on_task_start (started r) q v)

pub try_start_next-Inv : (now : ℕ) (q : TaskQueue) → Inv q → Inv (try_start_next now q)
unfolding try_start_next
try_start_next-Inv now q v =
    call_started-Inv (start_loop (length q.pq) now q).0 (start_loop (length q.pq) now q).1
      (start_loop-Inv (length q.pq) now q v)

pub start_task-Inv :
    (now : ℕ) (q : TaskQueue) (r : ℕ)
    → InvBut (Only r) q
    → lookup (q.store r).id q.tasks ≡ some r
    → status_of q r ≡ pending
    → Inv (start_task now q r)
unfolding start_task
start_task-Inv now q r v found wait =
    emit-Inv Nobody q.callbacks.on_task_start (started r) (mark_started now q r)
      (mark_started-Inv now q r v found wait)

-- A new queue.
pub new-Inv : (st : ℕ → Task) (c : Callbacks) (max : ℤ) → Inv (new_task_queue st c max)
unfolding new_task_queue count_tasks count
new-Inv st c max = record {
  keyed = tt;
  active = refl;
  indexed = λ k h. absurd (omega arith);
  heap = λ k a b. absurd (omega arith);
  waiting = λ id r e s _. unfold lookup in cc;
  filed = λ r c' s. absurd (omega arith);
}
