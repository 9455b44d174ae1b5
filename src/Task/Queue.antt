-- ===== src/Task/Queue.antt =====
-- internal/task/queue.go: `TaskQueue`. Tasks are shared by pointers, so the state holds a store of tasks,
-- and the map, the heap and the arguments hold references into it. Callbacks and calls of cancel
-- functions run outside the lock; they are entries of a log. A method that locks once is a function; one that
-- locks twice is the composition of two (`add` and `resume` with `start_task`, the rest with
-- `try_start_next`), and the model runs them with no other call in between.
pub mod Position
pub mod Store
pub mod Invariant
pub mod Slots
pub mod Failure
use afd.Prelude.{
  ℕ, zero, suc, ◌+◌, ◌-◌, ℤ, pos, negsuc, ◌+ℤ◌, ◌-ℤ◌, ltb_ℤ, Bool, true, false, ◌&&◌, ◌||◌, not,
  List, [], ◌∷◌, ◌++◌, Option, none, some, String, str_eq, GoMap, lookup, insert, delete, has_key,
  arith, if◌then◌else◌, ltb, ◌==◌, length,
}
use afd.Task.Model.{
  Task, TaskStatus, pending, downloading, paused, done, is_pending, is_downloading, is_paused,
  is_stopped, set_status, set_error, cancel_task,
}
use afd.Task.Heap.{PriorityItem, PriorityQueue, push, pop, remove}

-- What happens outside the queue.
pub data Event : Type 0 where
  started progressed completed errored : ℕ → Event
  cancel_called : ℕ → Event

-- Which callbacks are set.
pub record Callbacks : Type 0 where
  pub on_task_start : Bool
  pub on_task_progress : Bool
  pub on_task_complete : Bool
  pub on_task_error : Bool

pub record TaskQueue : Type 0 where
  pub store : ℕ → Task
  pub tasks : GoMap ℕ
  pub pq : PriorityQueue
  pub max_concurrent : ℤ
  pub active_count : ℤ
  pub callbacks : Callbacks
  pub log : List Event

pub data QueueError : Type 0 where
  already_exists not_found not_downloading not_paused still_active is_paused_error not_waiting
        not_in_heap invalid_how :
      QueueError

unfoldable pub new_task_queue : (ℕ → Task) → Callbacks → ℤ → TaskQueue
new_task_queue store callbacks max = record {
  store = store;
  tasks = [];
  pq = [];
  max_concurrent = max;
  active_count = pos 0;
  callbacks = callbacks;
  log = [];
}

abbrev pub update : (ℕ → Task) → ℕ → (Task → Task) → ℕ → Task
update store r f x = if x == r then f (store x) else store x

abbrev pub status_of : TaskQueue → ℕ → TaskStatus
status_of q r = (q.store r).status

abbrev pub modify : TaskQueue → ℕ → (Task → Task) → TaskQueue
modify q r f = record q { store = update q.store r f }

abbrev pub emit : Bool → Event → TaskQueue → TaskQueue
emit wanted e q = if wanted then record q { log = q.log ++ e ∷ [] } else q

abbrev pub has_slot : TaskQueue → Bool
has_slot q = ltb_ℤ q.active_count q.max_concurrent

abbrev pub item_of : TaskQueue → ℕ → PriorityItem
item_of q r = record { task = r; priority = (q.store r).priority; index = pos 0 }

unfoldable pub enqueue : TaskQueue → ℕ → TaskQueue
enqueue q r = record q { pq = push q.pq (item_of q r) }

-- The locked part of `startTask` and of one start in `tryStartNext`.
unfoldable pub mark_started : ℕ → TaskQueue → ℕ → TaskQueue
unfolding set_status
mark_started now q r = record (modify q r (set_status now downloading)) {
  active_count = q.active_count +ℤ pos 1;
}

unfoldable pub start_task : ℕ → TaskQueue → ℕ → TaskQueue
unfolding mark_started
start_task now q r = emit q.callbacks.on_task_start (started r) (mark_started now q r)

unfoldable pub add : ℕ → TaskQueue → ℕ → TaskQueue × Option QueueError
unfolding enqueue start_task
add now q r =
    let id : String = (q.store r).id in
    let q' = record q { tasks = insert id r q.tasks } in
    if has_key id q.tasks
    then (q, some already_exists)
    else if has_slot q' && is_pending (status_of q' r)
    then (start_task now q' r, none)
    else (enqueue q' r, none)

-- `findPQIndex`: what the first entry of that task says its index is.
unfoldable pub find_pq_index : (ℕ → Task) → PriorityQueue → String → ℤ
find_pq_index store [] id = negsuc 0
find_pq_index store (x ∷ pq) id =
    if str_eq (store x.task).id id then x.index else find_pq_index store pq id

abbrev remove_at : PriorityQueue → ℤ → PriorityQueue
remove_at pq (pos i) = (remove pq i).0
remove_at pq (negsuc _) = pq

-- Take a task out of the map, and its first entry out of the heap.
unfoldable pub drop_task : TaskQueue → String → TaskQueue
unfolding find_pq_index
drop_task q id = record q {
  tasks = delete id q.tasks;
  pq = remove_at q.pq (find_pq_index q.store q.pq id);
}

-- `task.Cancel()`, after the lock is released.
unfoldable pub run_cancel : TaskQueue → ℕ → TaskQueue
unfolding cancel_task
run_cancel q r =
    let q' = modify q r (λ t. (cancel_task t).0) in
    elim (cancel_task (q.store r)).1 [
      | none ↦ q'
      | some h ↦ record q' { log = q.log ++ cancel_called h ∷ [] }
    ]

unfoldable pub remove_task : TaskQueue → String → TaskQueue × Option QueueError
unfolding drop_task run_cancel
remove_task q id = elim (lookup id q.tasks) [
  | none ↦ (q, some not_found)
  | some r ↦
      let q' = drop_task q id in
      let count =
        if is_downloading (status_of q r) then q.active_count -ℤ pos 1 else q.active_count in
      (run_cancel (record q' { active_count = count }) r, none)
]

-- The loop of `tryStartNext`. Each round pops an entry, so as many rounds as entries are enough.
unfoldable pub start_loop : ℕ → ℕ → TaskQueue → TaskQueue × List ℕ
unfolding mark_started
start_loop zero now q = (q, [])
start_loop (suc rounds) now q =
    let (pq', x) = pop q.pq in
    let popped = record q { pq = pq' } in
    let skip = start_loop rounds now popped in
    let begin = start_loop rounds now (mark_started now popped x.task) in
    if has_slot q && ltb 0 (length q.pq)
    then (if is_pending (status_of q x.task) then (begin.0, x.task ∷ begin.1) else skip)
    else (q, [])

unfoldable pub call_started : TaskQueue → List ℕ → TaskQueue
call_started q [] = q
call_started q (r ∷ rs) = call_started (emit q.callbacks.on_task_start (started r) q) rs

unfoldable pub try_start_next : ℕ → TaskQueue → TaskQueue
unfolding start_loop call_started
try_start_next now q =
    let (q', to_start) = start_loop (length q.pq) now q in call_started q' to_start

unfoldable pub pause : ℕ → TaskQueue → String → TaskQueue × Option QueueError
unfolding try_start_next set_status
pause now q id = elim (lookup id q.tasks) [
  | none ↦ (q, some not_found)
  | some r ↦
      let q' = record (modify q r (set_status now paused)) {
        active_count = q.active_count -ℤ pos 1;
      } in
      if is_downloading (status_of q r)
      then (try_start_next now q', none)
      else (q, some not_downloading)
]

unfoldable pub resume : ℕ → TaskQueue → String → TaskQueue × Option QueueError
unfolding set_status start_task enqueue
resume now q id = elim (lookup id q.tasks) [
  | none ↦ (q, some not_found)
  | some r ↦
      let q' = modify q r (set_status now pending) in
      if is_paused (status_of q r)
      then (if has_slot q' then (start_task now q' r, none) else (enqueue q' r, none))
      else (q, some not_paused)
]

-- `activeCount--`, held at 0.
abbrev pub less_one : ℤ → ℤ
less_one n = let m = n -ℤ pos 1 in if ltb_ℤ m (pos 0) then pos 0 else m

-- `CompleteTask` and `FailTask` do nothing unless the task is downloading.
unfoldable pub complete_task : ℕ → TaskQueue → String → TaskQueue
unfolding try_start_next set_status
complete_task now q id = elim (lookup id q.tasks) [
  | none ↦ q
  | some r ↦
      let q' = record (modify q r (set_status now done)) {
        active_count = less_one q.active_count;
        tasks = delete id q.tasks;
      } in
      if is_downloading (status_of q r)
      then try_start_next now (emit q.callbacks.on_task_complete (completed r) q')
      else q
]

unfoldable pub fail_task : ℕ → TaskQueue → String → String → TaskQueue
unfolding try_start_next set_error
fail_task now q id msg = elim (lookup id q.tasks) [
  | none ↦ q
  | some r ↦
      let q' = record (modify q r (set_error now msg)) {
        active_count = less_one q.active_count;
        tasks = delete id q.tasks;
      } in
      if is_downloading (status_of q r)
      then try_start_next now (emit q.callbacks.on_task_error (errored r) q')
      else q
]

unfoldable pub set_max_concurrent : ℕ → TaskQueue → ℤ → TaskQueue
unfolding try_start_next
set_max_concurrent now q max = try_start_next now (record q { max_concurrent = max })

unfoldable pub notify_progress : TaskQueue → ℕ → TaskQueue
notify_progress q r = emit q.callbacks.on_task_progress (progressed r) q

unfoldable pub get_task : TaskQueue → String → Option ℕ
get_task q id = lookup id q.tasks

-- The loop of `PurgeStopped` over the entries that `range` visits, with the count so far.
unfoldable pub purge_from : GoMap ℕ → TaskQueue → ℕ → TaskQueue × ℕ
unfolding drop_task
purge_from [] q n = (q, n)
purge_from ((id, r) ∷ m) q n =
    let stopped = is_stopped (status_of q r) in
    purge_from m (if stopped then drop_task q id else q) (if stopped then n + 1 else n)

unfoldable pub purge_stopped : TaskQueue → TaskQueue × ℕ
unfolding purge_from
purge_stopped q = purge_from q.tasks q 0

unfoldable pub remove_stopped : TaskQueue → String → TaskQueue × Option QueueError
unfolding drop_task
remove_stopped q id = elim (lookup id q.tasks) [
  | none ↦ (q, some not_found)
  | some r ↦
      let st = status_of q r in
      if is_downloading st || is_pending st
      then (q, some still_active)
      else if is_paused st
      then (q, some is_paused_error)
      else (drop_task q id, none)
]
