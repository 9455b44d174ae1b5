-- ===== src/Task/Queue/Invariant/Calls.antt =====
-- `Add`, `Pause`, `CompleteTask`, `FailTask` and `SetMaxConcurrent` of internal/task/queue.go and the invariant.
use afd.Prelude.{
  ℕ, ◌+◌, ◌≡◌, refl, ap, sym, subst, ◌∙◌, ◌≢◌, ℤ, pos, ◌-ℤ◌, Bool, true, false, ◌&&◌, [], ◌∷◌, some,
  String, str_eq, eq_iff, GoMap, lookup, insert, delete, has_key, arith, ◌==◌, Bool-cases,
  Option-cases, inl, inr, lookup-insert, lookup-delete,
}
use text.Mathlib.TextPositions.{eq_refl}
use afd.Task.Model.{
  Task, TaskStatus, pending, paused, done, is_pending, is_downloading, set_status, set_error,
}
use afd.Task.Queue.{
  TaskQueue, Event, update, modify, status_of, emit, has_slot, try_start_next, add, pause,
  complete_task, fail_task, less_one, completed, errored, set_max_concurrent,
}
use afd.Task.Queue.Store.{
  KeepsId, count_tasks, Keyed-update, Keyed-insert, Keyed-delete, count_tasks-update,
  count_tasks-insert, count_tasks-delete,
}
use afd.Task.Queue.Invariant.{
  InvBut, Inv, Nobody, Only, emit-Inv, enqueue-Inv, start_task-Inv, try_start_next-Inv,
}

pub has_key-lookup :
    (id : String) (m : GoMap ℕ) (r : ℕ) → lookup id m ≡ some r → has_key id m ≡ true
unfolding has_key lookup
has_key-lookup id [] r e = cc
has_key-lookup id ((j, x) ∷ m) r e = ground (arith, has_key-lookup id m r)

insert-InvBut :
    (q : TaskQueue) (r : ℕ)
    → has_key (q.store r).id q.tasks ≡ false
    → is_downloading (status_of q r) ≡ false
    → Inv q
    → InvBut (Only r) (record q { tasks = insert (q.store r).id r q.tasks })
insert-InvBut q r new idle v = record {
  keyed = Keyed-insert q.store q.tasks r new v.keyed;
  active =
      v.active
      ∙ ap pos (
          sym (
            count_tasks-insert is_downloading q.store q.tasks (q.store r).id r new
            ∙ ground (arith, idle)));
  indexed = v.indexed;
  heap = v.heap;
  waiting = λ id x e s ne.
      v.waiting id x (ground (arith, e, ne, lookup-insert (q.store r).id id r q.tasks)) s
        (λ (y : ⊥). y);
  filed = λ x c s.
      let old = v.filed x c s in
      elim (Bool-cases (str_eq (q.store r).id (q.store x).id)) [
        | inl same ↦
            let e : (q.store r).id ≡ (q.store x).id = (eq_iff _ _).0 same in
            absurd
              (cc (has_key-lookup (q.store x).id q.tasks x old, ap (λ i. has_key i q.tasks) e, new))
        | inr other ↦
            ground (arith, other, old, lookup-insert (q.store r).id (q.store x).id r q.tasks)
      ];
}

-- `Add` of a task that is not downloading keeps the invariant of the queue, whether the task is refused,
-- started or put into the heap.
pub add-Inv :
    (now : ℕ) (q : TaskQueue) (r : ℕ)
    → is_downloading (status_of q r) ≡ false
    → Inv q
    → Inv (add now q r).0
unfolding add
add-Inv now q r idle v = elim (Bool-cases (has_key (q.store r).id q.tasks)) [
  | inl old ↦ rw old v
  | inr new ↦
      let q' = record q { tasks = insert (q.store r).id r q.tasks } in
      let but = insert-InvBut q r new idle v in
      let found : lookup (q.store r).id q'.tasks ≡ some r =
        lookup-insert (q.store r).id (q.store r).id r q.tasks ∙ rw (eq_refl (q.store r).id) refl in
      elim (Bool-cases (has_slot q' && is_pending (status_of q' r))) [
        | inl go ↦ rw (new, go) (start_task-Inv now q' r but found (ground (arith, go)))
        | inr wait ↦ rw (new, wait) (enqueue-Inv q' r but found)
      ]
]

-- A downloading task of the map takes another status, neither pending nor downloading, and gives
-- its slot back.
module _ (q : TaskQueue) (id : String) (r : ℕ) (f : Task → Task)
    (found : lookup id q.tasks ≡ some r) (busy : is_downloading (status_of q r) ≡ true)
    (keeps : KeepsId f) (idle : is_downloading (f (q.store r)).status ≡ false)
    (settled : (f (q.store r)).status ≢ pending) (v : Inv q) where
  one_less :
      count_tasks is_downloading (update q.store r f) q.tasks + 1
      ≡ count_tasks is_downloading q.store q.tasks
  one_less =
      ground
        (arith, busy, idle, count_tasks-update is_downloading q.store q.tasks id r f v.keyed found)

  still_pending :
      (x : ℕ)
      → (update q.store r f x).status ≡ pending
      → (x ≢ r) × ((q.store x).status ≡ pending) × ((update q.store r f x).id ≡ (q.store x).id)
  still_pending x s = elim (Bool-cases (x == r)) [
    | inl same ↦
        let y : r ≡ x = ground arith in
        absurd (settled (ap (λ z. (f (q.store z)).status) y ∙ rw same at s))
    | inr other ↦ (λ (y : x ≡ r). ground arith, rw other at s, rw other refl)
  ]

  leave-Inv :
      (n : ℤ)
      → n ≡ pos (count_tasks is_downloading (update q.store r f) q.tasks)
      → Inv (record (modify q r f) { active_count = n })
  leave-Inv n e = record {
    keyed = Keyed-update q.store q.tasks r f keeps v.keyed;
    active = e;
    indexed = v.indexed;
    heap = v.heap;
    waiting = λ i x l s _. v.waiting i x l (still_pending x s).1 (λ (y : ⊥). y);
    filed = λ x c s. let p = still_pending x s in rw p.2 (v.filed x c p.1);
  }

  minus_one :
      q.active_count -ℤ pos 1 ≡ pos (count_tasks is_downloading (update q.store r f) q.tasks)
  unfolding ◌-ℤ◌
  minus_one = ground (arith, v.active, one_less)

  abbrev left : ℤ → TaskQueue
  left n = record (modify q r f) { active_count = n }

  less_one-eq :
      less_one q.active_count ≡ pos (count_tasks is_downloading (update q.store r f) q.tasks)
  less_one-eq = rw minus_one (ground arith)

  -- With the slot given back by `activeCount--`, and by the same held at 0.
  give_back-Inv : Inv (left (q.active_count -ℤ pos 1))
  give_back-Inv = leave-Inv (q.active_count -ℤ pos 1) minus_one

  give_up-Inv : Inv (left (less_one q.active_count))
  give_up-Inv = leave-Inv (less_one q.active_count) less_one-eq

  left_idle :
      (n : ℤ) → (is_downloading (status_of (left n) r) ≡ false) × (status_of (left n) r ≢ pending)
  left_idle n =
      let self : f (q.store r) ≡ update q.store r f r = ground arith in
      (
        subst (λ (t : Task). is_downloading t.status ≡ false) self idle,
        subst (λ (t : Task). t.status ≢ pending) self settled,
      )

-- A task that is neither downloading nor pending leaves the map.
forget-Inv :
    (q : TaskQueue) (id : String) (r : ℕ)
    → lookup id q.tasks ≡ some r
    → is_downloading (status_of q r) ≡ false
    → status_of q r ≢ pending
    → Inv q
    → Inv (record q { tasks = delete id q.tasks })
forget-Inv q id r found idle settled v = record {
  keyed = Keyed-delete q.store q.tasks id v.keyed;
  active =
      v.active
      ∙ ap pos (
          ground
            (arith, idle, count_tasks-delete is_downloading q.store q.tasks id r v.keyed found));
  indexed = v.indexed;
  heap = v.heap;
  waiting =
      λ i x l s _. v.waiting i x (ground (arith, l, lookup-delete id i q.tasks)) s (λ (y : ⊥). y);
  filed = λ x c s. elim (Bool-cases (str_eq id (q.store x).id)) [
    | inl same ↦
        let e : id ≡ (q.store x).id = (eq_iff _ _).0 same in
        let y : some r ≡ some x = sym found ∙ ap (λ i. lookup i q.tasks) e ∙ v.filed x c s in
        absurd (settled (subst (λ z. status_of q z ≡ pending) (ground (arith, y)) s))
    | inr other ↦ ground (arith, other, v.filed x c s, lookup-delete id (q.store x).id q.tasks)
  ];
}

pub set_status-keeps : (now : ℕ) (s : TaskStatus) → KeepsId (set_status now s)
unfolding set_status
set_status-keeps now s t = refl

set_error-keeps : (now : ℕ) (msg : String) → KeepsId (set_error now msg)
unfolding set_error
set_error-keeps now msg t = refl

-- `Pause` keeps the invariant of the queue on every branch, the next starts included.
pub pause-Inv : (now : ℕ) (q : TaskQueue) (id : String) → Inv q → Inv (pause now q id).0
unfolding pause
pause-Inv now q id v = elim (Option-cases (lookup id q.tasks)) [
  | inl missing ↦ rw (missing, pause) v
  | inr (r, found) ↦ elim (Bool-cases (is_downloading (status_of q r))) [
    | inr other ↦ rw (found, other, pause) v
    | inl busy ↦
        rw (found, busy, pause)
          (try_start_next-Inv now
            (left q id r (set_status now paused) found busy (set_status-keeps now paused) refl
              (λ e. cc) v (q.active_count -ℤ pos 1))
            (give_back-Inv q id r (set_status now paused) found busy (set_status-keeps now paused)
              refl (λ e. cc) v))
  ]
]

-- A downloading task is done or has failed: it leaves the map, and the next tasks start.
finish-Inv :
    (now : ℕ) (q : TaskQueue) (id : String) (r : ℕ) (f : Task → Task) (b : Bool) (e : Event)
    → lookup id q.tasks ≡ some r
    → is_downloading (status_of q r) ≡ true
    → KeepsId f
    → is_downloading (f (q.store r)).status ≡ false
    → (f (q.store r)).status ≢ pending
    → Inv q
    → Inv (
        try_start_next now (
          emit b e (record (modify q r f) {
            active_count = less_one q.active_count;
            tasks = delete id q.tasks;
          })))
finish-Inv now q id r f b e found busy keeps idle settled v =
    let i = left_idle q id r f found busy keeps idle settled v (less_one q.active_count) in
    try_start_next-Inv now _ (
      emit-Inv Nobody b e _ (
        forget-Inv (record (modify q r f) { active_count = less_one q.active_count }) id r found i.0
          i.1 (give_up-Inv q id r f found busy keeps idle settled v)))

-- `CompleteTask` keeps the invariant of the queue on every branch, the next starts included.
pub complete_task-Inv :
    (now : ℕ) (q : TaskQueue) (id : String) → Inv q → Inv (complete_task now q id)
unfolding complete_task
complete_task-Inv now q id v = elim (Option-cases (lookup id q.tasks)) [
  | inl missing ↦ rw (missing, complete_task) v
  | inr (r, found) ↦ elim (Bool-cases (is_downloading (status_of q r))) [
    | inr other ↦ rw (found, other, complete_task) v
    | inl busy ↦
        rw (found, busy, complete_task)
          (finish-Inv now q id r (set_status now done) q.callbacks.on_task_complete (completed r)
            found busy (set_status-keeps now done) refl (λ e. cc) v)
  ]
]

-- `FailTask` keeps the invariant of the queue on every branch, the next starts included.
pub fail_task-Inv :
    (now : ℕ) (q : TaskQueue) (id msg : String) → Inv q → Inv (fail_task now q id msg)
unfolding fail_task
fail_task-Inv now q id msg v = elim (Option-cases (lookup id q.tasks)) [
  | inl missing ↦ rw (missing, fail_task) v
  | inr (r, found) ↦ elim (Bool-cases (is_downloading (status_of q r))) [
    | inr other ↦ rw (found, other, fail_task) v
    | inl busy ↦
        rw (found, busy, fail_task)
          (finish-Inv now q id r (set_error now msg) q.callbacks.on_task_error (errored r) found
            busy (set_error-keeps now msg) refl (λ e. cc) v)
  ]
]

-- `SetMaxConcurrent` keeps the invariant.
pub set_max_concurrent-Inv :
    (now : ℕ) (q : TaskQueue) (max : ℤ) → Inv q → Inv (set_max_concurrent now q max)
unfolding set_max_concurrent
set_max_concurrent-Inv now q max v =
    try_start_next-Inv now (record q { max_concurrent = max })
      (record {
        keyed = v.keyed;
        active = v.active;
        indexed = v.indexed;
        heap = v.heap;
        waiting = v.waiting;
        filed = v.filed;
      })
