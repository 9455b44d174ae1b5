-- ===== src/Task/Queue/Invariant/Drops.antt =====
-- `Remove` of internal/task/queue.go and the invariant.
use afd.Prelude.{
  ℕ, zero, suc, ◌+◌, ◌≤◌, ◌<◌, ◌≡◌, refl, ap, sym, subst, ◌∙◌, ◌≢◌, ◌⊎◌, ℤ, pos, negsuc, ◌-ℤ◌,
  false, List, [], ◌∷◌, ◌++◌, none, some, String, str_eq, eq_iff, lookup, delete, arith,
  if◌then◌else◌, length, Bool-cases, Option-cases, inl, inr, lookup-delete,
}
use afd.Task.Model.{Task, pending, is_downloading, cancel_task, is_completed}
use afd.Task.Heap.{PriorityQueue, at}
use afd.Task.Heap.Content.{count, remove_keeps}
use afd.Task.Heap.Index.{Indexed, remove-Indexed}
use afd.Task.Heap.Order.{IsHeap}
use afd.Task.Heap.Priority.{remove-IsHeap, remove_entry}
use afd.Task.Queue.{
  TaskQueue, Event, cancel_called, update, status_of, find_pq_index, drop_task, run_cancel,
  remove_task,
}
use afd.Task.Queue.Store.{
  Keyed, count_tasks, Keyed-delete, count_tasks-delete, KeepsId, Keyed-update, count_tasks-update,
}
use afd.Task.Queue.Invariant.{Inv, of_task}

-- Where the entries say their own positions, `findPQIndex` gives the position of an entry of a task with that
-- identifier, or there is none.
record Found (st : ℕ → Task) (pq : PriorityQueue) (id : String) (o : ℕ) : Type 0 where
  place : ℕ
  given : find_pq_index st pq id ≡ pos (o + place)
  inside : place < length pq
  same_id : (st (at pq place).task).id ≡ id

find_pq_index-cases :
    (st : ℕ → Task) (pq : PriorityQueue) (id : String) (o : ℕ)
    → ((k : ℕ) → k < length pq → (at pq k).index ≡ pos (o + k))
    → Found st pq id o ⊎ (find_pq_index st pq id ≡ negsuc 0)
unfolding find_pq_index at
find_pq_index-cases st [] id o h = inr refl
find_pq_index-cases st (x ∷ pq) id o h = elim (Bool-cases (str_eq (st x.task).id id)) [
  | inl here ↦ inl (record {
    place = 0;
    given = rw here (h 0 (omega arith));
    inside = omega arith;
    same_id = (eq_iff (st x.task).id id).0 here;
  })
  | inr there ↦
      elim (find_pq_index-cases st pq id (o + 1)
        (λ k lt. h (suc k) (omega (arith, lt)) ∙ ap pos (omega arith))) [
          | inl f ↦ inl (record {
            place = suc f.place;
            given = rw there (f.given ∙ ap pos (omega arith));
            inside = omega (arith, f.inside);
            same_id = f.same_id;
          })
          | inr e ↦ inr (rw there e)
        ]
]

count-at : (pq : PriorityQueue) (i : ℕ) → i < length pq → 0 < count (of_task (at pq i).task) pq
unfolding count at
count-at [] i h = absurd (omega arith)
count-at (x ∷ pq) zero h = ground arith
count-at (x ∷ pq) (suc i) h = omega (arith, count-at pq i (omega arith))

-- The heap after an entry is taken out of it, which is of no pending task but `r`.
record IsShrunk (q : TaskQueue) (r : ℕ) (pq : PriorityQueue) : Type 0 where
  indexed : Indexed pq
  heap : IsHeap pq (length pq)
  fewer : (x : ℕ) → count (of_task x) pq ≤ count (of_task x) q.pq
  kept : (x : ℕ) → x ≢ r → status_of q x ≡ pending → count (of_task x) pq ≡ count (of_task x) q.pq

module _ (q : TaskQueue) (id : String) (r : ℕ) (found : lookup id q.tasks ≡ some r)
    (v : Inv q) where
  entry_owner :
      (i x : ℕ)
      → i < length q.pq
      → (at q.pq i).task ≡ x
      → (q.store (at q.pq i).task).id ≡ id
      → status_of q x ≡ pending
      → x ≡ r
  entry_owner i x lt of_x same wait =
      let here : 0 < count (of_task x) q.pq =
        subst (λ t. 0 < count (of_task t) q.pq) of_x (count-at q.pq i lt) in
      let key : (q.store x).id ≡ id = subst (λ t. (q.store t).id ≡ id) of_x same in
      let mine : some x ≡ some r =
        sym (v.filed x here wait) ∙ ap (λ k. lookup k q.tasks) key ∙ found in
      cc mine

  drop_task-IsShrunk : IsShrunk q r (drop_task q id).pq
  unfolding drop_task
  drop_task-IsShrunk =
      elim (find_pq_index-cases q.store q.pq id 0 (λ k h. v.indexed k h ∙ ap pos (omega arith))) [
        | inr absent ↦ rw absent (record {
          indexed = v.indexed;
          heap = v.heap;
          fewer = λ x. omega arith;
          kept = λ x ne s. refl;
        })
        | inl f ↦
            let i : ℕ = f.place in
            let given : find_pq_index q.store q.pq id ≡ pos i = f.given ∙ ap pos (omega arith) in
            rw given (record {
              indexed = remove-Indexed q.pq i f.inside v.indexed;
              heap = remove-IsHeap q.pq i f.inside v.heap;
              fewer = λ x. omega (arith, remove_keeps (of_task x) q.pq i f.inside);
              kept = λ x ne s. ground (
                arith,
                remove_keeps (of_task x) q.pq i f.inside,
                remove_entry q.pq i f.inside,
                ne,
                λ (e : (at q.pq i).task ≡ x). entry_owner i x f.inside e f.same_id s,
              );
            })
      ]

  -- A task that is not pending afterwards leaves the map and the heap.
  pub leave-Inv :
      (st : ℕ → Task) (active : ℤ) (log : List Event)
      → Keyed st q.tasks
      → ((x : ℕ) → (st x).id ≡ (q.store x).id)
      → ((x : ℕ) → x ≢ r → (st x).status ≡ (q.store x).status)
      → (st r).status ≢ pending
      → active ≡ pos (count_tasks is_downloading st (delete id q.tasks))
      → Inv (record (drop_task q id) { store = st; active_count = active; log = log })
  leave-Inv st active log keyed ids same gone counted =
      let shrunk = drop_task-IsShrunk in
      let not_r : (x : ℕ) → (st x).status ≡ pending → x ≢ r =
        λ x s e. gone (subst (λ z. (st z).status ≡ pending) e s) in
      unfold drop_task in
      record {
        keyed = Keyed-delete st q.tasks id keyed;
        active = counted;
        indexed = shrunk.indexed;
        heap = shrunk.heap;
        waiting = λ key x e s _.
            let s' : status_of q x ≡ pending = sym (same x (not_r x s)) ∙ s in
            let e' : lookup key q.tasks ≡ some x =
              ground (arith, e, lookup-delete id key q.tasks) in
            ground (arith, shrunk.kept x (not_r x s) s', v.waiting key x e' s' (λ (y : ⊥). y));
        filed = λ x c s.
            let s' : status_of q x ≡ pending = sym (same x (not_r x s)) ∙ s in
            let home : lookup (q.store x).id q.tasks ≡ some x =
              v.filed x (omega (arith, c, shrunk.fewer x)) s' in
            elim (Bool-cases (str_eq id (q.store x).id)) [
              | inl own ↦
                  let k : id ≡ (q.store x).id = (eq_iff id (q.store x).id).0 own in
                  let both : some x ≡ some r =
                    sym home ∙ ap (λ z. lookup z q.tasks) (sym k) ∙ found in
                  absurd (not_r x s (cc both))
              | inr other ↦
                  ap (λ z. lookup z (delete id q.tasks)) (ids x)
                  ∙ lookup-delete id (q.store x).id q.tasks
                  ∙ ap (λ b. if b then none else lookup (q.store x).id q.tasks) other
                  ∙ home
            ];
      }

cancel_task-KeepsId : KeepsId (λ t. (cancel_task t).0)
unfolding cancel_task
cancel_task-KeepsId t = ground arith

cancel_task_stops :
    (t : Task)
    → ((cancel_task t).0.status ≢ pending) × (is_downloading (cancel_task t).0.status ≡ false)
unfolding cancel_task is_completed
cancel_task_stops t = (λ e. ground (arith, e), ground arith)

module _ (q : TaskQueue) (id : String) (r : ℕ) (found : lookup id q.tasks ≡ some r)
    (v : Inv q) where
  cancelled_store : ℕ → Task
  cancelled_store = update q.store r (λ t. (cancel_task t).0)

  cancelled-Keyed : Keyed cancelled_store q.tasks
  unfolding cancelled_store
  cancelled-Keyed =
      Keyed-update q.store q.tasks r (λ t. (cancel_task t).0) cancel_task-KeepsId v.keyed

  cancelled_count :
      (if is_downloading (status_of q r) then q.active_count -ℤ pos 1 else q.active_count)
      ≡ pos (count_tasks is_downloading cancelled_store (delete id q.tasks))
  unfolding cancelled_store ◌-ℤ◌
  cancelled_count = ground (
    arith,
    v.active,
    cancel_task_stops (q.store r),
    count_tasks-delete is_downloading cancelled_store q.tasks id r cancelled-Keyed found,
    count_tasks-update is_downloading q.store q.tasks id r (λ t. (cancel_task t).0) v.keyed found,
  )

  cancelled-Inv :
      (log : List Event)
      → Inv (record (drop_task q id) {
        store = cancelled_store;
        active_count =
            if is_downloading (status_of q r) then q.active_count -ℤ pos 1 else q.active_count;
        log = log;
      })
  unfolding cancelled_store
  cancelled-Inv log =
      leave-Inv q id r found v cancelled_store _ log cancelled-Keyed
        (λ x. ground (arith, cancel_task-KeepsId (q.store x))) (λ x ne. ground (arith, ne))
        (λ e. ground (arith, e, cancel_task_stops (q.store r))) cancelled_count

-- `Remove` keeps the invariant of the queue, whatever the status of the task.
pub remove_task-Inv : (q : TaskQueue) (id : String) → Inv q → Inv (remove_task q id).0
unfolding remove_task run_cancel cancelled_store drop_task
remove_task-Inv q id v = elim (Option-cases (lookup id q.tasks)) [
  | inl missing ↦ rw (missing, remove_task) v
  | inr (r, found) ↦ elim (Option-cases (cancel_task (q.store r)).1) [
    | inl nothing ↦
        rw (found, nothing, remove_task, run_cancel) (cancelled-Inv q id r found v q.log)
    | inr (h, some_cancel) ↦
        rw (found, some_cancel, remove_task, run_cancel)
          (cancelled-Inv q id r found v (q.log ++ cancel_called h ∷ []))
  ]
]
