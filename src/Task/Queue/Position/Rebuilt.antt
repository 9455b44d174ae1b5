-- ===== src/Task/Queue/Position/Rebuilt.antt =====
-- `ChangePosition` of internal/task/queue.go and the invariant of the queue: the heap is filled again and priorities
-- change, and nothing else does.
use afd.Prelude.{
  ℕ, ◌+◌, ◌≡◌, refl, ap, sym, ◌∙◌, inl, inr, ℤ, pos, Bool, List, [], ◌∷◌, String, GoMap, lookup,
  arith, length, ◌==◌, Bool-cases, Option-cases,
}
use afd.Task.Model.{Task, TaskStatus, is_pending, is_downloading}
use afd.Task.Heap.{PriorityItem, PriorityQueue, push}
use afd.Task.Heap.Index.{Indexed, push-Indexed}
use afd.Task.Heap.Order.{IsHeap}
use afd.Task.Heap.Priority.{push-IsHeap}
use afd.Task.Queue.{TaskQueue, update, status_of}
use afd.Task.Queue.Store.{Keyed, count_tasks}
use afd.Task.Queue.Invariant.{Inv}
use afd.Task.Queue.Invariant.Exact.{Exact}
use afd.Task.Queue.Position.{
  drain, push_all, find_position, target_position, clamp_position, move_item, renumber,
  change_position,
}
use afd.Task.Queue.Position.Keeps.{change_position_keeps}

-- A store whose tasks have the same identifiers and statuses.
abbrev SameTasks : (ℕ → Task) → (ℕ → Task) → Type 0
SameTasks st st' = (x : ℕ) → ((st' x).id ≡ (st x).id) × ((st' x).status ≡ (st x).status)

Keyed-same : (st st' : ℕ → Task) (m : GoMap ℕ) → SameTasks st st' → Keyed st m → Keyed st' m
Keyed-same st st' [] h k = tt
Keyed-same st st' ((id, r) ∷ m) h k = ((h r).0 ∙ k.0, k.1, Keyed-same st st' m h k.2)

count_tasks-same :
    (p : TaskStatus → Bool) (st st' : ℕ → Task) (m : GoMap ℕ)
    → SameTasks st st'
    → count_tasks p st' m ≡ count_tasks p st m
unfolding count_tasks
count_tasks-same p st st' [] h = refl
count_tasks-same p st st' ((id, r) ∷ m) h = rw ((h r).1, count_tasks-same p st st' m h) refl

-- Nothing but the heap and the priorities changes, and the heap is one.
record Rebuilt (q q' : TaskQueue) : Type 0 where
  same_map : q'.tasks ≡ q.tasks
  same_active : q'.active_count ≡ q.active_count
  same_tasks : SameTasks q.store q'.store
  still_indexed : Indexed q'.pq
  still_heap : IsHeap q'.pq (length q'.pq)

abbrev IsQueue : PriorityQueue → Type 0
IsQueue pq = Indexed pq × IsHeap pq (length pq)

empty-IsQueue : IsQueue []
empty-IsQueue = (λ k h. absurd (omega arith), λ k a b. absurd (omega arith))

push-IsQueue : (pq : PriorityQueue) (x : PriorityItem) → IsQueue pq → IsQueue (push pq x)
push-IsQueue pq x h = (push-Indexed pq x h.0, push-IsHeap pq x h.1)

push_all-IsQueue :
    (pq : PriorityQueue) (xs : List PriorityItem) → IsQueue pq → IsQueue (push_all pq xs)
unfolding push_all
push_all-IsQueue pq [] h = h
push_all-IsQueue pq (x ∷ xs) h = push_all-IsQueue (push pq x) xs (push-IsQueue pq x h)

renumber-IsQueue :
    (st : ℕ → Task) (pq : PriorityQueue) (i : ℕ) (xs : List PriorityItem)
    → IsQueue pq
    → IsQueue (renumber st pq i xs).1
unfolding renumber
renumber-IsQueue st pq i [] h = h
renumber-IsQueue st pq i (x ∷ xs) h =
    renumber-IsQueue (update st x.task (λ t. record t { priority = pos i }))
      (push pq (record x { priority = pos i })) (i + 1) xs
      (push-IsQueue pq (record x { priority = pos i }) h)

renumber-SameTasks :
    (st : ℕ → Task) (pq : PriorityQueue) (i : ℕ) (xs : List PriorityItem)
    → SameTasks st (renumber st pq i xs).0
unfolding renumber
renumber-SameTasks st pq i [] x = (refl, refl)
renumber-SameTasks st pq i (y ∷ ys) x =
    let st' = update st y.task (λ t. record t { priority = pos i }) in
    let ih = renumber-SameTasks st' (push pq (record y { priority = pos i })) (i + 1) ys x in
    let one : ((st' x).id ≡ (st x).id) × ((st' x).status ≡ (st x).status) =
      elim (Bool-cases (x == y.task)) [
        | inl same ↦ rw same (refl, refl)
        | inr other ↦ rw other (refl, refl)
      ] in
    (ih.0 ∙ one.0, ih.1 ∙ one.1)

unchanged-Rebuilt : (q : TaskQueue) → Inv q → Rebuilt q q
unchanged-Rebuilt q v = record {
  same_map = refl;
  same_active = refl;
  same_tasks = λ x. (refl, refl);
  still_indexed = v.indexed;
  still_heap = v.heap;
}

refilled-Rebuilt :
    (q : TaskQueue) (st : ℕ → Task) (pq : PriorityQueue)
    → SameTasks q.store st
    → IsQueue pq
    → Rebuilt q (record q { store = st; pq = pq })
refilled-Rebuilt q st pq same h = record {
  same_map = refl;
  same_active = refl;
  same_tasks = same;
  still_indexed = h.0;
  still_heap = h.1;
}

change_position-Rebuilt :
    (q : TaskQueue) (id : String) (z : ℤ) (how : String)
    → Inv q
    → Rebuilt q (change_position q id z how).0
unfolding change_position
change_position-Rebuilt q id z how v =
    let items = drain (length q.pq) q.pq in
    let back =
      refilled-Rebuilt q q.store (push_all [] items) (λ x. (refl, refl))
        (push_all-IsQueue [] items empty-IsQueue) in
    elim (Option-cases (lookup id q.tasks)) [
      | inl missing ↦ rw (missing, change_position) (unchanged-Rebuilt q v)
      | inr (x, found) ↦ elim (Bool-cases (is_pending (status_of q x))) [
        | inr moved ↦ rw (found, moved, change_position) (unchanged-Rebuilt q v)
        | inl wait ↦ elim (Option-cases (find_position q.store items id)) [
          | inl absent ↦ rw (found, wait, absent, change_position) back
          | inr (cur, here) ↦ elim (Option-cases (target_position how cur (length items) z)) [
            | inl unknown ↦ rw (found, wait, here, unknown, change_position) back
            | inr (target, known) ↦
                let moved = move_item cur (clamp_position (length items) target) items in
                rw (found, wait, here, known, change_position)
                  (refilled-Rebuilt q (renumber q.store [] 0 moved).0
                    (renumber q.store [] 0 moved).1 (renumber-SameTasks q.store [] 0 moved)
                    (renumber-IsQueue q.store [] 0 moved empty-IsQueue))
          ]
        ]
      ]
    ]

-- `ChangePosition` keeps, on every branch, the invariant of the queue, and that every entry is of a pending task
-- and no task has two.
pub change_position-Exact :
    (q : TaskQueue) (id : String) (z : ℤ) (how : String)
    → Inv q
    → Exact q
    → Inv (change_position q id z how).0 × Exact (change_position q id z how).0
change_position-Exact q id z how v e =
    let b = change_position-Rebuilt q id z how v in
    let q' = (change_position q id z how).0 in
    let same = λ (x : ℕ). change_position_keeps q id z how x in
    (
      record {
        keyed = rw b.same_map (Keyed-same q.store q'.store q.tasks b.same_tasks v.keyed);
        active =
            b.same_active
            ∙ v.active
            ∙ ap pos (
                rw b.same_map
                  (sym (count_tasks-same is_downloading q.store q'.store q.tasks b.same_tasks)));
        indexed = b.still_indexed;
        heap = b.still_heap;
        waiting = λ i x l s _.
            rw (same x)
              (v.waiting i x (rw b.same_map at l) (sym (b.same_tasks x).1 ∙ s) (λ (y : ⊥). y));
        filed = λ x c s.
            rw (b.same_map, (b.same_tasks x).0)
              (v.filed x (rw (same x) at c) (sym (b.same_tasks x).1 ∙ s));
      },
      record {
        fresh = λ x c. (b.same_tasks x).1 ∙ e.fresh x (rw (same x) at c);
        once = λ x. rw (same x) (e.once x);
      },
    )
