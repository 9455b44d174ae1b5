-- ===== src/Task/Queue/Position.antt =====
-- internal/task/queue.go, `ChangePosition`: moving a waiting task, by draining the heap and filling it again
-- with new priorities.
pub mod Keeps
pub mod Rebuilt
use afd.Prelude.{
  ℕ, zero, suc, ◌+◌, ◌-◌, ◌≤◌, ◌<◌, ◌≡◌, refl, ap, sym, ◌∙◌, ◌⊎◌, inl, inr, ℤ, pos, negsuc, ◌+ℤ◌,
  ◌-ℤ◌, ltb_ℤ, leb_ℤ, sub_ℕ, Bool, true, false, List, [], ◌∷◌, ◌++◌, Option, none, some, String,
  str_eq, lookup, arith, if◌then◌else◌, ltb, leb, ◌==◌, length, take, drop, Bool-cases,
  Option-cases, length-append,
}
use afd.Task.Model.{Task, is_pending}
use afd.Task.Heap.{PriorityItem, PriorityQueue, at, push, pop}
use afd.Task.Heap.Content.{count, ItemTest, passes, count-append, push_keeps, pop_keeps}
use afd.Task.Queue.{
  TaskQueue, QueueError, not_found, not_waiting, not_in_heap, invalid_how, update, status_of,
}

-- The drain loop. Each round pops an entry, so as many rounds as entries are enough.
unfoldable pub drain : ℕ → PriorityQueue → List PriorityItem
drain zero pq = []
drain (suc rounds) pq =
    let (pq', x) = pop pq in
    let rest = drain rounds pq' in if ltb 0 (length pq) then x ∷ rest else []

unfoldable pub push_all : PriorityQueue → List PriorityItem → PriorityQueue
push_all pq [] = pq
push_all pq (x ∷ xs) = push_all (push pq x) xs

-- The position of the first entry of that task.
unfoldable pub find_position : (ℕ → Task) → List PriorityItem → String → Option ℕ
find_position store [] id = none
find_position store (x ∷ xs) id =
    let rest = find_position store xs id in
    if str_eq (store x.task).id id
    then some 0
    else elim rest [ none ↦ none | some i ↦ some (i + 1) ]

-- What `how` asks for: `none` for a word that is not known.
unfoldable pub target_position : String → ℕ → ℕ → ℤ → Option ℤ
target_position how cur len p =
    if str_eq how "POS_SET"
    then some p
    else if str_eq how "POS_CUR"
    then some (pos cur +ℤ p)
    else if str_eq how "POS_END"
    then some (pos len -ℤ pos 1 +ℤ p)
    else none

-- Into the range of the positions, for a positive length.
unfoldable pub clamp_position : ℕ → ℤ → ℕ
clamp_position len (negsuc _) = 0
clamp_position len (pos p) = if leb len p then len - 1 else p

-- The two copies and the write that move the entry at `cur` to `new`.
unfoldable pub move_item : ℕ → ℕ → List PriorityItem → List PriorityItem
move_item cur new items =
    let moved = at items cur in
    if ltb cur new
    then take cur items ++ (take (new - cur) (drop (cur + 1) items) ++ moved ∷ drop (new + 1) items)
    else take new items ++ (moved ∷ (take (cur - new) (drop new items) ++ drop (cur + 1) items))

-- The last loop: entry `i` and its task get priority `i`, and the entry goes back into the heap.
unfoldable pub renumber :
    (ℕ → Task) → PriorityQueue → ℕ → List PriorityItem → (ℕ → Task) × PriorityQueue
renumber store pq i [] = (store, pq)
renumber store pq i (x ∷ xs) =
    renumber (update store x.task (λ t. record t { priority = pos i }))
      (push pq (record x { priority = pos i })) (i + 1) xs

unfoldable pub change_position : TaskQueue → String → ℤ → String → TaskQueue × ℕ × Option QueueError
unfolding drain push_all find_position target_position clamp_position move_item renumber
change_position q id p how =
    let items = drain (length q.pq) q.pq in
    let restored = record q { pq = push_all [] items } in
    elim (lookup id q.tasks) [
      | none ↦ (q, 0, some not_found)
      | some r ↦ elim (is_pending (status_of q r)) [
        | false ↦ (q, 0, some not_waiting)
        | true ↦ elim (find_position q.store items id) [
          | none ↦ (restored, 0, some not_in_heap)
          | some cur ↦ elim (target_position how cur (length items) p) [
            | none ↦ (restored, 0, some invalid_how)
            | some target ↦
                let new : ℕ = clamp_position (length items) target in
                let filled = renumber q.store [] 0 (move_item cur new items) in
                (record q { store = filled.0; pq = filled.1 }, new, none)
          ]
        ]
      ]
    ]
