-- ===== src/Task/Queue/Position/Keeps.antt =====
-- `ChangePosition` of internal/task/queue.go: what the moves keep.
use afd.Prelude.{
  ℕ, zero, suc, ◌+◌, ◌-◌, ◌≤◌, ◌<◌, ◌≡◌, refl, ap, sym, inl, inr, ℤ, pos, negsuc, List, [], ◌∷◌,
  ◌++◌, some, String, lookup, arith, ltb, length, take, drop, Bool-cases, Option-cases,
}
use afd.Task.Model.{Task, is_pending}
use afd.Task.Heap.{PriorityItem, PriorityQueue, at, push, pop}
use afd.Task.Heap.Content.{count, ItemTest, passes, count-append, push_keeps, pop_keeps}
use afd.Task.Queue.{TaskQueue, update, status_of}
use afd.Task.Queue.Invariant.{of_task}
use afd.Task.Queue.Position.{
  drain, push_all, find_position, target_position, clamp_position, move_item, renumber,
  change_position,
}

count-empty : (p : ItemTest) (pq : PriorityQueue) → length pq ≡ 0 → count p pq ≡ 0
unfolding count
count-empty p [] h = refl
count-empty p (x ∷ pq) h = absurd (omega arith)

drain_keeps :
    (p : ItemTest) (n : ℕ) (pq : PriorityQueue)
    → length pq ≤ n
    → (count p (drain n pq) ≡ count p pq) × (length (drain n pq) ≡ length pq)
unfolding drain count
drain_keeps p zero pq h = (sym (count-empty p pq (omega arith)), omega arith)
drain_keeps p (suc n) pq h = elim (Bool-cases (ltb 0 (length pq))) [
  | inl go ↦
      let k = pop_keeps p pq (ground (arith, go)) in
      let ih = drain_keeps p n (pop pq).0 (omega (arith, k)) in
      rw go (omega (arith, k, ih), omega (arith, k, ih))
  | inr stop ↦
      let empty : length pq ≡ 0 = ground (arith, stop) in
      rw stop (sym (count-empty p pq empty), sym empty)
]

push_all_keeps :
    (p : ItemTest) (pq : PriorityQueue) (xs : List PriorityItem)
    → count p (push_all pq xs) ≡ count p pq + count p xs
unfolding push_all count
push_all_keeps p pq [] = omega arith
push_all_keeps p pq (x ∷ xs) = omega (arith, push_all_keeps p (push pq x) xs, push_keeps p pq x)

renumber_keeps :
    (r : ℕ) (st : ℕ → Task) (pq : PriorityQueue) (i : ℕ) (xs : List PriorityItem)
    → count (of_task r) (renumber st pq i xs).1 ≡ count (of_task r) pq + count (of_task r) xs
unfolding renumber count
renumber_keeps r st pq i [] = omega arith
renumber_keeps r st pq i (x ∷ xs) = omega (
  arith,
  renumber_keeps r (update st x.task (λ t. record t { priority = pos i }))
      (push pq (record x { priority = pos i })) (i + 1) xs,
  push_keeps (of_task r) pq (record x { priority = pos i }),
)

count-take-drop :
    (p : ItemTest) (n : ℕ) (xs : List PriorityItem)
    → count p (take n xs) + count p (drop n xs) ≡ count p xs
unfolding count
count-take-drop p zero xs = omega arith
count-take-drop p (suc n) [] = refl
count-take-drop p (suc n) (x ∷ xs) = omega (arith, count-take-drop p n xs)

count-drop :
    (p : ItemTest) (n k : ℕ) (xs : List PriorityItem)
    → k ≡ suc n
    → n < length xs
    → count p (drop n xs) ≡ passes p (at xs n) + count p (drop k xs)
unfolding count at
count-drop p n k [] e h = absurd (omega arith)
count-drop p zero k (x ∷ xs) e h = rw e refl
count-drop p (suc n) k (x ∷ xs) e h = rw e (count-drop p n (suc n) xs refl (omega arith))

drop-drop : (m n k : ℕ) (xs : List PriorityItem) → k ≡ n + m → drop m (drop n xs) ≡ drop k xs
drop-drop m zero k xs e = let f : k ≡ m = omega (arith, e) in rw f refl
drop-drop zero (suc n) k [] e = let f : k ≡ suc n = omega (arith, e) in rw f refl
drop-drop (suc m) (suc n) k [] e = let f : k ≡ suc (n + suc m) = omega (arith, e) in rw f refl
drop-drop m (suc n) k (x ∷ xs) e =
    let f : k ≡ suc (n + m) = omega (arith, e) in rw f (drop-drop m n (n + m) xs refl)

-- Moving an entry keeps the entries.
move_item_keeps :
    (p : ItemTest) (cur new : ℕ) (xs : List PriorityItem)
    → cur < length xs
    → new < length xs
    → count p (move_item cur new xs) ≡ count p xs
unfolding move_item count
move_item_keeps p cur new xs hc hn = elim (Bool-cases (ltb cur new)) [
  | inl right ↦
      let below : cur < new = ground (arith, right) in
      rw right (
        omega (
          arith,
          count-append p (take cur xs)
              (take (new - cur) (drop (cur + 1) xs) ++ at xs cur ∷ drop (new + 1) xs),
          count-append p (take (new - cur) (drop (cur + 1) xs)) (at xs cur ∷ drop (new + 1) xs),
          count-take-drop p (new - cur) (drop (cur + 1) xs),
          ap (count p) (drop-drop (new - cur) (cur + 1) (new + 1) xs (omega (arith, below))),
          count-drop p cur (cur + 1) xs (omega arith) hc,
          count-take-drop p cur xs,
        ))
  | inr left ↦
      let above : new ≤ cur = ground (arith, left) in
      rw left (
        omega (
          arith,
          count-append p (take new xs)
              (at xs cur ∷ (take (cur - new) (drop new xs) ++ drop (cur + 1) xs)),
          count-append p (take (cur - new) (drop new xs)) (drop (cur + 1) xs),
          count-take-drop p (cur - new) (drop new xs),
          ap (count p) (drop-drop (cur - new) new cur xs (omega (arith, above))),
          count-drop p cur (cur + 1) xs (omega arith) hc,
          count-take-drop p new xs,
        ))
]

find_position-lt :
    (st : ℕ → Task) (xs : List PriorityItem) (id : String) (i : ℕ)
    → find_position st xs id ≡ some i
    → i < length xs
unfolding find_position
find_position-lt st [] id i e = cc
find_position-lt st (x ∷ xs) id i e = elim (Option-cases (find_position st xs id)) [
  | inl none_left ↦ ground (arith, e, none_left)
  | inr (k, found) ↦ ground (arith, e, found, find_position-lt st xs id k found)
]

clamp_position-lt : (n : ℕ) (z : ℤ) → 0 < n → clamp_position n z < n
unfolding clamp_position
clamp_position-lt n (negsuc _) h = h
clamp_position-lt n (pos p) h = ground arith

-- `ChangePosition` keeps the entries of every task, on every branch.
pub change_position_keeps :
    (q : TaskQueue) (id : String) (z : ℤ) (how : String) (r : ℕ)
    → count (of_task r) (change_position q id z how).0.pq ≡ count (of_task r) q.pq
unfolding change_position
change_position_keeps q id z how r =
    let items = drain (length q.pq) q.pq in
    let d = drain_keeps (of_task r) (length q.pq) q.pq (omega arith) in
    let back : count (of_task r) (push_all [] items) ≡ count (of_task r) q.pq =
      unfold count in omega (arith, d, push_all_keeps (of_task r) [] items) in
    elim (Option-cases (lookup id q.tasks)) [
      | inl missing ↦ rw (missing, change_position) refl
      | inr (x, found) ↦ elim (Bool-cases (is_pending (status_of q x))) [
        | inr moved ↦ rw (found, moved, change_position) refl
        | inl wait ↦ elim (Option-cases (find_position q.store items id)) [
          | inl absent ↦ rw (found, wait, absent, change_position) back
          | inr (cur, here) ↦ elim (Option-cases (target_position how cur (length items) z)) [
            | inl unknown ↦ rw (found, wait, here, unknown, change_position) back
            | inr (target, known) ↦
                let lt = find_position-lt q.store items id cur here in
                let new = clamp_position (length items) target in
                let m =
                  move_item_keeps (of_task r) cur new items lt
                    (clamp_position-lt (length items) target (omega (arith, lt))) in
                rw (found, wait, here, known, change_position)
                  (unfold count in
                    omega (arith, d, m, renumber_keeps r q.store [] 0 (move_item cur new items)))
          ]
        ]
      ]
    ]
