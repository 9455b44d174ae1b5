-- ===== src/Cluster/Scheduler/Balance.antt =====
-- `reassignTasks` and `Rebalance` of internal/cluster/scheduler.go.
use afd.Prelude.{
  ℕ, zero, suc, ◌+◌, ◌-◌, ◌%◌, ◌≤◌, ◌<◌, ◌≡◌, ◌≢◌, refl, ap, sym, ◌∙◌, inl, inr, String, str_eq,
  true, false, List, [], ◌∷◌, none, some, GoMap, length, get_elem?, arith, ltb, leb, ◌==◌,
  Bool-cases, Option-cases,
}
use native.Mathlib.Nat.{mod-eq_of_lt, mod-lt, add-mod_right}
use afd.Task.Model.{Task, set_target_node}
use afd.Cluster.Node.{Node}
use afd.Cluster.Scheduler.{
  count_tasks_for_node, takes_over, find_candidate, reassign_from, reassign_tasks, rebalance_from,
}

-- Some node of the list can take over.
abbrev pub HasOther : List Node → String → Type 0
HasOther nodes from =
    (k : ℕ) × (n : Node) × (get_elem? nodes k ≡ some n) × (takes_over from n ≡ true)

elem-lt : (nodes : List Node) (k : ℕ) (n : Node) → get_elem? nodes k ≡ some n → k < length nodes
elem-lt [] k n e = cc
elem-lt (x ∷ nodes) zero n e = omega arith
elem-lt (x ∷ nodes) (suc k) n e = omega (arith, elem-lt nodes k n e)

-- The search ends only at another node, and the next search begins inside the list.
find_candidate-other :
    (rounds i : ℕ) (nodes : List Node) (idx : ℕ) (from to : String) (next : ℕ)
    → 0 < length nodes
    → find_candidate rounds i nodes idx from ≡ some (to, next)
    → (str_eq to from ≡ false) × (next < length nodes)
unfolding find_candidate
find_candidate-other zero i nodes idx from to next h e = cc
find_candidate-other (suc rounds) i nodes idx from to next h e =
    elim (Option-cases (get_elem? nodes ((idx + i) % length nodes))) [
      | inl out ↦
          find_candidate-other rounds (i + 1) nodes idx from to next h
            (rw (out, find_candidate) at e)
      | inr (n, found) ↦ elim (Bool-cases (takes_over from n)) [
        | inr passed ↦
            find_candidate-other rounds (i + 1) nodes idx from to next h
              (rw (found, passed, find_candidate) at e)
        | inl taken ↦
            let stop : some (n.id, (idx + i + 1) % length nodes) ≡ some (to, next) =
              rw (found, taken, find_candidate) at e in
            ground (arith, stop, taken, mod-lt (idx + i + 1) h)
      ]
    ]

-- A search that finds nothing has looked at no node that could take over.
find_candidate-none :
    (rounds i j : ℕ) (nodes : List Node) (idx : ℕ) (from : String) (n : Node)
    → find_candidate rounds i nodes idx from ≡ none
    → i ≤ j
    → j < i + rounds
    → get_elem? nodes ((idx + j) % length nodes) ≡ some n
    → takes_over from n ≡ false
unfolding find_candidate
find_candidate-none zero i j nodes idx from n e h l found = absurd (omega arith)
find_candidate-none (suc rounds) i j nodes idx from n e h l found =
    elim (Option-cases (get_elem? nodes ((idx + i) % length nodes))) [
      | inl out ↦ elim (Bool-cases (i == j)) [
        | inl here ↦ let same : i ≡ j = ground (arith, here) in absurd (cc (out, found, same))
        | inr later ↦
            find_candidate-none rounds (i + 1) j nodes idx from n (rw (out, find_candidate) at e)
              (ground (arith, later, h)) (omega (arith, l)) found
      ]
      | inr (x, at_i) ↦ elim (Bool-cases (takes_over from x)) [
        | inl taken ↦ absurd (cc (rw (at_i, taken, find_candidate) at e))
        | inr passed ↦ elim (Bool-cases (i == j)) [
          | inl here ↦
              let same : i ≡ j = ground (arith, here) in
              let one : some x ≡ some n = cc (at_i, found, same) in
              let x_n : x ≡ n = cc one in ap (takes_over from) (sym x_n) ∙ passed
          | inr later ↦
              find_candidate-none rounds (i + 1) j nodes idx from n
                (rw (at_i, passed, find_candidate) at e) (ground (arith, later, h))
                (omega (arith, l)) found
        ]
      ]
    ]

-- From any place of the circle some round looks at position `k`.
round_for : (idx k len : ℕ) → idx < len → k < len → (j : ℕ) × (j < len) × ((idx + j) % len ≡ k)
round_for idx k len hi hk = elim (Bool-cases (leb idx k)) [
  | inl ahead ↦
      let le : idx ≤ k = ground (arith, ahead) in
      (k - idx, omega (arith, le), ap (λ x. x % len) (omega (arith, le)) ∙ mod-eq_of_lt hk)
  | inr behind ↦
      let lt : k < idx = ground (arith, behind) in
      (
        k + len - idx,
        omega (arith, lt, hi),
        ap (λ x. x % len) (omega (arith, lt, hi)) ∙ add-mod_right k len ∙ mod-eq_of_lt hk,
      )
]

find_candidate-some :
    (nodes : List Node) (idx : ℕ) (from : String)
    → idx < length nodes
    → HasOther nodes from
    → find_candidate (length nodes) 0 nodes idx from ≢ none
find_candidate-some nodes idx from h (k, n, found, fit) e =
    let r = round_for idx k (length nodes) h (elem-lt nodes k n found) in
    let at_r : get_elem? nodes ((idx + r.0) % length nodes) ≡ some n =
      ap (get_elem? nodes) r.2 ∙ found in
    let unfit =
      find_candidate-none (length nodes) 0 r.0 nodes idx from n e (omega arith) (omega (arith, r.1))
        at_r in
    cc (fit, unfit)

-- With another node to go to, the loop moves as many tasks off the node as it is asked to, as far as there
-- are any.
reassign_from-count :
    (now : ℕ) (from : String) (count : ℕ) (nodes : List Node) (done idx : ℕ) (m : GoMap Task)
    → idx < length nodes
    → HasOther nodes from
    → done ≤ count
    → count_tasks_for_node from (reassign_from now from count nodes done idx m)
      ≡ count_tasks_for_node from m - (count - done)
unfolding reassign_from count_tasks_for_node
reassign_from-count now from count nodes done idx [] h o l = omega arith
reassign_from-count now from count nodes done idx ((id, t) ∷ m) h o l =
    elim (Bool-cases (leb count done)) [
      | inl full ↦ rw full (omega (arith, leb_le count done full))
      | inr room ↦ elim (Bool-cases (str_eq t.target_node from)) [
        | inr other ↦
            rw (room, other)
              (ground (arith, other, reassign_from-count now from count nodes done idx m h o l))
        | inl own ↦ elim (Option-cases (find_candidate (length nodes) 0 nodes idx from)) [
          | inl nobody ↦ absurd (find_candidate-some nodes idx from h o nobody)
          | inr ((to, next), found) ↦
              let c =
                find_candidate-other (length nodes) 0 nodes idx from to next (omega (arith, h))
                  found in
              let ih =
                reassign_from-count now from count nodes (done + 1) next m c.1 o
                  (ground (arith, room)) in
              rw (room, own, found) (unfold set_target_node in ground (arith, c.0, ih, room))
        ]
      ]
    ]
  where
    leb_le : (a b : ℕ) → leb a b ≡ true → a ≤ b
    leb_le a b e = ground (arith, e)

-- Where another online node can take over, `reassignTasks` moves as many tasks off the node as it is asked to,
-- as far as the node has any.
pub reassign_tasks-count :
    (now : ℕ) (from : String) (count : ℕ) (nodes : List Node) (m : GoMap Task)
    → HasOther nodes from
    → count_tasks_for_node from (reassign_tasks now from count nodes m)
      ≡ count_tasks_for_node from m - count
unfolding reassign_tasks
reassign_tasks-count now from count nodes m o = omega (
  arith,
  reassign_from-count now from count nodes 0 0 m (omega (arith, elem-lt nodes o.0 o.1 o.2)) o
      (omega arith),
)

reassign_from-length :
    (now : ℕ) (from : String) (count : ℕ) (nodes : List Node) (done idx : ℕ) (m : GoMap Task)
    → length (reassign_from now from count nodes done idx m) ≡ length m
unfolding reassign_from
reassign_from-length now from count nodes done idx [] = refl
reassign_from-length now from count nodes done idx ((id, t) ∷ m) =
    elim (Bool-cases (leb count done)) [
      | inl full ↦ rw full refl
      | inr room ↦ elim (Bool-cases (str_eq t.target_node from)) [
        | inr other ↦
            rw (room, other) (ap suc (reassign_from-length now from count nodes done idx m))
        | inl own ↦ elim (Option-cases (find_candidate (length nodes) 0 nodes idx from)) [
          | inl nobody ↦
              rw (room, own, nobody) (ap suc (reassign_from-length now from count nodes done idx m))
          | inr ((to, next), found) ↦
              rw (room, own, found)
                (ap suc (reassign_from-length now from count nodes (done + 1) next m))
        ]
      ]
    ]

-- In a round of `Rebalance`, an online node with more than two tasks above the average is left with the average
-- where another node can take over; the number of tasks is the same.
pub rebalance_round :
    (now avg : ℕ) (n : Node) (all : List Node) (m : GoMap Task)
    → HasOther all n.id
    → avg + 2 < count_tasks_for_node n.id m
    → (count_tasks_for_node n.id (rebalance_from now avg all (n ∷ []) m) ≡ avg)
      × (length (rebalance_from now avg all (n ∷ []) m) ≡ length m)
unfolding rebalance_from
rebalance_round now avg n all m o over =
    let current : ℕ = count_tasks_for_node n.id m in
    let test : ltb (avg + 2) current ≡ true = ground (arith, over) in
    rw (test) (
      reassign_tasks-count now n.id (current - avg) all m o ∙ omega (arith, over),
      unfold reassign_tasks in reassign_from-length now n.id (current - avg) all 0 0 m,
    )
