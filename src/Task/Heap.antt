-- ===== src/Task/Heap.antt =====
-- The priority queue of internal/task/queue.go: `priorityQueue`, with the algorithms of Go's container/heap
-- that the queue calls on it (`Push`, `Pop`, `Remove`), as documented there: a binary heap in an array,
-- the children of `i` at `2 * i + 1` and `2 * i + 2`.
pub mod Content
pub mod Index
pub mod Order
pub mod Priority
use afd.Prelude.{
  ℕ, zero, suc, ◌+◌, ◌-◌, ◌*◌, ◌/◌, ℤ, pos, negsuc, Bool, true, false, ◌&&◌, ◌||◌, not, List, [],
  ◌∷◌, ◌++◌, Option, none, some, arith, if◌then◌else◌, ltb, leb, ◌==◌, ltb_ℤ, length, get_elem?,
  set, take,
}

-- `priorityItem`: the task is a reference into the store of tasks. `index` is -1 once popped.
pub record PriorityItem : Type 0 where
  pub task : ℕ
  pub priority : ℤ
  pub index : ℤ

abbrev pub PriorityQueue : Type 0
PriorityQueue = List PriorityItem

abbrev pub no_item : PriorityItem
no_item = record { task = 0; priority = pos 0; index = negsuc 0 }

-- `pq[i]`, at an index in range.
unfoldable pub at : PriorityQueue → ℕ → PriorityItem
at [] i = no_item
at (x ∷ pq) zero = x
at (x ∷ pq) (suc i) = at pq i

unfoldable pub less : PriorityQueue → ℕ → ℕ → Bool
less pq i j = ltb_ℤ (at pq i).priority (at pq j).priority

-- `Swap`: the entries change places and note where they are now.
unfoldable pub swap : PriorityQueue → ℕ → ℕ → PriorityQueue
swap pq i j =
    set (set pq i (record (at pq j) { index = pos i })) j (record (at pq i) { index = pos j })

-- `priorityQueue.Push`.
unfoldable pub push_back : PriorityQueue → PriorityItem → PriorityQueue
push_back pq item = pq ++ record item { index = pos (length pq) } ∷ []

-- `priorityQueue.Pop` of a queue that is not empty.
unfoldable pub pop_back : PriorityQueue → PriorityQueue × PriorityItem
pop_back pq =
    let n : ℕ = length pq in (take (n - 1) pq, record (at pq (n - 1)) { index = negsuc 0 })

-- `heap.up`. The parent of a positive `j` is nearer to the root, so `j` rounds are enough.
unfoldable pub up : ℕ → PriorityQueue → ℕ → PriorityQueue
unfolding less
up zero pq j = pq
up (suc rounds) pq j =
    let parent : ℕ = (j - 1) / 2 in
    let rest = up rounds (swap pq parent j) parent in
    if parent == j || not (less pq j parent) then pq else rest

-- The child of `i` that comes first, in a heap of `n` entries.
unfoldable pub smaller_child : PriorityQueue → ℕ → ℕ → ℕ
unfolding less
smaller_child pq i n =
    let left : ℕ = 2 * i + 1 in
    if ltb (left + 1) n && less pq (left + 1) left then left + 1 else left

-- `heap.down` over the first `n` entries, and where the entry ends up. `n` rounds are enough.
unfoldable pub down : ℕ → PriorityQueue → ℕ → ℕ → PriorityQueue × ℕ
unfolding less smaller_child
down zero pq i n = (pq, i)
down (suc rounds) pq i n =
    let child : ℕ = smaller_child pq i n in
    let rest = down rounds (swap pq i child) child n in
    if leb n (2 * i + 1) || not (less pq child i) then (pq, i) else rest

-- `heap.Push`.
unfoldable pub push : PriorityQueue → PriorityItem → PriorityQueue
unfolding push_back up
push pq item = let l = push_back pq item in up (length l) l (length pq)

-- `heap.Pop` of a queue that is not empty.
unfoldable pub pop : PriorityQueue → PriorityQueue × PriorityItem
unfolding down pop_back
pop pq = let n : ℕ = length pq - 1 in pop_back (down n (swap pq 0 n) 0 n).0

-- What `heap.Remove` does before it pops the last entry.
unfoldable pub settle : PriorityQueue → ℕ → ℕ → PriorityQueue
unfolding down up
settle pq i n =
    let (moved, to) = down n (swap pq i n) i n in if ltb i to then moved else up i moved i

-- `heap.Remove`, at an index in range.
unfoldable pub remove : PriorityQueue → ℕ → PriorityQueue × PriorityItem
unfolding settle pop_back
remove pq i = let n : ℕ = length pq - 1 in if n == i then pop_back pq else pop_back (settle pq i n)
