-- ===== src/Task/Heap/Order.antt =====
-- The heap order: no entry comes before its parent, so the root comes first.
use afd.Prelude.{
  ℕ, zero, suc, ◌+◌, ◌-◌, ◌*◌, ◌/◌, ◌≤◌, ◌<◌, ◌≡◌, ◌≢◌, ℤ, ◌≤ℤ◌, true, false, arith, if◌then◌else◌,
  leb, ◌==◌, length, Bool-cases, inl, inr,
}
use afd.Task.Heap.{PriorityQueue, at, less, swap, up, down, smaller_child}
use afd.Task.Heap.Content.{at-swap, length-swap, smaller_child_lt, smaller_child_gt}

abbrev pub key : PriorityQueue → ℕ → ℤ
key pq k = (at pq k).priority

abbrev pub parent : ℕ → ℕ
parent k = (k - 1) / 2

-- The first `n` entries are in heap order.
abbrev pub IsHeap : PriorityQueue → ℕ → Type 0
IsHeap pq n = (k : ℕ) → 0 < k → k < n → key pq (parent k) ≤ℤ key pq k

-- Heap order but between `j` and its parent, and between its parent and its children instead.
pub record UpGap (pq : PriorityQueue) (n j : ℕ) : Type 0 where
  pub others : (k : ℕ) → 0 < k → k < n → k ≢ j → key pq (parent k) ≤ℤ key pq k
  pub across : (k : ℕ) → 0 < k → k < n → parent k ≡ j → 0 < j → key pq (parent j) ≤ℤ key pq k

-- Heap order but between `i` and its children, and between its parent and its children instead.
pub record DownGap (pq : PriorityQueue) (n i : ℕ) : Type 0 where
  pub others : (k : ℕ) → 0 < k → k < n → parent k ≢ i → key pq (parent k) ≤ℤ key pq k
  pub across : (k : ℕ) → 0 < k → k < n → parent k ≡ i → 0 < i → key pq (parent i) ≤ℤ key pq k

pub key-swap :
    (pq : PriorityQueue) (i j k : ℕ)
    → i < length pq
    → j < length pq
    → key (swap pq i j) k ≡ (if j == k then key pq i else if i == k then key pq j else key pq k)
key-swap pq i j k hi hj = ground (arith, at-swap pq i j hi hj k)

-- One round of `up` moves the gap to the parent.
module _ (pq : PriorityQueue) (n j : ℕ) (hj : j < n) (hn : n ≤ length pq) (above : 0 < j) where
  up_gap_others :
      less pq j (parent j) ≡ true
      → UpGap pq n j
      → (k : ℕ) → 0 < k
      → k < n
      → k ≢ parent j
      → key (swap pq (parent j) j) (parent k) ≤ℤ key (swap pq (parent j) j) k
  unfolding less
  up_gap_others lt g k a b ne =
      rw
        (
          key-swap pq (parent j) j (parent k) (omega arith) (omega arith),
          key-swap pq (parent j) j k (omega arith) (omega arith),
        )
        (ground (arith, lt, ne, g.others k a b, g.across k a b))

  up_gap_across :
      less pq j (parent j) ≡ true
      → UpGap pq n j
      → (k : ℕ) → 0 < k
      → k < n
      → parent k ≡ parent j
      → 0 < parent j
      → key (swap pq (parent j) j) (parent (parent j)) ≤ℤ key (swap pq (parent j) j) k
  unfolding less
  up_gap_across lt g k a b e pp =
      rw
        (
          key-swap pq (parent j) j (parent (parent j)) (omega arith) (omega arith),
          key-swap pq (parent j) j k (omega arith) (omega arith),
        )
        (ground (arith, lt, e, g.others k a b, g.others (parent j) pp (omega arith) (omega arith)))

  -- The gap closes where the entry does not come before its parent.
  up_closed : less pq j (parent j) ≡ false → UpGap pq n j → IsHeap pq n
  unfolding less
  up_closed ge g k a b = elim (Bool-cases (k == j)) [
    | inl same ↦ let e : k ≡ j = ground arith in rw e (ground (arith, ge))
    | inr other ↦ g.others k a b (λ (e : k ≡ j). ground arith)
  ]

pub up-IsHeap :
    (r : ℕ) (pq : PriorityQueue) (n j : ℕ)
    → j ≤ r
    → j < n
    → n ≤ length pq
    → UpGap pq n j
    → IsHeap (up r pq j) n
unfolding up
up-IsHeap zero pq n j h hj hn g = λ k a b. g.others k a b (omega arith)
up-IsHeap (suc r) pq n j h hj hn g = elim (Bool-cases (parent j == j)) [
  | inl root ↦ let e : j ≡ 0 = ground arith in rw root (λ k a b. g.others k a b (omega arith))
  | inr inner ↦
      let above : 0 < j = ground arith in
      elim (Bool-cases (less pq j (parent j))) [
        | inr stop ↦ rw (inner, stop) (up_closed pq n j hj hn above stop g)
        | inl go ↦
            rw (inner, go)
              (up-IsHeap r (swap pq (parent j) j) n (parent j) (omega arith) (omega arith)
                (omega (arith, length-swap pq (parent j) j))
                (record {
                  others = up_gap_others pq n j hj hn above go g;
                  across = up_gap_across pq n j hj hn above go g;
                }))
      ]
]

-- The child that `down` looks at is a child, and comes before the other one.
pub smaller_child-parent : (pq : PriorityQueue) (i n : ℕ) → parent (smaller_child pq i n) ≡ i
unfolding smaller_child
smaller_child-parent pq i n = ground arith

pub smaller_child-le :
    (pq : PriorityQueue) (i n k : ℕ)
    → 0 < k
    → k < n
    → parent k ≡ i
    → key pq (smaller_child pq i n) ≤ℤ key pq k
unfolding smaller_child less
smaller_child-le pq i n k a b e = elim (Bool-cases (k == 2 * i + 1)) [
  | inl left ↦ let e' : k ≡ 2 * i + 1 = ground arith in rw e' (ground arith)
  | inr right ↦ let e' : k ≡ 2 * i + 1 + 1 = ground arith in rw e' (ground arith)
]

module _ (pq : PriorityQueue) (n i : ℕ) (hn : n ≤ length pq) (inner : 2 * i + 1 < n) where
  abbrev child : ℕ
  child = smaller_child pq i n

  child_facts : (child < n) × (i < child) × (parent child ≡ i)
  child_facts =
      (smaller_child_lt pq i n inner, smaller_child_gt pq i n, smaller_child-parent pq i n)

  down_gap_others :
      less pq child i ≡ true
      → DownGap pq n i
      → (k : ℕ) → 0 < k
      → k < n
      → parent k ≢ child
      → key (swap pq i child) (parent k) ≤ℤ key (swap pq i child) k
  unfolding less
  down_gap_others lt g k a b ne =
      let (below, over, of_i) = child_facts in
      rw
        (
          key-swap pq i child (parent k) (omega arith) (omega arith),
          key-swap pq i child k (omega arith) (omega arith),
        )
        (ground (
          arith,
          lt,
          ne,
          g.others k a b,
          g.across child (omega arith) below of_i,
          smaller_child-le pq i n k a b,
        ))

  down_gap_across :
      DownGap pq n i
      → (k : ℕ) → 0 < k
      → k < n
      → parent k ≡ child
      → 0 < child
      → key (swap pq i child) (parent child) ≤ℤ key (swap pq i child) k
  down_gap_across g k a b e pc =
      let (below, over, of_i) = child_facts in
      rw
        (
          key-swap pq i child (parent child) (omega arith) (omega arith),
          key-swap pq i child k (omega arith) (omega arith),
        )
        (ground (arith, of_i, e, g.others k a b))

  down_closed : less pq child i ≡ false → DownGap pq n i → IsHeap pq n
  unfolding less
  down_closed ge g k a b = elim (Bool-cases (parent k == i)) [
    | inl of_i ↦
        let e : parent k ≡ i = ground arith in
        rw e (ground (arith, ge, smaller_child-le pq i n k a b e))
    | inr other ↦ g.others k a b (λ (e : parent k ≡ i). ground arith)
  ]

pub down-IsHeap :
    (r : ℕ) (pq : PriorityQueue) (i n : ℕ)
    → n ≤ i + r
    → n ≤ length pq
    → DownGap pq n i
    → IsHeap (down r pq i n).0 n
unfolding down
down-IsHeap zero pq i n h hn g = λ k a b. g.others k a b (omega arith)
down-IsHeap (suc r) pq i n h hn g = elim (Bool-cases (leb n (2 * i + 1))) [
  | inl leaf ↦ rw leaf (λ k a b. g.others k a b (ground arith))
  | inr inner ↦
      let inside : 2 * i + 1 < n = ground arith in
      let (below, over, of_i) = child_facts pq n i hn inside in
      elim (Bool-cases (less pq (smaller_child pq i n) i)) [
        | inr stop ↦ rw (inner, stop) (down_closed pq n i hn inside stop g)
        | inl go ↦
            rw (inner, go)
              (down-IsHeap r (swap pq i (smaller_child pq i n)) (smaller_child pq i n) n
                (omega arith) (omega (arith, length-swap pq i (smaller_child pq i n)))
                (record {
                  others = down_gap_others pq n i hn inside go g;
                  across = down_gap_across pq n i hn inside g;
                }))
      ]
]
