-- ===== src/Task/Heap/Priority.antt =====
-- The heap of internal/task/queue.go as a priority queue: the heap order under `push`, `pop` and `remove`, and the entry
-- that `pop` returns.
use afd.Prelude.{
  ℕ, zero, suc, ◌+◌, ◌-◌, ◌*◌, ◌≤◌, ◌<◌, ◌≡◌, refl, sym, subst, ◌∙◌, pos, ◌≤ℤ◌, ltb_ℤ, true, false,
  ◌&&◌, [], ◌∷◌, ◌++◌, arith, if◌then◌else◌, ltb, leb, ◌==◌, length, take, Bool-cases, inl, inr,
  length-append, length-take,
}
use afd.Task.Heap.{
  PriorityItem, PriorityQueue, at, less, swap, push_back, pop_back, up, down, smaller_child, push,
  pop, settle, remove,
}
use afd.Task.Heap.Content.{
  at-swap, length-swap, smaller_child_lt, smaller_child_gt, up_keeps, down_keeps, settle_keeps,
}
use afd.Task.Heap.Index.{at-append, at-take}
use afd.Task.Heap.Order.{
  IsHeap, UpGap, DownGap, key, parent, up-IsHeap, down-IsHeap, key-swap, smaller_child-parent,
}

-- The root comes before every entry.
pub root-le :
    (r : ℕ) (pq : PriorityQueue) (n k : ℕ) → k ≤ r → k < n → IsHeap pq n → key pq 0 ≤ℤ key pq k
root-le zero pq n k h l heap = let e : k ≡ 0 = omega arith in rw e (omega arith)
root-le (suc r) pq n zero h l heap = omega arith
root-le (suc r) pq n (suc k) h l heap = omega (
  arith,
  root-le r pq n (parent (suc k)) (omega arith) (omega arith) heap,
  heap (suc k) (omega arith) l,
)

pub push-IsHeap :
    (pq : PriorityQueue) (x : PriorityItem)
    → IsHeap pq (length pq)
    → IsHeap (push pq x) (length (push pq x))
unfolding push push_back
push-IsHeap pq x heap =
    let last = record x { index = pos (length pq) } in
    let l : length (pq ++ last ∷ []) ≡ length pq + 1 = length-append pq (last ∷ []) in
    let k =
      up_keeps (λ _ _. true) (length (pq ++ last ∷ [])) (pq ++ last ∷ []) (length pq)
        (omega (arith, l)) in
    subst (IsHeap (up (length (pq ++ last ∷ [])) (pq ++ last ∷ []) (length pq))) (sym k.1) (
      up-IsHeap (length (pq ++ last ∷ [])) (pq ++ last ∷ []) (length (pq ++ last ∷ [])) (length pq)
        (omega (arith, l)) (omega (arith, l)) (omega arith)
        (record {
          others = λ i a b ne. ground (
            arith,
            l,
            at-append pq last i,
            at-append pq last (parent i),
            heap i a (omega (arith, l, ne)),
          );
          across = λ i a b e _. absurd (omega (arith, l));
        }))

-- `down` over the first `n` entries leaves the others where they are.
at-down :
    (r : ℕ) (pq : PriorityQueue) (i n k : ℕ)
    → n ≤ length pq
    → n ≤ k
    → at (down r pq i n).0 k ≡ at pq k
unfolding down
at-down zero pq i n k h l = refl
at-down (suc r) pq i n k h l = elim (Bool-cases (leb n (2 * i + 1))) [
  | inl leaf ↦ rw leaf
  | inr inner ↦
      let child : ℕ = smaller_child pq i n in
      let below : child < n = smaller_child_lt pq i n (ground arith) in
      let above : i < child = smaller_child_gt pq i n in
      ground (
        arith,
        inner,
        length-swap pq i child,
        at-down r (swap pq i child) child n k,
        at-swap pq i child (omega arith) (omega arith) k,
      )
]

IsHeap-take :
    (pq : PriorityQueue) (n : ℕ)
    → n ≤ length pq
    → IsHeap pq n
    → IsHeap (take n pq) (length (take n pq))
IsHeap-take pq n h heap k a b =
    let l : k < n = omega (arith, length-take n pq) in
    ground (arith, at-take n pq k l, at-take n pq (parent k), heap k a l)

-- `pop` keeps the heap order.
pub pop-IsHeap :
    (pq : PriorityQueue)
    → 0 < length pq
    → IsHeap pq (length pq)
    → IsHeap (pop pq).0 (length (pop pq).0)
unfolding pop pop_back
pop-IsHeap pq h heap =
    let n : ℕ = length pq - 1 in
    let s = swap pq 0 n in
    let l : length s ≡ length pq = length-swap pq 0 n in
    let d = down_keeps (λ _ _. true) n s 0 n (omega (arith, l)) in
    let e : length (down n s 0 n).0 - 1 ≡ n = omega (arith, l, d) in
    rw e (
      IsHeap-take (down n s 0 n).0 n (omega (arith, l, d)) (
        down-IsHeap n s 0 n (omega arith) (omega (arith, l)) (record {
          others = λ k a b ne. ground (
            arith,
            ne,
            key-swap pq 0 n k h (omega arith),
            key-swap pq 0 n (parent k) h (omega arith),
            heap k a (omega arith),
          );
          across = λ k a b e' p. absurd (omega arith);
        })))

-- `pop` of a heap that is not empty returns the task of the root, and no entry of the heap has a smaller
-- priority number than the one it returns.
pub pop_first :
    (pq : PriorityQueue)
    → 0 < length pq
    → IsHeap pq (length pq)
    → ((pop pq).1.task ≡ (at pq 0).task)
      × ((k : ℕ) → k < length pq → (pop pq).1.priority ≤ℤ key pq k)
unfolding pop pop_back
pop_first pq h heap =
    let n : ℕ = length pq - 1 in
    let s = swap pq 0 n in
    let l : length s ≡ length pq = length-swap pq 0 n in
    let d = down_keeps (λ _ _. true) n s 0 n (omega (arith, l)) in
    let e : length (down n s 0 n).0 - 1 ≡ n = omega (arith, l, d) in
    let last = at-down n s 0 n n (omega (arith, l)) (omega arith) in
    (
      rw (e, last) (ground (arith, at-swap pq 0 n h (omega arith) n)),
      λ k b.
          rw (e, last)
            (ground (
              arith,
              at-swap pq 0 n h (omega arith) n,
              root-le k pq (length pq) k (omega arith) b heap,
            )),
    )

IsHeap-UpGap : (pq : PriorityQueue) (n j : ℕ) → j < n → IsHeap pq n → UpGap pq n j
IsHeap-UpGap pq n j hj heap = record {
  others = λ k a b _. heap k a b;
  across = λ k a b e p. cross k a b e p;
}
  where
    cross : (k : ℕ) → 0 < k → k < n → parent k ≡ j → 0 < j → key pq (parent j) ≤ℤ key pq k
    cross k a b e p = let up_to = heap k a b in ground (arith, e, up_to, heap j p hj)

down_still :
    (r : ℕ) (pq : PriorityQueue) (i n : ℕ)
    → ((c : ℕ) → c < n → parent c ≡ i → 0 < c → less pq c i ≡ false)
    → down r pq i n ≡ (pq, i)
unfolding down
down_still zero pq i n h = refl
down_still (suc r) pq i n h = elim (Bool-cases (leb n (2 * i + 1))) [
  | inl leaf ↦ rw leaf refl
  | inr inner ↦
      let below : smaller_child pq i n < n = smaller_child_lt pq i n (ground arith) in
      let above = smaller_child_gt pq i n in
      rw (inner, h (smaller_child pq i n) below (smaller_child-parent pq i n) (omega arith)) refl
]

-- What `remove` needs of the heap with entry `i` replaced by the last one.
module _ (pq : PriorityQueue) (i n : ℕ) (hi : i < n) (whole : length pq ≡ suc n)
    (heap : IsHeap pq (length pq)) where
  abbrev swapped : PriorityQueue
  swapped = swap pq i n

  key-swapped : (k : ℕ) → k < n → key swapped k ≡ (if i == k then key pq n else key pq k)
  key-swapped k h = ground (arith, key-swap pq i n k (omega (arith, whole)) (omega (arith, whole)))

  settle_down : ((0 < i) → key pq (parent i) ≤ℤ key pq n) → DownGap swapped n i
  settle_down fits = record {
    others = λ k a b ne.
        ground (
          arith,
          ne,
          fits,
          key-swapped k b,
          key-swapped (parent k),
          heap k a (omega (arith, whole)),
        );
    across = λ k a b e p. ground (
      arith,
      e,
      key-swapped k b,
      key-swapped (parent i),
      heap k a (omega (arith, whole)),
      heap i p (omega (arith, whole)),
    );
  }

  settle_up : 0 < i → ltb_ℤ (key pq n) (key pq (parent i)) ≡ true → UpGap swapped n i
  settle_up p early = record {
    others = λ k a b ne. ground (
      arith,
      ne,
      early,
      key-swapped k b,
      key-swapped (parent k),
      heap k a (omega (arith, whole)),
      heap i p (omega (arith, whole)),
    );
    across = λ k a b e _. ground (
      arith,
      e,
      key-swapped k b,
      key-swapped (parent i),
      heap k a (omega (arith, whole)),
      heap i p (omega (arith, whole)),
    );
  }

  settle_no_child :
      0 < i
      → ltb_ℤ (key pq n) (key pq (parent i)) ≡ true
      → (c : ℕ) → c < n
      → parent c ≡ i
      → 0 < c
      → less swapped c i ≡ false
  unfolding less
  settle_no_child p early c b e a = ground (
    arith,
    e,
    early,
    key-swapped c b,
    key-swapped i hi,
    heap c a (omega (arith, whole)),
    heap i p (omega (arith, whole)),
  )

  settle_fits : ((0 < i) → key pq (parent i) ≤ℤ key pq n) → IsHeap (settle pq i n) n
  unfolding settle
  settle_fits fits =
      let l : length swapped ≡ suc n = length-swap pq i n ∙ whole in
      let d = down_keeps (λ _ _. true) n swapped i n (omega (arith, l)) in
      let low = down-IsHeap n swapped i n (omega arith) (omega (arith, l)) (settle_down fits) in
      elim (Bool-cases (ltb i (down n swapped i n).1)) [
        | inl fell ↦ rw fell low
        | inr stayed ↦ rw stayed (
            up-IsHeap i (down n swapped i n).0 n i (omega arith) hi (omega (arith, l, d))
              (IsHeap-UpGap (down n swapped i n).0 n i hi low))
      ]

  settle_early : 0 < i → ltb_ℤ (key pq n) (key pq (parent i)) ≡ true → IsHeap (settle pq i n) n
  unfolding settle
  settle_early p early =
      let l : length swapped ≡ suc n = length-swap pq i n ∙ whole in
      let still = down_still n swapped i n (settle_no_child p early) in
      let same : ltb i i ≡ false = ground arith in
      rw (still, same)
        (up-IsHeap i swapped n i (omega arith) hi (omega (arith, l)) (settle_up p early))

  settle-IsHeap : IsHeap (settle pq i n) n
  settle-IsHeap = elim (Bool-cases (ltb 0 i && ltb_ℤ (key pq n) (key pq (parent i)))) [
    | inl early ↦ settle_early (ground arith) (ground arith)
    | inr fits ↦ settle_fits (λ p. ground (arith, fits, p))
  ]

-- `remove` at an index of a heap leaves a heap.
pub remove-IsHeap :
    (pq : PriorityQueue) (i : ℕ)
    → i < length pq
    → IsHeap pq (length pq)
    → IsHeap (remove pq i).0 (length (remove pq i).0)
unfolding remove pop_back
remove-IsHeap pq i h heap =
    let n : ℕ = length pq - 1 in
    let whole : length pq ≡ suc n = omega arith in
    elim (Bool-cases (n == i)) [
      | inl last ↦ rw last (IsHeap-take pq n (omega arith) (λ k a b. heap k a (omega arith)))
      | inr inner ↦
          let hi : i < n = ground (arith, inner) in
          let s = settle_keeps (λ _ _. true) pq i n h (omega arith) in
          let e : length (settle pq i n) - 1 ≡ n = omega (arith, s) in
          rw (inner, e)
            (IsHeap-take (settle pq i n) n (omega (arith, s)) (settle-IsHeap pq i n hi whole heap))
    ]

at-up : (r : ℕ) (pq : PriorityQueue) (j k : ℕ) → j < length pq → j < k → at (up r pq j) k ≡ at pq k
unfolding up
at-up zero pq j k h l = refl
at-up (suc r) pq j k h l = ground (
  arith,
  length-swap pq (parent j) j,
  at-up r (swap pq (parent j) j) (parent j) k,
  at-swap pq (parent j) j (omega arith) h k,
)

-- `remove` returns the entry at the index that it is given.
pub remove_entry :
    (pq : PriorityQueue) (i : ℕ) → i < length pq → (remove pq i).1.task ≡ (at pq i).task
unfolding remove settle pop_back
remove_entry pq i h =
    let n : ℕ = length pq - 1 in
    let s = swap pq i n in
    let l : length s ≡ length pq = length-swap pq i n in
    let d = down_keeps (λ _ _. true) n s i n (omega (arith, l)) in
    let last = at-down n s i n n (omega (arith, l)) (omega arith) in
    elim (Bool-cases (n == i)) [
      | inl same ↦ let e : n ≡ i = ground arith in rw (same, e) refl
      | inr inner ↦
          let hi : i < n = ground (arith, inner) in
          let up_last = at-up i (down n s i n).0 i n (omega (arith, l, d)) hi in
          let u = up_keeps (λ _ _. true) i (down n s i n).0 i (omega (arith, l, d)) in
          elim (Bool-cases (ltb i (down n s i n).1)) [
            | inl fell ↦
                let e : length (down n s i n).0 - 1 ≡ n = omega (arith, l, d) in
                rw (inner, fell, e, last) (ground (arith, at-swap pq i n h (omega arith) n))
            | inr stayed ↦
                let e : length (up i (down n s i n).0 i) - 1 ≡ n = omega (arith, l, d, u) in
                rw (inner, stayed, e, up_last, last)
                  (ground (arith, at-swap pq i n h (omega arith) n))
          ]
    ]
