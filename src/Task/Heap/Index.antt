-- ===== src/Task/Heap/Index.antt =====
-- Every entry of the heap knows where it is, which `findPQIndex` and `heap.Remove` rely on.
use afd.Prelude.{
  ℕ, zero, suc, ◌+◌, ◌-◌, ◌*◌, ◌/◌, ◌≤◌, ◌<◌, ◌≡◌, refl, pos, true, ◌||◌, not, [], ◌∷◌, ◌++◌, arith,
  if◌then◌else◌, ltb, leb, ◌==◌, length, take, Bool-cases, inl, inr, length-append, length-take,
}
use afd.Task.Heap.{
  PriorityItem, PriorityQueue, at, less, swap, push_back, pop_back, up, down, smaller_child, push,
  pop, settle, remove,
}
use afd.Task.Heap.Content.{
  at-swap, length-swap, smaller_child_lt, smaller_child_gt, down_keeps, settle_keeps,
}

abbrev pub Indexed : PriorityQueue → Type 0
Indexed pq = (k : ℕ) → k < length pq → (at pq k).index ≡ pos k

swap-Indexed :
    (pq : PriorityQueue) (i j : ℕ)
    → i < length pq
    → j < length pq
    → Indexed pq
    → Indexed (swap pq i j)
swap-Indexed pq i j hi hj ix k h =
    ground
      (arith, at-swap pq i j hi hj k, length-swap pq i j, ix k (omega (arith, length-swap pq i j)))

up-Indexed : (n : ℕ) (pq : PriorityQueue) (j : ℕ) → j < length pq → Indexed pq → Indexed (up n pq j)
unfolding up
up-Indexed zero pq j h ix = ix
up-Indexed (suc n) pq j h ix =
    let parent : ℕ = (j - 1) / 2 in
    elim (Bool-cases (parent == j || not (less pq j parent))) [
      | inl stop ↦ rw stop ix
      | inr go ↦ rw go (
          up-Indexed n (swap pq parent j) parent (omega (arith, length-swap pq parent j))
            (swap-Indexed pq parent j (omega arith) h ix))
    ]

down-Indexed :
    (r : ℕ) (pq : PriorityQueue) (i n : ℕ) → n ≤ length pq → Indexed pq → Indexed (down r pq i n).0
unfolding down
down-Indexed zero pq i n h ix = ix
down-Indexed (suc r) pq i n h ix = elim (Bool-cases (leb n (2 * i + 1))) [
  | inl leaf ↦ rw leaf ix
  | inr inner ↦
      let child : ℕ = smaller_child pq i n in
      let below : child < n = smaller_child_lt pq i n (ground arith) in
      let above : i < child = smaller_child_gt pq i n in
      elim (Bool-cases (less pq child i)) [
        | inr stop ↦ rw (inner, stop) ix
        | inl go ↦
            rw (inner, go)
              (down-Indexed r (swap pq i child) child n (omega (arith, length-swap pq i child))
                (swap-Indexed pq i child (omega arith) (omega arith) ix))
      ]
]

pub at-append :
    (xs : PriorityQueue) (y : PriorityItem) (k : ℕ)
    → k < length xs + 1
    → at (xs ++ y ∷ []) k ≡ (if k == length xs then y else at xs k)
unfolding at
at-append [] y zero h = refl
at-append [] y (suc k) h = absurd (omega arith)
at-append (x ∷ xs) y zero h = ground arith
at-append (x ∷ xs) y (suc k) h = ground (arith, at-append xs y k)

pub at-take : (n : ℕ) (pq : PriorityQueue) (k : ℕ) → k < n → at (take n pq) k ≡ at pq k
unfolding at
at-take zero pq k h = absurd (omega arith)
at-take (suc n) [] k h = refl
at-take (suc n) (x ∷ pq) zero h = refl
at-take (suc n) (x ∷ pq) (suc k) h = at-take n pq k (omega arith)

pub push-Indexed : (pq : PriorityQueue) (x : PriorityItem) → Indexed pq → Indexed (push pq x)
unfolding push push_back
push-Indexed pq x ix =
    let last = record x { index = pos (length pq) } in
    let l : length (pq ++ last ∷ []) ≡ length pq + 1 = length-append pq (last ∷ []) in
    up-Indexed (length (pq ++ last ∷ [])) (pq ++ last ∷ []) (length pq) (omega (arith, l))
      (λ k h. ground (arith, l, at-append pq last k, ix k))

pop_back-Indexed : (pq : PriorityQueue) → 0 < length pq → Indexed pq → Indexed (pop_back pq).0
unfolding pop_back
pop_back-Indexed pq h ix k b =
    ground (arith, at-take (length pq - 1) pq k, length-take (length pq - 1) pq, ix k)

pub pop-Indexed : (pq : PriorityQueue) → 0 < length pq → Indexed pq → Indexed (pop pq).0
unfolding pop
pop-Indexed pq h ix =
    let n : ℕ = length pq - 1 in
    let l : length (swap pq 0 n) ≡ length pq = length-swap pq 0 n in
    let d = down_keeps (λ _ _. true) n (swap pq 0 n) 0 n (omega (arith, l)) in
    pop_back-Indexed _ (omega (arith, l, d))
      (down-Indexed n _ 0 n (omega (arith, l)) (swap-Indexed pq 0 n h (omega arith) ix))

settle-Indexed :
    (pq : PriorityQueue) (i n : ℕ)
    → i < length pq
    → n < length pq
    → Indexed pq
    → Indexed (settle pq i n)
unfolding settle
settle-Indexed pq i n hi hn ix =
    let s = swap pq i n in
    let l : length s ≡ length pq = length-swap pq i n in
    let d = down_keeps (λ _ _. true) n s i n (omega (arith, l)) in
    let moved = down-Indexed n s i n (omega (arith, l)) (swap-Indexed pq i n hi hn ix) in
    elim (Bool-cases (ltb i (down n s i n).1)) [
      | inl fell ↦ rw fell moved
      | inr stayed ↦ rw stayed (up-Indexed i _ i (omega (arith, l, d)) moved)
    ]

pub remove-Indexed :
    (pq : PriorityQueue) (i : ℕ) → i < length pq → Indexed pq → Indexed (remove pq i).0
unfolding remove
remove-Indexed pq i h ix =
    let n : ℕ = length pq - 1 in
    elim (Bool-cases (n == i)) [
      | inl last ↦ rw last (pop_back-Indexed pq (omega arith) ix)
      | inr inner ↦ rw inner (
          pop_back-Indexed _ (omega (arith, settle_keeps (λ _ _. true) pq i n h (omega arith)))
            (settle-Indexed pq i n h (omega arith) ix))
    ]
