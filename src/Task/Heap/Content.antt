-- ===== src/Task/Heap/Content.antt =====
-- What the heap operations of internal/task/queue.go do to what the queue holds, counted by any test on the task and
-- the priority of an entry.
use afd.Prelude.{
  ℕ, zero, suc, ◌+◌, ◌-◌, ◌*◌, ◌/◌, ◌≤◌, ◌<◌, ◌≡◌, refl, ◌∙◌, ℤ, pos, Bool, [], ◌∷◌, ◌++◌, arith,
  if◌then◌else◌, leb, ◌==◌, length, set, take, Bool-cases, inl, inr, length-set, length-append,
  length-take,
}
use afd.Task.Heap.{
  PriorityItem, PriorityQueue, at, swap, push_back, pop_back, up, down, smaller_child, push, pop,
  settle, remove,
}

abbrev pub ItemTest : Type 0
ItemTest = ℕ → ℤ → Bool

abbrev pub passes : ItemTest → PriorityItem → ℕ
passes p x = if p x.task x.priority then 1 else 0

unfoldable pub count : ItemTest → PriorityQueue → ℕ
count p [] = 0
count p (x ∷ pq) = passes p x + count p pq

pub count-append :
    (p : ItemTest) (xs ys : PriorityQueue) → count p (xs ++ ys) ≡ count p xs + count p ys
unfolding count
count-append p [] ys = omega arith
count-append p (x ∷ xs) ys = omega (arith, count-append p xs ys)

count-set :
    (p : ItemTest) (pq : PriorityQueue) (i : ℕ) (v : PriorityItem)
    → i < length pq
    → count p (set pq i v) + passes p (at pq i) ≡ count p pq + passes p v
unfolding count at
count-set p [] i v h = absurd (omega arith)
count-set p (x ∷ pq) zero v h = omega arith
count-set p (x ∷ pq) (suc i) v h = omega (arith, count-set p pq i v (omega arith))

pub at-set :
    (pq : PriorityQueue) (i k : ℕ) (v : PriorityItem)
    → i < length pq
    → at (set pq i v) k ≡ (if i == k then v else at pq k)
unfolding at
at-set [] i k v h = absurd (omega arith)
at-set (x ∷ pq) zero zero v h = refl
at-set (x ∷ pq) zero (suc k) v h = ground arith
at-set (x ∷ pq) (suc i) zero v h = ground arith
at-set (x ∷ pq) (suc i) (suc k) v h = ground (arith, at-set pq i k v)

pub length-swap : (pq : PriorityQueue) (i j : ℕ) → length (swap pq i j) ≡ length pq
unfolding swap
length-swap pq i j = length-set _ j _ ∙ length-set pq i _

module _ (pq : PriorityQueue) (i j : ℕ) (hi : i < length pq) (hj : j < length pq) where
  pub at-swap :
      (k : ℕ)
      → at (swap pq i j) k ≡ (
          if j == k
          then record (at pq i) { index = pos j }
          else if i == k
          then record (at pq j) { index = pos i }
          else at pq k)
  unfolding swap
  at-swap k =
      let inner = set pq i (record (at pq j) { index = pos i }) in
      let l : length inner ≡ length pq = length-set pq i _ in
      rw (at-set inner j k _ (omega (arith, l)), at-set pq i k _ hi) refl

  pub count-swap : (p : ItemTest) → count p (swap pq i j) ≡ count p pq
  unfolding swap
  count-swap p =
      let v = record (at pq j) { index = pos i } in
      let w = record (at pq i) { index = pos j } in
      let l : length (set pq i v) ≡ length pq = length-set pq i v in
      ground (
        arith,
        count-set p (set pq i v) j w (omega (arith, l)),
        count-set p pq i v hi,
        at-set pq i j v hi,
      )

pub up_keeps :
    (p : ItemTest) (n : ℕ) (pq : PriorityQueue) (j : ℕ)
    → j < length pq
    → (count p (up n pq j) ≡ count p pq) × (length (up n pq j) ≡ length pq)
unfolding up
up_keeps p zero pq j h = (refl, refl)
up_keeps p (suc n) pq j h = ground (
  arith,
  length-swap pq ((j - 1) / 2) j,
  count-swap pq ((j - 1) / 2) j (omega arith) h p,
  up_keeps p n (swap pq ((j - 1) / 2) j) ((j - 1) / 2),
)

pub smaller_child_lt : (pq : PriorityQueue) (i n : ℕ) → 2 * i + 1 < n → smaller_child pq i n < n
unfolding smaller_child
smaller_child_lt pq i n h = ground arith

pub smaller_child_gt : (pq : PriorityQueue) (i n : ℕ) → i < smaller_child pq i n
unfolding smaller_child
smaller_child_gt pq i n = ground arith

pub down_keeps :
    (p : ItemTest) (r : ℕ) (pq : PriorityQueue) (i n : ℕ)
    → n ≤ length pq
    → (count p (down r pq i n).0 ≡ count p pq) × (length (down r pq i n).0 ≡ length pq)
unfolding down
down_keeps p zero pq i n h = (refl, refl)
down_keeps p (suc r) pq i n h = elim (Bool-cases (leb n (2 * i + 1))) [
  | inl leaf ↦ rw leaf (refl, refl)
  | inr inner ↦
      let below : smaller_child pq i n < n = smaller_child_lt pq i n (ground arith) in
      let above = smaller_child_gt pq i n in
      ground (
        arith,
        inner,
        length-swap pq i (smaller_child pq i n),
        count-swap pq i (smaller_child pq i n) (omega arith) (omega arith) p,
        down_keeps p r (swap pq i (smaller_child pq i n)) (smaller_child pq i n) n,
      )
]

count-take :
    (p : ItemTest) (pq : PriorityQueue) (m : ℕ)
    → length pq ≡ suc m
    → count p (take m pq) + passes p (at pq m) ≡ count p pq
unfolding count at
count-take p [] m e = absurd (omega arith)
count-take p (x ∷ []) zero e = omega arith
count-take p (x ∷ y ∷ pq) zero e = absurd (omega arith)
count-take p (x ∷ pq) (suc m) e = omega (arith, count-take p pq m (omega arith))

-- What `push` adds is the entry, and what `pop` and `remove` take out is the entry that they return.
pub push_keeps :
    (p : ItemTest) (pq : PriorityQueue) (x : PriorityItem)
    → (count p (push pq x) ≡ count p pq + passes p x) × (length (push pq x) ≡ length pq + 1)
unfolding push push_back count
push_keeps p pq x =
    let last = record x { index = pos (length pq) } in
    let l : length (pq ++ last ∷ []) ≡ length pq + 1 = length-append pq (last ∷ []) in
    let k =
      up_keeps p (length (pq ++ last ∷ [])) (pq ++ last ∷ []) (length pq) (omega (arith, l)) in
    omega (arith, k, l, count-append p pq (last ∷ []))

pop_back_keeps :
    (p : ItemTest) (pq : PriorityQueue)
    → 0 < length pq
    → (count p (pop_back pq).0 + passes p (pop_back pq).1 ≡ count p pq)
      × (length (pop_back pq).0 + 1 ≡ length pq)
unfolding pop_back
pop_back_keeps p pq h =
    (count-take p pq (length pq - 1) (omega arith), omega (arith, length-take (length pq - 1) pq))

pub pop_keeps :
    (p : ItemTest) (pq : PriorityQueue)
    → 0 < length pq
    → (count p (pop pq).0 + passes p (pop pq).1 ≡ count p pq) × (length (pop pq).0 + 1 ≡ length pq)
unfolding pop
pop_keeps p pq h =
    let n : ℕ = length pq - 1 in
    let s = swap pq 0 n in
    let l : length s ≡ length pq = length-swap pq 0 n in
    let d = down_keeps p n s 0 n (omega (arith, l)) in
    let b = pop_back_keeps p (down n s 0 n).0 (omega (arith, l, d)) in
    (omega (arith, b, d, count-swap pq 0 n h (omega arith) p), omega (arith, b, d, l))

pub settle_keeps :
    (p : ItemTest) (pq : PriorityQueue) (i n : ℕ)
    → i < length pq
    → n < length pq
    → (count p (settle pq i n) ≡ count p pq) × (length (settle pq i n) ≡ length pq)
unfolding settle
settle_keeps p pq i n hi hn =
    let s = swap pq i n in
    let l : length s ≡ length pq = length-swap pq i n in
    let d = down_keeps p n s i n (omega (arith, l)) in
    let u = up_keeps p i (down n s i n).0 i (omega (arith, l, d)) in
    ground (arith, l, d, u, count-swap pq i n hi hn p)

-- Whatever test counts the entries, `remove` at an index of the heap takes out exactly the entry that it
-- returns.
pub remove_keeps :
    (p : ItemTest) (pq : PriorityQueue) (i : ℕ)
    → i < length pq
    → (count p (remove pq i).0 + passes p (remove pq i).1 ≡ count p pq)
      × (length (remove pq i).0 + 1 ≡ length pq)
unfolding remove
remove_keeps p pq i h =
    let n : ℕ = length pq - 1 in
    let s = settle_keeps p pq i n h (omega arith) in
    elim (Bool-cases (n == i)) [
      | inl last ↦ rw last (pop_back_keeps p pq (omega arith))
      | inr inner ↦ rw inner (
          let b = pop_back_keeps p (settle pq i n) (omega (arith, s)) in
          (omega (arith, b, s), omega (arith, b, s)))
    ]
