-- ===== src/Prelude/Loops.antt =====
-- `for i := 0; i < n; i++` loops that search, count and add up, and their laws.
use Prim.Native.Nat.{ℕ, zero, suc, ◌+◌, ◌≤◌, ◌<◌}
use mathlib.Core.Path.{◌≡◌, refl}
use mathlib.Core.Bool.{Bool, true, false, not}
use mathlib.Core.Logic.{◌⊎◌, inl, inr}
use native.Mathlib.Omega.{arith}
use afd.Prelude.Tests.{◌==◌, if◌then◌else◌, Bool-cases}
use afd.Prelude.Int.{ℤ, pos, negsuc}

-- The first of `i, i + 1, …`, within `rounds` rounds, that passes, and -1 if none does.
unfoldable pub first_from : ℕ → ℕ → (ℕ → Bool) → ℤ
first_from zero i p = negsuc 0
first_from (suc rounds) i p = if p i then pos i else first_from rounds (i + 1) p

unfoldable pub count_from : ℕ → ℕ → (ℕ → Bool) → ℕ
count_from zero i p = 0
count_from (suc rounds) i p = (if p i then 1 else 0) + count_from rounds (i + 1) p

unfoldable pub sum_from : ℕ → ℕ → (ℕ → ℕ) → ℕ
sum_from zero i f = 0
sum_from (suc rounds) i f = f i + sum_from rounds (i + 1) f

-- Predicates that agree on the range give the same count.
pub count_from-ext :
    (n i : ℕ) (p q : ℕ → Bool)
    → ((j : ℕ) → i ≤ j → j < i + n → p j ≡ q j)
    → count_from n i p ≡ count_from n i q
unfolding count_from
count_from-ext zero i p q h = refl
count_from-ext (suc n) i p q h =
    rw (h i (omega arith) (omega arith))
      (omega (arith, count_from-ext n (i + 1) p q (λ j a b. h j (omega arith) (omega arith))))

-- A switch from false to true at one place of the range adds one to the count.
pub count_from-add :
    (n i k : ℕ) (p q : ℕ → Bool)
    → i ≤ k
    → k < i + n
    → p k ≡ false
    → q k ≡ true
    → ((j : ℕ) → (j ≡ k → ⊥) → p j ≡ q j)
    → count_from n i q ≡ count_from n i p + 1
unfolding count_from
count_from-add zero i k p q a b pk qk h = absurd (omega arith)
count_from-add (suc n) i k p q a b pk qk h = elim (Bool-cases (i == k)) [
  | inl e ↦
      let same : i ≡ k = ground arith in
      let pi : p i ≡ false = rw same pk in
      let qi : q i ≡ true = rw same qk in
      rw (pi, qi)
        (omega (arith, count_from-ext n (i + 1) p q (λ j c d. h j (λ (x : j ≡ k). omega arith))))
  | inr ne ↦
      let other : i ≡ k → ⊥ = λ (x : i ≡ k). ground arith in
      let more : suc i ≤ k = ground (arith, other) in
      rw (h i other)
        (omega (arith, count_from-add n (i + 1) k p q (omega arith) (omega arith) pk qk h))
]

pub count_from-le : (n i : ℕ) (p : ℕ → Bool) → count_from n i p ≤ n
unfolding count_from
count_from-le zero i p = omega arith
count_from-le (suc n) i p = ground (arith, count_from-le n (i + 1) p)

-- What passes and what does not make up the whole range.
pub count_from-not :
    (n i : ℕ) (p : ℕ → Bool) → count_from n i p + count_from n i (λ j. not (p j)) ≡ n
unfolding count_from
count_from-not zero i p = omega arith
count_from-not (suc n) i p = ground (arith, count_from-not n (i + 1) p)

-- The count reaches the number of rounds only if every place passes.
pub count_from-full :
    (n i : ℕ) (p : ℕ → Bool) (j : ℕ) → count_from n i p ≡ n → i ≤ j → j < i + n → p j ≡ true
unfolding count_from
count_from-full zero i p j c a b = absurd (omega arith)
count_from-full (suc n) i p j c a b = elim (Bool-cases (i == j)) [
  | inl e ↦ ground (arith, count_from-le n (i + 1) p)
  | inr ne ↦
      let other : i ≡ j → ⊥ = λ (x : i ≡ j). ground arith in
      let below : i + 1 ≤ j = ground (arith, other) in
      count_from-full n (i + 1) p j (ground (arith, count_from-le n (i + 1) p)) below (omega arith)
]

pub count_from-all :
    (n i : ℕ) (p : ℕ → Bool) → ((j : ℕ) → i ≤ j → j < i + n → p j ≡ true) → count_from n i p ≡ n
unfolding count_from
count_from-all zero i p h = refl
count_from-all (suc n) i p h =
    rw (h i (omega arith) (omega arith))
      (omega (arith, count_from-all n (i + 1) p (λ j a b. h j (omega arith) (omega arith))))

-- What a search ends with: the least place of the range that passes, or -1 if no place does.
pub first_from-cases :
    (n i : ℕ) (p : ℕ → Bool)
    → ((first_from n i p ≡ negsuc 0) × ((j : ℕ) → i ≤ j → j < i + n → p j ≡ false))
      ⊎ ((k : ℕ) × (first_from n i p ≡ pos k)
          × (i ≤ k)
          × (k < i + n)
          × (p k ≡ true)
          × ((j : ℕ) → i ≤ j → j < k → p j ≡ false))
unfolding first_from
first_from-cases zero i p = inl (refl, λ j a b. absurd (omega arith))
first_from-cases (suc n) i p = elim (Bool-cases (p i)) [
  | inl hit ↦ inr (i, rw hit, omega arith, omega arith, hit, λ j a b. absurd (omega arith))
  | inr miss ↦ elim (first_from-cases n (i + 1) p) [
    | inl (e, none_pass) ↦ inl (
      rw miss e,
      λ j a b. elim (Bool-cases (i == j)) [
        | inl same ↦ ground arith
        | inr other ↦ none_pass j (ground arith) (omega arith)
      ],
    )
    | inr (k, e, low, high, hit, before) ↦ inr (
      k,
      rw miss e,
      omega arith,
      omega arith,
      hit,
      λ j a b. elim (Bool-cases (i == j)) [
        | inl same ↦ ground arith
        | inr other ↦ before j (ground arith) b
      ],
    )
  ]
]
