-- ===== src/Downloader/Bitfield/Bytes.antt =====
-- Bit `i` of a `[]byte`: bit `i % 8` of byte `i / 8`.
use afd.Prelude.{
  ℕ, zero, suc, ◌/◌, ◌%◌, ◌<◌, ◌≡◌, refl, Bool, true, false, List, [], ◌∷◌, arith, length, get_or,
  set, length-set, if◌then◌else◌, ◌==◌, replicate, byte_test, byte_set, byte_clear, byte_test-set,
  byte_test-clear, byte_test_zero, byte_set_lt, byte_clear_lt,
}

unfoldable pub test_bit : List ℕ → ℕ → Bool
test_bit bf i = byte_test (get_or bf (i / 8) 0) (i % 8)

unfoldable pub put_bit : List ℕ → ℕ → List ℕ
put_bit bf i = set bf (i / 8) (byte_set (get_or bf (i / 8) 0) (i % 8))

unfoldable pub clear_bit : List ℕ → ℕ → List ℕ
clear_bit bf i = set bf (i / 8) (byte_clear (get_or bf (i / 8) 0) (i % 8))

abbrev pub AreBytes : List ℕ → Type 0
AreBytes [] = Unit {0}
AreBytes (w ∷ ws) = (w < 256) × AreBytes ws

pub get_or-lt : (ws : List ℕ) (i : ℕ) → AreBytes ws → get_or ws i 0 < 256
get_or-lt [] i h = omega arith
get_or-lt (w ∷ ws) zero h = h.0
get_or-lt (w ∷ ws) (suc i) h = get_or-lt ws i h.1

set-AreBytes : (ws : List ℕ) (i w : ℕ) → w < 256 → AreBytes ws → AreBytes (set ws i w)
set-AreBytes [] i w l h = tt
set-AreBytes (x ∷ ws) zero w l h = (l, h.1)
set-AreBytes (x ∷ ws) (suc i) w l h = (h.0, set-AreBytes ws i w l h.1)

get_or-set :
    (ws : List ℕ) (i j w : ℕ)
    → i < length ws
    → get_or (set ws i w) j 0 ≡ (if i == j then w else get_or ws j 0)
get_or-set [] i j w h = absurd (omega arith)
get_or-set (x ∷ ws) zero zero w h = refl
get_or-set (x ∷ ws) zero (suc j) w h = ground arith
get_or-set (x ∷ ws) (suc i) zero w h = ground arith
get_or-set (x ∷ ws) (suc i) (suc j) w h = ground (arith, get_or-set ws i j w)

module _ (bf : List ℕ) (i : ℕ) (bytes : AreBytes bf) where
  pub put_bit-AreBytes : AreBytes (put_bit bf i)
  unfolding put_bit
  put_bit-AreBytes =
      set-AreBytes bf (i / 8) _ (byte_set_lt _ (i % 8) (get_or-lt bf (i / 8) bytes) (omega arith))
        bytes

  pub clear_bit-AreBytes : AreBytes (clear_bit bf i)
  unfolding clear_bit
  clear_bit-AreBytes =
      set-AreBytes bf (i / 8) _ (byte_clear_lt _ (i % 8) (get_or-lt bf (i / 8) bytes) (omega arith))
        bytes

  module _ (inside : i / 8 < length bf) (j : ℕ) where
    -- Setting a bit sets that bit and no other.
    pub test_bit-put : test_bit (put_bit bf i) j ≡ (if i == j then true else test_bit bf j)
    unfolding test_bit put_bit
    test_bit-put = ground (
      arith,
      get_or-set bf (i / 8) (j / 8) (byte_set (get_or bf (i / 8) 0) (i % 8)) inside,
      byte_test-set (get_or bf (i / 8) 0) (i % 8) (get_or-lt bf (i / 8) bytes) (omega arith) (j % 8)
          (omega arith),
    )

    -- Clearing a bit clears that bit and no other.
    pub test_bit-clear : test_bit (clear_bit bf i) j ≡ (if i == j then false else test_bit bf j)
    unfolding test_bit clear_bit
    test_bit-clear = ground (
      arith,
      get_or-set bf (i / 8) (j / 8) (byte_clear (get_or bf (i / 8) 0) (i % 8)) inside,
      byte_test-clear (get_or bf (i / 8) 0) (i % 8) (get_or-lt bf (i / 8) bytes) (omega arith)
          (j % 8) (omega arith),
    )

pub length-put_bit : (bf : List ℕ) (i : ℕ) → length (put_bit bf i) ≡ length bf
unfolding put_bit
length-put_bit bf i = length-set bf _ _

pub length-clear_bit : (bf : List ℕ) (i : ℕ) → length (clear_bit bf i) ≡ length bf
unfolding clear_bit
length-clear_bit bf i = length-set bf _ _

pub replicate-AreBytes : (n : ℕ) → AreBytes (replicate n 0)
replicate-AreBytes zero = tt
replicate-AreBytes (suc n) = (omega arith, replicate-AreBytes n)

get_or-replicate : (n i : ℕ) → get_or {A = ℕ} (replicate n 0) i 0 ≡ 0
get_or-replicate zero i = refl
get_or-replicate (suc n) zero = refl
get_or-replicate (suc n) (suc i) = get_or-replicate n i

pub test_bit-replicate : (n i : ℕ) → test_bit (replicate n 0) i ≡ false
unfolding test_bit
test_bit-replicate n i = rw (get_or-replicate n (i / 8)) (byte_test_zero (i % 8) (omega arith))
