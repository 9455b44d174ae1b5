-- ===== src/Prelude/Bits.antt =====
-- The bits of one byte: `b & (1 << k) != 0`, `b |= 1 << k` and `b &^= 1 << k` on uint8.
use Prim.Native.Nat.{ℕ, zero, suc, ◌+◌, ◌*◌, ◌/◌, ◌%◌, ◌^◌, ◌<◌, bit_and, bit_or, bit_xor}
use mathlib.Core.Path.{◌≡◌, refl, subst}
use mathlib.Core.Bool.{Bool, true, false, not, ◌&&◌}
use native.Mathlib.Omega.{arith}
use afd.Prelude.Tests.{◌==◌, ltb, if◌then◌else◌}

unfoldable pub byte_test : ℕ → ℕ → Bool
byte_test w k = not (bit_and w (2 ^ k) == 0)

unfoldable pub byte_set : ℕ → ℕ → ℕ
byte_set w k = bit_or w (2 ^ k)

unfoldable pub byte_clear : ℕ → ℕ → ℕ
byte_clear w k = bit_and w (bit_xor 255 (2 ^ k))

-- A test passes on every number up to a limit. Bytes have few values, so the kernel runs it on all.
passes_up_to : (ℕ → Bool) → ℕ → Bool
passes_up_to p zero = true
passes_up_to p (suc limit) = passes_up_to p limit && p limit

passes_up_to-at :
    (p : ℕ → Bool) {x : ℕ} (limit : ℕ) → x < limit → passes_up_to p limit ≡ true → p x ≡ true
unfolding passes_up_to
passes_up_to-at p zero inside run = absurd (omega arith)
passes_up_to-at p {x} (suc limit) inside run = ground (arith, passes_up_to-at p {x = x} limit)

eqb : Bool → Bool → Bool
eqb true b = b
eqb false b = not b

eqb-eq : (a b : Bool) → eqb a b ≡ true → a ≡ b
unfolding eqb
eqb-eq true true h = refl
eqb-eq true false h = cc
eqb-eq false true h = cc
eqb-eq false false h = refl

set_check : ℕ → ℕ → ℕ → Bool
set_check w k j = eqb (byte_test (byte_set w k) j) (if k == j then true else byte_test w j)

clear_check : ℕ → ℕ → ℕ → Bool
clear_check w k j = eqb (byte_test (byte_clear w k) j) (if k == j then false else byte_test w j)

range_check : ℕ → ℕ → Bool
range_check w k = ltb (byte_set w k) 256 && ltb (byte_clear w k) 256

set_table : passes_up_to (λ w. passes_up_to (λ k. passes_up_to (set_check w k) 8) 8) 256 ≡ true
unfolding passes_up_to set_check eqb byte_test byte_set
set_table = refl

clear_table : passes_up_to (λ w. passes_up_to (λ k. passes_up_to (clear_check w k) 8) 8) 256 ≡ true
unfolding passes_up_to clear_check eqb byte_test byte_clear
clear_table = refl

range_table : passes_up_to (λ w. passes_up_to (range_check w) 8) 256 ≡ true
unfolding passes_up_to range_check byte_set byte_clear
range_table = refl

-- A test of a byte, a position in it and a second position, run on all of them.
at_byte :
    (test : ℕ → ℕ → ℕ → Bool) {w k j : ℕ}
    → passes_up_to (λ w. passes_up_to (λ k. passes_up_to (test w k) 8) 8) 256 ≡ true
    → w < 256
    → k < 8
    → j < 8
    → test w k j ≡ true
at_byte test run hw hk hj =
    passes_up_to-at _ 8 hj (passes_up_to-at _ 8 hk (passes_up_to-at _ 256 hw run))

module _ (w k : ℕ) (hw : w < 256) (hk : k < 8) where
  pub byte_test-set :
      (j : ℕ) → j < 8 → byte_test (byte_set w k) j ≡ (if k == j then true else byte_test w j)
  unfolding set_check
  byte_test-set j hj = eqb-eq _ _ (at_byte set_check set_table hw hk hj)

  pub byte_test-clear :
      (j : ℕ) → j < 8 → byte_test (byte_clear w k) j ≡ (if k == j then false else byte_test w j)
  unfolding clear_check
  byte_test-clear j hj = eqb-eq _ _ (at_byte clear_check clear_table hw hk hj)

  ranges : range_check w k ≡ true
  ranges =
      passes_up_to-at (range_check w) 8 hk
        (passes_up_to-at (λ w. passes_up_to (range_check w) 8) 256 hw range_table)

  pub byte_set_lt : byte_set w k < 256
  unfolding range_check
  byte_set_lt = ground (arith, ranges)

  pub byte_clear_lt : byte_clear w k < 256
  unfolding range_check
  byte_clear_lt = ground (arith, ranges)

pub byte_test_zero : (k : ℕ) → k < 8 → byte_test 0 k ≡ false
unfolding byte_test
byte_test_zero zero h = refl
byte_test_zero (suc zero) h = refl
byte_test_zero (suc (suc zero)) h = refl
byte_test_zero (suc (suc (suc zero))) h = refl
byte_test_zero (suc (suc (suc (suc zero)))) h = refl
byte_test_zero (suc (suc (suc (suc (suc zero))))) h = refl
byte_test_zero (suc (suc (suc (suc (suc (suc zero)))))) h = refl
byte_test_zero (suc (suc (suc (suc (suc (suc (suc zero))))))) h = refl
byte_test_zero (suc (suc (suc (suc (suc (suc (suc (suc k)))))))) h = absurd (omega arith)

-- A byte and a 16-bit number xor-ed twice with the constants of STUN.
byte_xor_check : ℕ → ℕ → Bool
byte_xor_check c b = bit_xor (bit_xor b c) c == b

port_xor_check : ℕ → ℕ → Bool
port_xor_check h l =
    bit_xor (bit_xor (h * 256 + l) 8466) 8466 == h * 256 + l
    && ltb (bit_xor (h * 256 + l) 8466) 65536

byte_xor_table : passes_up_to (λ c. passes_up_to (byte_xor_check c) 256) 256 ≡ true
unfolding passes_up_to byte_xor_check
byte_xor_table = refl

port_xor_table : passes_up_to (λ h. passes_up_to (port_xor_check h) 256) 256 ≡ true
unfolding passes_up_to port_xor_check
port_xor_table = refl

pub byte_xor_twice : (c b : ℕ) → c < 256 → b < 256 → bit_xor (bit_xor b c) c ≡ b
unfolding byte_xor_check
byte_xor_twice c b hc hb =
    let h =
      passes_up_to-at (byte_xor_check c) 256 hb
        (passes_up_to-at (λ c'. passes_up_to (byte_xor_check c') 256) 256 hc byte_xor_table) in
    ground (arith, h)

pub port_xor_twice :
    (p : ℕ) → p < 65536 → (bit_xor (bit_xor p 8466) 8466 ≡ p) × (bit_xor p 8466 < 65536)
unfolding port_xor_check
port_xor_twice p hp =
    let low : p % 256 < 256 = omega arith in
    let high : p / 256 < 256 = omega (arith, hp) in
    let row : passes_up_to (port_xor_check (p / 256)) 256 ≡ true =
      passes_up_to-at (λ k. passes_up_to (port_xor_check k) 256) 256 high port_xor_table in
    let h : port_xor_check (p / 256) (p % 256) ≡ true =
      passes_up_to-at (port_xor_check (p / 256)) 256 low row in
    let e : p / 256 * 256 + p % 256 ≡ p = omega arith in
    let h' : (bit_xor (bit_xor p 8466) 8466 == p && ltb (bit_xor p 8466) 65536) ≡ true =
      subst (λ x. (bit_xor (bit_xor x 8466) 8466 == x && ltb (bit_xor x 8466) 65536) ≡ true) e h in
    ground (arith, h')
