-- ===== src/Prelude/Bytes.antt =====
-- A `[]byte` as a list of numbers, and the 16-bit numbers of encoding/binary in big-endian order.
use Prim.Native.Nat.{ℕ, ◌+◌, ◌*◌, ◌/◌, ◌%◌, ◌<◌}
use mathlib.Core.Path.{◌≡◌, refl, ap}
use mathlib.Core.Bool.{Bool, true, false, ◌&&◌}
use mathlib.Core.List.{List, [], ◌∷◌, ◌++◌}
use mathlib.Core.Logic.{◌↔◌}
use native.Mathlib.Omega.{arith}
use afd.Prelude.Tests.{◌==◌}
use afd.Prelude.Lists.{length, take, drop}

unfoldable pub bytes_eq : List ℕ → List ℕ → Bool
bytes_eq [] [] = true
bytes_eq [] (y ∷ ys) = false
bytes_eq (x ∷ xs) [] = false
bytes_eq (x ∷ xs) (y ∷ ys) = x == y && bytes_eq xs ys

pub bytes_eq_iff : (xs ys : List ℕ) → (bytes_eq xs ys ≡ true) ↔ (xs ≡ ys)
unfolding bytes_eq
bytes_eq_iff [] [] = (λ _. refl, λ _. refl)
bytes_eq_iff [] (y ∷ ys) = (λ e. cc, λ e. cc)
bytes_eq_iff (x ∷ xs) [] = (λ e. cc, λ e. cc)
bytes_eq_iff (x ∷ xs) (y ∷ ys) = ground (arith, bytes_eq_iff xs ys)

-- `PutUint16` and `Uint16`.
unfoldable pub put_uint16 : ℕ → List ℕ → List ℕ
put_uint16 v bs = (v / 256 % 256) ∷ (v % 256) ∷ bs

unfoldable pub uint16 : List ℕ → ℕ
uint16 [] = 0
uint16 (h ∷ []) = 0
uint16 (h ∷ l ∷ _) = h * 256 + l

pub uint16-put : (v : ℕ) (bs : List ℕ) → v < 65536 → uint16 (put_uint16 v bs) ≡ v
unfolding uint16 put_uint16
uint16-put v bs h = omega arith

pub take-append {ℓ} : {A : Type ℓ} (xs ys : List A) → take (length xs) (xs ++ ys) ≡ xs
take-append [] ys = refl
take-append (x ∷ xs) ys = ap (◌∷◌ x) (take-append xs ys)

pub drop-append {ℓ} : {A : Type ℓ} (xs ys : List A) → drop (length xs) (xs ++ ys) ≡ ys
drop-append [] ys = refl
drop-append (x ∷ xs) ys = drop-append xs ys

pub append_assoc {ℓ} : {A : Type ℓ} (xs ys zs : List A) → (xs ++ ys) ++ zs ≡ xs ++ (ys ++ zs)
append_assoc [] ys zs = refl
append_assoc (x ∷ xs) ys zs = ap (◌∷◌ x) (append_assoc xs ys zs)
