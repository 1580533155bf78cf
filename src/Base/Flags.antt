-- ===== src/Base/Flags.antt =====
-- Single bits of machine words, and what setting and clearing some of them does.
use Prim.Native.Nat.{
  ℕ, zero, suc, ◌-◌, ◌/◌, ◌%◌, ◌≤◌, min, max, bit_and, bit_or, ◌^◌, bit_and-bitwise,
}
use mathlib.Core.Path.{◌≡◌, refl}
use mathlib.Core.Logic.{◌≢◌}
use native.Mathlib.Nat.{pow-suc}
use native.Mathlib.Omega.{arith}
use system_n.Base.Bits.{bit_and_step, bit_or_step}

-- Bit `k`.
abbrev pub bit : ℕ → ℕ → ℕ
bit zero x = x % 2
bit (suc k) x = bit k (x / 2)

pub bit-bit_or : (k x y : ℕ) → bit k (bit_or x y) ≡ max (bit k x) (bit k y)
bit-bit_or zero x y = omega (arith, bit_or_step x y)
bit-bit_or (suc k) x y =
    let half : bit_or x y / 2 ≡ bit_or (x / 2) (y / 2) = omega (arith, bit_or_step x y) in
    rw half (bit-bit_or k (x / 2) (y / 2))

bit_and-below : (k x y : ℕ) → x ≤ k → bit_and x y ≤ x
bit_and-below zero x y h =
    let e : x ≡ 0 = omega (arith, h) in rw e (omega (arith, bit_and-bitwise 0 y))
bit_and-below (suc k) zero y h = omega (arith, bit_and-bitwise 0 y)
bit_and-below (suc k) (suc x) y h =
    omega (arith, bit_and_step (suc x) y, bit_and-below k (suc x / 2) (y / 2) (omega (arith, h)))

-- `reg &= ~mask`, as a subtraction.
pub bit-cleared : (k x m : ℕ) → bit k (x - bit_and x m) ≡ bit k x - min (bit k x) (bit k m)
bit-cleared zero x m = omega (arith, bit_and_step x m, bit_and-below (x / 2) (x / 2) (m / 2))
bit-cleared (suc k) x m =
    let half : (x - bit_and x m) / 2 ≡ x / 2 - bit_and (x / 2) (m / 2) =
      omega (arith, bit_and_step x m, bit_and-below (x / 2) (x / 2) (m / 2)) in
    rw half (bit-cleared k (x / 2) (m / 2))

pub bit-bound : (k x : ℕ) → bit k x ≤ 1
bit-bound zero x = omega arith
bit-bound (suc k) x = bit-bound k (x / 2)

bit-zero : (k : ℕ) → bit k 0 ≡ 0
bit-zero zero = refl
bit-zero (suc k) = bit-zero k

-- A flag has its own bit only.
pub bit-flag : (n k : ℕ) → k ≢ n → bit k (2 ^ n) ≡ 0
bit-flag zero zero h = absurd (h refl)
bit-flag zero (suc k) h = bit-zero k
bit-flag (suc n) zero h = omega (arith, pow-suc 2 n)
bit-flag (suc n) (suc k) h =
    let half : 2 ^ suc n / 2 ≡ 2 ^ n = omega (arith, pow-suc 2 n) in
    rw half (bit-flag n k (λ e. h (omega (arith, e))))
