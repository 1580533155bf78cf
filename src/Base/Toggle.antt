-- ===== src/Base/Toggle.antt =====
-- `x ^ (1 << k)`: one bit of a number turned over.
use Prim.Native.Nat.{
  ℕ, zero, suc, ◌+◌, ◌-◌, ◌*◌, ◌/◌, ◌%◌, ◌^◌, ◌≤◌, ◌<◌, bit_xor, differ, bit_xor-bitwise,
}
use mathlib.Core.Path.{◌≡◌, refl, sym, ◌∙◌}
use mathlib.Core.Logic.{◌⊎◌, inl, inr}
use native.Mathlib.Omega.{arith}
use native.Mathlib.Nat.{pow-suc, mul_assoc, mul_comm}
use system_n.Base.Tests.{◌==◌, if◌then◌else◌}
use system_n.Base.Bits.{last_digit}

differ-zero : (x : ℕ) → differ x 0 ≡ x
differ-zero zero = refl
differ-zero (suc x) = refl

differ-one : (x : ℕ) → x < 2 → differ x 1 ≡ 1 - x
differ-one zero h = refl
differ-one (suc zero) h = refl
differ-one (suc (suc x)) h = absurd (omega arith)

bit_xor_step : (x y : ℕ) → bit_xor x y ≡ bit_xor (x / 2) (y / 2) * 2 + differ (x % 2) (y % 2)
bit_xor_step x y =
    let split = last_digit (λ y. y) differ (λ y. omega arith) x y in
    omega (arith, split, bit_xor-bitwise x y, bit_xor-bitwise (x / 2) (y / 2))

bit_xor-zero_below : (k x : ℕ) → x ≤ k → bit_xor x 0 ≡ x
bit_xor-zero_below k zero le = refl
bit_xor-zero_below zero (suc x) le = absurd (omega arith)
bit_xor-zero_below (suc k) (suc x) le =
    let rest = bit_xor-zero_below k (suc x / 2) (omega arith) in
    omega (arith, rest, bit_xor_step (suc x) 0, differ-zero (suc x % 2))

-- Bit `k` of `x` turned over.
unfoldable pub toggle : ℕ → ℕ → ℕ
toggle zero x = if x % 2 == 0 then x + 1 else x - 1
toggle (suc k) x = toggle k (x / 2) * 2 + x % 2

pub bit_xor-toggle : (k x : ℕ) → bit_xor x (2 ^ k) ≡ toggle k x
unfolding toggle
bit_xor-toggle zero x =
    let one = differ-one (x % 2) (omega arith) in
    let rest = bit_xor-zero_below (x / 2) (x / 2) (omega arith) in
    let step = bit_xor_step x 1 in ground (arith, one, rest, step)
bit_xor-toggle (suc k) x =
    let half : 2 ^ suc k / 2 ≡ 2 ^ k = omega (arith, pow-suc 2 k) in
    let even : 2 ^ suc k % 2 ≡ 0 = omega (arith, pow-suc 2 k) in
    bit_xor_step x (2 ^ suc k) ∙ rw (half, even, differ-zero (x % 2), bit_xor-toggle k (x / 2)) refl

pub toggle_twice : (k x : ℕ) → toggle k (toggle k x) ≡ x
unfolding toggle
toggle_twice zero x = ground arith
toggle_twice (suc k) x =
    let half : (toggle k (x / 2) * 2 + x % 2) / 2 ≡ toggle k (x / 2) = omega arith in
    let last : (toggle k (x / 2) * 2 + x % 2) % 2 ≡ x % 2 = omega arith in
    rw (half, last, toggle_twice k (x / 2)) (omega arith)

-- The other number lies one power of two above or below.
pub toggle-cases : (k x : ℕ) → (toggle k x ≡ x + 2 ^ k) ⊎ (x ≡ toggle k x + 2 ^ k)
unfolding toggle
toggle-cases zero x = ground arith
toggle-cases (suc k) x = elim (toggle-cases k (x / 2)) [
  | inl e ↦ inl (omega (arith, e, pow-suc 2 k))
  | inr e ↦ inr (omega (arith, e, pow-suc 2 k))
]

-- A factor of two moves the bit up.
pub toggle-double : (k x : ℕ) → toggle (suc k) (x * 2) ≡ toggle k x * 2
unfolding toggle
toggle-double k x = let half : x * 2 / 2 ≡ x = omega arith in rw half (omega arith)

pub toggle-shift : (c k x : ℕ) → toggle (c + k) (x * 2 ^ c) ≡ toggle k x * 2 ^ c
toggle-shift zero k x =
    let a : zero + k ≡ k = omega arith in
    let b : x * 2 ^ 0 ≡ x = omega arith in rw (a, b) (omega arith)
toggle-shift (suc c) k x =
    let a : suc c + k ≡ suc (c + k) = omega arith in
    let b : x * 2 ^ suc c ≡ x * 2 ^ c * 2 = rw (pow-suc 2 c) (sym (mul_assoc x (2 ^ c) 2)) in
    rw (a, b, toggle-double (c + k) (x * 2 ^ c), toggle-shift c k x)
      (rw (pow-suc 2 c) (mul_assoc (toggle k x) (2 ^ c) 2))

pub pow-add : (a b : ℕ) → 2 ^ (a + b) ≡ 2 ^ a * 2 ^ b
pow-add zero b = let e : zero + b ≡ b = omega arith in rw e (omega arith)
pow-add (suc a) b =
    let e : suc a + b ≡ suc (a + b) = omega arith in
    let f : 2 ^ suc a * 2 ^ b ≡ 2 * (2 ^ a * 2 ^ b) =
      rw (pow-suc 2 a) (rw (mul_comm (2 ^ a) 2) (mul_assoc 2 (2 ^ a) (2 ^ b))) in
    rw (e, f) (omega (arith, pow-suc 2 (a + b), pow-add a b))
