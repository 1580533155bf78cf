-- ===== src/Base/Bits.antt =====
-- Laws of `&` and `|` on machine words. Both work digit by digit, so one lemma says for both how
-- the last digit splits off.
use Prim.Native.Nat.{
  ℕ, zero, suc, ◌+◌, ◌*◌, ◌/◌, ◌%◌, ◌≤◌, min, max, bit_and, bit_or, digits, bit_and-bitwise,
  bit_or-bitwise,
}
use mathlib.Core.Path.{◌≡◌, refl}
use native.Mathlib.Omega.{arith}

-- `rest` answers for the second word once the first is used up.
module _ (rest : ℕ → ℕ) (digit : ℕ → ℕ → ℕ) where
  rounds_agree : (x y m n : ℕ) → x ≤ m → x ≤ n → digits rest digit m x y ≡ digits rest digit n x y
  rounds_agree x y zero zero le_m le_n = refl
  rounds_agree zero y zero (suc n) le_m le_n = refl
  rounds_agree zero y (suc m) zero le_m le_n = refl
  rounds_agree zero y (suc m) (suc n) le_m le_n = refl
  rounds_agree (suc x) y zero (suc n) le_m le_n = absurd (omega arith)
  rounds_agree (suc x) y (suc m) zero le_m le_n = absurd (omega arith)
  rounds_agree (suc x) y (suc m) (suc n) le_m le_n =
      let halves = rounds_agree (suc x / 2) (y / 2) m n (omega arith) (omega arith) in
      omega (arith, halves)

  pub last_digit :
      ((y : ℕ) → rest y ≡ rest (y / 2) * 2 + digit 0 (y % 2))
      → (x y : ℕ)
      → digits rest digit x x y
        ≡ digits rest digit (x / 2) (x / 2) (y / 2) * 2 + digit (x % 2) (y % 2)
  last_digit law zero y = law y
  last_digit law (suc x) y =
      let fewer = rounds_agree (suc x / 2) (y / 2) x (suc x / 2) (omega arith) (omega arith) in
      omega (arith, fewer)

pub bit_and_step : (x y : ℕ) → bit_and x y ≡ bit_and (x / 2) (y / 2) * 2 + min (x % 2) (y % 2)
bit_and_step x y =
    let split = last_digit (λ _. 0) min (λ y. omega arith) x y in
    omega (arith, split, bit_and-bitwise x y, bit_and-bitwise (x / 2) (y / 2))

pub bit_or_step : (x y : ℕ) → bit_or x y ≡ bit_or (x / 2) (y / 2) * 2 + max (x % 2) (y % 2)
bit_or_step x y =
    let split = last_digit (λ y. y) max (λ y. omega arith) x y in
    omega (arith, split, bit_or-bitwise x y, bit_or-bitwise (x / 2) (y / 2))

-- 0 on the right, where the definition does not compute: `k` bounds the word.
zero_bits : (k x : ℕ) → x ≤ k → (bit_and x 0 ≡ 0) × (bit_or x 0 ≡ x)
zero_bits k zero le = (refl, refl)
zero_bits zero (suc x) le = absurd (omega arith)
zero_bits (suc k) (suc x) le =
    let (both, either) = zero_bits k (suc x / 2) (omega arith) in
    (omega (arith, both, bit_and_step (suc x) 0), omega (arith, either, bit_or_step (suc x) 0))

pub bit_or-zero : (x : ℕ) → bit_or x 0 ≡ x
bit_or-zero x = (zero_bits x x (omega arith)).1

-- Masks of low bits, and of the second bit alone.
pub bit_and-one : (x : ℕ) → bit_and x 1 ≡ x % 2
bit_and-one x =
    let (both, _) = zero_bits (x / 2) (x / 2) (omega arith) in omega (arith, both, bit_and_step x 1)

pub bit_and_two : (x : ℕ) → bit_and x 2 ≡ x / 2 % 2 * 2
bit_and_two x = omega (arith, bit_and_step x 2, bit_and-one (x / 2))

-- The bits from the second on, and the lowest.
pub bit_or-half : (a b : ℕ) → bit_or a b / 2 ≡ bit_or (a / 2) (b / 2)
bit_or-half a b = omega (arith, bit_or_step a b)

pub bit_or-odd : (a b : ℕ) → bit_or a b % 2 ≡ max (a % 2) (b % 2)
bit_or-odd a b = omega (arith, bit_or_step a b)

bit_and_15 : (x : ℕ) → bit_and x 15 ≡ x % 16
bit_and_15 x =
    let x4 = x / 2 / 2 in
    omega
      (arith, bit_and_step x 15, bit_and_step (x / 2) 7, bit_and_step x4 3, bit_and-one (x4 / 2))

bit_and_255 : (x : ℕ) → bit_and x 255 ≡ x % 256
bit_and_255 x =
    let x4 = x / 2 / 2 in
    let high = bit_and_15 (x4 / 2 / 2) in
    omega (
      arith,
      bit_and_step x 255,
      bit_and_step (x / 2) 127,
      bit_and_step x4 63,
      bit_and_step (x4 / 2) 31,
      high,
    )

-- The mask of a page's offset.
pub bit_and_4095 : (x : ℕ) → bit_and x 4095 ≡ x % 4096
bit_and_4095 x =
    let x4 = x / 2 / 2 in
    let high = bit_and_255 (x4 / 2 / 2) in
    omega (
      arith,
      bit_and_step x 4095,
      bit_and_step (x / 2) 2047,
      bit_and_step x4 1023,
      bit_and_step (x4 / 2) 511,
      high,
    )
