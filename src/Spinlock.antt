-- ===== src/Spinlock.antt =====
-- kernel/spinlock.c and kernel/spinlock.h: the locks, and what they do to the interrupts of the
-- hart that takes them. The children are about nested critical sections, and harts that run together.
pub mod Nesting
pub mod Harts
pub mod Exclusion
use Prim.Native.Nat.{bit_and}
use system_n.Base.{
  ℕ, zero, suc, ◌+◌, ◌-◌, ◌/◌, ◌%◌, ◌^◌, ◌≡◌, Bool, true, false, not, Option, none, some, arith,
  ◌==◌, if◌then◌else◌,
}
use system_n.Base.Bits.{bit_and_two}

abbrev pub uint_mod : ℕ
uint_mod = 2 ^ 32

-- `1UL << 1`
abbrev pub sstatus_sie : ℕ
sstatus_sie = 2

-- `SPINLOCK_INIT` and `spinlock_init`: the word of a free lock.
abbrev pub spinlock_init : ℕ
spinlock_init = 0

-- The part of a hart and of its `cpu_t` that the locks touch: `lock_depth`, the saved `sstatus`,
-- and the register itself.
pub record Hart : Type 0 where
  pub lock_depth : ℕ
  pub saved : ℕ
  pub sstatus : ℕ

-- `csrc reg, bit`
abbrev pub clear_bits : ℕ → ℕ → ℕ
clear_bits reg bit = reg - bit_and reg bit

-- Whether interrupts are enabled.
abbrev pub IsMasked : ℕ → Type 0
IsMasked reg = reg / 2 % 2 ≡ 0

pub clear_bits-IsMasked : (reg : ℕ) → IsMasked (clear_bits reg sstatus_sie)
clear_bits-IsMasked reg = omega (arith, bit_and_two reg)

-- What `spin_lock` and `spin_trylock` do before they touch the lock.
unfoldable pub enter : Hart → Hart
enter c =
    let c' =
      if c.lock_depth == 0
      then record c { saved = c.sstatus; sstatus = clear_bits c.sstatus sstatus_sie }
      else c in
    record c' { lock_depth = (c'.lock_depth + 1) % uint_mod }

-- `__atomic_test_and_set`: whether the word was set, and the word after it.
abbrev pub test_and_set : ℕ → Bool × ℕ
test_and_set locked = (not (locked == 0), 1)

-- A result, or a hart that waits for ever.
pub data Run {ℓ} (A : Type ℓ) : Type ℓ where
  done : A → Run A
  panic : Run A

-- The loop of `spin_lock`, for as many rounds as the fuel says; `none` means that it still spins.
unfoldable pub spin : ℕ → ℕ → Option ℕ
spin zero locked = none
spin (suc fuel) locked =
    let (was, now) = test_and_set locked in
    let again = spin fuel now in if was then again else some now

unfoldable pub spin_lock : ℕ → ℕ → Hart → Option (ℕ × Hart)
unfolding spin enter
spin_lock fuel locked c =
    let c' = enter c in elim (spin fuel locked) [ none ↦ none | some now ↦ some (now, c') ]

-- The result, the word of the lock and the hart: `__atomic_compare_exchange_n` from 0 to 1.
unfoldable pub spin_trylock : ℕ → Hart → ℕ × ℕ × Hart
unfolding enter
spin_trylock locked c = let c' = enter c in if locked == 0 then (1, 1, c') else (0, locked, c')

-- The decrement, and the last statement of `spin_unlock`.
unfoldable pub leave : Hart → Hart
leave c = record c { lock_depth = c.lock_depth - 1 }

unfoldable pub restore : Hart → Hart
restore c = if c.lock_depth == 0 then record c { sstatus = c.saved } else c

unfoldable pub spin_unlock : ℕ → Hart → Run (ℕ × Hart)
unfolding leave restore
spin_unlock locked c = if c.lock_depth == 0 then panic else done (0, restore (leave c))
