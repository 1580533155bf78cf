-- ===== src/Machine.antt =====
-- One hart with all that its system calls reach: the kernel's state, page tables and pages, the
-- console, trap frames, user memory and the register `sstatus`; and the results of code that may
-- wait for ever.
use system_n.Base.{ℕ, Option, none, some}
use system_n.Spinlock.{Run, done, panic}
use system_n.Proc.{Kernel, TrapFrame, Proc, put_proc}
use system_n.Uart.{Uart}
use system_n.PageTable.{Vm}

pub record Machine (S : Type 0) : Type 0 where
  pub kernel : Kernel
  pub vm : Vm S
  pub uart : Uart
  pub frames : ℕ → TrapFrame
  pub user : ℕ → ℕ
  pub sstatus : ℕ

-- `stuck`: the hart waits for ever, or the code would fault. `out_of_fuel`: the model was given too
-- few rounds for a loop.
pub data Outcome (A : Type 0) : Type 0 where
  returns : A → Outcome A
  stuck : Outcome A
  out_of_fuel : Outcome A

abbrev pub M : Type 0 → Type 0 → Type 0
M S A = Machine S → Outcome (A × Machine S)

abbrev pub pure : {S A : Type 0} → A → M S A
pure a m = returns (a, m)

abbrev pub and_then : {A B : Type 0} → Outcome A → (A → Outcome B) → Outcome B
and_then (returns a) k = k a
and_then stuck k = stuck
and_then out_of_fuel k = out_of_fuel

infixl 5 ◌>>=◌ ◌>>◌
abbrev pub ◌>>=◌ : {S A B : Type 0} → M S A → (A → M S B) → M S B
◌>>=◌ m f s = and_then (m s) λ (a, t). f a t

abbrev pub ◌>>◌ : {S B : Type 0} → M S (Unit {0}) → M S B → M S B
m >> k = m >>= λ _. k

abbrev pub get : {S : Type 0} → M S (Machine S)
get m = returns (m, m)

abbrev pub put : {S : Type 0} → Machine S → M S (Unit {0})
put m _ = returns (tt, m)

abbrev pub on_kernel : {S : Type 0} → (Kernel → Kernel) → M S (Unit {0})
on_kernel f m = returns (tt, record m { kernel = f m.kernel })

-- A process gets new contents.
abbrev pub set_proc : {S : Type 0} → ℕ → Proc → M S (Unit {0})
set_proc p r = on_kernel λ k. record k { proc = put_proc p r k.proc }

-- Code over the page tables, and over the console, which may not return.
abbrev pub lift_vm : {S A : Type 0} → Run (A × Vm S) → M S A
lift_vm panic m = stuck
lift_vm (done (a, vm)) m = returns (a, record m { vm = vm })

abbrev pub on_vm : {S A : Type 0} → (Vm S → Run (A × Vm S)) → M S A
on_vm f m = lift_vm (f m.vm) m

abbrev pub lift_uart : {S A : Type 0} → Option (A × Uart) → M S A
lift_uart none m = stuck
lift_uart (some (a, u)) m = returns (a, record m { uart = u })

abbrev pub on_uart : {S A : Type 0} → (Uart → Option (A × Uart)) → M S A
on_uart f m = lift_uart (f m.uart) m
