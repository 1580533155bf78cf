-- ===== src/Trap.antt =====
-- kernel/trap/trap.c: traps and the dispatch of system calls. The registers that the handler reads
-- are arguments: `scause`, and the readings of the clock.
pub mod Dispatch
use system_n.Base.{ℕ, ◌+◌, ◌/◌, ◌%◌, ◌^◌, Bool, not, ◌&&◌, Option, none, some, ◌==◌, if◌then◌else◌}
use system_n.Proc.{ulong_mod, TrapFrame, zombie, Image, Kernel, set_state}
use system_n.Sched.{Switch, schedule}
use system_n.Timer.{timer_handle}
use system_n.PageTable.{PageAllocator, minus_one}
use system_n.Machine.{Machine, returns, stuck, out_of_fuel, M, pure, ◌>>=◌, ◌>>◌, put, on_kernel}
use system_n.Syscall.{uint, sys_write, sys_read, sys_sleep_ms, sys_sbrk, sys_munmap}

-- kernel/user_syscall.h
abbrev pub sys_write_num : ℕ
sys_write_num = 1

abbrev pub sys_exit_num : ℕ
sys_exit_num = 2

abbrev pub sys_getpid_num : ℕ
sys_getpid_num = 3

abbrev pub sys_yield_num : ℕ
sys_yield_num = 4

abbrev pub sys_read_num : ℕ
sys_read_num = 5

abbrev pub sys_sleep_ms_num : ℕ
sys_sleep_ms_num = 6

abbrev pub sys_sbrk_num : ℕ
sys_sbrk_num = 7

abbrev pub sys_munmap_num : ℕ
sys_munmap_num = 8

-- What a trap finds around it: the two readings of the clock, the register `sepc`, and the rounds
-- for the loops.
pub record Env : Type 0 where
  pub image : Image
  pub time : ℕ
  pub now : ℕ
  pub sepc : ℕ
  pub fuel : ℕ

-- `p->tf->regs[r]`
abbrev pub reg : {S : Type 0} → ℕ → ℕ → Machine S → ℕ
reg p r m = (m.frames (m.kernel.proc p).tf).regs r

abbrev pub set_reg_of : ℕ → ℕ → TrapFrame → TrapFrame
set_reg_of r v f = record f { regs = λ i. if i == r then v else f.regs i }

abbrev pub set_frame : (ℕ → TrapFrame) → ℕ → TrapFrame → ℕ → TrapFrame
set_frame frames tf f i = if i == tf then f else frames i

-- `p->tf->regs[10] = v`
unfoldable pub set_result : {S : Type 0} → ℕ → ℕ → M S (Unit {0})
set_result p v m =
    let tf = (m.kernel.proc p).tf in
    returns (tt, record m { frames = set_frame m.frames tf (set_reg_of 10 v (m.frames tf)) })

-- `curr_cpu()->needs_sched = v`
unfoldable pub set_needs_sched : ℕ → Kernel → Kernel
set_needs_sched v k = record k { cpu = record (k.cpu) { needs_sched = v } }

-- `SCAUSE_CODE(cause)`, and the test of `SCAUSE_IRQ_BIT`
abbrev pub scause_code : ℕ → ℕ
scause_code cause = cause % 2 ^ 63

abbrev pub is_irq : ℕ → Bool
is_irq cause = not (cause / 2 ^ 63 == 0)

module _ {S : Type 0} (allocator : PageAllocator S) (env : Env) where
  unfoldable pub sleep_call : ℕ → M S (Unit {0})
  sleep_call p m =
      let (r, k) = sys_sleep_ms env.time p (reg p 10 m) m.kernel in
      (put (record m { kernel = k }) >> set_result p r >> on_kernel (set_needs_sched 1)) m

  unfoldable pub syscall_handler : ℕ → M S (Unit {0})
  unfolding sleep_call
  syscall_handler p m =
      let num = uint (reg p 17 m) in
      let a0 = reg p 10 m in
      let a1 = reg p 11 m in
      let a2 = reg p 12 m in
      if num == sys_write_num
      then (sys_write (uint a0) a1 (uint a2) >>= set_result p) m
      else if num == sys_read_num
      then (sys_read (uint a0) a1 (uint a2) >>= set_result p) m
      else if num == sys_exit_num
      then (on_kernel (set_state p zombie) >> on_kernel (set_needs_sched 1)) m
      else if num == sys_getpid_num
      then set_result p (m.kernel.proc p).pid m
      else if num == sys_yield_num
      then on_kernel (set_needs_sched 1) m
      else if num == sys_sleep_ms_num
      then sleep_call p m
      else if num == sys_sbrk_num
      then (sys_sbrk allocator env.fuel p a0 >>= set_result p) m
      else if num == sys_munmap_num
      then (sys_munmap allocator env.fuel p a0 a1 >>= set_result p) m
      else set_result p minus_one m

  unfoldable pub on_timer : M S (Unit {0})
  on_timer m = elim (timer_handle env.fuel env.time env.now m.kernel) [
    | none ↦ out_of_fuel
    | some k ↦ returns (tt, record m { kernel = k })
  ]

  -- `tf->sepc += 4`
  unfoldable pub skip_ecall : ℕ → M S (Unit {0})
  skip_ecall tf m =
      let f = m.frames tf in
      returns (
        tt,
        record m { frames = set_frame m.frames tf (record f { sepc = (f.sepc + 4) % ulong_mod }) },
      )

  -- The label `end`: the context switch, if there is one.
  unfoldable pub trap_end : M S (Option Switch)
  trap_end m =
      let k = set_needs_sched 0 m.kernel in
      let (k', switch) = schedule env.image k in
      if m.kernel.cpu.needs_sched == 0
      then returns (none, m)
      else returns (switch, record m { kernel = k' })

  -- The `switch` over the code, for a process that is not idle.
  unfoldable pub trap_switch : ℕ → ℕ → ℕ → M S (Unit {0})
  unfolding skip_ecall on_timer syscall_handler
  trap_switch cause tf p m =
      let code = scause_code cause in
      if (code == 8)
      then (skip_ecall tf >> syscall_handler p) m
      else if (code == 9)
      then (skip_ecall tf >> syscall_handler p) m
      else if (code == 5)
      then if is_irq cause then on_timer m else returns (tt, m)
      else stuck

  unfoldable pub trap_handler : ℕ → ℕ → M S (Option Switch)
  unfolding on_timer trap_end trap_switch
  trap_handler cause tf m =
      let p = m.kernel.cpu.proc in
      let timer = is_irq cause && (scause_code cause == 5) in
      let scause = (m.frames tf).scause in
      if not (p == 0) && not ((m.kernel.proc p).is_idle == 0)
      then if timer then (on_timer >> trap_end) m else stuck
      else if (scause_code scause == 5) && not (is_irq scause)
      then stuck
      else if p == 0
      then if timer then (on_timer >> pure none) m else stuck
      else (trap_switch cause tf p >> trap_end) m
