-- ===== src/User.antt =====
-- kernel/user_syscall.h, kernel/user.h and kernel/shell.c: programs in user mode. A program computes
-- on its memory, and stops at each `ecall`, where the kernel answers and may change that memory.
pub mod Calls
pub mod Compare
pub mod Bytes
pub mod Wait
pub mod Shell
use system_n.Base.{
  ℕ, zero, suc, ◌+◌, ◌-◌, ◌*◌, ◌%◌, ◌^◌, ◌≡◌, Bool, true, false, not, ◌&&◌, ◌||◌, Option, none,
  some, List, [], ◌∷◌, ltb, leb, ◌==◌, if◌then◌else◌,
}
use system_n.Proc.{TrapFrame}
use system_n.PageTable.{PageAllocator, minus_one}
use system_n.Machine.{Machine, Outcome, returns, and_then, M}
use system_n.Syscall.{uint, store}
use system_n.Str.{Memory}
use system_n.Trap.{
  sys_write_num, sys_exit_num, sys_getpid_num, sys_yield_num, sys_read_num, sys_sleep_ms_num,
  sys_sbrk_num, sys_munmap_num, Env, set_frame, set_reg_of, trap_handler,
}

-- The registers of a call: a7, and a0 to a5.
pub record Call : Type 0 where
  pub num : ℕ
  pub arg0 : ℕ
  pub arg1 : ℕ
  pub arg2 : ℕ
  pub arg3 : ℕ
  pub arg4 : ℕ
  pub arg5 : ℕ

pub data Program (A : Type 0) : Type 0 where
  ends : A → Memory → Program A
  calls : Call → Memory → (ℕ → Memory → Program A) → Program A

-- A program, on the memory it finds.
abbrev pub User : Type 0 → Type 0
User A = Memory → Program A

abbrev pub then_do : {A B : Type 0} → Program A → (A → User B) → Program B
then_do (ends a m) k = k a m
then_do (calls c m rest) k = calls c m λ v m'. then_do (rest v m') k

infixl 5 ◌>>=◌
abbrev pub ◌>>=◌ : {A B : Type 0} → User A → (A → User B) → User B
◌>>=◌ u k m = then_do (u m) k

abbrev pub value : {A : Type 0} → A → User A
value a m = ends a m

abbrev pub syscall : (num arg0 arg1 arg2 arg3 arg4 arg5 : ℕ) → User ℕ
syscall num arg0 arg1 arg2 arg3 arg4 arg5 m =
    calls
      (record {
        num = num;
        arg0 = arg0;
        arg1 = arg1;
        arg2 = arg2;
        arg3 = arg3;
        arg4 = arg4;
        arg5 = arg5;
      })
      m (λ v m'. ends v m')

abbrev pub syscall0 : ℕ → User ℕ
syscall0 num = syscall num 0 0 0 0 0 0

abbrev pub syscall1 : ℕ → ℕ → User ℕ
syscall1 num arg0 = syscall num arg0 0 0 0 0 0

abbrev pub syscall2 : ℕ → ℕ → ℕ → User ℕ
syscall2 num arg0 arg1 = syscall num arg0 arg1 0 0 0 0

abbrev pub syscall3 : ℕ → ℕ → ℕ → ℕ → User ℕ
syscall3 num arg0 arg1 arg2 = syscall num arg0 arg1 arg2 0 0 0

abbrev pub write : ℕ → ℕ → User ℕ
write buf cnt = syscall3 sys_write_num 1 buf cnt

abbrev pub exit : ℕ → User ℕ
exit status = syscall1 sys_exit_num status

abbrev pub getpid : User ℕ
getpid = syscall0 sys_getpid_num

abbrev pub yield : User ℕ
yield = syscall0 sys_yield_num

abbrev pub read : ℕ → ℕ → User ℕ
read buf cnt = syscall3 sys_read_num 0 buf cnt

abbrev pub sleep : ℕ → User ℕ
sleep ms = if ms == 0 || ltb 60000 ms then value 0 else syscall1 sys_sleep_ms_num ms

abbrev pub sbrk : ℕ → User ℕ
sbrk size = syscall1 sys_sbrk_num size

abbrev pub munmap : ℕ → ℕ → User ℕ
munmap addr size = syscall2 sys_munmap_num addr size

-- A pointer, 0 for `NULL`.
abbrev pub malloc : ℕ → User ℕ
malloc size = sbrk size >>= λ mem. value (if mem == minus_one then 0 else mem)

-- The loop of `streq` from `i` on, with `left` rounds to go.
unfoldable pub streq_loop : ℕ → ℕ → ℕ → ℕ → Memory → ℕ
streq_loop zero i s1 s2 m = 1
streq_loop (suc left) i s1 s2 m =
    let rest = streq_loop left (i + 1) s1 s2 m in
    if (m (s1 + i) == 0) || (m (s2 + i) == 0) || not (m (s1 + i) == m (s2 + i)) then 0 else rest

unfoldable pub streq : ℕ → ℕ → ℕ → Memory → ℕ
streq s1 s2 n m = streq_loop n 0 s1 s2 m

-- The arrays of `user_shell_main` on its stack.
pub record Arrays : Type 0 where
  pub buf : ℕ
  pub cmd_yield : ℕ
  pub prompt : ℕ

abbrev pub input_buf_size : ℕ
input_buf_size = 128

abbrev pub zeros : ℕ → List ℕ
zeros zero = []
zeros (suc n) = 0 ∷ zeros n

abbrev pub dollar : List ℕ
dollar = b'$' ∷ b' ' ∷ []

abbrev pub yield_word : List ℕ
yield_word = b'y' ∷ b'i' ∷ b'e' ∷ b'l' ∷ b'd' ∷ []

-- Before the loop: `buf` is the prompt and zeros, `cmd_yield` the command with its terminator.
unfoldable pub shell_arrays : Arrays → Memory → Memory
shell_arrays s m =
    store s.cmd_yield (b'y' ∷ b'i' ∷ b'e' ∷ b'l' ∷ b'd' ∷ 0 ∷ [])
      (store s.buf (b'$' ∷ b' ' ∷ zeros 126) m)

-- `n <= 0`, of an `int`
abbrev pub not_positive : ℕ → Bool
not_positive n = (n == 0) || leb (2 ^ 31) n

-- The end of the round, after `sleep`.
unfoldable pub after_sleep : Arrays → ℕ → ℕ → User ℕ
after_sleep s n slept m =
    ((if streq (s.buf + 2) s.cmd_yield 5 m == 0 then value 0 else yield) >>= λ yielded.
    write s.buf (n + 2))
      m

-- The round, from the answer of `read` on.
unfoldable pub shell_answer : Arrays → ℕ → User ℕ
shell_answer s n = if not_positive n then value n else (sleep 1000 >>= after_sleep s n)

-- One round of the loop.
unfoldable pub shell_round : Arrays → User ℕ
shell_round s m =
    (write s.prompt 2 >>= λ sent.
    (read (s.buf + 2) (input_buf_size - 1) >>= λ n. shell_answer s (uint n)))
      (store s.prompt (b'$' ∷ b' ' ∷ 0 ∷ []) m)

-- So many rounds; the loop itself does not end.
unfoldable pub shell_rounds : ℕ → Arrays → User ℕ
shell_rounds zero s = value 0
shell_rounds (suc n) s = shell_round s >>= λ last. shell_rounds n s

unfoldable pub user_shell_main : ℕ → Arrays → User ℕ
user_shell_main n s m = shell_rounds n s (shell_arrays s m)

-- What the trap entry stores of a call: its registers, its address and the cause 8.
abbrev pub call_frame : ℕ → Call → TrapFrame → TrapFrame
call_frame pc c f =
    record (set_reg_of 17 c.num (
      set_reg_of 15 c.arg5 (
        set_reg_of 14 c.arg4 (
          set_reg_of 13 c.arg3
            (set_reg_of 12 c.arg2 (set_reg_of 11 c.arg1 (set_reg_of 10 c.arg0 f))))))) {
              sepc = pc;
              scause = 8;
            }

-- A process as it runs on: with the value of its program, or from its last call on once it runs again.
pub data Progress (A : Type 0) : Type 0 where
  finished : A → Progress A
  waiting : (ℕ → Memory → Program A) → Progress A

module _ {S : Type 0} (allocator : PageAllocator S) (env : Env) where
  -- An `ecall` of the current process: the answer in a0, or `none` if another process runs then.
  unfoldable pub ecall : Call → Memory → M S (Option ℕ)
  ecall c memory m =
      let tf = (m.kernel.proc m.kernel.cpu.proc).tf in
      let entered = record m {
        frames = set_frame m.frames tf (call_frame env.sepc c (m.frames tf));
        user = memory;
      } in
      and_then (trap_handler allocator env 8 tf entered) λ (switch, m1). elim switch [
        | none ↦ returns (some ((m1.frames tf).regs 10), m1)
        | some s ↦ returns (none, m1)
      ]

  -- A program on the kernel, to its end or until it has to wait.
  unfoldable pub run : {A : Type 0} → Program A → M S (Progress A)
  run (ends a memory) m = returns (finished a, record m { user = memory })
  run (calls c memory k) m =
      and_then (ecall c memory m)
        λ (back, m1). elim back [ none ↦ returns (waiting k, m1) | some v ↦ run (k v m1.user) m1 ]
