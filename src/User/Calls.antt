-- ===== src/User/Calls.antt =====
-- `write` and `read` of kernel/user.h, through the trap handler to the console and back.
use system_n.Base.{
  ℕ, ◌+◌, ◌-◌, ◌%◌, ◌<◌, ◌≡◌, ◌≢◌, refl, true, false, not, ◌&&◌, none, some, List, [], ◌++◌, length,
  arith, ◌==◌, ap, sym, ◌∙◌, Bool-cases, inl, inr, ==_refl, ==-false,
}
use mathlib.Core.List.{append-nil}
use system_n.Proc.{ulong_mod, TrapFrame}
use system_n.Uart.Lines.{text, line, Completes}
use system_n.PageTable.{PageAllocator, minus_one}
use system_n.Machine.{Machine, returns, stuck, and_then, M, ◌>>=◌, ◌>>◌}
use system_n.Syscall.{
  user_read, user_write, reachable, uint, is_user_addr, load, store, after_access, clip, sys_write,
  sys_read,
}
use system_n.Syscall.Console.{sys_write_lem, sys_read_lem}
use system_n.Str.{Memory}
use system_n.Trap.{
  Env, reg, set_frame, set_reg_of, set_result, skip_ecall, syscall_handler, trap_switch, trap_end,
  trap_handler,
}
use system_n.User.{Call, Program, ends, calls, call_frame, finished, ecall, run, write, read}

-- A process in user mode, with no switch asked for.
pub record IsUser {S : Type 0} (m : Machine S) : Type 0 where
  pub current : m.kernel.cpu.proc ≢ 0
  pub not_idle : (m.kernel.proc m.kernel.cpu.proc).is_idle ≡ 0
  pub quiet : m.kernel.cpu.needs_sched ≡ 0

abbrev pub frame_of : {S : Type 0} → Machine S → ℕ
frame_of m = (m.kernel.proc m.kernel.cpu.proc).tf

-- What the trap handler finds, and `syscall_handler`.
abbrev entered : {S : Type 0} → ℕ → Call → Memory → Machine S → Machine S
entered pc c memory m = record m {
  frames = set_frame m.frames (frame_of m) (call_frame pc c (m.frames (frame_of m)));
  user = memory;
}

abbrev pub at_call : {S : Type 0} → ℕ → Call → Memory → Machine S → Machine S
at_call pc c memory m =
    let m0 = entered pc c memory m in
    let f = m0.frames (frame_of m) in
    record m0 {
      frames = set_frame m0.frames (frame_of m) (record f { sepc = (f.sepc + 4) % ulong_mod });
    }

abbrev answered : {S : Type 0} → ℕ → ℕ → Machine S → Machine S
answered tf v m = record m { frames = set_frame m.frames tf (set_reg_of 10 v (m.frames tf)) }

set_frame-here : (frames : ℕ → TrapFrame) (tf : ℕ) (f : TrapFrame) → set_frame frames tf f tf ≡ f
set_frame-here frames tf f = rw (==_refl tf) refl

module _ {S : Type 0} (allocator : PageAllocator S) (env : Env) (c : Call) (memory : Memory)
    (m : Machine S) (u : IsUser m) where
  pub ecall-handler :
      ecall allocator env c memory m
      ≡ and_then
          ((syscall_handler allocator env m.kernel.cpu.proc >> trap_end allocator env)
            (at_call env.sepc c memory m))
          λ (switch, m2). elim switch [
            | none ↦ returns (some ((m2.frames (frame_of m)).regs 10), m2)
            | some s ↦ returns (none, m2)
          ]
  unfolding ecall trap_handler trap_switch skip_ecall
  ecall-handler =
      let tf = frame_of m in
      let p = m.kernel.cpu.proc in
      let user : (not (p == 0) && not ((m.kernel.proc p).is_idle == 0)) ≡ false =
        ground (arith, u.not_idle) in
      let here : (p == 0) ≡ false = ==-false _ _ u.current in rw (user, ==_refl tf, here) refl

  -- A call whose handler answers, and asks for no switch.
  ecall-answers :
      (f : M S ℕ) (v : ℕ) (m1 : Machine S)
      → syscall_handler allocator env m.kernel.cpu.proc (at_call env.sepc c memory m)
        ≡ (f >>= set_result m.kernel.cpu.proc) (at_call env.sepc c memory m)
      → f (at_call env.sepc c memory m) ≡ returns (v, m1)
      → m1.kernel ≡ m.kernel
      → ecall allocator env c memory m ≡ returns (some v, answered (frame_of m) v m1)
  unfolding set_result trap_end
  ecall-answers f v m1 h e k =
      rw (ecall-handler, h, e, k, u.quiet, ==_refl (m.kernel.proc m.kernel.cpu.proc).tf) refl

-- How the program of a process ends: with its value, what the console has shown meanwhile, and the
-- process's memory; its saved program counter is behind the call, and the kernel's state, the page
-- tables and the other frames are as before.
pub record Ends {S : Type 0} (allocator : PageAllocator S) (env : Env) (m : Machine S)
    (program : Program ℕ) (v : ℕ) (shown : List ℕ) (memory : Memory) (left : List ℕ) : Type 0 where
  pub machine : Machine S
  pub runs : run allocator env program m ≡ returns (finished v, machine)
  pub sent : machine.uart.sent ≡ m.uart.sent ++ shown
  pub arriving : machine.uart.arriving ≡ left
  pub user : machine.user ≡ memory
  pub kernel : machine.kernel ≡ m.kernel
  pub vm : machine.vm ≡ m.vm
  pub others : (t : ℕ) → t ≢ frame_of m → machine.frames t ≡ m.frames t
  pub after_ecall : (machine.frames (frame_of m)).sepc ≡ (env.sepc + 4) % ulong_mod

module _ {S : Type 0} (allocator : PageAllocator S) (env : Env) (p buf cnt : ℕ)
    (m : Machine S) where
  handler-write :
      reg p 17 m ≡ 1
      → reg p 10 m ≡ 1
      → reg p 11 m ≡ buf
      → reg p 12 m ≡ cnt
      → syscall_handler allocator env p m ≡ (sys_write 1 buf (uint cnt) >>= set_result p) m
  unfolding syscall_handler
  handler-write a b c d = rw (a, b, c, d) refl

  handler-read :
      reg p 17 m ≡ 5
      → reg p 10 m ≡ 0
      → reg p 11 m ≡ buf
      → reg p 12 m ≡ cnt
      → syscall_handler allocator env p m ≡ (sys_read 0 buf (uint cnt) >>= set_result p) m
  unfolding syscall_handler
  handler-read a b c d = rw (a, b, c, d) refl

module _ {S : Type 0} (allocator : PageAllocator S) (env : Env) (m : Machine S) (u : IsUser m) where
  call-Ends :
      (c : Call) (memory : Memory) (f : M S ℕ) (v : ℕ) (m1 : Machine S) (shown : List ℕ)
      (memory' : Memory) (left : List ℕ)
      → syscall_handler allocator env m.kernel.cpu.proc (at_call env.sepc c memory m)
        ≡ (f >>= set_result m.kernel.cpu.proc) (at_call env.sepc c memory m)
      → f (at_call env.sepc c memory m) ≡ returns (v, m1)
      → m1.kernel ≡ m.kernel
      → m1.vm ≡ m.vm
      → m1.frames ≡ (at_call env.sepc c memory m).frames
      → m1.uart.sent ≡ m.uart.sent ++ shown
      → m1.uart.arriving ≡ left
      → m1.user ≡ memory'
      → Ends allocator env m (calls c memory (λ w m'. ends w m')) v shown memory' left
  unfolding run
  call-Ends c memory f v m1 shown memory' left h e k vm fs sent arriving user =
      let tf = frame_of m in
      record {
        machine = answered tf v m1;
        runs = rw (ecall-answers allocator env c memory m u f v m1 h e k) refl;
        sent = sent;
        arriving = arriving;
        user = user;
        kernel = k;
        vm = vm;
        others = λ t n. let d : (t == tf) ≡ false = ==-false _ _ n in rw (d, fs, d) refl;
        after_ecall = rw (==_refl tf, fs, ==_refl tf) refl;
      }

  pub reg-at_call :
      (c : Call) (memory : Memory) (i : ℕ)
      → reg m.kernel.cpu.proc i (at_call env.sepc c memory m)
        ≡ (call_frame env.sepc c (m.frames (frame_of m))).regs i
  reg-at_call c memory i =
      let tf = frame_of m in
      ap (λ f. f.regs i) (set_frame-here (entered env.sepc c memory m).frames tf _)
      ∙ ap (λ f. f.regs i) (set_frame-here m.frames tf (call_frame env.sepc c (m.frames tf)))

  -- A call whose handler halts.
  call-halts :
      (c : Call) (memory : Memory) (f : M S ℕ)
      → syscall_handler allocator env m.kernel.cpu.proc (at_call env.sepc c memory m)
        ≡ (f >>= set_result m.kernel.cpu.proc) (at_call env.sepc c memory m)
      → f (at_call env.sepc c memory m) ≡ stuck
      → run allocator env (calls c memory (λ w m'. ends w m')) m ≡ stuck
  unfolding run
  call-halts c memory f h e = rw (ecall-handler allocator env c memory m u, h, e) refl

  -- How `write` ends, with `out` for the bytes at `buf`: it shows them; the range is refused; or it
  -- is not mapped for the process to read, and the hart halts on the page fault.
  pub data Written (buf len : ℕ) (out : List ℕ) (program : Program ℕ) (memory : Memory)
      : Type 0 where
    shows :
        is_user_addr buf len ≡ true
        → reachable user_read m.vm m.kernel.satp buf len ≡ true
        → Ends allocator env m program (length out) out memory m.uart.arriving
        → Written buf len out program memory
    refuses :
        is_user_addr buf len ≡ false
        → Ends allocator env m program minus_one [] memory m.uart.arriving
        → Written buf len out program memory
    faults :
        is_user_addr buf len ≡ true
        → reachable user_read m.vm m.kernel.satp buf len ≡ false
        → run allocator env program m ≡ stuck
        → Written buf len out program memory

  -- write in a process that is not idle, on a hart with no switch asked for: if is_user_addr
  -- accepts the range and the tables in satp map it for a user to read, the call is one step that
  -- ends, and through the trap handler shows the bytes at buf up to a zero, 64 at most, and gives
  -- their number; if is_user_addr refuses the range, it ends, shows nothing and gives -1; and if
  -- the range is accepted but not so mapped, the hart halts on the page fault. Where it ends, the
  -- program's memory, the kernel's state, the page tables and the other processes' frames are as
  -- before, and the process goes on behind its ecall.
  pub write-Written :
      (buf cnt : ℕ) (memory : Memory)
      → let len = clip (uint cnt) in
        Written buf len (text len (load buf len memory)) (write buf cnt memory) memory
  write-Written buf cnt memory =
      let c : Call = record {
        num = 1;
        arg0 = 1;
        arg1 = buf;
        arg2 = cnt;
        arg3 = 0;
        arg4 = 0;
        arg5 = 0;
      } in
      let m0 = at_call env.sepc c memory m in
      let len = clip (uint cnt) in
      let out = text len (load buf len memory) in
      let done_write = sys_write_lem m0 1 buf (uint cnt) in
      let h : syscall_handler allocator env m.kernel.cpu.proc m0
          ≡ (sys_write 1 buf (uint cnt) >>= set_result m.kernel.cpu.proc) m0 =
        handler-write allocator env m.kernel.cpu.proc buf cnt m0 (reg-at_call c memory 17)
          (reg-at_call c memory 10) (reg-at_call c memory 11) (reg-at_call c memory 12) in
      elim (Bool-cases (is_user_addr buf len)) [
        | inl y ↦ elim (Bool-cases (reachable user_read m.vm m.kernel.satp buf len)) [
          | inl r ↦ shows y r (
              call-Ends c memory (sys_write 1 buf (uint cnt)) (length out)
                (record m0 {
                  uart = record (m0.uart) { sent = m.uart.sent ++ out };
                  sstatus = after_access m0.sstatus;
                })
                out memory m.uart.arriving h (done_write ∙ rw (y, r) refl) refl refl refl refl refl
                refl)
          | inr d ↦
              faults y d
                (call-halts c memory (sys_write 1 buf (uint cnt)) h (done_write ∙ rw (y, d) refl))
        ]
        | inr n ↦ refuses n (
            call-Ends c memory (sys_write 1 buf (uint cnt)) minus_one m0 [] memory m.uart.arriving h
              (done_write ∙ rw n refl) refl refl refl (sym (append-nil m.uart.sent)) refl refl)
      ]

  -- A read of a line that fits into memory that the process may write.
  pub read-Ends :
      (buf cnt : ℕ) (memory : Memory)
      → 0 < uint cnt
      → Completes (clip (uint cnt) - 1) m.uart.arriving
      → let got = line (clip (uint cnt) - 1) m.uart.arriving in
        is_user_addr buf (length got) ≡ true
        → reachable user_write m.vm m.kernel.satp buf (length got) ≡ true
        → (rest : List ℕ) × (length got + length rest ≡ length m.uart.arriving)
          × Ends allocator env m (read buf cnt memory) (length got) got (store buf got memory) rest
  read-Ends buf cnt memory pos all fits allowed =
      let c : Call = record {
        num = 5;
        arg0 = 0;
        arg1 = buf;
        arg2 = cnt;
        arg3 = 0;
        arg4 = 0;
        arg5 = 0;
      } in
      let m0 = at_call env.sepc c memory m in
      let got = line (clip (uint cnt) - 1) m.uart.arriving in
      let (rest, l, b, e) = sys_read_lem m0 buf (uint cnt) pos all in
      let echoed = record m0 { uart = record { sent = m.uart.sent ++ got; arriving = rest } } in
      let h : syscall_handler allocator env m.kernel.cpu.proc m0
          ≡ (sys_read 0 buf (uint cnt) >>= set_result m.kernel.cpu.proc) m0 =
        handler-read allocator env m.kernel.cpu.proc buf cnt m0 (reg-at_call c memory 17)
          (reg-at_call c memory 10) (reg-at_call c memory 11) (reg-at_call c memory 12) in
      (
        rest,
        l,
        call-Ends c memory (sys_read 0 buf (uint cnt)) (length got)
            (record echoed { user = store buf got memory; sstatus = after_access m0.sstatus }) got
            (store buf got memory) rest h (e ∙ rw (fits, allowed) refl) refl refl refl refl refl
            refl,
      )
