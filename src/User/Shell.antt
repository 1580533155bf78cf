-- ===== src/User/Shell.antt =====
-- kernel/shell.c: a round of the shell on the kernel, from the prompt to the echo.
use system_n.Base.{
  ℕ, ◌+◌, ◌^◌, ◌≤◌, ◌<◌, ◌≡◌, ◌⊎◌, refl, true, false, List, [], ◌∷◌, ◌++◌, length, arith, ◌∙◌, inl,
}
use system_n.Uart.Lines.{text, line, Completes}
use system_n.PageTable.{PageAllocator}
use system_n.Machine.{Machine, returns}
use system_n.Syscall.{
  user_read, user_write, reachable, uint, is_user_addr, user_end_va, load, store, clip,
}
use system_n.Syscall.Console.{store-outside}
use system_n.Str.{Memory}
use system_n.Trap.{Env}
use system_n.User.{
  Program, then_do, waiting, run, write, read, Arrays, dollar, streq, after_sleep, shell_answer,
  shell_round, not_positive,
}
use system_n.User.Calls.{IsUser, Ends, shows, refuses, faults, write-Written, read-Ends}
use system_n.User.Bytes.{
  Mapped, Mapped-reachable, Holds, store-Holds, text-load, line-length, fits-is_user_addr,
}
use system_n.User.Wait.{Waits, sleep_for, sleep-Waits, run-then_do}

-- The shell's arrays lie in user memory and apart from each other, mapped for the process, and
-- `buf` begins with the prompt.
pub record IsShell {S : Type 0} (s : Arrays) (memory : Memory) (m : Machine S) : Type 0 where
  pub fits_buf : s.buf + 128 < user_end_va
  pub fits_prompt : s.prompt + 3 < user_end_va
  pub apart : (s.prompt + 3 ≤ s.buf) ⊎ (s.buf + 2 ≤ s.prompt)
  pub begins : Holds s.buf dollar memory
  pub writable : Mapped user_write m.vm m.kernel.satp s.buf 128
  pub prompt_readable : Mapped user_read m.vm m.kernel.satp s.prompt 3

-- A round up to the sleep: the shell has shown its prompt and read a line, which the console echoed
-- and which stands behind the prompt in `buf`; the process waits.
pub record Prompted {S : Type 0} (allocator : PageAllocator S) (env : Env) (s : Arrays)
    (memory : Memory) (m : Machine S) (got : List ℕ) : Type 0 where
  pub machine : Machine S
  pub waits :
      run allocator env (shell_round s memory) m
      ≡ returns (waiting (after_sleep s (length got)), machine)
  pub shown : machine.uart.sent ≡ m.uart.sent ++ dollar ++ got
  pub buffer : Holds s.buf (dollar ++ got) machine.user

module _ {S : Type 0} {allocator : PageAllocator S} {env : Env} {m : Machine S} where
  goes_on :
      {program : Program ℕ} {v : ℕ} {shown : List ℕ} {memory : Memory} {left : List ℕ} {B : Type 0}
      (e : Ends allocator env m program v shown memory left) (k : ℕ → Memory → Program B)
      → run allocator env (then_do program k) m ≡ run allocator env (k v memory) e.machine
  goes_on {program} e k = run-then_do allocator env program k m ∙ rw (e.runs, e.user) refl

  Ends-IsUser :
      {program : Program ℕ} {v : ℕ} {shown : List ℕ} {memory : Memory} {left : List ℕ}
      (e : Ends allocator env m program v shown memory left)
      → IsUser m
      → IsUser e.machine
  Ends-IsUser e u =
      rw e.kernel (record { current = u.current; not_idle = u.not_idle; quiet = u.quiet })

  -- A write of bytes that are there, to the console.
  write-shows :
      (buf cnt : ℕ) (bs : List ℕ) (memory : Memory)
      → IsUser m
      → Holds buf bs memory
      → cnt ≡ length bs
      → 0 < cnt
      → cnt < 2 ^ 32
      → buf + cnt < user_end_va
      → Mapped user_read m.vm m.kernel.satp buf cnt
      → Ends allocator env m
          (write buf cnt memory)
          (length (text 64 bs))
          (text 64 bs)
          memory
          m.uart.arriving
  unfolding is_user_addr
  write-shows buf cnt bs memory u h l p b f allowed =
      let small : uint cnt ≡ cnt = omega (arith, b) in
      let good : is_user_addr buf (clip cnt) ≡ true = ground (arith, p, f) in
      let same : text (clip cnt) (load buf (clip cnt) memory) ≡ text 64 bs =
        text-load (clip cnt) 64 buf bs memory h (ground arith) (ground (arith, l))
          (ground (arith, l)) in
      let mapped : reachable user_read m.vm m.kernel.satp buf (clip cnt) ≡ true =
        Mapped-reachable user_read m.vm m.kernel.satp buf cnt buf (clip cnt) allowed (omega arith)
          (ground arith) in
      elim (rw (small, same) at (write-Written allocator env m u buf cnt memory)) [
        | shows y r e ↦ e
        | refuses n e ↦ absurd (ground (arith, n, good))
        | faults y d e ↦ absurd (ground (arith, d, mapped))
      ]

  -- The read of a line.
  read-shows :
      (buf : ℕ) (memory : Memory)
      → IsUser m
      → Completes 63 m.uart.arriving
      → buf + 64 < user_end_va
      → Mapped user_write m.vm m.kernel.satp buf 64
      → let got = line 63 m.uart.arriving in
        (left : List ℕ) × Ends allocator env m
          (read buf 127 memory)
          (length got)
          got
          (store buf got memory)
          left
  read-shows buf memory u c f allowed =
      let got = line 63 m.uart.arriving in
      let (some_length, short) = line-length 63 m.uart.arriving c in
      let p : 0 < length got = some_length (omega arith) in
      let good : is_user_addr buf (length got) ≡ true =
        fits-is_user_addr buf (length got) p short f in
      let mapped : reachable user_write m.vm m.kernel.satp buf (length got) ≡ true =
        Mapped-reachable user_write m.vm m.kernel.satp buf 64 buf (length got) allowed (omega arith)
          (omega (arith, short)) in
      let (left, l, e) = read-Ends allocator env m u buf 127 memory (omega arith) c good mapped in
      (left, e)

module _ {T : Type 0} (s : Arrays) (memory : Memory) (got : List ℕ) {m0 : Machine T}
    (i : IsShell s memory m0) where
  -- Memory with the prompt's array, and then with the line as well.
  abbrev prompted : Memory
  prompted = store s.prompt (b'$' ∷ b' ' ∷ 0 ∷ []) memory

  abbrev line_read : Memory
  line_read = store (s.buf + 2) got prompted

  prompt-Holds : Holds s.prompt dollar prompted
  prompt-Holds =
      let (a, (b, c)) = store-Holds s.prompt (b'$' ∷ b' ' ∷ 0 ∷ []) memory in (a, (b, tt))

  outside : (x : ℕ) → x < s.buf + 2 → s.buf ≤ x → line_read x ≡ memory x
  outside x l h =
      store-outside (s.buf + 2) got prompted x (inl l)
      ∙ store-outside s.prompt (b'$' ∷ b' ' ∷ 0 ∷ []) memory x (ground (arith, i.apart, l, h))

  buf-Holds : Holds s.buf (dollar ++ got) line_read
  buf-Holds =
      let e : s.buf + 1 + 1 ≡ s.buf + 2 = omega arith in
      (
        outside s.buf (omega arith) (omega arith) ∙ i.begins.0,
        (
          outside (s.buf + 1) (omega arith) (omega arith) ∙ i.begins.1.0,
          rw e (store-Holds (s.buf + 2) got prompted),
        ),
      )

  answer-sleeps :
      {S : Type 0} (allocator : PageAllocator S) (env : Env) (m : Machine S)
      (w : Waits allocator env m (sleep_for 1000) line_read)
      → 0 < length got
      → length got < 64
      → run allocator env (shell_answer s (uint (length got)) line_read) m
        ≡ returns (waiting (after_sleep s (length got)), w.machine)
  unfolding shell_answer
  answer-sleeps allocator env m w p l =
      let small : uint (length got) ≡ length got = omega (arith, l) in
      let positive : not_positive (length got) ≡ false = ground (arith, p, l) in
      rw (small, positive) (w.waits (after_sleep s (length got)))

-- For the shell as a process that is not idle, on a hart with no switch asked for, with its arrays
-- in user memory, mapped for it and apart, the prompt in buf, and a line arriving: a round of the
-- shell, through the trap handler and the system calls, shows the prompt and then the line as the
-- console echoes it, 63 bytes at most, leaves the line behind the prompt in buf, and then waits in
-- its sleep call, with only the end of the round to do.
pub shell_round-Prompted :
    {S : Type 0} (allocator : PageAllocator S) (env : Env) (s : Arrays) (memory : Memory)
    (m : Machine S)
    → IsUser m
    → IsShell s memory m
    → Completes 63 m.uart.arriving
    → Prompted allocator env s memory m (line 63 m.uart.arriving)
unfolding shell_round
shell_round-Prompted allocator env s memory m u i c =
    let got = line 63 m.uart.arriving in
    let (some_length, short) = line-length 63 m.uart.arriving c in
    let p : 0 < length got = some_length (omega arith) in
    let memory1 = prompted s memory got i in
    let memory2 = line_read s memory got i in
    let e1 : Ends allocator env m (write s.prompt 2 memory1) 2 dollar memory1 m.uart.arriving =
      write-shows s.prompt 2 dollar memory1 u (prompt-Holds s memory got i) refl (omega arith)
        (omega arith) (omega (arith, i.fits_prompt))
        (λ x l h. i.prompt_readable x l (omega (arith, h))) in
    let u1 = Ends-IsUser e1 u in
    let (left, e2) =
      read-shows {allocator = allocator} {env = env} {m = e1.machine} (s.buf + 2) memory1 u1
        (rw e1.arriving c) (omega (arith, i.fits_buf))
        (rw (e1.vm, e1.kernel) (λ x l h. i.writable x (omega (arith, l)) (omega (arith, h)))) in
    let e2' : Ends allocator env e1.machine (read (s.buf + 2) 127 memory1) (length got) got memory2
        left =
      rw e1.arriving at e2 in
    let w = sleep-Waits allocator env 1000 memory2 e2'.machine (Ends-IsUser e2' u1) in
    let sleeps =
      answer-sleeps s memory got i allocator env e2'.machine w p (omega (arith, short)) in
    record {
      machine = w.machine;
      waits = goes_on e1 _ ∙ goes_on e2' _ ∙ sleeps;
      shown = rw (w.uart, e2'.sent, e1.sent) refl;
      buffer = rw w.user (buf-Holds s memory got i);
    }

-- The end of a round of the shell, where buf in user memory is mapped for the process to read and
-- holds the prompt and a line of less than 64 bytes that does not begin with the word yield, by a
-- process that is not idle on a hart with no switch asked for: it shows the first 64 bytes of the
-- prompt and the line, up to a zero.
pub after_sleep-Ends :
    {S : Type 0} (allocator : PageAllocator S) (env : Env) (s : Arrays) (memory : Memory)
    (got : List ℕ) (slept : ℕ) (m : Machine S)
    → IsUser m
    → Holds s.buf (dollar ++ got) memory
    → length got < 64
    → s.buf + 128 < user_end_va
    → Mapped user_read m.vm m.kernel.satp s.buf 128
    → streq (s.buf + 2) s.cmd_yield 5 memory ≡ 0
    → let out = text 64 (dollar ++ got) in
      Ends allocator env m
        (after_sleep s (length got) slept memory)
        (length out)
        out
        memory
        m.uart.arriving
unfolding after_sleep
after_sleep-Ends allocator env s memory got slept m u h l f allowed differ = rw differ (
    write-shows s.buf (length got + 2) (dollar ++ got) memory u h (omega arith) (omega arith)
      (omega (arith, l)) (omega (arith, l, f)) (λ x a b. allowed x a (omega (arith, b, l))))
