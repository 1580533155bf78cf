-- ===== src/User/Wait.antt =====
-- `sleep` of kernel/user.h: a call after which another process runs.
use system_n.Base.{
  ℕ, ◌≡◌, refl, not, ◌||◌, Option, none, some, ltb, ◌==◌, ◌∙◌, Bool-cases, inl, inr, ==_refl,
}
use system_n.Proc.{Image, Kernel, run_queue, container_of, idle_proc}
use system_n.Sched.{Switch, schedule}
use system_n.PageTable.{PageAllocator}
use system_n.Machine.{Machine, Outcome, returns, stuck, out_of_fuel, and_then}
use system_n.Syscall.{sys_sleep_ms, max_sleep_ms}
use system_n.Str.{Memory}
use system_n.Trap.{Env, reg, set_result, set_needs_sched, sleep_call, syscall_handler, trap_end}
use system_n.User.{Call, Program, ends, calls, then_do, Progress, finished, waiting, ecall, run}
use system_n.User.Calls.{IsUser, at_call, ecall-handler, reg-at_call}

-- From a process that is not idle, `schedule` always switches.
schedule-switches :
    (image : Image) (k : Kernel)
    → (k.proc k.cpu.proc).is_idle ≡ 0
    → (s : Switch) × ((schedule image k).1 ≡ some s)
unfolding schedule
schedule-switches image k i =
    let node = k.links.next (run_queue k.tp) in
    elim (Bool-cases (not (node == run_queue k.tp))) [
      | inl y ↦ (record { old = k.cpu.proc; new = container_of node }, rw y refl)
      | inr n ↦ (record { old = k.cpu.proc; new = idle_proc image k.cpu.id }, rw (n, i) refl)
    ]

-- A call that makes the process wait, with the console and its memory as they were.
pub record Waits {S : Type 0} (allocator : PageAllocator S) (env : Env) (m : Machine S) (c : Call)
    (memory : Memory) : Type 1 where
  pub machine : Machine S
  pub waits :
      {A : Type 0} (rest : ℕ → Memory → Program A)
      → run allocator env (calls c memory rest) m ≡ returns (waiting rest, machine)
  pub uart : machine.uart ≡ m.uart
  pub user : machine.user ≡ memory

abbrev pub sleep_for : ℕ → Call
sleep_for ms = record { num = 6; arg0 = ms; arg1 = 0; arg2 = 0; arg3 = 0; arg4 = 0; arg5 = 0 }

module _ {S : Type 0} (allocator : PageAllocator S) (env : Env) where
  trap_end-switches :
      (m : Machine S)
      → m.kernel.cpu.needs_sched ≡ 1
      → (m.kernel.proc m.kernel.cpu.proc).is_idle ≡ 0
      → (k : Kernel) × (s : Switch) × (trap_end allocator env m
          ≡ returns (some s, record m { kernel = k }))
  unfolding trap_end set_needs_sched
  trap_end-switches m n i =
      let k = set_needs_sched 0 m.kernel in
      let (s, e) = schedule-switches env.image k i in ((schedule env.image k).0, s, rw (n, e) refl)

  handler-sleep :
      (p : ℕ) (m : Machine S)
      → reg p 17 m ≡ 6
      → syscall_handler allocator env p m ≡ sleep_call allocator env p m
  unfolding syscall_handler
  handler-sleep p m h = rw h refl

  -- The machine after a sleep call.
  sleep_call-Asks :
      (p : ℕ) (m : Machine S)
      → (m.kernel.proc p).is_idle ≡ 0
      → m.kernel.cpu.proc ≡ p
      → (m1 : Machine S) × (sleep_call allocator env p m ≡ returns (tt, m1))
        × (m1.kernel.cpu.needs_sched ≡ 1)
        × ((m1.kernel.proc m1.kernel.cpu.proc).is_idle ≡ 0)
        × (m1.uart ≡ m.uart)
        × (m1.user ≡ m.user)
  unfolding sleep_call sys_sleep_ms set_result set_needs_sched
  sleep_call-Asks p m i c = elim (Bool-cases (reg p 10 m == 0 || ltb max_sleep_ms (reg p 10 m))) [
    | inl y ↦ rw y (_, refl, refl, rw c i, refl, refl)
    | inr n ↦ rw n (_, refl, refl, rw (c, ==_refl p) i, refl, refl)
  ]

  -- The rest of a program, after a first part.
  abbrev pub after :
      {A B : Type 0}
      → (A → Memory → Program B)
      → Progress A × Machine S
      → Outcome (Progress B × Machine S)
  after k (finished a, m1) = run allocator env (k a m1.user) m1
  after k (waiting rest, m1) = returns (waiting (λ v m'. then_do (rest v m') k), m1)

  -- What `run` does with the answer of a call.
  abbrev resume :
      {A : Type 0}
      → (ℕ → Memory → Program A)
      → Option ℕ × Machine S
      → Outcome (Progress A × Machine S)
  resume rest (back, m1) = elim back [
    | none ↦ returns (waiting rest, m1)
    | some v ↦ run allocator env (rest v m1.user) m1
  ]

  resume-after :
      {A B : Type 0} (rest : ℕ → Memory → Program A) (k : A → Memory → Program B)
      (o : Outcome (Option ℕ × Machine S))
      → ((v : ℕ) (m1 : Machine S)
          → run allocator env (then_do (rest v m1.user) k) m1
            ≡ and_then (run allocator env (rest v m1.user) m1) (after k))
      → and_then o (resume (λ v m'. then_do (rest v m') k))
        ≡ and_then (and_then o (resume rest)) (after k)
  resume-after rest k (returns (none, m1)) h = refl
  resume-after rest k (returns (some v, m1)) h = h v m1
  resume-after rest k stuck h = refl
  resume-after rest k out_of_fuel h = refl

  -- A program brings its memory along.
  run-user :
      {A : Type 0} (program : Program A) (memory : Memory) (m : Machine S)
      → run allocator env program m ≡ run allocator env program (record m { user = memory })
  unfolding run ecall
  run-user (ends a memory') memory m = refl
  run-user (calls c memory' rest) memory m = refl

  pub run-then_do :
      {A B : Type 0} (program : Program A) (k : A → Memory → Program B) (m : Machine S)
      → run allocator env (then_do program k) m ≡ and_then (run allocator env program m) (after k)
  unfolding run
  run-then_do (ends a memory) k m = run-user (k a memory) memory m
  run-then_do (calls c memory rest) k m =
      (resume-after rest k (ecall allocator env c memory m)
        (λ v m1. run-then_do (rest v m1.user) k m1))

  -- X
  pub sleep-Waits :
      (ms : ℕ) (memory : Memory) (m : Machine S)
      → IsUser m
      → Waits allocator env m (sleep_for ms) memory
  unfolding run
  sleep-Waits ms memory m u =
      let p = m.kernel.cpu.proc in
      let m0 = at_call env.sepc (sleep_for ms) memory m in
      let (m1, e, n, i, t, x) = sleep_call-Asks p m0 u.not_idle refl in
      let (k, s, z) = trap_end-switches m1 n i in
      let there : syscall_handler allocator env p m0 ≡ returns (tt, m1) =
        handler-sleep p m0 (reg-at_call allocator env m u (sleep_for ms) memory 17) ∙ e in
      record {
        machine = record m1 { kernel = k };
        waits = λ rest. rw (ecall-handler allocator env (sleep_for ms) memory m u, there, z) refl;
        uart = t;
        user = x;
      }
