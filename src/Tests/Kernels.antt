-- ===== src/Tests/Kernels.antt =====
-- Runs of the code about kernel/sched.c, kernel/timer.h and the sleep, exit and yield calls.
use system_n.Base.{ℕ, ◌+◌, ◌%◌, ◌≡◌, refl, some, List, [], ◌∷◌, arith, ◌==◌, if◌then◌else◌}
use system_n.Queue.{Links}
use system_n.Queue.Ring.{IsRing}
use system_n.Proc.{
  ProcState, runnable, running, sleeping, zombie, Proc, Kernel, Image, set_state, ulong_mod,
}
use system_n.Sched.{schedule}
use system_n.Sched.Queues.{AreQueues, IsFree}
use system_n.Sched.Rotation.{rotate, idles, Shows, HasIdle, schedule-rotate}
use system_n.Sched.Fairness.{turns, turns-current}
use system_n.Timer.{timer_handle, ms_to_time}
use system_n.Timer.Wake.{Woke, timer_handle-Woke}
use system_n.PageTable.{minus_one}
use system_n.Syscall.{sys_sleep_ms}
use system_n.Syscall.Sleep.{IsNap, sys_sleep_ms_lem, schedule-exit, schedule-sleep, schedule-lost}

abbrev pub image : Image
image = record {
  idle_procs = 10000;
  idle_loop = 1;
  trap_vector = 2;
  idle_trap_vector = 3;
  kernel_pagetable = 8192;
}

abbrev proc_in : ProcState → ℕ → Proc
proc_in s i = record {
  pid = 7;
  state = s;
  is_idle = i;
  bound_cpu = 0;
  sleep_until = 50;
  tf = 0;
  ctx = record { ra = 0; sp = 0; s = λ _. 0 };
  pagetable = 4096;
  heap_start = 0;
  heap_end = 0;
  kstack = 0;
  ustack = 0;
}

-- 2000 runs, 3000 and 3500 are ready, 4000 sleeps; 10000 is the idle process of hart 0.
abbrev procs : ℕ → Proc
procs p =
    if p == 2000
    then proc_in running 0
    else if p == 4000
    then proc_in sleeping 0
    else if p == 10000
    then proc_in running 1
    else proc_in runnable 0

abbrev kernel_with : Links → Kernel
kernel_with h = record {
  tp = 1000;
  cpu = record { id = 0; lock_depth = 0; sstatus = 0; needs_sched = 1; proc = 2000 };
  proc = procs;
  links = h;
  satp = 0;
  stvec = 0;
  sscratch = 0;
  stimecmp = 0;
}

-- The run queue has its head at 1032, the sleep queue at 1048.
abbrev busy_links : Links
busy_links = record {
  next = λ x.
      if x == 1032
      then 3144
      else if x == 3144
      then 3644
      else if x == 3644
      then 1032
      else if x == 1048
      then 4144
      else 1048;
  prev = λ x.
      if x == 1032
      then 3644
      else if x == 3644
      then 3144
      else if x == 3144
      then 1032
      else if x == 1048
      then 4144
      else 1048;
}

abbrev quiet_links : Links
quiet_links = record {
  next = λ x. if x == 1048 then 4144 else if x == 4144 then 1048 else x;
  prev = λ x. if x == 1048 then 4144 else if x == 4144 then 1048 else x;
}

abbrev pub busy : Kernel
busy = kernel_with busy_links

abbrev quiet : Kernel
quiet = kernel_with quiet_links

busy-AreQueues : AreQueues busy_links 1032 1048 (3000 ∷ 3500 ∷ []) (4000 ∷ [])
busy-AreQueues = record {
  run_ring = record {
    chain = (refl, refl, (refl, refl, (refl, refl)));
    apart = refl;
    distinct = (refl, (refl, tt));
  };
  sleep_ring = record { chain = (refl, refl, (refl, refl)); apart = refl; distinct = (refl, tt) };
  apart = λ x i. ground arith;
}

quiet-AreQueues : AreQueues quiet_links 1032 1048 [] (4000 ∷ [])
quiet-AreQueues = record {
  run_ring = record { chain = (refl, refl); apart = refl; distinct = tt };
  sleep_ring = record { chain = (refl, refl, (refl, refl)); apart = refl; distinct = (refl, tt) };
  apart = λ x i. ground arith;
}

busy-Shows : Shows busy (record { current = 2000; ready = 3000 ∷ 3500 ∷ [] }) (4000 ∷ [])
busy-Shows = record {
  current = refl;
  queues = busy-AreQueues;
  free = λ _. (refl, refl);
  current_running = refl;
  ready_runnable = λ p i. ground arith;
}

quiet-Shows : Shows quiet (record { current = 2000; ready = [] }) (4000 ∷ [])
quiet-Shows = record {
  current = refl;
  queues = quiet-AreQueues;
  free = λ _. (refl, refl);
  current_running = refl;
  ready_runnable = λ p i. ground arith;
}

busy-HasIdle : HasIdle image busy
busy-HasIdle = record { marked = refl; idle_running = refl }

quiet-HasIdle : HasIdle image quiet
quiet-HasIdle = record { marked = refl; idle_running = refl }

schedule-rotate_example :
    Shows
      (schedule image busy).0
      (rotate (idles busy) 10000 (record { current = 2000; ready = 3000 ∷ 3500 ∷ [] }))
      (4000 ∷ [])
schedule-rotate_example =
    schedule-rotate image busy (record { current = 2000; ready = 3000 ∷ 3500 ∷ [] }) (4000 ∷ [])
      busy-Shows busy-HasIdle

turns-current_example : (turns image 2 busy).cpu.proc ≡ 3500
turns-current_example =
    turns-current image (3000 ∷ []) 3500 [] busy 2000 (4000 ∷ []) busy-Shows busy-HasIdle

timer_handle-Woke_example :
    (k' : Kernel) × (timer_handle 2 60 60 busy ≡ some k')
    × Woke busy k' 60 60 (3000 ∷ 3500 ∷ []) (4000 ∷ [])
timer_handle-Woke_example =
    timer_handle-Woke 2 60 60 busy (3000 ∷ 3500 ∷ []) (4000 ∷ []) busy-AreQueues (omega arith)

sys_sleep_ms_lem_example :
    (IsNap 5
      → ((sys_sleep_ms 60 2000 5 busy).0 ≡ 0)
        × AreQueues
            (sys_sleep_ms 60 2000 5 busy).1.links
            1032
            1048
            (3000 ∷ 3500 ∷ [])
            (4000 ∷ 2000 ∷ [])
        × (((sys_sleep_ms 60 2000 5 busy).1.proc 2000).state ≡ sleeping)
        × (((sys_sleep_ms 60 2000 5 busy).1.proc 2000).sleep_until
            ≡ (60 + ms_to_time 5) % ulong_mod))
    × (¬ IsNap 5 → sys_sleep_ms 60 2000 5 busy ≡ (minus_one, busy))
sys_sleep_ms_lem_example =
    sys_sleep_ms_lem 60 2000 5 busy (3000 ∷ 3500 ∷ []) (4000 ∷ []) busy-AreQueues (refl, refl)

schedule-exit_example :
    ((schedule image (set_state 2000 zombie busy)).0 ≡ (schedule image busy).0)
    × (((schedule image (set_state 2000 zombie busy)).0.proc 2000).state ≡ runnable)
schedule-exit_example = schedule-exit image busy 2000 3000 (3500 ∷ []) (4000 ∷ []) busy-Shows refl

schedule-sleep_example :
    (((schedule image (sys_sleep_ms 60 2000 5 busy).1).0.proc 2000).state ≡ runnable)
    × ((xs : List ℕ) → ¬ IsRing (schedule image (sys_sleep_ms 60 2000 5 busy).1).0.links 1048 xs)
schedule-sleep_example =
    schedule-sleep image busy 60 2000 3000 5 (3500 ∷ []) (4000 ∷ []) busy-Shows refl
      (omega arith, omega arith)

schedule-lost_example :
    ((schedule image quiet).0.cpu.proc ≡ 10000)
    × AreQueues (schedule image quiet).0.links 1032 1048 [] (4000 ∷ [])
    × IsFree 2000 1032 1048 [] (4000 ∷ [])
    × (((schedule image quiet).0.proc 2000).state ≡ running)
schedule-lost_example = schedule-lost image quiet 2000 (4000 ∷ []) quiet-Shows quiet-HasIdle refl
