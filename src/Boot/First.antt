-- ===== src/Boot/First.antt =====
-- kernel/start.c: the state in which the first process of a hart runs is one that the scheduler
-- starts from.
use system_n.Base.{
  ℕ, ◌*◌, ◌≤◌, ◌<◌, ◌^◌, ◌≡◌, refl, true, false, not, List, [], ◌∷◌, arith, ◌==◌, ap, ◌∙◌, ==_refl,
  Bool-cases, inl, inr,
}
use system_n.Spinlock.{done}
use system_n.Queue.{list_head_init}
use system_n.Proc.{
  running, page_size, sizeof_proc, Image, Kernel, run_queue, sleep_queue, idle_proc,
}
use system_n.Sched.Queues.{AreQueues, IsFree, list_del-first}
use system_n.Sched.Rotation.{View, Shows, HasIdle}
use system_n.PageTable.{PageAllocator, Vm, va_offset}
use system_n.PageTable.Tree.{free_pagetable}
use system_n.Snub.{Snub, kzalloc}
use system_n.Timer.{timer_init}
use system_n.Machine.{Outcome, returns, stuck, out_of_fuel}
use system_n.Creation.{World, Fixed}
use system_n.Creation.Queued.{
  zero_links-AreQueues, SetUpFails, created, refused, halted, too_deep, create_proc-Creation,
}
use system_n.Boot.{
  Linked, jump_to_user_shell, idle_of, idle_loop, setup_idle_proc, init_queues, take_shell,
  shell_init, prepare, s_mode_main,
}

init_queues-AreQueues :
    (k : Kernel) → AreQueues (init_queues k).links (run_queue k.tp) (sleep_queue k.tp) [] []
unfolding init_queues list_head_init
init_queues-AreQueues k = record {
  run_ring = record { chain = ground arith; apart = refl; distinct = tt };
  sleep_ring = record { chain = ground arith; apart = refl; distinct = tt };
  apart = λ x i. ground (arith, i);
}

-- The state that every hart has before its first process.
record Prepared (image : Image) (k k' : Kernel) : Type 0 where
  tp : k'.tp ≡ k.tp
  id : k'.cpu.id ≡ k.cpu.id
  queues : AreQueues k'.links (run_queue k.tp) (sleep_queue k.tp) [] []
  idle : HasIdle image k'

setup_idle_proc-Prepared :
    (image : Image) (stack : ℕ) {k : Kernel}
    → AreQueues k.links (run_queue k.tp) (sleep_queue k.tp) [] []
    → IsFree (idle_proc image k.cpu.id) (run_queue k.tp) (sleep_queue k.tp) [] []
    → Prepared image k (setup_idle_proc image stack k)
unfolding setup_idle_proc
setup_idle_proc-Prepared image stack {k} q f =
    let idle = idle_proc image k.cpu.id in
    let zeroed = zero_links-AreQueues idle q f in
    elim (Bool-cases (k.cpu.id == 0)) [
      | inl z ↦
          rw (idle_of, z)
            (record {
              tp = refl;
              id = refl;
              queues = zeroed;
              idle = record {
                marked = rw (==_refl idle) refl;
                idle_running = rw (==_refl idle) refl;
              };
            })
      | inr z ↦
          rw (idle_of, z)
            (record {
              tp = refl;
              id = refl;
              queues = zeroed;
              idle = record {
                marked = rw (==_refl idle) refl;
                idle_running = rw (==_refl idle) refl;
              };
            })
    ]

setup_idle_proc-runs :
    (image : Image) (stack : ℕ) (k : Kernel)
    → (k.cpu.id == 0) ≡ false
    → (setup_idle_proc image stack k).cpu.proc ≡ idle_proc image k.cpu.id
unfolding setup_idle_proc idle_of
setup_idle_proc-runs image stack k z = rw z refl

-- A process that is the only one on the run queue runs.
take_shell-Shows :
    (image : Image) (p : ℕ) {k : Kernel}
    → AreQueues k.links (run_queue k.tp) (sleep_queue k.tp) (p ∷ []) []
    → HasIdle image k
    → (idle_proc image k.cpu.id == p) ≡ false
    → Shows (take_shell p k) (record { current = p; ready = [] }) []
      × HasIdle image (take_shell p k)
unfolding take_shell
take_shell-Shows image p {k} q h n =
    let (left, free) = list_del-first p [] q in
    (
      record {
        current = refl;
        queues = left;
        free = λ e. free;
        current_running = rw (==_refl p) refl;
        ready_runnable = λ x i. absurd (ground (arith, i));
      },
      record { marked = rw n h.marked; idle_running = rw n h.idle_running },
    )

jump_to_user_shell-Shows :
    {k : Kernel} {v : View} {asleep : List ℕ}
    → Shows k v asleep
    → Shows (jump_to_user_shell k) v asleep
unfolding jump_to_user_shell
jump_to_user_shell-Shows s = record {
  current = s.current;
  queues = s.queues;
  free = s.free;
  current_running = s.current_running;
  ready_runnable = s.ready_runnable;
}

jump_to_user_shell-HasIdle :
    {image : Image} {k : Kernel} → HasIdle image k → HasIdle image (jump_to_user_shell k)
unfolding jump_to_user_shell
jump_to_user_shell-HasIdle h = record { marked = h.marked; idle_running = h.idle_running }

module _ {S : Type 0} (allocator : PageAllocator S) (image : Image) (linked : Linked)
    (fixed : Fixed) where
  prepare-Prepared :
      (time : ℕ) (w : World S)
      → IsFree
          (idle_proc image w.kernel.cpu.id)
          (run_queue w.kernel.tp)
          (sleep_queue w.kernel.tp)
          []
          []
      → Prepared image w.kernel (prepare allocator image linked fixed time w).kernel
  unfolding prepare init_queues timer_init
  prepare-Prepared time w f =
      let made =
        setup_idle_proc-Prepared image linked.stack {k = timer_init time (init_queues w.kernel)}
          (init_queues-AreQueues w.kernel) f in
      record { tp = made.tp; id = made.id; queues = made.queues; idle = made.idle }

  prepare-runs :
      (time : ℕ) (w : World S)
      → (w.kernel.cpu.id == 0) ≡ false
      → (prepare allocator image linked fixed time w).kernel.cpu.proc
        ≡ idle_proc image w.kernel.cpu.id
  unfolding prepare init_queues timer_init
  prepare-runs time w n =
      setup_idle_proc-runs image linked.stack (timer_init time (init_queues w.kernel)) n

  prepare-snub :
      (time : ℕ) (w : World S)
      → kzalloc allocator sizeof_proc (prepare allocator image linked fixed time w).snub
        ≡ kzalloc allocator sizeof_proc w.snub
  unfolding prepare
  prepare-snub time w = refl

  -- On a hart other than 0 whose idle process stands on neither of its queues, s_mode_main ends in
  -- a state that shows to the scheduler the idle process as the current one, nothing ready and
  -- nothing asleep, with the idle process set up.
  pub s_mode_main-idle :
      (time depth fuel : ℕ) (w : World S)
      → (w.kernel.cpu.id == 0) ≡ false
      → IsFree
          (idle_proc image w.kernel.cpu.id)
          (run_queue w.kernel.tp)
          (sleep_queue w.kernel.tp)
          []
          []
      → (w' : World S) × (s_mode_main allocator image linked fixed time depth fuel w ≡ returns w')
        × Shows w'.kernel (record { current = idle_proc image w.kernel.cpu.id; ready = [] }) []
        × HasIdle image w'.kernel
  unfolding s_mode_main idle_loop
  s_mode_main-idle time depth fuel w n f =
      let w1 = prepare allocator image linked fixed time w in
      let made = prepare-Prepared time w f in
      let other : (w1.kernel.cpu.id == 0) ≡ false = rw made.id n in
      let runs : w1.kernel.cpu.proc ≡ idle_proc image w.kernel.cpu.id = prepare-runs time w n in
      (
        record w1 { kernel = idle_loop image w1.kernel },
        rw other refl,
        record {
          current = runs;
          queues = rw made.tp made.queues;
          free = λ e. absurd (ground (arith, e, made.idle.marked, made.id));
          current_running = rw made.id at made.idle.idle_running;
          ready_runnable = λ x i. absurd (ground (arith, i));
        },
        record { marked = made.idle.marked; idle_running = made.idle.idle_running },
      )

  -- How the first hart ends: its shell runs; or it could not be made, and the hart faults on NULL;
  -- or the hart halts; or the tables of a shell that was given up are deeper than `depth`.
  pub data Started (depth fuel p : ℕ) (snub : Snub S) (w1 : World S) (r : Outcome (World S))
      : Type 0 where
    started :
        (w' : World S)
        → r ≡ returns w'
        → Shows w'.kernel (record { current = p; ready = [] }) []
        → HasIdle image w'.kernel
        → Started depth fuel p snub w1 r
    not_made :
        (w2 : World S)
        → SetUpFails allocator fixed depth fuel linked.shell_start p linked.shell_size snub w1 w2
        → r ≡ stuck
        → Started depth fuel p snub w1 r
    halts : r ≡ stuck → Started depth fuel p snub w1 r
    tables_too_deep :
        (w2 : World S) (vm : Vm S)
        → SetUpFails allocator fixed depth fuel linked.shell_start p linked.shell_size snub w1 w2
        → (vm.words ≡ w2.snub.words) × (vm.offset ≡ va_offset)
        → free_pagetable allocator depth (w2.kernel.proc p).pagetable vm ≡ out_of_fuel
        → r ≡ out_of_fuel
        → Started depth fuel p snub w1 r

  -- On hart 0, where kzalloc gives a struct for the shell that is not NULL, is no idle process and
  -- stands on no queue of the hart, the idle process stands on none either, and there is fuel for
  -- every page of the shell: s_mode_main ends in a state that shows to the scheduler the shell as
  -- the current process, nothing else ready and nothing asleep, with the idle process of the hart
  -- set up; or a step of create_proc fails for the shell, and the hart halts on NULL; or the hart
  -- halts before; or a step fails and free_pagetable, on the shell's table, finds more levels than
  -- its fuel.
  pub s_mode_main-shell :
      (time depth fuel p : ℕ) (snub : Snub S) (w : World S)
      → (w.kernel.cpu.id == 0) ≡ true
      → IsFree
          (idle_proc image w.kernel.cpu.id)
          (run_queue w.kernel.tp)
          (sleep_queue w.kernel.tp)
          []
          []
      → kzalloc allocator sizeof_proc w.snub ≡ done (p, snub)
      → (p == 0) ≡ false
      → IsFree p (run_queue w.kernel.tp) (sleep_queue w.kernel.tp) [] []
      → (idle_proc image w.kernel.cpu.id == p) ≡ false
      → linked.shell_size ≤ fuel * page_size
      → linked.shell_size < 2 ^ 61
      → Started depth fuel p snub
          (prepare allocator image linked fixed time w)
          (s_mode_main allocator image linked fixed time depth fuel w)
  unfolding s_mode_main shell_init
  s_mode_main-shell time depth fuel p snub w z f got some_p fp apart enough small =
      let w1 = prepare allocator image linked fixed time w in
      let made = prepare-Prepared time w f in
      let first : (w1.kernel.cpu.id == 0) ≡ true = rw made.id z in
      let got1 : kzalloc allocator sizeof_proc w1.snub ≡ done (p, snub) =
        prepare-snub time w ∙ got in
      elim (create_proc-Creation allocator fixed depth fuel linked.shell_start linked.shell_size p
        snub {ready = []} {asleep = []} w1 got1 some_p (rw made.tp made.queues) (rw made.tp fp)
        enough small) [
          | created w2 e new ↦
              let i = idle_proc image w.kernel.cpu.id in
              let id : w2.kernel.cpu.id ≡ w.kernel.cpu.id = ap (λ c. c.id) new.cpu ∙ made.id in
              let same : w2.kernel.proc i ≡ w1.kernel.proc i = new.others i apart in
              let marked : not ((w1.kernel.proc i).is_idle == 0) ≡ true =
                rw made.id at made.idle.marked in
              let runs : (w1.kernel.proc i).state ≡ running =
                rw made.id at made.idle.idle_running in
              let idle : HasIdle image w2.kernel = record {
                marked = rw (id, same) marked;
                idle_running = rw (id, same) runs;
              } in
              let (shows, has_idle) = take_shell-Shows image p new.queues idle (rw id apart) in
              started (record w2 { kernel = jump_to_user_shell (take_shell p w2.kernel) })
                (rw (first, e, some_p) refl) (jump_to_user_shell-Shows shows)
                (jump_to_user_shell-HasIdle has_idle)
          | refused w2 w' none_made e left ↦ not_made w2 none_made (rw (first, e) refl)
          | too_deep w2 vm none_made s d e ↦
              tables_too_deep w2 vm none_made s d (rw (first, e) refl)
          | halted e ↦ halts (rw (first, e) refl)
        ]
