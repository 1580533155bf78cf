-- ===== src/Tests/Startup.antt =====
-- kernel/proc.c and kernel/start.c on a hart with nothing on its queues.
use system_n.Base.{ℕ, ◌+◌, ◌^◌, ◌≡◌, refl, some, [], arith, leb, ltb, ◌&&◌, ◌==◌, if◌then◌else◌}
use system_n.Spinlock.{done}
use system_n.Proc.{Image, sizeof_proc, idle_proc, run_queue, sleep_queue}
use system_n.Sched.Queues.{AreQueues}
use system_n.Sched.Rotation.{Shows, HasIdle}
use system_n.PageTable.{PageAllocator, walk_from}
use system_n.Snub.{Snub, kzalloc, kmalloc, size_to_idx, shift_for, pop_object, refill, thread}
use system_n.Machine.{Outcome, returns, stuck, out_of_fuel}
use system_n.Creation.{World, Fixed, zero_proc}
use system_n.Creation.Create.{create_proc}
use system_n.Creation.Queued.{Creation, create_proc-Creation}
use system_n.Boot.{Linked, prepare, s_mode_main}
use system_n.Boot.First.{Started, s_mode_main-idle, s_mode_main-shell}

-- Pages from an address on, none of which comes back.
abbrev rising : PageAllocator ℕ
rising = record { alloc_page = λ s. done (some s, s + 4096); free_page = λ pa s. done s }

abbrev image : Image
image = record {
  idle_procs = 0x9000;
  idle_loop = 0x100;
  trap_vector = 0x200;
  idle_trap_vector = 0x300;
  kernel_pagetable = 0xa000;
}

abbrev linked : Linked
linked = record { stack = 0xb000; shell_start = 0xc000; shell_size = 5000 }

abbrev fixed : Fixed
fixed = record { kernel_end = 0xffff_ffff_8000_2000; kernel_pagetable = 0xa000; base = 0x8040_0000 }

-- A hart with a free object of 256 bytes.
abbrev hart : ℕ → World ℕ
hart id = record {
  kernel = record {
    tp = 0x1000;
    cpu = record { id = id; lock_depth = 0; sstatus = 0; needs_sched = 0; proc = 0 };
    proc = λ _. zero_proc;
    links = record { next = λ x. x; prev = λ x. x };
    satp = 0;
    stvec = 0;
    sscratch = 0;
    stimecmp = 0;
  };
  frames = λ _. record { regs = λ _. 0; sepc = 0; sstatus = 0; scause = 0; stval = 0 };
  snub = record {
    object_size = λ i. 2 ^ (4 + i);
    partial = λ i. if i == 4 then 0x5000 else 0;
    words = λ _. 0;
    store = 0x10_0000;
  };
  bytes = λ _. 7;
  next_pid = 0;
}

empty_queues : AreQueues (hart 0).kernel.links (run_queue 0x1000) (sleep_queue 0x1000) [] []
empty_queues = record {
  run_ring = record { chain = (refl, refl); apart = refl; distinct = tt };
  sleep_ring = record { chain = (refl, refl); apart = refl; distinct = tt };
  apart = λ x i. ground (arith, i);
}

-- The caches after the object was taken.
abbrev taken : Snub ℕ
taken = record ((hart 0).snub) {
  partial = λ i. if i == 4 then 0 else (hart 0).snub.partial i;
  words = λ x. if leb 0x5000 x && ltb x (0x5000 + sizeof_proc) then 0 else 0;
}

create_proc-Creation_example :
    Creation rising fixed 3 2 0xc000 0x5000 5000 taken [] []
      (hart 0)
      (create_proc rising fixed 3 2 0xc000 5000 (hart 0))
unfolding kzalloc kmalloc size_to_idx shift_for pop_object
create_proc-Creation_example =
    create_proc-Creation rising fixed 3 2 0xc000 5000 0x5000 taken (hart 0) refl refl empty_queues
      (refl, refl) (omega arith) (omega arith)

s_mode_main-idle_example :
    (w' : World ℕ) × (s_mode_main rising image linked fixed 5 3 2 (hart 1) ≡ returns w')
    × Shows w'.kernel (record { current = idle_proc image 1; ready = [] }) []
    × HasIdle image w'.kernel
s_mode_main-idle_example =
    s_mode_main-idle rising image linked fixed 5 3 2 (hart 1) refl (refl, refl)

s_mode_main-shell_example :
    Started rising image linked fixed 3 2 0x5000 taken
      (prepare rising image linked fixed 5 (hart 0))
      (s_mode_main rising image linked fixed 5 3 2 (hart 0))
unfolding kzalloc kmalloc size_to_idx shift_for pop_object
s_mode_main-shell_example =
    s_mode_main-shell rising image linked fixed 5 3 2 0x5000 taken (hart 0) refl (refl, refl) refl
      refl (refl, refl) refl (omega arith) (omega arith)

abbrev answer : {S : Type 0} → Outcome (ℕ × World S) → ℕ
answer (returns (p, w)) = p
answer stuck = 1
answer out_of_fuel = 2

shell_made : answer (create_proc rising fixed 3 1 0xc000 3 (hart 0)) ≡ 0x5000
unfolding create_proc kzalloc kmalloc size_to_idx shift_for pop_object refill thread walk_from
shell_made = refl
