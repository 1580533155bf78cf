-- ===== src/Boot.antt =====
-- kernel/start.c: what a hart does in supervisor mode before its first process runs, as one
-- function of the state that the creation of a process reaches. What is printed, the stack pointer
-- and sstatus are left out.
pub mod First
pub mod Early
pub mod Ranges
pub mod Mapped
pub mod Init
pub mod Start
pub mod Harts
use system_n.Base.{ℕ, ◌+◌, ◌*◌, ◌≡◌, Bool, Option, none, some, ◌==◌, if◌then◌else◌}
use system_n.Queue.{list_head_init, list_del}
use system_n.Proc.{running, Image, Kernel, put_proc, q_node, run_queue, sleep_queue, idle_proc}
use system_n.Sched.{load_pagetable}
use system_n.Timer.{timer_init}
use system_n.PageTable.{PageAllocator}
use system_n.Machine.{Outcome, returns, stuck, out_of_fuel}
use system_n.Creation.{World, Fixed, kstack_size, zero_context, zero_proc, zero_links}
use system_n.Creation.Create.{create_proc}

-- `_stack`, and the program of the shell: its address and its size.
pub record Linked : Type 0 where
  pub stack : ℕ
  pub shell_start : ℕ
  pub shell_size : ℕ

-- `idle->is_idle = 1` and what follows it, on zeroed memory.
unfoldable pub idle_of : Image → ℕ → ℕ → Kernel → Kernel
idle_of image stack idle k = record k {
  proc =
      put_proc idle
        (record zero_proc {
          is_idle = 1;
          state = running;
          pagetable = image.kernel_pagetable;
          kstack = stack + k.cpu.id * kstack_size;
          ctx = record zero_context {
            ra = image.idle_loop;
            sp = stack + k.cpu.id * kstack_size + kstack_size;
          };
        })
        k.proc;
  links = zero_links (q_node idle) k.links;
}

unfoldable pub setup_idle_proc : Image → ℕ → Kernel → Kernel
unfolding idle_of
setup_idle_proc image stack k =
    let idle = idle_proc image k.cpu.id in
    let k1 = idle_of image stack idle k in
    if k1.cpu.id == 0 then k1 else record k1 { cpu = record (k1.cpu) { proc = idle } }

-- The queues of the hart.
unfoldable pub init_queues : Kernel → Kernel
unfolding list_head_init
init_queues k =
    let k1 = record k { links = list_head_init (run_queue k.tp) k.links } in
    record k1 { links = list_head_init (sleep_queue k1.tp) k1.links }

-- `shell_init` behind `create_proc`.
unfoldable pub take_shell : ℕ → Kernel → Kernel
unfolding list_del
take_shell shell k =
    let k1 = record k { links = list_del (q_node shell) k.links } in
    record k1 {
      proc = put_proc shell (record (k1.proc shell) { state = running; bound_cpu = 0 }) k1.proc;
      cpu = record (k1.cpu) { proc = shell };
    }

-- `load_pagetable` and the registers that `jump_to_user_shell` writes.
unfoldable pub jump_to_user_shell : Kernel → Kernel
jump_to_user_shell k =
    let r = k.proc k.cpu.proc in load_pagetable r.pagetable (record k { sscratch = r.tf })

-- The hart's `stvec` once it idles.
unfoldable pub idle_loop : Image → Kernel → Kernel
idle_loop image k = record k { stvec = image.idle_trap_vector }

module _ {S : Type 0} (allocator : PageAllocator S) (image : Image) (linked : Linked)
    (fixed : Fixed) where
  -- Without a process the code goes on with the fields of NULL.
  unfoldable pub shell_init : ℕ → ℕ → World S → Outcome (World S)
  unfolding create_proc take_shell
  shell_init depth fuel w =
      elim (create_proc allocator fixed depth fuel linked.shell_start linked.shell_size w) [
        | stuck ↦ stuck
        | out_of_fuel ↦ out_of_fuel
        | returns (shell, w1) ↦
            if shell == 0
            then stuck
            else returns (record w1 { kernel = take_shell shell w1.kernel })
      ]

  -- What every hart does.
  unfoldable pub prepare : ℕ → World S → World S
  unfolding init_queues setup_idle_proc
  prepare time w = record w {
    kernel = setup_idle_proc image linked.stack (timer_init time (init_queues w.kernel));
  }

  unfoldable pub s_mode_main : ℕ → ℕ → ℕ → World S → Outcome (World S)
  unfolding prepare shell_init jump_to_user_shell idle_loop
  s_mode_main time depth fuel w =
      let w1 = prepare time w in
      let user : Outcome (World S) = elim (shell_init depth fuel w1) [
        | stuck ↦ stuck
        | out_of_fuel ↦ out_of_fuel
        | returns w2 ↦ returns (record w2 { kernel = jump_to_user_shell w2.kernel })
      ] in
      if w1.kernel.cpu.id == 0
      then user
      else returns (record w1 { kernel = idle_loop image w1.kernel })
