-- ===== src/Creation.antt =====
-- kernel/proc.c: `create_proc`, `free_proc` and `copy_kernel_mappings`. What is printed on the way
-- is left out.
pub mod Steps
pub mod Create
pub mod Effect
pub mod Made
pub mod Failed
pub mod Queued
use Prim.Native.Nat.{bit_or}
use system_n.Base.{
  ℕ, zero, suc, ◌+◌, ◌-◌, ◌*◌, ◌/◌, ◌%◌, ◌^◌, ◌≡◌, Bool, true, false, Option, none, some, ltb, ◌==◌,
  if◌then◌else◌,
}
use system_n.Spinlock.{Run, done, panic}
use system_n.Queue.{Links, set_next, set_prev, list_del, list_add_tail, list_in_queue}
use system_n.Proc.{
  TrapFrame, Context, unused, runnable, Proc, ulong_mod, page_size, sizeof_proc, q_node, run_queue,
  Kernel, put_proc, set_state,
}
use system_n.Str.{memcpy}
use system_n.Buddy.{align_up}
use system_n.PageTable.{
  PageAllocator, Vm, va_offset, phys_to_virt, virt_to_phys, minus_one, pte_r, pte_w, pte_x, pte_u,
  is_valid, pte2pa, pte_flags, clear_page, get_page, walk, map_page,
}
use system_n.PageTable.Tree.{alloc_pagetable, free_pagetable}
use system_n.Snub.{Snub, kzalloc, kfree}
use system_n.Machine.{Outcome, returns, stuck, out_of_fuel}
use system_n.Syscall.{user_end_va}

abbrev pub kstack_size : ℕ
kstack_size = page_size

abbrev pub user_stack_top : ℕ
user_stack_top = user_end_va

abbrev pub user_stack_size : ℕ
user_stack_size = page_size

abbrev pub kernel_start_va : ℕ
kernel_start_va = 0xffff_ffff_8000_0000

abbrev pub uart0 : ℕ
uart0 = phys_to_virt 0x1000_0000

abbrev pub sizeof_trap_frame : ℕ
sizeof_trap_frame = 288

-- `SSTATUS_SPIE | SSTATUS_SUM`
abbrev pub user_sstatus : ℕ
user_sstatus = bit_or 32 (2 ^ 18)

-- What the linker, the boot and the caches of small objects fix: the end of the kernel, its page
-- table and the base that `kfree` subtracts.
pub record Fixed : Type 0 where
  pub kernel_end : ℕ
  pub kernel_pagetable : ℕ
  pub base : ℕ

-- The state that the creation of a process reaches: a hart's kernel with its processes, trap
-- frames and links; the words of page tables and small objects; the bytes of the pages of
-- programs; the pages; the caches; and `next_pid`.
pub record World (S : Type 0) : Type 0 where
  pub kernel : Kernel
  pub frames : ℕ → TrapFrame
  pub snub : Snub S
  pub bytes : ℕ → ℕ
  pub next_pid : ℕ

-- A step of `create_proc`; `none` is `goto fail1`.
abbrev pub Step : Type 0 → Type 0 → Type 0
Step S A = World S → Outcome (Option A × World S)

abbrev pub and_then :
    {S A B : Type 0} → Outcome (Option A × World S) → (A → Step S B) → Outcome (Option B × World S)
and_then (returns (some a, w)) k = k a w
and_then (returns (none, w)) k = returns (none, w)
and_then stuck k = stuck
and_then out_of_fuel k = out_of_fuel

infixr 5 ◌>>=◌ ◌>>◌
abbrev pub ◌>>=◌ : {S A B : Type 0} → Step S A → (A → Step S B) → Step S B
◌>>=◌ m f w = and_then (m w) f

abbrev pub ◌>>◌ : {S B : Type 0} → Step S (Unit {0}) → Step S B → Step S B
m >> k = m >>= λ _. k

abbrev pub pure : {S A : Type 0} → A → Step S A
pure a w = returns (some a, w)

abbrev pub modify : {S : Type 0} → (World S → World S) → Step S (Unit {0})
modify f w = returns (some tt, f w)

abbrev pub set_vm : {S : Type 0} → Vm S → World S → World S
set_vm vm w = record w { snub = record (w.snub) { words = vm.words; store = vm.store } }

abbrev pub vm_of : {S : Type 0} → World S → Vm S
vm_of w = record { words = w.snub.words; store = w.snub.store; offset = va_offset }

-- `p->f = v` for some fields of a process
abbrev pub change : {S : Type 0} → ℕ → (Proc → Proc) → World S → World S
change p f w = record w {
  kernel = record (w.kernel) { proc = put_proc p (f (w.kernel.proc p)) w.kernel.proc };
}

abbrev pub change_proc : {S : Type 0} → ℕ → (Proc → Proc) → Step S (Unit {0})
change_proc p f = modify (change p f)

abbrev pub zero_context : Context
zero_context = record { ra = 0; sp = 0; s = λ _. 0 }

-- The fields of a process whose memory is zero.
abbrev pub zero_proc : Proc
zero_proc = record {
  pid = 0;
  state = unused;
  is_idle = 0;
  bound_cpu = 0;
  sleep_until = 0;
  tf = 0;
  ctx = zero_context;
  pagetable = 0;
  heap_start = 0;
  heap_end = 0;
  kstack = 0;
  ustack = 0;
}

abbrev pub zero_links : ℕ → Links → Links
zero_links node h = set_prev node 0 (set_next node 0 h)

-- The process at `p` as `kzalloc` leaves it.
abbrev pub zero_at : {S : Type 0} → ℕ → World S → World S
zero_at p w = record w {
  kernel = record (w.kernel) {
    proc = put_proc p zero_proc w.kernel.proc;
    links = zero_links (q_node p) w.kernel.links;
  };
}

-- The trap frame at the top of a fresh kernel stack.
abbrev pub new_frame : TrapFrame
new_frame = record {
  regs = λ i. if i == 2 then user_stack_top else 0;
  sepc = 0;
  sstatus = user_sstatus;
  scause = 0;
  stval = 0;
}

-- `ATOMIC_INC_AND_FETCH(&next_pid)`; the `int` -1 is 2 ^ 32 - 1.
unfoldable pub number_proc : {S : Type 0} → ℕ → World S → World S
number_proc p w =
    let pid = (w.next_pid + 1) % 2 ^ 64 in
    record w {
      next_pid = pid;
      kernel = record (w.kernel) {
        proc =
            put_proc p (record (w.kernel.proc p) { pid = pid % 2 ^ 32; bound_cpu = 2 ^ 32 - 1 })
              w.kernel.proc;
      };
    }

-- The process is ready to run.
unfoldable pub enqueue : {S : Type 0} → ℕ → World S → World S
unfolding list_add_tail
enqueue p w =
    let k = set_state p runnable w.kernel in
    record w { kernel = record k { links = list_add_tail (q_node p) (run_queue k.tp) k.links } }

unfoldable pub unlink_proc : {S : Type 0} → ℕ → World S → World S
unfolding list_in_queue list_del
unlink_proc p w =
    if list_in_queue (q_node p) w.kernel.links
    then record w { kernel = record (w.kernel) { links = list_del (q_node p) w.kernel.links } }
    else w
