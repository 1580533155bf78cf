-- ===== src/Proc.antt =====
-- kernel/proc.h: processes, harts and trap frames, and the state of one hart's kernel that the
-- scheduler, the timer and the system calls share. A pointer is the address of its object: a
-- `proc_t *` that of a process, a queue node that of the `q_node` inside it.
use Prim.Native.Nat.{bit_and, bit_or}
use system_n.Base.{ℕ, ◌+◌, ◌-◌, ◌*◌, ◌/◌, ◌^◌, ◌≡◌, arith, ◌==◌, if◌then◌else◌}
use system_n.Queue.{Links}

pub record TrapFrame : Type 0 where
  pub regs : ℕ → ℕ
  pub sepc : ℕ
  pub sstatus : ℕ
  pub scause : ℕ
  pub stval : ℕ

pub record Context : Type 0 where
  pub ra : ℕ
  pub sp : ℕ
  pub s : ℕ → ℕ

pub data ProcState : Type 0 where
  unused sleeping runnable running zombie : ProcState

-- `proc_t`, but for its `q_node`, which stands in `Links`.
pub record Proc : Type 0 where
  pub pid : ℕ
  pub state : ProcState
  pub is_idle : ℕ
  pub bound_cpu : ℕ
  pub sleep_until : ℕ
  pub tf : ℕ
  pub ctx : Context
  pub pagetable : ℕ
  pub heap_start : ℕ
  pub heap_end : ℕ
  pub kstack : ℕ
  pub ustack : ℕ

-- `cpu_t`, but for its two list heads, which stand in `Links`.
pub record Cpu : Type 0 where
  pub id : ℕ
  pub lock_depth : ℕ
  pub sstatus : ℕ
  pub needs_sched : ℕ
  pub proc : ℕ

abbrev pub ulong_mod : ℕ
ulong_mod = 2 ^ 64

abbrev pub page_size : ℕ
page_size = 4096

-- Offsets in the structs, as the RISC-V ABI for 64 bits lays them out.
abbrev pub q_node_offset : ℕ
q_node_offset = 144

abbrev pub sizeof_proc : ℕ
sizeof_proc = 200

-- `&p->q_node`, and `container_of(node, proc_t, q_node)`
abbrev pub q_node : ℕ → ℕ
q_node p = p + q_node_offset

abbrev pub container_of : ℕ → ℕ
container_of node = node - q_node_offset

pub container_of-q_node : (p : ℕ) → container_of (q_node p) ≡ p
container_of-q_node p = omega arith

-- `&c->run_queue` and `&c->sleep_queue`
abbrev pub run_queue : ℕ → ℕ
run_queue c = c + 32

abbrev pub sleep_queue : ℕ → ℕ
sleep_queue c = c + 48

-- `SATP_MODE_SV39 | ((pgtbl >> PAGE_SHIFT) & 0xFFFFFFFFFFF)`
unfoldable pub make_satp : ℕ → ℕ
make_satp pgtbl = bit_or (8 * 2 ^ 60) (bit_and (pgtbl / page_size) (2 ^ 44 - 1))

-- What the linker chooses: addresses of code and of statically allocated objects.
pub record Image : Type 0 where
  pub idle_procs : ℕ
  pub idle_loop : ℕ
  pub trap_vector : ℕ
  pub idle_trap_vector : ℕ
  pub kernel_pagetable : ℕ

-- The kernel as one hart sees it: `tp` is its `cpu_t *`, `satp`, `stvec`, `sscratch` and `stimecmp`
-- its registers.
pub record Kernel : Type 0 where
  pub tp : ℕ
  pub cpu : Cpu
  pub proc : ℕ → Proc
  pub links : Links
  pub satp : ℕ
  pub stvec : ℕ
  pub sscratch : ℕ
  pub stimecmp : ℕ

-- A write to one process.
abbrev pub put_proc : ℕ → Proc → (ℕ → Proc) → ℕ → Proc
put_proc p r f q = if q == p then r else f q

-- `p->state = s`
abbrev pub set_state : ℕ → ProcState → Kernel → Kernel
set_state p s k = record k { proc = put_proc p (record (k.proc p) { state = s }) k.proc }

-- `idle_procs[id]`
abbrev pub idle_proc : Image → ℕ → ℕ
idle_proc image id = image.idle_procs + id * sizeof_proc
