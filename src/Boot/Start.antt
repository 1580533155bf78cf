-- ===== src/Boot/Start.antt =====
-- `start` of kernel/start.c, up to its `mret`.
use Prim.Native.Nat.{bit_or}
use system_n.Base.{ℕ, ◌+◌, ◌-◌, ◌*◌, ◌^◌, Option, none, some, ◌==◌, if◌then◌else◌}
use system_n.Spinlock.{Run, done, panic, clear_bits, sstatus_sie}
use system_n.Proc.{ulong_mod, make_satp}
use system_n.Buddy.{Buddy}
use system_n.PageTable.{phys_to_virt}
use system_n.Snub.{Snub}
use system_n.Boot.Early.{Sections, Memory, mm_init}

abbrev pub sie_stie : ℕ
sie_stie = 2 ^ 5

abbrev pub menvcfg_fdt : ℕ
menvcfg_fdt = 2 ^ 63

abbrev pub mcounteren_time : ℕ
mcounteren_time = 2

abbrev pub mstatus_mpp_mask : ℕ
mstatus_mpp_mask = 3 * 2 ^ 11

abbrev pub mstatus_mpp_s_mode : ℕ
mstatus_mpp_s_mode = 2 ^ 11

-- The registers that `start` writes. `sstatus` is a view of `mstatus`.
pub record Registers : Type 0 where
  pub satp : ℕ
  pub medeleg : ℕ
  pub mideleg : ℕ
  pub pmpaddr0 : ℕ
  pub pmpcfg0 : ℕ
  pub stvec : ℕ
  pub mstatus : ℕ
  pub sie : ℕ
  pub menvcfg : ℕ
  pub mcounteren : ℕ
  pub mepc : ℕ
  pub tp : ℕ
  pub sp : ℕ

-- What the linker chooses: physical addresses.
pub record Symbols : Type 0 where
  pub cpus : ℕ
  pub trap_vector : ℕ
  pub s_mode_main : ℕ

-- The harts' memory: the word `id` of each `cpu_t`, and what `mm_init` has left, if it is done
-- (`allocator_ready`).
pub record Shared : Type 0 where
  pub id : ℕ → ℕ
  pub memory : Option Memory

abbrev pub sizeof_cpu : ℕ
sizeof_cpu = 64

-- `&cpus[hart_id]`
abbrev pub cpu_at : Symbols → ℕ → ℕ
cpu_at e hart_id = e.cpus + hart_id * sizeof_cpu

-- From the delegation of traps to `mret`.
unfoldable pub enter_supervisor : Symbols → ℕ → ℕ → Registers → Registers
enter_supervisor e hart_id pagetable r = record r {
  satp = make_satp pagetable;
  medeleg = 0xffff;
  mideleg = 0xffff;
  pmpaddr0 = ulong_mod - 1;
  pmpcfg0 = 0x0f;
  stvec = phys_to_virt e.trap_vector;
  mstatus = bit_or (bit_or (clear_bits r.mstatus mstatus_mpp_mask) mstatus_mpp_s_mode) sstatus_sie;
  sie = bit_or r.sie sie_stie;
  menvcfg = bit_or r.menvcfg menvcfg_fdt;
  mcounteren = bit_or r.mcounteren mcounteren_time;
  mepc = phys_to_virt e.s_mode_main;
  tp = phys_to_virt (cpu_at e hart_id);
  sp = phys_to_virt r.sp;
}

-- The end of `start`, with the memory.
abbrev pub go_on : Symbols → ℕ → Registers → Shared → Memory → Registers × Shared
go_on e hart_id r w m = (
  enter_supervisor e hart_id m.kernel_pagetable r,
  record w { id = λ c. if c == cpu_at e hart_id then hart_id else w.id c; memory = some m },
)

-- `none`: out of fuel, or a hart that waits for hart 0.
unfoldable pub start :
    Symbols
    → ℕ
    → ℕ
    → Sections
    → Snub Buddy
    → ℕ
    → Registers
    → Shared
    → Option (Run (Registers × Shared))
unfolding mm_init enter_supervisor
start e fuel rounds s snub hart_id r w =
    let first : Option (Run (Registers × Shared)) = elim (mm_init fuel rounds s snub) [
      | none ↦ none
      | some panic ↦ some panic
      | some (done m) ↦ some (done (go_on e hart_id r w m))
    ] in
    let other : Option (Run (Registers × Shared)) = elim w.memory [
      | none ↦ none
      | some m ↦ some (done (go_on e hart_id r w m))
    ] in
    if hart_id == 0 then first else other
