-- ===== src/Boot/Harts.antt =====
-- `start` of kernel/start.c on hart 0 and on another hart.
use Prim.Native.Nat.{max, min, bit_or}
use system_n.Base.{ℕ, ◌-◌, ◌^◌, ◌<◌, ◌≡◌, ◌≢◌, refl, false, none, some, arith, ◌==◌, ◌∙◌, ==_refl}
use system_n.Base.Flags.{bit, bit-bit_or, bit-cleared, bit-bound, bit-flag}
use system_n.Spinlock.{done, clear_bits, sstatus_sie}
use system_n.Proc.{make_satp}
use system_n.Buddy.{Buddy, layout}
use system_n.PageTable.{phys_to_virt}
use system_n.Snub.{Snub}
use system_n.Boot.Early.{Sections, Memory, mm_init}
use system_n.Boot.Mapped.{IsLaidOut}
use system_n.Boot.Init.{Initialised, mm_init-Initialised}
use system_n.Boot.Start.{
  sie_stie, mstatus_mpp_mask, mstatus_mpp_s_mode, Registers, Symbols, Shared, cpu_at,
  enter_supervisor, go_on, start,
}

-- Supervisor mode comes next, at virtual addresses, with its interrupts on, and no other bit of
-- `mstatus` is changed.
pub record Enters (e : Symbols) (hart_id pagetable : ℕ) (r r' : Registers) : Type 0 where
  pub mode : (bit 11 r'.mstatus ≡ 1) × (bit 12 r'.mstatus ≡ 0)
  pub interrupts : bit 1 r'.mstatus ≡ 1
  pub timer : bit 5 r'.sie ≡ 1
  pub rest : (k : ℕ) → k ≢ 1 → k ≢ 11 → k ≢ 12 → bit k r'.mstatus ≡ bit k r.mstatus
  pub next : r'.mepc ≡ phys_to_virt e.s_mode_main
  pub traps : r'.stvec ≡ phys_to_virt e.trap_vector
  pub hart : r'.tp ≡ phys_to_virt (cpu_at e hart_id)
  pub tables : r'.satp ≡ make_satp pagetable

-- A bit of `mstatus` afterwards.
mstatus-bit :
    (k x : ℕ)
    → bit k (bit_or (bit_or (clear_bits x mstatus_mpp_mask) mstatus_mpp_s_mode) sstatus_sie)
      ≡ max
          (max (bit k x - min (bit k x) (bit k mstatus_mpp_mask)) (bit k mstatus_mpp_s_mode))
          (bit k sstatus_sie)
mstatus-bit k x =
    rw
      (
        bit-bit_or k (bit_or (clear_bits x mstatus_mpp_mask) mstatus_mpp_s_mode) sstatus_sie,
        bit-bit_or k (clear_bits x mstatus_mpp_mask) mstatus_mpp_s_mode,
        bit-cleared k x mstatus_mpp_mask,
      )
      refl

-- The bits of the mask that `start` clears.
mask-bit : (k : ℕ) → bit k mstatus_mpp_mask ≡ max (bit k (2 ^ 11)) (bit k (2 ^ 12))
mask-bit k = bit-bit_or k (2 ^ 11) (2 ^ 12)

enter_supervisor-Enters :
    (e : Symbols) (hart_id pagetable : ℕ) (r : Registers)
    → Enters e hart_id pagetable r (enter_supervisor e hart_id pagetable r)
unfolding enter_supervisor
enter_supervisor-Enters e hart_id pagetable r = record {
  mode = (
    omega (arith, mstatus-bit 11 r.mstatus, bit-bound 11 r.mstatus),
    omega (arith, mstatus-bit 12 r.mstatus, bit-bound 12 r.mstatus),
  );
  interrupts = omega (arith, mstatus-bit 1 r.mstatus, bit-bound 1 r.mstatus);
  timer = omega (arith, bit-bit_or 5 r.sie sie_stie, bit-bound 5 r.sie);
  rest = λ k a b c. omega (
    arith,
    mstatus-bit k r.mstatus,
    mask-bit k,
    bit-flag 1 k a,
    bit-flag 11 k b,
    bit-flag 12 k c,
  );
  next = refl;
  traps = refl;
  hart = refl;
  tables = refl;
}

module _ (e : Symbols) (fuel rounds : ℕ) (s : Sections) (snub : Snub Buddy) where
  -- Hart 0 makes the memory, and another hart waits for it; both enter supervisor mode with the
  -- same tables.
  pub record StartsUp (hart_id : ℕ) (r0 r : Registers) (w : Shared) : Type 0 where
    pub memory : Memory
    pub w1 : Shared
    pub w2 : Shared
    pub initialised : Initialised rounds s memory
    pub first :
        start e fuel rounds s snub 0 r0 w
        ≡ some (done (enter_supervisor e 0 memory.kernel_pagetable r0, w1))
    pub first_enters :
        Enters e 0 memory.kernel_pagetable r0 (enter_supervisor e 0 memory.kernel_pagetable r0)
    pub waits : start e fuel rounds s snub hart_id r w ≡ none
    pub other :
        start e fuel rounds s snub hart_id r w1
        ≡ some (done (enter_supervisor e hart_id memory.kernel_pagetable r, w2))
    pub other_enters :
        Enters e hart_id memory.kernel_pagetable r
          (enter_supervisor e hart_id memory.kernel_pagetable r)
    pub ids : (w2.id (cpu_at e 0) ≡ 0) × (w2.id (cpu_at e hart_id) ≡ hart_id)

  start-first :
      (r : Registers) (w : Shared) (m : Memory)
      → mm_init fuel rounds s snub ≡ some (done m)
      → start e fuel rounds s snub 0 r w ≡ some (done (go_on e 0 r w m))
  unfolding start
  start-first r w m i = rw i refl

  start-other :
      (hart_id : ℕ) (r : Registers) (w : Shared)
      → hart_id ≢ 0
      → start e fuel rounds s snub hart_id r w
        ≡ (elim w.memory [ none ↦ none | some m ↦ some (done (go_on e hart_id r w m)) ])
  unfolding start
  start-other hart_id r w n = let f : (hart_id == 0) ≡ false = ground (arith, n) in rw f refl

  -- Under the conditions of mm_init-Initialised, with the memory not made yet, and for any other
  -- hart: start on hart 0 makes the memory and ends; the other hart waits before that and ends
  -- after it. Both then turn to supervisor mode at the virtual address of s_mode_main with that
  -- one table, with interrupts and the timer's interrupt on, the trap vector and the hart's own
  -- cpu_t at virtual addresses, no other bit of mstatus changed, and each cpu_t with its hart's
  -- number.
  pub start-StartsUp :
      (hart_id : ℕ) (r0 r : Registers) (w : Shared)
      → IsLaidOut s
      → (layout s.bss_end).count < fuel
      → hart_id ≢ 0
      → w.memory ≡ none
      → StartsUp hart_id r0 r w
  unfolding enter_supervisor
  start-StartsUp hart_id r0 r w i f n before =
      let (m, runs, made) = mm_init-Initialised fuel rounds s snub i f in
      let w1 : Shared = (go_on e 0 r0 w m).1 in
      let w2 : Shared = (go_on e hart_id r w1 m).1 in
      let apart : (cpu_at e 0 == cpu_at e hart_id) ≡ false = ground (arith, n) in
      record {
        memory = m;
        w1 = w1;
        w2 = w2;
        initialised = made;
        first = start-first r0 w m runs;
        first_enters = enter_supervisor-Enters e 0 m.kernel_pagetable r0;
        waits = start-other hart_id r w n ∙ rw before refl;
        other = start-other hart_id r w1 n;
        other_enters = enter_supervisor-Enters e hart_id m.kernel_pagetable r;
        ids = (rw (apart, ==_refl (cpu_at e 0)) refl, rw (==_refl (cpu_at e hart_id)) refl);
      }
