-- ===== src/Boot/Early.antt =====
-- kernel/start.c in machine mode: `setup_kernel_pagetable`, `mm_init` and `start`.
use Prim.Native.Nat.{bit_or}
use system_n.Base.{ℕ, zero, suc, ◌+◌, ◌-◌, ◌/◌, Option, none, some, ◌==◌, if◌then◌else◌}
use system_n.Spinlock.{Run, done, panic}
use system_n.Proc.{page_size, make_satp}
use system_n.Buddy.{Buddy, layout, buddy_allocator_init}
use system_n.Buddy.Pages.{buddy_pages}
use system_n.PageTable.{
  PageAllocator, Vm, va_offset, minus_one, pte_r, pte_w, pte_x, phys_to_virt, virt_to_phys,
  clear_at, map_page, and_then,
}
use system_n.Snub.{Snub, snub_init}
use system_n.Creation.{uart0}

-- The symbols of the linker that say where the kernel lies.
pub record Sections : Type 0 where
  pub text_start : ℕ
  pub text_end : ℕ
  pub rodata_start : ℕ
  pub rodata_end : ℕ
  pub data_start : ℕ
  pub bss_end : ℕ

-- `KERNEL_END`
abbrev pub kernel_end : ℕ
kernel_end = 0x8080_0000

-- The rounds of a loop from `start` to `end` by pages.
abbrev pub pages_between : ℕ → ℕ → ℕ
pages_between start end = (end - start + page_size - 1) / page_size

module _ {S : Type 0} (allocator : PageAllocator S) where
  -- A loop that maps `left` pages from `pa` on; the hart halts if one cannot be mapped.
  unfoldable pub map_range : ℕ → ℕ → ℕ → ℕ → Vm S → Run (Vm S)
  unfolding map_page
  map_range zero pa pagetable perm vm = done vm
  map_range (suc left) pa pagetable perm vm =
      and_then (map_page allocator pagetable (phys_to_virt pa) pa perm vm) λ (code, vm1).
        let rest = map_range left (pa + page_size) pagetable perm vm1 in
        if code == minus_one then panic else rest

  unfoldable pub setup_kernel_pagetable : Sections → ℕ → Vm S → Run (Vm S)
  unfolding map_range
  setup_kernel_pagetable s pagetable vm =
      and_then
        (map_range (pages_between s.text_start s.text_end) s.text_start pagetable
          (bit_or pte_r pte_x) vm)
        λ vm1.
          and_then
            (map_range (pages_between s.rodata_start s.rodata_end) s.rodata_start pagetable pte_r
              vm1)
            λ vm2.
              and_then
                (map_range (pages_between s.data_start kernel_end) s.data_start pagetable
                  (bit_or pte_r pte_w) vm2)
                λ vm3.
                  and_then
                    (map_page allocator pagetable uart0 (virt_to_phys uart0) (bit_or pte_r pte_w)
                      vm3)
                    λ (code, vm4). if code == minus_one then panic else done vm4

-- What `mm_init` leaves: the address of the kernel's table, the register `satp`, the caches with
-- memory as the kernel addresses it from then on, and `va_offset`.
pub record Memory : Type 0 where
  pub kernel_pagetable : ℕ
  pub satp : ℕ
  pub snub : Snub Buddy
  pub offset : ℕ

-- The memory that is mapped, with the kernel's table cleared. `va_offset` is still 0.
unfoldable pub first_vm : ℕ → (ℕ → ℕ) → Buddy → Vm Buddy
first_vm pagetable words b = record { words = clear_at pagetable words; store = b; offset = 0 }

-- The end of `mm_init`.
unfoldable pub switch_over : ℕ → Snub Buddy → Vm Buddy → Memory
unfolding snub_init
switch_over pagetable snub vm = record {
  kernel_pagetable = pagetable;
  satp = make_satp pagetable;
  snub = snub_init (record snub { words = λ x. vm.words (virt_to_phys x); store = vm.store });
  offset = va_offset;
}

-- `fuel` is that of the filling of the free lists, `rounds` that of `free_page`, which is not called.
unfoldable pub mm_init : ℕ → ℕ → Sections → Snub Buddy → Option (Run Memory)
unfolding buddy_allocator_init first_vm setup_kernel_pagetable switch_over layout
mm_init fuel rounds s snub =
    let pagetable = (layout s.bss_end).kernel_pagetable in
    elim (buddy_allocator_init fuel s.bss_end) [
      | none ↦ none
      | some init ↦ some (
          and_then init λ b.
            and_then
              (setup_kernel_pagetable (buddy_pages rounds) s pagetable
                (first_vm pagetable snub.words b))
              λ vm. done (switch_over pagetable snub vm))
    ]
