-- ===== src/PageTable.antt =====
-- kernel/mm/pagetable.c: three-level page tables (Sv39). Memory is the 8-byte words at the
-- addresses that the kernel uses; the allocator of pages is a parameter.
pub mod Entry
pub mod Mapping
pub mod Tree
pub mod Shape
pub mod Fresh
pub mod Supply
pub mod Grow
pub mod Update
pub mod Moved
pub mod Remove
use Prim.Native.Nat.{bit_and, bit_or}
use system_n.Base.{
  ℕ, zero, suc, ◌+◌, ◌-◌, ◌*◌, ◌/◌, ◌%◌, ◌^◌, ◌≡◌, Bool, true, false, not, ◌&&◌, Option, none, some,
  ltb, leb, ◌==◌, if◌then◌else◌,
}
use system_n.Spinlock.{Run, done, panic}
use system_n.Proc.{ulong_mod, page_size}

-- `VA_OFFSET`, the value of `va_offset` once the kernel runs at its virtual addresses.
abbrev pub va_offset : ℕ
va_offset = 0xffff_ffff_0000_0000

-- `PHYS_TO_VIRT` at the value of the variable `va_offset`.
abbrev pub to_virt : ℕ → ℕ → ℕ
to_virt offset pa = (pa + offset) % ulong_mod

abbrev pub phys_to_virt : ℕ → ℕ
phys_to_virt pa = to_virt va_offset pa

abbrev pub virt_to_phys : ℕ → ℕ
virt_to_phys va = (va + ulong_mod - va_offset) % ulong_mod

-- The pages that can be had, as `alloc_page` and `free_page` of kernel/mm/mem.c give and take them.
pub record PageAllocator (S : Type 0) : Type 0 where
  pub alloc_page : S → Run (Option ℕ × S)
  pub free_page : ℕ → S → Run S

pub record Vm (S : Type 0) : Type 0 where
  pub words : ℕ → ℕ
  pub store : S
  pub offset : ℕ

-- -1, as a `long`
abbrev pub minus_one : ℕ
minus_one = 2 ^ 64 - 1

abbrev pub pte_v : ℕ
pte_v = 1

abbrev pub pte_r : ℕ
pte_r = 2

abbrev pub pte_w : ℕ
pte_w = 4

abbrev pub pte_x : ℕ
pte_x = 8

abbrev pub pte_u : ℕ
pte_u = 16

abbrev pub pte_a : ℕ
pte_a = 64

abbrev pub pte_d : ℕ
pte_d = 128

-- `pte & PTE_V`, as a test
abbrev pub is_valid : ℕ → Bool
is_valid pte = not (bit_and pte pte_v == 0)

-- `PTE2PA` and `PA2PTE`, on `ulong`
abbrev pub pte2pa : ℕ → ℕ
pte2pa pte = pte / 2 ^ 10 * 2 ^ 12 % ulong_mod

abbrev pub pa2pte : ℕ → ℕ
pa2pte pa = pa / 2 ^ 12 * 2 ^ 10

-- `PTE_FLAGS`
abbrev pub pte_flags : ℕ → ℕ
pte_flags pte = bit_and pte 0x3ff

abbrev pub vpn_level : ℕ → ℕ → ℕ
vpn_level va level = va / 2 ^ (12 + 9 * level) % 512

-- `&pagetable[i]`
abbrev pub entry : ℕ → ℕ → ℕ
entry pagetable i = pagetable + 8 * i

abbrev pub write : (ℕ → ℕ) → ℕ → ℕ → ℕ → ℕ
write m a v x = if x == a then v else m x

-- `memset(PHYS_TO_VIRT(addr), 0, PAGE_SIZE)`, by words
abbrev pub clear_at : ℕ → (ℕ → ℕ) → ℕ → ℕ
clear_at page m x = if leb page x && ltb x (page + page_size) then 0 else m x

abbrev pub clear_page : ℕ → (ℕ → ℕ) → ℕ → ℕ
clear_page pa m = clear_at (phys_to_virt pa) m

abbrev pub and_then {ℓ κ} : {A : Type ℓ} {B : Type κ} → Run A → (A → Run B) → Run B
and_then (done a) k = k a
and_then panic k = panic

-- The flags that `map_page` gives a page: `PA2PTE(pa) | perm | PTE_V | PTE_A | PTE_D`.
abbrev pub leaf : ℕ → ℕ → ℕ
leaf pa perm = bit_or (bit_or (bit_or (bit_or (pa2pte pa) perm) pte_v) pte_a) pte_d

module _ {S : Type 0} (allocator : PageAllocator S) where
  -- `alloc_page`, which clears the page.
  unfoldable pub get_page : Vm S → Run (Option ℕ × Vm S)
  get_page vm = and_then (allocator.alloc_page vm.store) λ (got, store). elim got [
    | none ↦ done (none, record vm { store = store })
    | some pa ↦
        done
          (some pa, record vm { words = clear_at (to_virt vm.offset pa) vm.words; store = store })
  ]

  -- The loop of `walk` from `level` down, and the entry of level 0.
  unfoldable pub walk_from : ℕ → ℕ → ℕ → Bool → Vm S → Run (Option ℕ × Vm S)
  walk_from zero pagetable va alloc vm = done (some (entry pagetable (vpn_level va 0)), vm)
  walk_from (suc level) pagetable va alloc vm =
      let pte = entry pagetable (vpn_level va (suc level)) in
      let down = walk_from level (to_virt vm.offset (pte2pa (vm.words pte))) va alloc vm in
      let grow = λ (pa : ℕ) (vm1 : Vm S).
        walk_from level (to_virt vm1.offset pa) va alloc
          (record vm1 { words = write vm1.words pte (bit_or (pa2pte pa) pte_v) }) in
      let fresh : Run (Option ℕ × Vm S) =
        and_then (get_page vm)
          λ (got, vm1). elim got [ none ↦ done (none, vm1) | some pa ↦ grow pa vm1 ] in
      if is_valid (vm.words pte) then down else if alloc then fresh else done (none, vm)

  -- The address of the entry, or NULL.
  unfoldable pub walk : ℕ → ℕ → Bool → Vm S → Run (Option ℕ × Vm S)
  walk pagetable va alloc vm = walk_from 2 pagetable va alloc vm

  unfoldable pub map_page : ℕ → ℕ → ℕ → ℕ → Vm S → Run (ℕ × Vm S)
  map_page pagetable va pa perm vm =
      and_then (walk (to_virt vm.offset pagetable) va true vm) λ (found, vm1). elim found [
        | none ↦ done (minus_one, vm1)
        | some pte ↦ done (
          0,
          if is_valid (vm1.words pte)
              then vm1
              else (record vm1 { words = write vm1.words pte (leaf pa perm) }),
        )
      ]

  unfoldable pub unmap_page : ℕ → ℕ → Vm S → Run (ℕ × Vm S)
  unmap_page pagetable va vm =
      and_then (walk (to_virt vm.offset pagetable) va false vm) λ (found, vm1). elim found [
        | none ↦ done (minus_one, vm1)
        | some pte ↦
            if is_valid (vm1.words pte)
            then (and_then (allocator.free_page (pte2pa (vm1.words pte)) vm1.store)
                λ store. done (0, record vm1 { words = write vm1.words pte 0; store = store }))
            else done (minus_one, vm1)
      ]
