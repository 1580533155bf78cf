-- ===== src/PageTable/Tree.antt =====
-- kernel/mm/pagetable.c: whole page tables, `alloc_pagetable` and `free_pagetable`.
use Prim.Native.Nat.{bit_and, bit_or}
use system_n.Base.{ℕ, zero, suc, Bool, ◌&&◌, Option, ◌==◌, if◌then◌else◌}
use system_n.Spinlock.{Run, done, panic}
use system_n.Machine.{Outcome, returns, stuck, out_of_fuel}
use system_n.PageTable.{
  PageAllocator, Vm, to_virt, entry, pte2pa, is_valid, pte_r, pte_w, pte_x, get_page,
}

abbrev pub pte_count : ℕ
pte_count = 512

-- An entry that stands for a further table.
abbrev pub is_table : ℕ → Bool
is_table pte = is_valid pte && (bit_and pte (bit_or (bit_or pte_r pte_w) pte_x) == 0)

abbrev and_then : {A B : Type 0} → Outcome A → (A → Outcome B) → Outcome B
and_then (returns a) k = k a
and_then stuck k = stuck
and_then out_of_fuel k = out_of_fuel

abbrev ends : {A : Type 0} → Run A → Outcome A
ends (done a) = returns a
ends panic = stuck

module _ {S : Type 0} (allocator : PageAllocator S) where
  unfoldable pub alloc_pagetable : Vm S → Run (Option ℕ × Vm S)
  unfolding get_page
  alloc_pagetable vm = get_page allocator vm

  -- The loop over the entries from `i` on, `left` of them, with the call for a further table.
  unfoldable pub free_tables : (ℕ → Vm S → Outcome (Vm S)) → ℕ → ℕ → ℕ → Vm S → Outcome (Vm S)
  free_tables free zero i pagetable vm = returns vm
  free_tables free (suc left) i pagetable vm =
      let pte = vm.words (entry pagetable i) in
      let child = free (pte2pa pte) vm in
      and_then (if is_table pte then child else returns vm)
        λ vm1. free_tables free left (suc i) pagetable vm1

  -- The fuel is the depth of the tables.
  unfoldable pub free_pagetable : ℕ → ℕ → Vm S → Outcome (Vm S)
  unfolding free_tables
  free_pagetable zero pagetable vm = out_of_fuel
  free_pagetable (suc fuel) pagetable vm =
      let table = to_virt vm.offset pagetable in
      and_then (free_tables (free_pagetable fuel) pte_count 0 table vm) λ vm1.
        and_then (ends (allocator.free_page table vm1.store))
          λ store. returns (record vm1 { store = store })
