-- ===== src/Creation/Steps.antt =====
-- `create_proc` of kernel/proc.c, from the page table to the run queue, and `copy_kernel_mappings`.
use Prim.Native.Nat.{bit_or}
use system_n.Base.{
  ℕ, zero, suc, ◌+◌, ◌-◌, ◌/◌, ◌%◌, false, Option, none, some, ltb, ◌==◌, if◌then◌else◌,
}
use system_n.Spinlock.{Run, done, panic}
use system_n.Proc.{ulong_mod, page_size}
use system_n.Str.{memcpy}
use system_n.Buddy.{align_up}
use system_n.PageTable.{
  PageAllocator, Vm, phys_to_virt, virt_to_phys, minus_one, pte_r, pte_w, pte_x, pte_u, is_valid,
  pte2pa, pte_flags, clear_page, get_page, walk, map_page,
}
use system_n.PageTable.Tree.{alloc_pagetable}
use system_n.Snub.{kzalloc}
use system_n.Machine.{returns, stuck, out_of_fuel}
use system_n.Creation.{
  Fixed, Step, change_proc, enqueue, kernel_start_va, kstack_size, modify, new_frame, pure, set_vm,
  sizeof_trap_frame, uart0, user_stack_size, user_stack_top, vm_of, ◌>>=◌, ◌>>◌,
}

module _ {S : Type 0} (allocator : PageAllocator S) where
  -- A page, cleared, or a failure.
  unfoldable pub new_page : (Vm S → Run (Option ℕ × Vm S)) → Step S ℕ
  new_page alloc w = elim (alloc (vm_of w)) [
    | panic ↦ stuck
    | done (got, vm) ↦ elim got [
      | none ↦ returns (none, set_vm vm w)
      | some pa ↦ returns (some pa, record (set_vm vm w) { bytes = clear_page pa w.bytes })
    ]
  ]

  unfoldable pub new_object : ℕ → Step S ℕ
  unfolding kzalloc
  new_object size w = elim (kzalloc allocator size w.snub) [
    | panic ↦ stuck
    | done (ptr, snub) ↦ returns (if ptr == 0 then none else some ptr, record w { snub = snub })
  ]

  -- `if (map_page(...) == -1) goto fail1`
  unfoldable pub map_or_fail : ℕ → ℕ → ℕ → ℕ → Step S (Unit {0})
  unfolding map_page
  map_or_fail pagetable va pa perm w = elim (map_page allocator pagetable va pa perm (vm_of w)) [
    | panic ↦ stuck
    | done (code, vm) ↦ returns (if code == minus_one then none else some tt, set_vm vm w)
  ]

  -- The loop that loads the program, from `va` and `src` on; the address that it ends at. Its
  -- fuel is the pages it may take.
  unfoldable pub load_binary : ℕ → ℕ → ℕ → ℕ → ℕ → Step S ℕ
  unfolding new_page map_or_fail
  load_binary zero pagetable va src remaining = if remaining == 0 then pure va else λ w. out_of_fuel
  load_binary (suc fuel) pagetable va src remaining =
      let to_copy = if ltb page_size remaining then page_size else remaining in
      let rest =
        load_binary fuel pagetable ((va + page_size) % ulong_mod) ((src + to_copy) % ulong_mod)
          (remaining - to_copy) in
      let copy =
        λ (pa : ℕ). modify λ w. record w { bytes = memcpy (phys_to_virt pa) src to_copy w.bytes } in
      let load = new_page (get_page allocator) >>= λ pa.
      copy pa >> map_or_fail pagetable va pa (bit_or (bit_or pte_r pte_x) pte_u) >> rest in
      if remaining == 0 then pure va else load

  -- One page of the kernel. A missing entry, and a mapping that fails, are passed over.
  unfoldable pub copy_mapping : ℕ → ℕ → ℕ → Vm S → Run (Vm S)
  unfolding walk map_page
  copy_mapping va dst src vm = elim (walk allocator src va false vm) [
    | panic ↦ panic
    | done (found, vm1) ↦ elim found [
      | none ↦ done vm1
      | some src_pte ↦
          (let pte = vm1.words src_pte in
            let copied : Run (Vm S) =
              elim (map_page allocator dst va (pte2pa pte) (pte_flags pte) vm1) [
                | panic ↦ panic
                | done (code, vm2) ↦ done vm2
              ] in
            if is_valid pte then copied else done vm1)
    ]
  ]

  -- The loop over the kernel's pages from `va` on, `left` of them.
  unfoldable pub copy_pages : ℕ → ℕ → ℕ → ℕ → Vm S → Run (Vm S)
  unfolding copy_mapping
  copy_pages zero va dst src vm = done vm
  copy_pages (suc left) va dst src vm = elim (copy_mapping va dst src vm) [
    | panic ↦ panic
    | done vm1 ↦ copy_pages left (va + page_size) dst src vm1
  ]

  unfoldable pub copy_kernel_mappings : ℕ → ℕ → ℕ → Step S (Unit {0})
  unfolding copy_pages
  copy_kernel_mappings kernel_end dst src w =
      elim (copy_pages ((kernel_end - kernel_start_va + page_size - 1) / page_size) kernel_start_va
        dst src (vm_of w)) [ panic ↦ stuck | done vm ↦ returns (some tt, set_vm vm w) ]

  -- The hart halts if the console cannot be mapped.
  unfoldable pub map_uart : ℕ → Step S (Unit {0})
  unfolding map_page
  map_uart pagetable w =
      elim (map_page allocator pagetable uart0 (virt_to_phys uart0) (bit_or pte_r pte_w)
        (vm_of w)) [
          | panic ↦ stuck
          | done (code, vm) ↦ if code == minus_one then stuck else returns (some tt, set_vm vm w)
        ]

  -- `create_proc` from the page table to the kernel stack.
  unfoldable pub make_kstack : ℕ → Step S ℕ
  unfolding new_page new_object map_or_fail alloc_pagetable
  make_kstack p = new_page (alloc_pagetable allocator) >>= λ pagetable.
      change_proc p (λ r. record r { pagetable = pagetable })
      >> (new_object kstack_size >>= λ kstack.
          change_proc p (λ r. record r { kstack = kstack })
          >> map_or_fail pagetable p (virt_to_phys p) (bit_or pte_r pte_w)
          >> map_or_fail pagetable kstack (virt_to_phys kstack) (bit_or pte_r pte_w)
          >> (let tf = kstack + kstack_size - sizeof_trap_frame in
              modify (λ w. record w { frames = λ q. if q == tf then new_frame else w.frames q })
              >> change_proc p (λ r. record r { tf = tf; ctx = record (r.ctx) { sp = tf } })
              >> pure pagetable))

  -- The program, the heap behind it and the user stack.
  unfoldable pub make_user : ℕ → ℕ → ℕ → ℕ → ℕ → Step S (Unit {0})
  unfolding load_binary new_page map_or_fail align_up
  make_user fuel p pagetable binary binary_size =
      load_binary fuel pagetable 0 binary binary_size >>= λ va.
      change_proc p (λ r. record r { heap_start = align_up va; heap_end = align_up va })
      >> (new_page (get_page allocator) >>= λ ustack.
          change_proc p (λ r. record r { ustack = ustack })
          >> map_or_fail pagetable (user_stack_top - user_stack_size) ustack
              (bit_or (bit_or pte_r pte_w) pte_u))

  -- `create_proc` behind the first allocation.
  unfoldable pub set_up : Fixed → ℕ → ℕ → ℕ → ℕ → Step S (Unit {0})
  unfolding make_kstack make_user copy_kernel_mappings map_uart enqueue
  set_up fixed fuel p binary binary_size = make_kstack p >>= λ pagetable.
      make_user fuel p pagetable binary binary_size
      >> copy_kernel_mappings fixed.kernel_end pagetable (phys_to_virt fixed.kernel_pagetable)
      >> map_uart pagetable
      >> modify (enqueue p)
