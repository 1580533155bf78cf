-- ===== src/Snub/Release.antt =====
-- `kfree` of kernel/mm/snub.c at the addresses that the running kernel uses.
use system_n.Base.{
  ℕ, zero, suc, ◌+◌, ◌-◌, ◌*◌, ◌/◌, ◌%◌, ◌^◌, ◌≤◌, ◌<◌, ◌≡◌, refl, false, ◌&&◌, arith, ltb, ◌==◌,
  ◌∙◌,
}
use system_n.Spinlock.{done}
use system_n.Proc.{ulong_mod, page_size}
use system_n.PageTable.{PageAllocator, phys_to_virt, virt_to_phys, va_offset, and_then}
use system_n.Snub.{Snub, to_int, kfree_loop, kfree}

-- A kernel address of a page frame: `PHYS_TO_VIRT(pa)` of a page in a range of less than 2 GB that
-- begins at `base`.
pub record IsFrame (base pa : ℕ) : Type 0 where
  pub from : base ≤ pa
  pub below : pa < base + 2 ^ 31
  pub small : pa < 2 ^ 32

module _ {base pa : ℕ} (f : IsFrame base pa) where
  virt : phys_to_virt pa ≡ pa + va_offset
  virt = omega (arith, f.small)

  offset : (phys_to_virt pa + ulong_mod - base) % ulong_mod ≡ va_offset + (pa - base)
  offset = rw virt (omega (arith, f.from, f.small, f.below))

  page_number :
      to_int ((va_offset + (pa - base)) / page_size) ≡ 2 ^ 64 - 2 ^ 20 + (pa - base) / page_size
  page_number =
      let low : (va_offset + (pa - base)) / page_size % 2 ^ 32
          ≡ 2 ^ 32 - 2 ^ 20 + (pa - base) / page_size =
        omega (arith, f.from, f.below) in
      rw low (ground (arith, f.below))

  page_bytes :
      to_int ((2 ^ 64 - 2 ^ 20 + (pa - base) / page_size) * page_size)
      ≡ (pa - base) / page_size * page_size
  page_bytes =
      let low : (2 ^ 64 - 2 ^ 20 + (pa - base) / page_size) * page_size % 2 ^ 32
          ≡ (pa - base) / page_size * page_size =
        omega (arith, f.from, f.below) in
      rw low (ground (arith, f.from, f.below))

  -- The distance that `kfree` computes from the address to the page that it takes it to lie in is
  -- never below the size of a page.
  distance :
      page_size
      ≤ (phys_to_virt pa + ulong_mod - (base + (pa - base) / page_size * page_size) % ulong_mod)
        % ulong_mod
  distance = rw virt (omega (arith, f.from, f.below, f.small))

kfree_loop-far :
    {S : Type 0} (allocator : PageAllocator S) (left i diff ptr : ℕ) (s : Snub S)
    → page_size ≤ diff
    → kfree_loop allocator left i diff ptr s
      ≡ and_then
          (allocator.free_page (virt_to_phys ptr) s.store)
          (λ store. done (record s { store = store }))
unfolding kfree_loop
kfree_loop-far allocator zero i diff ptr s h = refl
kfree_loop-far allocator (suc left) i diff ptr s h =
    let miss : ltb diff page_size ≡ false = ground arith in
    let stop : ((diff % s.object_size i == 0) && ltb diff page_size) ≡ false =
      ground (arith, miss) in
    rw stop (kfree_loop-far allocator left (suc i) diff ptr s h)

-- kfree of the kernel virtual address of any byte of a page frame in the 2 GB from the allocator's
-- base puts no object on a list, and returns the page to the page allocator.
pub kfree-frees_page :
    {S : Type 0} (allocator : PageAllocator S) (base pa : ℕ) (s : Snub S)
    → IsFrame base pa
    → kfree allocator base (phys_to_virt pa) s
      ≡ and_then (allocator.free_page pa s.store) (λ store. done (record s { store = store }))
unfolding kfree
kfree-frees_page allocator base pa s f =
    let back : virt_to_phys (phys_to_virt pa) ≡ pa = rw (virt f) (omega (arith, f.small)) in
    rw (offset f, page_number f, page_bytes f)
      (kfree_loop-far allocator 9 0 _ (phys_to_virt pa) s (distance f) ∙ rw back)
