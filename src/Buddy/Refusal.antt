-- ===== src/Buddy/Refusal.antt =====
-- `free_pages` of kernel/mm/mem.c: what it refuses.
use system_n.Base.{ℕ, ◌+◌, ◌-◌, ◌/◌, ◌%◌, ◌^◌, ◌≤◌, ◌<◌, ◌≡◌, true, false, some, arith, leb, ◌==◌}
use system_n.Spinlock.{panic}
use system_n.Proc.{ulong_mod, page_size}
use system_n.PageTable.{phys_to_virt}
use system_n.Buddy.{Buddy, get_page_struct, free_pages}

-- The index of an address lies outside the page array.
get_page_struct-beyond :
    (addr : ℕ) (b : Buddy)
    → b.num_pages ≤ (addr + ulong_mod - b.buddy_base_phys) % ulong_mod / page_size
    → get_page_struct addr b ≡ panic
unfolding get_page_struct
get_page_struct-beyond addr b h =
    let far : leb b.num_pages ((addr + ulong_mod - b.buddy_base_phys) % ulong_mod / page_size)
        ≡ true =
      ground arith in
    rw far

-- free_pages of the kernel virtual address of physical memory below 4 GB halts the hart, where the
-- allocator's base lies below 4 GB and it has less than 2^32 pages.
pub free_pages-virtual :
    (fuel pa : ℕ) (b : Buddy)
    → pa < 2 ^ 32
    → b.buddy_base_phys < 2 ^ 32
    → b.num_pages < 2 ^ 32
    → free_pages fuel (phys_to_virt pa) b ≡ some panic
unfolding free_pages
free_pages-virtual fuel pa b h l n =
    let there : (phys_to_virt pa == 0) ≡ false = ground arith in
    rw (there, get_page_struct-beyond (phys_to_virt pa) b (omega arith))
