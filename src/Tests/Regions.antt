-- ===== src/Tests/Regions.antt =====
-- Runs of the code about the memory behind the kernel.
use system_n.Base.{◌+◌, ◌*◌, ◌≡◌, refl, none, some, false, true, arith, ltb}
use system_n.Buddy.{user_end, sizeof_page, Layout, layout, Buddy, free_pages}
use system_n.Buddy.Refusal.{free_pages-virtual}
use system_n.Spinlock.{panic}
use system_n.PageTable.{phys_to_virt}

-- With a kernel of 1.5 MB the entry of the last page lies in the first page.
array-overlaps :
    ltb
      (layout 0x8018_0000).base
      ((layout 0x8018_0000).page_array + (layout 0x8018_0000).count * sizeof_page)
    ≡ true
unfolding layout system_n.Buddy.early_alloc system_n.Buddy.align_up
array-overlaps = refl

-- Sixteen pages at 8 MB, none of them free.
abbrev sixteen : Buddy
sixteen = record {
  buddy_base_phys = 0x8080_0000;
  num_pages = 16;
  pages = λ _. record { order = 0; is_free = false; next = none };
  free_lists = λ _. none;
}

free_pages-virtual_example : free_pages 17 (phys_to_virt 0x8080_1000) sixteen ≡ some panic
free_pages-virtual_example =
    free_pages-virtual 17 0x8080_1000 sixteen (omega arith) (omega arith) (omega arith)
