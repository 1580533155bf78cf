-- ===== src/Tests/Memory.antt =====
-- kernel/start.c in machine mode, and kernel/mm/pagetable.c on the pages of kernel/mm/mem.c.
use system_n.Base.{ℕ, ◌+◌, ◌*◌, ◌≤◌, ◌<◌, ◌≡◌, refl, Bool, none, some, arith, ◌==◌}
use system_n.Spinlock.{done}
use system_n.Proc.{page_size}
use system_n.Buddy.{Buddy, user_end, layout, alloc_page}
use system_n.Buddy.Regions.{layout-divides}
use system_n.Buddy.Pages.{buddy_pages, Spare, alloc_page-Fresh, buddy_supply}
use system_n.PageTable.{Vm, leaf, map_page, unmap_page}
use system_n.PageTable.Supply.{Fresh}
use system_n.PageTable.Grow.{Tables}
use system_n.PageTable.Update.{Mapping, map_page-Mapping}
use system_n.PageTable.Remove.{Removal, unmap_page-Removal}
use system_n.Snub.{Snub}
use system_n.Boot.Early.{Sections, Memory, mm_init, first_vm}
use system_n.Boot.Mapped.{IsLaidOut}
use system_n.Boot.Init.{alone, first-IsTree, Initialised, mm_init-Initialised}
use system_n.Boot.Start.{Symbols, Registers, Shared}
use system_n.Boot.Harts.{StartsUp, start-StartsUp}
use system_n.Tests.Blocks.{four, four_tile, four_lists, four-IsBuddy, four-IsPlaced}

abbrev taken : ℕ → Bool
taken t = t == 0x8000_0000

-- Of the four pages, one is free.
spare : Spare four taken 1
spare = record {
  tile = four_tile;
  lists = four_lists;
  valid = four-IsBuddy;
  placed = four-IsPlaced;
  aligned = refl;
  low = omega arith;
  marks = λ i z t. absurd (ground (arith, t));
  room = omega arith;
}

alloc_page-Fresh_example : Fresh Spare taken 1 (alloc_page four)
alloc_page-Fresh_example = alloc_page-Fresh four taken 1 spare

abbrev one_table : Vm Buddy
one_table = first_vm 0x8000_0000 (λ x. 7) four

one_table-Tables : Tables (buddy_supply 9) 0 0x8000_0000 one_table (alone 0x8000_0000) taken 1
unfolding first_vm
one_table-Tables = record {
  at_offset = refl;
  tree = first-IsTree 0x8000_0000 (λ x. 7) refl (omega arith);
  held = λ t l h. ground (arith, h);
  pages = spare;
}

-- The allocator has one page, and two tables are missing.
map_page-Mapping_example :
    Mapping
      (buddy_supply 9)
      0
      0x8000_0000
      0x4000
      (leaf 0x8040_1000 22)
      one_table
      (alone 0x8000_0000)
      1
      (map_page (buddy_pages 9) 0x8000_0000 0x4000 0x8040_1000 22 one_table)
map_page-Mapping_example =
    map_page-Mapping (buddy_supply 9) 0 0x8000_0000 0x4000 0x8040_1000 22 1 one_table-Tables

unmap_page-Removal_example :
    Removal
      (buddy_pages 9)
      0x8000_0000
      0x4000
      one_table
      (alone 0x8000_0000)
      (unmap_page (buddy_pages 9) 0x8000_0000 0x4000 one_table)
unfolding first_vm
unmap_page-Removal_example =
    unmap_page-Removal (buddy_pages 9) 0x8000_0000 0x4000 one_table (alone 0x8000_0000)
      (first-IsTree 0x8000_0000 (λ x. 7) refl (omega arith))

abbrev sections : Sections
sections = record {
  text_start = 0x8000_0000;
  text_end = 0x8001_0123;
  rodata_start = 0x8001_1000;
  rodata_end = 0x8001_2000;
  data_start = 0x8001_2000;
  bss_end = 0x8002_0000;
}

sections-IsLaidOut : IsLaidOut sections
sections-IsLaidOut = record {
  text_page = refl;
  rodata_page = refl;
  data_page = refl;
  first = omega arith;
  text_ends = omega arith;
  after_text = omega arith;
  rodata_ends = omega arith;
  after_rodata = omega arith;
  data_ends = omega arith;
  last = omega arith;
}

kernel_fits : 0x8002_0000 + 3 * page_size ≤ user_end
kernel_fits = omega arith

few_pages : (layout 0x8002_0000).count < 1000000
few_pages =
    let (behind, room, aligned, whole) = layout-divides 0x8002_0000 kernel_fits in
    omega (arith, whole)

-- Memory that still holds what the loader left.
abbrev caches : Snub Buddy
caches = record { object_size = λ i. 7; words = λ x. 7; partial = λ i. 7; store = four }

mm_init-Initialised_example :
    (m : Memory) × (mm_init 1000000 9 sections caches ≡ some (done m)) × Initialised 9 sections m
mm_init-Initialised_example =
    mm_init-Initialised 1000000 9 sections caches sections-IsLaidOut few_pages

abbrev symbols : Symbols
symbols = record { cpus = 0x8001_3000; trap_vector = 0x8000_0200; s_mode_main = 0x8000_1000 }

abbrev at_reset : ℕ → Registers
at_reset sp = record {
  satp = 0;
  medeleg = 0;
  mideleg = 0;
  pmpaddr0 = 0;
  pmpcfg0 = 0;
  stvec = 0;
  mstatus = 0xa_0000_1800;
  sie = 0;
  menvcfg = 0;
  mcounteren = 0;
  mepc = 0;
  tp = 0;
  sp = sp;
}

abbrev no_memory : Shared
no_memory = record { id = λ c. 0; memory = none }

start-StartsUp_example :
    StartsUp symbols 1000000 9 sections caches 2
      (at_reset 0x8001_8000)
      (at_reset 0x8001_a000)
      no_memory
start-StartsUp_example =
    start-StartsUp symbols 1000000 9 sections caches 2 (at_reset 0x8001_8000) (at_reset 0x8001_a000)
      no_memory sections-IsLaidOut few_pages (λ e. ground (arith, e)) refl
