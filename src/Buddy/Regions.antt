-- ===== src/Buddy/Regions.antt =====
-- `buddy_allocator_init` of kernel/mm/mem.c: how it divides the memory behind the kernel.
use system_n.Base.{ℕ, ◌+◌, ◌-◌, ◌*◌, ◌/◌, ◌%◌, ◌^◌, ◌≤◌, ◌<◌, ◌≡◌, refl, false, arith, ◌==◌, ◌∙◌}
use system_n.Base.Bits.{bit_and_4095}
use system_n.Proc.{ulong_mod, page_size}
use system_n.Buddy.{user_end, sizeof_page, align_up, layout}

pub align_up-ceil : (x : ℕ) → x < 2 ^ 63 → align_up x ≡ (x + 4095) / 4096 * 4096
unfolding align_up
align_up-ceil x h =
    let e : (x + 4096 - 1) % ulong_mod ≡ x + 4095 = omega arith in
    rw e (omega (arith, bit_and_4095 (x + 4095)))

-- What the layout is, in terms of the first page behind the kernel's page table.
abbrev first_page : ℕ → ℕ
first_page kernel_end = (kernel_end + 4095) / 4096 * 4096 + 4096

abbrev estimated : ℕ → ℕ
estimated kernel_end = (user_end - first_page kernel_end) / 4112

abbrev start_of_pages : ℕ → ℕ
start_of_pages kernel_end = first_page kernel_end + (estimated kernel_end * 16 + 4095) / 4096 * 4096

layout-parts :
    (kernel_end : ℕ)
    → kernel_end + 3 * page_size ≤ user_end
    → layout kernel_end ≡ record {
      kernel_pagetable = (kernel_end + 4095) / 4096 * 4096;
      page_array = first_page kernel_end;
      base = start_of_pages kernel_end;
      count = (user_end - start_of_pages kernel_end) / page_size;
    }
unfolding layout
layout-parts kernel_end h =
    let table = (kernel_end + 4095) / 4096 * 4096 in
    let b1 = first_page kernel_end in
    let est = estimated kernel_end in
    let b2 = start_of_pages kernel_end in
    let one : align_up 4096 ≡ 4096 = align_up-ceil 4096 (omega arith) in
    let e1 : (table + 4096) % ulong_mod ≡ b1 = omega arith in
    let there : (b1 == 0) ≡ false = ground arith in
    let e2 : (user_end + ulong_mod - b1) % ulong_mod / 4112 ≡ est = omega arith in
    let e3 : (b1 + (est * 16 + 4095) / 4096 * 4096) % ulong_mod ≡ b2 = omega arith in
    let e4 : align_up b2 ≡ b2 = align_up-ceil b2 (omega arith) ∙ omega arith in
    let e5 : (user_end + ulong_mod - b2) % ulong_mod / 4096 ≡ (user_end - b2) / 4096 =
      omega arith in
    rw
      (
        align_up-ceil kernel_end (omega arith),
        one,
        e1,
        there,
        e2,
        align_up-ceil (est * 16) (omega arith),
        e3,
        e4,
        e5,
      )
      refl

-- If at least three pages lie between the end of the kernel and the end of user memory,
-- buddy_allocator_init puts the page array right behind the kernel's page table, lets the pages
-- begin at a multiple of their size and reach to the end of user memory exactly, and gives the
-- array room for the entries of all pages but at most one.
pub layout-divides :
    (kernel_end : ℕ)
    → kernel_end + 3 * page_size ≤ user_end
    → ((layout kernel_end).kernel_pagetable + page_size ≡ (layout kernel_end).page_array)
      × ((layout kernel_end).page_array + (layout kernel_end).count * sizeof_page
          ≤ (layout kernel_end).base + sizeof_page)
      × ((layout kernel_end).base % page_size ≡ 0)
      × ((layout kernel_end).base + (layout kernel_end).count * page_size ≡ user_end)
layout-divides kernel_end h =
    rw (layout-parts kernel_end h) (omega arith, omega arith, omega arith, omega arith)

-- A kernel that ends in its first 8 MB leaves this many pages.
pub layout-count :
    (kernel_end : ℕ)
    → kernel_end ≤ 0x8080_0000
    → 0x8000_0000 ≤ kernel_end
    → (20000 ≤ (layout kernel_end).count)
      × ((layout kernel_end).kernel_pagetable % page_size ≡ 0)
      × ((layout kernel_end).kernel_pagetable < 2 ^ 32)
      × ((layout kernel_end).kernel_pagetable < (layout kernel_end).base)
layout-count kernel_end h l =
    rw (layout-parts kernel_end (omega (arith, h)))
      (omega (arith, h, l), omega arith, omega (arith, h), omega arith)
