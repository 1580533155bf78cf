-- ===== src/Tests/Blocks.antt =====
-- The buddy allocator of kernel/mm/mem.c at a memory of four pages.
use system_n.Base.{
  ℕ, ◌+◌, ◌*◌, ◌≤◌, ◌<◌, ◌≡◌, refl, true, false, none, some, List, [], ◌∷◌, arith, ◌==◌,
  if◌then◌else◌, Bool-cases, inl, inr,
}
use system_n.Spinlock.{done, panic}
use system_n.Proc.{page_size}
use system_n.Buddy.Regions.{layout-divides}
use system_n.Buddy.Populate.{Ready, buddy_allocator_init-Ready}
use system_n.Buddy.{user_end, layout, buddy_allocator_init, Page, Buddy, alloc_pages, free_pages}
use system_n.Buddy.Tiling.{Block, end_of, in_range, IsTiling}
use system_n.Queue.Ring.{Distinct}
use system_n.Buddy.State.{IsList, IsBuddy}
use system_n.Buddy.Allocate.{Answer, alloc_pages-Answer}
use system_n.Buddy.Address.{IsPlaced, addr_of}
use system_n.Buddy.Free.{Release, free_pages-Release}

-- Page 0 is in use, page 1 is free, and pages 2 and 3 are a block in use.
abbrev pub four_tile : ℕ → Block
four_tile x =
    if x == 0
    then record { head = 0; order = 0; used = true }
    else if x == 1
    then record { head = 1; order = 0; used = false }
    else record { head = 2; order = 1; used = true }

abbrev four_pages : ℕ → Page
four_pages x =
    if x == 1
    then record { order = 0; is_free = true; next = none }
    else record { order = (if x == 2 then 1 else 0); is_free = false; next = none }

abbrev pub four : Buddy
four = record {
  buddy_base_phys = 0x8040_0000;
  num_pages = 4;
  pages = four_pages;
  free_lists = λ o. if o == 0 then some 1 else none;
}

abbrev pub four_lists : ℕ → List ℕ
four_lists o = if o == 0 then 1 ∷ [] else []

whole :
    (x y : ℕ)
    → in_range (four_tile x).head (end_of (four_tile x)) y ≡ true
    → four_tile y ≡ four_tile x
whole x y c = elim (Bool-cases (x == 0)) [
  | inl a ↦ ground (arith, a, c)
  | inr a ↦ elim (Bool-cases (x == 1)) [
    | inl d ↦ ground (arith, a, d, c)
    | inr d ↦ ground (arith, a, d, c)
  ]
]

chains : (o : ℕ) → IsList four_pages (four.free_lists o) (four_lists o)
chains o = elim (Bool-cases (o == 0)) [ inl a ↦ rw a (refl, refl) | inr a ↦ rw a refl ]

distinct : (o : ℕ) → Distinct (four_lists o)
distinct o = elim (Bool-cases (o == 0)) [ inl a ↦ rw a (refl, tt) | inr a ↦ rw a tt ]

four-IsTiling : IsTiling 4 four_tile
four-IsTiling = record {
  from = λ x l. ground arith;
  upto = λ x l. ground arith;
  inside = λ x l. ground arith;
  small = λ x l. ground arith;
  whole = λ x y l c. whole x y c;
}

pub four-IsBuddy : IsBuddy four four_tile four_lists []
four-IsBuddy = record {
  tiling = four-IsTiling;
  flags = λ x l h m. ground (arith, h);
  orders = λ x l h m. ground (arith, h);
  in_hand = λ x m. absurd (ground (arith, m));
  hand_order = λ x m f. absurd (ground (arith, m));
  listed = λ o x z m. ground (arith, m);
  complete = λ x l h f. ground (arith, f);
  stale = λ x l f n. absurd (ground (arith, f, n));
  chains = λ o z. chains o;
  distinct = λ o z. distinct o;
}

-- The buddy of the last page of three would be the fourth one.
three_halts :
    free_pages 3 (addr_of four 2) (record four {
      num_pages = 3;
      pages = λ x. record { order = 0; is_free = false; next = none };
    })
    ≡ some panic
unfolding free_pages
three_halts = refl

pub four-IsPlaced : IsPlaced four
four-IsPlaced = record { not_null = omega arith; below = omega arith }

alloc_pages-Answer_example : Answer four four_tile 0 (alloc_pages 0 four)
alloc_pages-Answer_example = alloc_pages-Answer four-IsBuddy 0

free_pages-Release_example : Release four four_tile 0 0 (free_pages 2 (addr_of four 0) four)
free_pages-Release_example =
    free_pages-Release 2 0 0 four-IsPlaced four-IsBuddy (omega arith) refl (λ q z. ground arith)

kernel_fits : 0x8040_0000 + 3 * page_size ≤ user_end
kernel_fits = omega arith

few_pages : (layout 0x8040_0000).count < 1000000
few_pages =
    let (behind, room, aligned, whole) = layout-divides 0x8040_0000 kernel_fits in
    omega (arith, whole)

buddy_allocator_init-Ready_example :
    (after : Buddy) × (buddy_allocator_init 1000000 0x8040_0000 ≡ some (done after))
    × Ready 0x8040_0000 after
buddy_allocator_init-Ready_example =
    buddy_allocator_init-Ready 1000000 0x8040_0000 kernel_fits few_pages
