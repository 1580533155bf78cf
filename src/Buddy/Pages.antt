-- ===== src/Buddy/Pages.antt =====
-- kernel/mm/mem.c as the allocator of pages that the page tables take: what it can be relied on for.
use system_n.Base.{
  ℕ, zero, suc, ◌+◌, ◌-◌, ◌*◌, ◌%◌, ◌^◌, ◌≤◌, ◌<◌, ◌≡◌, ◌≢◌, refl, Bool, true, false, inl, inr,
  none, some, List, [], arith, ◌==◌, if◌then◌else◌, ap, ◌∙◌, Bool-cases, ==_iff,
}
use system_n.Spinlock.{done, panic}
use system_n.Proc.{ulong_mod, page_size}
use system_n.PageTable.{PageAllocator}
use system_n.PageTable.Supply.{take, Fresh, gives, empty, Supply}
use system_n.Buddy.{Buddy, alloc_page, free_page}
use system_n.Buddy.Tiling.{Block, in_range}
use system_n.Buddy.State.{IsBuddy}
use system_n.Buddy.Address.{IsPlaced, IsPlaced-same, addr_of}
use system_n.Buddy.Allocate.{Allocated, block, full, alloc_pages-Answer}

-- The fuel is that of the walks of the free lists; without enough of it the hart counts as halted.
abbrev pub buddy_pages : ℕ → PageAllocator Buddy
buddy_pages fuel = record {
  alloc_page = alloc_page;
  free_page = λ pa b. elim (free_page fuel pa b) [ none ↦ panic | some r ↦ r ];
}

-- The free pages among the first `n`.
abbrev pub free_count : ℕ → (ℕ → Block) → ℕ
free_count zero tile = 0
free_count (suc n) tile = (if (tile n).used then 0 else 1) + free_count n tile

free_count-take :
    (n i : ℕ) (tile tile' : ℕ → Block)
    → ((x : ℕ) → x < n → x ≢ i → (tile x).used ≡ false → (tile' x).used ≡ false)
    → (free_count n tile ≤ free_count n tile' + 1)
      × (n ≤ i → free_count n tile ≤ free_count n tile')
free_count-take zero i tile tile' h = (omega arith, λ l. omega arith)
free_count-take (suc n) i tile tile' h =
    let (a, b) = free_count-take n i tile tile' (λ x l. h x (omega (arith, l))) in
    (ground (arith, a, b, h n (omega arith)), λ l. ground (arith, l, b, h n (omega arith)))

free_count-none :
    (n : ℕ) (tile : ℕ → Block) → ((x : ℕ) → x < n → (tile x).used ≡ true) → free_count n tile ≡ 0
free_count-none zero tile h = refl
free_count-none (suc n) tile h =
    let ih = free_count-none n tile (λ x l. h x (omega (arith, l))) in
    rw (h n (omega arith)) (omega (arith, ih))

pub free_count-all :
    (n : ℕ) (tile : ℕ → Block) → ((x : ℕ) → x < n → (tile x).used ≡ false) → free_count n tile ≡ n
free_count-all zero tile h = refl
free_count-all (suc n) tile h =
    let ih = free_count-all n tile (λ x l. h x (omega (arith, l))) in
    rw (h n (omega arith)) (omega (arith, ih))

-- A well-formed allocator below 4 GB, whose blocks in use cover the pages that the client holds,
-- with so many free pages at least.
pub record Spare (b : Buddy) (taken : ℕ → Bool) (left : ℕ) : Type 0 where
  pub tile : ℕ → Block
  pub lists : ℕ → List ℕ
  pub valid : IsBuddy b tile lists []
  pub placed : IsPlaced b
  pub aligned : b.buddy_base_phys % page_size ≡ 0
  pub low : b.buddy_base_phys + b.num_pages * page_size ≤ 2 ^ 32
  pub marks : (i : ℕ) → i < b.num_pages → taken (addr_of b i) ≡ true → (tile i).used ≡ true
  pub room : left ≤ free_count b.num_pages tile

Allocated-Spare :
    {b after : Buddy} {taken : ℕ → Bool} (left i : ℕ) (s : Spare b taken left)
    → Allocated b s.tile 0 i after
    → Spare after (take (addr_of b i) taken) (left - 1)
Allocated-Spare {b} {after} {taken} left i s a =
    let count =
      free_count-take b.num_pages i s.tile a.tile'
        (λ x l n f. a.rest_free x f (ground (arith, n))) in
    record {
      tile = a.tile';
      lists = a.lists';
      valid = a.valid;
      placed = IsPlaced-same s.placed a.base a.count;
      aligned = rw a.base s.aligned;
      low = rw (a.base, a.count) s.low;
      marks = λ j l t. elim (Bool-cases (j == i)) [
        | inl e ↦ rw ((==_iff j i).0 e) (ap (λ k. k.used) a.mine)
        | inr n ↦
            let apart : (addr_of b j == addr_of b i) ≡ false = ground (arith, n) in
            let old : taken (addr_of b j) ≡ true = rw (a.base, apart) at t in
            let used = s.marks j (rw a.count at l) old in rw (a.kept j used) used
      ];
      room = rw a.count (omega (arith, count.0, s.room));
    }

-- alloc_page is a supply of pages: for an allocator whose page structs and free lists agree with a
-- tiling, which lies below 4 GB and not at 0 and whose blocks in use cover the pages that the
-- client holds, it gives an aligned page below 4 GB that the client does not hold, and the same is
-- then true with that page held and one free page less to be sure of; or it answers NULL, with no
-- free page to be sure of.
pub alloc_page-Fresh :
    (b : Buddy) (taken : ℕ → Bool) (left : ℕ)
    → Spare b taken left
    → Fresh Spare taken left (alloc_page b)
unfolding alloc_page
alloc_page-Fresh b taken left s = elim (alloc_pages-Answer s.valid 0) [
  | full e h ↦
      let used : (x : ℕ) → x < b.num_pages → (s.tile x).used ≡ true = λ x l.
        elim (Bool-cases (s.tile x).used) [ inl u ↦ u | inr f ↦ absurd (omega (arith, h x l f)) ] in
      let none_left : left ≡ 0 = omega (arith, s.room, free_count-none b.num_pages s.tile used) in
      empty b e none_left (rw none_left at s)
  | block i after e a ↦
      let here : in_range i (i + 2 ^ 0) i ≡ true = ground arith in
      let free = a.was_free i here in
      let l : i < b.num_pages = omega (arith, a.fits) in
      let addr : (b.buddy_base_phys + i * page_size) % ulong_mod ≡ addr_of b i =
        omega (arith, s.low, l) in
      gives (addr_of b i) after (e ∙ ap (λ x. done (some x, after)) addr)
        (elim (Bool-cases (taken (addr_of b i))) [
          | inr n ↦ n
          | inl t ↦ absurd (ground (arith, s.marks i l t, free))
        ])
        (omega (arith, s.aligned), omega (arith, s.low, l)) (Allocated-Spare left i s a)
]

abbrev pub buddy_supply : (fuel : ℕ) → Supply (buddy_pages fuel)
buddy_supply fuel = record { inv = Spare; fresh = alloc_page-Fresh }
