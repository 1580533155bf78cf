-- ===== src/PageTable/Supply.antt =====
-- What the page tables of kernel/mm/pagetable.c rely on in an allocator of pages.
use system_n.Base.{
  ℕ, ◌-◌, ◌^◌, ◌%◌, ◌<◌, ◌≡◌, Bool, true, false, Option, none, some, ◌==◌, if◌then◌else◌,
}
use system_n.Spinlock.{Run, done}
use system_n.Proc.{page_size}
use system_n.PageTable.{PageAllocator}

abbrev pub take : ℕ → (ℕ → Bool) → ℕ → Bool
take pa taken q = if q == pa then true else taken q

-- The pages that a client holds, and how many more it can be sure of.
pub data Fresh {S : Type 0} (inv : S → (ℕ → Bool) → ℕ → Type 0) (taken : ℕ → Bool) (left : ℕ)
    (r : Run (Option ℕ × S)) : Type 0 where
  gives :
      (pa : ℕ) (store : S)
      → r ≡ done (some pa, store)
      → taken pa ≡ false
      → (pa % page_size ≡ 0) × (pa < 2 ^ 32)
      → inv store (take pa taken) (left - 1)
      → Fresh inv taken left r
  empty :
      (store : S) → r ≡ done (none, store) → left ≡ 0 → inv store taken 0 → Fresh inv taken left r

-- An allocator that gives pages below 4 GB which its client does not hold, while it has some.
pub record Supply {S : Type 0} (allocator : PageAllocator S) : Type 1 where
  pub inv : S → (ℕ → Bool) → ℕ → Type 0
  pub fresh :
      (s : S) (taken : ℕ → Bool) (left : ℕ)
      → inv s taken left
      → Fresh inv taken left (allocator.alloc_page s)
