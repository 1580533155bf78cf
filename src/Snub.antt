-- ===== src/Snub.antt =====
-- kernel/mm/snub.c: the allocator of small objects, in nine size classes, each with a list of free
-- objects that is threaded through their first words. Pages come from the allocator of pages.
pub mod Classes
pub mod Release
use system_n.Base.{
  ℕ, zero, suc, ◌+◌, ◌-◌, ◌*◌, ◌/◌, ◌%◌, ◌^◌, ◌≡◌, Bool, not, ◌&&◌, Option, none, some, ltb, leb,
  ◌==◌, if◌then◌else◌,
}
use system_n.Spinlock.{Run, done, panic}
use system_n.Proc.{ulong_mod, page_size}
use system_n.PageTable.{PageAllocator, phys_to_virt, virt_to_phys, write, clear_page, and_then}

abbrev pub snub_min_shift : ℕ
snub_min_shift = 4

abbrev pub snub_max_shift : ℕ
snub_max_shift = 12

-- `SNUB_NUM_CLASSES`
abbrev pub snub_num_classes : ℕ
snub_num_classes = 9

-- The caches by index, the words of memory, and the store of pages.
pub record Snub (S : Type 0) : Type 0 where
  pub object_size : ℕ → ℕ
  pub partial : ℕ → ℕ
  pub words : ℕ → ℕ
  pub store : S

-- The loop of `size_to_idx`: `left` is `SNUB_MAX_SHIFT + 1 - shift`.
unfoldable pub shift_for : ℕ → ℕ → ℕ → ℕ
shift_for zero shift size = shift
shift_for (suc left) shift size =
    let rest = shift_for left (suc shift) size in if ltb (2 ^ shift) size then rest else shift

-- `none` is -1.
unfoldable pub size_to_idx : ℕ → Option ℕ
size_to_idx size =
    let shift = shift_for 9 snub_min_shift size in
    if ltb snub_max_shift shift then none else some (shift - snub_min_shift)

unfoldable pub snub_init : {S : Type 0} → Snub S → Snub S
snub_init s = record s { object_size = λ i. 2 ^ (snub_min_shift + i); partial = λ _. 0 }

-- The loop that threads a fresh page: `left` objects from number `i` on.
unfoldable pub thread : ℕ → ℕ → ℕ → ℕ → ℕ → (ℕ → ℕ) → ℕ × (ℕ → ℕ)
thread zero i size page head m = (head, m)
thread (suc left) i size page head m =
    let obj = page + i * size in thread left (suc i) size page obj (write m obj head)

-- The `int` that an `ulong` is cut to, and back, as a bit pattern of 64 bits.
abbrev pub to_int : ℕ → ℕ
to_int x = let low = x % 2 ^ 32 in if ltb low (2 ^ 31) then low else low + (2 ^ 64 - 2 ^ 32)

-- `caches[idx].partial = v`
abbrev pub set_partial : {S : Type 0} → ℕ → ℕ → Snub S → Snub S
set_partial idx v s = record s { partial = write s.partial idx v }

-- The first object of the list is handed out.
unfoldable pub pop_object : {S : Type 0} → ℕ → Snub S → ℕ × Snub S
pop_object idx s = let obj = s.partial idx in (obj, set_partial idx (s.words obj) s)

-- `*(void **)ptr = caches[i].partial; caches[i].partial = ptr;`
unfoldable pub push_object : {S : Type 0} → ℕ → ℕ → Snub S → Snub S
push_object i ptr s =
    let s1 = record s { words = write s.words ptr (s.partial i) } in set_partial i ptr s1

module _ {S : Type 0} (allocator : PageAllocator S) where
  -- A fresh page for a class, threaded. `alloc_page` answers NULL as the address 0, which
  -- `PHYS_TO_VIRT` moves before the code tests it; a page that is there has been cleared.
  unfoldable pub refill : ℕ → Snub S → Run (Bool × Snub S)
  refill idx s = and_then (allocator.alloc_page s.store) λ (got, store).
      let pa : ℕ = elim got [ none ↦ 0 | some p ↦ p ] in
      let cleared : ℕ → ℕ = elim got [ none ↦ s.words | some p ↦ clear_page p s.words ] in
      let page = phys_to_virt pa in
      let s1 = record s { words = cleared; store = store } in
      let (head, m) =
        thread (page_size / s1.object_size idx) 0 (s1.object_size idx) page 0 s1.words in
      done (
        if page == 0
        then (Bool.false, s1)
        else (Bool.true, set_partial idx head (record s1 { words = m })))

  -- The object, or 0.
  unfoldable pub kmalloc : ℕ → Snub S → Run (ℕ × Snub S)
  kmalloc size s = elim (size_to_idx size) [
    | none ↦ done (0, s)
    | some idx ↦
        if leb snub_num_classes idx
        then done (0, s)
        else if s.partial idx == 0
        then (and_then (refill idx s)
            λ (ready, s1). if ready then done (pop_object idx s1) else done (0, s1))
        else done (pop_object idx s)
  ]

  -- `memset`, by words
  unfoldable pub kzalloc : ℕ → Snub S → Run (ℕ × Snub S)
  unfolding kmalloc
  kzalloc size s = and_then (kmalloc size s) λ (ptr, s1). done (
    ptr,
    if ptr == 0
        then s1
        else (record s1 { words = λ x. if leb ptr x && ltb x (ptr + size) then 0 else s1.words x }),
  )

  -- The loop over the classes from `i` on, `left` of them, for an object at `diff` in its page.
  unfoldable pub kfree_loop : ℕ → ℕ → ℕ → ℕ → Snub S → Run (Snub S)
  kfree_loop zero i diff ptr s =
      and_then (allocator.free_page (virt_to_phys ptr) s.store)
        λ store. done (record s { store = store })
  kfree_loop (suc left) i diff ptr s =
      let rest = kfree_loop left (suc i) diff ptr s in
      if (diff % s.object_size i == 0) && ltb diff page_size
      then done (push_object i ptr s)
      else rest

  -- `page_idx` is an `int`, and so is its product with `PAGE_SIZE`.
  unfoldable pub kfree : ℕ → ℕ → Snub S → Run (Snub S)
  kfree base ptr s =
      let offset = (ptr + ulong_mod - base) % ulong_mod in
      let page_idx = to_int (offset / page_size) in
      let page_base = (base + to_int (page_idx * page_size)) % ulong_mod in
      let diff = (ptr + ulong_mod - page_base) % ulong_mod in
      kfree_loop snub_num_classes 0 diff ptr s
