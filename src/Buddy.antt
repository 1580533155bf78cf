-- ===== src/Buddy.antt =====
-- kernel/mm/mem.c: the buddy allocator of physical pages. A `page_t *` is the index of its entry in
-- `page_array`, and `none` is NULL; whether it is stored as a physical or a virtual address is left
-- out. The lock around each call is Spinlock's; what a call does while it has the lock is here.
pub mod Regions
pub mod Refusal
pub mod Tiling
pub mod State
pub mod Take
pub mod Split
pub mod Allocate
pub mod Unlink
pub mod Merge
pub mod Address
pub mod Coalesce
pub mod Rounds
pub mod Free
pub mod Extend
pub mod Populate
pub mod Pages
use Prim.Native.Nat.{bit_and, bit_xor}
use system_n.Base.{
  ℕ, zero, suc, ◌+◌, ◌-◌, ◌*◌, ◌/◌, ◌%◌, ◌^◌, Bool, true, false, not, ◌||◌, Option, none, some, ltb,
  leb, ◌==◌, if◌then◌else◌,
}
use system_n.Spinlock.{Run, done, panic}
use system_n.Proc.{ulong_mod, page_size}

abbrev pub max_order : ℕ
max_order = 10

abbrev pub sizeof_page : ℕ
sizeof_page = 16

-- `kernel/mm/mapping.h`
abbrev pub user_end : ℕ
user_end = 0x88000000

-- `page_t`
pub record Page : Type 0 where
  pub order : ℕ
  pub is_free : Bool
  pub next : Option ℕ

-- The static variables, with the array at each index. `free_lists` is read at 0 to 10.
pub record Buddy : Type 0 where
  pub buddy_base_phys : ℕ
  pub num_pages : ℕ
  pub pages : ℕ → Page
  pub free_lists : ℕ → Option ℕ

abbrev pub put {ℓ} : {A : Type ℓ} → (ℕ → A) → ℕ → A → ℕ → A
put f i a j = if j == i then a else f j

-- A failed check waits for ever; otherwise the code goes on.
abbrev pub and_then {ℓ κ} : {A : Type ℓ} {B : Type κ} → Run A → (A → Run B) → Run B
and_then (done a) k = k a
and_then panic k = panic

-- `get_page_struct`, and `page_addr`
unfoldable pub get_page_struct : ℕ → Buddy → Run ℕ
get_page_struct pa b =
    let idx = (pa + ulong_mod - b.buddy_base_phys) % ulong_mod / page_size in
    if leb b.num_pages idx then panic else done idx

unfoldable pub page_addr : ℕ → Buddy → Run ℕ
page_addr idx b =
    if leb b.num_pages idx then panic else done ((b.buddy_base_phys + idx * page_size) % ulong_mod)

unfoldable pub buddy_of : ℕ → ℕ → Buddy → ℕ
buddy_of addr order b =
    let block = (addr + ulong_mod - b.buddy_base_phys) % ulong_mod in
    let size = page_size * 2 ^ order in (bit_xor block size + b.buddy_base_phys) % ulong_mod

-- `ALIGN_UP`, on `ulong`: `(addr + 4095) & ~4095`
unfoldable pub align_up : ℕ → ℕ
align_up addr = let a = (addr + page_size - 1) % ulong_mod in a - bit_and a (page_size - 1)

-- `early_alloc`: the address, and the new base.
unfoldable pub early_alloc : ℕ → ℕ → ℕ → ℕ × ℕ
unfolding align_up
early_alloc kernel_end size base =
    let size' = align_up size in
    let base' = if base == 0 then align_up kernel_end else base in
    (base', (base' + size') % ulong_mod)

-- The greatest order, from `order` down, at which a block at `curr` is aligned and ends in time.
unfoldable pub fit_order : ℕ → ℕ → ℕ → ℕ
fit_order zero curr phys_end = 0
fit_order (suc order) curr phys_end =
    let size = page_size * 2 ^ suc order in
    let rest = fit_order order curr phys_end in
    if ltb phys_end (curr + size) || not (bit_and curr (size - 1) == 0) then rest else suc order

-- A block of pages becomes the first of its free list.
unfoldable pub push_free : ℕ → ℕ → Buddy → Buddy
push_free idx order b = record b {
  pages = put b.pages idx (record { order = order; is_free = true; next = b.free_lists order });
  free_lists = put b.free_lists order (some idx);
}

-- The loop that populates the free lists, on fuel; the inner `none` means that the fuel ran out.
unfoldable pub populate : ℕ → ℕ → ℕ → Buddy → Option (Run Buddy)
unfolding get_page_struct fit_order push_free
populate zero curr phys_end b = none
populate (suc fuel) curr phys_end b =
    let order = fit_order max_order curr phys_end in
    let again =
      λ (idx : ℕ). populate fuel (curr + page_size * 2 ^ order) phys_end (push_free idx order b) in
    if leb (curr + page_size) phys_end
    then elim (get_page_struct curr b) [ panic ↦ some panic | done idx ↦ again idx ]
    else some (done b)

-- What `buddy_allocator_init` computes of the memory: the kernel's page table, the page array, and
-- the base and number of pages.
pub record Layout : Type 0 where
  pub kernel_pagetable : ℕ
  pub page_array : ℕ
  pub base : ℕ
  pub count : ℕ

unfoldable pub layout : ℕ → Layout
unfolding early_alloc
layout kernel_end =
    let (table, base1) = early_alloc kernel_end page_size 0 in
    let estimated = (user_end + ulong_mod - base1) % ulong_mod / (page_size + sizeof_page) in
    let (array, base2) = early_alloc kernel_end (estimated * sizeof_page) base1 in
    let base3 = align_up base2 in
    record {
      kernel_pagetable = table;
      page_array = array;
      base = base3;
      count = (user_end + ulong_mod - base3) % ulong_mod / page_size;
    }

-- Every page struct begins as zeros. Where `memset` reaches one entry less than there are pages, that
-- takes memory that is zero.
unfoldable pub buddy_allocator_init : ℕ → ℕ → Option (Run Buddy)
unfolding layout populate
buddy_allocator_init fuel kernel_end =
    let l = layout kernel_end in
    populate fuel l.base user_end (record {
      buddy_base_phys = l.base;
      num_pages = l.count;
      pages = λ _. record { order = 0; is_free = false; next = none };
      free_lists = λ _. none;
    })

-- The loop that splits a block of order `order + k` down to `order`: the upper half of each step
-- becomes free.
unfoldable pub split : ℕ → ℕ → ℕ → Buddy → Run Buddy
unfolding push_free
split zero order idx b = done b
split (suc k) order idx b =
    let curr = order + suc k in
    let buddy_idx = idx + 2 ^ (curr - 1) in
    let rest = split k order idx (push_free buddy_idx (curr - 1) b) in
    if leb b.num_pages buddy_idx then panic else rest

-- The block at the head of list `o` leaves it for the caller, with its order.
unfoldable pub take_block : ℕ → ℕ → ℕ → Buddy → Buddy
take_block o order idx b = record b {
  pages = put b.pages idx (record (b.pages idx) { order = order; is_free = false });
  free_lists = put b.free_lists o (b.pages idx).next;
}

-- The loop over the free lists from `order + k` up, `left` of them.
unfoldable pub alloc_from : ℕ → ℕ → ℕ → Buddy → Run (Option ℕ × Buddy)
unfolding take_block split page_addr
alloc_from zero k order b = done (none, b)
alloc_from (suc left) k order b =
    let rest = alloc_from left (suc k) order b in
    elim (b.free_lists (order + k)) [
      | none ↦ rest
      | some idx ↦
          and_then (split k order idx (take_block (order + k) order idx b))
            λ b'. and_then (page_addr idx b') λ addr. done (some addr, b')
    ]

-- The address, or NULL. That the memory is cleared is left to the model of the memory.
unfoldable pub alloc_pages : ℕ → Buddy → Run (Option ℕ × Buddy)
unfolding alloc_from
alloc_pages order b =
    if ltb max_order order then done (none, b) else alloc_from (max_order + 1 - order) 0 order b

unfoldable pub alloc_page : Buddy → Run (Option ℕ × Buddy)
unfolding alloc_pages
alloc_page b = alloc_pages 0 b

-- What the pointer `p` of the inner loop of `free_pages` points at: the head of the free list, or
-- the `next` of a page.
pub data Link : Type 0 where
  head : Link
  behind : ℕ → Link

abbrev pub read_link : ℕ → Link → Buddy → Option ℕ
read_link order head b = b.free_lists order
read_link order (behind x) b = (b.pages x).next

abbrev pub write_link : ℕ → Link → Option ℕ → Buddy → Buddy
write_link order head v b = record b { free_lists = put b.free_lists order v }
write_link order (behind x) v b = record b {
  pages = put b.pages x (record (b.pages x) { next = v });
}

-- `while (*p && *p != buddy) p = &(*p)->next`, on fuel.
unfoldable pub find_link : ℕ → ℕ → ℕ → Link → Buddy → Option Link
find_link zero order buddy p b = none
find_link (suc fuel) order buddy p b = elim (read_link order p b) [
  | none ↦ some p
  | some x ↦
      (let rest = find_link fuel order buddy (behind x) b in if x == buddy then some p else rest)
]

-- `if (*p == buddy) *p = buddy->next`
unfoldable pub cut_link : ℕ → ℕ → Link → Buddy → Buddy
cut_link order buddy p b = elim (read_link order p b) [
  | none ↦ b
  | some x ↦ if x == buddy then write_link order p (b.pages buddy).next b else b
]

-- The page struct of the buddy joins the block: off its list, and no longer free.
unfoldable pub absorb : ℕ → ℕ → ℕ → Buddy → Option Buddy
unfolding find_link cut_link
absorb fuel order buddy b = elim (find_link fuel order buddy head b) [
  | none ↦ none
  | some p ↦
      (let b1 = cut_link order buddy p b in
        some
          (record b1 { pages = put b1.pages buddy (record (b1.pages buddy) { is_free = false }) }))
]

-- The merging loop of `free_pages`: `left` orders up to the greatest one. The outer `none` means
-- that the fuel of a list walk ran out.
unfoldable pub coalesce : ℕ → ℕ → ℕ → ℕ → Buddy → Option (Run (ℕ × ℕ × Buddy))
unfolding absorb get_page_struct buddy_of
coalesce fuel zero order addr b = some (done (order, addr, b))
coalesce fuel (suc left) order addr b =
    let buddy_addr = buddy_of addr order b in
    let lower = if ltb buddy_addr addr then buddy_addr else addr in
    elim (get_page_struct buddy_addr b) [
      | panic ↦ some panic
      | done buddy ↦
          (let rest : Option (Run (ℕ × ℕ × Buddy)) = elim (absorb fuel order buddy b) [
            | none ↦ none
            | some b1 ↦ coalesce fuel left (suc order) lower b1
          ] in
            if not (b.pages buddy).is_free || not ((b.pages buddy).order == order)
            then some (done (order, addr, b))
            else rest)
    ]

-- The merged block becomes the first of its free list.
unfoldable pub give_back : Run (ℕ × ℕ × Buddy) → Run Buddy
unfolding get_page_struct push_free
give_back r =
    and_then r λ (order, addr, b).
      and_then (get_page_struct addr b) λ merged. done (push_free merged order b)

-- The end of `free_pages` after its merging loop, if the loop has enough fuel.
unfoldable pub finish_free : Option (Run (ℕ × ℕ × Buddy)) → Option (Run Buddy)
unfolding give_back
finish_free none = none
finish_free (some r) = some (give_back r)

-- `pg->is_free = true`
abbrev pub marked : ℕ → Buddy → Buddy
marked i b = record b { pages = put b.pages i (record (b.pages i) { is_free = true }) }

unfoldable pub free_pages : ℕ → ℕ → Buddy → Option (Run Buddy)
unfolding get_page_struct coalesce finish_free
free_pages fuel addr b = if addr == 0 then some (done b) else elim (get_page_struct addr b) [
  | panic ↦ some panic
  | done pg ↦
      (let order = (b.pages pg).order in
        let rest = finish_free (coalesce fuel (max_order - order) order addr (marked pg b)) in
        if (b.pages pg).is_free then some (done b) else rest)
]

unfoldable pub free_page : ℕ → ℕ → Buddy → Option (Run Buddy)
unfolding free_pages
free_page fuel ptr b = free_pages fuel ptr b
