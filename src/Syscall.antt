-- ===== src/Syscall.antt =====
-- kernel/syscall.c and kernel/mm/user_copy.h: the system calls. A `long` is its bit pattern.
pub mod Console
pub mod Heap
pub mod Sleep
use Prim.Native.Nat.{bit_and, bit_or}
use system_n.Base.{
  ℕ, zero, suc, ◌+◌, ◌-◌, ◌*◌, ◌%◌, ◌^◌, ◌≡◌, Bool, true, false, not, ◌&&◌, ◌||◌, Option, none,
  some, List, [], ◌∷◌, ltb, leb, ◌==◌, if◌then◌else◌, length,
}
use system_n.Spinlock.{clear_bits}
use system_n.Queue.{list_add_tail}
use system_n.Proc.{
  ulong_mod, page_size, ProcState, sleeping, Proc, Kernel, q_node, sleep_queue, set_state, put_proc,
}
use system_n.Timer.{ms_to_time}
use system_n.Uart.{uart_putsn, uart_gets}
use system_n.Buddy.{align_up}
use system_n.PageTable.{
  PageAllocator, Vm, minus_one, pte_r, pte_w, pte_u, get_page, map_page, unmap_page,
}
use system_n.PageTable.Shape.{lookup}
use system_n.Machine.{
  Machine, Outcome, returns, stuck, out_of_fuel, M, pure, and_then, ◌>>=◌, ◌>>◌, get, put,
  on_kernel, on_vm, on_uart,
}

-- `MAXLEN` of kernel/string.h, `MAX_SLEEP_MS` of kernel/timer.h
abbrev pub maxlen : ℕ
maxlen = 64

abbrev pub max_sleep_ms : ℕ
max_sleep_ms = 60_000

-- kernel/mm/mapping.h and kernel/mm/mem.h
abbrev pub user_end_va : ℕ
user_end_va = 0x780_0000

abbrev pub user_stack_base : ℕ
user_stack_base = user_end_va - page_size

abbrev pub user_heap_end : ℕ
user_heap_end = user_stack_base - page_size

abbrev pub sstatus_sum : ℕ
sstatus_sum = 2 ^ 18

abbrev pub uint : ℕ → ℕ
uint x = x % 2 ^ 32

unfoldable pub is_user_addr : ℕ → ℕ → Bool
is_user_addr va len = not (len == 0) && ltb va user_end_va && ltb len (user_end_va - va)

-- `len` bytes from an address on, and a write of bytes there.
abbrev pub load : ℕ → ℕ → (ℕ → ℕ) → List ℕ
load a zero m = []
load a (suc len) m = m a ∷ load (a + 1) len m

abbrev pub store : ℕ → List ℕ → (ℕ → ℕ) → ℕ → ℕ
store a [] m x = m x
store a (b ∷ bs) m x = if x == a then b else store (a + 1) bs m x

-- Supervisor access to user memory is switched on and off again.
abbrev pub after_access : ℕ → ℕ
after_access sstatus = clear_bits (bit_or sstatus sstatus_sum) sstatus_sum

-- The entry that the tables in `satp` have for an address allows an access with these flags.
unfoldable pub can_access : {S : Type 0} → ℕ → Vm S → ℕ → ℕ → Bool
can_access perm vm satp va = elim (lookup vm.offset 2 (satp % 2 ^ 44 * page_size) va vm.words) [
  | none ↦ false
  | some pte ↦ bit_and pte perm == perm
]

abbrev pub user_read : ℕ
user_read = bit_or pte_r pte_u

abbrev pub user_write : ℕ
user_write = bit_or pte_w pte_u

-- So many bytes from an address on.
unfoldable pub reachable : {S : Type 0} → ℕ → Vm S → ℕ → ℕ → ℕ → Bool
reachable perm vm satp a zero = true
reachable perm vm satp a (suc len) = can_access perm vm satp a && reachable perm vm satp (a + 1) len

-- The bytes, or `none` for -1. A page fault in the kernel halts the hart in `trap_handler`.
unfoldable pub copy_from_user : {S : Type 0} → ℕ → ℕ → M S (Option (List ℕ))
copy_from_user user_src len m =
    if is_user_addr user_src len
    then if reachable user_read m.vm m.kernel.satp user_src len
      then returns (some (load user_src len m.user), record m { sstatus = after_access m.sstatus })
      else stuck
    else returns (none, m)

unfoldable pub copy_to_user : {S : Type 0} → ℕ → List ℕ → M S Bool
copy_to_user user_dst bytes m =
    if is_user_addr user_dst (length bytes)
    then if reachable user_write m.vm m.kernel.satp user_dst (length bytes)
      then returns
          (true, record m { user = store user_dst bytes m.user; sstatus = after_access m.sstatus })
      else stuck
    else returns (false, m)

-- `if (len > MAXLEN) len = MAXLEN;`
abbrev pub clip : ℕ → ℕ
clip len = if ltb maxlen len then maxlen else len

-- The end of `sys_write`, with the bytes that were copied.
abbrev pub send : {S : Type 0} → ℕ → Option (List ℕ) → M S ℕ
send len none = pure minus_one
send len (some buf) = on_uart (uart_putsn buf len 0)

-- The console is locked while the bytes are sent.
unfoldable pub sys_write : {S : Type 0} → ℕ → ℕ → ℕ → M S ℕ
unfolding copy_from_user
sys_write fd user_buf len =
    if not (fd == 1) && not (fd == 2)
    then pure minus_one
    else (do got ← copy_from_user user_buf (clip len); send (clip len) got)

unfoldable pub sys_read : {S : Type 0} → ℕ → ℕ → ℕ → M S ℕ
unfolding copy_to_user
sys_read fd user_buf len = if not (fd == 0) then pure minus_one else (do
  buf ← on_uart (uart_gets (clip len))
  copied ← copy_to_user user_buf buf
  pure (if copied then length buf else minus_one))

-- `time` is the reading of the clock.
unfoldable pub sys_sleep_ms : ℕ → ℕ → ℕ → Kernel → ℕ × Kernel
sys_sleep_ms time p ms k =
    if ms == 0 || ltb max_sleep_ms ms
    then (minus_one, k)
    else (let k1 = set_state p sleeping k in
        let k2 = record k1 { links = list_add_tail (q_node p) (sleep_queue k1.tp) k1.links } in
        let until = (time + ms_to_time ms) % ulong_mod in
        (0, record k2 { proc = put_proc p (record (k2.proc p) { sleep_until = until }) k2.proc }))

-- `p->heap_end = v`
unfoldable pub set_heap_end : ℕ → ℕ → Kernel → Kernel
set_heap_end p v k = record k { proc = put_proc p (record (k.proc p) { heap_end = v }) k.proc }

module _ {S : Type 0} (allocator : PageAllocator S) where
  -- One round of the loop that maps new pages, with the page that `alloc_page` gave; `rest` is the
  -- rest of the loop, and the result whether the loop went to its end.
  unfoldable pub grow_page : M S Bool → ℕ → ℕ → Option ℕ → M S Bool
  grow_page rest pagetable va none = pure false
  grow_page rest pagetable va (some pa) = do
    r ← on_vm (map_page allocator pagetable va pa (bit_or (bit_or pte_r pte_w) pte_u))
    if r == minus_one then pure false else rest

  -- The loop from `va` to `end`, on fuel.
  unfoldable pub grow : ℕ → ℕ → ℕ → ℕ → M S Bool
  grow zero pagetable va end m = out_of_fuel
  grow (suc fuel) pagetable va end m =
      let rest = grow fuel pagetable (va + page_size) end in
      let round : M S Bool = (do
        got ← on_vm (get_page allocator)
        grow_page rest pagetable va got) in
      if ltb va end then round m else returns (true, m)

  -- The loop that unmaps pages; `strict` is whether a failure ends it, as in `sys_munmap`.
  unfoldable pub shrink : ℕ → Bool → ℕ → ℕ → ℕ → M S Bool
  shrink zero strict pagetable va end m = out_of_fuel
  shrink (suc fuel) strict pagetable va end m =
      let rest = shrink fuel strict pagetable (va + page_size) end in
      let round : M S Bool = (do
        r ← on_vm (unmap_page allocator pagetable va)
        if strict && (r == minus_one) then pure false else rest) in
      if ltb va end then round m else returns (true, m)

  unfoldable pub sys_sbrk : ℕ → ℕ → ℕ → M S ℕ
  sys_sbrk fuel p size m =
      let r = m.kernel.proc p in
      let old_brk = align_up r.heap_end in
      let size' = align_up size in
      let new_brk = (old_brk + size') % ulong_mod in
      let commit : M S ℕ = on_kernel (set_heap_end p new_brk) >> pure old_brk in
      let larger : M S ℕ = (do
        whole ← grow fuel r.pagetable old_brk new_brk
        if whole then commit else pure minus_one) in
      let smaller : M S ℕ = (do whole ← shrink fuel false r.pagetable new_brk old_brk; commit) in
      if (p == 0) || (size == 0)
      then returns (minus_one, m)
      else if ltb new_brk r.heap_start || ltb user_heap_end new_brk
      then returns (minus_one, m)
      else if not (size' == 0) && ltb size' (2 ^ 63)
      then larger m
      else smaller m

  unfoldable pub sys_munmap : ℕ → ℕ → ℕ → ℕ → M S ℕ
  sys_munmap fuel p addr size m =
      let end = align_up ((addr + size) % ulong_mod) in
      let unmap : M S ℕ = (do
        whole ← shrink fuel true (m.kernel.proc p).pagetable addr end
        pure (if whole then 0 else minus_one)) in
      if (p == 0) || (size == 0) || not (addr % page_size == 0)
      then returns (minus_one, m)
      else unmap m
