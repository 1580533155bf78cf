-- ===== src/Syscall/Heap.antt =====
-- `sys_sbrk` and `sys_munmap` of kernel/syscall.c: what becomes of the heap's bounds, and how
-- long the loops run.
use Prim.Native.Nat.{bit_or}
use system_n.Base.{
  ℕ, zero, suc, ◌+◌, ◌-◌, ◌*◌, ◌/◌, ◌%◌, ◌^◌, ◌≤◌, ◌<◌, ◌≡◌, ◌⊎◌, inl, inr, refl, Bool, false, ◌&&◌,
  Option, none, some, arith, ltb, ◌==◌, Bool-cases,
}
use system_n.Base.Bits.{bit_and_4095}
use system_n.Spinlock.{Run, done, panic}
use system_n.Proc.{Proc, page_size, ulong_mod}
use system_n.Buddy.{align_up}
use system_n.PageTable.{
  PageAllocator, Vm, minus_one, get_page, map_page, unmap_page, pte_r, pte_w, pte_u,
}
use system_n.Machine.{Machine, Outcome, returns, stuck, out_of_fuel, M, and_then, lift_vm}
use system_n.Syscall.{user_heap_end, grow_page, grow, shrink, set_heap_end}

-- A call ends, or the allocator of pages stops the hart, and its result is as the predicate says.
abbrev pub Ensures : {A : Type 0} → (A → Type 0) → Outcome A → Type 0
Ensures P (returns a) = P a
Ensures P stuck = Unit
Ensures P out_of_fuel = ⊥

pub Ensures-bind :
    {A B : Type 0} (P : A → Type 0) (Q : B → Type 0) (o : Outcome A) (k : A → Outcome B)
    → Ensures P o
    → ((a : A) → P a → Ensures Q (k a))
    → Ensures Q (and_then o k)
Ensures-bind P Q (returns a) k h next = next a h
Ensures-bind P Q stuck k h next = tt
Ensures-bind P Q out_of_fuel k h next = elim h [ ]

module _ {S : Type 0} where
  -- The same kernel state and the same trap frames.
  abbrev pub KeepsKernel : Machine S → {A : Type 0} → A × Machine S → Type 0
  KeepsKernel m (a, m') = (m'.kernel ≡ m.kernel) × (m'.frames ≡ m.frames)

  on_vm-KeepsKernel :
      {A : Type 0} (r : Run (A × Vm S)) (m : Machine S) → Ensures (KeepsKernel m) (lift_vm r m)
  on_vm-KeepsKernel panic m = tt
  on_vm-KeepsKernel (done (a, vm)) m = (refl, refl)

module _ {S : Type 0} (allocator : PageAllocator S) where
  grow_page-KeepsKernel :
      (rest : M S Bool) (pagetable va : ℕ) (got : Option ℕ) (m : Machine S)
      → ((m1 : Machine S) → Ensures (KeepsKernel m1) (rest m1))
      → Ensures (KeepsKernel m) (grow_page allocator rest pagetable va got m)
  unfolding grow_page
  grow_page-KeepsKernel rest pagetable va none m h = (refl, refl)
  grow_page-KeepsKernel rest pagetable va (some pa) m h =
      let r = map_page allocator pagetable va pa (bit_or (bit_or pte_r pte_w) pte_u) m.vm in
      Ensures-bind (KeepsKernel m) (KeepsKernel m) (lift_vm r m) _ (on_vm-KeepsKernel r m)
        λ (v, m1) e. elim (Bool-cases (v == minus_one)) [
          | inl f ↦ rw f e
          | inr f ↦ rw (f, ← e.0, ← e.1) (h m1)
        ]

  -- With a round for each page and one more the loops end, and they leave the kernel's state alone.
  pub grow-KeepsKernel :
      (fuel pagetable va end : ℕ) (m : Machine S)
      → end ≤ va + fuel * page_size
      → Ensures (KeepsKernel m) (grow allocator (suc fuel) pagetable va end m)
  unfolding grow
  grow-KeepsKernel zero pagetable va end m b =
      let e : ltb va end ≡ false = ground arith in rw e (refl, refl)
  grow-KeepsKernel (suc fuel) pagetable va end m b = elim (Bool-cases (ltb va end)) [
    | inr e ↦ rw e (refl, refl)
    | inl e ↦
        let r = get_page allocator m.vm in
        rw e (
          Ensures-bind (KeepsKernel m) (KeepsKernel m) (lift_vm r m) _ (on_vm-KeepsKernel r m)
            λ (got, m1) f.
              rw (← f.0, ← f.1)
                (grow_page-KeepsKernel (grow allocator (suc fuel) pagetable (va + page_size) end)
                  pagetable va got m1
                  (λ m2. grow-KeepsKernel fuel pagetable (va + page_size) end m2 (omega arith))))
  ]

  pub shrink-KeepsKernel :
      (fuel : ℕ) (strict : Bool) (pagetable va end : ℕ) (m : Machine S)
      → end ≤ va + fuel * page_size
      → Ensures (KeepsKernel m) (shrink allocator (suc fuel) strict pagetable va end m)
  unfolding shrink
  shrink-KeepsKernel zero strict pagetable va end m b =
      let e : ltb va end ≡ false = ground arith in rw e (refl, refl)
  shrink-KeepsKernel (suc fuel) strict pagetable va end m b = elim (Bool-cases (ltb va end)) [
    | inr e ↦ rw e (refl, refl)
    | inl e ↦
        let r = unmap_page allocator pagetable va m.vm in
        rw e (
          Ensures-bind (KeepsKernel m) (KeepsKernel m) (lift_vm r m) _ (on_vm-KeepsKernel r m)
            λ (v, m1) f.
              rw (← f.0, ← f.1)
                (elim (Bool-cases (strict && (v == minus_one))) [
                  | inl g ↦ rw g (refl, refl)
                  | inr g ↦ rw g (
                      shrink-KeepsKernel fuel strict pagetable (va + page_size) end m1
                        (omega arith))
                ]))
  ]

-- `ALIGN_UP` below the greatest page.
pub align_up-small : (x : ℕ) → x < 2 ^ 63 → align_up x ≡ (x + 4095) / 4096 * 4096
unfolding align_up
align_up-small x h =
    let e : (x + 4096 - 1) % ulong_mod ≡ x + 4095 = omega arith in
    rw e (omega (arith, bit_and_4095 (x + 4095)))

-- The bounds of a process's heap: it begins below its end, and ends where the guard page begins.
pub record IsHeap (r : Proc) : Type 0 where
  pub ordered : r.heap_start ≤ r.heap_end
  pub within : r.heap_end ≤ user_heap_end

-- The end of the heap that `sys_sbrk` aims at.
abbrev pub target : Proc → ℕ → ℕ
target r size = (align_up r.heap_end + align_up size) % ulong_mod

-- What `sys_sbrk` does to the kernel's state: nothing, with the answer -1, or a heap that ends at
-- the target, which lies within its bounds, with the old end, rounded up to a page, for an answer.
abbrev pub Sbrk : {S : Type 0} → ℕ → ℕ → Machine S → ℕ × Machine S → Type 0
Sbrk p size m (v, m') =
    ((v ≡ minus_one) × (m'.kernel ≡ m.kernel))
    ⊎ ((v ≡ align_up (m.kernel.proc p).heap_end)
        × ((m.kernel.proc p).heap_start ≤ target (m.kernel.proc p) size)
        × (target (m.kernel.proc p) size ≤ user_heap_end)
        × (m'.kernel ≡ set_heap_end p (target (m.kernel.proc p) size) m.kernel))
