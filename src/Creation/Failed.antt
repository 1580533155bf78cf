-- ===== src/Creation/Failed.antt =====
-- `free_proc` of kernel/proc.c on a process that `create_proc` gives up: what it frees, and that it
-- leaves the kernel's state alone.
use system_n.Base.{ℕ, ◌≡◌, ◌⊎◌, refl, false, inl, inr, ◌==◌, Bool-cases}
use system_n.Queue.{list_in_queue}
use system_n.Proc.{Kernel, q_node}
use system_n.PageTable.{PageAllocator, Vm, va_offset}
use system_n.PageTable.Tree.{free_pagetable}
use system_n.Snub.{kfree}
use system_n.Machine.{Outcome, returns, stuck, out_of_fuel}
use system_n.Creation.{World, Fixed, vm_of, unlink_proc}
use system_n.Creation.Create.{
  after, release_page, release_tables, release_object, if_set, free_proc,
}
use system_n.Creation.Effect.{Run-cases}

Outcome-cases :
    {A : Type 0} (r : Outcome A) → ((a : A) × (r ≡ returns a)) ⊎ ((r ≡ stuck) ⊎ (r ≡ out_of_fuel))
Outcome-cases (returns a) = inl (a, refl)
Outcome-cases stuck = inr (inl refl)
Outcome-cases out_of_fuel = inr (inr refl)

module _ {S : Type 0} (allocator : PageAllocator S) (fixed : Fixed) (depth pagetable : ℕ)
    (k : Kernel) (words : ℕ → ℕ) where
  -- The calls that free end in a state of which `q` holds, or halt the hart, or the tables that are
  -- there have more levels than `free_pagetable` was given.
  pub data Freed (q : World S → Type 0) (r : Outcome (World S)) : Type 0 where
    freed : (w : World S) → r ≡ returns w → q w → Freed q r
    stopped : r ≡ stuck → Freed q r
    endless :
        (vm : Vm S)
        → (vm.words ≡ words) × (vm.offset ≡ va_offset)
        → free_pagetable allocator depth pagetable vm ≡ out_of_fuel
        → r ≡ out_of_fuel
        → Freed q r

  -- The kernel's state as it was, and the words of the tables as well.
  abbrev pub Same : World S → Type 0
  Same w = w.kernel ≡ k

  abbrev SameTables : World S → Type 0
  SameTables w = (w.kernel ≡ k) × (w.snub.words ≡ words)

  Freed-after :
      {q q' : World S → Type 0} {r : Outcome (World S)} (f : World S → Outcome (World S))
      → Freed q r
      → ((w : World S) → q w → Freed q' (f w))
      → Freed q' (after allocator r f)
  Freed-after f (freed w e h) g = rw e (g w h)
  Freed-after f (stopped e) g = rw e (stopped refl)
  Freed-after f (endless vm s d e) g = rw e (endless vm s d refl)

  if_set-Freed :
      {q : World S → Type 0} (ptr : ℕ) (f : World S → Outcome (World S)) (w : World S)
      → q w
      → Freed q (f w)
      → Freed q (if_set allocator ptr f w)
  if_set-Freed ptr f w h g = elim (Bool-cases (ptr == 0)) [
    | inl z ↦ rw z (freed w refl h)
    | inr z ↦ rw z g
  ]

  release_page-Freed :
      (pa : ℕ) (w : World S) → SameTables w → Freed SameTables (release_page allocator pa w)
  release_page-Freed pa w h = elim (Run-cases (allocator.free_page pa w.snub.store)) [
    | inl e ↦ rw e (stopped refl)
    | inr (store, e) ↦ rw e (freed _ refl h)
  ]

  release_object-Freed :
      (ptr : ℕ) (w : World S) → Same w → Freed Same (release_object allocator fixed.base ptr w)
  release_object-Freed ptr w h = elim (Run-cases (kfree allocator fixed.base ptr w.snub)) [
    | inl e ↦ rw e (stopped refl)
    | inr (snub, e) ↦ rw e (freed _ refl h)
  ]

  release_tables-Freed :
      (w : World S) → SameTables w → Freed Same (release_tables allocator depth pagetable w)
  release_tables-Freed w (h, s) =
      elim (Outcome-cases (free_pagetable allocator depth pagetable (vm_of w))) [
        | inl (vm, e) ↦ rw (release_tables, e) (freed _ refl h)
        | inr (inl e) ↦ rw (release_tables, e) (stopped refl)
        | inr (inr e) ↦ rw (release_tables, e) (endless (vm_of w) (s, refl) e refl)
      ]

  -- A process on no queue.
  pub free_proc-Freed :
      (p : ℕ) (w : World S)
      → (p == 0) ≡ false
      → list_in_queue (q_node p) w.kernel.links ≡ false
      → (w.kernel.proc p).pagetable ≡ pagetable
      → w.kernel ≡ k
      → w.snub.words ≡ words
      → Freed Same (free_proc allocator fixed depth p w)
  unfolding free_proc unlink_proc
  free_proc-Freed p w some_p out same h s =
      let r = w.kernel.proc p in
      let object = λ (w3 : World S). release_object allocator fixed.base p w3 in
      let stack = λ (w2 : World S).
        after allocator
          (if_set allocator r.kstack (release_object allocator fixed.base r.kstack) w2) object in
      let tables = λ (w1 : World S).
        after allocator (if_set allocator pagetable (release_tables allocator depth pagetable) w1)
          stack in
      rw (some_p, out, same)
        (Freed-after tables
          (if_set-Freed r.ustack (release_page allocator r.ustack) w (h, s)
            (release_page-Freed r.ustack w (h, s)))
          λ w1 t1.
            Freed-after stack
              (if_set-Freed pagetable (release_tables allocator depth pagetable) w1 t1.0
                (release_tables-Freed w1 t1))
              λ w2 h2.
                Freed-after object
                  (if_set-Freed r.kstack (release_object allocator fixed.base r.kstack) w2 h2
                    (release_object-Freed r.kstack w2 h2))
                  λ w3 h3. release_object-Freed p w3 h3)
