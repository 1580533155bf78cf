-- ===== src/Creation/Effect.antt =====
-- The steps of `create_proc` of kernel/proc.c: what each leaves of the kernel's state.
use Prim.Native.Nat.{bit_or}
use system_n.Base.{
  ℕ, zero, suc, ◌+◌, ◌-◌, ◌*◌, ◌/◌, ◌%◌, ◌^◌, ◌≤◌, ◌<◌, ◌≡◌, refl, ◌⊎◌, inl, inr, Option, none,
  some, arith, ltb, ◌==◌, if◌then◌else◌, ◌∙◌, Bool-cases,
}
use system_n.Spinlock.{Run, done, panic}
use system_n.Proc.{ulong_mod, page_size}
use system_n.Str.{memcpy}
use system_n.PageTable.{
  PageAllocator, Vm, phys_to_virt, virt_to_phys, minus_one, pte_r, pte_w, pte_x, pte_u, get_page,
  map_page,
}
use system_n.Snub.{kzalloc}
use system_n.Machine.{Outcome, returns, stuck}
use system_n.Creation.{World, Step, and_then, vm_of, uart0, kernel_start_va}
use system_n.Creation.Steps.{
  new_page, new_object, map_or_fail, load_binary, copy_pages, copy_kernel_mappings, map_uart,
}

-- A step that succeeds leaves a state of which `q` holds, and one that fails a state of which `e`
-- holds; no step runs out of fuel.
pub data Ends {S A : Type 0} (r : Outcome (Option A × World S)) (q : A → World S → Type 0)
    (e : World S → Type 0) : Type 0 where
  success : (a : A) (w : World S) → r ≡ returns (some a, w) → q a w → Ends r q e
  fails : (w : World S) → r ≡ returns (none, w) → e w → Ends r q e
  halts : r ≡ stuck → Ends r q e

pub Ends-then :
    {S A B : Type 0} {q : A → World S → Type 0} {q' : B → World S → Type 0}
    {e e' : World S → Type 0} {r : Outcome (Option A × World S)} {k : A → Step S B}
    → Ends r q e
    → ((w : World S) → e w → e' w)
    → ((a : A) (w : World S) → q a w → Ends (k a w) q' e')
    → Ends (and_then r k) q' e'
Ends-then (success a w eq h) g f = rw eq (f a w h)
Ends-then (fails w eq h) g f = rw eq (fails w refl (g w h))
Ends-then (halts eq) g f = rw eq (halts refl)

pub Ends-map :
    {S A : Type 0} {q q' : A → World S → Type 0} {e e' : World S → Type 0}
    {r : Outcome (Option A × World S)}
    → Ends r q e
    → ((w : World S) → e w → e' w)
    → ((a : A) (w : World S) → q a w → q' a w)
    → Ends r q' e'
Ends-map (success a w eq h) g f = success a w eq (f a w h)
Ends-map (fails w eq h) g f = fails w eq (g w h)
Ends-map (halts eq) g f = halts eq

pub Run-cases : {A : Type 0} (r : Run A) → (r ≡ panic) ⊎ ((a : A) × (r ≡ done a))
Run-cases panic = inl refl
Run-cases (done a) = inr (a, refl)

-- The step works on the memory only.
pub record Quiet {S : Type 0} (w w' : World S) : Type 0 where
  pub kernel : w'.kernel ≡ w.kernel
  pub frames : w'.frames ≡ w.frames

pub Quiet-refl : {S : Type 0} {w : World S} → Quiet w w
Quiet-refl = record { kernel = refl; frames = refl }

pub Quiet-trans : {S : Type 0} {u v w : World S} → Quiet u v → Quiet v w → Quiet u w
Quiet-trans a b = record { kernel = b.kernel ∙ a.kernel; frames = b.frames ∙ a.frames }

-- The pages that a program of so many bytes takes.
abbrev pub program_end : ℕ → ℕ
program_end size = (size + 4095) / 4096 * 4096

module _ {S : Type 0} (allocator : PageAllocator S) where
  pub new_page-Quiet :
      (alloc : Vm S → Run (Option ℕ × Vm S)) (w : World S)
      → Ends (new_page allocator alloc w) (λ a w'. Quiet w w') (Quiet w)
  unfolding new_page
  new_page-Quiet alloc w = elim (Run-cases (alloc (vm_of w))) [
    | inl e ↦ rw (new_page, e) (halts refl)
    | inr ((none, vm), e) ↦
        rw (new_page, e) (fails _ refl (record { kernel = refl; frames = refl }))
    | inr ((some pa, vm), e) ↦
        rw (new_page, e) (success _ _ refl (record { kernel = refl; frames = refl }))
  ]

  pub new_object-Quiet :
      (size : ℕ) (w : World S) → Ends (new_object allocator size w) (λ a w'. Quiet w w') (Quiet w)
  unfolding new_object
  new_object-Quiet size w = elim (Run-cases (kzalloc allocator size w.snub)) [
    | inl e ↦ rw (new_object, e) (halts refl)
    | inr ((ptr, snub), e) ↦ elim (Bool-cases (ptr == 0)) [
      | inl z ↦ rw (new_object, e, z) (fails _ refl (record { kernel = refl; frames = refl }))
      | inr z ↦ rw (new_object, e, z) (success _ _ refl (record { kernel = refl; frames = refl }))
    ]
  ]

  pub map_or_fail-Quiet :
      (pagetable va pa perm : ℕ) (w : World S)
      → Ends (map_or_fail allocator pagetable va pa perm w) (λ a w'. Quiet w w') (Quiet w)
  unfolding map_or_fail
  map_or_fail-Quiet pagetable va pa perm w =
      elim (Run-cases (map_page allocator pagetable va pa perm (vm_of w))) [
        | inl e ↦ rw (map_or_fail, e) (halts refl)
        | inr ((code, vm), e) ↦ elim (Bool-cases (code == minus_one)) [
          | inl z ↦ rw (map_or_fail, e, z) (fails _ refl (record { kernel = refl; frames = refl }))
          | inr z ↦
              rw (map_or_fail, e, z) (success _ _ refl (record { kernel = refl; frames = refl }))
        ]
      ]

  pub map_uart-Quiet :
      (pagetable : ℕ) (w : World S)
      → Ends (map_uart allocator pagetable w) (λ a w'. Quiet w w') (Quiet w)
  unfolding map_uart
  map_uart-Quiet pagetable w =
      elim (Run-cases
        (map_page allocator pagetable uart0 (virt_to_phys uart0) (bit_or pte_r pte_w) (vm_of w))) [
          | inl e ↦ rw (map_uart, e) (halts refl)
          | inr ((code, vm), e) ↦ elim (Bool-cases (code == minus_one)) [
            | inl z ↦ rw (map_uart, e, z) (halts refl)
            | inr z ↦
                rw (map_uart, e, z) (success _ _ refl (record { kernel = refl; frames = refl }))
          ]
        ]

  pub copy_kernel_mappings-Quiet :
      (kernel_end dst src : ℕ) (w : World S)
      → Ends (copy_kernel_mappings allocator kernel_end dst src w) (λ a w'. Quiet w w') (Quiet w)
  unfolding copy_kernel_mappings
  copy_kernel_mappings-Quiet kernel_end dst src w =
      elim (Run-cases (
        copy_pages allocator ((kernel_end - kernel_start_va + page_size - 1) / page_size)
          kernel_start_va dst src (vm_of w))) [
            | inl e ↦ rw (copy_kernel_mappings, e) (halts refl)
            | inr (vm, e) ↦
                rw (copy_kernel_mappings, e)
                  (success _ _ refl (record { kernel = refl; frames = refl }))
          ]

  pub load_binary-Quiet :
      (fuel pagetable va src remaining : ℕ) (w : World S)
      → remaining ≤ fuel * page_size
      → va + program_end remaining < 2 ^ 62
      → Ends
          (load_binary allocator fuel pagetable va src remaining w)
          (λ va' w'. Quiet w w' × (va' ≡ va + program_end remaining))
          (Quiet w)
  unfolding load_binary
  load_binary-Quiet zero pagetable va src remaining w f b =
      let e : remaining ≡ 0 = omega (arith, f) in rw e (success _ _ refl (Quiet-refl, omega arith))
  load_binary-Quiet (suc fuel) pagetable va src remaining w f b =
      elim (Bool-cases (remaining == 0)) [
        | inl z ↦
            let e : remaining ≡ 0 = ground (arith, z) in
            rw (load_binary, e) (success _ _ refl (Quiet-refl, omega arith))
        | inr z ↦
            let to_copy = if ltb page_size remaining then page_size else remaining in
            rw (load_binary, z)
              (Ends-then (new_page-Quiet (get_page allocator) w) (λ w' q. q)
                λ pa w1 q1.
                  let w2 = record w1 { bytes = memcpy (phys_to_virt pa) src to_copy w1.bytes } in
                  let q2 : Quiet w w2 = record { kernel = q1.kernel; frames = q1.frames } in
                  Ends-then
                    (map_or_fail-Quiet pagetable va pa (bit_or (bit_or pte_r pte_x) pte_u) w2)
                    (λ w' q. Quiet-trans q2 q)
                    λ u w3 q3.
                      let q3' = Quiet-trans q2 q3 in
                      Ends-map
                        (load_binary-Quiet fuel pagetable ((va + page_size) % ulong_mod)
                          ((src + to_copy) % ulong_mod) (remaining - to_copy) w3
                          (ground (arith, f, z)) (ground (arith, b, z)))
                        (λ w' q. Quiet-trans q3' q)
                        λ va' w4 (q4, h). (Quiet-trans q3' q4, h ∙ ground (arith, b, z)))
      ]
