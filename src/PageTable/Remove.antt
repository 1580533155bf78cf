-- ===== src/PageTable/Remove.antt =====
-- `unmap_page` of kernel/mm/pagetable.c as the removal of a page from a map from pages to entries.
use system_n.Base.{
  ℕ, ◌≡◌, ◌⊎◌, refl, none, some, if◌then◌else◌, ◌∙◌, Bool-cases, inl, inr, Option-cases,
}
use system_n.Spinlock.{Run, done, panic}
use system_n.PageTable.{PageAllocator, Vm, minus_one, is_valid, pte2pa, to_virt, write, unmap_page}
use system_n.PageTable.Mapping.{find, unmap_page-found}
use system_n.PageTable.Shape.{Levels, IsTree, lookup-find}
use system_n.PageTable.Update.{same_page, translate, lookup-none, written-IsTree, lookup-written}

Run-cases : {A : Type 0} (r : Run A) → ((a : A) × (r ≡ done a)) ⊎ (r ≡ panic)
Run-cases (done a) = inl (a, refl)
Run-cases panic = inr refl

module _ {S : Type 0} (allocator : PageAllocator S) (root : ℕ) where
  -- What `unmap_page` comes to: the page has no entry, or its entry is taken away and the page it
  -- names is freed, if the allocator takes it.
  pub data Removal (va : ℕ) (vm : Vm S) (level : Levels) (r : Run (ℕ × Vm S)) : Type 0 where
    absent :
        r ≡ done (minus_one, vm) → translate vm.offset root vm va ≡ none → Removal va vm level r
    halted :
        (w : ℕ)
        → translate vm.offset root vm va ≡ some w
        → allocator.free_page (pte2pa w) vm.store ≡ panic
        → r ≡ panic
        → Removal va vm level r
    removed :
        (w : ℕ) (vm' : Vm S)
        → translate vm.offset root vm va ≡ some w
        → allocator.free_page (pte2pa w) vm.store ≡ done vm'.store
        → r ≡ done (0, vm')
        → vm'.offset ≡ vm.offset
        → IsTree vm.offset root vm'.words level
        → ((va' : ℕ)
            → translate vm.offset root vm' va'
              ≡ (if same_page va va' then none else translate vm.offset root vm va'))
        → Removal va vm level r

  -- On well-formed tables, unmap_page of any address answers -1 and changes nothing if the address
  -- space has no entry for the page; else it frees the page that the entry names, and answers 0
  -- with the same tables, in which that page has no entry and every other page the one it had, or
  -- halts the hart where free_page does.
  pub unmap_page-Removal :
      (va : ℕ) (vm : Vm S) (level : Levels)
      → IsTree vm.offset root vm.words level
      → Removal va vm level (unmap_page allocator root va vm)
  unmap_page-Removal va vm level t =
      let start = unmap_page-found allocator root va vm in
      elim (Option-cases (find vm.offset 2 (to_virt vm.offset root) va vm.words)) [
        | inl e ↦ absent (start ∙ rw e refl) (lookup-none vm.offset vm.words 2 root va e)
        | inr (pte, e) ↦
            let now = lookup-find vm.offset 2 root va vm.words e in
            let w = vm.words pte in
            elim (Bool-cases (is_valid w)) [
              | inr v ↦ absent (start ∙ rw (e, v) refl) (now ∙ rw v refl)
              | inl v ↦ elim (Run-cases (allocator.free_page (pte2pa w) vm.store)) [
                | inr f ↦ halted w (now ∙ rw v refl) f (start ∙ rw (e, v, f) refl)
                | inl (store, f) ↦
                    removed w (record vm { words = write vm.words pte 0; store = store })
                      (now ∙ rw v refl) f (start ∙ rw (e, v, f) refl) refl
                      (written-IsTree t va 0 pte e) (λ va'. lookup-written t va 0 pte e va')
              ]
            ]
      ]
