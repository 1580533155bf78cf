-- ===== src/PageTable/Update.antt =====
-- `map_page` of kernel/mm/pagetable.c as an update of a map from pages to entries.
use system_n.Base.{
  ℕ, zero, suc, ◌+◌, ◌≤◌, ◌<◌, ◌≡◌, refl, Bool, true, false, ◌&&◌, Option, none, some, arith, ◌==◌,
  if◌then◌else◌, ◌∙◌, ap, sym, Bool-cases, inl, inr, ==_refl, ==_iff, Option-cases,
}
use system_n.Spinlock.{Run, done}
use system_n.PageTable.{
  PageAllocator, Vm, minus_one, is_valid, pte2pa, vpn_level, entry, to_virt, write, leaf, walk_from,
  walk, map_page,
}
use system_n.PageTable.Entry.{leaf-is_valid}
use system_n.PageTable.Mapping.{find}
use system_n.PageTable.Shape.{
  Levels, word, IsTree, IsTree-same, find-same, find-leaf, find-apart, vpn-bound, entry-apart,
  lookup, lookup-find,
}
use system_n.PageTable.Supply.{Supply}
use system_n.PageTable.Grow.{Tables, reached, ran_out, walk_from-Reached}

-- Two addresses in one page, as the three levels of tables see them.
abbrev pub same_page : ℕ → ℕ → Bool
same_page va va' =
    (vpn_level va 2 == vpn_level va' 2)
    && (vpn_level va 1 == vpn_level va' 1)
    && (vpn_level va 0 == vpn_level va' 0)

same_page-levels :
    (va va' : ℕ) → same_page va va' ≡ true → (j : ℕ) → j ≤ 2 → vpn_level va j ≡ vpn_level va' j
same_page-levels va va' h zero z = ground (arith, h)
same_page-levels va va' h (suc zero) z = ground (arith, h)
same_page-levels va va' h (suc (suc zero)) z = ground (arith, h)
same_page-levels va va' h (suc (suc (suc j))) z = absurd (omega (arith, z))

levels-same_page :
    (va va' : ℕ) → ((j : ℕ) → j ≤ 2 → vpn_level va j ≡ vpn_level va' j) → same_page va va' ≡ true
levels-same_page va va' h = ground (arith, h 0 (omega arith), h 1 (omega arith), h 2 (omega arith))

module _ (offset : ℕ) (words : ℕ → ℕ) where
  -- A walk reads its address by levels only.
  find-levels :
      (l t va va' : ℕ)
      → ((j : ℕ) → j ≤ l → vpn_level va j ≡ vpn_level va' j)
      → find offset l (to_virt offset t) va words ≡ find offset l (to_virt offset t) va' words
  unfolding find
  find-levels zero t va va' h = rw (h 0 (omega arith)) refl
  find-levels (suc l) t va va' h =
      let ih =
        find-levels l (pte2pa (word offset words t (vpn_level va' (suc l)))) va va'
          (λ j z. h j (omega arith)) in
      rw (find, h (suc l) (omega arith), ih) refl

  pub lookup-none :
      (l t va : ℕ)
      → find offset l (to_virt offset t) va words ≡ none
      → lookup offset l t va words ≡ none
  unfolding lookup find
  lookup-none zero t va f = absurd (ground (arith, f))
  lookup-none (suc l) t va f =
      let w = word offset words t (vpn_level va (suc l)) in
      elim (Bool-cases (is_valid w)) [
        | inl e ↦ rw (lookup, e) (lookup-none l (pte2pa w) va (rw e at f))
        | inr e ↦ rw (lookup, e) refl
      ]

-- The entry of an address in the address space with the top table `root`.
abbrev pub translate : {S : Type 0} → ℕ → ℕ → Vm S → ℕ → Option ℕ
translate offset root vm va = lookup offset 2 root va vm.words

-- An entry that is there stays.
abbrev pub or_else : Option ℕ → ℕ → Option ℕ
or_else none v = some v
or_else (some w) v = some w

module _ {offset root : ℕ} {words : ℕ → ℕ} {level : Levels} (s : IsTree offset root words level)
    (va v pte : ℕ) (here : find offset 2 (to_virt offset root) va words ≡ some pte) where
  -- The entry is none of a table above level 0.
  written-same :
      (t l i : ℕ)
      → level t ≡ some (suc l)
      → i < 512
      → word offset (write words pte v) t i ≡ word offset words t i
  written-same t l i h b =
      let (t0, z, e) = find-leaf s 2 root va s.top here in
      let ne : (entry (to_virt offset t) i == pte) ≡ false =
        elim (Bool-cases (entry (to_virt offset t) i == pte)) [
          | inr n ↦ n
          | inl y ↦
              let (a, c) =
                entry-apart offset t t0 i (vpn_level va 0) s.fits (s.is_page t (suc l) h)
                  (s.is_page t0 0 z) b (vpn-bound va 0)
                  ((==_iff (entry (to_virt offset t) i) pte).0 y ∙ e) in
              let h0 : level t ≡ some 0 = rw a z in absurd (ground (arith, h, h0))
        ] in
      rw ne refl

  pub written-IsTree : IsTree offset root (write words pte v) level
  written-IsTree = IsTree-same (write words pte v) s written-same

  -- The write changes the entry of that page, and of no other.
  pub lookup-written :
      (va' : ℕ)
      → lookup offset 2 root va' (write words pte v) ≡ (
          if same_page va va'
          then (if is_valid v then some v else none)
          else lookup offset 2 root va' words)
  lookup-written va' =
      let after : find offset 2 (to_virt offset root) va' (write words pte v)
          ≡ find offset 2 (to_virt offset root) va' words =
        find-same (write words pte v) s written-same 2 root va' s.top in
      elim (Bool-cases (same_page va va')) [
        | inl y ↦
            let there : find offset 2 (to_virt offset root) va' words ≡ some pte =
              sym (find-levels offset words 2 root va va' (same_page-levels va va' y)) ∙ here in
            rw (lookup-find offset 2 root va' (write words pte v) (after ∙ there), y, ==_refl pte)
              refl
        | inr n ↦ elim (Option-cases (find offset 2 (to_virt offset root) va' words)) [
          | inl e ↦
              rw
                (
                  lookup-none offset (write words pte v) 2 root va' (after ∙ e),
                  n,
                  lookup-none offset words 2 root va' e,
                )
                refl
          | inr (q, e) ↦
              let ne : (q == pte) ≡ false = elim (Bool-cases (q == pte)) [
                | inr k ↦ k
                | inl k ↦
                    let e' : find offset 2 (to_virt offset root) va' words ≡ some pte =
                      e ∙ ap some ((==_iff q pte).0 k) in
                    let (a, c) = find-apart s 2 root root va va' s.top s.top here e' in
                    absurd (ground (arith, n, levels-same_page va va' c))
              ] in
              rw
                (
                  lookup-find offset 2 root va' (write words pte v) (after ∙ e),
                  n,
                  lookup-find offset 2 root va' words e,
                  ne,
                )
                refl
        ]
      ]

module _ {S : Type 0} {allocator : PageAllocator S} (supply : Supply allocator) where
  -- What `map_page` comes to: the page has an entry, or there were no pages for the tables.
  pub data Mapping (offset root va v : ℕ) (vm : Vm S) (level : Levels) (left : ℕ)
      (r : Run (ℕ × Vm S)) : Type 0 where
    mapped :
        (vm' : Vm S) (level' : Levels) (taken' : ℕ → Bool) (left' : ℕ)
        → r ≡ done (0, vm')
        → left ≤ left' + 2
        → Tables supply offset root vm' level' taken' left'
        → ((va' : ℕ)
            → translate offset root vm' va' ≡ (
                if same_page va va'
                then or_else (translate offset root vm va) v
                else translate offset root vm va'))
        → Mapping offset root va v vm level left r
    refused :
        (vm' : Vm S) (level' : Levels) (taken' : ℕ → Bool)
        → r ≡ done (minus_one, vm')
        → left < 2
        → Tables supply offset root vm' level' taken' 0
        → ((va' : ℕ) → translate offset root vm' va' ≡ translate offset root vm va')
        → Mapping offset root va v vm level left r

  -- For an address space of three levels of tables, each of them in one place only and among the
  -- pages it holds of an allocator that gives fresh pages: map_page, of any address, page and
  -- permissions, ends. Either it answers 0, and the address space then translates the page of the
  -- address to the entry it had, or to the new one if it had none, and every other page as before,
  -- on tables that are well formed and take two pages of the allocator at most; or it answers -1,
  -- which it does only when the allocator can be sure of less than two pages, and every page is
  -- translated as before.
  pub map_page-Mapping :
      (offset root va pa perm left : ℕ) {vm : Vm S} {level : Levels} {taken : ℕ → Bool}
      → Tables supply offset root vm level taken left
      → Mapping offset root va (leaf pa perm) vm level left (map_page allocator root va pa perm vm)
  unfolding map_page walk
  map_page-Mapping offset root va pa perm left {vm} {level} s =
      let start : walk_from allocator 2 (to_virt vm.offset root) va true vm
          ≡ walk_from allocator 2 (to_virt offset root) va true vm =
        ap (λ o. walk_from allocator 2 (to_virt o root) va true vm) s.at_offset in
      elim (walk_from-Reached supply 2 root va s s.tree.top) [
        | ran_out vm1 level1 e n g ↦
            refused vm1 level1 g.taken' (rw (start, e) refl) n g.tables
              (λ va'. g.translates 2 root va' s.tree.top)
        | reached pte left1 vm1 level1 e n f g ↦
            let old : (va' : ℕ) → translate offset root vm1 va' ≡ translate offset root vm va' =
              λ va'. g.translates 2 root va' s.tree.top in
            let now = lookup-find offset 2 root va vm1.words f in
            elim (Bool-cases (is_valid (vm1.words pte))) [
              | inl v ↦
                  let was : translate offset root vm va ≡ some (vm1.words pte) =
                    sym (old va) ∙ now ∙ rw v refl in
                  mapped vm1 level1 g.taken' left1 (rw (start, e, v) refl) n g.tables (λ va'.
                    elim (Bool-cases (same_page va va')) [
                      | inr d ↦ rw d (old va')
                      | inl y ↦
                          let there =
                            sym (
                              find-levels offset vm1.words 2 root va va'
                                (same_page-levels va va' y))
                            ∙ f in
                          rw (y, was) (lookup-find offset 2 root va' vm1.words there ∙ rw v refl)
                    ])
              | inr v ↦
                  let was : translate offset root vm va ≡ none = sym (old va) ∙ now ∙ rw v refl in
                  mapped (record vm1 { words = write vm1.words pte (leaf pa perm) }) level1 g.taken'
                    left1 (rw (start, e, v) refl) n
                    (record {
                      at_offset = g.tables.at_offset;
                      tree = written-IsTree g.tables.tree va (leaf pa perm) pte f;
                      held = g.tables.held;
                      pages = g.tables.pages;
                    })
                    (λ va'.
                      lookup-written g.tables.tree va (leaf pa perm) pte f va'
                      ∙ elim (Bool-cases (same_page va va')) [
                        | inl y ↦ rw (y, was, leaf-is_valid pa perm) refl
                        | inr d ↦ rw d (old va')
                      ])
            ]
      ]
