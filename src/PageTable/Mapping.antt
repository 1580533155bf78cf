-- ===== src/PageTable/Mapping.antt =====
-- `walk`, `map_page` and `unmap_page` of kernel/mm/pagetable.c against a walk that reads only.
use system_n.Base.{
  ℕ, zero, suc, ◌%◌, ◌^◌, ◌<◌, ◌≡◌, refl, true, false, Option, none, some, List, [], ◌∷◌, arith,
  if◌then◌else◌, ◌∙◌, ap, has, Bool-cases, inl, inr, ==_refl,
}
use system_n.Spinlock.{done}
use system_n.PageTable.{
  PageAllocator, Vm, minus_one, is_valid, pte2pa, vpn_level, entry, write, leaf, walk_from, walk,
  map_page, unmap_page, to_virt, and_then,
}
use system_n.PageTable.Entry.{leaf-pte2pa}

-- The entry of level 0 for an address, where all tables above it are there.
unfoldable pub find : ℕ → ℕ → ℕ → ℕ → (ℕ → ℕ) → Option ℕ
find offset zero table va words = some (entry table (vpn_level va 0))
find offset (suc level) table va words =
    let w = words (entry table (vpn_level va (suc level))) in
    let down = find offset level (to_virt offset (pte2pa w)) va words in
    if is_valid w then down else none

-- The entries that the walk reads above level 0.
unfoldable pub path : ℕ → ℕ → ℕ → ℕ → (ℕ → ℕ) → List ℕ
path offset zero table va words = []
path offset (suc level) table va words =
    let pte = entry table (vpn_level va (suc level)) in
    pte ∷ path offset level (to_virt offset (pte2pa (words pte))) va words

-- A write elsewhere leaves the walk as it is.
find-write :
    (offset level table va : ℕ) (words : ℕ → ℕ) (a v : ℕ)
    → has a (path offset level table va words) ≡ false
    → find offset level table va (write words a v) ≡ find offset level table va words
unfolding find path
find-write offset zero table va words a v h = refl
find-write offset (suc level) table va words a v h =
    let pte = entry table (vpn_level va (suc level)) in
    let same : write words a v pte ≡ words pte = ground arith in
    let ih =
      find-write offset level (to_virt offset (pte2pa (words pte))) va words a v (ground arith) in
    rw (same, ih)

module _ {S : Type 0} (allocator : PageAllocator S) where
  -- Without `alloc` the walk is `find`, and changes nothing.
  pub walk_from-find :
      (level table va : ℕ) (vm : Vm S)
      → walk_from allocator level table va false vm
        ≡ done (find vm.offset level table va vm.words, vm)
  unfolding walk_from find
  walk_from-find zero table va vm = refl
  walk_from-find (suc level) table va vm =
      let w = vm.words (entry table (vpn_level va (suc level))) in
      elim (Bool-cases (is_valid w)) [
        | inl e ↦ rw e (walk_from-find level (to_virt vm.offset (pte2pa w)) va vm)
        | inr e ↦ rw e
      ]

  -- With `alloc` it is too, where the tables are there.
  walk_from-found :
      (level table va : ℕ) (vm : Vm S) {pte : ℕ}
      → find vm.offset level table va vm.words ≡ some pte
      → walk_from allocator level table va true vm ≡ done (some pte, vm)
  unfolding walk_from find
  walk_from-found zero table va vm f = ap (λ r. done (r, vm)) f
  walk_from-found (suc level) table va vm {pte} f =
      let w = vm.words (entry table (vpn_level va (suc level))) in
      elim (Bool-cases (is_valid w)) [
        | inl e ↦
            rw e
              (walk_from-found level (to_virt vm.offset (pte2pa w)) va vm {pte = pte} (rw e at f))
        | inr e ↦ absurd (ground (arith, e, f))
      ]

  -- Where the tables above an address are there, map_page writes the leaf entry if it is not
  -- valid, keeps a valid one as it is, and answers 0 in both cases.
  pub map_page-found :
      (pagetable va pa perm : ℕ) (vm : Vm S) {pte : ℕ}
      → find vm.offset 2 (to_virt vm.offset pagetable) va vm.words ≡ some pte
      → map_page allocator pagetable va pa perm vm
        ≡ done (
          0,
          if is_valid (vm.words pte)
              then vm
              else (record vm { words = write vm.words pte (leaf pa perm) }),
        )
  unfolding map_page walk
  map_page-found pagetable va pa perm vm f =
      rw (walk_from-found 2 (to_virt vm.offset pagetable) va vm f)

  -- unmap_page is, on every branch, what a walk that only reads predicts: -1 with nothing changed
  -- if a table is missing or the entry is not valid, else the page is freed and the entry cleared.
  pub unmap_page-found :
      (pagetable va : ℕ) (vm : Vm S)
      → unmap_page allocator pagetable va vm
        ≡ (elim (find vm.offset 2 (to_virt vm.offset pagetable) va vm.words) [
          | none ↦ done (minus_one, vm)
          | some pte ↦
              if is_valid (vm.words pte)
              then (and_then
                  (allocator.free_page (pte2pa (vm.words pte)) vm.store)
                  λ store. done (0, record vm { words = write vm.words pte 0; store = store }))
              else done (minus_one, vm)
        ])
  unfolding unmap_page walk
  unmap_page-found pagetable va vm = rw (walk_from-find 2 (to_virt vm.offset pagetable) va vm)

-- map_page of an aligned page below 2^56 with ten permission bits and then unmap_page of the same
-- address, where the tables are there, the entry is clear and no entry of the walk above it, and
-- free_page succeeds, hands the same page to free_page and leaves every word of the tables as it
-- was.
pub unmap_page-map_page :
    {S : Type 0} (allocator : PageAllocator S) (pagetable va pa perm : ℕ) (vm : Vm S) (store : S)
    {pte : ℕ}
    → find vm.offset 2 (to_virt vm.offset pagetable) va vm.words ≡ some pte
    → vm.words pte ≡ 0
    → has pte (path vm.offset 2 (to_virt vm.offset pagetable) va vm.words) ≡ false
    → pa < 2 ^ 56
    → pa % 2 ^ 12 ≡ 0
    → perm < 2 ^ 10
    → allocator.free_page pa vm.store ≡ done store
    → (vm' : Vm S) × (and_then
          (map_page allocator pagetable va pa perm vm)
          (λ (r, vm1). unmap_page allocator pagetable va vm1)
        ≡ done (0, vm'))
      × (vm'.store ≡ store)
      × ((a : ℕ) → vm'.words a ≡ vm.words a)
unmap_page-map_page allocator pagetable va pa perm vm store {pte} f clear out h a p free =
    let root = to_virt vm.offset pagetable in
    let w1 = write vm.words pte (leaf pa perm) in
    let (back, valid) = leaf-pte2pa pa perm h a p in
    let free0 : is_valid (vm.words pte) ≡ false = rw clear in
    let here : w1 pte ≡ leaf pa perm = rw (==_refl pte) in
    let again : find vm.offset 2 root va w1 ≡ some pte =
      find-write vm.offset 2 root va vm.words pte (leaf pa perm) out ∙ f in
    (
      record vm { words = write w1 pte 0; store = store },
      rw (map_page-found allocator pagetable va pa perm vm f, free0, and_then)
          (unmap_page-found allocator pagetable va (record vm { words = w1 })
            ∙ rw (again, here, valid, back, free)),
      refl,
      λ x. ground (arith, clear),
    )
