-- ===== src/Boot/Init.antt =====
-- `mm_init` of kernel/start.c: what the memory is when the kernel turns to virtual addresses.
use system_n.Base.{
  ℕ, ◌+◌, ◌*◌, ◌%◌, ◌^◌, ◌≤◌, ◌<◌, ◌≡◌, refl, Bool, true, ◌&&◌, none, some, arith, leb, ltb, ◌==◌,
  if◌then◌else◌, ◌∙◌, ==_refl,
}
use system_n.Spinlock.{done}
use system_n.Proc.{page_size, make_satp}
use system_n.Buddy.{Buddy, layout, buddy_allocator_init}
use system_n.Buddy.Regions.{layout-divides, layout-count}
use system_n.Buddy.Populate.{Ready, buddy_allocator_init-Ready}
use system_n.Buddy.Address.{addr_of}
use system_n.Buddy.Pages.{buddy_pages, free_count-all, buddy_supply}
use system_n.PageTable.{Vm, va_offset, phys_to_virt, clear_at, entry, to_virt, vpn_level}
use system_n.PageTable.Shape.{Levels, word, IsTree, lookup, vpn-bound}
use system_n.PageTable.Moved.{IsTree-moved, lookup-moved}
use system_n.PageTable.Grow.{Tables}
use system_n.Snub.{Snub, snub_init}
use system_n.Boot.Early.{Sections, setup_kernel_pagetable, Memory, first_vm, switch_over, mm_init}
use system_n.Boot.Mapped.{IsLaidOut, kernel_map, setup_kernel_pagetable-KernelMaps}

-- One table, with no entry.
abbrev pub alone : ℕ → Levels
alone root t = if t == root then some 2 else none

cleared :
    (root : ℕ) (words : ℕ → ℕ) (i : ℕ)
    → root < 2 ^ 32
    → i < 512
    → word 0 (clear_at root words) root i ≡ 0
cleared root words i h b =
    let e : entry (to_virt 0 root) i ≡ root + 8 * i = omega (arith, h, b) in
    let inside : (leb root (root + 8 * i) && ltb (root + 8 * i) (root + page_size)) ≡ true =
      ground (arith, b) in
    rw (e, inside) refl

module _ (root : ℕ) (words : ℕ → ℕ) (page : root % page_size ≡ 0) (low : root < 2 ^ 32) where
  pub first-IsTree : IsTree 0 root (clear_at root words) (alone root)
  first-IsTree = record {
    fits = omega arith;
    top = rw (==_refl root) refl;
    is_page = λ t l h. let e : t ≡ root = ground (arith, h) in rw e (page, low);
    only_root = λ t h. ground (arith, h);
    low = λ t l h. ground (arith, h);
    down = λ t l i h b v.
        let e : t ≡ root = ground (arith, h) in
        let z : word 0 (clear_at root words) t i ≡ 0 = rw e (cleared root words i low b) in
        absurd (ground (arith, rw z at v));
    apart = λ t t' l i i' h h' b b' v v' c.
        let e : t ≡ root = ground (arith, h) in
        let z : word 0 (clear_at root words) t i ≡ 0 = rw e (cleared root words i low b) in
        absurd (ground (arith, rw z at v));
  }

  first-lookup : (va : ℕ) → lookup 0 2 root va (clear_at root words) ≡ none
  unfolding lookup
  first-lookup va = rw (lookup, cleared root words (vpn_level va 2) low (vpn-bound va 2)) refl

  -- The kernel's table is none of the allocator's pages.
  first-Tables :
      (rounds : ℕ) {b : Buddy} {end : ℕ}
      → end ≤ 0x8080_0000
      → 0x8000_0000 ≤ end
      → Ready end b
      → root < (layout end).base
      → Tables
          (buddy_supply rounds)
          0
          root
          (first_vm root words b)
          (alone root)
          (λ t. t == root)
          (layout end).count
  unfolding first_vm
  first-Tables rounds {b} {end} h l r below =
      let (behind, room, aligned, whole) = layout-divides end (omega (arith, h)) in
      record {
        at_offset = refl;
        tree = first-IsTree;
        held = λ t m e. ground (arith, e);
        pages = record {
          tile = r.tile;
          lists = r.lists;
          valid = r.valid;
          placed = r.placed;
          aligned = rw r.base aligned;
          low = rw (r.base, r.count) (omega (arith, whole));
          marks = λ i z t.
              let e : addr_of b i ≡ root = ground (arith, t) in
              absurd (omega (arith, e, r.base, below));
          room = omega (arith, free_count-all b.num_pages r.tile r.all_free, r.count);
        };
      }

-- The memory as the kernel addresses it from then on.
abbrev pub vm_after : Memory → Vm Buddy
vm_after m = record { words = m.snub.words; store = m.snub.store; offset = m.offset }

-- Each page below 4 GB has the entry that the sections give it, and the tables are well formed, on
-- an allocator with pages left, at the addresses that the kernel uses from then on.
pub record Initialised (rounds : ℕ) (s : Sections) (m : Memory) : Type 0 where
  pub level : Levels
  pub taken : ℕ → Bool
  pub left : ℕ
  pub tables :
      Tables (buddy_supply rounds) va_offset m.kernel_pagetable (vm_after m) level taken left
  pub enough : 15000 ≤ left
  pub entries :
      (pa : ℕ)
      → pa % page_size ≡ 0
      → pa < 2 ^ 32
      → lookup va_offset 2 m.kernel_pagetable (phys_to_virt pa) m.snub.words ≡ kernel_map s pa
  pub active : m.satp ≡ make_satp m.kernel_pagetable
  pub no_objects : (i : ℕ) → m.snub.partial i ≡ 0

mm_init-runs :
    (fuel rounds : ℕ) (s : Sections) (snub : Snub Buddy) {b : Buddy} {vm : Vm Buddy}
    → buddy_allocator_init fuel s.bss_end ≡ some (done b)
    → setup_kernel_pagetable
        (buddy_pages rounds)
        s
        (layout s.bss_end).kernel_pagetable
        (first_vm (layout s.bss_end).kernel_pagetable snub.words b)
      ≡ done vm
    → mm_init fuel rounds s snub
      ≡ some (done (switch_over (layout s.bss_end).kernel_pagetable snub vm))
unfolding mm_init
mm_init-runs fuel rounds s snub e e' = rw (mm_init, e, e') refl

-- For a kernel whose sections lie in order from 0x80000000 to at most 0x80800000, each on pages of
-- its own, and more fuel than the allocator has pages, mm_init ends and does not halt. The table
-- that satp then names gives, at the kernel's virtual addresses, the pages of text read and
-- execute, those of read-only data read only, those from the data section to 0x80800000 read and
-- write, the page of the UART read and write, and no entry to any other page below 4 GB; the
-- tables are well formed, the allocator is well formed with 15000 pages left at least, and no
-- class of small objects has an object.
pub mm_init-Initialised :
    (fuel rounds : ℕ) (s : Sections) (snub : Snub Buddy)
    → IsLaidOut s
    → (layout s.bss_end).count < fuel
    → (m : Memory) × (mm_init fuel rounds s snub ≡ some (done m)) × Initialised rounds s m
unfolding switch_over snub_init first_vm
mm_init-Initialised fuel rounds s snub i f =
    let start : 0x8000_0000 ≤ s.bss_end =
      omega
        (arith, i.first, i.text_ends, i.after_text, i.rodata_ends, i.after_rodata, i.data_ends) in
    let root = (layout s.bss_end).kernel_pagetable in
    let (count, page, low, below) = layout-count s.bss_end i.last start in
    let (b, e, r) = buddy_allocator_init-Ready fuel s.bss_end (omega (arith, i.last)) f in
    let tables = first-Tables root snub.words page low rounds i.last start r below in
    let (vm, e', k) =
      setup_kernel_pagetable-KernelMaps (buddy_supply rounds) root s (layout s.bss_end).count i
        tables (λ pa. first-lookup root snub.words page low (phys_to_virt pa))
        (omega (arith, count)) in
    (
      switch_over root snub vm,
      mm_init-runs fuel rounds s snub e e',
      record {
        level = k.level';
        taken = k.taken';
        left = k.left';
        tables = record {
          at_offset = refl;
          tree = IsTree-moved k.tables.tree;
          held = k.tables.held;
          pages = k.tables.pages;
        };
        enough = omega (arith, count, k.spent);
        entries = λ pa a h.
            lookup-moved k.tables.tree 2 root (phys_to_virt pa) k.tables.tree.top
            ∙ k.entries pa a h;
        active = refl;
        no_objects = λ i. refl;
      },
    )
