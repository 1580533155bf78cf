-- ===== src/Boot/Ranges.antt =====
-- The loops of `setup_kernel_pagetable` of kernel/start.c: what they map.
use system_n.Base.{
  ℕ, zero, suc, ◌+◌, ◌*◌, ◌%◌, ◌^◌, ◌≤◌, ◌<◌, ◌≡◌, refl, Bool, true, false, ◌&&◌, Option, arith,
  leb, ltb, ◌==◌, if◌then◌else◌, ◌∙◌, Bool-cases, inl, inr, ==_refl, ==_iff,
}
use system_n.Spinlock.{done}
use system_n.Proc.{page_size}
use system_n.PageTable.{PageAllocator, Vm, vpn_level, phys_to_virt, leaf, map_page}
use system_n.PageTable.Shape.{Levels}
use system_n.PageTable.Supply.{Supply}
use system_n.PageTable.Grow.{Tables}
use system_n.PageTable.Update.{same_page, translate, or_else, mapped, refused, map_page-Mapping}
use system_n.Boot.Early.{map_range}

-- Pages below 4 GB, at the addresses that the kernel gives them, are told apart.
same_page-virt :
    (pa pa' : ℕ)
    → pa % page_size ≡ 0
    → pa' % page_size ≡ 0
    → pa < 2 ^ 32
    → pa' < 2 ^ 32
    → same_page (phys_to_virt pa) (phys_to_virt pa') ≡ (pa == pa')
same_page-virt pa pa' a a' b b' = elim (Bool-cases (pa == pa')) [
  | inl e ↦
      rw
        (
          (==_iff pa pa').0 e,
          ==_refl (vpn_level (phys_to_virt pa') 0),
          ==_refl (vpn_level (phys_to_virt pa') 1),
          ==_refl (vpn_level (phys_to_virt pa') 2),
          ==_refl pa',
        )
        refl
  | inr e ↦ rw e (elim (Bool-cases (same_page (phys_to_virt pa) (phys_to_virt pa'))) [
    | inr n ↦ n
    | inl y ↦
        let e0 : vpn_level (phys_to_virt pa) 0 ≡ vpn_level (phys_to_virt pa') 0 =
          ground (arith, y) in
        let e1 : vpn_level (phys_to_virt pa) 1 ≡ vpn_level (phys_to_virt pa') 1 =
          ground (arith, y) in
        let e2 : vpn_level (phys_to_virt pa) 2 ≡ vpn_level (phys_to_virt pa') 2 =
          ground (arith, y) in
        let same : pa ≡ pa' = omega (arith, e0, e1, e2, a, a', b, b') in
        absurd (ground (arith, e, same))
  ])
]

abbrev pub between : ℕ → ℕ → ℕ → Bool
between lo hi pa = leb lo pa && ltb pa hi

-- The entry of a page below 4 GB.
abbrev pub kernel_entry : {S : Type 0} → ℕ → Vm S → ℕ → Option ℕ
kernel_entry root vm pa = translate 0 root vm (phys_to_virt pa)

-- A first page and the pages behind it.
ranges :
    (pa count pa' : ℕ) (old : Option ℕ) (v : ℕ)
    → pa % page_size ≡ 0
    → pa' % page_size ≡ 0
    → (if between (pa + page_size) (pa + page_size + count * page_size) pa'
        then or_else (if between pa (pa + page_size) pa' then or_else old v else old) v
        else (if between pa (pa + page_size) pa' then or_else old v else old))
      ≡ (if between pa (pa + suc count * page_size) pa' then or_else old v else old)
ranges pa count pa' old v a a' = elim (Bool-cases (between pa (pa + page_size) pa')) [
  | inl e ↦
      let later : between (pa + page_size) (pa + page_size + count * page_size) pa' ≡ false =
        ground (arith, e) in
      let all : between pa (pa + suc count * page_size) pa' ≡ true = ground (arith, e) in
      rw (e, later, all) refl
  | inr e ↦
      let all : between pa (pa + suc count * page_size) pa'
          ≡ between (pa + page_size) (pa + page_size + count * page_size) pa' =
        ground (arith, e) in
      rw (e, all) refl
]

module _ {S : Type 0} {allocator : PageAllocator S} (supply : Supply allocator) (root : ℕ) where
  -- Tables in which a range of pages is mapped to itself, and the rest is as before.
  pub record Covers (vm : Vm S) (left cost lo hi perm : ℕ) (vm' : Vm S) : Type 0 where
    pub level' : Levels
    pub taken' : ℕ → Bool
    pub left' : ℕ
    pub tables : Tables supply 0 root vm' level' taken' left'
    pub spent : left ≤ left' + cost
    pub entries :
        (pa : ℕ)
        → pa % page_size ≡ 0
        → pa < 2 ^ 32
        → kernel_entry root vm' pa ≡ (
            if between lo hi pa
            then or_else (kernel_entry root vm pa) (leaf pa perm)
            else kernel_entry root vm pa)

  pub map_page-Covers :
      (pa perm left : ℕ) {vm : Vm S} {level : Levels} {taken : ℕ → Bool}
      → Tables supply 0 root vm level taken left
      → pa % page_size ≡ 0
      → pa < 2 ^ 32
      → 2 ≤ left
      → (vm' : Vm S) × (map_page allocator root (phys_to_virt pa) pa perm vm ≡ done (0, vm'))
        × Covers vm left 2 pa (pa + page_size) perm vm'
  map_page-Covers pa perm left {vm} s a b enough =
      elim (map_page-Mapping supply 0 root (phys_to_virt pa) pa perm left s) [
        | refused vm' level' taken' e n t f ↦ absurd (omega (arith, n, enough))
        | mapped vm' level' taken' left' e n t f ↦ (
          vm',
          e,
          record {
            level' = level';
            taken' = taken';
            left' = left';
            tables = t;
            spent = n;
            entries = λ pa' a' b'.
                f (phys_to_virt pa')
                ∙ rw (same_page-virt pa pa' a a' b b') (elim (Bool-cases (pa == pa')) [
                  | inl y ↦
                      let e' : pa ≡ pa' = (==_iff pa pa').0 y in
                      let inside : between pa (pa + page_size) pa' ≡ true = ground (arith, e') in
                      rw (y, inside, e') refl
                  | inr n' ↦
                      let outside : between pa (pa + page_size) pa' ≡ false =
                        ground (arith, n', a, a') in
                      rw (n', outside) refl
                ]);
          },
        )
      ]

  pub map_range-Covers :
      (count pa perm left : ℕ) {vm : Vm S} {level : Levels} {taken : ℕ → Bool}
      → Tables supply 0 root vm level taken left
      → pa % page_size ≡ 0
      → pa + count * page_size ≤ 2 ^ 32
      → 2 * count ≤ left
      → (vm' : Vm S) × (map_range allocator count pa root perm vm ≡ done vm')
        × Covers vm left (2 * count) pa (pa + count * page_size) perm vm'
  unfolding map_range
  map_range-Covers zero pa perm left {vm} {level} {taken} s a b enough = (
    vm,
    refl,
    record {
      level' = level;
      taken' = taken;
      left' = left;
      tables = s;
      spent = omega arith;
      entries = λ pa' a' b'.
          let outside : between pa (pa + 0 * page_size) pa' ≡ false = ground arith in
          rw outside refl;
    },
  )
  map_range-Covers (suc count) pa perm left {vm} s a b enough =
      let (vm1, e1, c1) =
        map_page-Covers pa perm left s a (omega (arith, b)) (omega (arith, enough)) in
      let (vm2, e2, c2) =
        map_range-Covers count (pa + page_size) perm c1.left' c1.tables (omega (arith, a))
          (omega (arith, b)) (omega (arith, enough, c1.spent)) in
      (
        vm2,
        rw (map_range, e1) e2,
        record {
          level' = c2.level';
          taken' = c2.taken';
          left' = c2.left';
          tables = c2.tables;
          spent = omega (arith, c1.spent, c2.spent);
          entries = λ pa' a' b'.
              c2.entries pa' a' b'
              ∙ rw (c1.entries pa' a' b') (ranges pa count pa' _ (leaf pa' perm) a a');
        },
      )
