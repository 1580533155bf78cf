-- ===== src/PageTable/Grow.antt =====
-- `walk` of kernel/mm/pagetable.c with `alloc`: the tables that it adds.
use Prim.Native.Nat.{bit_or}
use system_n.Base.{
  ℕ, zero, suc, ◌+◌, ◌-◌, ◌%◌, ◌^◌, ◌≤◌, ◌<◌, ◌≡◌, refl, Bool, true, false, ◌&&◌, Option, none,
  some, arith, ◌==◌, ◌∙◌, ap, Bool-cases, inl, inr, ==_refl, Option-cases,
}
use system_n.Spinlock.{Run, done}
use system_n.Proc.{page_size}
use system_n.PageTable.{
  PageAllocator, Vm, get_page, is_valid, pte_v, pte2pa, pa2pte, vpn_level, entry, to_virt, write,
  clear_at, walk_from,
}
use system_n.PageTable.Entry.{table-pte2pa}
use system_n.PageTable.Mapping.{find}
use system_n.PageTable.Shape.{Levels, word, IsTree, vpn-bound, lookup}
use system_n.PageTable.Fresh.{linked, with_table, word-other, linked-IsTree, lookup-linked}
use system_n.PageTable.Supply.{take, gives, empty, Supply}

module _ {S : Type 0} {allocator : PageAllocator S} (supply : Supply allocator) where
  -- The tables of an address space, all of them among the pages that it holds.
  pub record Tables (offset root : ℕ) (vm : Vm S) (level : Levels) (taken : ℕ → Bool) (left : ℕ)
      : Type 0 where
    pub at_offset : vm.offset ≡ offset
    pub tree : IsTree offset root vm.words level
    pub held : (t l : ℕ) → level t ≡ some l → taken t ≡ true
    pub pages : supply.inv vm.store taken left

  -- A state that grew from another: the tables are still there, and translate as before.
  pub record Grown (offset root : ℕ) (vm : Vm S) (level : Levels) (vm' : Vm S) (level' : Levels)
      (left' : ℕ) : Type 0 where
    pub taken' : ℕ → Bool
    pub tables : Tables offset root vm' level' taken' left'
    pub kept : (t l : ℕ) → level t ≡ some l → level' t ≡ some l
    pub entries :
        (t l i : ℕ)
        → level t ≡ some (suc l)
        → i < 512
        → is_valid (word offset vm.words t i) ≡ true
        → word offset vm'.words t i ≡ word offset vm.words t i
    pub translates :
        (l t va : ℕ)
        → level t ≡ some l
        → lookup offset l t va vm'.words ≡ lookup offset l t va vm.words

  Grown-refl :
      {offset root left : ℕ} {vm : Vm S} {level : Levels} {taken : ℕ → Bool}
      → Tables offset root vm level taken left
      → Grown offset root vm level vm level left
  Grown-refl {taken} t = record {
    taken' = taken;
    tables = t;
    kept = λ t l h. h;
    entries = λ t l i h b v. refl;
    translates = λ l t va h. refl;
  }

  Grown-trans :
      {offset root left left' : ℕ} {vm vm' vm'' : Vm S} {level level' level'' : Levels}
      → Grown offset root vm level vm' level' left
      → Grown offset root vm' level' vm'' level'' left'
      → Grown offset root vm level vm'' level'' left'
  Grown-trans g h = record {
    taken' = h.taken';
    tables = h.tables;
    kept = λ t l e. h.kept t l (g.kept t l e);
    entries = λ t l i e b v.
        let old = g.entries t l i e b v in h.entries t l i (g.kept t (suc l) e) b (rw old v) ∙ old;
    translates = λ l t va e. h.translates l t va (g.kept t l e) ∙ g.translates l t va e;
  }

  -- What a walk from a table of level `l` comes to: the entry of level 0, or NULL for lack of pages.
  pub data Reached (offset root : ℕ) (vm : Vm S) (level : Levels) (left l t va : ℕ)
      (r : Run (Option ℕ × Vm S)) : Type 0 where
    reached :
        (pte left' : ℕ) (vm' : Vm S) (level' : Levels)
        → r ≡ done (some pte, vm')
        → left ≤ left' + l
        → find offset l (to_virt offset t) va vm'.words ≡ some pte
        → Grown offset root vm level vm' level' left'
        → Reached offset root vm level left l t va r
    ran_out :
        (vm' : Vm S) (level' : Levels)
        → r ≡ done (none, vm')
        → left < l
        → Grown offset root vm level vm' level' 0
        → Reached offset root vm level left l t va r

  not_yet :
      {offset root left : ℕ} {vm : Vm S} {level : Levels} {taken : ℕ → Bool}
      → Tables offset root vm level taken left
      → (pa : ℕ) → taken pa ≡ false
      → level pa ≡ none
  not_yet {level} {taken} t pa f = elim (Option-cases (level pa)) [
    | inl e ↦ e
    | inr (l, e) ↦ absurd (ground (arith, t.held pa l e, f))
  ]

  -- A page that `alloc_page` gave becomes a table.
  link-Grown :
      {offset root left : ℕ} {vm : Vm S} {level : Levels} {taken : ℕ → Bool} (left' t l i pa : ℕ)
      (store : S)
      → Tables offset root vm level taken left
      → level t ≡ some (suc l)
      → i < 512
      → is_valid (word offset vm.words t i) ≡ false
      → taken pa ≡ false
      → (pa % page_size ≡ 0) × (pa < 2 ^ 32)
      → supply.inv store (take pa taken) left'
      → Grown offset root vm level
          (record vm { words = linked offset t i pa vm.words; store = store })
          (with_table pa l level)
          left'
  link-Grown {offset} {root} {vm} {level} {taken} left' t l i pa store s h b free new page inv =
      let none_yet = not_yet s pa new in
      let other : (q m : ℕ) → level q ≡ some m → (q == pa) ≡ false =
        λ q m e. ground (arith, e, none_yet) in
      record {
        taken' = take pa taken;
        tables = record {
          at_offset = s.at_offset;
          tree = linked-IsTree s.tree t l i pa h b free none_yet page;
          held = λ q m e. elim (Bool-cases (q == pa)) [
            | inl f ↦ rw f refl
            | inr f ↦ rw f (s.held q m (rw f at e))
          ];
          pages = inv;
        };
        kept = λ q m e. rw (other q m e) e;
        entries = λ q m j e c v.
            word-other s.tree t l i pa h b free none_yet page q (suc m) j e c
              (elim (Bool-cases ((q == t) && (j == i))) [
                | inr n ↦ n
                | inl n ↦
                    let qt : q ≡ t = ground (arith, n) in
                    let ji : j ≡ i = ground (arith, n) in
                    absurd (ground (arith, (rw (qt, ji) at v), free))
              ]);
        translates = λ m q va e. lookup-linked s.tree t l i pa h b free none_yet page m q va e;
      }

  -- A walk that goes on in a table that is there.
  below :
      {offset root left left1 k : ℕ} {vm vm1 : Vm S} {level level1 : Levels}
      {r : Run (Option ℕ × Vm S)} (l t va : ℕ)
      → level t ≡ some (suc l)
      → Grown offset root vm level vm1 level1 left1
      → is_valid (word offset vm1.words t (vpn_level va (suc l))) ≡ true
      → left ≤ left1 + k
      → (left < k → left1 ≡ 0)
      → k ≤ 1
      → Reached offset root vm1 level1 left1 l
          (pte2pa (word offset vm1.words t (vpn_level va (suc l))))
          va
          r
      → Reached offset root vm level left (suc l) t va r
  unfolding find
  below {offset} {vm1} l t va h g v n z k (reached pte left' vm' level' e m f g') =
      let same =
        g'.entries t l (vpn_level va (suc l)) (g.kept t (suc l) h) (vpn-bound va (suc l)) v in
      reached pte left' vm' level' e (omega (arith, n, m, k)) (rw (same, v) f) (Grown-trans g g')
  below l t va h g v n z k (ran_out vm' level' e m g') =
      ran_out vm' level' e (omega (arith, n, m, k)) (Grown-trans g g')

  -- The three ways of a round of the walk.
  module _ (l table va : ℕ) (vm : Vm S) where
    walk_from-down :
        is_valid (vm.words (entry table (vpn_level va (suc l)))) ≡ true
        → walk_from allocator (suc l) table va true vm
          ≡ walk_from allocator l
              (to_virt vm.offset (pte2pa (vm.words (entry table (vpn_level va (suc l))))))
              va
              true
              vm
    unfolding walk_from
    walk_from-down v = rw (walk_from, v) refl

    walk_from-full :
        (store : S)
        → is_valid (vm.words (entry table (vpn_level va (suc l)))) ≡ false
        → allocator.alloc_page vm.store ≡ done (none, store)
        → walk_from allocator (suc l) table va true vm ≡ done (none, record vm { store = store })
    unfolding walk_from get_page
    walk_from-full store v e = rw (walk_from, v, e) refl

    walk_from-new :
        (pa : ℕ) (store : S)
        → is_valid (vm.words (entry table (vpn_level va (suc l)))) ≡ false
        → allocator.alloc_page vm.store ≡ done (some pa, store)
        → walk_from allocator (suc l) table va true vm
          ≡ walk_from allocator l (to_virt vm.offset pa) va true (record vm {
            words =
                write
                  (clear_at (to_virt vm.offset pa) vm.words)
                  (entry table (vpn_level va (suc l)))
                  (bit_or (pa2pte pa) pte_v);
            store = store;
          })
    unfolding walk_from get_page
    walk_from-new pa store v e = rw (walk_from, v, e) refl

  pub walk_from-Reached :
      (l t va : ℕ) {offset root left : ℕ} {vm : Vm S} {level : Levels} {taken : ℕ → Bool}
      → Tables offset root vm level taken left
      → level t ≡ some l
      → Reached offset root vm level left l t va
          (walk_from allocator l (to_virt offset t) va true vm)
  unfolding walk_from find
  walk_from-Reached zero t va {level} s h =
      reached _ _ _ level refl (omega arith) refl (Grown-refl s)
  walk_from-Reached (suc l) t va {offset} {root} {left} {vm} {level} {taken} s h =
      let i = vpn_level va (suc l) in
      let b = vpn-bound va (suc l) in
      let table = to_virt offset t in
      let w = word offset vm.words t i in
      elim (Bool-cases (is_valid w)) [
        | inl v ↦
            let runs : walk_from allocator (suc l) table va true vm
                ≡ walk_from allocator l (to_virt offset (pte2pa w)) va true vm =
              walk_from-down l table va vm v
              ∙ ap (λ o. walk_from allocator l (to_virt o (pte2pa w)) va true vm) s.at_offset in
            rw runs (
              below {left = left} {left1 = left} {k = 0} l t va h (Grown-refl s) v (omega arith)
                (λ z. absurd (omega (arith, z))) (omega arith)
                (walk_from-Reached l (pte2pa w) va s (s.tree.down t l i h b v)))
        | inr v ↦ elim (supply.fresh vm.store taken left s.pages) [
          | empty store e z inv ↦
              ran_out (record vm { store = store }) level (walk_from-full l table va vm store v e)
                (omega (arith, z))
                (record {
                  taken' = taken;
                  tables = record {
                    at_offset = s.at_offset;
                    tree = s.tree;
                    held = s.held;
                    pages = inv;
                  };
                  kept = λ q m e. e;
                  entries = λ q m j e c v. refl;
                  translates = λ m q va e. refl;
                })
          | gives pa store e new page inv ↦
              let vm1 : Vm S = record vm { words = linked offset t i pa vm.words; store = store } in
              let g = link-Grown (left - 1) t l i pa store s h b v new page inv in
              let (leads, valid) =
                table-pte2pa pa (omega (arith, page.1)) (omega (arith, page.0)) in
              let link : word offset vm1.words t i ≡ bit_or (pa2pte pa) pte_v =
                rw (==_refl (entry table i)) refl in
              let at_pa : pte2pa (word offset vm1.words t i) ≡ pa = rw link leads in
              let runs : walk_from allocator (suc l) table va true vm
                  ≡ walk_from allocator l (to_virt offset pa) va true vm1 =
                walk_from-new l table va vm pa store v e
                ∙ ap
                    (λ o. walk_from allocator l (to_virt o pa) va true (record vm {
                      words =
                          write (clear_at (to_virt o pa) vm.words) (entry table i)
                            (bit_or (pa2pte pa) pte_v);
                      store = store;
                    }))
                    s.at_offset in
              let level_pa : with_table pa l level pa ≡ some l = rw (==_refl pa) refl in
              rw runs (
                below {left = left} {left1 = left - 1} {k = 1} l t va h g (rw link valid)
                  (omega arith) (λ z. omega (arith, z)) (omega arith)
                  (rw at_pa (walk_from-Reached l pa va g.tables level_pa)))
        ]
      ]
