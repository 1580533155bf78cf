-- ===== src/Buddy/Populate.antt =====
-- `buddy_allocator_init` of kernel/mm/mem.c: the free lists it populates.
use system_n.Base.{
  ℕ, zero, suc, ◌+◌, ◌-◌, ◌*◌, ◌^◌, ◌≤◌, ◌<◌, ◌≡◌, refl, true, false, not, ◌||◌, inl, inr, none,
  some, List, [], arith, ltb, leb, ◌==◌, ap, sym, ◌∙◌, Bool-cases,
}
use Prim.Native.Nat.{bit_and}
use system_n.Spinlock.{done}
use system_n.Proc.{page_size}
use system_n.Buddy.{
  Buddy, max_order, user_end, get_page_struct, fit_order, push_free, populate, layout,
  buddy_allocator_init,
}
use system_n.Buddy.Regions.{layout-divides}
use system_n.Buddy.Tiling.{Block, in_range, pow-pos}
use system_n.Buddy.State.{push_free-words, IsBuddy, push_free-IsBuddy}
use system_n.Buddy.Address.{IsPlaced-same, IsPlaced, addr_of, get_page_struct-found}
use system_n.Buddy.Extend.{upto, extend-IsBuddy}

-- The block that is found fits.
fit_order-fits :
    (order curr phys_end : ℕ)
    → curr + page_size ≤ phys_end
    → (fit_order order curr phys_end ≤ order)
      × (curr + page_size * 2 ^ fit_order order curr phys_end ≤ phys_end)
unfolding fit_order
fit_order-fits zero curr phys_end l = (omega arith, l)
fit_order-fits (suc order) curr phys_end l =
    let (z, h) = fit_order-fits order curr phys_end l in
    elim (Bool-cases (
      ltb phys_end (curr + page_size * 2 ^ suc order)
      || not (bit_and curr (page_size * 2 ^ suc order - 1) == 0))) [
        | inl c ↦ rw (fit_order, c) (omega (arith, z), h)
        | inr c ↦ rw (fit_order, c) (omega arith, ground (arith, c))
      ]

-- All pages are free.
pub record Filled (b after : Buddy) : Type 0 where
  pub tile : ℕ → Block
  pub lists : ℕ → List ℕ
  pub valid : IsBuddy after tile lists []
  pub all_free : (x : ℕ) → x < b.num_pages → (tile x).used ≡ false
  pub base : after.buddy_base_phys ≡ b.buddy_base_phys
  pub count : after.num_pages ≡ b.num_pages

push_free-fresh :
    (i o : ℕ) (b : Buddy)
    → ((x : ℕ) → i ≤ x → (b.pages x).is_free ≡ false)
    → (x : ℕ) → i + 2 ^ o ≤ x
    → ((push_free i o b).pages x).is_free ≡ false
unfolding push_free
push_free-fresh i o b fresh x l =
    let ne : (x == i) ≡ false = ground (arith, l, pow-pos o) in rw ne (fresh x (omega arith))

-- One more block, and the pages before it.
push_free-upto : (n i o : ℕ) (b : Buddy) → push_free i o (upto n b) ≡ upto n (push_free i o b)
unfolding push_free
push_free-upto n i o b = refl

module _ (fuel i o phys_end : ℕ) (b : Buddy) where
  populate-ends :
      (addr : ℕ)
      → leb (addr + page_size) phys_end ≡ false
      → populate (suc fuel) addr phys_end b ≡ some (done b)
  unfolding populate
  populate-ends addr c = rw (populate, c) refl

  populate-next :
      (addr : ℕ)
      → leb (addr + page_size) phys_end ≡ true
      → get_page_struct addr b ≡ done i
      → fit_order max_order addr phys_end ≡ o
      → populate (suc fuel) addr phys_end b
        ≡ populate fuel (addr + page_size * 2 ^ o) phys_end (push_free i o b)
  unfolding populate
  populate-next addr c g e = rw (populate, c, g, e) refl

populate-Filled :
    (fuel i : ℕ) {b : Buddy} {tile : ℕ → Block} {lists : ℕ → List ℕ}
    → IsPlaced b
    → i ≤ b.num_pages
    → IsBuddy (upto i b) tile lists []
    → ((x : ℕ) → x < i → (tile x).used ≡ false)
    → ((x : ℕ) → i ≤ x → (b.pages x).is_free ≡ false)
    → b.num_pages < i + fuel
    → (after : Buddy) × (populate fuel (addr_of b i) (addr_of b b.num_pages) b ≡ some (done after))
      × Filled b after
populate-Filled zero i p l s free fresh f = absurd (omega (arith, l, f))
populate-Filled (suc fuel) i {b} {tile} {lists} p l s free fresh f =
    let phys_end = addr_of b b.num_pages in
    elim (Bool-cases (leb (addr_of b i + page_size) phys_end)) [
      | inr c ↦
          let e : i ≡ b.num_pages = ground (arith, c, l) in
          (
            b,
            populate-ends fuel i 0 phys_end b (addr_of b i) c,
            record {
              tile = tile;
              lists = lists;
              valid = rw e at s;
              all_free = λ x z. free x (omega (arith, e));
              base = refl;
              count = refl;
            },
          )
      | inl c ↦
          let o = fit_order max_order (addr_of b i) phys_end in
          let (small, ends) = fit_order-fits max_order (addr_of b i) phys_end (ground (arith, c)) in
          let room : i + 2 ^ o ≤ b.num_pages = omega (arith, ends) in
          let found = get_page_struct-found p i (ground (arith, c)) in
          let here : in_range i (i + 2 ^ o) i ≡ true = ground (arith, pow-pos o) in
          let b' = push_free i o b in
          let (base, count) = push_free-words i o b in
          let grown : IsBuddy (upto (i + 2 ^ o) b') _ _ [] =
            rw (push_free-upto (i + 2 ^ o) i o b) at
              (push_free-IsBuddy i o (extend-IsBuddy b i o s fresh small) refl (rw here refl)) in
          let next : addr_of b i + page_size * 2 ^ o ≡ addr_of b' (i + 2 ^ o) =
            rw base (omega arith) in
          let same : phys_end ≡ addr_of b' b'.num_pages = rw (base, count) refl in
          let (after, runs, filled) =
            populate-Filled fuel (i + 2 ^ o) {b = b'} (IsPlaced-same p base count) (rw count room)
              grown
              (λ x z. elim (Bool-cases (in_range i (i + 2 ^ o) x)) [
                | inl d ↦ rw d refl
                | inr d ↦ rw d (free x (ground (arith, z, d)))
              ])
              (push_free-fresh i o b fresh) (omega (arith, count, f, pow-pos o)) in
          (
            after,
            populate-next fuel i o phys_end b (addr_of b i) c found refl
                ∙ ap (λ z. populate fuel z phys_end b') next
                ∙ ap (λ z. populate fuel (addr_of b' (i + 2 ^ o)) z b') same
                ∙ runs,
            record {
              tile = filled.tile;
              lists = filled.lists;
              valid = filled.valid;
              all_free = λ x z. filled.all_free x (rw count z);
              base = filled.base ∙ base;
              count = filled.count ∙ count;
            },
          )
    ]

-- A well-formed allocator in which all pages are free, with the base and the number of pages that
-- the layout gives.
pub record Ready (kernel_end : ℕ) (after : Buddy) : Type 0 where
  pub tile : ℕ → Block
  pub lists : ℕ → List ℕ
  pub valid : IsBuddy after tile lists []
  pub placed : IsPlaced after
  pub all_free : (x : ℕ) → x < after.num_pages → (tile x).used ≡ false
  pub base : after.buddy_base_phys ≡ (layout kernel_end).base
  pub count : after.num_pages ≡ (layout kernel_end).count

-- For a kernel that ends at least three pages before the end of user memory, on memory that is
-- zero where memset leaves the last page struct alone, and more fuel than pages,
-- buddy_allocator_init ends, with page structs and free lists that agree with a tiling of the
-- pages into free blocks, at the base and with the number of pages that the layout gives.
pub buddy_allocator_init-Ready :
    (fuel kernel_end : ℕ)
    → kernel_end + 3 * page_size ≤ user_end
    → (layout kernel_end).count < fuel
    → (after : Buddy) × (buddy_allocator_init fuel kernel_end ≡ some (done after))
      × Ready kernel_end after
unfolding buddy_allocator_init
buddy_allocator_init-Ready fuel kernel_end h f =
    let l = layout kernel_end in
    let (behind, room, aligned, whole) = layout-divides kernel_end h in
    let b : Buddy = record {
      buddy_base_phys = l.base;
      num_pages = l.count;
      pages = λ _. record { order = 0; is_free = false; next = none };
      free_lists = λ _. none;
    } in
    let p : IsPlaced b = record {
      not_null = omega (arith, behind, room);
      below = omega (arith, whole);
    } in
    let none_yet : IsBuddy (upto 0 b) (λ _. record { head = 0; order = 0; used = true }) (λ _. [])
        [] =
      record {
        tiling = record {
          from = λ x z. absurd (omega (arith, z));
          upto = λ x z. absurd (omega (arith, z));
          inside = λ x z. absurd (omega (arith, z));
          small = λ x z. absurd (omega (arith, z));
          whole = λ x y z r. refl;
        };
        flags = λ x z e m. absurd (omega (arith, z));
        orders = λ x z e m. absurd (omega (arith, z));
        in_hand = λ x m. absurd (ground (arith, m));
        hand_order = λ x m e. absurd (ground (arith, m));
        listed = λ o x z m. absurd (ground (arith, m));
        complete = λ x z e m. absurd (omega (arith, z));
        stale = λ x z e m. absurd (omega (arith, z));
        chains = λ o z. refl;
        distinct = λ o z. tt;
      } in
    let at_start : populate fuel l.base user_end b
        ≡ populate fuel (addr_of b 0) (addr_of b l.count) b =
      ap (λ z. populate fuel z user_end b) (omega arith)
      ∙ ap (λ z. populate fuel (addr_of b 0) z b) (sym whole) in
    let (after, runs, filled) =
      populate-Filled fuel 0 {b = b} p (omega arith) none_yet (λ x z. absurd (omega (arith, z)))
        (λ x z. refl) (omega (arith, f)) in
    (
      after,
      at_start ∙ runs,
      record {
        tile = filled.tile;
        lists = filled.lists;
        valid = filled.valid;
        placed = IsPlaced-same p filled.base filled.count;
        all_free = λ x z. filled.all_free x (rw filled.count at z);
        base = filled.base;
        count = filled.count;
      },
    )
