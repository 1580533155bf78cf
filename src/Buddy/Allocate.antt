-- ===== src/Buddy/Allocate.antt =====
-- `alloc_pages` of kernel/mm/mem.c on the tiling of the pages.
use system_n.Base.{
  ℕ, zero, suc, ◌+◌, ◌-◌, ◌*◌, ◌%◌, ◌^◌, ◌≤◌, ◌<◌, ◌≡◌, refl, true, false, ◌⊎◌, inl, inr, Option,
  none, some, List, [], ◌∷◌, has, arith, ltb, leb, ◌==◌, ap, ◌∙◌, Bool-cases, ==_iff, ==_refl,
}
use system_n.Spinlock.{Run, done}
use system_n.Proc.{ulong_mod, page_size}
use system_n.Buddy.{Buddy, max_order, page_addr, take_block, split, alloc_from, alloc_pages}
use system_n.Buddy.Tiling.{Block, in_range, paint, pow-pos}
use system_n.Buddy.State.{IsList, IsBuddy}
use system_n.Buddy.Take.{take_block-IsBuddy, pow_mono}
use system_n.Buddy.Split.{Halved, split-Halved}

-- A block in hand that its page struct agrees with is a block in use.
close-IsBuddy :
    {b : Buddy} {tile : ℕ → Block} {lists : ℕ → List ℕ} (i order : ℕ)
    → IsBuddy b tile lists (i ∷ [])
    → tile i ≡ record { head = i; order = order; used = true }
    → (b.pages i).order ≡ order
    → (b.pages i).is_free ≡ false
    → IsBuddy b tile lists []
close-IsBuddy i order s e o f = record {
  tiling = s.tiling;
  flags = λ x z y m. elim (Bool-cases (x == i)) [
    | inl c ↦ rw ((==_iff x i).0 c, e, f) refl
    | inr c ↦ s.flags x z y (ground (arith, c))
  ];
  orders = λ x z y m. elim (Bool-cases (x == i)) [
    | inl c ↦ rw ((==_iff x i).0 c, e, o) refl
    | inr c ↦ s.orders x z y (ground (arith, c))
  ];
  in_hand = λ x m. absurd (ground (arith, m));
  hand_order = λ x m g. absurd (ground (arith, m));
  listed = s.listed;
  complete = s.complete;
  stale = s.stale;
  chains = s.chains;
  distinct = s.distinct;
}

-- A block of `2 ^ order` pages from page `i` on, which were free, is in use now, and the tiling is
-- otherwise as it was for the pages in use, with the same free pages.
pub record Allocated (b : Buddy) (tile : ℕ → Block) (order i : ℕ) (after : Buddy) : Type 0 where
  pub tile' : ℕ → Block
  pub lists' : ℕ → List ℕ
  pub valid : IsBuddy after tile' lists' []
  pub mine : tile' i ≡ record { head = i; order = order; used = true }
  pub fits : i + 2 ^ order ≤ b.num_pages
  pub was_free : (x : ℕ) → in_range i (i + 2 ^ order) x ≡ true → (tile x).used ≡ false
  pub kept : (x : ℕ) → (tile x).used ≡ true → tile' x ≡ tile x
  pub rest_free :
      (x : ℕ)
      → (tile x).used ≡ false
      → in_range i (i + 2 ^ order) x ≡ false
      → (tile' x).used ≡ false
  pub base : after.buddy_base_phys ≡ b.buddy_base_phys
  pub count : after.num_pages ≡ b.num_pages

List-cases : (xs : List ℕ) → (xs ≡ []) ⊎ ((x : ℕ) × (ys : List ℕ) × (xs ≡ x ∷ ys))
List-cases [] = inl refl
List-cases (x ∷ ys) = inr (x, ys, refl)

take_block-free : (o order i : ℕ) (b : Buddy) → ((take_block o order i b).pages i).is_free ≡ false
unfolding take_block
take_block-free o order i b = rw (==_refl i) refl

-- What becomes of a first block of a list, once it has been halved.
Halved-Allocated :
    {b : Buddy} {tile : ℕ → Block} {lists : ℕ → List ℕ} (order k i : ℕ) {r : Run Buddy}
    → IsBuddy b tile lists []
    → i < b.num_pages
    → tile i ≡ record { head = i; order = order + k; used = false }
    → (h : Halved
        (take_block (order + k) order i b)
        (paint i (i + 2 ^ (order + k)) (record { head = i; order = order + k; used = true }) tile)
        i
        order
        (order + k)
        r)
    → Allocated b tile order i h.after
unfolding take_block
Halved-Allocated {b} {tile} order k i s l t h =
    let o = order + k in
    let big = pow_mono order o (omega arith) in
    let top : i + 2 ^ o ≤ b.num_pages = rw t at (s.tiling.inside i l) in
    let free : (x : ℕ) → in_range i (i + 2 ^ o) x ≡ true → (tile x).used ≡ false =
      λ x c. ap (λ k. k.used) (s.tiling.whole i x l (rw t c) ∙ t) in
    let struct : h.after.pages i ≡ record (b.pages i) { order = order; is_free = false } =
      h.struct ∙ rw (==_refl i) refl in
    record {
      tile' = h.tile';
      lists' = h.lists';
      valid =
          close-IsBuddy i order h.valid h.mine (ap (λ p. p.order) struct)
            (ap (λ p. p.is_free) struct);
      mine = h.mine;
      fits = omega (arith, top, big);
      was_free = λ x c. free x (ground (arith, c, big));
      kept = λ x u.
          let c : in_range i (i + 2 ^ o) x ≡ false = ground (arith, free x, u) in
          h.outside x c ∙ rw c refl;
      rest_free = λ x f c. elim (Bool-cases (in_range i (i + 2 ^ o) x)) [
        | inl d ↦ h.rest_free x d c
        | inr d ↦ ap (λ k. k.used) (h.outside x d) ∙ rw d f
      ];
      base = h.base;
      count = h.count;
    }

-- What `alloc_pages` answers: a block, or that none of the order or more is free.
pub data Answer (b : Buddy) (tile : ℕ → Block) (order : ℕ) (r : Run (Option ℕ × Buddy))
    : Type 0 where
  block :
      (i : ℕ) (after : Buddy)
      → r ≡ done (some ((b.buddy_base_phys + i * page_size) % ulong_mod), after)
      → Allocated b tile order i after
      → Answer b tile order r
  full :
      r ≡ done (none, b)
      → ((x : ℕ) → x < b.num_pages → (tile x).used ≡ false → (tile x).order < order)
      → Answer b tile order r

alloc_from-some :
    (left k order i : ℕ) (b after : Buddy)
    → b.free_lists (order + k) ≡ some i
    → split k order i (take_block (order + k) order i b) ≡ done after
    → i < after.num_pages
    → alloc_from (suc left) k order b
      ≡ done (some ((after.buddy_base_phys + i * page_size) % ulong_mod), after)
unfolding alloc_from page_addr
alloc_from-some left k order i b after head runs l =
    let there : leb after.num_pages i ≡ false = ground (arith, l) in
    rw (alloc_from, head, runs, there) refl

module _ {b : Buddy} {tile : ℕ → Block} {lists : ℕ → List ℕ} (s : IsBuddy b tile lists []) where
  alloc_from-Answer :
      (left k order : ℕ)
      → order + k + left ≡ 11
      → ((o : ℕ) → order ≤ o → o < order + k → lists o ≡ [])
      → Answer b tile order (alloc_from left k order b)
  unfolding alloc_from
  alloc_from-Answer zero k order e empty = full refl (λ x l f.
      let o = (tile x).order in
      let z = s.tiling.small x l in
      let h = (tile x).head in
      let same : tile h ≡ tile x = s.tiling.whole x h l (ground (arith, pow-pos o)) in
      let lh : h < b.num_pages = omega (arith, s.tiling.from x l, l) in
      let m : has h (lists o) ≡ true = rw same at (s.complete h lh (rw same refl) (rw same f)) in
      ground (arith, m, e, z, empty o))
  alloc_from-Answer (suc left) k order e empty =
      let o = order + k in
      let small : o ≤ 10 = omega arith in
      elim (List-cases (lists o)) [
        | inl n ↦
            let head : b.free_lists o ≡ none = rw n at (s.chains o small) in
            rw (alloc_from, head)
              (alloc_from-Answer left (suc k) order (omega (arith, e)) (λ q a c.
                elim (Bool-cases (q == o)) [
                  | inl f ↦ rw ((==_iff q o).0 f) n
                  | inr f ↦ empty q a (ground (arith, f, c))
                ]))
        | inr (i, rest, n) ↦
            let c : IsList b.pages (b.free_lists o) (i ∷ rest) = rw n at (s.chains o small) in
            let (l, t) = s.listed o i small (rw n (ground arith)) in
            let here : in_range i (i + 2 ^ o) i ≡ true = ground (arith, pow-pos o) in
            let h =
              split-Halved k order i (take_block-IsBuddy s o order i rest small n) (rw here refl)
                (take_block-free o order i b) in
            let a = Halved-Allocated order k i s l t h in
            block i h.after
              (alloc_from-some left k order i b h.after c.0 h.runs (rw a.count l) ∙ rw a.base refl)
              a
      ]

  -- For an allocator whose page structs and free lists agree with a tiling of its pages,
  -- alloc_pages of any order ends. Either it answers the address of 2^order pages in the memory,
  -- all of which were free, and the page structs and free lists then agree with a tiling in which
  -- they are one block in use, every block in use before is as it was, and every other free page
  -- is still free; or it answers NULL and changes nothing, and every free block is of a smaller
  -- order.
  pub alloc_pages-Answer : (order : ℕ) → Answer b tile order (alloc_pages order b)
  unfolding alloc_pages
  alloc_pages-Answer order = elim (Bool-cases (ltb max_order order)) [
    | inl big ↦ rw big (full refl (λ x l f. ground (arith, big, s.tiling.small x l)))
    | inr fine ↦ rw fine (
        alloc_from-Answer (max_order + 1 - order) 0 order (ground (arith, fine))
          (λ o a c. absurd (omega (arith, a, c))))
  ]
