-- ===== src/Buddy/State.antt =====
-- The well-formed states of the buddy allocator of kernel/mm/mem.c: what its page structs and its
-- free lists say of a tiling of the pages.
use system_n.Base.{
  ℕ, zero, suc, ◌+◌, ◌^◌, ◌≤◌, ◌<◌, ◌≡◌, ◌≢◌, refl, true, false, not, ◌⊎◌, inl, inr, Option, none,
  some, List, [], ◌∷◌, has, arith, ◌==◌, ap, Bool-cases, ==_iff, ==_refl,
}
use system_n.Base.Toggle.{toggle}
use system_n.Queue.Ring.{Distinct}
use system_n.Buddy.{Page, Buddy, put, push_free}
use system_n.Buddy.Tiling.{Block, in_range, IsTiling, paint, block-IsUnion, paint-IsTiling, pow-pos}

-- The page structs from `head` on, along `next`, are those of `xs`.
abbrev pub IsList : (ℕ → Page) → Option ℕ → List ℕ → Type 0
IsList pages head [] = head ≡ none
IsList pages head (x ∷ xs) = (head ≡ some x) × IsList pages (pages x).next xs

-- A chain depends on the `next` words of its pages only.
pub IsList-frame :
    (f g : ℕ → Page) (head : Option ℕ) (xs : List ℕ)
    → ((x : ℕ) → has x xs ≡ true → (g x).next ≡ (f x).next)
    → IsList f head xs
    → IsList g head xs
IsList-frame f g head [] e l = l
IsList-frame f g head (x ∷ xs) e l =
    (l.0, IsList-frame f g (g x).next xs (λ y i. e y (ground arith)) (rw (e x (ground arith)) l.1))

-- The page struct of a page inside the block of order `p` from `h` on may be left over from a block
-- of order `ord` that was merged into it: then that block was the upper half of one at the point
-- where the halving of the block reaches it, or smaller than this half.
abbrev pub Inner : ℕ → ℕ → ℕ → ℕ → Type 0
Inner x ord h zero = ⊥
Inner x ord h (suc p) =
    ((x ≡ h + 2 ^ p) × ((ord < p) ⊎ ((ord ≡ p) × (toggle p x ≡ h))))
    ⊎ (Inner x ord h p ⊎ Inner x ord (h + 2 ^ p) p)

-- The page structs and the free lists agree with a tiling, but for the blocks in hand, which a
-- call is working on: they count as used.
pub record IsBuddy (b : Buddy) (tile : ℕ → Block) (lists : ℕ → List ℕ) (hand : List ℕ)
    : Type 0 where
  pub tiling : IsTiling b.num_pages tile
  pub flags :
      (x : ℕ)
      → x < b.num_pages
      → (tile x).head ≡ x
      → has x hand ≡ false
      → (b.pages x).is_free ≡ not (tile x).used
  pub orders :
      (x : ℕ)
      → x < b.num_pages
      → (tile x).head ≡ x
      → has x hand ≡ false
      → (b.pages x).order ≡ (tile x).order
  pub in_hand :
      (x : ℕ) → has x hand ≡ true → (x < b.num_pages) × ((tile x).head ≡ x) × ((tile x).used ≡ true)
  pub hand_order :
      (x : ℕ) → has x hand ≡ true → (b.pages x).is_free ≡ true → (b.pages x).order ≤ (tile x).order
  pub listed :
      (o x : ℕ)
      → o ≤ 10
      → has x (lists o) ≡ true
      → (x < b.num_pages) × (tile x ≡ record { head = x; order = o; used = false })
  pub complete :
      (x : ℕ)
      → x < b.num_pages
      → (tile x).head ≡ x
      → (tile x).used ≡ false
      → has x (lists (tile x).order) ≡ true
  pub stale :
      (x : ℕ)
      → x < b.num_pages
      → (b.pages x).is_free ≡ true
      → (tile x).head ≢ x
      → Inner x (b.pages x).order (tile x).head (tile x).order
  pub chains : (o : ℕ) → o ≤ 10 → IsList b.pages (b.free_lists o) (lists o)
  pub distinct : (o : ℕ) → o ≤ 10 → Distinct (lists o)

module _ {b : Buddy} {tile : ℕ → Block} {lists : ℕ → List ℕ} {hand : List ℕ} where
  -- What is on a free list is in no block in hand.
  pub listed-outside :
      (s : IsBuddy b tile lists hand) (i o q x : ℕ)
      → has i hand ≡ true
      → (tile i).order ≡ o
      → q ≤ 10
      → has x (lists q) ≡ true
      → in_range i (i + 2 ^ o) x ≡ false
  listed-outside s i o q x m e z f = elim (Bool-cases (in_range i (i + 2 ^ o) x)) [
    | inr c ↦ c
    | inl c ↦
        let (l, h, u) = s.in_hand i m in
        let same : tile x ≡ tile i = s.tiling.whole i x l (rw (h, e) c) in
        absurd (ground (arith, ap (λ k. k.used) same, ap (λ k. k.used) (s.listed q x z f).1))
  ]

module _ {b : Buddy} {tile : ℕ → Block} {lists : ℕ → List ℕ} {hand : List ℕ} where
  -- A block in hand goes to the front of its free list.
  pub push_free-IsBuddy :
      (i o : ℕ)
      → IsBuddy b tile lists (i ∷ hand)
      → has i hand ≡ false
      → (tile i).order ≡ o
      → IsBuddy
          (push_free i o b)
          (paint i (i + 2 ^ o) (record { head = i; order = o; used = false }) tile)
          (put lists o (i ∷ lists o))
          hand
  unfolding push_free
  push_free-IsBuddy i o s out e =
      let k : Block = record { head = i; order = o; used = false } in
      let (l, h, u) = s.in_hand i (ground arith) in
      let fits : i + 2 ^ o ≤ b.num_pages = rw (h, e) at (s.tiling.inside i l) in
      let small : o ≤ 10 = rw e at (s.tiling.small i l) in
      let here : in_range i (i + 2 ^ o) i ≡ true = ground (arith, pow-pos o) in
      let away : (x : ℕ) → in_range i (i + 2 ^ o) x ≡ false → (x == i) ≡ false =
        λ x c. ground (arith, here, c) in
      let far : (q x : ℕ) → q ≤ 10 → has x (lists q) ≡ true → (x == i) ≡ false =
        λ q x z m. away x (listed-outside s i o q x (ground arith) e z m) in
      let hand_away : (x : ℕ) → has x hand ≡ true → in_range i (i + 2 ^ o) x ≡ false = λ x m.
        elim (Bool-cases (in_range i (i + 2 ^ o) x)) [
          | inr c ↦ c
          | inl c ↦
              let (z, y, w) = s.in_hand x (ground (arith, m)) in
              let same : tile x ≡ tile i = s.tiling.whole i x l (rw (h, e) c) in
              absurd (ground (arith, ap (λ k. k.head) same, y, h, m, out))
        ] in
      record {
        tiling = paint-IsTiling s.tiling k fits small (rw (h, e) at (block-IsUnion s.tiling i l));
        flags = λ x z y m. elim (Bool-cases (in_range i (i + 2 ^ o) x)) [
          | inl c ↦ let y' : i ≡ x = rw c at y in ground (arith, c, y')
          | inr c ↦ rw (c, away x c) (s.flags x z (rw c at y) (ground (arith, m, away x c)))
        ];
        orders = λ x z y m. elim (Bool-cases (in_range i (i + 2 ^ o) x)) [
          | inl c ↦ let y' : i ≡ x = rw c at y in ground (arith, c, y')
          | inr c ↦ rw (c, away x c) (s.orders x z (rw c at y) (ground (arith, m, away x c)))
        ];
        in_hand = λ x m.
            let (z, y, w) = s.in_hand x (ground (arith, m)) in
            let c = hand_away x m in rw c (z, y, w);
        hand_order = λ x m f.
            let c = hand_away x m in
            rw (c, away x c) (s.hand_order x (ground (arith, m)) (rw (away x c) at f));
        listed = λ q x z m. elim (Bool-cases (q == o)) [
          | inr d ↦
              let m' = rw d at m in
              let c = listed-outside s i o q x (ground arith) e z m' in rw c (s.listed q x z m')
          | inl d ↦ elim (Bool-cases (x == i)) [
            | inl f ↦
                let xi : x ≡ i = (==_iff x i).0 f in
                let qo : q ≡ o = (==_iff q o).0 d in rw (xi, qo, here) (l, refl)
            | inr f ↦
                let m' : has x (lists q) ≡ true = ground (arith, m, d, f) in
                let c = listed-outside s i o q x (ground arith) e z m' in rw c (s.listed q x z m')
          ]
        ];
        complete = λ x z y f. elim (Bool-cases (in_range i (i + 2 ^ o) x)) [
          | inl c ↦ let y' : i ≡ x = rw c at y in rw (c, ==_refl o) (ground (arith, y'))
          | inr c ↦ let old = s.complete x z (rw c at y) (rw c at f) in rw c (ground (arith, old))
        ];
        stale = λ x z f n. elim (Bool-cases (in_range i (i + 2 ^ o) x)) [
          | inl c ↦
              let ne : (x == i) ≡ false = ground (arith, c, n) in
              let same : tile x ≡ tile i = s.tiling.whole i x l (rw (h, e) c) in
              let old : (tile x).head ≢ x = rw (same, h) (ground (arith, ne)) in
              rw (c, ne) (rw (same, h, e) at (s.stale x z (rw ne at f) old))
          | inr c ↦ rw (c, away x c) (s.stale x z (rw (away x c) at f) (rw c at n))
        ];
        chains = λ q z. elim (Bool-cases (q == o)) [
          | inr d ↦ rw d (
              IsList-frame b.pages (put b.pages i _) (b.free_lists q) (lists q)
                (λ y m. rw (far q y z m) refl) (s.chains q z))
          | inl d ↦
              rw ((==_iff q o).0 d, ==_refl o, ==_refl i)
                (
                  refl,
                  IsList-frame b.pages (put b.pages i _) (b.free_lists o) (lists o)
                      (λ y m. rw (far o y small m) refl) (s.chains o small),
                )
        ];
        distinct = λ q z. elim (Bool-cases (q == o)) [
          | inr d ↦ rw d (s.distinct q z)
          | inl d ↦ rw d (
              (
                elim (Bool-cases (has i (lists o))) [
                  | inr f ↦ f
                  | inl f ↦
                      absurd
                        (ground (arith, here, listed-outside s i o o i (ground arith) e small f))
                ],
                s.distinct o small,
              ))
        ];
      }

pub push_free-words :
    (i o : ℕ) (b : Buddy)
    → ((push_free i o b).buddy_base_phys ≡ b.buddy_base_phys)
      × ((push_free i o b).num_pages ≡ b.num_pages)
unfolding push_free
push_free-words i o b = (refl, refl)
