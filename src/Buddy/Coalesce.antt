-- ===== src/Buddy/Coalesce.antt =====
-- The merging loop of `free_pages` of kernel/mm/mem.c on the tiling.
use system_n.Base.{
  ℕ, zero, suc, ◌+◌, ◌*◌, ◌≤◌, ◌<◌, ◌^◌, ◌≡◌, refl, Bool, true, false, not, ◌||◌, inl, inr, Option,
  some, List, [], ◌∷◌, has, arith, ltb, ◌==◌, if◌then◌else◌, ap, sym, ◌∙◌, Bool-cases, ==_iff,
}
use system_n.Base.Toggle.{toggle, toggle_twice, toggle-cases}
use system_n.Spinlock.{Run, done, panic}
use system_n.Proc.{page_size}
use system_n.Buddy.{Buddy, get_page_struct, buddy_of, absorb, coalesce}
use system_n.Buddy.Tiling.{Block, in_range, IsTiling, paint, pow-pos, twice}
use system_n.Buddy.State.{Inner, IsBuddy}
use system_n.Buddy.Take.{Inner-bounds, pow_mono}
use system_n.Buddy.Merge.{Meet}
use system_n.Buddy.Address.{addr_of}

-- The buddy of a block that was merged into a larger one lies in that one too.
Inner-toggle : (x o h p : ℕ) → Inner x o h p → (h ≤ toggle o x) × (toggle o x < h + 2 ^ p)
Inner-toggle x o h zero n = elim n [ ]
Inner-toggle x o h (suc p) n = elim n [
  | inl (e, inl lt) ↦
      let big = pow_mono (suc o) p (omega (arith, lt)) in
      ground (arith, e, big, twice o, twice p, toggle-cases o x, pow-pos o)
  | inl (e, inr (eq, back)) ↦
      let b : toggle o x ≡ h = rw eq back in omega (arith, b, pow-pos (suc p))
  | inr (inl c) ↦ omega (arith, Inner-toggle x o h p c, twice p)
  | inr (inr c) ↦ omega (arith, Inner-toggle x o (h + 2 ^ p) p c, twice p)
]

Block-eta :
    (k : Block) {h o : ℕ} {u : Bool}
    → k.head ≡ h
    → k.order ≡ o
    → k.used ≡ u
    → k ≡ record { head = h; order = o; used = u }
Block-eta k a b c = rw (sym a, sym b, sym c) refl

module _ {b : Buddy} {tile : ℕ → Block} {lists : ℕ → List ℕ} {i o : ℕ}
    (s : IsBuddy b tile lists (i ∷ []))
    (t : tile i ≡ record { head = i; order = o; used = true }) where
  -- A page struct that passes the test for a free buddy is that of a free block on its list.
  pub buddy-listed :
      toggle o i < b.num_pages
      → (b.pages (toggle o i)).is_free ≡ true
      → (b.pages (toggle o i)).order ≡ o
      → (tile (toggle o i) ≡ record { head = toggle o i; order = o; used = false })
        × (has (toggle o i) (lists o) ≡ true)
  buddy-listed l f e =
      let j = toggle o i in
      let (li, hi, ui) = s.in_hand i (ground arith) in
      let ne : (j == i) ≡ false = ground (arith, toggle-cases o i, pow-pos o) in
      elim (Bool-cases ((tile j).head == j)) [
        | inl c ↦
            let h : (tile j).head ≡ j = (==_iff (tile j).head j).0 c in
            let out : has j (i ∷ []) ≡ false = ground (arith, ne) in
            let u : (tile j).used ≡ false = ground (arith, s.flags j l h out, f) in
            let d : (tile j).order ≡ o = sym (s.orders j l h out) ∙ e in
            (Block-eta (tile j) h d u, rw d at (s.complete j l h u))
        | inr c ↦
            let inner : Inner j o (tile j).head (tile j).order =
              rw e at (s.stale j l f (ground (arith, c))) in
            let (lo, hi') = Inner-toggle j o (tile j).head (tile j).order inner in
            let back = toggle_twice o i in
            let same : tile i ≡ tile j = s.tiling.whole j i l (ground (arith, lo, hi', back)) in
            let inner' : Inner j o i o = rw (sym same, t) at inner in
            absurd (omega (arith, Inner-bounds j o i o inner'))
      ]

-- The three ways of a round.
module _ (fuel left o addr aj : ℕ) (b : Buddy) where
  pub coalesce-far :
      buddy_of addr o b ≡ aj
      → get_page_struct aj b ≡ panic
      → coalesce fuel (suc left) o addr b ≡ some panic
  unfolding coalesce
  coalesce-far e g = rw (coalesce, e, g) refl

  pub coalesce-stops :
      (j : ℕ)
      → buddy_of addr o b ≡ aj
      → get_page_struct aj b ≡ done j
      → (not (b.pages j).is_free || not ((b.pages j).order == o)) ≡ true
      → coalesce fuel (suc left) o addr b ≡ some (done (o, addr, b))
  unfolding coalesce
  coalesce-stops j e g c = rw (coalesce, e, g, c) refl

  pub coalesce-goes_on :
      (j : ℕ) (b1 : Buddy)
      → buddy_of addr o b ≡ aj
      → get_page_struct aj b ≡ done j
      → (not (b.pages j).is_free || not ((b.pages j).order == o)) ≡ false
      → absorb fuel o j b ≡ some b1
      → coalesce fuel (suc left) o addr b
        ≡ coalesce fuel left (suc o) (if ltb aj addr then aj else addr) b1
  unfolding coalesce
  coalesce-goes_on j b1 e g c a =
      rw (coalesce, e, g, c, a)
        (ap (λ x. coalesce fuel left (suc o) (if ltb x addr then x else addr) b1) e)

-- What the loop leaves in hand: a block that contains the one it began with, the rest of which was
-- free.
pub record Grown (b : Buddy) (tile : ℕ → Block) (i o : ℕ) (after : Buddy) (i' o' : ℕ) : Type 0 where
  pub tile' : ℕ → Block
  pub lists' : ℕ → List ℕ
  pub valid : IsBuddy after tile' lists' (i' ∷ [])
  pub mine : tile' i' ≡ record { head = i'; order = o'; used = true }
  pub low : i' ≤ i
  pub high : i + 2 ^ o ≤ i' + 2 ^ o'
  pub outside : (x : ℕ) → in_range i' (i' + 2 ^ o') x ≡ false → tile' x ≡ tile x
  pub was_free :
      (x : ℕ)
      → in_range i' (i' + 2 ^ o') x ≡ true
      → in_range i (i + 2 ^ o) x ≡ false
      → (tile x).used ≡ false
  pub base : after.buddy_base_phys ≡ b.buddy_base_phys
  pub count : after.num_pages ≡ b.num_pages

-- The loop ends with such a block, or the hart halts, near the end of the memory.
pub data Merging (b : Buddy) (tile : ℕ → Block) (i o : ℕ) (r : Option (Run (ℕ × ℕ × Buddy)))
    : Type 0 where
  grown :
      (after : Buddy) (i' o' : ℕ)
      → r ≡ some (done (o', addr_of b i', after))
      → Grown b tile i o after i' o'
      → Merging b tile i o r
  halts : r ≡ some panic → b.num_pages < i + 1024 → Merging b tile i o r

-- Nothing to merge.
pub Grown-self :
    {b : Buddy} {tile : ℕ → Block} {lists : ℕ → List ℕ} (i o : ℕ)
    → IsBuddy b tile lists (i ∷ [])
    → tile i ≡ record { head = i; order = o; used = true }
    → Grown b tile i o b i o
Grown-self {b} {tile} {lists} i o s t = record {
  tile' = tile;
  lists' = lists;
  valid = s;
  mine = t;
  low = omega arith;
  high = omega arith;
  outside = λ x c. refl;
  was_free = λ x c d. absurd (ground (arith, c, d));
  base = refl;
  count = refl;
}

-- A round that merges, and what the rounds after it leave.
pub Merging-next :
    {b b1 : Buddy} {tile : ℕ → Block} {i j o lo : ℕ} {r r1 : Option (Run (ℕ × ℕ × Buddy))}
    → IsTiling b.num_pages tile
    → Meet b tile i j o lo
    → (b1.buddy_base_phys ≡ b.buddy_base_phys) × (b1.num_pages ≡ b.num_pages)
    → r ≡ r1
    → Merging b1
        (paint lo (lo + 2 ^ suc o) (record { head = lo; order = suc o; used = true }) tile)
        lo
        (suc o)
        r1
    → Merging b tile i o r
Merging-next {i} {o} {lo} t m (base, count) e (halts p n) =
    halts (e ∙ p) (ground (arith, n, count, m.side))
Merging-next {b} {b1} {tile} {i} {j} {o} {lo} t m (base, count) e (grown after i' o' p g) =
    let two = twice o in
    let side = m.side in
    grown after i' o' (e ∙ p ∙ ap (λ x. some (done (o', x + i' * page_size, after))) base) (record {
      tile' = g.tile';
      lists' = g.lists';
      valid = g.valid;
      mine = g.mine;
      low = ground (arith, g.low, side);
      high = ground (arith, g.high, side, two);
      outside = λ x c.
          let d : in_range lo (lo + 2 ^ suc o) x ≡ false = ground (arith, c, g.low, g.high) in
          g.outside x c ∙ rw d refl;
      was_free = λ x c d. elim (Bool-cases (in_range lo (lo + 2 ^ suc o) x)) [
        | inr f ↦ rw f at (g.was_free x c f)
        | inl f ↦
            let k : in_range j (j + 2 ^ o) x ≡ true = ground (arith, d, f, side, two) in
            ap (λ y. y.used) (t.whole j x m.bound_j (rw m.tile_j k) ∙ m.tile_j)
      ];
      base = g.base ∙ base;
      count = g.count ∙ count;
    })
