-- ===== src/Buddy/Rounds.antt =====
-- All rounds of the merging loop of `free_pages` of kernel/mm/mem.c.
use system_n.Base.{
  ℕ, zero, suc, ◌+◌, ◌*◌, ◌≤◌, ◌<◌, ◌^◌, ◌≡◌, refl, true, false, not, ◌||◌, inl, inr, List, [], ◌∷◌,
  ◌++◌, length, length-append, arith, leb, ltb, ◌==◌, if◌then◌else◌, ap, sym, ◌∙◌, Bool-cases,
}
use system_n.Base.Toggle.{toggle, toggle-cases}
use system_n.Proc.{page_size}
use system_n.Buddy.{Buddy, coalesce}
use system_n.Buddy.Tiling.{Block, in_range, pow-pos}
use system_n.Queue.Ring.{Distinct}
use system_n.Buddy.State.{IsList, IsBuddy}
use system_n.Buddy.Take.{pow_mono}
use system_n.Buddy.Unlink.{has-split, absorb-Absorbed}
use system_n.Buddy.Merge.{Meet, merge-IsBuddy}
use system_n.Buddy.Address.{
  IsPlaced-same, IsPlaced, addr_of, get_page_struct-found, get_page_struct-far, buddy_of-toggle,
}
use system_n.Buddy.Coalesce.{
  Merging, grown, halts, Grown-self, Merging-next, buddy-listed, coalesce-far, coalesce-stops,
  coalesce-goes_on,
}

-- The lower of two buddies.
Meet-low :
    {b : Buddy} {tile : ℕ → Block} (i o : ℕ)
    → i < b.num_pages
    → toggle o i < b.num_pages
    → tile i ≡ record { head = i; order = o; used = true }
    → tile (toggle o i) ≡ record { head = toggle o i; order = o; used = false }
    → (lo : ℕ) × Meet b tile i (toggle o i) o lo
      × ((if ltb (addr_of b (toggle o i)) (addr_of b i)
            then addr_of b (toggle o i)
            else addr_of b i)
          ≡ addr_of b lo)
Meet-low {b} i o l lj t tj = elim (toggle-cases o i) [
  | inl e ↦
      let up : ltb (addr_of b (toggle o i)) (addr_of b i) ≡ false = ground (arith, e) in
      (
        i,
        record {
          bound_i = l;
          bound_j = lj;
          tile_i = t;
          tile_j = tj;
          flip = refl;
          side = inl (refl, e);
        },
        rw up refl,
      )
  | inr e ↦
      let down : ltb (addr_of b (toggle o i)) (addr_of b i) ≡ true = ground (arith, e, pow-pos o) in
      (
        toggle o i,
        record {
          bound_i = l;
          bound_j = lj;
          tile_i = t;
          tile_j = tj;
          flip = refl;
          side = inr (refl, e);
        },
        rw down refl,
      )
]

length-cut : (ys zs : List ℕ) (j : ℕ) → length (ys ++ zs) < length (ys ++ j ∷ zs)
length-cut ys zs j = omega (arith, length-append ys zs, length-append ys (j ∷ zs))

pub coalesce-Merging :
    (fuel left o i : ℕ) {b : Buddy} {tile : ℕ → Block} {lists : ℕ → List ℕ}
    → IsPlaced b
    → IsBuddy b tile lists (i ∷ [])
    → tile i ≡ record { head = i; order = o; used = true }
    → left + o ≡ 10
    → ((q : ℕ) → q ≤ 10 → length (lists q) < fuel)
    → Merging b tile i o (coalesce fuel left o (addr_of b i) b)
unfolding coalesce
coalesce-Merging fuel zero o i {b} p s t e f = grown b i o refl (Grown-self i o s t)
coalesce-Merging fuel (suc left) o i {b} {tile} {lists} p s t e f =
    let (l, h, u) = s.in_hand i (ground arith) in
    let j = toggle o i in
    let small : 2 ^ o ≤ 512 = pow_mono o 9 (omega (arith, e)) in
    let near : j ≤ i + 2 ^ o = ground (arith, toggle-cases o i) in
    let where_j = buddy_of-toggle p i o l (omega (arith, near, small, p.below)) in
    elim (Bool-cases (leb b.num_pages j)) [
      | inl far ↦
          halts
            (coalesce-far fuel left o (addr_of b i) (addr_of b j) b where_j
              (get_page_struct-far p j (ground (arith, far)) (omega (arith, near, small, p.below))))
            (ground (arith, far, near, small))
      | inr in_time ↦
          let lj : j < b.num_pages = ground (arith, in_time) in
          let found = get_page_struct-found p j lj in
          elim (Bool-cases (not (b.pages j).is_free || not ((b.pages j).order == o))) [
            | inl stop ↦
                grown b i o
                  (coalesce-stops fuel left o (addr_of b i) (addr_of b j) b j where_j found stop)
                  (Grown-self i o s t)
            | inr go ↦
                let (tj, listed) = buddy-listed s t lj (ground (arith, go)) (ground (arith, go)) in
                let (ys, zs, split, first) = has-split j (lists o) listed in
                let deep : o ≤ 10 = omega (arith, e) in
                let chain : IsList b.pages (b.free_lists o) (ys ++ j ∷ zs) =
                  rw split at (s.chains o deep) in
                let apart : Distinct (ys ++ j ∷ zs) = rw split at (s.distinct o deep) in
                let short : length (ys ++ j ∷ zs) < fuel = rw split at (f o deep) in
                let a =
                  absorb-Absorbed fuel o j ys zs b chain apart first
                    (omega (arith, short, length-append ys (j ∷ zs))) in
                let (lo, m, low) = Meet-low i o l lj t tj in
                let s1 = merge-IsBuddy s m (omega (arith, e)) split a in
                let big : in_range lo (lo + 2 ^ suc o) lo ≡ true =
                  ground (arith, pow-pos (suc o)) in
                let rest =
                  coalesce-Merging fuel left (suc o) lo {b = a.after}
                    (IsPlaced-same p a.base a.count) s1 (rw big refl) (omega (arith, e))
                    (λ q z. elim (Bool-cases (q == o)) [
                      | inl d ↦ rw d (omega (arith, short, length-cut ys zs j))
                      | inr d ↦ rw d (f q z)
                    ]) in
                Merging-next s.tiling m (a.base, a.count)
                  (coalesce-goes_on fuel left o (addr_of b i) (addr_of b j) b j a.after where_j
                      found go a.runs
                    ∙ ap (λ x. coalesce fuel left (suc o) x a.after)
                        (low ∙ ap (λ x. x + lo * page_size) (sym a.base)))
                  rest
          ]
    ]
