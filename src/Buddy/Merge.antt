-- ===== src/Buddy/Merge.antt =====
-- One round of the merging loop of `free_pages` of kernel/mm/mem.c on the tiling.
use system_n.Base.{
  ℕ, suc, ◌+◌, ◌≤◌, ◌<◌, ◌^◌, ◌≡◌, ◌≢◌, refl, true, false, ◌⊎◌, inl, inr, Option, List, [], ◌∷◌,
  ◌++◌, has, has-append, arith, ◌==◌, ap, sym, ◌∙◌, Bool-cases, has-ne, ==_iff,
}
use system_n.Base.Toggle.{toggle}
use system_n.Queue.Delete.{Distinct-cut}
use system_n.Buddy.{Buddy, put}
use system_n.Buddy.Tiling.{
  Block, in_range, IsTiling, IsUnion, paint, block-IsUnion, paint-IsTiling, pow-pos, twice,
}
use system_n.Buddy.State.{IsList-frame, Inner, IsBuddy}
use system_n.Buddy.Unlink.{Absorbed}

-- A block `i` in hand and its buddy `j`, which meet, the lower one at `lo`.
pub record Meet (b : Buddy) (tile : ℕ → Block) (i j o lo : ℕ) : Type 0 where
  pub bound_i : i < b.num_pages
  pub bound_j : j < b.num_pages
  pub tile_i : tile i ≡ record { head = i; order = o; used = true }
  pub tile_j : tile j ≡ record { head = j; order = o; used = false }
  pub flip : toggle o i ≡ j
  pub side : ((i ≡ lo) × (j ≡ lo + 2 ^ o)) ⊎ ((j ≡ lo) × (i ≡ lo + 2 ^ o))

module _ {b : Buddy} {tile : ℕ → Block} {i j o lo : ℕ} (t : IsTiling b.num_pages tile)
    (m : Meet b tile i j o lo) where
  -- A page of the two blocks belongs to one of them.
  which : (x : ℕ) → in_range lo (lo + 2 ^ suc o) x ≡ true → (tile x ≡ tile i) ⊎ (tile x ≡ tile j)
  which x c = elim (Bool-cases (in_range i (i + 2 ^ o) x)) [
    | inl d ↦ inl (t.whole i x m.bound_i (rw m.tile_i d))
    | inr d ↦ inr (t.whole j x m.bound_j (rw m.tile_j (ground (arith, c, d, m.side, twice o))))
  ]

  join-IsUnion : IsUnion t lo (lo + 2 ^ suc o)
  join-IsUnion x l c =
      let ui : IsUnion t i (i + 2 ^ o) = rw m.tile_i at (block-IsUnion t i m.bound_i) in
      let uj : IsUnion t j (j + 2 ^ o) = rw m.tile_j at (block-IsUnion t j m.bound_j) in
      let two = twice o in
      let ci : in_range i (i + 2 ^ o) x ≡ false = ground (arith, c, m.side, two) in
      let cj : in_range j (j + 2 ^ o) x ≡ false = ground (arith, c, m.side, two) in
      ground (arith, ui x l ci, uj x l cj, m.side, two, pow-pos (tile x).order)

  joined-IsTiling :
      o < 10
      → IsTiling b.num_pages
          (paint lo (lo + 2 ^ suc o) (record { head = lo; order = suc o; used = true }) tile)
  joined-IsTiling z =
      let fi : i + 2 ^ o ≤ b.num_pages = rw m.tile_i at (t.inside i m.bound_i) in
      let fj : j + 2 ^ o ≤ b.num_pages = rw m.tile_j at (t.inside j m.bound_j) in
      paint-IsTiling t (record { head = lo; order = suc o; used = true })
        (ground (arith, fi, fj, m.side, twice o)) (omega arith) join-IsUnion

-- The inside of one half is inside the whole.
Inner-side :
    (x ord h o lo : ℕ) → (h ≡ lo) ⊎ (h ≡ lo + 2 ^ o) → Inner x ord h o → Inner x ord lo (suc o)
Inner-side x ord h o lo (inl e) n = inr (inl (rw e at n))
Inner-side x ord h o lo (inr e) n = inr (inr (rw e at n))

Inner-order : (x ord ord' h o : ℕ) → ord' ≡ ord → Inner x ord h o → Inner x ord' h o
Inner-order x ord ord' h o e n = rw e n

module _ {b : Buddy} {tile : ℕ → Block} {lists : ℕ → List ℕ} {i j o lo : ℕ} {ys zs : List ℕ}
    {r : Option Buddy} (s : IsBuddy b tile lists (i ∷ [])) (m : Meet b tile i j o lo)
    (small : o < 10) (found : lists o ≡ ys ++ j ∷ zs) (a : Absorbed b o j ys zs r) where
  -- What is on the free lists afterwards was on them before, and is not the buddy.
  left_listed :
      (q x : ℕ)
      → q ≤ 10
      → has x (put lists o (ys ++ zs) q) ≡ true
      → (has x (lists q) ≡ true) × ((x == j) ≡ false)
  left_listed q x z n = elim (Bool-cases (q == o)) [
    | inl d ↦
        let n' : has x (ys ++ zs) ≡ true = rw d at n in
        let qo : q ≡ o = (==_iff q o).0 d in
        let away : has j (ys ++ zs) ≡ false =
          (Distinct-cut j ys zs (rw found at (s.distinct o (omega arith)))).1 in
        (
          rw (qo, found) (ground (arith, has-append x ys zs, has-append x ys (j ∷ zs), n')),
          has-ne x j (ys ++ zs) n' away,
        )
    | inr d ↦
        let n' : has x (lists q) ≡ true = rw d at n in
        (
          n',
          elim (Bool-cases (x == j)) [
            | inr f ↦ f
            | inl f ↦
                let xj : x ≡ j = (==_iff x j).0 f in
                let tj : tile j ≡ record { head = j; order = q; used = false } =
                  rw xj at (s.listed q x z n').1 in
                absurd (ground (arith, ap (λ k. k.order) tj, ap (λ k. k.order) m.tile_j, d))
          ],
        )
  ]

  -- What is on a free list and is not the buddy lies outside the merged block.
  listed-outside_join :
      (q x : ℕ)
      → q ≤ 10
      → has x (lists q) ≡ true
      → (x == j) ≡ false
      → in_range lo (lo + 2 ^ suc o) x ≡ false
  listed-outside_join q x z n d = elim (Bool-cases (in_range lo (lo + 2 ^ suc o) x)) [
    | inr c ↦ c
    | inl c ↦
        let old = (s.listed q x z n).1 in
        elim (which s.tiling m x c) [
          | inl e ↦ absurd (ground (arith, ap (λ k. k.used) (sym old ∙ e ∙ m.tile_i)))
          | inr e ↦ absurd (ground (arith, ap (λ k. k.head) (sym old ∙ e ∙ m.tile_j), d))
        ]
  ]

  -- What is left over inside the merged block.
  stale_join :
      (x : ℕ)
      → x < b.num_pages
      → in_range lo (lo + 2 ^ suc o) x ≡ true
      → lo ≢ x
      → (a.after.pages x).is_free ≡ true
      → Inner x (b.pages x).order lo (suc o)
  stale_join x l c n f =
      let xj : (x == j) ≡ false = ground (arith, a.free_same x, f) in
      let free : (b.pages x).is_free ≡ true = (rw xj at (sym (a.free_same x))) ∙ f in
      elim (which s.tiling m x c) [
        | inr e ↦
            let old : (tile x).head ≢ x = rw (e, m.tile_j) (ground (arith, xj)) in
            Inner-side x (b.pages x).order j o lo (ground (arith, m.side))
              (rw (e, m.tile_j) at (s.stale x l free old))
        | inl e ↦ elim (Bool-cases (x == i)) [
          | inr d ↦
              let old : (tile x).head ≢ x = rw (e, m.tile_i) (ground (arith, d)) in
              Inner-side x (b.pages x).order i o lo (ground (arith, m.side))
                (rw (e, m.tile_i) at (s.stale x l free old))
          | inl d ↦
              let xi : x ≡ i = (==_iff x i).0 d in
              let fi : (b.pages i).is_free ≡ true = rw xi at free in
              let le : (b.pages i).order ≤ o = rw m.tile_i at (s.hand_order i (ground arith) fi) in
              let low : j ≡ lo = ground (arith, xi, m.side, n) in
              let back : toggle o i ≡ lo = m.flip ∙ low in
              inl (ground (arith, xi, m.side, n), rw xi (ground (arith, le, back)))
        ]
      ]

  pub merge-IsBuddy :
      IsBuddy a.after
        (paint lo (lo + 2 ^ suc o) (record { head = lo; order = suc o; used = true }) tile)
        (put lists o (ys ++ zs))
        (lo ∷ [])
  merge-IsBuddy =
      let two = twice o in
      let pos = pow-pos o in
      let side = m.side in
      let here : in_range lo (lo + 2 ^ suc o) lo ≡ true = ground (arith, two, pos) in
      let cover : (in_range lo (lo + 2 ^ suc o) i ≡ true)
          × (in_range lo (lo + 2 ^ suc o) j ≡ true) =
        (ground (arith, two, pos, side), ground (arith, two, pos, side)) in
      let not_i : (x : ℕ) → in_range lo (lo + 2 ^ suc o) x ≡ false → (x == i) ≡ false =
        λ x c. ground (arith, c, cover.0) in
      let not_j : (x : ℕ) → in_range lo (lo + 2 ^ suc o) x ≡ false → (x == j) ≡ false =
        λ x c. ground (arith, c, cover.1) in
      let bound : (x : ℕ) → x < a.after.num_pages → x < b.num_pages = λ x l. rw a.count at l in
      record {
        tiling = rw a.count (joined-IsTiling s.tiling m small);
        flags = λ x z y n. elim (Bool-cases (in_range lo (lo + 2 ^ suc o) x)) [
          | inl c ↦ let y' : lo ≡ x = rw c at y in absurd (ground (arith, n, y'))
          | inr c ↦
              a.free_same x
              ∙ rw (c, not_j x c) (s.flags x (bound x z) (rw c at y) (ground (arith, not_i x c)))
        ];
        orders = λ x z y n. elim (Bool-cases (in_range lo (lo + 2 ^ suc o) x)) [
          | inl c ↦ let y' : lo ≡ x = rw c at y in absurd (ground (arith, n, y'))
          | inr c ↦
              a.order_same x ∙ rw c (s.orders x (bound x z) (rw c at y) (ground (arith, not_i x c)))
        ];
        in_hand = λ x n.
            let e : x ≡ lo = ground (arith, n) in
            rw (e, a.count, here) (ground (arith, m.bound_i, m.bound_j, side), refl, refl);
        hand_order = λ x n f.
            let e : x ≡ lo = ground (arith, n) in
            let f' : (a.after.pages lo).is_free ≡ true = rw e at f in
            let jl : (lo == j) ≡ false = ground (arith, a.free_same lo, f') in
            let il : i ≡ lo = ground (arith, side, jl) in
            let fi : (b.pages i).is_free ≡ true = rw il ((rw jl at (sym (a.free_same lo))) ∙ f') in
            let le : (b.pages i).order ≤ o = rw m.tile_i at (s.hand_order i (ground arith) fi) in
            let le' : (b.pages lo).order ≤ o = rw il at le in
            rw (e, here, a.order_same lo) (omega (arith, le'));
        listed = λ q x z n.
            let (n', d) = left_listed q x z n in
            let (l, t) = s.listed q x z n' in rw (listed-outside_join q x z n' d, a.count) (l, t);
        complete = λ x z y f. elim (Bool-cases (in_range lo (lo + 2 ^ suc o) x)) [
          | inl c ↦ absurd (ground (arith, rw c at f))
          | inr c ↦
              let old = s.complete x (bound x z) (rw c at y) (rw c at f) in
              rw c (elim (Bool-cases ((tile x).order == o)) [
                | inr d ↦ rw d old
                | inl d ↦
                    let old' : has x (ys ++ j ∷ zs) ≡ true =
                      rw ((==_iff (tile x).order o).0 d, found) at old in
                    let nj = not_j x c in
                    rw d (ground (arith, has-append x ys zs, has-append x ys (j ∷ zs), old', nj))
              ])
        ];
        stale = λ x z f n. elim (Bool-cases (in_range lo (lo + 2 ^ suc o) x)) [
          | inl c ↦ rw c (
              Inner-order x (b.pages x).order (a.after.pages x).order lo (suc o) (a.order_same x)
                (stale_join x (bound x z) c (rw c at n) f))
          | inr c ↦
              let free : (b.pages x).is_free ≡ true =
                (rw (not_j x c) at (sym (a.free_same x))) ∙ f in
              rw c (
                Inner-order x (b.pages x).order (a.after.pages x).order (tile x).head (tile x).order
                  (a.order_same x) (s.stale x (bound x z) free (rw c at n)))
        ];
        chains = λ q z. elim (Bool-cases (q == o)) [
          | inl d ↦ rw (d, (==_iff q o).0 d) a.chain
          | inr d ↦
              rw (d, a.lists_same q d)
                (IsList-frame b.pages a.after.pages (b.free_lists q) (lists q)
                  (λ y n. a.next_same y (elim (Bool-cases (has y ys)) [
                    | inr f ↦ f
                    | inl f ↦
                        let there : has y (lists o) ≡ true =
                          rw found (ground (arith, has-append y ys (j ∷ zs), f)) in
                        let one = (s.listed o y (omega arith) there).1 in
                        absurd
                          (ground (arith, ap (λ k. k.order) (sym one ∙ (s.listed q y z n).1), d))
                  ]))
                  (s.chains q z))
        ];
        distinct = λ q z. elim (Bool-cases (q == o)) [
          | inr d ↦ rw d (s.distinct q z)
          | inl d ↦ rw d (Distinct-cut j ys zs (rw found at (s.distinct o (omega arith)))).0
        ];
      }
