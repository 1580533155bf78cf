-- ===== src/Buddy/Take.antt =====
-- The steps of `alloc_pages` of kernel/mm/mem.c on the tiling: a block leaves its free list, and is
-- halved until it has the order that was asked for.
use system_n.Base.{
  ℕ, zero, suc, ◌+◌, ◌^◌, ◌≤◌, ◌<◌, ◌≡◌, ◌≢◌, refl, true, false, inl, inr, List, [], ◌∷◌, has,
  arith, ◌==◌, ap, Bool-cases, has-ne, ==_iff,
}
use system_n.Buddy.{Buddy, put, take_block}
use system_n.Buddy.Tiling.{Block, in_range, paint, block-IsUnion, paint-IsTiling, pow-pos, twice}
use system_n.Buddy.State.{IsList, IsList-frame, Inner, IsBuddy}

pub pow_mono : (a b : ℕ) → a ≤ b → 2 ^ a ≤ 2 ^ b
pow_mono zero b h = omega (arith, pow-pos b)
pow_mono (suc a) zero h = absurd (omega arith)
pow_mono (suc a) (suc b) h = omega (arith, twice a, twice b, pow_mono a b (omega arith))

-- The points of a block that `Inner` speaks of lie inside it, with all their pages.
pub Inner-bounds : (x ord h p : ℕ) → Inner x ord h p → (h < x) × (x + 2 ^ ord ≤ h + 2 ^ p)
Inner-bounds x ord h zero i = elim i [ ]
Inner-bounds x ord h (suc p) i = elim i [
  | inl a ↦ elim a.1 [
    | inl lt ↦ omega (arith, a.0, twice p, pow_mono ord p (omega arith), pow-pos p)
    | inr eq ↦
        let e : 2 ^ ord ≡ 2 ^ p = ap (λ k. 2 ^ k) eq.0 in omega (arith, a.0, e, twice p, pow-pos p)
  ]
  | inr (inl c) ↦ omega (arith, Inner-bounds x ord h p c, twice p)
  | inr (inr c) ↦ omega (arith, Inner-bounds x ord (h + 2 ^ p) p c, twice p)
]

module _ {b : Buddy} {tile : ℕ → Block} {lists : ℕ → List ℕ} (s : IsBuddy b tile lists []) where
  -- The first block of a free list is taken in hand.
  pub take_block-IsBuddy :
      (o order i : ℕ) (rest : List ℕ)
      → o ≤ 10
      → lists o ≡ i ∷ rest
      → IsBuddy
          (take_block o order i b)
          (paint i (i + 2 ^ o) (record { head = i; order = o; used = true }) tile)
          (put lists o rest)
          (i ∷ [])
  unfolding take_block
  take_block-IsBuddy o order i rest small e =
      let (l, t) = s.listed o i small (rw e (ground arith)) in
      let fits : i + 2 ^ o ≤ b.num_pages = rw t at (s.tiling.inside i l) in
      let here : in_range i (i + 2 ^ o) i ≡ true = ground (arith, pow-pos o) in
      let away : (x : ℕ) → in_range i (i + 2 ^ o) x ≡ false → (x == i) ≡ false =
        λ x c. ground (arith, here, c) in
      let same : (x : ℕ) → in_range i (i + 2 ^ o) x ≡ true → tile x ≡ tile i =
        λ x c. s.tiling.whole i x l (rw t c) in
      let fresh : has i rest ≡ false = (rw e at (s.distinct o small)).0 in
      let other : (q x : ℕ)
          → q ≤ 10
          → has x (lists q) ≡ true
          → (x == i) ≡ false
          → in_range i (i + 2 ^ o) x ≡ false =
        λ q x z m n. elim (Bool-cases (in_range i (i + 2 ^ o) x)) [
          | inr c ↦ c
          | inl c ↦ absurd (
              ground (
                arith,
                n,
                ap (λ k. k.head) (same x c),
                ap (λ k. k.head) (s.listed q x z m).1,
                ap (λ k. k.head) t,
              ))
        ] in
      let tail : (q x : ℕ)
          → q ≤ 10
          → has x (put lists o rest q) ≡ true
          → (has x (lists q) ≡ true) × ((x == i) ≡ false) =
        λ q x z m. elim (Bool-cases (q == o)) [
          | inl d ↦
              let m' : has x rest ≡ true = rw d at m in
              let ne = has-ne x i rest m' fresh in
              let qo : q ≡ o = (==_iff q o).0 d in (rw (qo, e) (ground (arith, m')), ne)
          | inr d ↦
              let m' : has x (lists q) ≡ true = rw d at m in
              (
                m',
                elim (Bool-cases (x == i)) [
                  | inr f ↦ f
                  | inl f ↦
                      let xi : x ≡ i = (==_iff x i).0 f in
                      let ti : tile i ≡ record { head = i; order = q; used = false } =
                        rw xi at (s.listed q x z m').1 in
                      absurd (ground (arith, ap (λ k. k.order) ti, ap (λ k. k.order) t, d))
                ],
              )
        ] in
      record {
        tiling =
            paint-IsTiling s.tiling (record { head = i; order = o; used = true }) fits small
              (rw t at (block-IsUnion s.tiling i l));
        flags = λ x z y m. elim (Bool-cases (in_range i (i + 2 ^ o) x)) [
          | inl c ↦ let y' : i ≡ x = rw c at y in absurd (ground (arith, m, y'))
          | inr c ↦ rw (c, away x c) (s.flags x z (rw c at y) refl)
        ];
        orders = λ x z y m. elim (Bool-cases (in_range i (i + 2 ^ o) x)) [
          | inl c ↦ let y' : i ≡ x = rw c at y in absurd (ground (arith, m, y'))
          | inr c ↦ rw (c, away x c) (s.orders x z (rw c at y) refl)
        ];
        in_hand = λ x m. let xi : x ≡ i = ground (arith, m) in rw (xi, here) (l, refl, refl);
        hand_order = λ x m f.
            let xi : (x == i) ≡ true = ground (arith, m) in absurd (ground (arith, rw xi at f));
        listed =
            λ q x z m. let (m', ne) = tail q x z m in rw (other q x z m' ne) (s.listed q x z m');
        complete = λ x z y f. elim (Bool-cases (in_range i (i + 2 ^ o) x)) [
          | inl c ↦ absurd (ground (arith, rw c at f))
          | inr c ↦
              let old = s.complete x z (rw c at y) (rw c at f) in
              let ne = away x c in rw c (ground (arith, old, e, ne))
        ];
        stale = λ x z f n. elim (Bool-cases (in_range i (i + 2 ^ o) x)) [
          | inr c ↦ rw (c, away x c) (s.stale x z (rw (away x c) at f) (rw c at n))
          | inl c ↦
              let ne : (x == i) ≡ false = ground (arith, c, n) in
              let old : (tile x).head ≢ x = rw (same x c, t) (ground (arith, ne)) in
              rw (c, ne) (rw (same x c, t) at (s.stale x z (rw ne at f) old))
        ];
        chains = λ q z. elim (Bool-cases (q == o)) [
          | inr d ↦ rw d (
              IsList-frame b.pages (put b.pages i _) (b.free_lists q) (lists q)
                (λ y m. ground arith) (s.chains q z))
          | inl d ↦
              let c : IsList b.pages (b.free_lists o) (i ∷ rest) = rw e at (s.chains o small) in
              rw d (
                IsList-frame b.pages (put b.pages i _) (b.pages i).next rest (λ y m. ground arith)
                  c.1)
        ];
        distinct = λ q z. elim (Bool-cases (q == o)) [
          | inr d ↦ rw d (s.distinct q z)
          | inl d ↦ rw d (rw e at (s.distinct o small)).1
        ];
      }
