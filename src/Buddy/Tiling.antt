-- ===== src/Buddy/Tiling.antt =====
-- How blocks divide the pages of the buddy allocator of kernel/mm/mem.c: the tiling that the page
-- structs and the free lists stand for, and how a block is split, merged, taken and given back.
use system_n.Base.{
  ℕ, zero, suc, ◌+◌, ◌^◌, ◌≤◌, ◌<◌, ◌≡◌, Bool, true, false, ◌&&◌, ◌⊎◌, inl, inr, arith, ltb, leb,
  if◌then◌else◌, ap, sym, ◌∙◌, Bool-cases,
}
use native.Mathlib.Nat.{pow-suc}

-- A block of `2 ^ order` pages, in use or free.
pub record Block : Type 0 where
  pub head : ℕ
  pub order : ℕ
  pub used : Bool

-- The end of a block.
abbrev pub end_of : Block → ℕ
end_of k = k.head + 2 ^ k.order

abbrev pub in_range : ℕ → ℕ → ℕ → Bool
in_range lo hi x = leb lo x && ltb x hi

-- The block of each page: it contains the page, ends in time, and is the block of all its pages.
pub record IsTiling (n : ℕ) (tile : ℕ → Block) : Type 0 where
  pub from : (x : ℕ) → x < n → (tile x).head ≤ x
  pub upto : (x : ℕ) → x < n → x < end_of (tile x)
  pub inside : (x : ℕ) → x < n → end_of (tile x) ≤ n
  pub small : (x : ℕ) → x < n → (tile x).order ≤ 10
  pub whole :
      (x y : ℕ) → x < n → in_range (tile x).head (end_of (tile x)) y ≡ true → tile y ≡ tile x

-- The same block for all pages of a range.
abbrev pub paint : ℕ → ℕ → Block → (ℕ → Block) → ℕ → Block
paint lo hi k tile x = if in_range lo hi x then k else tile x

-- Two powers make the next one.
pub twice : (k : ℕ) → 2 ^ suc k ≡ 2 ^ k + 2 ^ k
twice k = omega (arith, pow-suc 2 k)

pub pow-pos : (k : ℕ) → 0 < 2 ^ k
pow-pos zero = omega arith
pow-pos (suc k) = omega (arith, twice k, pow-pos k)

module _ {n : ℕ} {tile : ℕ → Block} (t : IsTiling n tile) where
  -- Pages of one block.
  pub same_tile : (x y : ℕ) → x < n → (tile x).head ≤ y → y < end_of (tile x) → tile y ≡ tile x
  same_tile x y h lo hi = t.whole x y h (ground arith)

  -- Two blocks are the same or apart.
  pub apart_or_same :
      (x y : ℕ)
      → x < n
      → y < n
      → (tile x ≡ tile y) ⊎ ((end_of (tile x) ≤ (tile y).head) ⊎ (end_of (tile y) ≤ (tile x).head))
  apart_or_same x y h l =
      let px = pow-pos (tile x).order in
      let py = pow-pos (tile y).order in
      elim (Bool-cases (leb (end_of (tile x)) (tile y).head)) [
        | inl e ↦ inr (inl (ground arith))
        | inr e ↦ elim (Bool-cases (leb (end_of (tile y)) (tile x).head)) [
          | inl f ↦ inr (inr (ground arith))
          | inr f ↦ elim (Bool-cases (leb (tile x).head (tile y).head)) [
            | inl g ↦
                let first = (tile y).head in
                inl (
                  sym (same_tile x first h (ground arith) (ground arith))
                  ∙ same_tile y first l (omega arith) (omega (arith, py)))
            | inr g ↦
                let first = (tile x).head in
                inl (
                  sym (same_tile x first h (omega arith) (omega (arith, px)))
                  ∙ same_tile y first l (ground arith) (ground arith))
          ]
        ]
      ]

  -- A range that no block crosses.
  abbrev pub IsUnion : ℕ → ℕ → Type 0
  IsUnion lo hi =
      (x : ℕ) → x < n → in_range lo hi x ≡ false → (end_of (tile x) ≤ lo) ⊎ (hi ≤ (tile x).head)

  -- A block is such a range.
  pub block-IsUnion : (i : ℕ) → i < n → IsUnion (tile i).head (end_of (tile i))
  block-IsUnion i h x l o = elim (apart_or_same x i l h) [
    | inl e ↦ absurd (ground (arith, t.from x l, t.upto x l, ap (λ k. k.head) e, ap end_of e))
    | inr e ↦ e
  ]

  -- A union of blocks becomes one block.
  pub paint-IsTiling :
      (k : Block)
      → end_of k ≤ n
      → k.order ≤ 10
      → IsUnion k.head (end_of k)
      → IsTiling n (paint k.head (end_of k) k tile)
  paint-IsTiling k e o u = record {
    from = λ x h. ground (arith, t.from x h);
    upto = λ x h. ground (arith, t.upto x h);
    inside = λ x h. ground (arith, t.inside x h);
    small = λ x h. ground (arith, t.small x h);
    whole = λ x y h r. elim (Bool-cases (in_range k.head (end_of k) x)) [
      | inl e ↦ ground (arith, e, r)
      | inr e ↦
          let r' : in_range (tile x).head (end_of (tile x)) y ≡ true = rw e at r in
          let out : in_range k.head (end_of k) y ≡ false = ground (arith, u x h e, r') in
          rw (e, out) (t.whole x y h r')
    ];
  }

-- The tiling after a block is cut in two.
abbrev pub cut : ℕ → ℕ → Bool → Bool → (ℕ → Block) → ℕ → Block
cut h p lower upper tile =
    paint (h + 2 ^ p) (h + 2 ^ p + 2 ^ p) (record { head = h + 2 ^ p; order = p; used = upper })
      (paint h (h + 2 ^ p) (record { head = h; order = p; used = lower }) tile)

pub cut-IsTiling :
    {n : ℕ} {tile : ℕ → Block} (t : IsTiling n tile) (i p : ℕ) (lower upper : Bool)
    → i < n
    → (tile i).head ≡ i
    → (tile i).order ≡ suc p
    → IsTiling n (cut i p lower upper tile)
cut-IsTiling {n} {tile} t i p lower upper l e o =
    let u = block-IsUnion t i l in
    let size : i + 2 ^ suc p ≡ i + 2 ^ p + 2 ^ p = omega (arith, twice p) in
    let u' : IsUnion t i (i + 2 ^ p + 2 ^ p) = rw (e, o, size) at u in
    let fits : i + 2 ^ p + 2 ^ p ≤ n = rw (e, o, size) at (t.inside i l) in
    let deep : suc p ≤ 10 = rw o at (t.small i l) in
    record {
      from = λ x h. ground (arith, t.from x h);
      upto = λ x h. ground (arith, t.upto x h);
      inside = λ x h. ground (arith, t.inside x h);
      small = λ x h. ground (arith, t.small x h);
      whole = λ x y h r. elim (Bool-cases (in_range i (i + 2 ^ p + 2 ^ p) x)) [
        | inl f ↦ ground (arith, f, r)
        | inr f ↦
            let a : in_range i (i + 2 ^ p) x ≡ false = ground arith in
            let b : in_range (i + 2 ^ p) (i + 2 ^ p + 2 ^ p) x ≡ false = ground arith in
            let r' : in_range (tile x).head (end_of (tile x)) y ≡ true = rw (a, b) at r in
            let c : in_range i (i + 2 ^ p) y ≡ false = ground (arith, u' x h f, r') in
            let d : in_range (i + 2 ^ p) (i + 2 ^ p + 2 ^ p) y ≡ false =
              ground (arith, u' x h f, r') in
            rw (a, b, c, d) (t.whole x y h r')
      ];
    }
