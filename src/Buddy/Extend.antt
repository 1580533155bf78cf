-- ===== src/Buddy/Extend.antt =====
-- `buddy_allocator_init` of kernel/mm/mem.c: the next block of pages on the tiling.
use system_n.Base.{
  ℕ, ◌+◌, ◌^◌, ◌≤◌, ◌<◌, ◌≡◌, refl, true, false, inl, inr, List, [], ◌∷◌, arith, Bool-cases,
}
use system_n.Buddy.{Buddy}
use system_n.Buddy.Tiling.{Block, end_of, in_range, paint, pow-pos}
use system_n.Buddy.State.{IsBuddy}

-- The allocator as if it had the first `i` pages only.
abbrev pub upto : ℕ → Buddy → Buddy
upto i b = record b { num_pages = i }

module _ (b : Buddy) {tile : ℕ → Block} {lists : ℕ → List ℕ} where
  -- A block behind them comes in hand.
  pub extend-IsBuddy :
      (i o : ℕ)
      → IsBuddy (upto i b) tile lists []
      → ((x : ℕ) → i ≤ x → (b.pages x).is_free ≡ false)
      → o ≤ 10
      → IsBuddy
          (upto (i + 2 ^ o) b)
          (paint i (i + 2 ^ o) (record { head = i; order = o; used = true }) tile)
          lists
          (i ∷ [])
  extend-IsBuddy i o s fresh small =
      let n = i + 2 ^ o in
      let here : in_range i n i ≡ true = ground (arith, pow-pos o) in
      let old : (x : ℕ) → in_range i n x ≡ false → x < n → x < i = λ x c l. ground (arith, c, l) in
      let out : (x : ℕ) → x < i → in_range i n x ≡ false = λ x l. ground (arith, l) in
      let both = λ (x : ℕ). Bool-cases (in_range i n x) in
      record {
        tiling = record {
          from = λ x l. elim (both x) [
            | inl c ↦ rw c (ground (arith, c))
            | inr c ↦ rw c (s.tiling.from x (old x c l))
          ];
          upto = λ x l. elim (both x) [
            | inl c ↦ rw c (ground (arith, c))
            | inr c ↦ rw c (s.tiling.upto x (old x c l))
          ];
          inside = λ x l. elim (both x) [
            | inl c ↦ rw c (omega arith)
            | inr c ↦ rw c (omega (arith, s.tiling.inside x (old x c l)))
          ];
          small = λ x l. elim (both x) [
            | inl c ↦ rw c small
            | inr c ↦ rw c (s.tiling.small x (old x c l))
          ];
          whole = λ x y l r. elim (both x) [
            | inl c ↦ let d : in_range i n y ≡ true = rw c at r in rw (c, d) refl
            | inr c ↦
                let r' : in_range (tile x).head (end_of (tile x)) y ≡ true = rw c at r in
                let d = out y (ground (arith, r', s.tiling.inside x (old x c l))) in
                rw (c, d) (s.tiling.whole x y (old x c l) r')
          ];
        };
        flags = λ x l h m. elim (both x) [
          | inl c ↦ let h' : i ≡ x = rw c at h in absurd (ground (arith, m, h'))
          | inr c ↦ rw c (s.flags x (old x c l) (rw c at h) refl)
        ];
        orders = λ x l h m. elim (both x) [
          | inl c ↦ let h' : i ≡ x = rw c at h in absurd (ground (arith, m, h'))
          | inr c ↦ rw c (s.orders x (old x c l) (rw c at h) refl)
        ];
        in_hand = λ x m.
            let e : x ≡ i = ground (arith, m) in
            rw (e, here) (omega (arith, pow-pos o), refl, refl);
        hand_order = λ x m f. absurd (ground (arith, m, f, fresh x));
        listed = λ q x z m. let (l, t) = s.listed q x z m in rw (out x l) (omega arith, t);
        complete = λ x l h u. elim (both x) [
          | inl c ↦ absurd (ground (arith, u, c))
          | inr c ↦ rw c (s.complete x (old x c l) (rw c at h) (rw c at u))
        ];
        stale = λ x l f h. elim (both x) [
          | inl c ↦ absurd (ground (arith, c, f, fresh x))
          | inr c ↦ rw c (s.stale x (old x c l) f (rw c at h))
        ];
        chains = s.chains;
        distinct = s.distinct;
      }
