-- ===== src/Buddy/Split.antt =====
-- The loop of `alloc_pages` of kernel/mm/mem.c that halves a block until it has the order that was
-- asked for.
use system_n.Base.{
  ℕ, zero, suc, ◌+◌, ◌-◌, ◌^◌, ◌≤◌, ◌<◌, ◌≡◌, ◌≢◌, refl, true, false, ◌⊎◌, inl, inr, List, [], ◌∷◌,
  has, arith, leb, ◌==◌, ap, ◌∙◌, Bool-cases, ==_iff,
}
use system_n.Spinlock.{Run, done}
use system_n.Buddy.{Buddy, put, push_free, split}
use system_n.Buddy.Tiling.{Block, in_range, paint, cut, cut-IsTiling, pow-pos, twice}
use system_n.Buddy.Take.{Inner-bounds, pow_mono}
use system_n.Buddy.State.{Inner, IsBuddy, listed-outside, push_free-IsBuddy}

Inner-lower : (x ord i p : ℕ) → Inner x ord i (suc p) → x < i + 2 ^ p → Inner x ord i p
Inner-lower x ord i p n b = elim n [
  | inl a ↦ absurd (omega (arith, a.0, b))
  | inr (inl c) ↦ c
  | inr (inr c) ↦ absurd (omega (arith, Inner-bounds x ord (i + 2 ^ p) p c, b))
]

Inner-upper : (x ord i p : ℕ) → Inner x ord i (suc p) → i + 2 ^ p < x → Inner x ord (i + 2 ^ p) p
Inner-upper x ord i p n b = elim n [
  | inl a ↦ absurd (omega (arith, a.0, b))
  | inr (inl c) ↦ absurd (omega (arith, Inner-bounds x ord i p c, b, pow-pos ord))
  | inr (inr c) ↦ c
]

Inner-middle : (ord i p : ℕ) → Inner (i + 2 ^ p) ord i (suc p) → ord ≤ p
Inner-middle ord i p n = elim n [
  | inl a ↦ ground (arith, a.1)
  | inr (inl c) ↦ absurd (omega (arith, Inner-bounds (i + 2 ^ p) ord i p c, pow-pos ord))
  | inr (inr c) ↦ absurd (omega (arith, Inner-bounds (i + 2 ^ p) ord (i + 2 ^ p) p c))
]

-- A block in hand is cut in two, and both halves are in hand.
cut-IsBuddy :
    {b : Buddy} {tile : ℕ → Block} {lists : ℕ → List ℕ} (i p : ℕ)
    → IsBuddy b tile lists (i ∷ [])
    → (tile i).order ≡ suc p
    → (b.pages i).is_free ≡ false
    → IsBuddy b (cut i p true true tile) lists ((i + 2 ^ p) ∷ i ∷ [])
cut-IsBuddy {b} {tile} {lists} i p s e off =
    let (l, h, u) = s.in_hand i (ground arith) in
    let mid = i + 2 ^ p in
    let pos = pow-pos p in
    let two = twice p in
    let fits : i + 2 ^ suc p ≤ b.num_pages = rw (h, e) at (s.tiling.inside i l) in
    let lower = in_range i (i + 2 ^ p) in
    let upper = in_range mid (mid + 2 ^ p) in
    let same : (x : ℕ) → (lower x ≡ true) ⊎ (upper x ≡ true) → tile x ≡ tile i =
      λ x c. s.tiling.whole i x l (rw (h, e) (ground (arith, c, two))) in
    let hl : lower i ≡ true = ground (arith, pos) in
    let hu : upper mid ≡ true = ground (arith, pos) in
    let ul : upper i ≡ false = ground (arith, pos) in
    let outer : (x : ℕ) → has x (mid ∷ i ∷ []) ≡ false → has x (i ∷ []) ≡ false =
      λ x m. ground (arith, m) in
    record {
      tiling = cut-IsTiling s.tiling i p true true l h e;
      flags = λ x z y m. elim (Bool-cases (upper x)) [
        | inl c ↦ let y' : mid ≡ x = rw c at y in absurd (ground (arith, m, y'))
        | inr c ↦ elim (Bool-cases (lower x)) [
          | inl d ↦ let y' : i ≡ x = rw (c, d) at y in absurd (ground (arith, m, y'))
          | inr d ↦ rw (c, d) (s.flags x z (rw (c, d) at y) (outer x m))
        ]
      ];
      orders = λ x z y m. elim (Bool-cases (upper x)) [
        | inl c ↦ let y' : mid ≡ x = rw c at y in absurd (ground (arith, m, y'))
        | inr c ↦ elim (Bool-cases (lower x)) [
          | inl d ↦ let y' : i ≡ x = rw (c, d) at y in absurd (ground (arith, m, y'))
          | inr d ↦ rw (c, d) (s.orders x z (rw (c, d) at y) (outer x m))
        ]
      ];
      in_hand = λ x m. elim (Bool-cases (x == mid)) [
        | inl f ↦ rw ((==_iff x mid).0 f, hu) (omega (arith, fits, two, pos), refl, refl)
        | inr f ↦ let xi : x ≡ i = ground (arith, m, f) in rw (xi, ul, hl) (l, refl, refl)
      ];
      hand_order = λ x m f. elim (Bool-cases (x == mid)) [
        | inr g ↦ let xi : x ≡ i = ground (arith, m, g) in absurd (ground (arith, off, rw xi at f))
        | inl g ↦
            let xm : x ≡ mid = (==_iff x mid).0 g in
            let free : (b.pages mid).is_free ≡ true = rw xm at f in
            let lm : mid < b.num_pages = omega (arith, fits, two, pos) in
            let sm = same mid (inr hu) in
            let old : (tile mid).head ≢ mid = rw (sm, h) (omega (arith, pos)) in
            let inner : Inner mid (b.pages mid).order i (suc p) =
              rw (sm, h, e) at (s.stale mid lm free old) in
            rw (xm, hu) (Inner-middle (b.pages mid).order i p inner)
      ];
      listed = λ q x z m.
          let (lx, t) = s.listed q x z m in
          let c : (upper x ≡ false) × (lower x ≡ false) =
            (let w : in_range i (i + 2 ^ suc p) x ≡ false =
                listed-outside s i (suc p) q x (ground arith) e z m in
              (ground (arith, w, two, pos), ground (arith, w, two, pos))) in
          rw (c.0, c.1) (lx, t);
      complete = λ x z y f. elim (Bool-cases (upper x)) [
        | inl c ↦ absurd (ground (arith, rw c at f))
        | inr c ↦ elim (Bool-cases (lower x)) [
          | inl d ↦ absurd (ground (arith, rw (c, d) at f))
          | inr d ↦ rw (c, d) (s.complete x z (rw (c, d) at y) (rw (c, d) at f))
        ]
      ];
      stale = λ x z f n. elim (Bool-cases (upper x)) [
        | inl c ↦
            let n' : mid ≢ x = rw c at n in
            let sx = same x (inr c) in
            let old : (tile x).head ≢ x = rw (sx, h) (ground (arith, c, pos)) in
            let inner : Inner x (b.pages x).order i (suc p) =
              rw (sx, h, e) at (s.stale x z f old) in
            rw c (Inner-upper x (b.pages x).order i p inner (ground (arith, c, n')))
        | inr c ↦ elim (Bool-cases (lower x)) [
          | inl d ↦
              let n' : i ≢ x = rw (c, d) at n in
              let sx = same x (inl d) in
              let old : (tile x).head ≢ x = rw (sx, h) n' in
              let inner : Inner x (b.pages x).order i (suc p) =
                rw (sx, h, e) at (s.stale x z f old) in
              rw (c, d) (Inner-lower x (b.pages x).order i p inner (ground (arith, d)))
          | inr d ↦ rw (c, d) (s.stale x z f (rw (c, d) at n))
        ]
      ];
      chains = s.chains;
      distinct = s.distinct;
    }

-- What the loop leaves: the block that was asked for, in hand, with the rest of the first one free.
pub record Halved (b : Buddy) (tile : ℕ → Block) (i order p : ℕ) (r : Run Buddy) : Type 0 where
  pub after : Buddy
  pub tile' : ℕ → Block
  pub lists' : ℕ → List ℕ
  pub runs : r ≡ done after
  pub valid : IsBuddy after tile' lists' (i ∷ [])
  pub mine : tile' i ≡ record { head = i; order = order; used = true }
  pub outside : (x : ℕ) → in_range i (i + 2 ^ p) x ≡ false → tile' x ≡ tile x
  pub rest_free :
      (x : ℕ)
      → in_range i (i + 2 ^ p) x ≡ true
      → in_range i (i + 2 ^ order) x ≡ false
      → (tile' x).used ≡ false
  pub struct : after.pages i ≡ b.pages i
  pub base : after.buddy_base_phys ≡ b.buddy_base_phys
  pub count : after.num_pages ≡ b.num_pages

keep_head : (b : Buddy) (p mid i : ℕ) → (i == mid) ≡ false → (push_free mid p b).pages i ≡ b.pages i
unfolding push_free
keep_head b p mid i ne = rw ne refl

keep_words :
    (b : Buddy) (p mid : ℕ)
    → ((push_free mid p b).buddy_base_phys ≡ b.buddy_base_phys)
      × ((push_free mid p b).num_pages ≡ b.num_pages)
unfolding push_free
keep_words b p mid = (refl, refl)

-- One round more: the upper half was given to its free list.
Halved-next :
    {b b1 : Buddy} {tile tile1 : ℕ → Block} {i order p : ℕ} {again whole : Run Buddy}
    → Halved b1 tile1 i order p again
    → order ≤ p
    → whole ≡ again
    → ((x : ℕ)
        → in_range i (i + 2 ^ p) x ≡ false
        → in_range (i + 2 ^ p) (i + 2 ^ p + 2 ^ p) x ≡ false
        → tile1 x ≡ tile x)
    → ((x : ℕ) → in_range (i + 2 ^ p) (i + 2 ^ p + 2 ^ p) x ≡ true → (tile1 x).used ≡ false)
    → b1.pages i ≡ b.pages i
    → (b1.buddy_base_phys ≡ b.buddy_base_phys) × (b1.num_pages ≡ b.num_pages)
    → Halved b tile i order (suc p) whole
Halved-next {i} {order} {p} r deep e out up keep words =
    let two = twice p in
    let big = pow_mono order p deep in
    record {
      after = r.after;
      tile' = r.tile';
      lists' = r.lists';
      runs = e ∙ r.runs;
      valid = r.valid;
      mine = r.mine;
      outside = λ x c.
          let d : in_range i (i + 2 ^ p) x ≡ false = ground (arith, c, two) in
          r.outside x d ∙ out x d (ground (arith, c, two));
      rest_free = λ x c d. elim (Bool-cases (in_range i (i + 2 ^ p) x)) [
        | inl f ↦ r.rest_free x f d
        | inr f ↦ ap (λ k. k.used) (r.outside x f) ∙ up x (ground (arith, c, f, two))
      ];
      struct = r.struct ∙ keep;
      base = r.base ∙ words.0;
      count = r.count ∙ words.1;
    }

-- The loop runs to its end, without the check on the number of the upper half's page failing.
pub split-Halved :
    (k order i : ℕ) {b : Buddy} {tile : ℕ → Block} {lists : ℕ → List ℕ}
    → IsBuddy b tile lists (i ∷ [])
    → tile i ≡ record { head = i; order = order + k; used = true }
    → (b.pages i).is_free ≡ false
    → Halved b tile i order (order + k) (split k order i b)
unfolding split
split-Halved zero order i {b} {tile} {lists} s e off =
    let z : order + 0 ≡ order = omega arith in
    rw z (record {
      after = b;
      tile' = tile;
      lists' = lists;
      runs = refl;
      valid = s;
      mine = rw z at e;
      outside = λ x c. refl;
      rest_free = λ x c d. absurd (ground (arith, c, d));
      struct = refl;
      base = refl;
      count = refl;
    })
split-Halved (suc k) order i {b} {tile} {lists} s e0 off =
    let p = order + k in
    let mid = i + 2 ^ p in
    let two = twice p in
    let pos = pow-pos p in
    let sp : order + suc k ≡ suc p = omega arith in
    let e : tile i ≡ record { head = i; order = suc p; used = true } = rw sp at e0 in
    let deep : (tile i).order ≡ suc p = ap (λ x. x.order) e in
    let (l, h, u) = s.in_hand i (ground arith) in
    let fits : i + 2 ^ suc p ≤ b.num_pages = rw e at (s.tiling.inside i l) in
    let opened = cut-IsBuddy i p s deep off in
    let hu : in_range mid (mid + 2 ^ p) mid ≡ true = ground (arith, pos) in
    let ul : in_range mid (mid + 2 ^ p) i ≡ false = ground (arith, pos) in
    let hl : in_range i (i + 2 ^ p) i ≡ true = ground (arith, pos) in
    let out : has mid (i ∷ []) ≡ false = ground (arith, pos) in
    let ne : (i == mid) ≡ false = ground (arith, pos) in
    let b1 = push_free mid p b in
    let tile1 =
      paint mid (mid + 2 ^ p) (record { head = mid; order = p; used = false })
        (cut i p true true tile) in
    let s1 : IsBuddy b1 tile1 (put lists p (mid ∷ lists p)) (i ∷ []) =
      push_free-IsBuddy mid p opened out (rw hu refl) in
    let r =
      split-Halved k order i {b = b1} {tile = tile1} s1 (rw (ul, hl) refl)
        (rw (keep_head b p mid i ne) off) in
    let there : leb b.num_pages mid ≡ false = ground (arith, fits, two, pos) in
    let down : suc p - 1 ≡ p = omega arith in
    rw sp (
      Halved-next r (omega arith) (rw (down, there) refl) (λ x c d. rw (d, c) refl)
        (λ x c. rw c refl) (keep_head b p mid i ne) (keep_words b p mid))
