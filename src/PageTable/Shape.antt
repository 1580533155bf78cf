-- ===== src/PageTable/Shape.antt =====
-- The tree that the tables of kernel/mm/pagetable.c form, and the entry that a walk reaches in it.
use system_n.Base.{
  ℕ, zero, suc, ◌+◌, ◌%◌, ◌^◌, ◌≤◌, ◌<◌, ◌≡◌, refl, true, Option, none, some, arith, ◌==◌,
  if◌then◌else◌, ap, Bool-cases, inl, inr, ==_iff,
}
use system_n.Proc.{ulong_mod, page_size}
use system_n.PageTable.{is_valid, pte2pa, vpn_level, entry, to_virt}
use system_n.PageTable.Mapping.{find}

-- Which pages are tables, and of which level.
abbrev pub Levels : Type 0
Levels = ℕ → Option ℕ

-- The word of an entry of a table.
abbrev pub word : ℕ → (ℕ → ℕ) → ℕ → ℕ → ℕ
word offset words table i = words (entry (to_virt offset table) i)

-- The tables below 4 GB form a tree with one root: an entry that is valid leads to a table of the
-- level below, and no two entries to the same one.
pub record IsTree (offset root : ℕ) (words : ℕ → ℕ) (level : Levels) : Type 0 where
  pub fits : offset + 2 ^ 32 ≤ ulong_mod
  pub top : level root ≡ some 2
  pub is_page : (t l : ℕ) → level t ≡ some l → (t % page_size ≡ 0) × (t < 2 ^ 32)
  pub only_root : (t : ℕ) → level t ≡ some 2 → t ≡ root
  pub low : (t l : ℕ) → level t ≡ some l → l ≤ 2
  pub down :
      (t l i : ℕ)
      → level t ≡ some (suc l)
      → i < 512
      → is_valid (word offset words t i) ≡ true
      → level (pte2pa (word offset words t i)) ≡ some l
  pub apart :
      (t t' l i i' : ℕ)
      → level t ≡ some (suc l)
      → level t' ≡ some (suc l)
      → i < 512
      → i' < 512
      → is_valid (word offset words t i) ≡ true
      → is_valid (word offset words t' i') ≡ true
      → pte2pa (word offset words t i) ≡ pte2pa (word offset words t' i')
      → (t ≡ t') × (i ≡ i')

-- Entries at different places have different addresses.
pub entry-apart :
    (offset t t' i i' : ℕ)
    → offset + 2 ^ 32 ≤ ulong_mod
    → (t % page_size ≡ 0) × (t < 2 ^ 32)
    → (t' % page_size ≡ 0) × (t' < 2 ^ 32)
    → i < 512
    → i' < 512
    → entry (to_virt offset t) i ≡ entry (to_virt offset t') i'
    → (t ≡ t') × (i ≡ i')
entry-apart offset t t' i i' f p q a b e =
    let same : t ≡ t' = omega (arith, f, p.0, p.1, q.0, q.1, a, b, e) in
    (same, omega (arith, e, same, f, p.1))

pub vpn-bound : (va l : ℕ) → vpn_level va l < 512
vpn-bound va l = omega arith

module _ {offset root : ℕ} {words : ℕ → ℕ} {level : Levels}
    (s : IsTree offset root words level) where
  -- The entry that a walk reaches is one of a table of level 0.
  pub find-leaf :
      (l t va : ℕ) {pte : ℕ}
      → level t ≡ some l
      → find offset l (to_virt offset t) va words ≡ some pte
      → (t0 : ℕ) × (level t0 ≡ some 0) × (pte ≡ entry (to_virt offset t0) (vpn_level va 0))
  unfolding find
  find-leaf zero t va h f = (t, h, ground (arith, f))
  find-leaf (suc l) t va h f =
      let w = word offset words t (vpn_level va (suc l)) in
      elim (Bool-cases (is_valid w)) [
        | inl e ↦ find-leaf l (pte2pa w) va (s.down t l _ h (vpn-bound va (suc l)) e) (rw e at f)
        | inr e ↦ absurd (ground (arith, e, f))
      ]

  -- Two walks that reach the same entry go the same way.
  pub find-apart :
      (l t t' va va' : ℕ) {pte : ℕ}
      → level t ≡ some l
      → level t' ≡ some l
      → find offset l (to_virt offset t) va words ≡ some pte
      → find offset l (to_virt offset t') va' words ≡ some pte
      → (t ≡ t') × ((j : ℕ) → j ≤ l → vpn_level va j ≡ vpn_level va' j)
  unfolding find
  find-apart zero t t' va va' h h' f f' =
      let e : entry (to_virt offset t) (vpn_level va 0)
          ≡ entry (to_virt offset t') (vpn_level va' 0) =
        ground (arith, f, f') in
      let (a, b) =
        entry-apart offset t t' (vpn_level va 0) (vpn_level va' 0) s.fits (s.is_page t 0 h)
          (s.is_page t' 0 h') (vpn-bound va 0) (vpn-bound va' 0) e in
      (a, λ j z. let n : j ≡ 0 = omega (arith, z) in rw n b)
  find-apart (suc l) t t' va va' h h' f f' =
      let i = vpn_level va (suc l) in
      let i' = vpn_level va' (suc l) in
      elim (Bool-cases (is_valid (word offset words t i))) [
        | inr e ↦ absurd (ground (arith, e, f))
        | inl e ↦ elim (Bool-cases (is_valid (word offset words t' i'))) [
          | inr e' ↦ absurd (ground (arith, e', f'))
          | inl e' ↦
              let (c, v) =
                find-apart l (pte2pa (word offset words t i)) (pte2pa (word offset words t' i')) va
                  va' (s.down t l i h (vpn-bound va (suc l)) e)
                  (s.down t' l i' h' (vpn-bound va' (suc l)) e') (rw e at f) (rw e' at f') in
              let (a, b) =
                s.apart t t' l i i' h h' (vpn-bound va (suc l)) (vpn-bound va' (suc l)) e e' c in
              (
                a,
                λ j z. elim (Bool-cases (j == suc l)) [
                  | inl n ↦ rw ((==_iff j (suc l)).0 n) b
                  | inr n ↦ v j (ground (arith, z, n))
                ],
              )
        ]
      ]

-- The entry for an address, if a walk of the tables ends at one that is valid.
unfoldable pub lookup : ℕ → ℕ → ℕ → ℕ → (ℕ → ℕ) → Option ℕ
lookup offset zero t va words =
    let w = word offset words t (vpn_level va 0) in if is_valid w then some w else none
lookup offset (suc l) t va words =
    let w = word offset words t (vpn_level va (suc l)) in
    let down = lookup offset l (pte2pa w) va words in if is_valid w then down else none

pub lookup-find :
    (offset l t va : ℕ) (words : ℕ → ℕ) {pte : ℕ}
    → find offset l (to_virt offset t) va words ≡ some pte
    → lookup offset l t va words ≡ (if is_valid (words pte) then some (words pte) else none)
unfolding lookup find
lookup-find offset zero t va words f =
    ap (λ o. elim o [ none ↦ none | some x ↦ if is_valid (words x) then some (words x) else none ])
      f
lookup-find offset (suc l) t va words f =
    let w = word offset words t (vpn_level va (suc l)) in
    elim (Bool-cases (is_valid w)) [
      | inl e ↦ rw (lookup, e) (lookup-find offset l (pte2pa w) va words (rw e at f))
      | inr e ↦ absurd (ground (arith, e, f))
    ]

module _ {offset root : ℕ} {words : ℕ → ℕ} (words' : ℕ → ℕ) {level : Levels}
    (s : IsTree offset root words level)
    (same : (t l i : ℕ)
      → level t ≡ some (suc l)
      → i < 512
      → word offset words' t i ≡ word offset words t i) where
  -- What changes only entries of level 0 leaves the tree as it is.
  pub IsTree-same : IsTree offset root words' level
  IsTree-same = record {
    fits = s.fits;
    top = s.top;
    is_page = s.is_page;
    only_root = s.only_root;
    low = s.low;
    down = λ t l i h b v. let e = same t l i h b in rw e (s.down t l i h b (rw e at v));
    apart = λ t t' l i i' h h' b b' v v' c.
        let e = same t l i h b in
        let e' = same t' l i' h' b' in
        s.apart t t' l i i' h h' b b' (rw e at v) (rw e' at v') (rw (e, e') at c);
  }

  pub find-same :
      (l t va : ℕ)
      → level t ≡ some l
      → find offset l (to_virt offset t) va words' ≡ find offset l (to_virt offset t) va words
  unfolding find
  find-same zero t va h = refl
  find-same (suc l) t va h =
      let i = vpn_level va (suc l) in
      let w = word offset words t i in
      let e : word offset words' t i ≡ w = same t l i h (vpn-bound va (suc l)) in
      elim (Bool-cases (is_valid w)) [
        | inr v ↦ rw (e, v) refl
        | inl v ↦ rw (e, v) (find-same l (pte2pa w) va (s.down t l i h (vpn-bound va (suc l)) v))
      ]
