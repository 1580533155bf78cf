-- ===== src/PageTable/Fresh.antt =====
-- A fresh table in the tree of tables of kernel/mm/pagetable.c.
use Prim.Native.Nat.{bit_or}
use system_n.Base.{
  ℕ, zero, suc, ◌+◌, ◌%◌, ◌^◌, ◌<◌, ◌≡◌, refl, true, false, ◌&&◌, none, some, arith, leb, ltb, ◌==◌,
  if◌then◌else◌, ◌∙◌, sym, Bool-cases, inl, inr, ==_refl, ==_iff,
}
use system_n.Proc.{page_size}
use system_n.PageTable.{is_valid, pte_v, pte2pa, pa2pte, vpn_level, entry, to_virt, write, clear_at}
use system_n.PageTable.Entry.{table-pte2pa}
use system_n.PageTable.Shape.{Levels, word, IsTree, entry-apart, vpn-bound, lookup}

-- The words once the page at `pa` is cleared and entry `i` of table `t` leads to it.
abbrev pub linked : ℕ → ℕ → ℕ → ℕ → (ℕ → ℕ) → ℕ → ℕ
linked offset t i pa words =
    write (clear_at (to_virt offset pa) words) (entry (to_virt offset t) i)
      (bit_or (pa2pte pa) pte_v)

abbrev pub with_table : ℕ → ℕ → Levels → Levels
with_table pa l level q = if q == pa then some l else level q

module _ {offset root : ℕ} {words : ℕ → ℕ} {level : Levels} (s : IsTree offset root words level)
    (t l i pa : ℕ) (at : level t ≡ some (suc l)) (bound : i < 512)
    (free : is_valid (word offset words t i) ≡ false) (new : level pa ≡ none)
    (page : (pa % page_size ≡ 0) × (pa < 2 ^ 32)) where
  old_page : (q m : ℕ) → level q ≡ some m → (q == pa) ≡ false
  old_page q m h = elim (Bool-cases (q == pa)) [
    | inr e ↦ e
    | inl e ↦ let n : level q ≡ none = rw ((==_iff q pa).0 e) new in absurd (ground (arith, h, n))
  ]

  away :
      (q j : ℕ)
      → (q % page_size ≡ 0) × (q < 2 ^ 32)
      → j < 512
      → ((q ≡ t) × (j ≡ i) → ⊥)
      → (entry (to_virt offset q) j == entry (to_virt offset t) i) ≡ false
  away q j p b n = elim (Bool-cases (entry (to_virt offset q) j == entry (to_virt offset t) i)) [
    | inr e ↦ e
    | inl e ↦ absurd (
        n (
          entry-apart offset q t j i s.fits p (s.is_page t (suc l) at) b bound
            ((==_iff (entry (to_virt offset q) j) (entry (to_virt offset t) i)).0 e)))
  ]

  -- The new entry.
  pub word-new : word offset (linked offset t i pa words) t i ≡ bit_or (pa2pte pa) pte_v
  word-new = rw (==_refl (entry (to_virt offset t) i)) refl

  -- An entry of the fresh table.
  pub word-fresh : (j : ℕ) → j < 512 → word offset (linked offset t i pa words) pa j ≡ 0
  word-fresh j b =
      let ne : (entry (to_virt offset pa) j == entry (to_virt offset t) i) ≡ false =
        away pa j page b (λ e. ground (arith, old_page t (suc l) at, e.0)) in
      let inside : (leb (to_virt offset pa) (entry (to_virt offset pa) j)
            && ltb (entry (to_virt offset pa) j) (to_virt offset pa + page_size))
          ≡ true =
        ground (arith, b) in
      rw (ne, inside) refl

  -- Any other entry of a table.
  pub word-other :
      (q m j : ℕ)
      → level q ≡ some m
      → j < 512
      → ((q == t) && (j == i)) ≡ false
      → word offset (linked offset t i pa words) q j ≡ word offset words q j
  word-other q m j h b n =
      let ne = away q j (s.is_page q m h) b (λ e. ground (arith, n, e.0, e.1)) in
      let apart : (q == pa) ≡ false = old_page q m h in
      let outside : (leb (to_virt offset pa) (entry (to_virt offset q) j)
            && ltb (entry (to_virt offset q) j) (to_virt offset pa + page_size))
          ≡ false =
        ground
          (arith, b, apart, page.0, page.1, s.fits, (s.is_page q m h).0, (s.is_page q m h).1) in
      rw (ne, outside) refl

  -- Where the entries of the larger tree lead.
  data Entry (q m j : ℕ) : Type 0 where
    fresh : q ≡ pa → is_valid (word offset (linked offset t i pa words) q j) ≡ false → Entry q m j
    link :
        q ≡ t
        → j ≡ i
        → m ≡ l
        → pte2pa (word offset (linked offset t i pa words) q j) ≡ pa
        → Entry q m j
    old :
        level q ≡ some (suc m)
        → word offset (linked offset t i pa words) q j ≡ word offset words q j
        → Entry q m j

  Entry-cases : (q m j : ℕ) → with_table pa l level q ≡ some (suc m) → j < 512 → Entry q m j
  Entry-cases q m j h b = elim (Bool-cases (q == pa)) [
    | inl e ↦ let same : q ≡ pa = (==_iff q pa).0 e in fresh same (rw (same, word-fresh j b) refl)
    | inr e ↦
        let h' : level q ≡ some (suc m) = rw e at h in
        elim (Bool-cases ((q == t) && (j == i))) [
          | inr n ↦ old h' (word-other q (suc m) j h' b n)
          | inl n ↦
              let qt : q ≡ t = ground (arith, n) in
              let ji : j ≡ i = ground (arith, n) in
              let ml : m ≡ l = ground (arith, (rw qt at h'), at) in
              link qt ji ml (
                rw (qt, ji, word-new)
                  (table-pte2pa pa (omega (arith, page.1)) (omega (arith, page.0))).0)
        ]
  ]

  child-old :
      (q m j : ℕ)
      → level q ≡ some (suc m)
      → j < 512
      → is_valid (word offset words q j) ≡ true
      → (pte2pa (word offset words q j) == pa) ≡ false
  child-old q m j h b v = old_page (pte2pa (word offset words q j)) m (s.down q m j h b v)

  pub linked-IsTree : IsTree offset root (linked offset t i pa words) (with_table pa l level)
  linked-IsTree =
      let words' = linked offset t i pa words in
      record {
        fits = s.fits;
        top = rw (old_page root 2 s.top) s.top;
        is_page = λ q m h. elim (Bool-cases (q == pa)) [
          | inl e ↦ rw ((==_iff q pa).0 e) page
          | inr e ↦ s.is_page q m (rw e at h)
        ];
        only_root = λ q h. elim (Bool-cases (q == pa)) [
          | inl e ↦ absurd (ground (arith, (rw e at h), s.low t (suc l) at))
          | inr e ↦ s.only_root q (rw e at h)
        ];
        low = λ q m h. elim (Bool-cases (q == pa)) [
          | inl e ↦ ground (arith, (rw e at h), s.low t (suc l) at)
          | inr e ↦ s.low q m (rw e at h)
        ];
        down = λ q m j h b v. elim (Entry-cases q m j h b) [
          | fresh e f ↦ absurd (ground (arith, f, v))
          | link e f g c ↦ rw (c, ==_refl pa, g) refl
          | old h' same ↦
              let v' : is_valid (word offset words q j) ≡ true = rw same at v in
              rw (same, child-old q m j h' b v') (s.down q m j h' b v')
        ];
        apart = λ q q' m j j' h h' b b' v v' c. elim (Entry-cases q m j h b) [
          | fresh e f ↦ absurd (ground (arith, f, v))
          | link e f g d ↦ elim (Entry-cases q' m j' h' b') [
            | fresh e' f' ↦ absurd (ground (arith, f', v'))
            | link e' f' g' d' ↦ (e ∙ sym e', f ∙ sym f')
            | old k same ↦
                let n = child-old q' m j' k b' (rw same at v') in
                absurd (ground (arith, n, d, c, same))
          ]
          | old k same ↦ elim (Entry-cases q' m j' h' b') [
            | fresh e' f' ↦ absurd (ground (arith, f', v'))
            | link e' f' g' d' ↦
                let n = child-old q m j k b (rw same at v) in
                absurd (ground (arith, n, d', c, same))
            | old k' same' ↦
                s.apart q q' m j j' k k' b b' (rw same at v) (rw same' at v')
                  (rw (same, same') at c)
          ]
        ];
      }

  -- A table with no valid entry translates nothing.
  lookup-fresh : (m va : ℕ) → lookup offset m pa va (linked offset t i pa words) ≡ none
  unfolding lookup
  lookup-fresh zero va = rw (word-fresh (vpn_level va 0) (vpn-bound va 0)) refl
  lookup-fresh (suc m) va =
      rw (lookup, word-fresh (vpn_level va (suc m)) (vpn-bound va (suc m))) refl

  -- No address is translated in another way.
  pub lookup-linked :
      (m q va : ℕ)
      → level q ≡ some m
      → lookup offset m q va (linked offset t i pa words) ≡ lookup offset m q va words
  unfolding lookup
  lookup-linked zero q va h =
      let n : ((q == t) && (vpn_level va 0 == i)) ≡ false = ground (arith, h, at) in
      rw (word-other q 0 (vpn_level va 0) h (vpn-bound va 0) n) refl
  lookup-linked (suc m) q va h =
      let j = vpn_level va (suc m) in
      let b = vpn-bound va (suc m) in
      elim (Entry-cases q m j (rw (old_page q (suc m) h) h) b) [
        | fresh e f ↦ absurd (ground (arith, e, old_page q (suc m) h))
        | link e f g c ↦
            let none_before : is_valid (word offset words q j) ≡ false = rw (e, f) free in
            let none_after = lookup-fresh m va in
            rw (lookup, none_before, c, none_after) (ground arith)
        | old h' same ↦ elim (Bool-cases (is_valid (word offset words q j))) [
          | inr v ↦ rw (lookup, same, v) refl
          | inl v ↦
              rw (lookup, same, v)
                (lookup-linked m (pte2pa (word offset words q j)) va (s.down q m j h b v))
        ]
      ]
