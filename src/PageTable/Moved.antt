-- ===== src/PageTable/Moved.antt =====
-- The tables of kernel/mm/pagetable.c before and after `va_offset` is set: the kernel reads the same
-- memory at other addresses.
use system_n.Base.{ℕ, zero, suc, ◌^◌, ◌<◌, ◌≡◌, refl, some, arith, ap, Bool-cases, inl, inr}
use system_n.PageTable.{va_offset, is_valid, pte2pa, vpn_level, virt_to_phys}
use system_n.PageTable.Shape.{Levels, word, IsTree, vpn-bound, lookup}

abbrev pub moved : (ℕ → ℕ) → ℕ → ℕ
moved words x = words (virt_to_phys x)

word-moved :
    (words : ℕ → ℕ) (t i : ℕ)
    → t < 2 ^ 32
    → i < 512
    → word va_offset (moved words) t i ≡ word 0 words t i
word-moved words t i h b = ap words (omega (arith, h, b))

module _ {root : ℕ} {words : ℕ → ℕ} {level : Levels} (s : IsTree 0 root words level) where
  word-same :
      (t l i : ℕ) → level t ≡ some l → i < 512 → word va_offset (moved words) t i ≡ word 0 words t i
  word-same t l i h b = word-moved words t i (s.is_page t l h).1 b

  pub IsTree-moved : IsTree va_offset root (moved words) level
  IsTree-moved = record {
    fits = omega arith;
    top = s.top;
    is_page = s.is_page;
    only_root = s.only_root;
    low = s.low;
    down = λ t l i h b v. let e = word-same t (suc l) i h b in rw e (s.down t l i h b (rw e at v));
    apart = λ t t' l i i' h h' b b' v v' c.
        let e = word-same t (suc l) i h b in
        let e' = word-same t' (suc l) i' h' b' in
        s.apart t t' l i i' h h' b b' (rw e at v) (rw e' at v') (rw (e, e') at c);
  }

  pub lookup-moved :
      (l t va : ℕ)
      → level t ≡ some l
      → lookup va_offset l t va (moved words) ≡ lookup 0 l t va words
  unfolding lookup
  lookup-moved zero t va h = rw (word-same t 0 (vpn_level va 0) h (vpn-bound va 0)) refl
  lookup-moved (suc l) t va h =
      let i = vpn_level va (suc l) in
      let e = word-same t (suc l) i h (vpn-bound va (suc l)) in
      elim (Bool-cases (is_valid (word 0 words t i))) [
        | inr v ↦ rw (lookup, e, v) refl
        | inl v ↦
            rw (lookup, e, v)
              (lookup-moved l (pte2pa (word 0 words t i)) va
                (s.down t l i h (vpn-bound va (suc l)) v))
      ]
