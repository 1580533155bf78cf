-- ===== src/Queue/Frame.antt =====
-- Lists that share no node: what an operation of kernel/list.h on one does to the other, and the
-- tests `list_empty` and `list_in_queue`.
use system_n.Base.{ℕ, ◌≡◌, true, false, List, [], ◌∷◌, ◌++◌, arith, has, has-append, has-ne}
use mathlib.Core.Logic.{◌↔◌}
use system_n.Queue.{Links, null, list_add_tail, list_del, list_empty, list_in_queue}
use system_n.Queue.Ring.{IsRing, prev-mem, next-mem, Chain-frame}
use system_n.Queue.Delete.{Chain-split}

abbrev pub Apart : List ℕ → List ℕ → Type 0
Apart xs ys = (x : ℕ) → has x xs ≡ true → has x ys ≡ false

pub Apart-symm : (xs ys : List ℕ) → Apart xs ys → Apart ys xs
Apart-symm xs ys a x h = ground (arith, a x)

pub IsRing-frame :
    (g : Links) {h : Links} {head : ℕ} {xs : List ℕ}
    → IsRing h head xs
    → ((x : ℕ) → has x (head ∷ xs) ≡ true → g.next x ≡ h.next x)
    → ((x : ℕ) → has x (head ∷ xs) ≡ true → g.prev x ≡ h.prev x)
    → IsRing g head xs
IsRing-frame g {h} {head} {xs} r n p = record {
  chain =
      Chain-frame h g head head xs r.chain n
        (λ x i. p x (ground (arith, has-append x xs (head ∷ []))));
  apart = r.apart;
  distinct = r.distinct;
}

-- A node added to one list leaves another as it was.
pub list_add_tail-other :
    (new : ℕ) {h : Links} {a b : ℕ} {xs ys : List ℕ}
    → IsRing h a xs
    → IsRing h b ys
    → Apart (b ∷ ys) (a ∷ xs)
    → has new (b ∷ ys) ≡ false
    → IsRing (list_add_tail new a h) b ys
unfolding list_add_tail
list_add_tail-other new {h} {a} {b} {xs} {ys} r s apart out =
    let last = prev-mem h a a xs r.chain in
    IsRing-frame (list_add_tail new a h) s (λ x i. ground (arith, apart x, has-ne x new (b ∷ ys)))
      (λ x i. ground (arith, apart x, has-ne x new (b ∷ ys)))

-- A node taken from one list leaves another as it was.
pub list_del-other :
    (e : ℕ) (ys zs : List ℕ) {h : Links} {a b : ℕ} {xs : List ℕ}
    → IsRing h a (ys ++ e ∷ zs)
    → IsRing h b xs
    → Apart (b ∷ xs) (a ∷ ys ++ e ∷ zs)
    → IsRing (list_del e h) b xs
unfolding list_del
list_del-other e ys zs {h} {a} {b} {xs} r s apart =
    let (l, m) = Chain-split h a a e ys zs r.chain in
    let before = prev-mem h a e ys l in
    let after = next-mem h e a zs m in
    IsRing-frame (list_del e h) s
      (λ x i. ground (arith, apart x, has-append x ys (e ∷ zs), has-ne x (h.prev e) (b ∷ xs)))
      (λ x i. ground (arith, apart x, has-append x ys (e ∷ zs), has-append x zs (a ∷ [])))

-- `list_empty` is true exactly of a list with no node.
pub list_empty_iff :
    {h : Links} {head : ℕ} (xs : List ℕ) → IsRing h head xs → (list_empty head h ≡ true) ↔ (xs ≡ [])
unfolding list_empty
list_empty_iff [] r = ground (arith, r.chain)
list_empty_iff (x ∷ xs) r = ground (arith, r.chain, r.apart)

-- `list_in_queue` is true of every node of a list with none of its addresses null.
pub list_in_queue-mem :
    {h : Links} {head : ℕ} (ys zs : List ℕ) (e : ℕ)
    → IsRing h head (ys ++ e ∷ zs)
    → has null (head ∷ ys ++ zs) ≡ false
    → list_in_queue e h ≡ true
unfolding list_in_queue
list_in_queue-mem {h} {head} ys zs e r out =
    let (l, m) = Chain-split h head head e ys zs r.chain in
    ground (
      arith,
      prev-mem h head e ys l,
      next-mem h e head zs m,
      has-append null ys zs,
      has-append (h.next e) zs (head ∷ []),
      has-ne (h.next e) null zs,
      has-ne (h.prev e) null ys,
    )
