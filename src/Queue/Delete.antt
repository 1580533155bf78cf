-- ===== src/Queue/Delete.antt =====
-- `list_del` of kernel/list.h on the list that a ring stands for.
use system_n.Base.{ℕ, ◌≡◌, false, List, [], ◌∷◌, ◌++◌, arith, has, has-append, has-ne}
use system_n.Queue.{Links, list_del, list_in_queue}
use system_n.Queue.Ring.{Chain, Distinct, IsRing, prev-mem, next-mem, Chain-frame}

-- The neighbours of a node within a chain.
pub Chain-split :
    (h : Links) (a b e : ℕ) (ys zs : List ℕ)
    → Chain h a (ys ++ e ∷ zs) b
    → Chain h a ys e × Chain h e zs b
Chain-split h a b e [] zs c = ((c.0, c.1), c.2)
Chain-split h a b e (y ∷ ys) zs c = let (l, r) = Chain-split h y b e ys zs c.2 in ((c.0, c.1, l), r)

-- The two chains of a node's neighbours join when the node between them is taken out.
list_del-Chain :
    (h : Links) (a b e : ℕ) (ys zs : List ℕ)
    → Chain h a (ys ++ e ∷ zs) b
    → has e (a ∷ b ∷ ys ++ zs) ≡ false
    → Distinct (ys ++ zs)
    → has a (ys ++ zs) ≡ false
    → has b (ys ++ zs) ≡ false
    → Chain (list_del e h) a (ys ++ zs) b
unfolding list_del
list_del-Chain h a b e [] [] c out d na nb = (ground arith, ground arith)
list_del-Chain h a b e [] (z ∷ zs) c out d na nb = (
  ground arith,
  ground arith,
  Chain-frame h (list_del e h) z b zs c.2.2
      (λ x i. ground (arith, has-ne x a (z ∷ zs), has-ne x e (z ∷ zs)))
      (λ x i. ground (arith, has-append x zs (b ∷ []), has-ne x z zs, has-ne x e zs)),
)
list_del-Chain h a b e (y ∷ ys) zs c out d na nb =
    let (l, r) = Chain-split h y b e ys zs c.2 in
    (
      ground (arith, prev-mem h y e ys l, has-append a ys zs, has-ne (h.prev e) a (y ∷ ys)),
      ground (
        arith,
        next-mem h e b zs r,
        has-append y ys zs,
        has-append (h.next e) zs (b ∷ []),
        has-ne (h.next e) y zs,
      ),
      list_del-Chain h y b e ys zs c.2 (ground arith) (ground arith) (ground arith) (ground arith),
    )

-- A list of different nodes without one of them.
pub Distinct-cut :
    (e : ℕ) (ys zs : List ℕ)
    → Distinct (ys ++ e ∷ zs)
    → Distinct (ys ++ zs) × (has e (ys ++ zs) ≡ false)
Distinct-cut e [] zs d = (d.1, d.0)
Distinct-cut e (y ∷ ys) zs d =
    let (l, r) = Distinct-cut e ys zs d.1 in
    (
      (ground (arith, has-append y ys zs, has-append y ys (e ∷ zs)), l),
      ground (arith, has-append y ys (e ∷ zs)),
    )

-- list_del takes a node out of a circular list, wherever it stands, and what is left is the
-- circular list of the other nodes in their order.
pub list_del-IsRing :
    (e : ℕ) (ys zs : List ℕ) {h : Links} {head : ℕ}
    → IsRing h head (ys ++ e ∷ zs)
    → IsRing (list_del e h) head (ys ++ zs)
list_del-IsRing e ys zs {h} {head} r =
    let (d, out) = Distinct-cut e ys zs r.distinct in
    let apart : has head (ys ++ zs) ≡ false =
      ground (arith, r.apart, has-append head ys zs, has-append head ys (e ∷ zs)) in
    record {
      chain =
          list_del-Chain h head head e ys zs r.chain
            (ground (arith, r.apart, has-append head ys (e ∷ zs))) d apart apart;
      apart = apart;
      distinct = d;
    }

pub list_del-null : (e : ℕ) (h : Links) → list_in_queue e (list_del e h) ≡ false
unfolding list_in_queue list_del
list_del-null e h = ground arith
