-- ===== src/Queue/Add.antt =====
-- `list_add_tail` and `list_add` of kernel/list.h on the list that a ring stands for.
use system_n.Base.{ℕ, ◌≡◌, ◌≢◌, refl, false, List, [], ◌∷◌, ◌++◌, arith, has, has-append, has-ne}
use system_n.Queue.{Links, list_add, list_add_tail}
use system_n.Queue.Ring.{Chain, Distinct, IsRing, prev-mem, Chain-frame}

list_add_tail-Chain :
    (h : Links) (new a b : ℕ) (xs : List ℕ)
    → Chain h a xs b
    → has a xs ≡ false
    → Distinct xs
    → has b xs ≡ false
    → has new xs ≡ false
    → new ≢ a
    → new ≢ b
    → Chain (list_add_tail new b h) a (xs ++ new ∷ []) b
unfolding list_add_tail
list_add_tail-Chain h new a b [] c apart d out fresh na nb =
    (ground arith, ground arith, (ground arith, ground arith))
list_add_tail-Chain h new a b (x ∷ xs) c apart d out fresh na nb = (
  ground (arith, prev-mem h x b xs c.2),
  ground arith,
  list_add_tail-Chain h new x b xs c.2 (ground arith) (ground arith) (ground arith) (ground arith)
      (ground arith) nb,
)

Distinct-snoc :
    (xs : List ℕ) (new : ℕ) → Distinct xs → has new xs ≡ false → Distinct (xs ++ new ∷ [])
Distinct-snoc [] new d fresh = (refl, tt)
Distinct-snoc (x ∷ xs) new d fresh =
    (ground (arith, has-append x xs (new ∷ [])), Distinct-snoc xs new d.1 (ground arith))

-- list_add_tail puts a node that is not on a circular list at its end.
pub list_add_tail-IsRing :
    (new : ℕ) {h : Links} {head : ℕ} {xs : List ℕ}
    → IsRing h head xs
    → has new (head ∷ xs) ≡ false
    → IsRing (list_add_tail new head h) head (xs ++ new ∷ [])
list_add_tail-IsRing new {h} {head} {xs} r fresh = record {
  chain =
      list_add_tail-Chain h new head head xs r.chain r.apart r.distinct r.apart (ground arith)
        (ground arith) (ground arith);
  apart = ground (arith, has-append head xs (new ∷ []), r.apart);
  distinct = Distinct-snoc xs new r.distinct (ground arith);
}

list_add-Chain :
    (h : Links) (new head : ℕ) (xs : List ℕ)
    → Chain h head xs head
    → has head xs ≡ false
    → Distinct xs
    → has new (head ∷ xs) ≡ false
    → Chain (list_add new head h) head (new ∷ xs) head
unfolding list_add
list_add-Chain h new head [] c apart d fresh =
    (ground arith, ground arith, (ground arith, ground arith))
list_add-Chain h new head (x ∷ xs) c apart d fresh = (
  ground arith,
  ground arith,
  (
    ground arith,
    ground arith,
    Chain-frame h (list_add new head h) x head xs c.2
        (λ y i. ground (arith, has-ne y new (x ∷ xs), has-ne y head (x ∷ xs)))
        (λ y i. ground (arith, has-append y xs (head ∷ []), has-ne y new xs, has-ne y x xs)),
  ),
)

-- list_add puts a node that is not on a circular list at its front.
list_add-IsRing :
    (new : ℕ) {h : Links} {head : ℕ} {xs : List ℕ}
    → IsRing h head xs
    → has new (head ∷ xs) ≡ false
    → IsRing (list_add new head h) head (new ∷ xs)
list_add-IsRing new {h} {head} {xs} r fresh = record {
  chain = list_add-Chain h new head xs r.chain r.apart r.distinct fresh;
  apart = ground (arith, r.apart);
  distinct = (ground arith, r.distinct);
}
