-- ===== src/Queue/Ring.antt =====
-- The list that a ring of links stands for, and what leaves a ring as it is.
use system_n.Base.{ℕ, ◌≡◌, true, false, List, [], ◌∷◌, ◌++◌, arith, has, ap, ◌∙◌}
use system_n.Queue.{Links}

-- From `a` the nodes `xs`, in order, lead to `b`, and `prev` leads back.
abbrev pub Chain : Links → ℕ → List ℕ → ℕ → Type 0
Chain h a [] b = (h.next a ≡ b) × (h.prev b ≡ a)
Chain h a (x ∷ xs) b = (h.next a ≡ x) × (h.prev x ≡ a) × Chain h x xs b

-- No address twice.
abbrev pub Distinct : List ℕ → Type 0
Distinct [] = Unit
Distinct (x ∷ xs) = (has x xs ≡ false) × Distinct xs

-- The list with head `head` holds the nodes `xs`.
pub record IsRing (h : Links) (head : ℕ) (xs : List ℕ) : Type 0 where
  pub chain : Chain h head xs head
  pub apart : has head xs ≡ false
  pub distinct : Distinct xs

-- A chain survives a change that spares its words.
pub Chain-frame :
    (h g : Links) (a b : ℕ) (xs : List ℕ)
    → Chain h a xs b
    → ((x : ℕ) → has x (a ∷ xs) ≡ true → g.next x ≡ h.next x)
    → ((x : ℕ) → has x (xs ++ b ∷ []) ≡ true → g.prev x ≡ h.prev x)
    → Chain g a xs b
Chain-frame h g a b [] c n p = (ground (arith, n a), ground (arith, p b))
Chain-frame h g a b (x ∷ xs) c n p = (
  ground (arith, n a),
  ground (arith, p x),
  Chain-frame h g x b xs c.2 (λ y i. n y (ground arith)) (λ y i. p y (ground arith)),
)

-- The last node of a chain is one of its own.
pub prev-mem : (h : Links) (a b : ℕ) (xs : List ℕ) → Chain h a xs b → has (h.prev b) (a ∷ xs) ≡ true
prev-mem h a b [] c = ground arith
prev-mem h a b (x ∷ xs) c = ground (arith, prev-mem h x b xs c.2)

-- The first node of a chain is one of its own, or its end.
pub next-mem :
    (h : Links) (a b : ℕ) (xs : List ℕ) → Chain h a xs b → has (h.next a) (xs ++ b ∷ []) ≡ true
next-mem h a b [] c = ground arith
next-mem h a b (x ∷ xs) c = ground arith

-- The last node of a chain leads to its end.
pub next-prev : (h : Links) (a b : ℕ) (xs : List ℕ) → Chain h a xs b → h.next (h.prev b) ≡ b
next-prev h a b [] c = ap h.next c.1 ∙ c.0
next-prev h a b (x ∷ xs) c = next-prev h x b xs c.2
