-- ===== src/Buddy/Unlink.antt =====
-- The inner loop of `free_pages` of kernel/mm/mem.c, which takes the buddy off its free list.
use system_n.Base.{
  ℕ, zero, suc, ◌<◌, ◌≡◌, refl, true, false, ◌⊎◌, inl, inr, Option, some, List, [], ◌∷◌, ◌++◌,
  length, has, has-append, arith, ◌==◌, if◌then◌else◌, ap, ◌∙◌, Bool-cases, has-ne, ==_iff, ==_refl,
}
use system_n.Queue.Ring.{Distinct}
use system_n.Buddy.{
  Buddy, put, Link, head, behind, read_link, write_link, find_link, cut_link, absorb,
}
use system_n.Buddy.State.{IsList, IsList-frame}

-- A member has a first place.
pub has-split :
    (j : ℕ) (xs : List ℕ)
    → has j xs ≡ true
    → (ys : List ℕ) × (zs : List ℕ) × (xs ≡ ys ++ j ∷ zs) × (has j ys ≡ false)
has-split j [] m = absurd (ground (arith, m))
has-split j (x ∷ xs) m = elim (Bool-cases (j == x)) [
  | inl e ↦ ([], xs, rw ((==_iff j x).0 e) refl, refl)
  | inr e ↦
      let (ys, zs, f, n) = has-split j xs (ground (arith, m, e)) in
      (x ∷ ys, zs, rw f refl, ground (arith, n, e))
]

-- A pointer outside a list: the head of the free list, or the `next` of a page that is not on it.
abbrev IsOutside : Link → List ℕ → Type 0
IsOutside head xs = Unit
IsOutside (behind x) xs = has x xs ≡ false

IsOutside-tail : (p : Link) (j : ℕ) (zs : List ℕ) → IsOutside p (j ∷ zs) → IsOutside p zs
IsOutside-tail head j zs o = tt
IsOutside-tail (behind x) j zs o = ground (arith, o)

-- Where the loop stops: at its start, or at the `next` of a page on the way.
abbrev IsOnWay : Link → Link → List ℕ → Type 0
IsOnWay p q ys = (q ≡ p) ⊎ ((x : ℕ) × (q ≡ behind x) × (has x ys ≡ true))

-- A write to the `next` of one page leaves the pointers elsewhere.
read-write_link :
    (order : ℕ) (p : Link) (x : ℕ) (v : Option ℕ) (b : Buddy) (xs : List ℕ)
    → IsOutside p xs
    → has x xs ≡ true
    → read_link order p (write_link order (behind x) v b) ≡ read_link order p b
read-write_link order head x v b xs o m = refl
read-write_link order (behind y) x v b xs o m =
    let ne : (y == x) ≡ false = ground (arith, has-ne x y xs m o) in rw (read_link, ne) refl

read_link_self :
    (order : ℕ) (p : Link) (v : Option ℕ) (b : Buddy)
    → read_link order p (write_link order p v b) ≡ v
read_link_self order head v b = rw (==_refl order) refl
read_link_self order (behind x) v b = rw (read_link, ==_refl x) refl

write_link-outside :
    (order : ℕ) (p : Link) (v : Option ℕ) (b : Buddy) (xs : List ℕ) (q : Option ℕ)
    → IsOutside p xs
    → IsList b.pages q xs
    → IsList (write_link order p v b).pages q xs
write_link-outside order head v b xs q o l = l
write_link-outside order (behind x) v b xs q o l =
    IsList-frame b.pages (put b.pages x _) q xs (λ y m. let ne = has-ne y x xs m o in rw ne refl) l

-- The loop finds the pointer to the buddy, and the write there takes the buddy off the list.
find_link-finds :
    (fuel order j : ℕ) (p : Link) (ys zs : List ℕ) (b : Buddy)
    → IsList b.pages (read_link order p b) (ys ++ j ∷ zs)
    → Distinct (ys ++ j ∷ zs)
    → IsOutside p (ys ++ j ∷ zs)
    → has j ys ≡ false
    → length ys < fuel
    → (q : Link) × (find_link fuel order j p b ≡ some q)
      × (read_link order q b ≡ some j)
      × IsOnWay p q ys
      × IsList
          (write_link order q (b.pages j).next b).pages
          (read_link order p (write_link order q (b.pages j).next b))
          (ys ++ zs)
unfolding find_link
find_link-finds zero order j p ys zs b l d o n f = absurd (omega arith)
find_link-finds (suc fuel) order j p [] zs b l d o n f = (
  p,
  rw (find_link, l.0, ==_refl j) refl,
  l.0,
  inl refl,
  rw (read_link_self order p (b.pages j).next b) (
      write_link-outside order p (b.pages j).next b zs (b.pages j).next (IsOutside-tail p j zs o)
        l.1),
)
find_link-finds (suc fuel) order j p (y ∷ ys) zs b l d o n f =
    let ne : (y == j) ≡ false = ground (arith, n) in
    let (q, found, at, way, rest) =
      find_link-finds fuel order j (behind y) ys zs b l.1 d.1 d.0 (ground (arith, n))
        (omega (arith, f)) in
    let keep : (x : ℕ)
        → has x (y ∷ ys) ≡ true
        → read_link order p (write_link order (behind x) (b.pages j).next b) ≡ some y =
      λ x m.
        read-write_link order p x (b.pages j).next b (y ∷ ys ++ j ∷ zs) o
          (ground (arith, has-append x ys (j ∷ zs), m))
        ∙ l.0 in
    elim way [
      | inl e ↦
          let m : has y (y ∷ ys) ≡ true = ground (arith, ==_refl y) in
          (q, rw (find_link, l.0, ne) found, at, inr (y, e, m), (rw e (keep y m), rest))
      | inr (x, e, m) ↦
          let m' : has x (y ∷ ys) ≡ true = ground (arith, m) in
          (q, rw (find_link, l.0, ne) found, at, inr (x, e, m'), (rw e (keep x m'), rest))
    ]

-- The buddy `j` is off the free list of its order, and is not free any more; nothing else changes
-- but the `next` of pages before it on that list.
pub record Absorbed (b : Buddy) (order j : ℕ) (ys zs : List ℕ) (r : Option Buddy) : Type 0 where
  pub after : Buddy
  pub runs : r ≡ some after
  pub chain : IsList after.pages (after.free_lists order) (ys ++ zs)
  pub order_same : (x : ℕ) → (after.pages x).order ≡ (b.pages x).order
  pub free_same :
      (x : ℕ) → (after.pages x).is_free ≡ (if x == j then false else (b.pages x).is_free)
  pub next_same : (x : ℕ) → has x ys ≡ false → (after.pages x).next ≡ (b.pages x).next
  pub lists_same : (q : ℕ) → (q == order) ≡ false → after.free_lists q ≡ b.free_lists q
  pub base : after.buddy_base_phys ≡ b.buddy_base_phys
  pub count : after.num_pages ≡ b.num_pages

abbrev place : Link → ℕ
place head = 0
place (behind x) = x

-- Marking the page struct of the buddy does not touch the lists.
mark : ℕ → Buddy → Buddy
mark j b = record b { pages = put b.pages j (record (b.pages j) { is_free = false }) }

write_link-Absorbed :
    (order j : ℕ) (q : Link) (v : Option ℕ) (ys zs : List ℕ) (b : Buddy)
    → IsOnWay head q ys
    → IsList
        (write_link order q v b).pages
        (read_link order head (write_link order q v b))
        (ys ++ zs)
    → Absorbed b order j ys zs (some (mark j (write_link order q v b)))
unfolding mark
write_link-Absorbed order j q v ys zs b way l =
    let mk : (x : ℕ)
        → (put (write_link order q v b).pages j
            (record ((write_link order q v b).pages j) { is_free = false }) x).next
          ≡ ((write_link order q v b).pages x).next =
      λ x. ground arith in
    record {
      after = mark j (write_link order q v b);
      runs = refl;
      chain =
          IsList-frame (write_link order q v b).pages (mark j (write_link order q v b)).pages
            ((write_link order q v b).free_lists order) (ys ++ zs) (λ x m. mk x) (by_link q l);
      order_same = λ x. same_order q x;
      free_same = λ x. same_free q x;
      next_same = λ x n. mk x ∙ same_next q way x n;
      lists_same = λ p n. same_lists q p n;
      base = same_base q;
      count = same_count q;
    }
  where
    by_link :
        (q : Link)
        → IsList
            (write_link order q v b).pages
            (read_link order head (write_link order q v b))
            (ys ++ zs)
        → IsList
            (write_link order q v b).pages
            ((write_link order q v b).free_lists order)
            (ys ++ zs)
    by_link q l = l

    same_order :
        (q : Link) (x : ℕ) → ((mark j (write_link order q v b)).pages x).order ≡ (b.pages x).order
    same_order head x = ground arith
    same_order (behind y) x = ground arith

    same_free :
        (q : Link) (x : ℕ)
        → ((mark j (write_link order q v b)).pages x).is_free
          ≡ (if x == j then false else (b.pages x).is_free)
    same_free head x = ground arith
    same_free (behind y) x = ground arith

    same_next :
        (q : Link)
        → IsOnWay head q ys
        → (x : ℕ) → has x ys ≡ false
        → ((write_link order q v b).pages x).next ≡ (b.pages x).next
    same_next head w x n = refl
    same_next (behind y) (inl e) x n = cc
    same_next (behind y) (inr (z, e, m)) x n =
        let yz : y ≡ z = ap place e in
        let ne : (x == y) ≡ false = ground (arith, has-ne z x ys m n, yz) in rw ne refl

    same_lists :
        (q : Link) (p : ℕ)
        → (p == order) ≡ false
        → (write_link order q v b).free_lists p ≡ b.free_lists p
    same_lists head p n = rw n refl
    same_lists (behind y) p n = refl

    same_base : (q : Link) → (write_link order q v b).buddy_base_phys ≡ b.buddy_base_phys
    same_base head = refl
    same_base (behind y) = refl

    same_count : (q : Link) → (write_link order q v b).num_pages ≡ b.num_pages
    same_count head = refl
    same_count (behind y) = refl

cut_link-found :
    (order j : ℕ) (q : Link) (b : Buddy)
    → read_link order q b ≡ some j
    → cut_link order j q b ≡ write_link order q (b.pages j).next b
unfolding cut_link
cut_link-found order j q b at = rw (cut_link, at, ==_refl j) refl

pub absorb-Absorbed :
    (fuel order j : ℕ) (ys zs : List ℕ) (b : Buddy)
    → IsList b.pages (b.free_lists order) (ys ++ j ∷ zs)
    → Distinct (ys ++ j ∷ zs)
    → has j ys ≡ false
    → length ys < fuel
    → Absorbed b order j ys zs (absorb fuel order j b)
unfolding absorb mark
absorb-Absorbed fuel order j ys zs b l d n f =
    let (q, found, at, way, rest) = find_link-finds fuel order j head ys zs b l d tt n f in
    rw (absorb, found, cut_link-found order j q b at)
      (write_link-Absorbed order j q (b.pages j).next ys zs b way rest)
