-- ===== src/Buddy/Free.antt =====
-- `free_pages` of kernel/mm/mem.c on the tiling of the pages.
use system_n.Base.{
  ℕ, ◌+◌, ◌-◌, ◌*◌, ◌≤◌, ◌<◌, ◌^◌, ◌≡◌, refl, true, false, not, inl, inr, Option, some, List, [],
  ◌∷◌, length, has, arith, ◌==◌, ap, sym, ◌∙◌, Bool-cases, ==_refl,
}
use system_n.Spinlock.{Run, done, panic}
use system_n.Proc.{page_size}
use system_n.Buddy.{
  Buddy, put, max_order, get_page_struct, push_free, coalesce, give_back, marked, finish_free,
  free_pages,
}
use system_n.Buddy.Tiling.{Block, in_range, paint}
use system_n.Buddy.State.{push_free-words, IsList-frame, IsBuddy, push_free-IsBuddy}
use system_n.Buddy.Address.{IsPlaced-same, IsPlaced, addr_of, get_page_struct-found}
use system_n.Buddy.Coalesce.{Grown, grown, halts}
use system_n.Buddy.Rounds.{coalesce-Merging}

-- A block in use is taken in hand.
open-IsBuddy :
    {b : Buddy} {tile : ℕ → Block} {lists : ℕ → List ℕ} (i o : ℕ)
    → IsBuddy b tile lists []
    → i < b.num_pages
    → tile i ≡ record { head = i; order = o; used = true }
    → IsBuddy (marked i b) tile lists (i ∷ [])
open-IsBuddy {b} {tile} {lists} i o s l t =
    let head : (tile i).head ≡ i = ap (λ k. k.head) t in
    let used : (tile i).used ≡ true = ap (λ k. k.used) t in
    let other : (x : ℕ) → has x (i ∷ []) ≡ false → (x == i) ≡ false = λ x m. ground (arith, m) in
    record {
      tiling = s.tiling;
      flags = λ x z y m. rw (other x m) (s.flags x z y refl);
      orders = λ x z y m. rw (other x m) (s.orders x z y refl);
      in_hand = λ x m. let e : x ≡ i = ground (arith, m) in rw e (l, head, used);
      hand_order = λ x m f.
          let e : x ≡ i = ground (arith, m) in
          let same = s.orders i l head refl in rw (e, ==_refl i) (omega (arith, same));
      listed = s.listed;
      complete = s.complete;
      stale = λ x z f n.
          let d : (x == i) ≡ false = ground (arith, head, n) in rw d (s.stale x z (rw d at f) n);
      chains = λ q z.
          IsList-frame b.pages (marked i b).pages (b.free_lists q) (lists q) (λ x m. ground arith)
            (s.chains q z);
      distinct = s.distinct;
    }

-- The pages of a block in use are free now, and the tiling is otherwise as it was for the pages in
-- use, with the same free pages.
pub record Freed (b : Buddy) (tile : ℕ → Block) (i o : ℕ) (after : Buddy) : Type 0 where
  pub tile' : ℕ → Block
  pub lists' : ℕ → List ℕ
  pub valid : IsBuddy after tile' lists' []
  pub now_free : (x : ℕ) → in_range i (i + 2 ^ o) x ≡ true → (tile' x).used ≡ false
  pub kept : (x : ℕ) → in_range i (i + 2 ^ o) x ≡ false → (tile x).used ≡ true → tile' x ≡ tile x
  pub still_free : (x : ℕ) → (tile x).used ≡ false → (tile' x).used ≡ false
  pub base : after.buddy_base_phys ≡ b.buddy_base_phys
  pub count : after.num_pages ≡ b.num_pages

-- The block that the merging left goes to its free list.
Grown-Freed :
    {b : Buddy} {tile : ℕ → Block} {i o i' o' : ℕ} {after : Buddy}
    → Grown (marked i b) tile i o after i' o'
    → Freed b tile i o (push_free i' o' after)
Grown-Freed {b} {tile} {i} {o} {i'} {o'} {after} g =
    let (pb, pc) = push_free-words i' o' after in
    record {
      tile' = paint i' (i' + 2 ^ o') (record { head = i'; order = o'; used = false }) g.tile';
      lists' = put g.lists' o' (i' ∷ g.lists' o');
      valid = push_free-IsBuddy i' o' g.valid refl (ap (λ k. k.order) g.mine);
      now_free = λ x c.
          let d : in_range i' (i' + 2 ^ o') x ≡ true = ground (arith, c, g.low, g.high) in
          rw d refl;
      kept = λ x c u.
          let d : in_range i' (i' + 2 ^ o') x ≡ false = ground (arith, g.was_free x, c, u) in
          rw d (g.outside x d);
      still_free = λ x f. elim (Bool-cases (in_range i' (i' + 2 ^ o') x)) [
        | inl d ↦ rw d refl
        | inr d ↦ rw d (ap (λ k. k.used) (g.outside x d) ∙ f)
      ];
      base = pb ∙ g.base;
      count = pc ∙ g.count;
    }

-- How `free_pages` ends: the block is free, or the hart halts, near the end of the memory.
pub data Release (b : Buddy) (tile : ℕ → Block) (i o : ℕ) (r : Option (Run Buddy)) : Type 0 where
  freed : (after : Buddy) → r ≡ some (done after) → Freed b tile i o after → Release b tile i o r
  halted : r ≡ some panic → b.num_pages < i + 1024 → Release b tile i o r

free_pages-used :
    (fuel i : ℕ) (b : Buddy)
    → IsPlaced b
    → i < b.num_pages
    → (b.pages i).is_free ≡ false
    → free_pages fuel (addr_of b i) b
      ≡ finish_free (
          coalesce fuel
            (max_order - (b.pages i).order)
            (b.pages i).order
            (addr_of b i)
            (marked i b))
unfolding free_pages
free_pages-used fuel i b p l f =
    let there : (addr_of b i == 0) ≡ false = ground (arith, p.not_null) in
    rw (there, get_page_struct-found p i l, f) refl

-- For an allocator whose page structs and free lists agree with a tiling of its pages, which lies
-- below 2^62 and not at 0, and more fuel than the longest free list has blocks: free_pages of the
-- first page of a block in use ends. Either the page structs and free lists then agree with a
-- tiling in which the pages of the block are free, every other block in use is as it was, and
-- every free page is still free; or the hart halts, which it does only if fewer than 1024 pages
-- follow from that page on.
pub free_pages-Release :
    (fuel i o : ℕ) {b : Buddy} {tile : ℕ → Block} {lists : ℕ → List ℕ}
    → IsPlaced b
    → IsBuddy b tile lists []
    → i < b.num_pages
    → tile i ≡ record { head = i; order = o; used = true }
    → ((q : ℕ) → q ≤ 10 → length (lists q) < fuel)
    → Release b tile i o (free_pages fuel (addr_of b i) b)
unfolding finish_free give_back
free_pages-Release fuel i o {b} {tile} {lists} p s l t f =
    let head : (tile i).head ≡ i = ap (λ k. k.head) t in
    let busy : (b.pages i).is_free ≡ false = s.flags i l head refl ∙ ap (λ k. not k.used) t in
    let order : (b.pages i).order ≡ o = s.orders i l head refl ∙ ap (λ k. k.order) t in
    let small : o ≤ 10 = rw t at (s.tiling.small i l) in
    let run : free_pages fuel (addr_of b i) b
        ≡ finish_free (coalesce fuel (10 - o) o (addr_of b i) (marked i b)) =
      free_pages-used fuel i b p l busy ∙ rw order refl in
    let p' : IsPlaced (marked i b) = IsPlaced-same p refl refl in
    elim (coalesce-Merging fuel (10 - o) o i {b = marked i b} p' (open-IsBuddy i o s l t) t
      (omega arith) f) [
        | halts e n ↦ halted (run ∙ rw e refl) n
        | grown after i' o' e g ↦
            let bound : i' < after.num_pages = (g.valid.in_hand i' (ground arith)).0 in
            let found : get_page_struct (addr_of b i') after ≡ done i' =
              ap (λ z. get_page_struct (z + i' * page_size) after) (sym g.base)
              ∙ get_page_struct-found {b = after} (IsPlaced-same p' g.base g.count) i' bound in
            freed (push_free i' o' after) (run ∙ rw (e, found) refl) (Grown-Freed g)
      ]
