-- ===== src/Spinlock/Exclusion.antt =====
-- The invariant of the harts that use one lock of kernel/spinlock.c together.
use system_n.Base.{
  ℕ, ◌+◌, ◌<◌, ◌≡◌, ◌≢◌, refl, Bool, true, false, arith, ◌==◌, Bool-cases, inl, inr,
}
use system_n.Spinlock.{uint_mod, Hart, IsMasked, clear_bits-IsMasked, enter, leave, restore}
use system_n.Spinlock.Harts.{
  Pc, panicked, Move, lock_enter, lock_spin, lock_take, try_enter, try_take, try_fail, unlock_panic,
  unlock_enter, unlock_clear, unlock_restore, System, put, Step, step, Reach, start, next, holds,
  counts,
}

-- What the position of a hart says of its state.
pub record IsSound (p : Pc) (c : Hart) : Type 0 where
  pub depth : counts p ≡ true → 0 < c.lock_depth
  pub masked : 0 < c.lock_depth → IsMasked c.sstatus
  pub masked_holder : holds p ≡ true → IsMasked c.sstatus
  pub alive : p ≢ panicked

pub record Inv (s : System) : Type 0 where
  pub unique : (i j : ℕ) → holds (s.pc i) ≡ true → holds (s.pc j) ≡ true → i ≡ j
  pub held : (i : ℕ) → holds (s.pc i) ≡ true → s.locked ≢ 0
  pub taken : s.locked ≢ 0 → (i : ℕ) × (holds (s.pc i) ≡ true)
  pub sound : (i : ℕ) → IsSound (s.pc i) (s.hart i)

enter-depth : (c : Hart) → c.lock_depth + 1 < uint_mod → 0 < (enter c).lock_depth
unfolding enter
enter-depth c h = ground arith

enter-IsMasked : (c : Hart) → (0 < c.lock_depth → IsMasked c.sstatus) → IsMasked (enter c).sstatus
unfolding enter
enter-IsMasked c h = ground (arith, clear_bits-IsMasked c.sstatus)

Move-IsSound :
    {l l' : ℕ} {p p' : Pc} {c c' : Hart} → Move l p c l' p' c' → IsSound p c → IsSound p' c'
unfolding leave restore
Move-IsSound (lock_enter {c} b) s = ground (arith, enter-depth c, enter-IsMasked c s.masked)
Move-IsSound (try_enter {c} b) s = ground (arith, enter-depth c, enter-IsMasked c s.masked)
Move-IsSound (lock_spin n) s = ground arith
Move-IsSound (lock_take z) s = ground arith
Move-IsSound (try_take z) s = ground arith
Move-IsSound (try_fail n) s = ground arith
Move-IsSound (unlock_panic z) s = absurd (ground (arith, s.depth refl))
Move-IsSound (unlock_enter n) s = ground arith
Move-IsSound unlock_clear s = ground arith
Move-IsSound unlock_restore s = ground arith

-- What a move does to the lock and to who holds it: nothing, take it when it is free, give it back.
data Effect (l : ℕ) (before : Bool) (l' : ℕ) (after : Bool) : Type 0 where
  keep : before ≡ after → (l ≢ 0 → l' ≢ 0) → (l' ≢ 0 → l ≢ 0) → Effect l before l' after
  take : l ≡ 0 → after ≡ true → l' ≢ 0 → Effect l before l' after
  give : before ≡ true → after ≡ false → l' ≡ 0 → Effect l before l' after

effect :
    {l l' : ℕ} {p p' : Pc} {c c' : Hart}
    → Move l p c l' p' c'
    → IsSound p c
    → Effect l (holds p) l' (holds p')
effect (lock_enter b) s = keep refl (λ h. h) (λ h. h)
effect (try_enter b) s = keep refl (λ h. h) (λ h. h)
effect (lock_spin n) s = keep refl (λ h. omega arith) (λ h. n)
effect (lock_take z) s = take z refl (omega arith)
effect (try_take z) s = take z refl (omega arith)
effect (try_fail n) s = keep refl (λ h. h) (λ h. h)
effect (unlock_panic z) s = absurd (ground (arith, s.depth refl))
effect (unlock_enter n) s = keep refl (λ h. h) (λ h. h)
effect unlock_clear s = give refl refl refl
effect unlock_restore s = keep refl (λ h. h) (λ h. h)

module _ (s : System) (inv : Inv s) (i : ℕ) where
  unique-Effect :
      (p : Pc) {l : ℕ}
      → Effect s.locked (holds (s.pc i)) l (holds p)
      → (a b : ℕ) → holds (put s.pc i p a) ≡ true
      → holds (put s.pc i p b) ≡ true
      → a ≡ b
  unique-Effect p (keep e to from) a b ha hb =
      ground (arith, inv.unique a b, inv.unique i b, inv.unique a i)
  unique-Effect p (take z e n) a b ha hb = ground (arith, inv.held a, inv.held b)
  unique-Effect p (give h e z) a b ha hb = ground (arith, inv.unique i a, inv.unique i b)

  held-Effect :
      (p : Pc) {l : ℕ}
      → Effect s.locked (holds (s.pc i)) l (holds p)
      → (a : ℕ) → holds (put s.pc i p a) ≡ true
      → l ≢ 0
  held-Effect p (keep e to from) a h = to (ground (arith, inv.held a, inv.held i))
  held-Effect p (take z e n) a h = n
  held-Effect p (give g e z) a h = ground (arith, inv.unique i a)

  taken-Effect :
      (p : Pc) {l : ℕ}
      → Effect s.locked (holds (s.pc i)) l (holds p)
      → l ≢ 0
      → (a : ℕ) × (holds (put s.pc i p a) ≡ true)
  taken-Effect p (keep e to from) n = let (a, h) = inv.taken (from n) in (a, ground arith)
  taken-Effect p (take z e n) m = (i, ground arith)
  taken-Effect p (give g e z) n = absurd (n z)

Step-Inv : {s t : System} → Step s t → Inv s → Inv t
Step-Inv {s} (step i {p} {c} mv) inv =
    let e = effect mv (inv.sound i) in
    record {
      unique = unique-Effect s inv i p e;
      held = held-Effect s inv i p e;
      taken = taken-Effect s inv i p e;
      sound = λ j. elim (Bool-cases (j == i)) [
        | inl same ↦ rw same (Move-IsSound mv (inv.sound i))
        | inr other ↦ rw other (inv.sound j)
      ];
    }

Reach-Inv : {s : System} → Reach s → Inv s
Reach-Inv (start hart zeros) = record {
  unique = λ i j h k. cc;
  held = λ i h. cc;
  taken = λ n. absurd (n refl);
  sound = λ i. ground (arith, zeros i);
}
Reach-Inv (next r st) = Step-Inv st (Reach-Inv r)

-- In every state that harts reach by moves of spin_lock, spin_trylock and spin_unlock on one lock,
-- each move one shared access, where spin_unlock is called only by the hart that took the lock and
-- lock_depth does not pass its type, at most one hart stands between a call that took the lock and
-- the store that clears it.
pub mutual_exclusion :
    {s : System} → Reach s → (i j : ℕ) → holds (s.pc i) ≡ true → holds (s.pc j) ≡ true → i ≡ j
mutual_exclusion r = (Reach-Inv r).unique

-- In every state that harts reach by moves of spin_lock, spin_trylock and spin_unlock on one lock,
-- where spin_unlock is called only by the hart that took the lock and lock_depth does not pass its
-- type, the word of the lock is non-zero exactly if some hart holds the lock.
pub locked-iff-holds :
    {s : System}
    → Reach s
    → (s.locked ≢ 0 → (i : ℕ) × (holds (s.pc i) ≡ true))
      × ((i : ℕ) → holds (s.pc i) ≡ true → s.locked ≢ 0)
locked-iff-holds r = ((Reach-Inv r).taken, (Reach-Inv r).held)

-- In every state that harts reach by moves of spin_lock, spin_trylock and spin_unlock on one lock,
-- where spin_unlock is called only by the hart that took the lock and lock_depth does not pass its
-- type, a hart that holds the lock has its interrupts off, and no hart stands in the panic loop of
-- spin_unlock.
pub holder-IsMasked :
    {s : System}
    → Reach s
    → (i : ℕ) → (holds (s.pc i) ≡ true → IsMasked (s.hart i).sstatus) × (s.pc i ≢ panicked)
holder-IsMasked r i = let f = (Reach-Inv r).sound i in (f.masked_holder, f.alive)
