-- ===== src/Spinlock/Nesting.antt =====
-- Critical sections on one hart: nested calls of `spin_lock` and `spin_unlock`.
use system_n.Base.{
  ℕ, ◌+◌, ◌<◌, ◌≡◌, refl, ◌≢◌, Bool, true, false, ◌||◌, ◌∙◌, Option, none, some, arith, ◌==◌,
  if◌then◌else◌,
}
use system_n.Spinlock.{
  uint_mod, Hart, IsMasked, clear_bits-IsMasked, done, panic, enter, spin_lock, spin_trylock, leave,
  restore, spin_unlock,
}

-- Code between locks, in sequence and under a lock; `work` leaves locks and interrupts alone.
pub data Code : Type 0 where
  work : Code
  seq : Code → Code → Code
  hold : ℕ → Code → Code

-- The words of all locks, by number.
abbrev pub Locks : Type 0
Locks = ℕ → ℕ

pub record Machine : Type 0 where
  pub locks : Locks
  pub hart : Hart

abbrev pub write : Locks → ℕ → ℕ → Locks
write ls l v i = if i == l then v else ls i

-- `none`: the hart spins on a lock that it holds, or panics.
unfoldable pub acquire : ℕ → Machine → Option Machine
unfolding spin_lock
acquire l m = elim (spin_lock 1 (m.locks l) m.hart) [
  | none ↦ none
  | some (w, c) ↦ some (record { locks = write m.locks l w; hart = c })
]

unfoldable pub release : ℕ → Machine → Option Machine
unfolding spin_unlock
release l m = elim (spin_unlock (m.locks l) m.hart) [
  | panic ↦ none
  | done (w, c) ↦ some (record { locks = write m.locks l w; hart = c })
]

abbrev pub and_then : Option Machine → (Machine → Option Machine) → Option Machine
and_then none k = none
and_then (some m) k = k m

unfoldable pub exec : Code → Machine → Option Machine
exec work m = some m
exec (seq a b) m = and_then (exec a m) (exec b)
exec (hold l a) m = and_then (and_then (acquire l m) (exec a)) (release l)

-- The locks that the code takes.
abbrev pub takes : Code → ℕ → Bool
takes work l = false
takes (seq a b) l = takes a l || takes b l
takes (hold k a) l = (l == k) || takes a l

-- No lock is taken again while it is held.
abbrev pub NoSelfNesting : Code → Type 0
NoSelfNesting work = Unit
NoSelfNesting (seq a b) = NoSelfNesting a × NoSelfNesting b
NoSelfNesting (hold l a) = (takes a l ≡ false) × NoSelfNesting a

abbrev pub depth : Code → ℕ
depth work = 0
depth (seq a b) = depth a + depth b
depth (hold l a) = 1 + depth a

-- The same locks and the same hart, but for the saved register while no lock is held.
pub record Same (m n : Machine) : Type 0 where
  pub locks : (l : ℕ) → n.locks l ≡ m.locks l
  pub lock_depth : n.hart.lock_depth ≡ m.hart.lock_depth
  pub sstatus : n.hart.sstatus ≡ m.hart.sstatus
  pub saved : 0 < m.hart.lock_depth → n.hart.saved ≡ m.hart.saved

Same-trans : (m n o : Machine) → Same m n → Same n o → Same m o
Same-trans m n o s t = record {
  locks = λ l. t.locks l ∙ s.locks l;
  lock_depth = t.lock_depth ∙ s.lock_depth;
  sstatus = t.sstatus ∙ s.sstatus;
  saved = λ h. t.saved (omega (arith, s.lock_depth)) ∙ s.saved h;
}

abbrev held : ℕ → Machine → Machine
held l m = record { locks = write m.locks l 1; hart = enter m.hart }

acquire-free : (l : ℕ) (m : Machine) → m.locks l ≡ 0 → acquire l m ≡ some (held l m)
unfolding acquire spin_lock
acquire-free l m e = ground arith

abbrev released : ℕ → Machine → Machine
released l m = record { locks = write m.locks l 0; hart = restore (leave m.hart) }

release-held : (l : ℕ) (m : Machine) → 0 < m.hart.lock_depth → release l m ≡ some (released l m)
unfolding release spin_unlock
release-held l m h = ground arith

-- What lies between `spin_lock` and `spin_unlock` is undone with them.
bracket-Same :
    (l : ℕ) (m n : Machine)
    → m.locks l ≡ 0
    → m.hart.lock_depth + 1 < uint_mod
    → Same (held l m) n
    → (0 < n.hart.lock_depth) × Same m (released l n)
unfolding enter leave restore
bracket-Same l m n free bound s = (
  ground (arith, s.lock_depth),
  record {
    locks = λ i. ground (arith, s.locks i);
    lock_depth = ground (arith, s.lock_depth);
    sstatus = ground (arith, s.lock_depth, s.sstatus, s.saved);
    saved = λ h. ground (arith, s.lock_depth, s.saved);
  },
)

enter_bound :
    (l : ℕ) (m : Machine) (a : Code)
    → m.hart.lock_depth + (1 + depth a) < uint_mod
    → (held l m).hart.lock_depth + depth a < uint_mod
unfolding enter
enter_bound l m a h = ground arith

-- Code on one hart whose spin_lock and spin_unlock calls nest, takes no lock twice, finds its
-- locks free and does not overflow lock_depth runs to its end, without spinning or panic, and
-- leaves the locks, lock_depth and sstatus as they were.
pub exec-Same :
    (c : Code) (m : Machine)
    → NoSelfNesting c
    → ((l : ℕ) → takes c l ≡ true → m.locks l ≡ 0)
    → m.hart.lock_depth + depth c < uint_mod
    → (n : Machine) × (exec c m ≡ some n) × Same m n
unfolding exec
exec-Same work m d free bound =
    (m, refl, record { locks = λ l. refl; lock_depth = refl; sstatus = refl; saved = λ h. refl })
exec-Same (seq a b) m d free bound =
    let (n, e, s) = exec-Same a m d.0 (λ l t. free l (ground arith)) (omega arith) in
    let (n', e', s') =
      exec-Same b n d.1 (λ l t. ground (arith, s.locks l, free l)) (omega (arith, s.lock_depth)) in
    (n', rw (e, and_then) e', Same-trans m n n' s s')
exec-Same (hold l a) m d free bound =
    let start : m.locks l ≡ 0 = free l (ground arith) in
    let (n, e, s) =
      exec-Same a (held l m) d.1 (λ i t. ground (arith, free i)) (enter_bound l m a bound) in
    let (pos, same) = bracket-Same l m n start (omega arith) s in
    (released l n, rw (acquire-free l m start, and_then, e) (release-held l n pos), same)

trylock_depth :
    (w : ℕ) (c : Hart)
    → w ≢ 0
    → c.lock_depth ≡ 0
    → ((spin_trylock w c).0 ≡ 0)
      × ((spin_trylock w c).2.lock_depth ≡ 1)
      × IsMasked (spin_trylock w c).2.sstatus
unfolding spin_trylock
trylock_depth w c h z = ground (arith, clear_bits-IsMasked c.sstatus)

-- A spin_trylock of a lock that is taken, by a hart that holds nothing, fails and leaves
-- lock_depth at 1 and the interrupts off, and well-nested code that runs afterwards, with its
-- locks free and no overflow of lock_depth, ends with both still so.
pub trylock_fail-leaks :
    (w : ℕ) (c : Hart) (ls : Locks) (code : Code)
    → w ≢ 0
    → c.lock_depth ≡ 0
    → NoSelfNesting code
    → ((l : ℕ) → takes code l ≡ true → ls l ≡ 0)
    → 1 + depth code < uint_mod
    → ((spin_trylock w c).0 ≡ 0)
      × ((n : Machine) × (exec code (record { locks = ls; hart = (spin_trylock w c).2 }) ≡ some n)
          × (n.hart.lock_depth ≡ 1)
          × IsMasked n.hart.sstatus)
trylock_fail-leaks w c ls code h z d free bound =
    let (failed, one, masked) = trylock_depth w c h z in
    let m : Machine = record { locks = ls; hart = (spin_trylock w c).2 } in
    let (n, e, s) = exec-Same code m d free (omega arith) in
    (failed, (n, e, s.lock_depth ∙ one, rw s.sstatus masked))
