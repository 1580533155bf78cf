-- ===== src/Spinlock/Harts.antt =====
-- Harts that use one lock together, a shared access at a time: `spin_lock`, `spin_trylock` and
-- `spin_unlock` of kernel/spinlock.c cut where another hart can come in between.
use system_n.Base.{ℕ, ◌+◌, ◌<◌, ◌≡◌, ◌≢◌, Bool, true, false, ◌==◌, if◌then◌else◌}
use system_n.Spinlock.{uint_mod, spinlock_init, Hart, enter, leave, restore}

-- Where a hart stands.
pub data Pc : Type 0 where
  idle : Pc  -- outside the functions, with no lock
  waiting : Pc  -- the loop of `spin_lock`
  trying : Pc  -- before the compare-exchange of `spin_trylock`
  critical : Pc  -- between a call that took the lock and `spin_unlock`
  releasing : Pc  -- before `__atomic_clear`
  restoring : Pc  -- before the last test of `spin_unlock`
  panicked : Pc  -- the loop on `wfi`

-- One move of one hart: the word of the lock, where the hart stands, and its state. The callers'
-- part is in the moves: `spin_unlock` follows a call that took the lock.
pub data Move (locked : ℕ) : Pc → Hart → ℕ → Pc → Hart → Type 0 where
  -- the depth must not pass its type
  lock_enter :
      {c : Hart} → c.lock_depth + 1 < uint_mod → Move locked idle c locked waiting (enter c)
  lock_spin : {c : Hart} → locked ≢ 0 → Move locked waiting c 1 waiting c
  lock_take : {c : Hart} → locked ≡ 0 → Move locked waiting c 1 critical c
  try_enter : {c : Hart} → c.lock_depth + 1 < uint_mod → Move locked idle c locked trying (enter c)
  try_take : {c : Hart} → locked ≡ 0 → Move locked trying c 1 critical c
  try_fail : {c : Hart} → locked ≢ 0 → Move locked trying c locked idle c
  unlock_panic : {c : Hart} → c.lock_depth ≡ 0 → Move locked critical c locked panicked c
  unlock_enter : {c : Hart} → c.lock_depth ≢ 0 → Move locked critical c locked releasing (leave c)
  unlock_clear : {c : Hart} → Move locked releasing c 0 restoring c
  unlock_restore : {c : Hart} → Move locked restoring c locked idle (restore c)

pub record System : Type 0 where
  pub locked : ℕ
  pub pc : ℕ → Pc
  pub hart : ℕ → Hart

abbrev pub put {ℓ} : {A : Type ℓ} → (ℕ → A) → ℕ → A → ℕ → A
put f i a j = if j == i then a else f j

pub data Step (s : System) : System → Type 0 where
  step :
      (i : ℕ) {l : ℕ} {p : Pc} {c : Hart}
      → Move s.locked (s.pc i) (s.hart i) l p c
      → Step s (record { locked = l; pc = put s.pc i p; hart = put s.hart i c })

-- `SPINLOCK_INIT`, and harts that hold nothing.
pub data Reach : System → Type 0 where
  start :
      (hart : ℕ → Hart)
      → ((i : ℕ) → (hart i).lock_depth ≡ 0)
      → Reach (record { locked = spinlock_init; pc = λ _. idle; hart = hart })
  next : {s t : System} → Reach s → Step s t → Reach t

-- A hart that has the lock, and a hart that is inside one of the functions.
abbrev pub holds : Pc → Bool
holds critical = true
holds releasing = true
holds _ = false

-- A hart that counts in its `lock_depth` the lock that it wants or has.
abbrev pub counts : Pc → Bool
counts waiting = true
counts trying = true
counts critical = true
counts _ = false
