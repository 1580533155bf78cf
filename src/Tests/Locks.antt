-- ===== src/Tests/Locks.antt =====
-- Runs of the code about kernel/spinlock.c and kernel/list.h.
use system_n.Base.{ℕ, ◌≡◌, ◌≢◌, refl, true, some, [], ◌∷◌, arith, ◌==◌, if◌then◌else◌}
use system_n.Spinlock.{Hart, IsMasked, spin_trylock, enter}
use system_n.Spinlock.Nesting
use system_n.Spinlock.Nesting.{
  Code, work, seq, hold, Locks, exec, Same, exec-Same, trylock_fail-leaks,
}
use system_n.Spinlock.Harts.{
  System, Reach, start, next, step, lock_enter, lock_take, critical, holds, panicked, put, idle,
  waiting,
}
use system_n.Spinlock.Exclusion.{mutual_exclusion, locked-iff-holds, holder-IsMasked}
use system_n.Queue.{Links, list_add_tail, list_del}
use system_n.Queue.Ring.{IsRing}
use system_n.Queue.Add.{list_add_tail-IsRing}
use system_n.Queue.Delete.{list_del-IsRing}

abbrev idle_hart : Hart
idle_hart = record { lock_depth = 0; saved = 0; sstatus = 2 }

abbrev machine : Nesting.Machine
machine = record { locks = λ _. 0; hart = idle_hart }

abbrev nested : Code
nested = seq (hold 1 (hold 2 work)) (hold 2 work)

exec-Same_example : (n : Nesting.Machine) × (exec nested machine ≡ some n) × Same machine n
exec-Same_example =
    exec-Same nested machine ((refl, (refl, tt)), (refl, tt)) (λ l t. refl) (omega arith)

trylock_fail-leaks_example :
    ((spin_trylock 1 idle_hart).0 ≡ 0)
    × ((n : Nesting.Machine) × (exec nested
            (record { locks = λ _. 0; hart = (spin_trylock 1 idle_hart).2 })
          ≡ some n)
        × (n.hart.lock_depth ≡ 1)
        × IsMasked n.hart.sstatus)
trylock_fail-leaks_example =
    trylock_fail-leaks 1 idle_hart (λ _. 0) nested (omega arith) refl
      ((refl, (refl, tt)), (refl, tt)) (λ l t. refl) (omega arith)

-- Hart 1 has taken the lock.
abbrev entered : System
entered = record {
  locked = 0;
  pc = put (λ _. idle) 1 waiting;
  hart = put (λ _. idle_hart) 1 (enter idle_hart);
}

abbrev taken : System
taken = record {
  locked = 1;
  pc = put (entered.pc) 1 critical;
  hart = put (entered.hart) 1 (enter idle_hart);
}

taken-Reach : Reach taken
taken-Reach =
    next (next (start (λ _. idle_hart) (λ i. refl)) (step 1 (lock_enter (omega arith))))
      (step 1 (lock_take refl))

mutual_exclusion_example : ◌≡◌ {A = ℕ} 1 1
mutual_exclusion_example = mutual_exclusion taken-Reach 1 1 refl refl

locked-iff-holds_example :
    (taken.locked ≢ 0 → (i : ℕ) × (holds (taken.pc i) ≡ true))
    × ((i : ℕ) → holds (taken.pc i) ≡ true → taken.locked ≢ 0)
locked-iff-holds_example = locked-iff-holds taken-Reach

holder-IsMasked_example :
    (holds (taken.pc 1) ≡ true → IsMasked (taken.hart 1).sstatus) × (taken.pc 1 ≢ panicked)
holder-IsMasked_example = holder-IsMasked taken-Reach 1

-- A list with head 1 and the nodes 2 and 3.
abbrev two_nodes : Links
two_nodes = record {
  next = λ x. if x == 1 then 2 else if x == 2 then 3 else 1;
  prev = λ x. if x == 1 then 3 else if x == 2 then 1 else 2;
}

two_nodes-IsRing : IsRing two_nodes 1 (2 ∷ 3 ∷ [])
two_nodes-IsRing = record {
  chain = (refl, refl, (refl, refl, (refl, refl)));
  apart = refl;
  distinct = (refl, (refl, tt));
}

list_add_tail-IsRing_example : IsRing (list_add_tail 4 1 two_nodes) 1 (2 ∷ 3 ∷ 4 ∷ [])
list_add_tail-IsRing_example = list_add_tail-IsRing 4 two_nodes-IsRing refl

list_del-IsRing_example : IsRing (list_del 2 two_nodes) 1 (3 ∷ [])
list_del-IsRing_example = list_del-IsRing 2 [] (3 ∷ []) two_nodes-IsRing
