-- ===== src/Creation/Create.antt =====
-- `create_proc` and `free_proc` of kernel/proc.c.
use system_n.Base.{ℕ, Option, none, some, ◌==◌, if◌then◌else◌}
use system_n.Spinlock.{Run, done, panic}
use system_n.Proc.{sizeof_proc}
use system_n.PageTable.{PageAllocator}
use system_n.PageTable.Tree.{free_pagetable}
use system_n.Snub.{kzalloc, kfree}
use system_n.Machine.{Outcome, returns, stuck, out_of_fuel}
use system_n.Creation.{Fixed, World, number_proc, set_vm, unlink_proc, vm_of, zero_at}
use system_n.Creation.Steps.{set_up}

module _ {S : Type 0} (allocator : PageAllocator S) where
  -- Calls that return nothing, on the pages and on the small objects.
  abbrev pub run_on : {A : Type 0} → (A → World S) → Run A → Outcome (World S)
  run_on f panic = stuck
  run_on f (done a) = returns (f a)

  abbrev pub after : Outcome (World S) → (World S → Outcome (World S)) → Outcome (World S)
  after (returns w) k = k w
  after stuck k = stuck
  after out_of_fuel k = out_of_fuel

  abbrev pub release_page : ℕ → World S → Outcome (World S)
  release_page pa w =
      run_on (λ store. record w { snub = record (w.snub) { store = store } })
        (allocator.free_page pa w.snub.store)

  abbrev pub release_tables : ℕ → ℕ → World S → Outcome (World S)
  release_tables fuel pagetable w = elim (free_pagetable allocator fuel pagetable (vm_of w)) [
    | returns vm ↦ returns (set_vm vm w)
    | stuck ↦ stuck
    | out_of_fuel ↦ out_of_fuel
  ]

  abbrev pub release_object : ℕ → ℕ → World S → Outcome (World S)
  release_object base ptr w =
      run_on (λ snub. record w { snub = snub }) (kfree allocator base ptr w.snub)

  -- `if (ptr) ...`
  abbrev pub if_set : ℕ → (World S → Outcome (World S)) → World S → Outcome (World S)
  if_set ptr f w = if ptr == 0 then returns w else f w

  -- The fuel is the depth of the page tables.
  unfoldable pub free_proc : Fixed → ℕ → ℕ → World S → Outcome (World S)
  unfolding unlink_proc free_pagetable kfree
  free_proc fixed depth p w =
      if p == 0
      then returns w
      else (let r = w.kernel.proc p in
          after (if_set r.ustack (release_page r.ustack) (unlink_proc p w)) λ w1.
            after (if_set r.pagetable (release_tables depth r.pagetable) w1) λ w2.
              after (if_set r.kstack (release_object fixed.base r.kstack) w2)
                λ w3. release_object fixed.base p w3)

  -- How `create_proc` ends: with the process, or with `free_proc` and NULL.
  unfoldable pub give_up : Fixed → ℕ → ℕ → World S → Outcome (ℕ × World S)
  unfolding free_proc
  give_up fixed depth p w = elim (free_proc fixed depth p w) [
    | returns w1 ↦ returns (0, w1)
    | stuck ↦ stuck
    | out_of_fuel ↦ out_of_fuel
  ]

  unfoldable pub conclude :
      Fixed → ℕ → ℕ → Outcome (Option (Unit {0}) × World S) → Outcome (ℕ × World S)
  unfolding give_up
  conclude fixed depth p (returns (some u, w)) = returns (p, w)
  conclude fixed depth p (returns (none, w)) = give_up fixed depth p w
  conclude fixed depth p stuck = stuck
  conclude fixed depth p out_of_fuel = out_of_fuel

  -- The process, or NULL.
  unfoldable pub create_proc : Fixed → ℕ → ℕ → ℕ → ℕ → World S → Outcome (ℕ × World S)
  unfolding kzalloc number_proc set_up conclude
  create_proc fixed depth fuel binary binary_size w = elim (kzalloc allocator sizeof_proc w.snub) [
    | panic ↦ stuck
    | done (p, snub) ↦
        (let w1 = record w { snub = snub } in
          let made =
            conclude fixed depth p
              (set_up allocator fixed fuel p binary binary_size (number_proc p (zero_at p w1))) in
          if p == 0 then returns (0, w1) else made)
  ]
