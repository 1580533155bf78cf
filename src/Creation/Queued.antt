-- ===== src/Creation/Queued.antt =====
-- `create_proc` of kernel/proc.c as a whole.
use system_n.Base.{
  ℕ, ◌+◌, ◌-◌, ◌*◌, ◌%◌, ◌^◌, ◌≤◌, ◌<◌, ◌≡◌, refl, false, none, List, [], ◌∷◌, ◌++◌, arith, has-ne,
  ◌==◌, ◌∙◌, ==_refl,
}
use system_n.Spinlock.{done}
use system_n.Queue.{Links, list_in_queue}
use system_n.Queue.Frame.{IsRing-frame}
use system_n.Proc.{runnable, page_size, sizeof_proc, q_node, run_queue, sleep_queue}
use system_n.Sched.Queues.{nodes, AreQueues, IsFree, list_add_tail-run}
use system_n.PageTable.{PageAllocator, Vm, va_offset}
use system_n.PageTable.Tree.{free_pagetable}
use system_n.Snub.{Snub, kzalloc}
use system_n.Machine.{Outcome, returns, stuck, out_of_fuel}
use system_n.Creation.{World, Fixed, zero_links, zero_at, number_proc}
use system_n.Creation.Create.{give_up, conclude, create_proc}
use system_n.Creation.Effect.{success, fails, halts, program_end}
use system_n.Creation.Steps.{set_up}
use system_n.Creation.Failed.{freed, stopped, endless, free_proc-Freed}
use system_n.Creation.Made.{HasFrame, Kept, IsMade, set_up-IsMade}

-- Words of a node on neither queue.
pub zero_links-AreQueues :
    (p : ℕ) {h : Links} {run sleep : ℕ} {ready asleep : List ℕ}
    → AreQueues h run sleep ready asleep
    → IsFree p run sleep ready asleep
    → AreQueues (zero_links (q_node p) h) run sleep ready asleep
zero_links-AreQueues p {h} {run} {sleep} {ready} {asleep} q (f, g) = record {
  run_ring =
      IsRing-frame (zero_links (q_node p) h) q.run_ring
        (λ x i. ground (arith, has-ne x (q_node p) (run ∷ nodes ready) i f))
        (λ x i. ground (arith, has-ne x (q_node p) (run ∷ nodes ready) i f));
  sleep_ring =
      IsRing-frame (zero_links (q_node p) h) q.sleep_ring
        (λ x i. ground (arith, has-ne x (q_node p) (sleep ∷ nodes asleep) i g))
        (λ x i. ground (arith, has-ne x (q_node p) (sleep ∷ nodes asleep) i g));
  apart = q.apart;
}

-- A process that is ready to run, last on the run queue.
pub record New {S : Type 0} (p size : ℕ) (ready asleep : List ℕ) (w w' : World S) : Type 0 where
  pub queues :
      AreQueues w'.kernel.links
        (run_queue w'.kernel.tp)
        (sleep_queue w'.kernel.tp)
        (ready ++ p ∷ [])
        asleep
  pub tp : w'.kernel.tp ≡ w.kernel.tp
  pub cpu : w'.kernel.cpu ≡ w.kernel.cpu
  pub others : (q : ℕ) → (q == p) ≡ false → w'.kernel.proc q ≡ w.kernel.proc q
  pub user : (w'.kernel.proc p).is_idle ≡ 0
  pub pid : (w'.kernel.proc p).pid ≡ (w.next_pid + 1) % 2 ^ 64 % 2 ^ 32
  pub unbound : (w'.kernel.proc p).bound_cpu ≡ 2 ^ 32 - 1
  pub is_ready : (w'.kernel.proc p).state ≡ runnable
  pub has_frame : HasFrame p w'.kernel w'.frames
  pub heap_start : (w'.kernel.proc p).heap_start ≡ program_end size
  pub heap_end : (w'.kernel.proc p).heap_end ≡ program_end size

-- A process that was given up: the hart, its queues and the other processes are as before.
pub record Abandoned {S : Type 0} (p : ℕ) (ready asleep : List ℕ) (w w' : World S) : Type 0 where
  pub queues :
      AreQueues w'.kernel.links (run_queue w'.kernel.tp) (sleep_queue w'.kernel.tp) ready asleep
  pub tp : w'.kernel.tp ≡ w.kernel.tp
  pub cpu : w'.kernel.cpu ≡ w.kernel.cpu
  pub others : (q : ℕ) → (q == p) ≡ false → w'.kernel.proc q ≡ w.kernel.proc q

module _ {S : Type 0} (allocator : PageAllocator S) (fixed : Fixed) (depth fuel binary : ℕ) where
  -- A run of the steps of `create_proc` that fails, from the struct of the process on.
  abbrev pub SetUpFails : ℕ → ℕ → Snub S → World S → World S → Type 0
  SetUpFails p size snub w w1 =
      set_up allocator fixed fuel p binary size
        (number_proc p (zero_at p (record w { snub = snub })))
      ≡ returns (none, w1)

  -- How `create_proc` ends once it has the struct of the process. `too_deep`: the process cannot be
  -- made, and its tables have more levels than the `depth` that `free_pagetable` was given.
  pub data Creation (p size : ℕ) (snub : Snub S) (ready asleep : List ℕ) (w : World S)
      (r : Outcome (ℕ × World S)) : Type 0 where
    created :
        (w' : World S)
        → r ≡ returns (p, w')
        → New p size ready asleep w w'
        → Creation p size snub ready asleep w r
    refused :
        (w1 w' : World S)
        → SetUpFails p size snub w w1
        → r ≡ returns (0, w')
        → Abandoned p ready asleep w w'
        → Creation p size snub ready asleep w r
    halted : r ≡ stuck → Creation p size snub ready asleep w r
    too_deep :
        (w1 : World S) (vm : Vm S)
        → SetUpFails p size snub w w1
        → (vm.words ≡ w1.snub.words) × (vm.offset ≡ va_offset)
        → free_pagetable allocator depth (w1.kernel.proc p).pagetable vm ≡ out_of_fuel
        → r ≡ out_of_fuel
        → Creation p size snub ready asleep w r

  IsMade-New :
      {p size : ℕ} {ready asleep : List ℕ} {w w' : World S} (snub : Snub S)
      → AreQueues w.kernel.links (run_queue w.kernel.tp) (sleep_queue w.kernel.tp) ready asleep
      → IsFree p (run_queue w.kernel.tp) (sleep_queue w.kernel.tp) ready asleep
      → IsMade p size (number_proc p (zero_at p (record w { snub = snub }))) w'
      → New p size ready asleep w w'
  unfolding number_proc
  IsMade-New {p} {ready} {asleep} {w} snub q f m =
      let free = zero_links-AreQueues p q f in
      record {
        queues = rw (m.links, m.tp) (list_add_tail-run p ready asleep free f);
        tp = m.tp;
        cpu = m.cpu;
        others = λ x n. m.others x n ∙ rw n refl;
        user = m.is_idle ∙ rw (==_refl p) refl;
        pid = m.pid ∙ rw (==_refl p) refl;
        unbound = m.bound_cpu ∙ rw (==_refl p) refl;
        is_ready = m.ready;
        has_frame = m.has_frame;
        heap_start = m.heap_start;
        heap_end = m.heap_end;
      }

  Kept-Abandoned :
      {p : ℕ} {ready asleep : List ℕ} {w w' : World S} (snub : Snub S) (w1 : World S)
      → AreQueues w.kernel.links (run_queue w.kernel.tp) (sleep_queue w.kernel.tp) ready asleep
      → IsFree p (run_queue w.kernel.tp) (sleep_queue w.kernel.tp) ready asleep
      → Kept p (number_proc p (zero_at p (record w { snub = snub }))).kernel w1.kernel
      → w'.kernel ≡ w1.kernel
      → Abandoned p ready asleep w w'
  unfolding number_proc
  Kept-Abandoned {p} snub w1 q f k same = record {
    queues = rw (same, k.links, k.tp) (zero_links-AreQueues p q f);
    tp = rw same k.tp;
    cpu = rw same k.cpu;
    others = λ x n. rw same (k.others x n ∙ rw n refl);
  }

  -- The node of a fresh process is on no queue.
  zeroed-apart :
      (p : ℕ) (snub : Snub S) (w : World S)
      → list_in_queue (q_node p) (number_proc p (zero_at p (record w { snub = snub }))).kernel.links
        ≡ false
  unfolding number_proc list_in_queue
  zeroed-apart p snub w = rw (==_refl (q_node p)) refl

  give_up-Creation :
      (p size : ℕ) (snub : Snub S) {ready asleep : List ℕ} (w w1 : World S)
      (r : Outcome (ℕ × World S))
      → (p == 0) ≡ false
      → AreQueues w.kernel.links (run_queue w.kernel.tp) (sleep_queue w.kernel.tp) ready asleep
      → IsFree p (run_queue w.kernel.tp) (sleep_queue w.kernel.tp) ready asleep
      → SetUpFails p size snub w w1
      → Kept p (number_proc p (zero_at p (record w { snub = snub }))).kernel w1.kernel
      → r ≡ give_up allocator fixed depth p w1
      → Creation p size snub ready asleep w r
  unfolding give_up
  give_up-Creation p size snub w w1 r some_p q f none_made k e =
      let out : list_in_queue (q_node p) w1.kernel.links ≡ false =
        rw k.links (zeroed-apart p snub w) in
      elim (free_proc-Freed allocator fixed depth (w1.kernel.proc p).pagetable w1.kernel
        w1.snub.words p w1 some_p out refl refl refl) [
          | freed w' h same ↦
              refused w1 w' none_made (e ∙ rw (give_up, h) refl) (Kept-Abandoned snub w1 q f k same)
          | stopped h ↦ halted (e ∙ rw (give_up, h) refl)
          | endless vm s d h ↦ too_deep w1 vm none_made s d (e ∙ rw (give_up, h) refl)
        ]

  -- On well-formed queues, where kzalloc gives a struct that is not NULL and stands on neither
  -- queue, with fuel for every page of a program below 2^61 bytes: create_proc ends in one of four
  -- ways. It answers that process, runnable, last on the run queue, with the next number, bound to
  -- no hart, a trap frame at the top of its kernel stack that starts the program at 0 on the user
  -- stack, and an empty heap right behind the program's pages, and leaves the hart and every other
  -- process alone; or one of its steps fails, and it answers NULL through free_proc, with the
  -- queues, the hart and every other process as before; or the hart halts; or one of its steps
  -- fails and free_pagetable, on that process's table, finds more levels than its fuel. The fuel
  -- for the pages never runs out.
  pub create_proc-Creation :
      (size p : ℕ) (snub : Snub S) {ready asleep : List ℕ} (w : World S)
      → kzalloc allocator sizeof_proc w.snub ≡ done (p, snub)
      → (p == 0) ≡ false
      → AreQueues w.kernel.links (run_queue w.kernel.tp) (sleep_queue w.kernel.tp) ready asleep
      → IsFree p (run_queue w.kernel.tp) (sleep_queue w.kernel.tp) ready asleep
      → size ≤ fuel * page_size
      → size < 2 ^ 61
      → Creation p size snub ready asleep w (create_proc allocator fixed depth fuel binary size w)
  unfolding create_proc conclude
  create_proc-Creation size p snub w got some_p q f enough small =
      elim (set_up-IsMade allocator fixed fuel p binary size
        (number_proc p (zero_at p (record w { snub = snub }))) enough small) [
          | success u w' e m ↦
              created w' (rw (create_proc, got, some_p, e) refl) (IsMade-New snub q f m)
          | fails w1 e k ↦
              give_up-Creation p size snub w w1 _ some_p q f e k
                (rw (create_proc, got, some_p, e) refl)
          | halts e ↦ halted (rw (create_proc, got, some_p, e) refl)
        ]
