-- ===== src/Timer/Wake.antt =====
-- The timer interrupt of kernel/timer.h: which sleepers it moves.
use system_n.Base.{
  ℕ, zero, suc, ◌+◌, ◌%◌, ◌<◌, ◌≡◌, refl, true, false, some, List, [], ◌∷◌, ◌++◌, arith, ◌==◌, leb,
  has, has-append, length, if◌then◌else◌, Bool-cases, inl, inr, ==_refl, ap, ◌∙◌,
}
use mathlib.Core.List.{append_assoc, append-nil}
use system_n.Queue.{Links, list_del, list_add_tail}
use system_n.Queue.Ring.{Chain, IsRing}
use system_n.Queue.Delete.{Chain-split}
use system_n.Proc.{
  Kernel, Proc, runnable, q_node, container_of-q_node, run_queue, sleep_queue, set_state, Cpu,
  ulong_mod,
}
use system_n.Sched.Queues.{nodes, nodes-append, AreQueues, list_del-sleep, list_add_tail-run}
use system_n.Timer.{wake, wake_loop, timer_handle, finish, ask_sched, timer_interval}

-- The sleepers that are due at `now`, and the others, in the order of the queue.
abbrev pub due : (ℕ → Proc) → ℕ → List ℕ → List ℕ
due proc now [] = []
due proc now (p ∷ ps) =
    if leb (proc p).sleep_until now then p ∷ due proc now ps else due proc now ps

abbrev pub resting : (ℕ → Proc) → ℕ → List ℕ → List ℕ
resting proc now [] = []
resting proc now (p ∷ ps) =
    if leb (proc p).sleep_until now then resting proc now ps else p ∷ resting proc now ps

-- Some processes become runnable, and nothing else of any process changes.
abbrev pub awake : List ℕ → (ℕ → Proc) → ℕ → Proc
awake ps proc q = if has q ps then record (proc q) { state = runnable } else proc q

abbrev pub first : List ℕ → ℕ → ℕ
first [] head = head
first (p ∷ ps) head = q_node p

next-first :
    (h : Links) (a p : ℕ) (before after : List ℕ)
    → IsRing h a (nodes (before ++ p ∷ after))
    → h.next (q_node p) ≡ first after a
next-first h a p before after r =
    let r' : IsRing h a (nodes before ++ q_node p ∷ nodes after) =
      rw (nodes-append before (p ∷ after)) at r in
    by_after after (Chain-split h a a (q_node p) (nodes before) (nodes after) r'.chain).1
  where
    by_after :
        (after : List ℕ) → Chain h (q_node p) (nodes after) a → h.next (q_node p) ≡ first after a
    by_after [] c = c.0
    by_after (x ∷ xs) c = c.0

due-ext :
    (f g : ℕ → Proc) (now : ℕ) (ps : List ℕ)
    → ((q : ℕ) → (f q).sleep_until ≡ (g q).sleep_until)
    → (due f now ps ≡ due g now ps) × (resting f now ps ≡ resting g now ps)
due-ext f g now [] e = (refl, refl)
due-ext f g now (p ∷ ps) e = let (d, r) = due-ext f g now ps e in (rw (e p, d), rw (e p, r))

first-next : (h : Links) (a : ℕ) (ps : List ℕ) → IsRing h a (nodes ps) → h.next a ≡ first ps a
first-next h a [] r = r.chain.0
first-next h a (p ∷ ps) r = r.chain.0

-- The hart's record after some were woken.
abbrev pub asked : List ℕ → Cpu → Cpu
asked [] c = c
asked (p ∷ ps) c = record c { needs_sched = 1 }

-- `need_sched` after some were woken.
abbrev needs : List ℕ → ℕ → ℕ
needs [] need = need
needs (p ∷ ps) need = 1

record Woken (k k' : Kernel) (need need' now : ℕ) (ready kept ps : List ℕ) : Type 0 where
  queues :
      AreQueues k'.links
        (run_queue k.tp)
        (sleep_queue k.tp)
        (ready ++ due k.proc now ps)
        (kept ++ resting k.proc now ps)
  procs : (q : ℕ) → k'.proc q ≡ awake (due k.proc now ps) k.proc q
  tp : k'.tp ≡ k.tp
  cpu : k'.cpu ≡ k.cpu
  stimecmp : k'.stimecmp ≡ k.stimecmp
  flag : need' ≡ needs (due k.proc now ps) need

abbrev woken : ℕ → Kernel → Kernel
woken p k = record (set_state p runnable k) {
  links = list_add_tail (q_node p) (run_queue k.tp) (list_del (q_node p) k.links);
}

module _ (now p need : ℕ) (k : Kernel) where
  wake-due : leb (k.proc p).sleep_until now ≡ true → wake now (q_node p) (k, need) ≡ (woken p k, 1)
  unfolding wake
  wake-due e = rw (container_of-q_node p, e)

  wake-rest : leb (k.proc p).sleep_until now ≡ false → wake now (q_node p) (k, need) ≡ (k, need)
  unfolding wake
  wake-rest e = rw (container_of-q_node p, e)

  Woken-due :
      (ready kept ps : List ℕ) {k' : Kernel} {need' : ℕ}
      → leb (k.proc p).sleep_until now ≡ true
      → Woken (woken p k) k' 1 need' now (ready ++ p ∷ []) kept ps
      → Woken k k' need need' now ready kept (p ∷ ps)
  Woken-due ready kept ps e w =
      let (d, r) = due-ext (woken p k).proc k.proc now ps (λ q. ground arith) in
      record {
        queues =
            rw (e, ← d, ← r, ← append_assoc ready (p ∷ []) (due (woken p k).proc now ps)) w.queues;
        procs = λ q. rw (e, ← d) (ground (arith, w.procs q));
        tp = w.tp;
        cpu = w.cpu;
        stimecmp = w.stimecmp;
        flag = rw e (ground (arith, w.flag));
      }

  Woken-rest :
      (ready kept ps : List ℕ) {k' : Kernel} {need' : ℕ}
      → leb (k.proc p).sleep_until now ≡ false
      → Woken k k' need need' now ready (kept ++ p ∷ []) ps
      → Woken k k' need need' now ready kept (p ∷ ps)
  Woken-rest ready kept ps e w = record {
    queues = rw (e, ← append_assoc kept (p ∷ []) (resting k.proc now ps)) w.queues;
    procs = λ q. rw e (w.procs q);
    tp = w.tp;
    cpu = w.cpu;
    stimecmp = w.stimecmp;
    flag = rw e w.flag;
  }

wake_loop-next :
    (fuel now pos tmp : ℕ) (s s' : Kernel × ℕ)
    → (pos == sleep_queue s.0.tp) ≡ false
    → wake now pos s ≡ s'
    → wake_loop (suc fuel) now pos tmp s ≡ wake_loop fuel now tmp (s'.0.links.next tmp) s'
unfolding wake_loop
wake_loop-next fuel now pos tmp s s' h w = rw (h, w)

wake_loop-Woken :
    (fuel now : ℕ) (ready kept ps : List ℕ) (k : Kernel) (need : ℕ) (pos tmp : ℕ)
    → AreQueues k.links (run_queue k.tp) (sleep_queue k.tp) ready (kept ++ ps)
    → pos ≡ first ps (sleep_queue k.tp)
    → tmp ≡ k.links.next pos
    → length ps < fuel
    → (k' : Kernel) × (need' : ℕ) × (wake_loop fuel now pos tmp (k, need) ≡ some (k', need'))
      × Woken k k' need need' now ready kept ps
unfolding wake_loop
wake_loop-Woken zero now ready kept ps k need pos tmp q e t b = absurd (omega arith)
wake_loop-Woken (suc fuel) now ready kept [] k need pos tmp q e t b = (
  k,
  need,
  rw (e, ==_refl (sleep_queue k.tp)),
  record {
    queues = rw (append-nil ready) q;
    procs = λ r. refl;
    tp = refl;
    cpu = refl;
    stimecmp = refl;
    flag = refl;
  },
)
wake_loop-Woken (suc fuel) now ready kept (p ∷ ps) k need pos tmp q e t b =
    let here : (pos == sleep_queue k.tp) ≡ false = ground (
      arith,
      q.sleep_ring.apart,
      nodes-append kept (p ∷ ps),
      has-append (sleep_queue k.tp) (nodes kept) (nodes (p ∷ ps)),
    ) in
    let following : tmp ≡ first ps (sleep_queue k.tp) =
      t ∙ rw e (next-first k.links (sleep_queue k.tp) p kept ps q.sleep_ring) in
    elim (Bool-cases (leb (k.proc p).sleep_until now)) [
      | inl d ↦
          let (q1, f1) = list_del-sleep p kept ps ready q in
          let q2 = list_add_tail-run p ready (kept ++ ps) q1 f1 in
          let (k', need', r, w) =
            wake_loop-Woken fuel now (ready ++ p ∷ []) kept ps (woken p k) 1 tmp
              ((woken p k).links.next tmp) q2 following refl (omega arith) in
          (
            k',
            need',
            wake_loop-next fuel now pos tmp (k, need) (woken p k, 1) here
                  (rw e (wake-due now p need k d))
                ∙ r,
            Woken-due now p need k ready kept ps d w,
          )
      | inr d ↦
          let (k', need', r, w) =
            wake_loop-Woken fuel now ready (kept ++ p ∷ []) ps k need tmp (k.links.next tmp)
              (rw (append_assoc kept (p ∷ []) ps) q) following refl (omega arith) in
          (
            k',
            need',
            wake_loop-next fuel now pos tmp (k, need) (k, need) here
                  (rw e (wake-rest now p need k d))
                ∙ r,
            Woken-rest now p need k ready kept ps d w,
          )
    ]

-- What the interrupt promises: the sleepers that are due stand at the end of the run queue, in
-- order, and are runnable; the others still sleep; the hart asks for `schedule` if some woke; and
-- the next interrupt is set.
pub record Woke (k k' : Kernel) (time now : ℕ) (ready asleep : List ℕ) : Type 0 where
  pub queues :
      AreQueues k'.links
        (run_queue k.tp)
        (sleep_queue k.tp)
        (ready ++ due k.proc now asleep)
        (resting k.proc now asleep)
  pub procs : (q : ℕ) → k'.proc q ≡ awake (due k.proc now asleep) k.proc q
  pub asks : k'.cpu ≡ asked (due k.proc now asleep) k.cpu
  pub next : k'.stimecmp ≡ (time + timer_interval) % ulong_mod

ask_sched-cpu :
    (ps : List ℕ) (k' : Kernel) (c : Cpu) (need : ℕ)
    → need ≡ needs ps 0
    → k'.cpu ≡ c
    → (ask_sched (k', need)).cpu ≡ asked ps c
ask_sched-cpu [] k' c need e f = rw e f
ask_sched-cpu (p ∷ ps) k' c need e f = rw (e, f)

ask_sched-same :
    (k' : Kernel) (need : ℕ)
    → ((ask_sched (k', need)).links ≡ k'.links)
      × ((ask_sched (k', need)).proc ≡ k'.proc)
      × ((ask_sched (k', need)).stimecmp ≡ k'.stimecmp)
ask_sched-same k' need = elim (Bool-cases (need == 0)) [
  | inl e ↦ rw e (refl, refl, refl)
  | inr e ↦ rw e (refl, refl, refl)
]

-- On a hart whose two queues are well formed, with more rounds of fuel than there are sleepers,
-- the timer interrupt ends; it moves exactly the sleepers that are due to the end of the run
-- queue, in order, and makes them runnable, leaves the others asleep, asks for schedule if some
-- woke, and sets the next interrupt.
pub timer_handle-Woke :
    (fuel time now : ℕ) (k : Kernel) (ready asleep : List ℕ)
    → AreQueues k.links (run_queue k.tp) (sleep_queue k.tp) ready asleep
    → length asleep < fuel
    → (k' : Kernel) × (timer_handle fuel time now k ≡ some k') × Woke k k' time now ready asleep
unfolding timer_handle
timer_handle-Woke fuel time now k ready asleep q b =
    let k1 : Kernel = record k { stimecmp = (time + timer_interval) % ulong_mod } in
    let pos : ℕ = k.links.next (sleep_queue k.tp) in
    let (k2, need, r, w) =
      wake_loop-Woken fuel now ready [] asleep k1 0 pos (k.links.next pos) q
        (first-next k.links (sleep_queue k.tp) asleep q.sleep_ring) refl b in
    let (l, p, t) = ask_sched-same k2 need in
    (
      ask_sched (k2, need),
      ap finish r,
      record {
        queues = rw l w.queues;
        procs = λ x. rw p (w.procs x);
        asks = ask_sched-cpu (due k.proc now asleep) k2 k.cpu need w.flag w.cpu;
        next = t ∙ w.stimecmp;
      },
    )
