-- ===== src/Syscall/Sleep.antt =====
-- `sys_sleep_ms` of kernel/syscall.c, exit and yield of kernel/trap/trap.c, and what `schedule` then
-- makes of the process.
use mathlib.Core.Path.{fun_ext}
use system_n.Base.{
  ℕ, ◌+◌, ◌%◌, ◌≤◌, ◌<◌, ◌≡◌, refl, true, false, ◌||◌, List, [], ◌∷◌, ◌++◌, arith, ltb, ◌==◌, has,
  has-append, has-ne, ◌∙◌, sym, ap,
}
use system_n.Queue.{Links, list_add_tail, list_del}
use system_n.Queue.Ring.{Chain, IsRing, prev-mem, next-prev}
use system_n.Proc.{
  Image, Kernel, Proc, sleeping, running, runnable, zombie, q_node, run_queue, sleep_queue,
  set_state, put_proc, idle_proc, ulong_mod,
}
use system_n.Timer.{ms_to_time}
use system_n.Sched.{schedule, switch_to_idle}
use system_n.Sched.Queues.{
  nodes, nodes-append, AreQueues, IsFree, list_add_tail-sleep, list_del-first,
}
use system_n.Sched.Rotation.{
  idles, Shows, HasIdle, schedule-first, schedule-empty, switch_to-resumed, requeue-busy,
  dequeued-idles, dequeued, requeued, resumed,
}
use system_n.PageTable.{minus_one}
use system_n.Syscall.{max_sleep_ms, sys_sleep_ms}

abbrev pub IsNap : ℕ → Type 0
IsNap ms = (0 < ms) × (ms ≤ max_sleep_ms)

-- On well-formed queues that the process is on neither of, sys_sleep_ms of 1 to 60000 ms answers
-- 0, makes the process sleeping with its time to wake up, and puts it at the end of the sleep
-- queue; any other duration answers -1 and changes nothing.
pub sys_sleep_ms_lem :
    (time p ms : ℕ) (k : Kernel) (ready asleep : List ℕ)
    → AreQueues k.links (run_queue k.tp) (sleep_queue k.tp) ready asleep
    → IsFree p (run_queue k.tp) (sleep_queue k.tp) ready asleep
    → (IsNap ms
        → ((sys_sleep_ms time p ms k).0 ≡ 0)
          × AreQueues
              (sys_sleep_ms time p ms k).1.links
              (run_queue k.tp)
              (sleep_queue k.tp)
              ready
              (asleep ++ p ∷ [])
          × (((sys_sleep_ms time p ms k).1.proc p).state ≡ sleeping)
          × (((sys_sleep_ms time p ms k).1.proc p).sleep_until
              ≡ (time + ms_to_time ms) % ulong_mod))
      × (¬ IsNap ms → sys_sleep_ms time p ms k ≡ (minus_one, k))
unfolding sys_sleep_ms
sys_sleep_ms_lem time p ms k ready asleep q f = (
  λ nap.
      let ok : (ms == 0 || ltb max_sleep_ms ms) ≡ false = ground arith in
      rw ok (refl, list_add_tail-sleep p ready asleep q f, ground arith, ground arith),
  λ no. let bad : (ms == 0 || ltb max_sleep_ms ms) ≡ true = ground arith in rw bad,
)

-- What `schedule` does with a process that is not idle, whatever its state, when another is ready.
module _ (image : Image) (k : Kernel) (c q : ℕ) (qs : List ℕ) where
  schedule-busy :
      IsRing k.links (run_queue k.tp) (nodes (q ∷ qs))
      → k.cpu.proc ≡ c
      → idles k c ≡ false
      → (schedule image k).0 ≡ resumed image q (requeued c (dequeued q k))
  schedule-busy r e b = rw (
    schedule-first image k c q qs r e,
    switch_to-resumed image k c q,
    requeue-busy (dequeued q k) c (dequeued-idles k q c ∙ b),
  )

-- The writes of an exit and of `schedule` to the processes, and those of `schedule` alone.
exit_procs :
    (f : ℕ → Proc) (c q x : ℕ)
    → (c == q) ≡ false
    → (q == c) ≡ false
    → (let z : ℕ → Proc = put_proc c (record (f c) { state = zombie }) f in
        let y : ℕ → Proc = put_proc q (record (z q) { state = running }) z in
        put_proc c (record (y c) { state = runnable }) y x)
      ≡ (let y : ℕ → Proc = put_proc q (record (f q) { state = running }) f in
          put_proc c (record (y c) { state = runnable }) y x)
exit_procs f c q x ne en = ground arith

-- If another process is ready and the current one is not idle, marking the current one a zombie
-- before schedule has no effect on the state afterwards: the process is runnable again.
pub schedule-exit :
    (image : Image) (k : Kernel) (c q : ℕ) (qs asleep : List ℕ)
    → Shows k (record { current = c; ready = q ∷ qs }) asleep
    → idles k c ≡ false
    → ((schedule image (set_state c zombie k)).0 ≡ (schedule image k).0)
      × (((schedule image (set_state c zombie k)).0.proc c).state ≡ runnable)
schedule-exit image k c q qs asleep s b =
    let z = set_state c zombie k in
    let bz : idles z c ≡ false = ground (arith, b) in
    let free : IsFree c (run_queue k.tp) (sleep_queue k.tp) (q ∷ qs) asleep = s.free b in
    let ne : (c == q) ≡ false = ground (arith, free) in
    let en : (q == c) ≡ false = ground (arith, ne) in
    let procs : (requeued c (dequeued q z)).proc ≡ (requeued c (dequeued q k)).proc =
      fun_ext (λ x. exit_procs k.proc c q x ne en) in
    let left = schedule-busy image z c q qs s.queues.run_ring s.current bz in
    let right = schedule-busy image k c q qs s.queues.run_ring s.current b in
    let same : resumed image q (requeued c (dequeued q z))
        ≡ resumed image q (requeued c (dequeued q k)) =
      ap (λ f. resumed image q (record (requeued c (dequeued q k)) { proc = f })) procs in
    (left ∙ same ∙ sym right, rw left (ground arith))

prev-snoc : (h : Links) (a b n : ℕ) (xs : List ℕ) → Chain h a (xs ++ n ∷ []) b → h.prev b ≡ n
prev-snoc h a b n [] c = c.2.1
prev-snoc h a b n (x ∷ xs) c = prev-snoc h x b n xs c.2

-- A node that joins the run queue while it is the last of the sleep queue.
joined_twice :
    (h : Links) (run sleep c : ℕ) (qs asleep : List ℕ)
    → AreQueues h run sleep qs (asleep ++ c ∷ [])
    → has (q_node c) (run ∷ nodes qs) ≡ false
    → (xs : List ℕ) → ¬ IsRing (list_add_tail (q_node c) run h) sleep xs
unfolding list_add_tail
joined_twice h run sleep c qs asleep q out xs r =
    let ring : IsRing h sleep (nodes asleep ++ q_node c ∷ []) =
      rw (nodes-append asleep (c ∷ [])) at q.sleep_ring in
    let last : h.prev sleep ≡ q_node c =
      prev-snoc h sleep sleep (q_node c) (nodes asleep) ring.chain in
    let loop = next-prev (list_add_tail (q_node c) run h) sleep sleep xs r.chain in
    ground (
      arith,
      last,
      loop,
      out,
      q.apart run,
      q.apart sleep,
      has-append sleep (nodes asleep) (q_node c ∷ []),
      ring.apart,
      prev-mem h run run (nodes qs) q.run_ring.chain,
      has-ne (h.prev run) (q_node c) (run ∷ nodes qs),
    )

abbrev napped : ℕ → ℕ → ℕ → Kernel → Kernel
napped time c ms k =
    let k1 = set_state c sleeping k in
    record k1 {
      links = list_add_tail (q_node c) (sleep_queue k.tp) k.links;
      proc =
          put_proc c (record (k1.proc c) { sleep_until = (time + ms_to_time ms) % ulong_mod })
            k1.proc;
    }

sys_sleep_ms-napped :
    (time c ms : ℕ) (k : Kernel) → IsNap ms → (sys_sleep_ms time c ms k).1 ≡ napped time c ms k
unfolding sys_sleep_ms
sys_sleep_ms-napped time c ms k nap =
    let ok : (ms == 0 || ltb max_sleep_ms ms) ≡ false = ground arith in rw ok

-- If another process is ready and the current one is not idle, schedule after a sleep call of 1 to
-- 60000 ms makes the sleeper runnable, and afterwards the links of the sleep queue form no
-- circular list.
pub schedule-sleep :
    (image : Image) (k : Kernel) (time c q ms : ℕ) (qs asleep : List ℕ)
    → Shows k (record { current = c; ready = q ∷ qs }) asleep
    → idles k c ≡ false
    → IsNap ms
    → (((schedule image (sys_sleep_ms time c ms k).1).0.proc c).state ≡ runnable)
      × ((xs : List ℕ)
          → ¬ IsRing (schedule image (sys_sleep_ms time c ms k).1).0.links (sleep_queue k.tp) xs)
schedule-sleep image k time c q ms qs asleep s b nap =
    let free : IsFree c (run_queue k.tp) (sleep_queue k.tp) (q ∷ qs) asleep = s.free b in
    let k1 = napped time c ms k in
    let b1 : idles k1 c ≡ false = ground (arith, b) in
    let q1 = list_add_tail-sleep c (q ∷ qs) asleep s.queues free in
    let (q2, f2) = list_del-first q qs q1 in
    let out : has (q_node c) (run_queue k.tp ∷ nodes qs) ≡ false = ground (arith, free) in
    rw (sys_sleep_ms-napped time c ms k nap, schedule-busy image k1 c q qs q1.run_ring s.current b1)
      (
        ground arith,
        joined_twice (list_del (q_node q) k1.links) (run_queue k.tp) (sleep_queue k.tp) c qs asleep
            q2 out,
      )

-- If no process is ready, schedule switches from a process to the idle process and leaves the
-- former on neither queue, with its state unchanged.
pub schedule-lost :
    (image : Image) (k : Kernel) (c : ℕ) (asleep : List ℕ)
    → Shows k (record { current = c; ready = [] }) asleep
    → HasIdle image k
    → idles k c ≡ false
    → ((schedule image k).0.cpu.proc ≡ idle_proc image k.cpu.id)
      × AreQueues (schedule image k).0.links (run_queue k.tp) (sleep_queue k.tp) [] asleep
      × IsFree c (run_queue k.tp) (sleep_queue k.tp) [] asleep
      × (((schedule image k).0.proc c).state ≡ running)
unfolding switch_to_idle
schedule-lost image k c asleep s h b =
    rw (schedule-empty image k c asleep s, b)
      (refl, s.queues, s.free b, ground (arith, s.current_running))
