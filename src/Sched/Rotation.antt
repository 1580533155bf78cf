-- ===== src/Sched/Rotation.antt =====
-- `schedule` of kernel/sched.c against a round-robin queue.
use system_n.Base.{
  ℕ, ◌≡◌, refl, Bool, true, false, not, none, some, List, [], ◌∷◌, ◌++◌, arith, ◌==◌, has,
  has-append, has-ne, if◌then◌else◌, Bool-cases, inl, inr, ◌∙◌,
}
use system_n.Queue.{list_del, list_add_tail}
use system_n.Queue.Ring.{IsRing}
use system_n.Proc.{
  q_node, container_of, run_queue, sleep_queue, Image, Kernel, runnable, running, make_satp,
  idle_proc, set_state,
}
use system_n.Sched.{requeue, switch_to, switch_to_idle, schedule}
use system_n.Sched.Queues.{
  nodes, nodes-append, has-nodes, AreQueues, IsFree, list_del-first, list_add_tail-run,
}

-- The scheduler's promise: who runs, and who is ready, in order.
pub record View : Type 0 where
  pub current : ℕ
  pub ready : List ℕ

-- The first ready process runs, and the one that ran joins the end, unless it is the idle process.
-- With nobody ready the idle process runs.
unfoldable pub rotate : (ℕ → Bool) → ℕ → View → View
rotate idles idle v = elim v.ready [
  | [] ↦ if idles v.current then v else record { current = idle; ready = [] }
  | p ∷ ps ↦ record { current = p; ready = if idles v.current then ps else ps ++ v.current ∷ [] }
]

abbrev pub idles : Kernel → ℕ → Bool
idles k p = not ((k.proc p).is_idle == 0)

-- The kernel of a hart stands for a view, and some processes sleep.
pub record Shows (k : Kernel) (v : View) (asleep : List ℕ) : Type 0 where
  pub current : k.cpu.proc ≡ v.current
  pub queues : AreQueues k.links (run_queue k.tp) (sleep_queue k.tp) v.ready asleep
  pub free :
      idles k v.current ≡ false
      → IsFree v.current (run_queue k.tp) (sleep_queue k.tp) v.ready asleep
  pub current_running : (k.proc v.current).state ≡ running
  pub ready_runnable : (p : ℕ) → has p v.ready ≡ true → (k.proc p).state ≡ runnable

-- The idle process of the hart, as `setup_idle_proc` leaves it.
pub record HasIdle (image : Image) (k : Kernel) : Type 0 where
  pub marked : idles k (idle_proc image k.cpu.id) ≡ true
  pub idle_running : (k.proc (idle_proc image k.cpu.id)).state ≡ running

module _ (image : Image) (k : Kernel) where
  -- With an empty run queue the idle process takes over.
  pub schedule-empty :
      (c : ℕ) (asleep : List ℕ)
      → Shows k (record { current = c; ready = [] }) asleep
      → schedule image k ≡ (
          if idles k c
          then (k, none)
          else (switch_to_idle image k, some (record { old = c; new = idle_proc image k.cpu.id })))
  unfolding schedule
  schedule-empty c asleep s = ground (arith, s.queues.run_ring.chain, s.current)

  -- `schedule` takes the first process of the run queue.
  pub schedule-first :
      (c p : ℕ) (ps : List ℕ)
      → IsRing k.links (run_queue k.tp) (nodes (p ∷ ps))
      → k.cpu.proc ≡ c
      → schedule image k ≡ (switch_to image c p k, some (record { old = c; new = p }))
  unfolding schedule
  schedule-first c p ps r e = ground (arith, r.chain, r.apart)

  switch_to_idle-Shows :
      (c : ℕ) (asleep : List ℕ)
      → Shows k (record { current = c; ready = [] }) asleep
      → HasIdle image k
      → Shows
          (switch_to_idle image k)
          (record { current = idle_proc image k.cpu.id; ready = [] })
          asleep
  unfolding switch_to_idle
  switch_to_idle-Shows c asleep s h = record {
    current = refl;
    queues = s.queues;
    free = λ e. ground (arith, h.marked);
    current_running = ground (arith, h.idle_running);
    ready_runnable = λ q i. cc;
  }

-- The state in which `switch_to` puts the old process back, and what it does after that.
abbrev pub dequeued : ℕ → Kernel → Kernel
dequeued p k = set_state p running (record k { links = list_del (q_node p) k.links })

abbrev pub resumed : Image → ℕ → Kernel → Kernel
resumed image p k = record k {
  cpu = record (k.cpu) { proc = p };
  stvec = image.trap_vector;
  satp = make_satp (k.proc p).pagetable;
  sscratch = (k.proc p).tf;
}

pub switch_to-resumed :
    (image : Image) (k : Kernel) (c p : ℕ)
    → switch_to image c p k ≡ resumed image p (requeue c (dequeued p k))
unfolding switch_to
switch_to-resumed image k c p = refl

abbrev pub requeued : ℕ → Kernel → Kernel
requeued c k = record (set_state c runnable k) {
  links = list_add_tail (q_node c) (run_queue k.tp) k.links;
}

requeue-idle : (k : Kernel) (c : ℕ) → idles k c ≡ true → requeue c k ≡ k
unfolding requeue
requeue-idle k c e = ground arith

pub requeue-busy : (k : Kernel) (c : ℕ) → idles k c ≡ false → requeue c k ≡ requeued c k
unfolding requeue
requeue-busy k c e = let was : ((k.proc c).is_idle == 0) ≡ true = ground arith in rw was

pub dequeued-idles : (k : Kernel) (p c : ℕ) → idles (dequeued p k) c ≡ idles k c
dequeued-idles k p c = elim (Bool-cases (c == p)) [ inl e ↦ ground arith | inr e ↦ rw e ]

module _ (image : Image) (k : Kernel) (c p : ℕ) (ps asleep : List ℕ)
    (s : Shows k (record { current = c; ready = p ∷ ps }) asleep) where
  switch_to-idle :
      idles k c ≡ true → Shows (switch_to image c p k) (record { current = p; ready = ps }) asleep
  switch_to-idle e =
      let (q, f) = list_del-first p ps s.queues in
      rw (switch_to-resumed image k c p, requeue-idle (dequeued p k) c (dequeued-idles k p c ∙ e))
        (record {
          current = refl;
          queues = q;
          free = λ _. f;
          current_running = ground arith;
          ready_runnable = λ r i.
              ground (
                arith,
                s.ready_runnable r,
                has-ne (q_node r) (q_node p) (nodes ps),
                has-nodes r ps,
              );
        })

  switch_to-busy :
      idles k c ≡ false
      → Shows (switch_to image c p k) (record { current = p; ready = ps ++ c ∷ [] }) asleep
  switch_to-busy e =
      let (q, f) = list_del-first p ps s.queues in
      let free = s.free e in
      let ne : (c == p) ≡ false = ground arith in
      let joined = list_add_tail-run c ps asleep q (ground arith) in
      rw (switch_to-resumed image k c p, requeue-busy (dequeued p k) c (dequeued-idles k p c ∙ e))
        (record {
          current = refl;
          queues = joined;
          free = λ _. (
            ground (
              arith,
              f,
              nodes-append ps (c ∷ []),
              has-append (q_node p) (nodes ps) (q_node c ∷ []),
            ),
            f.1,
          );
          current_running = ground arith;
          ready_runnable = λ r i. ground (
            arith,
            s.ready_runnable r,
            has-append r ps (c ∷ []),
            f,
            has-ne (q_node r) (q_node p) (nodes ps),
            has-nodes r ps,
          );
        })

module _ (image : Image) (k : Kernel) where
  rotate-by_ready :
      (ready : List ℕ) (c : ℕ) (asleep : List ℕ)
      → Shows k (record { current = c; ready = ready }) asleep
      → HasIdle image k
      → Shows
          (schedule image k).0
          (rotate (idles k) (idle_proc image k.cpu.id) (record { current = c; ready = ready }))
          asleep
  unfolding rotate
  rotate-by_ready [] c asleep s h = elim (Bool-cases (idles k c)) [
    | inl e ↦ rw (schedule-empty image k c asleep s, e) s
    | inr e ↦ rw (schedule-empty image k c asleep s, e) (switch_to_idle-Shows image k c asleep s h)
  ]
  rotate-by_ready (p ∷ ps) c asleep s h = elim (Bool-cases (idles k c)) [
    | inl e ↦
        rw (schedule-first image k c p ps s.queues.run_ring s.current, e)
          (switch_to-idle image k c p ps asleep s e)
    | inr e ↦
        rw (schedule-first image k c p ps s.queues.run_ring s.current, e)
          (switch_to-busy image k c p ps asleep s e)
  ]

  -- schedule implements a round-robin queue: from a state that shows a view (who runs, who is
  -- ready in order, who sleeps), on a hart whose idle process is set up, the state afterwards
  -- shows the rotated view, on each of its three branches.
  pub schedule-rotate :
      (v : View) (asleep : List ℕ)
      → Shows k v asleep
      → HasIdle image k
      → Shows (schedule image k).0 (rotate (idles k) (idle_proc image k.cpu.id) v) asleep
  schedule-rotate v asleep s h = rotate-by_ready v.ready v.current asleep s h

-- What `schedule` leaves alone.
pub record Keeps (k k' : Kernel) : Type 0 where
  pub id : k'.cpu.id ≡ k.cpu.id
  pub tp : k'.tp ≡ k.tp
  pub idle : (p : ℕ) → idles k' p ≡ idles k p
  pub idle_state :
      (p : ℕ) → idles k p ≡ true → (k.proc p).state ≡ running → (k'.proc p).state ≡ running

requeue-Keeps : (k : Kernel) (c p : ℕ) → Keeps k (requeue c (dequeued p k))
unfolding requeue
requeue-Keeps k c p = record {
  id = ground arith;
  tp = ground arith;
  idle = λ r. ground arith;
  idle_state = λ r e f. ground arith;
}

switch_to-Keeps : (image : Image) (k : Kernel) (c p : ℕ) → Keeps k (switch_to image c p k)
switch_to-Keeps image k c p =
    let kept = requeue-Keeps k c p in
    rw (switch_to-resumed image k c p)
      (record { id = kept.id; tp = kept.tp; idle = kept.idle; idle_state = kept.idle_state })

switch_to_idle-Keeps : (image : Image) (k : Kernel) → Keeps k (switch_to_idle image k)
unfolding switch_to_idle
switch_to_idle-Keeps image k = record {
  id = refl;
  tp = refl;
  idle = λ r. ground arith;
  idle_state = λ r e f. ground arith;
}

pub schedule-Keeps : (image : Image) (k : Kernel) → Keeps k (schedule image k).0
unfolding schedule
schedule-Keeps image k =
    let head = run_queue k.tp in
    elim (Bool-cases (k.links.next head == head)) [
      | inr e ↦ rw e (switch_to-Keeps image k k.cpu.proc (container_of (k.links.next head)))
      | inl e ↦ elim (Bool-cases ((k.proc k.cpu.proc).is_idle == 0)) [
        | inl b ↦ rw (e, b) (switch_to_idle-Keeps image k)
        | inr b ↦
            rw (e, b) (record { id = refl; tp = refl; idle = λ r. refl; idle_state = λ r e f. f })
      ]
    ]

pub Keeps-HasIdle :
    (image : Image) (k k' : Kernel) → Keeps k k' → HasIdle image k → HasIdle image k'
Keeps-HasIdle image k k' kept h = record {
  marked = rw kept.id (kept.idle (idle_proc image k.cpu.id) ∙ h.marked);
  idle_running = rw kept.id (kept.idle_state (idle_proc image k.cpu.id) h.marked h.idle_running);
}
