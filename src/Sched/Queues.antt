-- ===== src/Sched/Queues.antt =====
-- The well-formed state of a hart's two queues, in terms of processes.
use system_n.Base.{ℕ, ◌≡◌, refl, false, List, [], ◌∷◌, ◌++◌, arith, has, has-append, has-ne}
use system_n.Queue.{Links, list_del, list_add_tail}
use system_n.Queue.Ring.{IsRing}
use system_n.Queue.Add.{list_add_tail-IsRing}
use system_n.Queue.Delete.{Distinct-cut, list_del-IsRing}
use system_n.Queue.Frame.{Apart, Apart-symm, list_add_tail-other, list_del-other}
use system_n.Proc.{q_node}

abbrev pub nodes : List ℕ → List ℕ
nodes [] = []
nodes (p ∷ ps) = q_node p ∷ nodes ps

pub nodes-append : (ps qs : List ℕ) → nodes (ps ++ qs) ≡ nodes ps ++ nodes qs
nodes-append [] qs = refl
nodes-append (p ∷ ps) qs = rw (nodes-append ps qs)

pub has-nodes : (p : ℕ) (ps : List ℕ) → has (q_node p) (nodes ps) ≡ has p ps
has-nodes p [] = refl
has-nodes p (q ∷ ps) = ground (arith, has-nodes p ps)

-- Two lists of nodes, `run` and `sleep` their heads, with no address in common.
pub record AreQueues (h : Links) (run sleep : ℕ) (ready asleep : List ℕ) : Type 0 where
  pub run_ring : IsRing h run (nodes ready)
  pub sleep_ring : IsRing h sleep (nodes asleep)
  pub apart : Apart (run ∷ nodes ready) (sleep ∷ nodes asleep)

-- A process on neither queue.
abbrev pub IsFree : ℕ → ℕ → ℕ → List ℕ → List ℕ → Type 0
IsFree p run sleep ready asleep =
    (has (q_node p) (run ∷ nodes ready) ≡ false) × (has (q_node p) (sleep ∷ nodes asleep) ≡ false)

module _ {h : Links} {run sleep : ℕ} where
  -- The first ready process leaves the run queue, and is free then.
  pub list_del-first :
      (p : ℕ) (ps : List ℕ) {asleep : List ℕ}
      → AreQueues h run sleep (p ∷ ps) asleep
      → AreQueues (list_del (q_node p) h) run sleep ps asleep × IsFree p run sleep ps asleep
  list_del-first p ps {asleep} q = (
    record {
      run_ring = list_del-IsRing (q_node p) [] (nodes ps) q.run_ring;
      sleep_ring =
          list_del-other (q_node p) [] (nodes ps) q.run_ring q.sleep_ring
            (Apart-symm (run ∷ nodes (p ∷ ps)) (sleep ∷ nodes asleep) q.apart);
      apart = λ x i. q.apart x (ground arith);
    },
    (ground (arith, q.run_ring.distinct, q.run_ring.apart), q.apart (q_node p) (ground arith)),
  )

  -- A free process joins the run queue at its end.
  pub list_add_tail-run :
      (p : ℕ) (ready asleep : List ℕ)
      → AreQueues h run sleep ready asleep
      → IsFree p run sleep ready asleep
      → AreQueues (list_add_tail (q_node p) run h) run sleep (ready ++ p ∷ []) asleep
  list_add_tail-run p ready asleep q f = record {
    run_ring = rw (nodes-append ready (p ∷ [])) (list_add_tail-IsRing (q_node p) q.run_ring f.0);
    sleep_ring =
        list_add_tail-other (q_node p) q.run_ring q.sleep_ring
          (Apart-symm (run ∷ nodes ready) (sleep ∷ nodes asleep) q.apart) f.1;
    apart = λ x i.
        ground (
          arith,
          q.apart x,
          nodes-append ready (p ∷ []),
          has-append x (nodes ready) (q_node p ∷ []),
        );
  }

  -- And so does one that goes to sleep.
  pub list_add_tail-sleep :
      (p : ℕ) (ready asleep : List ℕ)
      → AreQueues h run sleep ready asleep
      → IsFree p run sleep ready asleep
      → AreQueues (list_add_tail (q_node p) sleep h) run sleep ready (asleep ++ p ∷ [])
  list_add_tail-sleep p ready asleep q f = record {
    sleep_ring =
        rw (nodes-append asleep (p ∷ [])) (list_add_tail-IsRing (q_node p) q.sleep_ring f.1);
    run_ring = list_add_tail-other (q_node p) q.sleep_ring q.run_ring q.apart f.0;
    apart = λ x i. ground (
      arith,
      q.apart x,
      nodes-append asleep (p ∷ []),
      has-append x (nodes asleep) (q_node p ∷ []),
      has-ne x (q_node p) (run ∷ nodes ready),
    );
  }

  -- A sleeper leaves the sleep queue from any place in it.
  pub list_del-sleep :
      (p : ℕ) (before after ready : List ℕ)
      → AreQueues h run sleep ready (before ++ p ∷ after)
      → AreQueues (list_del (q_node p) h) run sleep ready (before ++ after)
        × IsFree p run sleep ready (before ++ after)
  list_del-sleep p before after ready q =
      let split : nodes (before ++ p ∷ after) ≡ nodes before ++ q_node p ∷ nodes after =
        nodes-append before (p ∷ after) in
      let ring : IsRing h sleep (nodes before ++ q_node p ∷ nodes after) =
        rw split at q.sleep_ring in
      let apart : Apart (run ∷ nodes ready) (sleep ∷ nodes before ++ q_node p ∷ nodes after) =
        rw split at q.apart in
      let (d, out) = Distinct-cut (q_node p) (nodes before) (nodes after) ring.distinct in
      let del : IsRing (list_del (q_node p) h) sleep (nodes before ++ nodes after) =
        list_del-IsRing (q_node p) (nodes before) (nodes after) ring in
      (
        record {
          run_ring = list_del-other (q_node p) (nodes before) (nodes after) ring q.run_ring apart;
          sleep_ring = rw (nodes-append before after) del;
          apart = λ x i. ground (
            arith,
            apart x,
            nodes-append before after,
            has-append x (nodes before) (nodes after),
            has-append x (nodes before) (q_node p ∷ nodes after),
          );
        },
        (
          ground (
            arith,
            apart (q_node p),
            has-append (q_node p) (nodes before) (q_node p ∷ nodes after),
            Apart-symm (run ∷ nodes ready) (sleep ∷ nodes before ++ q_node p ∷ nodes after) apart
                (q_node p),
          ),
          ground (
            arith,
            out,
            nodes-append before after,
            ring.apart,
            has-append sleep (nodes before) (q_node p ∷ nodes after),
          ),
        ),
      )
