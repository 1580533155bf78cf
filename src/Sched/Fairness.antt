-- ===== src/Sched/Fairness.antt =====
-- `schedule` of kernel/sched.c called again and again.
use system_n.Base.{
  ℕ, zero, suc, ◌≡◌, refl, Bool, List, [], ◌∷◌, ◌++◌, length, Bool-cases, inl, inr, ◌∙◌,
}
use mathlib.Core.List.{append_assoc, append-nil}
use system_n.Proc.{Image, Kernel, idle_proc}
use system_n.Sched.{schedule}
use system_n.Sched.Rotation.{
  rotate, idles, Shows, HasIdle, schedule-rotate, schedule-Keeps, Keeps-HasIdle,
}

-- `n` calls of `schedule`.
unfoldable pub turns : Image → ℕ → Kernel → Kernel
turns image zero k = k
turns image (suc n) k = turns image n (schedule image k).0

rotate-first :
    (is_idle : ℕ → Bool) (idle c p : ℕ) (ps : List ℕ)
    → (rotate is_idle idle (record { current = c; ready = p ∷ ps })).current ≡ p
unfolding rotate
rotate-first is_idle idle c p ps = refl

rotate-tail :
    (is_idle : ℕ → Bool) (idle c p : ℕ) (ps : List ℕ)
    → (qs : List ℕ) × ((rotate is_idle idle (record { current = c; ready = p ∷ ps }))
        ≡ record { current = p; ready = ps ++ qs })
unfolding rotate
rotate-tail is_idle idle c p ps = elim (Bool-cases (is_idle c)) [
  | inl e ↦ ([], rw (e, append-nil))
  | inr e ↦ (c ∷ [], rw e)
]

-- From a state that shows a view, on a hart whose idle process is set up, a ready process behind n
-- others runs after n + 1 calls of schedule.
pub turns-current :
    (image : Image) (before : List ℕ) (p : ℕ) (after : List ℕ) (k : Kernel) (c : ℕ)
    (asleep : List ℕ)
    → Shows k (record { current = c; ready = before ++ p ∷ after }) asleep
    → HasIdle image k
    → (turns image (suc (length before)) k).cpu.proc ≡ p
unfolding turns
turns-current image [] p after k c asleep s h =
    (schedule-rotate image k (record { current = c; ready = p ∷ after }) asleep s h).current
    ∙ rotate-first (idles k) (idle_proc image k.cpu.id) c p after
turns-current image (b ∷ before) p after k c asleep s h =
    let k' = (schedule image k).0 in
    let (qs, e) = rotate-tail (idles k) (idle_proc image k.cpu.id) c b (before ++ p ∷ after) in
    let s' : Shows k' (record { current = b; ready = (before ++ p ∷ after) ++ qs }) asleep =
      rw e at (
        schedule-rotate image k (record { current = c; ready = b ∷ before ++ p ∷ after }) asleep s
          h) in
    turns-current image before p (after ++ qs) k' b asleep
      (rw (append_assoc before (p ∷ after) qs) at s')
      (Keeps-HasIdle image k k' (schedule-Keeps image k) h)
