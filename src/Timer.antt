-- ===== src/Timer.antt =====
-- kernel/timer.h: the timer interrupt, which wakes the processes whose time has come. Each reading
-- of the `time` register is an argument.
pub mod Wake
use system_n.Base.{
  ℕ, zero, suc, ◌+◌, ◌*◌, ◌/◌, ◌%◌, ◌≡◌, Bool, not, Option, none, some, ◌==◌, leb, if◌then◌else◌,
}
use system_n.Queue.{list_del, list_add_tail}
use system_n.Proc.{
  ProcState, runnable, Proc, Cpu, q_node, container_of, run_queue, sleep_queue, ulong_mod, Kernel,
  set_state, put_proc,
}

abbrev pub time_freq : ℕ
time_freq = 10_000_000

-- `TIMER_INTERVAL`
abbrev pub timer_interval : ℕ
timer_interval = time_freq / 100

-- `MS_TO_TIME`
abbrev pub ms_to_time : ℕ → ℕ
ms_to_time ms = ms * (time_freq / 1000) % ulong_mod

unfoldable pub timer_init : ℕ → Kernel → Kernel
timer_init time k = record k { stimecmp = (time + timer_interval) % ulong_mod }

-- The body of the loop over the sleep queue: the kernel and `need_sched`.
unfoldable pub wake : ℕ → ℕ → Kernel × ℕ → Kernel × ℕ
wake now pos (k, need_sched) =
    let p = container_of pos in
    if leb (k.proc p).sleep_until now
    then (let k1 = record k { links = list_del (q_node p) k.links } in
        let k2 = set_state p runnable k1 in
        (record k2 { links = list_add_tail (q_node p) (run_queue k2.tp) k2.links }, 1))
    else (k, need_sched)

-- `list_for_each_safe(pos, tmp, &c->sleep_queue)`, on fuel.
unfoldable pub wake_loop : ℕ → ℕ → ℕ → ℕ → Kernel × ℕ → Option (Kernel × ℕ)
wake_loop zero now pos tmp s = none
wake_loop (suc fuel) now pos tmp s =
    let s' = wake now pos s in
    let rest = wake_loop fuel now tmp (s'.0.links.next tmp) s' in
    if pos == sleep_queue s.0.tp then some s else rest

-- `if (need_sched) curr_cpu()->needs_sched = 1`
abbrev pub ask_sched : Kernel × ℕ → Kernel
ask_sched (k, need_sched) =
    if need_sched == 0 then k else (record k { cpu = record (k.cpu) { needs_sched = 1 } })

-- The end of `timer_handle`, if the loop ends.
abbrev pub finish : Option (Kernel × ℕ) → Option Kernel
finish none = none
finish (some s) = some (ask_sched s)

-- `time` is the first reading, `now` the second.
unfoldable pub timer_handle : ℕ → ℕ → ℕ → Kernel → Option Kernel
timer_handle fuel time now k =
    let k1 = record k { stimecmp = (time + timer_interval) % ulong_mod } in
    let pos = k1.links.next (sleep_queue k1.tp) in
    finish (wake_loop fuel now pos (k1.links.next pos) (k1, 0))
