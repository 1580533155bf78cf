-- ===== src/Sched.antt =====
-- kernel/sched.c: `schedule`. The children are about the queues, the rotation of the processes, and
-- repeated calls.
pub mod Queues
pub mod Rotation
pub mod Fairness
use system_n.Base.{ℕ, ◌+◌, ◌≡◌, Bool, not, Option, none, some, ◌==◌, if◌then◌else◌}
use system_n.Queue.{Links, list_del, list_add_tail}
use system_n.Proc.{
  Context, ProcState, running, runnable, Proc, Cpu, page_size, q_node, container_of, run_queue,
  make_satp, Image, Kernel, put_proc, set_state, idle_proc,
}

-- The call `swtch(&old->ctx, &new->ctx)`: the processes whose contexts it saves and loads.
pub record Switch : Type 0 where
  pub old : ℕ
  pub new : ℕ

-- `load_pagetable`
abbrev pub load_pagetable : ℕ → Kernel → Kernel
load_pagetable pagetable k = record k { satp = make_satp pagetable }

-- `if (!old->is_idle) { old->state = RUNNABLE; list_add_tail(&old->q_node, &c->run_queue); }`
unfoldable pub requeue : ℕ → Kernel → Kernel
requeue old k =
    if (k.proc old).is_idle == 0
    then (let k1 = set_state old runnable k in
        record k1 { links = list_add_tail (q_node old) (run_queue k.tp) k1.links })
    else k

-- The branch of `schedule` that found the process `new` at the head of the run queue.
unfoldable pub switch_to : Image → ℕ → ℕ → Kernel → Kernel
unfolding requeue
switch_to image old new k =
    let k1 = record k { links = list_del (q_node new) k.links } in
    let k2 = set_state new running k1 in
    let k3 = requeue old k2 in
    let k4 = record k3 { cpu = record (k3.cpu) { proc = new } } in
    let k5 = record k4 { stvec = image.trap_vector } in
    let k6 = load_pagetable (k5.proc new).pagetable k5 in record k6 { sscratch = (k6.proc new).tf }

-- The branch with an empty run queue: `ra` and `sp` of the idle process start it afresh.
unfoldable pub switch_to_idle : Image → Kernel → Kernel
switch_to_idle image k =
    let idle = idle_proc image k.cpu.id in
    let r = k.proc idle in
    let ctx = record (r.ctx) { ra = image.idle_loop; sp = r.kstack + page_size } in
    let k1 = record k {
      cpu = record (k.cpu) { proc = idle };
      proc = put_proc idle (record r { ctx = ctx }) k.proc;
    } in
    load_pagetable image.kernel_pagetable k1

-- The new state and the context switch, if there is one.
unfoldable pub schedule : Image → Kernel → Kernel × Option Switch
schedule image k =
    let old = k.cpu.proc in
    let head = run_queue k.tp in
    let node = k.links.next head in
    let idle = idle_proc image k.cpu.id in
    if not (node == head)
    then (
      switch_to image old (container_of node) k,
      some (record { old = old; new = container_of node }),
    )
    else if (k.proc old).is_idle == 0
    then (switch_to_idle image k, some (record { old = old; new = idle }))
    else (k, none)
