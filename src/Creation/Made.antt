-- ===== src/Creation/Made.antt =====
-- `create_proc` of kernel/proc.c: the process that it makes.
use Prim.Native.Nat.{bit_or}
use system_n.Base.{
  ℕ, ◌+◌, ◌-◌, ◌*◌, ◌^◌, ◌≤◌, ◌<◌, ◌≡◌, refl, false, arith, ◌==◌, ap, sym, ◌∙◌, ==_refl,
}
use system_n.Proc.{TrapFrame, Proc, runnable, Kernel, page_size, put_proc, run_queue, q_node}
use system_n.Queue.{list_add_tail}
use system_n.Buddy.{align_up}
use system_n.Buddy.Regions.{align_up-ceil}
use system_n.PageTable.{PageAllocator, phys_to_virt, virt_to_phys, pte_r, pte_w, pte_u, get_page}
use system_n.PageTable.Tree.{alloc_pagetable}
use system_n.Creation.{
  World, change, kstack_size, user_stack_top, user_stack_size, sizeof_trap_frame, new_frame, Fixed,
  enqueue,
}
use system_n.Creation.Steps.{make_kstack, make_user, set_up}
use system_n.Creation.Effect.{
  Ends, success, Ends-then, Ends-map, new_page-Quiet, new_object-Quiet, map_or_fail-Quiet,
  map_uart-Quiet, copy_kernel_mappings-Quiet, program_end, load_binary-Quiet,
}

-- What the steps leave alone: the hart, the links, the other processes, and how this one is marked.
pub record Kept (p : ℕ) (k k' : Kernel) : Type 0 where
  pub tp : k'.tp ≡ k.tp
  pub cpu : k'.cpu ≡ k.cpu
  pub links : k'.links ≡ k.links
  pub others : (q : ℕ) → (q == p) ≡ false → k'.proc q ≡ k.proc q
  pub is_idle : (k'.proc p).is_idle ≡ (k.proc p).is_idle
  pub pid : (k'.proc p).pid ≡ (k.proc p).pid
  pub bound_cpu : (k'.proc p).bound_cpu ≡ (k.proc p).bound_cpu

Kept-refl : (p : ℕ) (k : Kernel) → Kept p k k
Kept-refl p k = record {
  tp = refl;
  cpu = refl;
  links = refl;
  others = λ q n. refl;
  is_idle = refl;
  pid = refl;
  bound_cpu = refl;
}

Kept-change :
    {p : ℕ} {k k' : Kernel} (r : Proc)
    → Kept p k k'
    → r.is_idle ≡ (k'.proc p).is_idle
    → r.pid ≡ (k'.proc p).pid
    → r.bound_cpu ≡ (k'.proc p).bound_cpu
    → Kept p k (record k' { proc = put_proc p r k'.proc })
Kept-change {p} r s a b c = record {
  tp = s.tp;
  cpu = s.cpu;
  links = s.links;
  others = λ q n. rw n (s.others q n);
  is_idle = rw (==_refl p) (a ∙ s.is_idle);
  pid = rw (==_refl p) (b ∙ s.pid);
  bound_cpu = rw (==_refl p) (c ∙ s.bound_cpu);
}

Kept-same : {p : ℕ} {k k' k'' : Kernel} → Kept p k k' → k'' ≡ k' → Kept p k k''
Kept-same s e = rw e s

Kept-trans : {p : ℕ} {k k' k'' : Kernel} → Kept p k k' → Kept p k' k'' → Kept p k k''
Kept-trans a b = record {
  tp = b.tp ∙ a.tp;
  cpu = b.cpu ∙ a.cpu;
  links = b.links ∙ a.links;
  others = λ q n. b.others q n ∙ a.others q n;
  is_idle = b.is_idle ∙ a.is_idle;
  pid = b.pid ∙ a.pid;
  bound_cpu = b.bound_cpu ∙ a.bound_cpu;
}

-- The trap frame stands at the top of the kernel stack, and the context there too.
pub record HasFrame (p : ℕ) (k : Kernel) (frames : ℕ → TrapFrame) : Type 0 where
  pub frame : frames (k.proc p).tf ≡ new_frame
  pub sp : (k.proc p).ctx.sp ≡ (k.proc p).tf
  pub top : (k.proc p).tf ≡ (k.proc p).kstack + kstack_size - sizeof_trap_frame

-- What `create_proc` makes of the state in which the process has its number.
pub record IsMade {S : Type 0} (p size : ℕ) (w w' : World S) : Type 0 where
  pub tp : w'.kernel.tp ≡ w.kernel.tp
  pub cpu : w'.kernel.cpu ≡ w.kernel.cpu
  pub links : w'.kernel.links ≡ list_add_tail (q_node p) (run_queue w.kernel.tp) w.kernel.links
  pub others : (q : ℕ) → (q == p) ≡ false → w'.kernel.proc q ≡ w.kernel.proc q
  pub is_idle : (w'.kernel.proc p).is_idle ≡ (w.kernel.proc p).is_idle
  pub pid : (w'.kernel.proc p).pid ≡ (w.kernel.proc p).pid
  pub bound_cpu : (w'.kernel.proc p).bound_cpu ≡ (w.kernel.proc p).bound_cpu
  pub ready : (w'.kernel.proc p).state ≡ runnable
  pub has_frame : HasFrame p w'.kernel w'.frames
  pub heap_start : (w'.kernel.proc p).heap_start ≡ program_end size
  pub heap_end : (w'.kernel.proc p).heap_end ≡ program_end size

module _ {S : Type 0} (allocator : PageAllocator S) where
  make_kstack-Kept :
      (p : ℕ) (w : World S)
      → Ends
          (make_kstack allocator p w)
          (λ pagetable w'. Kept p w.kernel w'.kernel × HasFrame p w'.kernel w'.frames)
          (λ w'. Kept p w.kernel w'.kernel)
  unfolding make_kstack
  make_kstack-Kept p w =
      Ends-then (new_page-Quiet allocator (alloc_pagetable allocator) w)
        (λ w' q. Kept-same (Kept-refl p w.kernel) q.kernel)
        λ pagetable w1 q1.
          let k1 = Kept-same (Kept-refl p w.kernel) q1.kernel in
          let w2 = change p (λ r. record r { pagetable = pagetable }) w1 in
          let k2 : Kept p w.kernel w2.kernel = Kept-change _ k1 refl refl refl in
          Ends-then (new_object-Quiet allocator kstack_size w2) (λ w' q. Kept-same k2 q.kernel)
            λ kstack w3 q3.
              let k3 = Kept-same k2 q3.kernel in
              let w4 = change p (λ r. record r { kstack = kstack }) w3 in
              let k4 : Kept p w.kernel w4.kernel = Kept-change _ k3 refl refl refl in
              Ends-then
                (map_or_fail-Quiet allocator pagetable p (virt_to_phys p) (bit_or pte_r pte_w) w4)
                (λ w' q. Kept-same k4 q.kernel)
                λ u w5 q5.
                  Ends-then
                    (map_or_fail-Quiet allocator pagetable kstack (virt_to_phys kstack)
                      (bit_or pte_r pte_w) w5)
                    (λ w' q. Kept-same k4 (q.kernel ∙ q5.kernel))
                    λ v w6 q6.
                      let k6 = Kept-same k4 (q6.kernel ∙ q5.kernel) in
                      let same6 : (w6.kernel.proc p).kstack ≡ (w4.kernel.proc p).kstack =
                        ap (λ k. (k.proc p).kstack) (q6.kernel ∙ q5.kernel) in
                      success pagetable _ refl (
                        Kept-change _ k6 refl refl refl,
                        record {
                          frame =
                              rw (==_refl p, ==_refl (kstack + kstack_size - sizeof_trap_frame))
                                refl;
                          sp = rw (==_refl p) refl;
                          top = rw (==_refl p) (
                              ap (λ x. x + kstack_size - sizeof_trap_frame)
                                (sym (same6 ∙ rw (==_refl p) refl)));
                        },
                      )

  make_user-Kept :
      (fuel p pagetable binary size : ℕ) (w : World S)
      → size ≤ fuel * page_size
      → size < 2 ^ 61
      → Ends
          (make_user allocator fuel p pagetable binary size w)
          (λ u w'.
            Kept p w.kernel w'.kernel
            × ((w'.frames ≡ w.frames)
                × ((w'.kernel.proc p).tf ≡ (w.kernel.proc p).tf)
                × ((w'.kernel.proc p).ctx ≡ (w.kernel.proc p).ctx)
                × ((w'.kernel.proc p).kstack ≡ (w.kernel.proc p).kstack))
            × ((w'.kernel.proc p).heap_start ≡ program_end size)
            × ((w'.kernel.proc p).heap_end ≡ program_end size))
          (λ w'. Kept p w.kernel w'.kernel)
  unfolding make_user
  make_user-Kept fuel p pagetable binary size w f b =
      Ends-then (load_binary-Quiet allocator fuel pagetable 0 binary size w f (omega (arith, b)))
        (λ w' q. Kept-same (Kept-refl p w.kernel) q.kernel)
        λ va w1 (q1, e).
          let k1 = Kept-same (Kept-refl p w.kernel) q1.kernel in
          let up : align_up va ≡ program_end size =
            ap align_up e ∙ align_up-ceil (0 + program_end size) (omega (arith, b)) ∙ omega arith in
          let w2 =
            change p (λ r. record r { heap_start = align_up va; heap_end = align_up va }) w1 in
          let k2 : Kept p w.kernel w2.kernel = Kept-change _ k1 refl refl refl in
          Ends-then (new_page-Quiet allocator (get_page allocator) w2)
            (λ w' q. Kept-same k2 q.kernel)
            λ ustack w3 q3.
              let k3 = Kept-same k2 q3.kernel in
              let w4 = change p (λ r. record r { ustack = ustack }) w3 in
              let k4 : Kept p w.kernel w4.kernel = Kept-change _ k3 refl refl refl in
              Ends-map
                (map_or_fail-Quiet allocator pagetable (user_stack_top - user_stack_size) ustack
                  (bit_or (bit_or pte_r pte_w) pte_u) w4)
                (λ w' q. Kept-same k4 q.kernel)
                λ u w5 q5.
                  let with_heap : Proc → Proc =
                    λ r. record r { heap_start = align_up va; heap_end = align_up va } in
                  let with_stack : Proc → Proc = λ r. record r { ustack = ustack } in
                  let e2 : w3.kernel.proc p ≡ with_heap (w1.kernel.proc p) =
                    ap (λ k. k.proc p) q3.kernel ∙ rw (==_refl p) refl in
                  let e4 : w4.kernel.proc p ≡ with_stack (w3.kernel.proc p) = rw (==_refl p) refl in
                  let now : w5.kernel.proc p ≡ with_stack (with_heap (w.kernel.proc p)) =
                    ap (λ k. k.proc p) q5.kernel
                    ∙ e4
                    ∙ ap with_stack (e2 ∙ ap (λ k. with_heap (k.proc p)) q1.kernel) in
                  (
                    Kept-same k4 q5.kernel,
                    (
                      q5.frames ∙ q3.frames ∙ q1.frames,
                      ap (λ r. r.tf) now,
                      ap (λ r. r.ctx) now,
                      ap (λ r. r.kstack) now,
                    ),
                    ap (λ r. r.heap_start) now ∙ up,
                    ap (λ r. r.heap_end) now ∙ up,
                  )

  pub set_up-IsMade :
      (fixed : Fixed) (fuel p binary size : ℕ) (w : World S)
      → size ≤ fuel * page_size
      → size < 2 ^ 61
      → Ends
          (set_up allocator fixed fuel p binary size w)
          (λ u w'. IsMade p size w w')
          (λ w'. Kept p w.kernel w'.kernel)
  unfolding set_up enqueue
  set_up-IsMade fixed fuel p binary size w f b =
      Ends-then (make_kstack-Kept p w) (λ w' k. k)
        λ pagetable w1 (k1, h1).
          Ends-then (make_user-Kept fuel p pagetable binary size w1 f b) (λ w' k. Kept-trans k1 k)
            λ u2 w2 (k2, (fr, tf, ctx, ks), s, e).
              Ends-then
                (copy_kernel_mappings-Quiet allocator fixed.kernel_end pagetable
                  (phys_to_virt fixed.kernel_pagetable) w2)
                (λ w' q. Kept-same (Kept-trans k1 k2) q.kernel)
                λ u3 w3 q3.
                  Ends-then (map_uart-Quiet allocator pagetable w3)
                    (λ w' q. Kept-same (Kept-trans k1 k2) (q.kernel ∙ q3.kernel))
                    λ u4 w4 q4.
                      let same : w4.kernel ≡ w2.kernel = q4.kernel ∙ q3.kernel in
                      let frames : w4.frames ≡ w1.frames = q4.frames ∙ q3.frames ∙ fr in
                      success tt _ refl (record {
                        tp = rw same (k2.tp ∙ k1.tp);
                        cpu = rw same (k2.cpu ∙ k1.cpu);
                        links = rw (same, k2.links, k1.links, k2.tp, k1.tp) refl;
                        others = λ q n. rw (n, same) (k2.others q n ∙ k1.others q n);
                        is_idle = rw (==_refl p, same) (k2.is_idle ∙ k1.is_idle);
                        pid = rw (==_refl p, same) (k2.pid ∙ k1.pid);
                        bound_cpu = rw (==_refl p, same) (k2.bound_cpu ∙ k1.bound_cpu);
                        ready = rw (==_refl p) refl;
                        has_frame = record {
                          frame = rw (==_refl p, same, frames, tf) h1.frame;
                          sp = rw (==_refl p, same) (ap (λ c. c.sp) ctx ∙ h1.sp ∙ sym tf);
                          top =
                              rw (==_refl p, same)
                                (tf
                                  ∙ h1.top
                                  ∙ ap (λ x. x + kstack_size - sizeof_trap_frame) (sym ks));
                        };
                        heap_start = rw (==_refl p, same) s;
                        heap_end = rw (==_refl p, same) e;
                      })
