-- ===== src/Trap/Dispatch.antt =====
-- System calls through `trap_handler` of kernel/trap/trap.c: what becomes of the
-- trap frames.
use system_n.Base.{
  ℕ, suc, ◌+◌, ◌*◌, ◌%◌, ◌^◌, ◌≤◌, ◌<◌, ◌≡◌, ◌≢◌, refl, true, false, not, ◌&&◌, ◌||◌, Option, none,
  some, List, arith, ltb, ◌==◌, length, if◌then◌else◌, Bool-cases, ==_refl, ==-false, inl, inr, ◌∙◌,
  ap,
}
use system_n.Proc.{set_state, zombie, ulong_mod, page_size, Kernel}
use system_n.Uart.{Uart, uart_putsn, uart_gets}
use system_n.Buddy.{align_up}
use system_n.PageTable.{PageAllocator, minus_one}
use system_n.Machine.{Machine, Outcome, returns, and_then, lift_uart}
use system_n.Syscall.{
  uint, max_sleep_ms, is_user_addr, user_read, user_write, reachable, load, after_access, clip,
  send, copy_from_user, copy_to_user, sys_write, sys_read, sys_sleep_ms, sys_sbrk, sys_munmap, grow,
  shrink, set_heap_end, user_heap_end,
}
use system_n.Syscall.Heap.{Ensures, Ensures-bind, KeepsKernel, grow-KeepsKernel, shrink-KeepsKernel}
use system_n.Trap.{
  sys_write_num, sys_read_num, sys_exit_num, sys_getpid_num, sys_yield_num, sys_sleep_ms_num,
  sys_sbrk_num, sys_munmap_num, Env, reg, set_result, set_needs_sched, scause_code, sleep_call,
  syscall_handler, skip_ecall, trap_end, trap_switch, trap_handler,
}

-- What the loops of the memory calls go through has an end.
align_up-bound : (x : ℕ) → align_up x < ulong_mod
unfolding align_up
align_up-bound x = omega arith

set_heap_end-tf : (p v : ℕ) (k : Kernel) → ((set_heap_end p v k).proc p).tf ≡ (k.proc p).tf
unfolding set_heap_end
set_heap_end-tf p v k = rw (==_refl p)

sys_sleep_ms-tf :
    (time p ms : ℕ) (k : Kernel) → ((sys_sleep_ms time p ms k).1.proc p).tf ≡ (k.proc p).tf
unfolding sys_sleep_ms
sys_sleep_ms-tf time p ms k = elim (Bool-cases (ms == 0 || ltb max_sleep_ms ms)) [
  | inl e ↦ rw e refl
  | inr e ↦ rw (e, ==_refl p) refl
]

module _ {S : Type 0} where
  -- The frames, and the frame of a process, are as before.
  abbrev KeepsFrames : ℕ → Machine S → {A : Type 0} → A × Machine S → Type 0
  KeepsFrames p m (a, m') = (m'.frames ≡ m.frames) × ((m'.kernel.proc p).tf ≡ (m.kernel.proc p).tf)

  -- The frames are as before, but for the register of the answer in one.
  abbrev pub Answered : ℕ → Machine S → {A : Type 0} → A × Machine S → Type 0
  Answered tf m (a, m') =
      ((t : ℕ) → t ≢ tf → m'.frames t ≡ m.frames t)
      × ((m'.frames tf).sepc ≡ (m.frames tf).sepc)
      × ((i : ℕ) → i ≢ 10 → (m'.frames tf).regs i ≡ (m.frames tf).regs i)

  lift_uart-KeepsFrames :
      {A : Type 0} (p : ℕ) (r : Option (A × Uart)) (m : Machine S)
      → Ensures (KeepsFrames p m) (lift_uart r m)
  lift_uart-KeepsFrames p none m = tt
  lift_uart-KeepsFrames p (some (a, u)) m = (refl, refl)

  send-KeepsFrames :
      (p len : ℕ) (got : Option (List ℕ)) (m : Machine S)
      → Ensures (KeepsFrames p m) (send len got m)
  send-KeepsFrames p len none m = (refl, refl)
  send-KeepsFrames p len (some buf) m = lift_uart-KeepsFrames p (uart_putsn buf len 0 m.uart) m

  sys_write-KeepsFrames :
      (p fd user_buf len : ℕ) (m : Machine S)
      → Ensures (KeepsFrames p m) (sys_write fd user_buf len m)
  unfolding sys_write copy_from_user
  sys_write-KeepsFrames p fd user_buf len m = elim (Bool-cases (not (fd == 1) && not (fd == 2))) [
    | inl e ↦ rw e (refl, refl)
    | inr e ↦ elim (Bool-cases (is_user_addr user_buf (clip len))) [
      | inl u ↦
          let m1 = record m { sstatus = after_access m.sstatus } in
          elim (Bool-cases (reachable user_read m.vm m.kernel.satp user_buf (clip len))) [
            | inl r ↦
                rw (e, u, r)
                  (send-KeepsFrames p (clip len) (some (load user_buf (clip len) m.user)) m1)
            | inr d ↦ rw (e, u, d) tt
          ]
      | inr u ↦ rw (e, u) (refl, refl)
    ]
  ]

  sys_read-KeepsFrames :
      (p fd user_buf len : ℕ) (m : Machine S)
      → Ensures (KeepsFrames p m) (sys_read fd user_buf len m)
  unfolding sys_read copy_to_user
  sys_read-KeepsFrames p fd user_buf len m = elim (Bool-cases (fd == 0)) [
    | inr e ↦ rw e (refl, refl)
    | inl e ↦
        let r = uart_gets (clip len) m.uart in
        rw e (
          Ensures-bind (KeepsFrames p m) (KeepsFrames p m) (lift_uart r m) _
            (lift_uart-KeepsFrames p r m)
            λ (buf, m1) (f, t). elim (Bool-cases (is_user_addr user_buf (length buf))) [
              | inl u ↦
                  elim (Bool-cases
                    (reachable user_write m1.vm m1.kernel.satp user_buf (length buf))) [
                      | inl r ↦ rw (u, r) (f, t)
                      | inr d ↦ rw (u, d) tt
                    ]
              | inr u ↦ rw u (f, t)
            ])
  ]

  answer-Answered :
      (p : ℕ) (m : Machine S) (call : Outcome (ℕ × Machine S))
      → Ensures (KeepsFrames p m) call
      → Ensures (Answered (m.kernel.proc p).tf m) (and_then call (λ (v, m1). set_result p v m1))
  unfolding set_result
  answer-Answered p m call h =
      Ensures-bind (KeepsFrames p m) (Answered (m.kernel.proc p).tf m) call _ h
        λ (v, m1) (f, t). rw (f, t) ((λ x n. ground arith), ground arith, (λ i n. ground arith))

  sleep_call-Answered :
      (allocator : PageAllocator S) (env : Env) (p : ℕ) (m : Machine S)
      → Ensures (Answered (m.kernel.proc p).tf m) (sleep_call allocator env p m)
  unfolding sleep_call set_result
  sleep_call-Answered allocator env p m =
      let (r, k) = sys_sleep_ms env.time p (reg p 10 m) m.kernel in
      answer-Answered p m (returns (r, record m { kernel = k }))
        (refl, sys_sleep_ms-tf env.time p (reg p 10 m) m.kernel)

  module _ (allocator : PageAllocator S) (fuel : ℕ) (enough : ulong_mod ≤ fuel * page_size) where
    sys_sbrk-KeepsFrames :
        (p size : ℕ) (m : Machine S)
        → Ensures (KeepsFrames p m) (sys_sbrk allocator (suc fuel) p size m)
    unfolding sys_sbrk
    sys_sbrk-KeepsFrames p size m =
        let r = m.kernel.proc p in
        let old = align_up r.heap_end in
        let new = (old + align_up size) % ulong_mod in
        let top : old < ulong_mod = align_up-bound r.heap_end in
        elim (Bool-cases ((p == 0) || (size == 0))) [
          | inl e ↦ rw e (refl, refl)
          | inr e ↦ elim (Bool-cases (ltb new r.heap_start || ltb user_heap_end new)) [
            | inl f ↦ rw (e, f) (refl, refl)
            | inr f ↦ elim (Bool-cases (not (align_up size == 0) && ltb (align_up size) (2 ^ 63))) [
              | inl g ↦
                  rw (e, f, g)
                    (Ensures-bind (KeepsKernel m) (KeepsFrames p m)
                      (grow allocator (suc fuel) r.pagetable old new m) _
                      (grow-KeepsKernel allocator fuel r.pagetable old new m
                        (omega (arith, enough)))
                      λ (whole, m1) (k, t). elim (Bool-cases whole) [
                        | inl w ↦
                            rw w (t, set_heap_end-tf p new m1.kernel ∙ ap (λ x. (x.proc p).tf) k)
                        | inr w ↦ rw w (t, ap (λ x. (x.proc p).tf) k)
                      ])
              | inr g ↦
                  rw (e, f, g)
                    (Ensures-bind (KeepsKernel m) (KeepsFrames p m)
                      (shrink allocator (suc fuel) false r.pagetable new old m) _
                      (shrink-KeepsKernel allocator fuel false r.pagetable new old m
                        (omega (arith, top, enough)))
                      λ (whole, m1) (k, t).
                        (t, set_heap_end-tf p new m1.kernel ∙ ap (λ x. (x.proc p).tf) k))
            ]
          ]
        ]

    sys_munmap-KeepsFrames :
        (p addr size : ℕ) (m : Machine S)
        → Ensures (KeepsFrames p m) (sys_munmap allocator (suc fuel) p addr size m)
    unfolding sys_munmap
    sys_munmap-KeepsFrames p addr size m =
        let end = align_up ((addr + size) % ulong_mod) in
        let top : end < ulong_mod = align_up-bound ((addr + size) % ulong_mod) in
        let pt = (m.kernel.proc p).pagetable in
        elim (Bool-cases ((p == 0) || (size == 0) || not (addr % page_size == 0))) [
          | inl e ↦ rw e (refl, refl)
          | inr e ↦ rw e (
              Ensures-bind (KeepsKernel m) (KeepsFrames p m)
                (shrink allocator (suc fuel) true pt addr end m) _
                (shrink-KeepsKernel allocator fuel true pt addr end m (omega (arith, top, enough)))
                λ (whole, m1) (k, t). (t, ap (λ x. (x.proc p).tf) k))
        ]

    syscall_handler-Answered :
        (env : Env) (p : ℕ) (m : Machine S)
        → env.fuel ≡ suc fuel
        → Ensures (Answered (m.kernel.proc p).tf m) (syscall_handler allocator env p m)
    unfolding syscall_handler
    syscall_handler-Answered env p m e =
        let a0 = reg p 10 m in
        let a1 = reg p 11 m in
        let a2 = reg p 12 m in
        let same : (k : Kernel)
            → Ensures (Answered (m.kernel.proc p).tf m) (returns (tt, record m { kernel = k })) =
          λ k. ((λ t n. refl), refl, (λ i n. refl)) in
        let sbrk : Ensures (KeepsFrames p m) (sys_sbrk allocator env.fuel p a0 m) =
          rw e (sys_sbrk-KeepsFrames p a0 m) in
        let munmap : Ensures (KeepsFrames p m) (sys_munmap allocator env.fuel p a0 a1 m) =
          rw e (sys_munmap-KeepsFrames p a0 a1 m) in
        let num = uint (reg p 17 m) in
        elim (Bool-cases (num == sys_write_num)) [
          | inl e0 ↦
              rw e0 (answer-Answered p m _ (sys_write-KeepsFrames p (uint a0) a1 (uint a2) m))
          | inr n0 ↦ elim (Bool-cases (num == sys_read_num)) [
            | inl e1 ↦
                rw (n0, e1)
                  (answer-Answered p m _ (sys_read-KeepsFrames p (uint a0) a1 (uint a2) m))
            | inr n1 ↦ elim (Bool-cases (num == sys_exit_num)) [
              | inl e2 ↦ rw (n0, n1, e2) (same (set_needs_sched 1 (set_state p zombie m.kernel)))
              | inr n2 ↦ elim (Bool-cases (num == sys_getpid_num)) [
                | inl e3 ↦
                    rw (n0, n1, n2, e3)
                      (answer-Answered p m (returns ((m.kernel.proc p).pid, m)) (refl, refl))
                | inr n3 ↦ elim (Bool-cases (num == sys_yield_num)) [
                  | inl e4 ↦ rw (n0, n1, n2, n3, e4) (same (set_needs_sched 1 m.kernel))
                  | inr n4 ↦ elim (Bool-cases (num == sys_sleep_ms_num)) [
                    | inl e5 ↦ rw (n0, n1, n2, n3, n4, e5) (sleep_call-Answered allocator env p m)
                    | inr n5 ↦ elim (Bool-cases (num == sys_sbrk_num)) [
                      | inl e6 ↦ rw (n0, n1, n2, n3, n4, n5, e6) (answer-Answered p m _ sbrk)
                      | inr n6 ↦ elim (Bool-cases (num == sys_munmap_num)) [
                        | inl e7 ↦
                            rw (n0, n1, n2, n3, n4, n5, n6, e7) (answer-Answered p m _ munmap)
                        | inr n7 ↦
                            rw (n0, n1, n2, n3, n4, n5, n6, n7)
                              (answer-Answered p m (returns (minus_one, m)) (refl, refl))
                      ]
                    ]
                  ]
                ]
              ]
            ]
          ]
        ]

-- What a system call leaves of the trap frames: the caller's goes on after the `ecall`, with no
-- register changed but the one of the answer, and no other frame is touched.
pub record Resumes {S : Type 0} (tf : ℕ) (m m' : Machine S) : Type 0 where
  pub others : (t : ℕ) → t ≢ tf → m'.frames t ≡ m.frames t
  pub after_ecall : (m'.frames tf).sepc ≡ ((m.frames tf).sepc + 4) % ulong_mod
  pub regs : (i : ℕ) → i ≢ 10 → (m'.frames tf).regs i ≡ (m.frames tf).regs i

trap_end-frames :
    {S : Type 0} (allocator : PageAllocator S) (env : Env) (tf : ℕ) (m m1 : Machine S)
    → Resumes tf m m1
    → Ensures (λ (switch, m'). Resumes tf m m') (trap_end allocator env m1)
unfolding trap_end
trap_end-frames allocator env tf m m1 r = elim (Bool-cases (m1.kernel.cpu.needs_sched == 0)) [
  | inl e ↦ rw e r
  | inr e ↦ rw e (record { others = r.others; after_ecall = r.after_ecall; regs = r.regs })
]

-- An ecall from user mode by a current process that is not idle and whose frame does not record
-- the cause 5, of whatever number and arguments, with fuel for every page of the address space:
-- trap_handler ends unless the hart waits for ever, the caller's saved sepc is 4 further on, no
-- saved register but a0 is changed, and no other trap frame.
pub trap_handler-Resumes :
    {S : Type 0} (allocator : PageAllocator S) (env : Env) (fuel cause : ℕ) (m : Machine S)
    → env.fuel ≡ suc fuel
    → ulong_mod ≤ fuel * page_size
    → m.kernel.cpu.proc ≢ 0
    → (m.kernel.proc m.kernel.cpu.proc).is_idle ≡ 0
    → scause_code cause ≡ 8
    → scause_code (m.frames (m.kernel.proc m.kernel.cpu.proc).tf).scause ≢ 5
    → Ensures
        (λ (switch, m'). Resumes (m.kernel.proc m.kernel.cpu.proc).tf m m')
        (trap_handler allocator env cause (m.kernel.proc m.kernel.cpu.proc).tf m)
unfolding trap_handler trap_switch skip_ecall
trap_handler-Resumes allocator env fuel cause m f enough n i c s =
    let p = m.kernel.cpu.proc in
    let tf = (m.kernel.proc p).tf in
    let frame = m.frames tf in
    let skipped = record frame { sepc = (frame.sepc + 4) % ulong_mod } in
    let m0 = record m { frames = λ t. if t == tf then skipped else m.frames t } in
    let user : (not (p == 0) && not ((m.kernel.proc p).is_idle == 0)) ≡ false = ground arith in
    let fine : (scause_code frame.scause == 5) ≡ false = ==-false _ _ s in
    let here : (p == 0) ≡ false = ==-false _ _ n in
    let called = syscall_handler-Answered allocator fuel enough env p m0 f in
    rw (user, fine, here, c)
      (Ensures-bind (Answered tf m0) (λ (switch, m'). Resumes tf m m')
        (syscall_handler allocator env p m0) _ called
        λ (u, m1) (o, a, r). trap_end-frames allocator env tf m m1 (record {
          others = λ t d. o t d ∙ ground arith;
          after_ecall = a ∙ ground arith;
          regs = λ j d. r j d ∙ ground arith;
        }))
