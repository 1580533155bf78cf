-- ===== src/Tests/Users.antt =====
-- Programs in user mode: kernel/user.h and kernel/shell.c.
use system_n.Base.{
  leb, ◌^◌, ◌+◌, ◌*◌, ◌<◌, ◌/◌, ◌%◌, some, none, false, ap, true, inl, ℕ, ◌≡◌, ◌⊎◌, inr, refl, List,
  [], ◌∷◌, arith, ◌==◌, if◌then◌else◌,
}
use Prim.Native.Nat.{bit_and, bit_or}
use system_n.Proc.{make_satp}
use system_n.PageTable.{va_offset, phys_to_virt, pa2pte, pte_v, leaf}
use system_n.PageTable.Shape.{lookup}
use system_n.Machine.{Machine}
use system_n.Syscall.{user_read, user_write, can_access, load}
use system_n.Str.{Memory}
use system_n.Uart.Lines.{text, line, Completes}
use system_n.User.{Arrays, write, streq_loop, streq, shell_arrays, after_sleep}
use system_n.User.Calls.{IsUser, Ends, Written, write-Written}
use system_n.User.Compare.{Agree, streq-Agree}
use system_n.User.Bytes.{Mapped}
use system_n.User.Shell.{IsShell, Prompted, shell_round-Prompted, after_sleep-Ends}
use system_n.Tests.Devices.{free_list, machine}
use system_n.Tests.Traps.{env}

-- Three tables from 0x80100000 on, which map every page of the first 2 MB, to read and write.
abbrev user_tables : ℕ → ℕ
user_tables x =
    if leb (phys_to_virt 0x8010_2000) x
    then leaf 0x8020_0000 22
    else if leb (phys_to_virt 0x8010_1000) x
    then bit_or (pa2pte 0x8010_2000) pte_v
    else bit_or (pa2pte 0x8010_1000) pte_v

abbrev at_rest : Machine (List ℕ)
at_rest = record machine {
  kernel = record (machine.kernel) {
    cpu = record (machine.kernel.cpu) { needs_sched = 0 };
    satp = make_satp 0x8010_0000;
  };
  vm = record (machine.vm) { words = user_tables; offset = va_offset };
}

low-lookup :
    (x : ℕ) → x < 2 ^ 21 → lookup va_offset 2 0x8010_0000 x user_tables ≡ some (leaf 0x8020_0000 22)
unfolding lookup
low-lookup x h =
    let e2 : x / 2 ^ 30 % 512 ≡ 0 = omega (arith, h) in
    let e1 : x / 2 ^ 21 % 512 ≡ 0 = omega (arith, h) in
    let here : leb (phys_to_virt 0x8010_2000) (phys_to_virt 0x8010_2000 + 8 * (x / 2 ^ 12 % 512))
        ≡ true =
      ground arith in
    rw (lookup, e2, e1, here) refl

low-Mapped :
    (perm a n : ℕ)
    → a + n < 2 ^ 21
    → (perm ≡ user_read) ⊎ (perm ≡ user_write)
    → Mapped perm at_rest.vm at_rest.kernel.satp a n
unfolding can_access make_satp
low-Mapped perm a n h p x l b = elim p [
  | inl e ↦ rw e (
      ap (λ o. elim o [ none ↦ false | some pte ↦ bit_and pte user_read == user_read ])
        (low-lookup x (omega (arith, h, b))))
  | inr e ↦ rw e (
      ap (λ o. elim o [ none ↦ false | some pte ↦ bit_and pte user_write == user_write ])
        (low-lookup x (omega (arith, h, b))))
]

machine-IsUser : IsUser at_rest
machine-IsUser = record { current = omega arith; not_idle = refl; quiet = refl }

write-Written_example :
    Written free_list env at_rest machine-IsUser 0x2000 2
      (text 2 (load 0x2000 2 at_rest.user))
      (write 0x2000 2 at_rest.user)
      at_rest.user
write-Written_example = write-Written free_list env at_rest machine-IsUser 0x2000 2 at_rest.user

abbrev stack : Arrays
stack = record { buf = 0x7000; cmd_yield = 0x7100; prompt = 0x7200 }

abbrev start : Memory
start = shell_arrays stack λ x. 0

start-IsShell : IsShell stack start at_rest
unfolding shell_arrays
start-IsShell = record {
  fits_buf = omega arith;
  fits_prompt = omega arith;
  apart = inr (omega arith);
  begins = (refl, (refl, tt));
  writable = low-Mapped user_write 0x7000 128 (omega arith) (inr refl);
  prompt_readable = low-Mapped user_read 0x7200 3 (omega arith) (inl refl);
}

machine-Completes : Completes 63 (at_rest.uart.arriving)
machine-Completes _ _ z = absurd (z refl)

shell_round-Prompted_example :
    Prompted free_list env stack start at_rest (line 63 (at_rest.uart.arriving))
shell_round-Prompted_example =
    shell_round-Prompted free_list env stack start at_rest machine-IsUser start-IsShell
      machine-Completes

-- The line `hi` behind the prompt.
abbrev greeted : Memory
greeted x =
    if x == 0x7000
    then b'$'
    else if x == 0x7001
    then b' '
    else if x == 0x7002
    then b'h'
    else if x == 0x7003
    then b'i'
    else if x == 0x7004
    then 10
    else if x == 0x7100
    then b'y'
    else 0

greeted-differs : streq 0x7002 0x7100 5 greeted ≡ 0
unfolding streq streq_loop
greeted-differs = refl

after_sleep-Ends_example :
    Ends free_list env at_rest
      (after_sleep stack 3 0 greeted)
      5
      (b'$' ∷ b' ' ∷ b'h' ∷ b'i' ∷ 10 ∷ [])
      greeted
      at_rest.uart.arriving
after_sleep-Ends_example =
    after_sleep-Ends free_list env stack greeted (b'h' ∷ b'i' ∷ 10 ∷ []) 0 at_rest machine-IsUser
      (refl, (refl, (refl, (refl, (refl, tt))))) (omega arith) (omega arith)
      (low-Mapped user_read 0x7000 128 (omega arith) (inl refl)) greeted-differs

streq-Agree_example :
    ((streq 0x7002 0x7100 5 greeted ≡ 1) × Agree 0 5 0x7002 0x7100 greeted)
    ⊎ ((streq 0x7002 0x7100 5 greeted ≡ 0) × (Agree 0 5 0x7002 0x7100 greeted → ⊥))
streq-Agree_example = streq-Agree 0x7002 0x7100 5 greeted
