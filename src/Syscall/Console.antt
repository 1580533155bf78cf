-- ===== src/Syscall/Console.antt =====
-- `sys_write` and `sys_read` of kernel/syscall.c, and the copies of kernel/mm/user_copy.h.
use system_n.Base.{
  ℕ, zero, suc, ◌+◌, ◌-◌, ◌≤◌, ◌<◌, ◌≡◌, ◌⊎◌, inl, inr, refl, Bool, true, false, not, ◌&&◌, List,
  [], ◌∷◌, ◌++◌, arith, ◌==◌, if◌then◌else◌, length, Bool-cases,
}
use system_n.Uart.Lines.{text, Reaches, uart_putsn-text, line, Completes, uart_gets-line}
use system_n.PageTable.{minus_one}
use system_n.Machine.{Machine, returns, stuck}
use system_n.Syscall.{
  user_end_va, is_user_addr, user_read, user_write, reachable, load, store, after_access,
  copy_from_user, copy_to_user, clip, sys_write, sys_read,
}

-- A range that `is_user_addr` accepts is not empty, and ends below the end of user memory.
pub is_user_addr-below :
    (va len : ℕ) → is_user_addr va len ≡ true → (0 < len) × (va + len < user_end_va)
unfolding is_user_addr
is_user_addr-below va len h = ground arith

pub store-outside :
    (a : ℕ) (bs : List ℕ) (m : ℕ → ℕ) (x : ℕ) → (x < a) ⊎ (a + length bs ≤ x) → store a bs m x ≡ m x
store-outside a [] m x h = refl
store-outside a (b ∷ bs) m x h =
    let ne : (x == a) ≡ false = ground arith in rw ne (store-outside (a + 1) bs m x (ground arith))

Reaches-load : (len a : ℕ) (m : ℕ → ℕ) → Reaches len (load a len m)
Reaches-load zero a m = tt
Reaches-load (suc len) a m = λ n. Reaches-load len (a + 1) m

abbrev pub is_output : ℕ → Bool
is_output fd = not (not (fd == 1) && not (fd == 2))

module _ {S : Type 0} (m : Machine S) where
  -- What `sys_write` sends: the bytes at the buffer up to a zero, 64 at most.
  abbrev pub output : ℕ → ℕ → List ℕ
  output user_buf len = text (clip len) (load user_buf (clip len) m.user)

  -- sys_write to 1 or 2 of a range that is_user_addr accepts sends the bytes up to a zero, 64 at
  -- most, and answers their number if the range is mapped to read, and halts if not; otherwise it
  -- answers -1 and changes nothing.
  pub sys_write_lem :
      (fd user_buf len : ℕ)
      → sys_write fd user_buf len m ≡ (
          if is_output fd && is_user_addr user_buf (clip len)
          then if reachable user_read m.vm m.kernel.satp user_buf (clip len)
            then returns (
              length (output user_buf len),
              record m {
                uart = record (m.uart) { sent = m.uart.sent ++ output user_buf len };
                sstatus = after_access m.sstatus;
              },
            )
            else stuck
          else returns (minus_one, m))
  unfolding sys_write copy_from_user
  sys_write_lem fd user_buf len = elim (Bool-cases (is_output fd)) [
    | inr e ↦ let t : (not (fd == 1) && not (fd == 2)) ≡ true = ground (arith, e) in rw t
    | inl e ↦
        let t : (not (fd == 1) && not (fd == 2)) ≡ false = ground (arith, e) in
        elim (Bool-cases (is_user_addr user_buf (clip len))) [
          | inr u ↦ rw (t, u)
          | inl u ↦
              let buf = load user_buf (clip len) m.user in
              elim (Bool-cases (reachable user_read m.vm m.kernel.satp user_buf (clip len))) [
                | inr f ↦ rw (t, u, f)
                | inl r ↦ rw (
                  t,
                  u,
                  r,
                  uart_putsn-text (clip len) buf m.uart (Reaches-load (clip len) user_buf m.user),
                )
              ]
        ]
  ]

  -- What `sys_read` reads: a line of the bytes that arrive, as long as the buffer has room for.
  abbrev pub input : ℕ → List ℕ
  input len = line (clip len - 1) m.uart.arriving

  -- sys_read from 0 with a length of at least 1, once a line arrives, reads and echoes one line
  -- that its buffer has room for, stores it and answers its length if the range lies in user
  -- memory and is mapped to write, halts if it is not mapped, and answers -1 if it does not lie there.
  pub sys_read_lem :
      (user_buf len : ℕ)
      → 0 < len
      → Completes (clip len - 1) m.uart.arriving
      → (rest : List ℕ) × (length (input len) + length rest ≡ length m.uart.arriving)
        × (length (input len) < clip len)
        × (sys_read 0 user_buf len m ≡ (
            let echoed = record m {
              uart = record { sent = m.uart.sent ++ input len; arriving = rest };
            } in
            if is_user_addr user_buf (length (input len))
            then if reachable user_write m.vm m.kernel.satp user_buf (length (input len))
              then returns (
                length (input len),
                record echoed {
                  user = store user_buf (input len) m.user;
                  sstatus = after_access m.sstatus;
                },
              )
              else stuck
            else returns (minus_one, echoed)))
  unfolding sys_read copy_to_user
  sys_read_lem user_buf len pos c =
      let (rest, g, l, b) = uart_gets-line (clip len) m.uart (ground arith) c in
      (
        rest,
        l,
        b,
        elim (Bool-cases (is_user_addr user_buf (length (input len)))) [
          | inl u ↦
              elim (Bool-cases
                (reachable user_write m.vm m.kernel.satp user_buf (length (input len)))) [
                  | inl r ↦ rw (g, u, r)
                  | inr f ↦ rw (g, u, f)
                ]
          | inr u ↦ rw (g, u)
        ],
      )
