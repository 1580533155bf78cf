-- ===== src/Uart/Lines.antt =====
-- `uart_putsn` and `uart_gets` of kernel/uart.c: how much is sent, and how a line is read.
use system_n.Base.{
  ℕ, zero, suc, ◌+◌, ◌-◌, ◌≤◌, ◌<◌, ◌≡◌, ◌≢◌, some, List, [], ◌∷◌, ◌++◌, arith, ◌==◌, if◌then◌else◌,
  ◌∙◌, length, Bool-cases, inl, inr, ap, ==_iff,
}
use mathlib.Core.List.{append_assoc, append-nil}
use system_n.Uart.{Uart, uart_putc, uart_putsn, uart_getc, gets_loop, uart_gets}

-- The bytes of a string up to its terminator, and at most `len` of them.
abbrev pub text : ℕ → List ℕ → List ℕ
text zero s = []
text (suc len) [] = []
text (suc len) (c ∷ s) = if c == 0 then [] else c ∷ text len s

-- Either the string is terminated or it has as many bytes as are asked for.
abbrev pub Reaches : ℕ → List ℕ → Type 0
Reaches zero s = Unit
Reaches (suc len) [] = ⊥
Reaches (suc len) (c ∷ s) = c ≢ 0 → Reaches len s

uart_putsn-from :
    (len : ℕ) (s : List ℕ) (written : ℕ) (u : Uart)
    → Reaches len s
    → uart_putsn s len written u
      ≡ some (written + length (text len s), record u { sent = u.sent ++ text len s })
unfolding uart_putsn uart_putc
uart_putsn-from zero s written u r =
    ap some (rw (append-nil u.sent) (ap (λ n. (n, u)) (omega arith)))
uart_putsn-from (suc len) [] written u r = elim r [ ]
uart_putsn-from (suc len) (c ∷ s) written u r = elim (Bool-cases (c == 0)) [
  | inl e ↦ rw e (ap some (rw (append-nil u.sent) (ap (λ n. (n, u)) (omega arith))))
  | inr e ↦
      rw
        (
          e,
          uart_putsn-from len s (written + 1) (uart_putc c u) (r (ground arith)),
          append_assoc u.sent (c ∷ []) (text len s),
        )
        (ap (λ n. some (n, record u { sent = u.sent ++ c ∷ text len s })) (omega arith))
]

-- What the console echoes for a key: Enter is a carriage return, and becomes a newline.
abbrev pub key : ℕ → ℕ
key r = if r == b'\r' then b'\n' else r

-- The line that `maxlen - 1` places hold, of what arrives.
abbrev pub line : ℕ → List ℕ → List ℕ
line zero keys = []
line (suc room) [] = []
line (suc room) (r ∷ keys) = if key r == b'\n' then b'\n' ∷ [] else key r ∷ line room keys

-- Enough arrives: a newline, or as many bytes as there is room for.
abbrev pub Completes : ℕ → List ℕ → Type 0
Completes zero keys = Unit
Completes (suc room) [] = ⊥
Completes (suc room) (r ∷ keys) = key r ≢ b'\n' → Completes room keys

gets_loop-line :
    (room : ℕ) (keys buf sent : List ℕ)
    → Completes room keys
    → (rest : List ℕ) × (gets_loop room buf (record { sent = sent; arriving = keys })
        ≡ some (buf ++ line room keys, record { sent = sent ++ line room keys; arriving = rest }))
      × (length (line room keys) + length rest ≡ length keys)
unfolding gets_loop uart_getc uart_putc
gets_loop-line zero keys buf sent c = (keys, rw (append-nil buf, append-nil sent), omega arith)
gets_loop-line (suc room) [] buf sent c = elim c [ ]
gets_loop-line (suc room) (r ∷ keys) buf sent c = elim (Bool-cases (key r == b'\n')) [
  | inl e ↦ (
    keys,
    rw e (
        ap (λ k. some (buf ++ k ∷ [], record { sent = sent ++ k ∷ []; arriving = keys }))
          ((==_iff (key r) b'\n').0 e)),
    rw e (omega arith),
  )
  | inr e ↦
      let (rest, g, l) =
        gets_loop-line room keys (buf ++ key r ∷ []) (sent ++ key r ∷ []) (c (ground arith)) in
      (
        rest,
        rw e (
            g
            ∙ rw (
              append_assoc buf (key r ∷ []) (line room keys),
              append_assoc sent (key r ∷ []) (line room keys),
            )),
        rw e (omega (arith, l)),
      )
]

-- uart_putsn of bytes that are terminated or at least len sends the bytes before the terminator,
-- len at most, and returns their number.
pub uart_putsn-text :
    (len : ℕ) (s : List ℕ) (u : Uart)
    → Reaches len s
    → uart_putsn s len 0 u ≡ some (length (text len s), record u { sent = u.sent ++ text len s })
uart_putsn-text len s u r =
    uart_putsn-from len s 0 u r
    ∙ ap (λ n. some (n, record u { sent = u.sent ++ text len s })) (omega arith)

-- No more is sent than was asked for.
pub length-text : (len : ℕ) (s : List ℕ) → length (text len s) ≤ len
length-text zero s = omega arith
length-text (suc len) [] = omega arith
length-text (suc len) (c ∷ s) = ground (arith, length-text len s)

-- No more is read than there is room for.
pub length-line : (room : ℕ) (keys : List ℕ) → length (line room keys) ≤ room
length-line zero keys = omega arith
length-line (suc room) [] = omega arith
length-line (suc room) (r ∷ keys) = elim (Bool-cases (key r == b'\n')) [
  | inl e ↦ rw e (omega arith)
  | inr e ↦ rw e (omega (arith, length-line room keys))
]

-- uart_gets with a positive length, once a line or a bufferful arrives, returns and echoes that
-- line with a carriage return as a newline, consumes no more than it returns, and leaves room for
-- the terminator.
pub uart_gets-line :
    (maxlen : ℕ) (u : Uart)
    → 0 < maxlen
    → Completes (maxlen - 1) u.arriving
    → (rest : List ℕ) × (uart_gets maxlen u
        ≡ some (
          line (maxlen - 1) u.arriving,
          record { sent = u.sent ++ line (maxlen - 1) u.arriving; arriving = rest },
        ))
      × (length (line (maxlen - 1) u.arriving) + length rest ≡ length u.arriving)
      × (length (line (maxlen - 1) u.arriving) < maxlen)
unfolding uart_gets
uart_gets-line maxlen u pos c =
    let (rest, g, l) = gets_loop-line (maxlen - 1) u.arriving [] u.sent c in
    (rest, g, l, omega (arith, length-line (maxlen - 1) u.arriving))
