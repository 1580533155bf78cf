-- ===== src/Uart.antt =====
-- kernel/uart.c: the console. The bytes that were sent and those that will arrive are lists; a C
-- string is the bytes from its pointer to the end of its object.
pub mod Decimal
pub mod Hex
pub mod Lines
use system_n.Base.{
  ℕ, zero, suc, ◌+◌, ◌-◌, ◌*◌, ◌/◌, ◌%◌, ◌^◌, ◌≡◌, Bool, true, false, Option, none, some, List, [],
  ◌∷◌, ◌++◌, ltb, ◌==◌, if◌then◌else◌,
}

pub record Uart : Type 0 where
  pub sent : List ℕ
  pub arriving : List ℕ

unfoldable pub uart_putc : ℕ → Uart → Uart
uart_putc c u = record u { sent = u.sent ++ c ∷ [] }

-- `none`: the string has no terminator, and the loop reads past its object.
unfoldable pub uart_puts : List ℕ → Uart → Option Uart
uart_puts [] u = none
uart_puts (c ∷ s) u = let rest = uart_puts s (uart_putc c u) in if c == 0 then some u else rest

-- At most `len` bytes, and their number; with `len` at 0 the string is not read.
unfoldable pub uart_putsn : List ℕ → ℕ → ℕ → Uart → Option (ℕ × Uart)
uart_putsn s zero written u = some (written, u)
uart_putsn [] (suc len) written u = none
uart_putsn (c ∷ s) (suc len) written u =
    let rest = uart_putsn s len (written + 1) (uart_putc c u) in
    if c == 0 then some (written, u) else rest

abbrev pub hex_digit : ℕ → ℕ
hex_digit nibble = if ltb nibble 10 then b'0' + nibble else b'a' + nibble - 10

-- The loop from `i - 1` down to 0.
unfoldable pub puthex_loop : ℕ → ℕ → Uart → Uart
puthex_loop zero x u = u
puthex_loop (suc i) x u = puthex_loop i x (uart_putc (hex_digit (x / 2 ^ (i * 4) % 16)) u)

unfoldable pub uart_puthex : ℕ → Uart → Uart
uart_puthex x u = puthex_loop 16 x (uart_putc b'x' (uart_putc b'0' u))

-- The loop that fills `buf` from its end: `slots` is `i + 1`, the bytes left before what is filled.
unfoldable pub putlong_loop : ℕ → ℕ → List ℕ → List ℕ
putlong_loop zero val buf = buf
putlong_loop (suc slots) val buf =
    let rest = putlong_loop slots (val / 10) ((b'0' + val % 10) ∷ buf) in
    if val == 0 then buf else rest

unfoldable pub uart_putlong : ℕ → Uart → Option Uart
uart_putlong val u =
    if val == 0 then some (uart_putc b'0' u) else uart_puts (putlong_loop 20 val (0 ∷ [])) u

-- `none`: nothing arrives any more, and the loop polls for ever.
unfoldable pub uart_getc : Uart → Option (ℕ × Uart)
uart_getc u = elim u.arriving [ [] ↦ none | c ∷ rest ↦ some (c, record u { arriving = rest }) ]

-- The loop of `uart_gets`: `room` is `maxlen - 1 - i`, `buf` the bytes before `buf[i]`.
unfoldable pub gets_loop : ℕ → List ℕ → Uart → Option (List ℕ × Uart)
unfolding uart_getc uart_putc
gets_loop zero buf u = some (buf, u)
gets_loop (suc room) buf u = elim (uart_getc u) [
  | none ↦ none
  | some (r, u1) ↦
      (let c = if r == b'\r' then b'\n' else r in
        let u2 = uart_putc c u1 in
        let rest = gets_loop room (buf ++ c ∷ []) u2 in
        if c == b'\n' then some (buf ++ c ∷ [], u2) else rest)
]

-- The bytes before the terminator; their number is the result.
unfoldable pub uart_gets : ℕ → Uart → Option (List ℕ × Uart)
unfolding gets_loop
uart_gets maxlen u = gets_loop (maxlen - 1) [] u
