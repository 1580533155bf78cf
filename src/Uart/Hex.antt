-- ===== src/Uart/Hex.antt =====
-- `uart_puthex` of kernel/uart.c against the value that hexadecimal digits have.
use system_n.Base.{
  ℕ, zero, suc, ◌+◌, ◌-◌, ◌*◌, ◌/◌, ◌%◌, ◌^◌, ◌<◌, ◌≡◌, refl, List, [], ◌∷◌, ◌++◌, arith, ltb,
  if◌then◌else◌, ◌∙◌, sym, ap, length,
}
use native.Mathlib.Nat.{div-div-eq-div-mul, pow-suc}
use mathlib.Core.List.{append_assoc, append-nil}
use system_n.Uart.{Uart, uart_putc, hex_digit, puthex_loop, uart_puthex}

-- What a digit stands for.
abbrev pub nibble_of : ℕ → ℕ
nibble_of c = if ltb c b'a' then c - b'0' else c + 10 - b'a'

abbrev pub hex_value : ℕ → List ℕ → ℕ
hex_value acc [] = acc
hex_value acc (c ∷ s) = hex_value (acc * 16 + nibble_of c) s

nibble_of-hex_digit : (n : ℕ) → n < 16 → nibble_of (hex_digit n) ≡ n
nibble_of-hex_digit n h = ground arith

abbrev hex_digits : ℕ → ℕ → List ℕ
hex_digits zero x = []
hex_digits (suc i) x = hex_digit (x / 2 ^ (i * 4) % 16) ∷ hex_digits i x

puthex_loop-hex_digits :
    (i x : ℕ) (u : Uart) → puthex_loop i x u ≡ record u { sent = u.sent ++ hex_digits i x }
unfolding puthex_loop uart_putc
puthex_loop-hex_digits zero x u = rw (append-nil u.sent)
puthex_loop-hex_digits (suc i) x u = rw (
  puthex_loop-hex_digits i x (uart_putc (hex_digit (x / 2 ^ (i * 4) % 16)) u),
  append_assoc u.sent (hex_digit (x / 2 ^ (i * 4) % 16) ∷ []) (hex_digits i x),
)

length-hex_digits : (i x : ℕ) → length (hex_digits i x) ≡ i
length-hex_digits zero x = refl
length-hex_digits (suc i) x = omega (arith, length-hex_digits i x)

digits_worth :
    (i x acc : ℕ)
    → hex_value acc (hex_digits (suc i) x)
      ≡ hex_value (acc * 16 + x / 2 ^ (i * 4) % 16) (hex_digits i x)
digits_worth i x acc =
    ap (λ t. hex_value (acc * 16 + t) (hex_digits i x))
      (nibble_of-hex_digit (x / 2 ^ (i * 4) % 16) (omega arith))

four_more : (k n : ℕ) → n ≡ suc (suc (suc (suc k))) → 2 ^ n ≡ 2 ^ k * 16
four_more k n e = rw e (
    omega (
      arith,
      pow-suc 2 k,
      pow-suc 2 (suc k),
      pow-suc 2 (suc (suc k)),
      pow-suc 2 (suc (suc (suc k))),
    ))

-- One more place of a quotient.
place : (i x : ℕ) → x / 2 ^ (suc i * 4) * 16 + x / 2 ^ (i * 4) % 16 ≡ x / 2 ^ (i * 4)
place i x =
    let e : 2 ^ (suc i * 4) ≡ 2 ^ (i * 4) * 16 = four_more (i * 4) (suc i * 4) (omega arith) in
    let f : x / 2 ^ (suc i * 4) ≡ x / 2 ^ (i * 4) / 16 =
      rw e (sym (div-div-eq-div-mul x (2 ^ (i * 4)) 16)) in
    omega (arith, f)

-- The digits from place `i` down complete the number of the places above.
hex_value-hex_digits : (i x : ℕ) → hex_value (x / 2 ^ (i * 4)) (hex_digits i x) ≡ x
hex_value-hex_digits zero x = omega arith
hex_value-hex_digits (suc i) x =
    digits_worth i x (x / 2 ^ (suc i * 4)) ∙ rw (place i x) (hex_value-hex_digits i x)

-- uart_puthex sends, for every 64-bit value, 0x and 16 digits that read back as the value.
pub uart_puthex-hex_value :
    (x : ℕ) (u : Uart)
    → x < 2 ^ 64
    → (s : List ℕ) × (uart_puthex x u ≡ record u { sent = u.sent ++ b'0' ∷ b'x' ∷ s })
      × (length s ≡ 16)
      × (hex_value 0 s ≡ x)
unfolding uart_puthex uart_putc
uart_puthex-hex_value x u h = (
  hex_digits 16 x,
  puthex_loop-hex_digits 16 x (uart_putc b'x' (uart_putc b'0' u))
      ∙ rw (
        append_assoc (u.sent ++ b'0' ∷ []) (b'x' ∷ []) (hex_digits 16 x),
        append_assoc u.sent (b'0' ∷ []) (b'x' ∷ hex_digits 16 x),
      ),
  length-hex_digits 16 x,
  (let top : x / 2 ^ (16 * 4) ≡ 0 = omega arith in rw top at (hex_value-hex_digits 16 x)),
)
