-- ===== src/Uart/Decimal.antt =====
-- `uart_putlong` of kernel/uart.c against the value that decimal digits have.
use system_n.Base.{
  ℕ, zero, suc, ◌+◌, ◌-◌, ◌*◌, ◌/◌, ◌%◌, ◌^◌, ◌<◌, ◌≤◌, ◌≡◌, ◌≢◌, refl, false, some, List, [], ◌∷◌,
  ◌++◌, arith, ◌==◌, if◌then◌else◌, Bool-cases, inl, inr,
}
use mathlib.Core.List.{append_assoc, append-nil}
use native.Mathlib.Nat.{pow-suc}
use system_n.Uart.{Uart, uart_putc, uart_puts, putlong_loop, uart_putlong}

-- The number that a string of decimal digits stands for, after `acc`.
abbrev pub value : ℕ → List ℕ → ℕ
value acc [] = acc
value acc (c ∷ s) = value (acc * 10 + (c - b'0')) s

abbrev pub AreDigits : List ℕ → Type 0
AreDigits [] = Unit
AreDigits (c ∷ s) = (b'0' ≤ c) × (c ≤ b'9') × AreDigits s

-- A string of bytes that are not 0 is sent whole.
pub uart_puts-sent :
    (s t : List ℕ) (u : Uart)
    → AreDigits s
    → uart_puts (s ++ 0 ∷ t) u ≡ some (record u { sent = u.sent ++ s })
unfolding uart_puts uart_putc
uart_puts-sent [] t u d = rw (append-nil u.sent)
uart_puts-sent (c ∷ s) t u d =
    let ne : (c == 0) ≡ false = ground arith in
    rw (ne, uart_puts-sent s t (uart_putc c u) d.2, append_assoc u.sent (c ∷ []) s)

-- What the loop puts before `buf`.
digits_of : ℕ → ℕ → List ℕ
digits_of zero val = []
digits_of (suc slots) val =
    let rest = digits_of slots (val / 10) ++ (b'0' + val % 10) ∷ [] in if val == 0 then [] else rest

putlong_loop-digits_of :
    (slots val : ℕ) (buf : List ℕ) → putlong_loop slots val buf ≡ digits_of slots val ++ buf
unfolding putlong_loop digits_of
putlong_loop-digits_of zero val buf = refl
putlong_loop-digits_of (suc slots) val buf = elim (Bool-cases (val == 0)) [
  | inl e ↦ rw e
  | inr e ↦ rw (
    e,
    putlong_loop-digits_of slots (val / 10) ((b'0' + val % 10) ∷ buf),
    append_assoc (digits_of slots (val / 10)) ((b'0' + val % 10) ∷ []) buf,
  )
]

value-append :
    (acc : ℕ) (s : List ℕ) (c : ℕ) → value acc (s ++ c ∷ []) ≡ value acc s * 10 + (c - b'0')
value-append acc [] c = refl
value-append acc (d ∷ s) c = value-append (acc * 10 + (d - b'0')) s c

AreDigits-append :
    (s : List ℕ) (c : ℕ) → AreDigits s → b'0' ≤ c → c ≤ b'9' → AreDigits (s ++ c ∷ [])
AreDigits-append [] c d l h = (l, h, tt)
AreDigits-append (x ∷ s) c d l h = (d.0, d.1, AreDigits-append s c d.2 l h)

-- The first digit is not 0.
abbrev pub NoLeadingZero : List ℕ → Type 0
NoLeadingZero [] = ⊥
NoLeadingZero (c ∷ s) = c ≢ b'0'

NoLeadingZero-append : (s : List ℕ) (c : ℕ) → NoLeadingZero s → NoLeadingZero (s ++ c ∷ [])
NoLeadingZero-append (x ∷ s) c n = n
NoLeadingZero-append [] c n = elim n [ ]

pub record IsNumeral (val : ℕ) (s : List ℕ) : Type 0 where
  pub digits : AreDigits s
  pub worth : value 0 s ≡ val

digits_of-IsNumeral : (slots val : ℕ) → val < 10 ^ slots → IsNumeral val (digits_of slots val)
unfolding digits_of
digits_of-IsNumeral zero val h = record { digits = tt; worth = omega arith }
digits_of-IsNumeral (suc slots) val h = elim (Bool-cases (val == 0)) [
  | inl e ↦ rw e (record { digits = tt; worth = ground arith })
  | inr e ↦
      let ih = digits_of-IsNumeral slots (val / 10) (omega (arith, pow-suc 10 slots)) in
      let s = digits_of slots (val / 10) in
      rw e (record {
        digits = AreDigits-append s (b'0' + val % 10) ih.digits (omega arith) (omega arith);
        worth = omega (arith, value-append 0 s (b'0' + val % 10), ih.worth);
      })
]

digits_of-zero : (slots : ℕ) → digits_of slots 0 ≡ []
unfolding digits_of
digits_of-zero zero = refl
digits_of-zero (suc slots) = refl

digits_of-NoLeadingZero :
    (slots val : ℕ) → val < 10 ^ slots → val ≢ 0 → NoLeadingZero (digits_of slots val)
unfolding digits_of
digits_of-NoLeadingZero zero val h n = absurd (n (omega arith))
digits_of-NoLeadingZero (suc slots) val h n =
    let ne : (val == 0) ≡ false = ground arith in
    elim (Bool-cases (val / 10 == 0)) [
      | inl e ↦
          let small : val / 10 ≡ 0 = ground arith in
          rw (ne, small, digits_of-zero slots) (λ q. n (omega arith))
      | inr e ↦ rw ne (
          NoLeadingZero-append (digits_of slots (val / 10)) (b'0' + val % 10) (
            digits_of-NoLeadingZero slots (val / 10) (omega (arith, pow-suc 10 slots))
              (ground arith)))
    ]

-- uart_putlong sends, for every 64-bit value, decimal digits that read back as the value, with no
-- leading zero unless the value is 0.
pub uart_putlong-IsNumeral :
    (val : ℕ) (u : Uart)
    → val < 2 ^ 64
    → (s : List ℕ) × (uart_putlong val u ≡ some (record u { sent = u.sent ++ s }))
      × IsNumeral val s
      × (val ≢ 0 → NoLeadingZero s)
unfolding uart_putlong uart_putc
uart_putlong-IsNumeral val u h = elim (Bool-cases (val == 0)) [
  | inl e ↦ (
    b'0' ∷ [],
    rw e,
    record { digits = (omega arith, omega arith, tt); worth = ground arith },
    λ n. ground arith,
  )
  | inr e ↦
      let s = digits_of 20 val in
      let num = digits_of-IsNumeral 20 val (omega arith) in
      (
        s,
        rw (e, putlong_loop-digits_of 20 val (0 ∷ [])) (uart_puts-sent s [] u num.digits),
        num,
        digits_of-NoLeadingZero 20 val (omega arith),
      )
]
