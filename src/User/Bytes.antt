-- ===== src/User/Bytes.antt =====
-- Bytes in the memory of a program, as kernel/syscall.c and kernel/uart.c take and give them.
use system_n.Base.{
  ℕ, zero, suc, ◌+◌, ◌≤◌, ◌<◌, ◌≡◌, ◌⊎◌, refl, true, false, List, [], ◌∷◌, length, arith, ◌==◌, ◌∙◌,
  Bool-cases, inl, inr, ==_refl,
}
use system_n.Uart.Lines.{text, key, line, Completes}
use system_n.PageTable.{Vm}
use system_n.Syscall.{can_access, reachable, is_user_addr, user_end_va, load, store}
use system_n.Str.{Memory}

-- The bytes from an address on.
abbrev pub Holds : ℕ → List ℕ → Memory → Type 0
Holds a [] m = Unit
Holds a (b ∷ bs) m = (m a ≡ b) × Holds (a + 1) bs m

Holds-from :
    (a : ℕ) (bs : List ℕ) (m m' : Memory)
    → ((x : ℕ) → a ≤ x → m' x ≡ m x)
    → Holds a bs m
    → Holds a bs m'
Holds-from a [] m m' e h = tt
Holds-from a (b ∷ bs) m m' e (h, hs) =
    (e a (omega arith) ∙ h, Holds-from (a + 1) bs m m' (λ x l. e x (omega (arith, l))) hs)

pub store-Holds : (a : ℕ) (bs : List ℕ) (m : Memory) → Holds a bs (store a bs m)
store-Holds a [] m = tt
store-Holds a (b ∷ bs) m = (
  rw (==_refl a) refl,
  Holds-from (a + 1) bs (store (a + 1) bs m) (store a (b ∷ bs) m)
      (λ x l. let d : (x == a) ≡ false = ground (arith, l) in rw d refl) (store-Holds (a + 1) bs m),
)

-- Reading no further than the bytes go, and than `len`, is enough for the text of `len` of them.
pub text-load :
    (k len a : ℕ) (bs : List ℕ) (m : Memory)
    → Holds a bs m
    → k ≤ len
    → k ≤ length bs
    → (len ≤ k) ⊎ (length bs ≤ k)
    → text k (load a k m) ≡ text len bs
text-load zero zero a bs m h x y c = refl
text-load zero (suc len) a [] m h x y c = refl
text-load zero (suc len) a (b ∷ bs) m h x y c = absurd (ground (arith, c))
text-load (suc k) zero a bs m h x y c = absurd (omega (arith, x))
text-load (suc k) (suc len) a [] m h x y c = absurd (omega (arith, y))
text-load (suc k) (suc len) a (b ∷ bs) m (h, hs) x y c =
    rw
      (h, text-load k len (a + 1) bs m hs (omega (arith, x)) (omega (arith, y)) (ground (arith, c)))
      refl

pub line-length :
    (room : ℕ) (keys : List ℕ)
    → Completes room keys
    → (0 < room → 0 < length (line room keys)) × (length (line room keys) ≤ room)
line-length zero keys c = (λ p. p, omega arith)
line-length (suc room) [] c = elim c [ ]
line-length (suc room) (r ∷ keys) c = elim (Bool-cases (key r == b'\n')) [
  | inl e ↦ rw e (λ p. omega arith, omega arith)
  | inr e ↦
      let (a, b) = line-length room keys (c (ground (arith, e))) in
      rw e (λ p. omega arith, omega (arith, b))
]

pub fits-is_user_addr :
    (buf n : ℕ) → 0 < n → n ≤ 63 → buf + 64 < user_end_va → is_user_addr buf n ≡ true
unfolding is_user_addr
fits-is_user_addr buf n p l f = ground (arith, p, l, f)

-- Each of `n` addresses from `a` on may be accessed with these flags.
abbrev pub Mapped : {S : Type 0} → ℕ → Vm S → ℕ → ℕ → ℕ → Type 0
Mapped perm vm satp a n = (x : ℕ) → a ≤ x → x < a + n → can_access perm vm satp x ≡ true

pub Mapped-reachable :
    {S : Type 0} (perm : ℕ) (vm : Vm S) (satp a n b len : ℕ)
    → Mapped perm vm satp a n
    → a ≤ b
    → b + len ≤ a + n
    → reachable perm vm satp b len ≡ true
unfolding reachable
Mapped-reachable perm vm satp a n b zero h l e = refl
Mapped-reachable perm vm satp a n b (suc len) h l e =
    rw (h b l (omega (arith, e)))
      (Mapped-reachable perm vm satp a n (b + 1) len h (omega (arith, l)) (omega (arith, e)))
