-- ===== src/Str/Copy.antt =====
-- `memcpy` and `memset` of kernel/string.c against their contracts, and the two string lengths
-- against each other.
use system_n.Base.{
  ℕ, zero, suc, ◌+◌, ◌-◌, ◌^◌, ◌<◌, ◌≤◌, ◌≡◌, ◌≢◌, refl, true, false, none, ==_iff, ==-false, ◌⊎◌,
  inl, inr, Bool, ◌&&◌, some, arith, ltb, leb, ◌==◌, ◌%◌, if◌then◌else◌, ◌∙◌, Bool-cases,
}
use system_n.Str.{
  Memory, write, memcpy, memset_loop, memset, strlen_loop, strlen, strnlen_loop, strnlen,
}

-- `x` is one of the `n` addresses from `a` on.
abbrev pub within : ℕ → ℕ → ℕ → Bool
within a n x = leb a x && ltb x (a + n)

-- memcpy to a destination that begins no later than the source, or not before its end, copies its
-- n bytes as they were and changes no other byte.
pub memcpy-within :
    (d s n : ℕ) (m : Memory) (x : ℕ)
    → (d ≤ s) ⊎ (s + n ≤ d)
    → memcpy d s n m x ≡ (if within d n x then m (s + (x - d)) else m x)
unfolding memcpy
memcpy-within d s zero m x h = ground arith
memcpy-within d s (suc n) m x h =
    memcpy-within (d + 1) (s + 1) n (write m d (m s)) x (omega arith) ∙ ground arith

-- A bound that the counter cannot reach.
memset_loop-endless :
    (fuel dst c n i : ℕ) (m : Memory)
    → i < 2 ^ 32
    → 2 ^ 32 ≤ n
    → memset_loop fuel dst c n i m ≡ none
unfolding memset_loop
memset_loop-endless zero dst c n i m l h = refl
memset_loop-endless (suc fuel) dst c n i m l h =
    let below : ltb i n ≡ true = ground (arith, l, h) in
    rw (memset_loop, below)
      (memset_loop-endless fuel dst c n ((i + 1) % 2 ^ 32) (write m (dst + i) (c % 256))
        (omega arith) h)

memset_loop-within :
    (fuel dst c n i : ℕ) (m : Memory)
    → n < 2 ^ 32
    → i ≤ n
    → n < fuel + i
    → (m' : Memory) × (memset_loop fuel dst c n i m ≡ some m')
      × ((x : ℕ) → m' x ≡ (if within (dst + i) (n - i) x then c % 256 else m x))
unfolding memset_loop
memset_loop-within zero dst c n i m b l f = absurd (omega (arith, l, f))
memset_loop-within (suc fuel) dst c n i m b l f = elim (Bool-cases (ltb i n)) [
  | inl y ↦
      let next : (i + 1) % 2 ^ 32 ≡ i + 1 = ground (arith, y, b) in
      let (m', e, w) =
        memset_loop-within fuel dst c n (i + 1) (write m (dst + i) (c % 256)) b (ground (arith, y))
          (omega (arith, f)) in
      let step : memset_loop (suc fuel) dst c n i m
          ≡ memset_loop fuel dst c n (i + 1) (write m (dst + i) (c % 256)) =
        rw (memset_loop, y, next) refl in
      (m', step ∙ e, λ x. w x ∙ ground (arith, y))
  | inr d ↦ (m, rw (memset_loop, d) refl, λ x. ground (arith, d))
]

-- With more tests of the loop than n: for n below 2^32 memset ends, with the low byte of its
-- argument in its n bytes and every other byte as it was; for n from 2^32 on it has not ended,
-- whatever the number of tests.
pub memset-within :
    (fuel dst c n : ℕ) (m : Memory)
    → n < fuel
    → ((n < 2 ^ 32)
        × ((m' : Memory) × (memset fuel dst c n m ≡ some m')
            × ((x : ℕ) → m' x ≡ (if within dst n x then c % 256 else m x))))
      ⊎ ((2 ^ 32 ≤ n) × (memset fuel dst c n m ≡ none))
unfolding memset
memset-within fuel dst c n m f = elim (Bool-cases (ltb n (2 ^ 32))) [
  | inl y ↦
      let b : n < 2 ^ 32 = ground (arith, y) in
      let (m', e, w) = memset_loop-within fuel dst c n 0 m b (omega arith) (omega (arith, f)) in
      inl (b, (m', e, λ x. w x ∙ ground arith))
  | inr d ↦
      let h : 2 ^ 32 ≤ n = ground (arith, d) in
      inr (h, memset_loop-endless fuel dst c n 0 m (omega arith) h)
]

-- The first terminator of the string at `s` is `n` bytes on.
pub record IsLength (s n : ℕ) (m : Memory) : Type 0 where
  pub filled : (i : ℕ) → i < n → m (s + i) ≢ 0
  pub ends : m (s + n) ≡ 0

strlen_loop-IsLength :
    (fuel s n i : ℕ) (m : Memory)
    → IsLength s n m
    → i ≤ n
    → n < fuel + i
    → strlen_loop fuel (s + i) i m ≡ some n
unfolding strlen_loop
strlen_loop-IsLength zero s n i m h l f = absurd (omega (arith, l, f))
strlen_loop-IsLength (suc fuel) s n i m h l f = elim (Bool-cases (i == n)) [
  | inl y ↦ let e : i ≡ n = (==_iff i n).0 y in rw (strlen_loop, e, h.ends) refl
  | inr d ↦
      let filled : (m (s + i) == 0) ≡ false = ==-false _ _ (h.filled i (ground (arith, l, d))) in
      let next : s + i + 1 ≡ s + (i + 1) = omega arith in
      let ih =
        strlen_loop-IsLength fuel s n (i + 1) m h (ground (arith, l, d)) (omega (arith, f)) in
      rw (strlen_loop, filled, next) ih
]

strnlen_loop-IsLength :
    (left s n i : ℕ) (m : Memory)
    → IsLength s n m
    → i ≤ n
    → strnlen_loop left s i m ≡ (if leb n (i + left) then n else i + left)
unfolding strnlen_loop
strnlen_loop-IsLength zero s n i m h l = ground (arith, l)
strnlen_loop-IsLength (suc left) s n i m h l = elim (Bool-cases (i == n)) [
  | inl y ↦
      let e : i ≡ n = (==_iff i n).0 y in
      let all : leb n (n + suc left) ≡ true = ground arith in rw (strnlen_loop, e, h.ends, all) refl
  | inr d ↦
      let filled : (m (s + i) == 0) ≡ false = ==-false _ _ (h.filled i (ground (arith, l, d))) in
      let ih = strnlen_loop-IsLength left s n (i + 1) m h (ground (arith, l, d)) in
      rw (strnlen_loop, filled) (ih ∙ ground arith)
]

-- For a string whose first terminator is n bytes on, with more tests of the loop than n: strlen
-- ends and answers n, and strnlen answers the less of n and its bound.
pub strnlen-strlen :
    (fuel s n maxlen : ℕ) (m : Memory)
    → IsLength s n m
    → n < fuel
    → (strlen fuel s m ≡ some n) × (strnlen s maxlen m ≡ (if leb n maxlen then n else maxlen))
unfolding strlen strnlen
strnlen-strlen fuel s n maxlen m h f =
    let start : s + 0 ≡ s = omega arith in
    (
      rw start at (strlen_loop-IsLength fuel s n 0 m h (omega arith) (omega (arith, f))),
      strnlen_loop-IsLength maxlen s n 0 m h (omega arith) ∙ ground arith,
    )
