-- ===== src/User/Compare.antt =====
-- kernel/shell.c: the comparison of strings.
use system_n.Base.{
  ℕ, zero, suc, ◌+◌, ◌≤◌, ◌<◌, ◌≡◌, ◌≢◌, ◌⊎◌, refl, not, ◌||◌, arith, ◌==◌, Bool-cases, inl, inr,
  ==_iff,
}
use system_n.Str.{Memory}
use system_n.User.{streq_loop, streq}

-- The characters of both strings from `i` to `end` are the same, and none of them is a terminator.
abbrev pub Agree : ℕ → ℕ → ℕ → ℕ → Memory → Type 0
Agree i end s1 s2 m = (j : ℕ) → i ≤ j → j < end → (m (s1 + j) ≡ m (s2 + j)) × (m (s1 + j) ≢ 0)

Agree-next :
    (i end s1 s2 : ℕ) (m : Memory)
    → m (s1 + i) ≡ m (s2 + i)
    → m (s1 + i) ≢ 0
    → Agree (i + 1) end s1 s2 m
    → Agree i end s1 s2 m
Agree-next i end s1 s2 m e n a j l h = elim (Bool-cases (j == i)) [
  | inl y ↦ rw ((==_iff j i).0 y) (e, n)
  | inr d ↦ a j (ground (arith, l, d)) h
]

streq_loop-Agree :
    (left i s1 s2 : ℕ) (m : Memory)
    → ((streq_loop left i s1 s2 m ≡ 1) × Agree i (i + left) s1 s2 m)
      ⊎ ((streq_loop left i s1 s2 m ≡ 0) × (Agree i (i + left) s1 s2 m → ⊥))
unfolding streq_loop
streq_loop-Agree zero i s1 s2 m = inl (refl, λ j l h. absurd (omega (arith, l, h)))
streq_loop-Agree (suc left) i s1 s2 m =
    elim (Bool-cases ((m (s1 + i) == 0) || (m (s2 + i) == 0) || not (m (s1 + i) == m (s2 + i)))) [
      | inl y ↦
          inr (
            rw y refl,
            λ a. let (e, n) = a i (omega arith) (omega arith) in ground (arith, y, e, n),
          )
      | inr d ↦
          let same : m (s1 + i) ≡ m (s2 + i) = ground (arith, d) in
          let end : i + suc left ≡ i + 1 + left = omega arith in
          elim (streq_loop-Agree left (i + 1) s1 s2 m) [
            | inl (e, a) ↦ inl (
              rw (d, e) refl,
              Agree-next i (i + suc left) s1 s2 m same (λ z. ground (arith, d, z)) (rw end a),
            )
            | inr (e, a) ↦
                inr (rw (d, e) refl, λ b. a (λ j l h. b j (omega (arith, l)) (omega (arith, h))))
          ]
    ]

-- streq answers 1 if the first n characters of both strings are the same and none of them is a
-- terminator, and 0 if not.
pub streq-Agree :
    (s1 s2 n : ℕ) (m : Memory)
    → ((streq s1 s2 n m ≡ 1) × Agree 0 n s1 s2 m)
      ⊎ ((streq s1 s2 n m ≡ 0) × (Agree 0 n s1 s2 m → ⊥))
unfolding streq
streq-Agree s1 s2 n m = let z : 0 + n ≡ n = omega arith in rw z at (streq_loop-Agree n 0 s1 s2 m)
