-- ===== src/Snub/Classes.antt =====
-- `size_to_idx` of kernel/mm/snub.c: the class of a size.
use system_n.Base.{
  ℕ, zero, suc, ◌+◌, ◌-◌, ◌^◌, ◌≤◌, ◌<◌, ◌≡◌, ◌⊎◌, inl, inr, none, some, arith, ltb, Bool-cases,
  ltb→lt,
}
use native.Mathlib.Decide.{dec_lt}
use system_n.Snub.{shift_for, size_to_idx}

-- The loop stops at the first power of two that is large enough, or at its bound.
record IsLeast (left shift size r : ℕ) : Type 0 where
  above : shift ≤ r
  bound : r ≤ shift + left
  enough : r < shift + left → size ≤ 2 ^ r
  least : (j : ℕ) → shift ≤ j → j < r → 2 ^ j < size

shift_for-IsLeast : (left shift size : ℕ) → IsLeast left shift size (shift_for left shift size)
unfolding shift_for
shift_for-IsLeast zero shift size = record {
  above = omega arith;
  bound = omega arith;
  enough = λ h. absurd (omega arith);
  least = λ j l h. absurd (omega arith);
}
shift_for-IsLeast (suc left) shift size = elim (Bool-cases (ltb (2 ^ shift) size)) [
  | inr e ↦ rw e (record {
    above = omega arith;
    bound = omega arith;
    enough = λ h. ground (arith, e);
    least = λ j l h. absurd (omega arith);
  })
  | inl e ↦
      let ih = shift_for-IsLeast left (suc shift) size in
      rw e (record {
        above = omega (arith, ih.above);
        bound = omega (arith, ih.bound);
        enough = λ h. ih.enough (omega arith);
        least = λ j l h. elim (dec_lt shift j) [
          | yes up ↦ ih.least j up h
          | no same ↦ let eq : j ≡ shift = omega arith in rw eq (ltb→lt (2 ^ shift) size e)
        ];
      })
]

small : (size i : ℕ) → i < 9 → size ≤ 2 ^ (4 + i) → size ≤ 4096
small size zero h e = omega arith
small size (suc zero) h e = omega arith
small size (suc (suc zero)) h e = omega arith
small size (suc (suc (suc zero))) h e = omega arith
small size (suc (suc (suc (suc zero)))) h e = omega arith
small size (suc (suc (suc (suc (suc zero))))) h e = omega arith
small size (suc (suc (suc (suc (suc (suc zero)))))) h e = omega arith
small size (suc (suc (suc (suc (suc (suc (suc zero))))))) h e = omega arith
small size (suc (suc (suc (suc (suc (suc (suc (suc zero)))))))) h e = omega arith
small size (suc (suc (suc (suc (suc (suc (suc (suc (suc i))))))))) h e = absurd (omega arith)

-- size_to_idx gives a request of at most 4096 bytes the least of the nine classes whose objects
-- are large enough, and answers -1 for a larger one.
pub size_to_idx-least :
    (size : ℕ)
    → ((size ≤ 4096)
        × ((i : ℕ) × (size_to_idx size ≡ some i)
            × (i < 9)
            × (size ≤ 2 ^ (4 + i))
            × ((j : ℕ) → j < i → 2 ^ (4 + j) < size)))
      ⊎ ((4096 < size) × (size_to_idx size ≡ none))
unfolding size_to_idx
size_to_idx-least size =
    let r = shift_for-IsLeast 9 4 size in
    elim (Bool-cases (ltb 12 (shift_for 9 4 size))) [
      | inl big ↦
          let top : shift_for 9 4 size ≡ 13 =
            omega (arith, ltb→lt 12 (shift_for 9 4 size) big, r.bound) in
          inr (r.least 12 (omega arith) (omega (arith, top)), rw big)
      | inr fits ↦
          let i = shift_for 9 4 size - 4 in
          let low : shift_for 9 4 size < 13 = ground (arith, fits) in
          let back : 4 + i ≡ shift_for 9 4 size = omega (arith, r.above) in
          let enough : size ≤ 2 ^ (4 + i) = rw back (r.enough low) in
          inl (
            small size i (omega (arith, r.above)) enough,
            (
              i,
              rw fits,
              omega (arith, r.above),
              enough,
              λ j h. r.least (4 + j) (omega arith) (omega (arith, back)),
            ),
          )
    ]
