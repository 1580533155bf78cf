-- ===== src/PageTable/Entry.antt =====
-- Page table entries: what `PA2PTE`, `PTE2PA` and the flag bits of kernel/mm/mem.h and
-- kernel/mm/pagetable.h keep of an address and of the permissions.
use Prim.Native.Nat.{bit_or}
use system_n.Base.{ℕ, zero, suc, ◌/◌, ◌%◌, ◌^◌, ◌<◌, ◌≡◌, true, arith, ◌∙◌, sym}
use native.Mathlib.Nat.{div-div-eq-div-mul, pow-succ'}
use system_n.Base.Bits.{bit_or-half, bit_or-odd, bit_or-zero, bit_and-one}
use system_n.PageTable.{pte2pa, pa2pte, leaf, is_valid}

-- The bits from place `k` on.
shift : (k a b : ℕ) → bit_or a b / 2 ^ k ≡ bit_or (a / 2 ^ k) (b / 2 ^ k)
shift zero a b =
    let one : (x : ℕ) → x / 2 ^ 0 ≡ x = λ x. omega arith in rw (one (bit_or a b), one a, one b)
shift (suc k) a b =
    let step : (x : ℕ) → x / 2 ^ suc k ≡ x / 2 / 2 ^ k =
      λ x. rw (pow-succ' 2 k) (sym (div-div-eq-div-mul x 2 (2 ^ k))) in
    rw (step (bit_or a b), step a, step b, bit_or-half a b) (shift k (a / 2) (b / 2))

-- Flags below place 10 change no bit from there on.
shift_flags : (a b : ℕ) → b < 2 ^ 10 → bit_or a b / 2 ^ 10 ≡ a / 2 ^ 10
shift_flags a b h =
    let small : b / 2 ^ 10 ≡ 0 = omega arith in shift 10 a b ∙ rw small (bit_or-zero (a / 2 ^ 10))

odd_flag : (a b : ℕ) → a % 2 ≡ 1 → bit_or a b % 2 ≡ 1
odd_flag a b h = omega (arith, bit_or-odd a b)

is_valid-odd : (x : ℕ) → x % 2 ≡ 1 → is_valid x ≡ true
is_valid-odd x h = ground (arith, bit_and-one x)

-- An entry that map_page writes is valid.
pub leaf-is_valid : (pa perm : ℕ) → is_valid (leaf pa perm) ≡ true
leaf-is_valid pa perm =
    let x1 = bit_or (pa2pte pa) perm in
    is_valid-odd (leaf pa perm) (
      odd_flag (bit_or (bit_or x1 1) 64) 128
        (odd_flag (bit_or x1 1) 64 (omega (arith, bit_or-odd x1 1))))

-- The physical address of an aligned page below 2^56 comes back from the entry that map_page
-- writes, whatever the ten permission bits, and the entry is valid.
pub leaf-pte2pa :
    (pa perm : ℕ)
    → pa < 2 ^ 56
    → pa % 2 ^ 12 ≡ 0
    → perm < 2 ^ 10
    → (pte2pa (leaf pa perm) ≡ pa) × (is_valid (leaf pa perm) ≡ true)
leaf-pte2pa pa perm h a p =
    let x1 = bit_or (pa2pte pa) perm in
    let x2 = bit_or x1 1 in
    let x3 = bit_or x2 64 in
    (
      omega (
        arith,
        shift_flags x3 128 (omega arith),
        shift_flags x2 64 (omega arith),
        shift_flags x1 1 (omega arith),
        shift_flags (pa2pte pa) perm p,
      ),
      is_valid-odd (leaf pa perm)
          (odd_flag x3 128 (odd_flag x2 64 (omega (arith, bit_or-odd x1 1)))),
    )

-- So does that of a table from the entry that points at it.
pub table-pte2pa :
    (pa : ℕ)
    → pa < 2 ^ 56
    → pa % 2 ^ 12 ≡ 0
    → (pte2pa (bit_or (pa2pte pa) 1) ≡ pa) × (is_valid (bit_or (pa2pte pa) 1) ≡ true)
table-pte2pa pa h a = (
  omega (arith, shift_flags (pa2pte pa) 1 (omega arith)),
  is_valid-odd (bit_or (pa2pte pa) 1) (omega (arith, bit_or-odd (pa2pte pa) 1)),
)
