-- ===== src/Buddy/Address.antt =====
-- Addresses and page indices of the buddy allocator of kernel/mm/mem.c.
use system_n.Base.{
  ℕ, ◌+◌, ◌-◌, ◌*◌, ◌/◌, ◌%◌, ◌^◌, ◌≤◌, ◌<◌, ◌≡◌, refl, true, false, arith, leb, sym, ◌∙◌,
}
use system_n.Base.Toggle.{toggle, bit_xor-toggle, toggle-shift, pow-add}
use system_n.Spinlock.{done, panic}
use system_n.Proc.{ulong_mod, page_size}
use system_n.Buddy.{Buddy, get_page_struct, buddy_of}

-- The managed memory lies below 2 ^ 62 and not at 0.
pub record IsPlaced (b : Buddy) : Type 0 where
  pub not_null : 0 < b.buddy_base_phys
  pub below : b.buddy_base_phys + b.num_pages * page_size < 2 ^ 62

abbrev pub addr_of : Buddy → ℕ → ℕ
addr_of b i = b.buddy_base_phys + i * page_size

pub IsPlaced-same :
    {b b1 : Buddy}
    → IsPlaced b
    → b1.buddy_base_phys ≡ b.buddy_base_phys
    → b1.num_pages ≡ b.num_pages
    → IsPlaced b1
IsPlaced-same p e f = record { not_null = rw e p.not_null; below = rw (e, f) p.below }

module _ {b : Buddy} (p : IsPlaced b) where
  index_of :
      (i : ℕ)
      → i < 2 ^ 51
      → (addr_of b i + ulong_mod - b.buddy_base_phys) % ulong_mod / page_size ≡ i
  index_of i l = omega (arith, p.below)

  pub get_page_struct-found : (i : ℕ) → i < b.num_pages → get_page_struct (addr_of b i) b ≡ done i
  unfolding get_page_struct
  get_page_struct-found i l =
      let there : leb b.num_pages i ≡ false = ground (arith, l) in
      rw (index_of i (omega (arith, p.below)), there) refl

  pub get_page_struct-far :
      (i : ℕ) → b.num_pages ≤ i → i < 2 ^ 51 → get_page_struct (addr_of b i) b ≡ panic
  unfolding get_page_struct
  get_page_struct-far i l h =
      let there : leb b.num_pages i ≡ true = ground (arith, l) in rw (index_of i h, there) refl

  pub buddy_of-toggle :
      (i o : ℕ)
      → i < b.num_pages
      → toggle o i < 2 ^ 51
      → buddy_of (addr_of b i) o b ≡ addr_of b (toggle o i)
  unfolding buddy_of
  buddy_of-toggle i o l h =
      let off : (addr_of b i + ulong_mod - b.buddy_base_phys) % ulong_mod ≡ i * 2 ^ 12 =
        omega (arith, p.below) in
      let size : page_size * 2 ^ o ≡ 2 ^ (12 + o) = sym (pow-add 12 o) in
      let turned = bit_xor-toggle (12 + o) (i * 2 ^ 12) ∙ toggle-shift 12 o i in
      rw (off, size, turned) (omega (arith, p.below))
