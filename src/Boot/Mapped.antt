-- ===== src/Boot/Mapped.antt =====
-- `setup_kernel_pagetable` and `mm_init` of kernel/start.c: the kernel's address space.
use Prim.Native.Nat.{bit_or}
use system_n.Base.{
  ℕ, ◌+◌, ◌*◌, ◌%◌, ◌^◌, ◌≤◌, ◌<◌, ◌≡◌, refl, Bool, true, false, Option, none, some, arith, ◌==◌,
  if◌then◌else◌, ◌∙◌, Bool-cases, inl, inr,
}
use system_n.Spinlock.{Run, done}
use system_n.Proc.{page_size}
use system_n.PageTable.{PageAllocator, Vm, pte_r, pte_w, pte_x, leaf, and_then}
use system_n.PageTable.Shape.{Levels}
use system_n.PageTable.Supply.{Supply}
use system_n.PageTable.Grow.{Tables}
use system_n.PageTable.Update.{or_else}
use system_n.Boot.Early.{Sections, kernel_end, pages_between, setup_kernel_pagetable}
use system_n.Boot.Ranges.{between, kernel_entry, map_page-Covers, map_range-Covers}

-- The sections of the kernel, in order, each at the start of a page.
pub record IsLaidOut (s : Sections) : Type 0 where
  pub text_page : s.text_start % page_size ≡ 0
  pub rodata_page : s.rodata_start % page_size ≡ 0
  pub data_page : s.data_start % page_size ≡ 0
  pub first : 0x8000_0000 ≤ s.text_start
  pub text_ends : s.text_start ≤ s.text_end
  pub after_text : s.text_end ≤ s.rodata_start
  pub rodata_ends : s.rodata_start ≤ s.rodata_end
  pub after_rodata : s.rodata_end ≤ s.data_start
  pub data_ends : s.data_start ≤ s.bss_end
  pub last : s.bss_end ≤ kernel_end

abbrev pub uart_page : ℕ
uart_page = 0x1000_0000

-- The entry that the page at a physical address is to have.
abbrev pub kernel_map : Sections → ℕ → Option ℕ
kernel_map s pa =
    if between s.text_start s.text_end pa
    then some (leaf pa (bit_or pte_r pte_x))
    else if between s.rodata_start s.rodata_end pa
    then some (leaf pa pte_r)
    else if between s.data_start kernel_end pa
    then some (leaf pa (bit_or pte_r pte_w))
    else if pa == uart_page
    then some (leaf pa (bit_or pte_r pte_w))
    else none

-- A range that ends inside a page covers that page.
between-pages :
    (lo hi pa : ℕ)
    → lo % page_size ≡ 0
    → pa % page_size ≡ 0
    → lo ≤ hi
    → between lo (lo + pages_between lo hi * page_size) pa ≡ between lo hi pa
between-pages lo hi pa a b l = ground (arith, a, b, l)

uart-alone :
    (pa : ℕ) → pa % page_size ≡ 0 → between uart_page (uart_page + page_size) pa ≡ (pa == uart_page)
uart-alone pa a = ground (arith, a)

-- An entry that is there stays, whatever comes after.
stays :
    {o : Option ℕ} {w : ℕ} (v : ℕ) (c : Bool) → o ≡ some w → (if c then or_else o v else o) ≡ some w
stays v true e = rw e refl
stays v false e = e

-- What the four loops leave, one after another.
entries-join :
    (s : Sections) (pa : ℕ) (a b c d : Option ℕ)
    → a ≡ (if between s.text_start s.text_end pa then some (leaf pa (bit_or pte_r pte_x)) else none)
    → b ≡ (if between s.rodata_start s.rodata_end pa then or_else a (leaf pa pte_r) else a)
    → c
      ≡ (if between s.data_start kernel_end pa then or_else b (leaf pa (bit_or pte_r pte_w)) else b)
    → d ≡ (if pa == uart_page then or_else c (leaf pa (bit_or pte_r pte_w)) else c)
    → d ≡ kernel_map s pa
entries-join s pa a b c d ea eb ec ed = elim (Bool-cases (between s.text_start s.text_end pa)) [
  | inl x ↦
      let a' = ea ∙ rw x refl in
      let b' = eb ∙ stays _ (between s.rodata_start s.rodata_end pa) a' in
      let c' = ec ∙ stays _ (between s.data_start kernel_end pa) b' in
      rw x (ed ∙ stays _ (pa == uart_page) c')
  | inr x ↦
      let a' : a ≡ none = ea ∙ rw x refl in
      elim (Bool-cases (between s.rodata_start s.rodata_end pa)) [
        | inl y ↦
            let b' : b ≡ some (leaf pa pte_r) = eb ∙ rw (y, a') refl in
            let c' = ec ∙ stays _ (between s.data_start kernel_end pa) b' in
            rw (x, y) (ed ∙ stays _ (pa == uart_page) c')
        | inr y ↦
            let b' : b ≡ none = eb ∙ rw y a' in
            elim (Bool-cases (between s.data_start kernel_end pa)) [
              | inl z ↦
                  let c' : c ≡ some (leaf pa (bit_or pte_r pte_w)) = ec ∙ rw (z, b') refl in
                  rw (x, y, z) (ed ∙ stays _ (pa == uart_page) c')
              | inr z ↦ let c' : c ≡ none = ec ∙ rw z b' in rw (x, y, z) (ed ∙ rw c' refl)
            ]
      ]
]

then-run :
    {A B : Type 0} {r : Run A} (k : A → Run B) {a : A} {z : Run B}
    → r ≡ done a
    → k a ≡ z
    → and_then r k ≡ z
then-run k e f = rw e f

module _ {S : Type 0} {allocator : PageAllocator S} (supply : Supply allocator) (root : ℕ) where
  -- The tables of the kernel.
  pub record KernelMaps (s : Sections) (left : ℕ) (vm' : Vm S) : Type 0 where
    pub level' : Levels
    pub taken' : ℕ → Bool
    pub left' : ℕ
    pub tables : Tables supply 0 root vm' level' taken' left'
    pub spent : left ≤ left' + 5000
    pub entries :
        (pa : ℕ) → pa % page_size ≡ 0 → pa < 2 ^ 32 → kernel_entry root vm' pa ≡ kernel_map s pa

  pub setup_kernel_pagetable-KernelMaps :
      (s : Sections) (left : ℕ) {vm : Vm S} {level : Levels} {taken : ℕ → Bool}
      → IsLaidOut s
      → Tables supply 0 root vm level taken left
      → ((pa : ℕ) → kernel_entry root vm pa ≡ none)
      → 5000 ≤ left
      → (vm' : Vm S) × (setup_kernel_pagetable allocator s root vm ≡ done vm')
        × KernelMaps s left vm'
  unfolding setup_kernel_pagetable
  setup_kernel_pagetable-KernelMaps s left {vm} i t n enough =
      let n1 = pages_between s.text_start s.text_end in
      let n2 = pages_between s.rodata_start s.rodata_end in
      let n3 = pages_between s.data_start kernel_end in
      let b1 : n1 * page_size + s.text_start ≤ s.text_end + 4095 = omega (arith, i.text_ends) in
      let b2 : n2 * page_size + s.rodata_start ≤ s.rodata_end + 4095 =
        omega (arith, i.rodata_ends) in
      let b3 : n3 * page_size + s.data_start ≤ kernel_end + 4095 =
        omega (arith, i.data_ends, i.last) in
      let total : 2 * n1 + 2 * n2 + 2 * n3 + 2 ≤ 5000 =
        omega (arith, b1, b2, b3, i.first, i.after_text, i.after_rodata, i.data_ends, i.last) in
      let (vm1, e1, c1) =
        map_range-Covers supply root n1 s.text_start (bit_or pte_r pte_x) left t i.text_page
          (omega (arith, b1, i.after_text, i.rodata_ends, i.after_rodata, i.data_ends, i.last))
          (omega (arith, total, enough)) in
      let (vm2, e2, c2) =
        map_range-Covers supply root n2 s.rodata_start pte_r c1.left' c1.tables i.rodata_page
          (omega (arith, b2, i.after_rodata, i.data_ends, i.last))
          (omega (arith, total, enough, c1.spent)) in
      let (vm3, e3, c3) =
        map_range-Covers supply root n3 s.data_start (bit_or pte_r pte_w) c2.left' c2.tables
          i.data_page (omega (arith, b3)) (omega (arith, total, enough, c1.spent, c2.spent)) in
      let (vm4, e4, c4) =
        map_page-Covers supply root uart_page (bit_or pte_r pte_w) c3.left' c3.tables refl
          (omega arith) (omega (arith, total, enough, c1.spent, c2.spent, c3.spent)) in
      (
        vm4,
        then-run _ e1 (then-run _ e2 (then-run _ e3 (then-run _ e4 refl))),
        record {
          level' = c4.level';
          taken' = c4.taken';
          left' = c4.left';
          tables = c4.tables;
          spent = omega (arith, total, c1.spent, c2.spent, c3.spent, c4.spent);
          entries = λ pa a b.
              entries-join s pa (kernel_entry root vm1 pa) (kernel_entry root vm2 pa)
                (kernel_entry root vm3 pa) (kernel_entry root vm4 pa)
                (c1.entries pa a b
                  ∙ rw (between-pages s.text_start s.text_end pa i.text_page a i.text_ends, n pa)
                      refl)
                (c2.entries pa a b
                  ∙ rw (between-pages s.rodata_start s.rodata_end pa i.rodata_page a i.rodata_ends)
                      refl)
                (c3.entries pa a b
                  ∙ rw
                      (between-pages s.data_start kernel_end pa i.data_page a
                        (omega (arith, i.data_ends, i.last)))
                      refl)
                (c4.entries pa a b ∙ rw (uart-alone pa a) refl);
        },
      )
