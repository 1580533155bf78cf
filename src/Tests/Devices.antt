-- ===== src/Tests/Devices.antt =====
-- Runs of the code about the console, strings, page tables, small objects and the system calls on
-- them.
use system_n.Base.{
  ℕ, zero, ◌+◌, ◌-◌, ◌/◌, ◌^◌, ◌<◌, ◌≤◌, ◌≡◌, ◌≢◌, ◌⊎◌, inl, refl, Option, none, some, List, [],
  ◌∷◌, ◌++◌, arith, ◌==◌, if◌then◌else◌, length,
}
use system_n.Spinlock.{Run, done}
use system_n.Uart.{Uart, uart_putlong, uart_puthex}
use system_n.Uart.Decimal.{IsNumeral, NoLeadingZero, uart_putlong-IsNumeral}
use system_n.Uart.Hex.{hex_value, uart_puthex-hex_value}
use system_n.Uart.Lines.{Reaches, Completes}
use system_n.Str.{Memory, memcpy, memset, strlen, strnlen}
use system_n.Str.Copy.{within, IsLength, memcpy-within, memset-within, strnlen-strlen}
use system_n.PageTable.{
  minus_one, PageAllocator, Vm, va_offset, phys_to_virt, leaf, pte2pa, is_valid, map_page,
  unmap_page, and_then, write,
}
use system_n.PageTable.Mapping.{find, map_page-found, unmap_page-found, unmap_page-map_page}
use system_n.Snub.{Snub, size_to_idx, kfree}
use system_n.Snub.Classes.{size_to_idx-least}
use system_n.Snub.Release.{kfree-frees_page}
use system_n.Machine.{Machine}
use system_n.Tests.Kernels.{busy}

abbrev console : Uart
console = record { sent = []; arriving = b'h' ∷ b'i' ∷ 13 ∷ b'x' ∷ [] }

uart_putlong-IsNumeral_example :
    (s : List ℕ) × (uart_putlong 305 console ≡ some (record console { sent = console.sent ++ s }))
    × IsNumeral 305 s
    × (305 ≢ zero → NoLeadingZero s)
uart_putlong-IsNumeral_example = uart_putlong-IsNumeral 305 console (omega arith)

uart_puthex-hex_value_example :
    (s : List ℕ) × (uart_puthex 305 console
      ≡ record console { sent = console.sent ++ b'0' ∷ b'x' ∷ s })
    × (length s ≡ 16)
    × (hex_value 0 s ≡ 305)
uart_puthex-hex_value_example = uart_puthex-hex_value 305 console (omega arith)

-- `hi` and a terminator
abbrev greeting : List ℕ
greeting = b'h' ∷ b'i' ∷ 0 ∷ b'x' ∷ []

greeting-Reaches : Reaches 9 greeting
greeting-Reaches _ _ z = absurd (z refl)

console-Completes : Completes 9 (console.arriving)
console-Completes _ _ z = absurd (z refl)

abbrev bytes : Memory
bytes x = if x == 7 then 0 else x

memcpy-within_example : memcpy 10 20 5 bytes 12 ≡ bytes (20 + (12 - 10))
memcpy-within_example = memcpy-within 10 20 5 bytes 12 (inl (omega arith))

memset-within_example :
    ((5 < 2 ^ 32)
      × ((m' : Memory) × (memset 6 10 300 5 bytes ≡ some m')
          × ((x : ℕ) → m' x ≡ (if within 10 5 x then 44 else bytes x))))
    ⊎ ((2 ^ 32 ≤ 5) × (memset 6 10 300 5 bytes ≡ none))
memset-within_example = memset-within 6 10 300 5 bytes (omega arith)

bytes-IsLength : IsLength 3 4 bytes
bytes-IsLength = record { filled = λ i l. ground (arith, l); ends = refl }

strnlen-strlen_example : (strlen 10 3 bytes ≡ some 4) × (strnlen 3 2 bytes ≡ 2)
strnlen-strlen_example = strnlen-strlen 10 3 4 2 bytes bytes-IsLength (omega arith)

-- Pages from a list of free ones.
abbrev take_page : List ℕ → Run (Option ℕ × List ℕ)
take_page [] = done (none, [])
take_page (p ∷ ps) = done (some p, ps)

abbrev pub free_list : PageAllocator (List ℕ)
free_list = record { alloc_page = take_page; free_page = λ p ps. done (p ∷ ps) }

-- Three tables at 0x80100000, 0x80101000 and 0x80102000, with no page mapped.
abbrev tables : ℕ → ℕ
tables x =
    if x == phys_to_virt 0x8010_0000
    then 0x8010_1000 / 4 + 1
    else if x == phys_to_virt 0x8010_1000
    then 0x8010_2000 / 4 + 1
    else 0

abbrev vm : Vm (List ℕ)
vm = record { words = tables; store = []; offset = va_offset }

tables-find :
    find va_offset 2 (phys_to_virt 0x8010_0000) 0x1000 tables ≡ some (phys_to_virt 0x8010_2000 + 8)
unfolding find
tables-find = refl

unmap_page-map_page_example :
    (vm' : Vm (List ℕ)) × (and_then
        (map_page free_list 0x8010_0000 0x1000 0x8020_0000 6 vm)
        (λ (r, vm1). unmap_page free_list 0x8010_0000 0x1000 vm1)
      ≡ done (0, vm'))
    × (vm'.store ≡ 0x8020_0000 ∷ [])
    × ((a : ℕ) → vm'.words a ≡ vm.words a)
unfolding system_n.PageTable.Mapping.path
unmap_page-map_page_example =
    unmap_page-map_page free_list 0x8010_0000 0x1000 0x8020_0000 6 vm (0x8020_0000 ∷ []) tables-find
      refl refl (omega arith) refl (omega arith) refl

size_to_idx-least_example :
    ((100 ≤ 4096)
      × ((i : ℕ) × (size_to_idx 100 ≡ some i)
          × (i < 9)
          × (100 ≤ 2 ^ (4 + i))
          × ((j : ℕ) → j < i → 2 ^ (4 + j) < 100)))
    ⊎ ((4096 < 100) × (size_to_idx 100 ≡ none))
size_to_idx-least_example = size_to_idx-least 100

abbrev snub : Snub (List ℕ)
snub = record { object_size = λ i. 2 ^ (4 + i); partial = λ _. 0; words = λ _. 0; store = [] }

kfree-frees_page_example :
    kfree free_list 0x8080_0000 (phys_to_virt 0x8080_0040) snub
    ≡ done (record snub { store = 0x8080_0040 ∷ [] })
kfree-frees_page_example =
    kfree-frees_page free_list 0x8080_0000 0x8080_0040 snub
      (record { from = omega arith; below = omega arith; small = omega arith })

abbrev pub machine : Machine (List ℕ)
machine = record {
  kernel = busy;
  vm = vm;
  uart = console;
  frames = λ _. record { regs = λ _. 0; sepc = 0; sstatus = 0; scause = 0; stval = 0 };
  user = λ x. if x == 0x2000 then b'h' else if x == 0x2001 then b'i' else 0;
  sstatus = 0;
}
