-- ===== src/Str.antt =====
-- kernel/string.c: memory and strings, over a memory of bytes.
pub mod Copy
use system_n.Base.{
  ℕ, zero, suc, ◌+◌, ◌%◌, ◌^◌, ◌≡◌, Bool, Option, none, some, ltb, ◌==◌, if◌then◌else◌,
}

abbrev pub Memory : Type 0
Memory = ℕ → ℕ

abbrev pub write : Memory → ℕ → ℕ → Memory
write m a v x = if x == a then v else m x

-- `while (n--) *d++ = *s++`
unfoldable pub memcpy : ℕ → ℕ → ℕ → Memory → Memory
memcpy d s zero m = m
memcpy d s (suc n) m = memcpy (d + 1) (s + 1) n (write m d (m s))

-- The loop of `memset` from `i` on. The counter is a `uint` and the bound a `ulong`.
-- `none`: not done after as many tests as the fuel says.
unfoldable pub memset_loop : ℕ → ℕ → ℕ → ℕ → ℕ → Memory → Option Memory
memset_loop zero dst c n i m = none
memset_loop (suc fuel) dst c n i m =
    let rest = memset_loop fuel dst c n ((i + 1) % 2 ^ 32) (write m (dst + i) (c % 256)) in
    if ltb i n then rest else some m

unfoldable pub memset : ℕ → ℕ → ℕ → ℕ → Memory → Option Memory
memset fuel dst c n m = memset_loop fuel dst c n 0 m

-- `none`: no terminator in as many bytes as the fuel says.
unfoldable pub strlen_loop : ℕ → ℕ → ℕ → Memory → Option ℕ
strlen_loop zero s len m = none
strlen_loop (suc fuel) s len m =
    let rest = strlen_loop fuel (s + 1) (len + 1) m in if m s == 0 then some len else rest

unfoldable pub strlen : ℕ → ℕ → Memory → Option ℕ
strlen fuel s m = strlen_loop fuel s 0 m

-- The loop of `strnlen`, with `left` for `maxlen - len`.
unfoldable pub strnlen_loop : ℕ → ℕ → ℕ → Memory → ℕ
strnlen_loop zero s len m = len
strnlen_loop (suc left) s len m =
    let rest = strnlen_loop left s (len + 1) m in if m (s + len) == 0 then len else rest

unfoldable pub strnlen : ℕ → ℕ → Memory → ℕ
strnlen s maxlen m = strnlen_loop maxlen s 0 m
