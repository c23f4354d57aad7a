-- ===== src/Libc.antt =====
-- libc/string.c: the byte loops, over a memory that maps an address to its byte.
pub mod Fill
pub mod Copy
pub mod Compare
mod Tests
use pointer_os.Base.{ℕ, zero, suc, ◌+◌, ◌%◌, ltb, ◌==◌, if◌then◌else◌, update}

abbrev pub Memory : Type 0
Memory = ℕ → ℕ

-- `while (count--) *ptr++ = (uint8_t)char_val;`
pub memset : Memory → ℕ → ℕ → ℕ → Memory
memset m dest c zero = m
memset m dest c (suc count) = memset (update m dest (c % 256)) (dest + 1) c count

-- `while (count--) *d++ = *s++;`
unfoldable pub memcpy : Memory → ℕ → ℕ → ℕ → Memory
memcpy m dest src zero = m
memcpy m dest src (suc count) = memcpy (update m dest (m src)) (dest + 1) (src + 1) count

-- The result of `memcmp`: -1, 0 or 1.
pub data Order : Type 0 where
  less same greater : Order

-- The loop from index `i` with `rounds` left.
pub memcmp_from : Memory → ℕ → ℕ → ℕ → Order
memcmp_from m s1 s2 zero = same
memcmp_from m s1 s2 (suc rounds) =
    let rest = memcmp_from m (s1 + 1) (s2 + 1) rounds in
    if m s1 == m s2 then rest else (if ltb (m s1) (m s2) then less else greater)

unfoldable pub memcmp : Memory → ℕ → ℕ → ℕ → Order
unfolding memcmp_from
memcmp m s1 s2 size = memcmp_from m s1 s2 size
