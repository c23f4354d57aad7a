-- ===== src/Libc/Fill.antt =====
-- What `memset` writes.
use pointer_os.Base.{ℕ, zero, suc, ◌+◌, ◌%◌, ◌≡◌, ◌&&◌, arith, ltb, leb, if◌then◌else◌, update}
use pointer_os.Libc.{Memory, memset}

-- `memset` writes the low byte of the value at each of the `count` addresses from `dest` on, and
-- leaves every other address as it was.
pub memset_lem :
    (m : Memory) (dest c count a : ℕ)
    → memset m dest c count a ≡ (if leb dest a && ltb a (dest + count) then c % 256 else m a)
unfolding memset
memset_lem m dest c zero a = ground arith
memset_lem m dest c (suc count) a =
    ground (arith, memset_lem (update m dest (c % 256)) (dest + 1) c count a)
