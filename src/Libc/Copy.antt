-- ===== src/Libc/Copy.antt =====
-- What `memcpy` writes, also where the two ranges overlap as in `lfb_scroll`.
use pointer_os.Base.{
  ℕ, zero, suc, ◌+◌, ◌-◌, ◌≤◌, ◌≡◌, ◌⊎◌, ◌&&◌, arith, ltb, leb, if◌then◌else◌, update,
}
use pointer_os.Libc.{Memory, memcpy}

-- Where the source does not start below the destination, or ends before it, `memcpy` moves the
-- `count` bytes from `src` to `dest`, and leaves every other address as it was.
pub memcpy_lem :
    (m : Memory) (dest src count a : ℕ)
    → (dest ≤ src) ⊎ (src + count ≤ dest)
    → memcpy m dest src count a
      ≡ (if leb dest a && ltb a (dest + count) then m (src + (a - dest)) else m a)
unfolding memcpy
memcpy_lem m dest src zero a h = ground arith
memcpy_lem m dest src (suc count) a h =
    ground (arith, memcpy_lem (update m dest (m src)) (dest + 1) (src + 1) count a)
