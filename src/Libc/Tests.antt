-- ===== src/Libc/Tests.antt =====
-- Runs of the byte loops.
use pointer_os.Base.{◌%◌, ◌≡◌, refl, inl, arith}
use pointer_os.Libc.{Memory, less, same, greater, memcpy, memcmp}
use pointer_os.Libc.Copy.{memcpy_lem}

-- Each address holds its own low byte.
abbrev ramp : Memory
ramp a = a % 256

compare_runs :
    (memcmp ramp 10 266 4 ≡ same) × (memcmp ramp 10 11 4 ≡ less) × (memcmp ramp 255 256 1 ≡ greater)
unfolding memcmp
compare_runs = (refl, refl, refl)

memcpy_lem_example : memcpy ramp 100 104 8 102 ≡ 106
memcpy_lem_example = memcpy_lem ramp 100 104 8 102 (inl (omega arith))
