-- ===== src/Base/Words.antt =====
-- Arithmetic of `uint64_t`.
use Prim.Native.Nat.{ℕ, ◌+◌, ◌-◌, ◌%◌, ◌^◌}

abbrev pub add64 : ℕ → ℕ → ℕ
add64 a b = (a + b) % 2 ^ 64

abbrev pub sub64 : ℕ → ℕ → ℕ
sub64 a b = (a + 2 ^ 64 - b) % 2 ^ 64

-- What a computation in `int` that gives `n` is as a `uint64_t`; an overflow wraps around.
abbrev pub int64 : ℕ → ℕ
int64 n = ((n + 2 ^ 31) % 2 ^ 32 + 2 ^ 64 - 2 ^ 31) % 2 ^ 64
