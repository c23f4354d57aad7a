-- ===== src/Base/Xor.antt =====
-- `^` with one bit, which turns that bit around.
use Prim.Native.Nat.{ℕ, zero, suc, ◌+◌, ◌*◌, ◌/◌, ◌%◌, ◌^◌, ◌≤◌, bit_xor, differ, bit_xor-bitwise}
use mathlib.Core.Path.{◌≡◌, refl, ap, ◌∙◌}
use native.Mathlib.Omega.{arith}
use native.Mathlib.Nat.{pow-suc, mul_assoc}
use pointer_os.Base.Digits.{digits_split}

xor_split : (a b : ℕ) → bit_xor a b ≡ bit_xor (a / 2) (b / 2) * 2 + differ (a % 2) (b % 2)
xor_split a b = omega (
  arith,
  digits_split differ (λ y. refl) a b,
  bit_xor-bitwise a b,
  bit_xor-bitwise (a / 2) (b / 2),
)

xor_nothing : (fuel a : ℕ) → a ≤ fuel → bit_xor a 0 ≡ a
xor_nothing fuel zero h = bit_xor-bitwise 0 0
xor_nothing zero (suc a) h = absurd (omega arith)
xor_nothing (suc fuel) (suc a) h =
    omega (arith, xor_split (suc a) 0, xor_nothing fuel (suc a / 2) (omega arith), keep (suc a % 2))
  where
    keep : (x : ℕ) → differ x 0 ≡ x
    keep zero = refl
    keep (suc x) = refl

xor_odd : (q : ℕ) → bit_xor (q * 2 + 1) 1 ≡ q * 2
xor_odd q =
    let half : (q * 2 + 1) / 2 ≡ q = omega arith in
    let low : (q * 2 + 1) % 2 ≡ 1 = omega arith in
    xor_split (q * 2 + 1) 1 ∙ rw (half, low, xor_nothing q q (omega arith)) (omega arith)

xor_even : (q : ℕ) → bit_xor (q * 2) 1 ≡ q * 2 + 1
xor_even q =
    let half : (q * 2) / 2 ≡ q = omega arith in
    let low : (q * 2) % 2 ≡ 0 = omega arith in
    xor_split (q * 2) 1 ∙ rw (half, low, xor_nothing q q (omega arith)) (omega arith)

xor_shift : (n m : ℕ) → bit_xor (m * 2 ^ n) (2 ^ n) ≡ bit_xor m 1 * 2 ^ n
xor_shift zero m = let unit : m * 1 ≡ m = omega arith in rw unit (omega arith)
xor_shift (suc n) m =
    let two : 2 ^ suc n ≡ 2 ^ n * 2 = omega (arith, pow-suc 2 n) in
    let left : m * 2 ^ suc n ≡ m * 2 ^ n * 2 =
      ap (λ (t : ℕ). m * t) two ∙ omega (arith, mul_assoc m (2 ^ n) 2) in
    let left_half : m * 2 ^ suc n / 2 ≡ m * 2 ^ n = omega arith in
    let left_low : m * 2 ^ suc n % 2 ≡ 0 = omega arith in
    let right_half : 2 ^ suc n / 2 ≡ 2 ^ n = omega arith in
    let right_low : 2 ^ suc n % 2 ≡ 0 = omega arith in
    let halves = xor_shift n m in
    let back : bit_xor m 1 * 2 ^ suc n ≡ bit_xor m 1 * 2 ^ n * 2 =
      ap (λ (t : ℕ). bit_xor m 1 * t) two ∙ omega (arith, mul_assoc (bit_xor m 1) (2 ^ n) 2) in
    xor_split (m * 2 ^ suc n) (2 ^ suc n)
    ∙ rw (left_half, left_low, right_half, right_low, halves) (omega (arith, back))

-- Between a pair of neighbours `^` goes up and down.
pub xor_up : (n q : ℕ) → bit_xor (q * 2 * 2 ^ n) (2 ^ n) ≡ (q * 2 + 1) * 2 ^ n
xor_up n q = xor_shift n (q * 2) ∙ ap (λ (t : ℕ). t * 2 ^ n) (xor_even q)

pub xor_down : (n q : ℕ) → bit_xor ((q * 2 + 1) * 2 ^ n) (2 ^ n) ≡ q * 2 * 2 ^ n
xor_down n q = xor_shift n (q * 2 + 1) ∙ ap (λ (t : ℕ). t * 2 ^ n) (xor_odd q)
