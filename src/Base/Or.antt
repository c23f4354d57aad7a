-- ===== src/Base/Or.antt =====
-- `|` on words: it acts on each half of a shift alike, so that a small right side leaves the high
-- part of the left one as it is.
use Prim.Native.Nat.{ℕ, zero, suc, ◌+◌, ◌*◌, ◌/◌, ◌%◌, ◌≤◌, ◌<◌, max, bit_or, bit_or-bitwise}
use mathlib.Core.Path.{◌≡◌, refl}
use native.Mathlib.Omega.{arith}
use pointer_os.Base.Digits.{digits_split}

or_split : (a b : ℕ) → bit_or a b ≡ bit_or (a / 2) (b / 2) * 2 + max (a % 2) (b % 2)
or_split a b = omega (
  arith,
  digits_split max (λ y. omega arith) a b,
  bit_or-bitwise a b,
  bit_or-bitwise (a / 2) (b / 2),
)

zero-bit_or : (b : ℕ) → bit_or 0 b ≡ b
zero-bit_or b = bit_or-bitwise 0 b

or_half : (a b : ℕ) → bit_or a b / 2 ≡ bit_or (a / 2) (b / 2)
or_half a b = omega (arith, or_split a b)

pub or_low : (a b : ℕ) → bit_or a b % 2 ≡ max (a % 2) (b % 2)
or_low a b = omega (arith, or_split a b)

or_nothing : (fuel a : ℕ) → a ≤ fuel → bit_or a 0 ≡ a
or_nothing fuel zero h = refl
or_nothing zero (suc a) h = absurd (omega arith)
or_nothing (suc fuel) (suc a) h =
    omega (arith, or_split (suc a) 0, or_nothing fuel (suc a / 2) (omega arith))

pub bit_or-zero : (a : ℕ) → bit_or a 0 ≡ a
bit_or-zero a = or_nothing a a (omega arith)

or_eighth : (a b : ℕ) → bit_or a b / 8 ≡ bit_or (a / 8) (b / 8)
or_eighth a b =
    let once = or_half a b in
    let twice = or_half (a / 2) (b / 2) in
    let thrice = or_half (a / 2 / 2) (b / 2 / 2) in
    let left : a / 2 / 2 / 2 ≡ a / 8 = omega arith in
    let right : b / 2 / 2 / 2 ≡ b / 8 = omega arith in
    let joined : bit_or (a / 2 / 2 / 2) (b / 2 / 2 / 2) ≡ bit_or (a / 8) (b / 8) = cc in omega arith

-- Bit 2.
pub or_bit_2 : (a b : ℕ) → bit_or a b / 4 % 2 ≡ max (a / 4 % 2) (b / 4 % 2)
or_bit_2 a b =
    let left : a / 2 / 2 ≡ a / 4 = omega arith in
    let right : b / 2 / 2 ≡ b / 4 = omega arith in
    let joined : bit_or (a / 2 / 2) (b / 2 / 2) ≡ bit_or (a / 4) (b / 4) = cc in
    omega (arith, or_half a b, or_half (a / 2) (b / 2), or_low (a / 4) (b / 4))

-- Bit 7.
pub or_bit_7 : (a b : ℕ) → bit_or a b / 128 % 2 ≡ max (a / 128 % 2) (b / 128 % 2)
or_bit_7 a b =
    let left : a / 8 / 8 / 2 ≡ a / 128 = omega arith in
    let right : b / 8 / 8 / 2 ≡ b / 128 = omega arith in
    let joined : bit_or (a / 8 / 8 / 2) (b / 8 / 8 / 2) ≡ bit_or (a / 128) (b / 128) = cc in
    omega (
      arith,
      or_eighth a b,
      or_eighth (a / 8) (b / 8),
      or_half (a / 8 / 8) (b / 8 / 8),
      or_low (a / 128) (b / 128),
    )

-- A word below 2^12 leaves the page number of the left side as it is.
pub or_page : (a b : ℕ) → b < 0x1000 → bit_or a b / 0x1000 ≡ a / 0x1000
or_page a b h =
    let left : a / 8 / 8 / 8 / 8 ≡ a / 0x1000 = omega arith in
    let right : b / 8 / 8 / 8 / 8 ≡ 0 = omega arith in
    let joined : bit_or (a / 8 / 8 / 8 / 8) (b / 8 / 8 / 8 / 8) ≡ bit_or (a / 0x1000) 0 = cc in
    omega (
      arith,
      or_eighth a b,
      or_eighth (a / 8) (b / 8),
      or_eighth (a / 8 / 8) (b / 8 / 8),
      or_eighth (a / 8 / 8 / 8) (b / 8 / 8 / 8),
      bit_or-zero (a / 0x1000),
    )
