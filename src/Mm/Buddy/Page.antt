-- ===== src/Mm/Buddy/Page.antt =====
-- The pages of the heap, their addresses, and the two halves of a block.
use pointer_os.Base.{
  ℕ, zero, suc, ◌+◌, ◌-◌, ◌*◌, ◌^◌, ◌≤◌, ◌<◌, ◌≡◌, sym, ap, ◌∙◌, arith, xor_up, xor_down,
}
use native.Mathlib.Nat.{pow-suc}
use pointer_os.Mm.Buddy.{heap_start, page_index, buddy_of}

-- The address of page `p`.
abbrev pub address : ℕ → ℕ
address p = heap_start + p * 0x1000

pub page_index-address : (p : ℕ) → p < 4096 → page_index (address p) ≡ p
page_index-address p h = omega arith

pub address_inj : (p q : ℕ) → address p ≡ address q → p ≡ q
address_inj p q e = omega arith

pub two_pow_pos : (k : ℕ) → 0 < 2 ^ k
two_pow_pos zero = omega arith
two_pow_pos (suc k) = omega (arith, two_pow_pos k, pow-suc 2 k)

pub pow_sum : (a b : ℕ) → 2 ^ (a + b) ≡ 2 ^ a * 2 ^ b
pow_sum a zero = let whole : a + 0 ≡ a = omega arith in rw whole (omega arith)
pow_sum a (suc b) =
    let shift : a + suc b ≡ suc (a + b) = omega arith in
    rw (shift, pow-suc 2 (a + b), pow-suc 2 b, pow_sum a b) (omega arith)

unit_scaled : (i : ℕ) → 2 ^ i * 0x1000 ≡ 2 ^ (i + 12)
unit_scaled i = sym (pow_sum i 12)

scaled :
    (a b m : ℕ)
    → a * b ≡ 2 ^ 32
    → heap_start + m * b * 0x1000 ≡ (0x7ffff * a * 2 + m) * (b * 0x1000)
scaled a b m h = omega (arith, h)

-- In units of 2^i pages the heap starts at an even number.
address_scaled :
    (i m : ℕ) → i ≤ 12 → address (m * 2 ^ i) ≡ (0x7ffff * 2 ^ (32 - i) * 2 + m) * 2 ^ (i + 12)
address_scaled i m h =
    let sum : 32 - i + i ≡ 32 = omega arith in
    let whole : 2 ^ (32 - i) * 2 ^ i ≡ 2 ^ 32 =
      sym (pow_sum (32 - i) i) ∙ ap (λ (k : ℕ). 2 ^ k) sum in
    rw (sym (unit_scaled i)) (scaled (2 ^ (32 - i)) (2 ^ i) m whole)

-- The buddy of the lower half of a block is the upper half, and the other way round.
pub buddy_of_lower :
    (i q : ℕ) → i ≤ 12 → buddy_of (address (q * 2 * 2 ^ i)) i ≡ address (q * 2 * 2 ^ i + 2 ^ i)
buddy_of_lower i q h =
    let g = 0x7ffff * 2 ^ (32 - i) + q in
    let here : address (q * 2 * 2 ^ i) ≡ g * 2 * 2 ^ (i + 12) =
      address_scaled i (q * 2) h ∙ omega arith in
    let there = address_scaled i (q * 2 + 1) h in
    rw (here, unit_scaled i, xor_up (i + 12) g) (omega (arith, there))

pub buddy_of_upper :
    (i q : ℕ) → i ≤ 12 → buddy_of (address (q * 2 * 2 ^ i + 2 ^ i)) i ≡ address (q * 2 * 2 ^ i)
buddy_of_upper i q h =
    let g = 0x7ffff * 2 ^ (32 - i) + q in
    let next : q * 2 * 2 ^ i + 2 ^ i ≡ (q * 2 + 1) * 2 ^ i = omega arith in
    let here : address (q * 2 * 2 ^ i + 2 ^ i) ≡ (g * 2 + 1) * 2 ^ (i + 12) =
      ap address next ∙ address_scaled i (q * 2 + 1) h ∙ omega arith in
    let there = address_scaled i (q * 2) h in
    rw (here, unit_scaled i, xor_down (i + 12) g) (omega (arith, there))
