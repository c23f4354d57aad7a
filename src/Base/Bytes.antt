-- ===== src/Base/Bytes.antt =====
-- Facts about single bits of a byte, by evaluation over all bytes and bit numbers.
use Prim.Native.Nat.{ℕ, zero, suc, ◌-◌, ◌^◌, ◌<◌, bit_and, bit_or}
use mathlib.Core.Path.{◌≡◌, refl}
use mathlib.Core.Bool.{Bool, true, false, ◌&&◌, ◌||◌, not}
use native.Mathlib.Omega.{arith}
use pointer_os.Base.Tests.{◌==◌, ltb, ltb→lt}

abbrev pub bool_eq : Bool → Bool → Bool
bool_eq true b = b
bool_eq false b = not b

bool_eq→eq : (a b : Bool) → bool_eq a b ≡ true → a ≡ b
bool_eq→eq a b h = ground arith

and_left : (a b : Bool) → (a && b) ≡ true → a ≡ true
and_left a b h = ground arith

and_right : (a b : Bool) → (a && b) ≡ true → b ≡ true
and_right a b h = ground arith

-- The test `holds` at every number below the bound.
pub each_below : ℕ → (ℕ → Bool) → Bool
each_below zero holds = true
each_below (suc bound) holds = each_below bound holds && holds bound

pub each_below-at :
    (holds : ℕ → Bool) (bound k : ℕ) → k < bound → each_below bound holds ≡ true → holds k ≡ true
unfolding each_below
each_below-at holds zero k below table = absurd (omega arith)
each_below-at holds (suc bound) k below table = ground (arith, each_below-at holds bound k)

-- Bit `k` of the byte `v`, as `v & (1 << k)` tests it.
abbrev pub byte_bit : ℕ → ℕ → Bool
byte_bit v k = not (bit_and v (2 ^ k) == 0)

set_table :
    each_below 8 (λ k. each_below 8 (λ l. each_below 256 (λ v.
      bool_eq (byte_bit (bit_or v (2 ^ k)) l) ((l == k) || byte_bit v l)
      && ltb (bit_or v (2 ^ k)) 256)))
    ≡ true
unfolding each_below
set_table = refl

clear_table :
    each_below 8 (λ k. each_below 8 (λ l. each_below 256 (λ v.
      bool_eq (byte_bit (bit_and v (255 - 2 ^ k)) l) (not (l == k) && byte_bit v l)
      && ltb (bit_and v (255 - 2 ^ k)) 256)))
    ≡ true
unfolding each_below
clear_table = refl

module _ (v k l : ℕ) (hv : v < 256) (hk : k < 8) (hl : l < 8) where
  set_entry :
      (bool_eq (byte_bit (bit_or v (2 ^ k)) l) ((l == k) || byte_bit v l)
        && ltb (bit_or v (2 ^ k)) 256)
      ≡ true
  set_entry = each_below-at _ 256 v hv (each_below-at _ 8 l hl (each_below-at _ 8 k hk set_table))

  clear_entry :
      (bool_eq (byte_bit (bit_and v (255 - 2 ^ k)) l) (not (l == k) && byte_bit v l)
        && ltb (bit_and v (255 - 2 ^ k)) 256)
      ≡ true
  clear_entry =
      each_below-at _ 256 v hv (each_below-at _ 8 l hl (each_below-at _ 8 k hk clear_table))

  pub byte_bit-set : byte_bit (bit_or v (2 ^ k)) l ≡ ((l == k) || byte_bit v l)
  byte_bit-set = bool_eq→eq _ _ (and_left _ _ set_entry)

  pub byte_bit-clear : byte_bit (bit_and v (255 - 2 ^ k)) l ≡ (not (l == k) && byte_bit v l)
  byte_bit-clear = bool_eq→eq _ _ (and_left _ _ clear_entry)

  pub set-lt : bit_or v (2 ^ k) < 256
  set-lt = ltb→lt _ _ (and_right _ _ set_entry)

  pub clear-lt : bit_and v (255 - 2 ^ k) < 256
  clear-lt = ltb→lt _ _ (and_right _ _ clear_entry)

full_table : each_below 8 (byte_bit 255) ≡ true
unfolding each_below
full_table = refl

pub byte_bit-full : (k : ℕ) → k < 8 → byte_bit 255 k ≡ true
byte_bit-full k h = each_below-at (byte_bit 255) 8 k h full_table
