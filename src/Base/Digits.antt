-- ===== src/Base/Digits.antt =====
-- Operations on binary digits that keep the digits of the right side where the left side has none.
use Prim.Native.Nat.{ℕ, zero, suc, ◌+◌, ◌*◌, ◌/◌, ◌%◌, ◌≤◌, digits}
use mathlib.Core.Path.{◌≡◌, refl}
use native.Mathlib.Omega.{arith}

module _ (f : ℕ → ℕ → ℕ) (keeps : (y : ℕ) → f 0 y ≡ y) where
  -- More fuel than the left side changes nothing.
  pub digits-more :
      (a b less more : ℕ)
      → a ≤ less
      → less ≤ more
      → digits (λ rest. rest) f more a b ≡ digits (λ rest. rest) f less a b
  digits-more zero b zero zero h k = refl
  digits-more zero b zero (suc more) h k = refl
  digits-more zero b (suc less) zero h k = absurd (omega arith)
  digits-more zero b (suc less) (suc more) h k = refl
  digits-more (suc a) b zero more h k = absurd (omega arith)
  digits-more (suc a) b (suc less) zero h k = absurd (omega arith)
  digits-more (suc a) b (suc less) (suc more) h k =
      omega (arith, digits-more (suc a / 2) (b / 2) less more (omega arith) (omega arith))

  -- The operation acts on the lowest digits and on the halves.
  pub digits_split :
      (a b : ℕ)
      → digits (λ rest. rest) f a a b
        ≡ digits (λ rest. rest) f (a / 2) (a / 2) (b / 2) * 2 + f (a % 2) (b % 2)
  digits_split zero b = omega (arith, keeps (b % 2))
  digits_split (suc a) b =
      omega (arith, digits-more (suc a / 2) (b / 2) (suc a / 2) a (omega arith) (omega arith))
