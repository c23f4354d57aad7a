-- ===== src/Drivers/Printf/Digits.antt =====
-- The digits that `local_putnum` stores.
use pointer_os.Base.{
  ℕ, zero, suc, ◌+◌, ◌-◌, ◌*◌, ◌/◌, ◌%◌, ◌^◌, ◌≤◌, ◌<◌, ◌≡◌, refl, ap, ◌∙◌, List, [], ◌∷◌, ◌++◌,
  reverse, arith, ltb, if◌then◌else◌, length, take, length-append,
}
use mathlib.Core.List.{reverse-cons}
use pointer_os.Drivers.Printf.{digit, temp_digits, local_putnum}

pub data IsBase : ℕ → Type 0 where
  decimal : IsBase 10
  hexadecimal : IsBase 16

-- The number that a character stands for as a digit.
abbrev pub digit_value : ℕ → ℕ
digit_value c = if ltb c 58 then c - 48 else c - 87

-- Reading a number, the highest digit first.
abbrev pub read_number : ℕ → ℕ → List ℕ → ℕ
read_number base acc [] = acc
read_number base acc (c ∷ s) = read_number base (acc * base + digit_value c) s

read_number-append :
    (base acc : ℕ) (s t : List ℕ)
    → read_number base acc (s ++ t) ≡ read_number base (read_number base acc s) t
read_number-append base acc [] t = refl
read_number-append base acc (c ∷ s) t = read_number-append base (acc * base + digit_value c) s t

digit_value-digit : (d : ℕ) → d < 16 → digit_value (digit d) ≡ d
digit_value-digit d h = ground arith

temp_step : (num base : ℕ) → IsBase base → num / base * base + num % base ≡ num
temp_step num _ decimal = omega arith
temp_step num _ hexadecimal = omega arith

temp_less : (num base n : ℕ) → IsBase base → num < 8 * n → num / base < n
temp_less num _ n decimal h = omega arith
temp_less num _ n hexadecimal h = omega arith

digit_less : (num base : ℕ) → IsBase base → num % base < 16
digit_less num _ decimal = omega arith
digit_less num _ hexadecimal = omega arith

power_step : (n k : ℕ) → n < 8 ^ suc k → n < 8 * 8 ^ k
power_step n k h = omega arith

temp_digits-suc :
    (rounds n base : ℕ)
    → temp_digits (suc rounds) (suc n) base
      ≡ digit (suc n % base) ∷ temp_digits rounds (suc n / base) base
unfolding temp_digits
temp_digits-suc rounds n base = ground arith

pub length-temp_digits :
    (rounds num base k : ℕ) → IsBase base → num < 8 ^ k → length (temp_digits rounds num base) ≤ k
unfolding temp_digits
length-temp_digits zero num base k b h = omega arith
length-temp_digits (suc rounds) zero base k b h = omega arith
length-temp_digits (suc rounds) (suc n) base zero b h = absurd (omega arith)
length-temp_digits (suc rounds) (suc n) base (suc k) b h =
    let rest =
      length-temp_digits rounds (suc n / base) base k b
        (temp_less (suc n) base (8 ^ k) b (power_step (suc n) k h)) in
    omega (arith, ap length (temp_digits-suc rounds n base))

pub read-temp_digits :
    (rounds num base : ℕ)
    → IsBase base
    → num < 8 ^ rounds
    → read_number base 0 (reverse (temp_digits rounds num base)) ≡ num
unfolding temp_digits
read-temp_digits zero num base b h = omega arith
read-temp_digits (suc rounds) zero base b h = refl
read-temp_digits (suc rounds) (suc n) base b h =
    let q = suc n / base in
    let d = suc n % base in
    let s = temp_digits rounds q base in
    ap (λ l. read_number base 0 (reverse l)) (temp_digits-suc rounds n base)
    ∙ ap (read_number base 0) (reverse-cons (digit d) s)
    ∙ read_number-append base 0 (reverse s) (digit d ∷ [])
    ∙ ap (λ v. v * base + digit_value (digit d))
        (read-temp_digits rounds q base b
          (temp_less (suc n) base (8 ^ rounds) b (power_step (suc n) rounds h)))
    ∙ ap (λ v. q * base + v) (digit_value-digit d (digit_less (suc n) base b))
    ∙ temp_step (suc n) base b

take-all : (n : ℕ) (s : List ℕ) → length s ≤ n → take n s ≡ s
take-all zero [] h = refl
take-all (suc n) [] h = refl
take-all zero (c ∷ s) h = absurd (omega arith)
take-all (suc n) (c ∷ s) h = ap (λ t. c ∷ t) (take-all n s (omega arith))

length-reverse : (s : List ℕ) → length (reverse s) ≡ length s
length-reverse [] = refl
length-reverse (c ∷ s) =
    ap length (reverse-cons c s)
    ∙ length-append (reverse s) (c ∷ [])
    ∙ omega (arith, length-reverse s)

local_putnum-suc :
    (n base : ℕ) → local_putnum 255 (suc n) base ≡ take 255 (reverse (temp_digits 64 (suc n) base))
unfolding local_putnum
local_putnum-suc n base = ground arith

-- For base 10 and 16, the characters that `local_putnum` stores for a 64-bit number read back as
-- the number, and there are at most 22 of them.
pub read-local_putnum :
    (num base : ℕ)
    → IsBase base
    → num < 2 ^ 64
    → (read_number base 0 (local_putnum 255 num base) ≡ num)
      × (length (local_putnum 255 num base) ≤ 22)
unfolding local_putnum
read-local_putnum zero base b h = (omega arith, omega arith)
read-local_putnum (suc n) base b h =
    let digits = temp_digits 64 (suc n) base in
    let few = length-temp_digits 64 (suc n) base 22 b (omega arith) in
    let whole = take-all 255 (reverse digits) (omega (arith, length-reverse digits)) in
    (
      ap (read_number base 0) (local_putnum-suc n base ∙ whole)
          ∙ read-temp_digits 64 (suc n) base b (omega arith),
      omega (arith, ap length (local_putnum-suc n base ∙ whole), length-reverse digits),
    )
