-- ===== src/Drivers/Serial.antt =====
-- arch/x86_64/drivers/video/serial.c: the characters that `serial_print` sends. A run that C leaves
-- undefined is `none`, as in `kprintf`.
use pointer_os.Base.{
  ℕ, zero, suc, ◌-◌, ◌%◌, ◌^◌, ◌<◌, ◌≡◌, refl, ap, ◌∙◌, ◌≢◌, ◌&&◌, Option, none, some, List, [],
  ◌∷◌, ◌++◌, reverse, arith, ltb, ◌==◌, if◌then◌else◌, ◌>>=◌,
}
use pointer_os.Drivers.Printf.{temp_digits, Arg, text, word, is_lx}
use pointer_os.Drivers.Printf.Digits.{IsBase, read_number, read-temp_digits}

-- The loop that fills `buf` is the one of `local_putnum`. A `uint32_t` has at most 32 digits.
unfoldable pub serial_put_number : ℕ → ℕ → List ℕ
serial_put_number num base = if num == 0 then 48 ∷ [] else reverse (temp_digits 32 num base)

-- `%d`, given the 32 bits of the `int`: `-i` wraps around for the least one, which has the same
-- bits as its negation.
abbrev pub print_int : ℕ → List ℕ
print_int i =
    if ltb i (2 ^ 31) then serial_put_number i 10 else 45 ∷ serial_put_number (2 ^ 32 - i) 10

-- `%llx`: at most 16 digits of 64 bits.
abbrev pub print_long : ℕ → List ℕ
print_long num = if num == 0 then 48 ∷ [] else reverse (temp_digits 16 num 16)

module _ (nested : List ℕ → Option (List ℕ)) where
  -- The `switch` on the character behind a `%`: how far `p` moves, the arguments that are left, and
  -- the characters sent. `nested` prints the string of `%s`, which is a format of its own.
  pub print_directive : List ℕ → List Arg → Option (ℕ × List Arg × List ℕ)
  print_directive [] args = none
  print_directive (d ∷ rest) args =
      if d == 115
      then string_of args
      else if d == 100
      then number_of (λ w. print_int (w % 2 ^ 32)) 1 args
      else if d == 120
      then number_of (λ w. serial_put_number (w % 2 ^ 32) 16) 1 args
      else if d == 108 && is_lx rest
      then number_of (λ w. print_long (w % 2 ^ 64)) 3 args
      else if d == 112
      then number_of (λ w. 48 ∷ 120 ∷ serial_put_number (w % 2 ^ 32) 16) 1 args
      else if d == 37
      then some (1, args, 37 ∷ [])
      else some (1, args, [])
    where
      string_of : List Arg → Option (ℕ × List Arg × List ℕ)
      string_of (text s ∷ args) = nested s >>= λ r. some (1, args, r)
      string_of _ = none

      number_of : (ℕ → List ℕ) → ℕ → List Arg → Option (ℕ × List Arg × List ℕ)
      number_of f width (word w ∷ args) = some (width, args, f w)
      number_of f width _ = none

  -- The loop over the format; `skip` characters of it belong to the last directive.
  unfoldable pub print_from : List ℕ → ℕ → List Arg → Option (List ℕ)
  print_from [] zero args = some []
  print_from [] (suc skip) args = none
  print_from (c ∷ rest) (suc skip) args = print_from rest skip args
  print_from (c ∷ rest) zero args =
      let plain = print_from rest 0 args >>= λ s. some (c ∷ s) in
      let special =
        print_directive rest args >>= λ r. print_from rest r.0 r.1 >>= λ s. some (r.2 ++ s) in
      if c == 37 then special else plain

-- The inner call has no arguments, so a `%s` in it would have none.
unfoldable pub serial_print : List ℕ → List Arg → Option (List ℕ)
serial_print format args = print_from (λ s. print_from (λ t. none) s 0 []) format 0 args

abbrev pub IsPlain : List ℕ → Type 0
IsPlain [] = Unit
IsPlain (c ∷ s) = (c ≢ 37) × IsPlain s

bind_nothing : (m : Option (List ℕ)) → m ≡ (m >>= λ r. some ([] ++ r))
bind_nothing none = refl
bind_nothing (some r) = refl

bind_more :
    (m : Option (List ℕ)) (c : ℕ) (s : List ℕ)
    → ((m >>= λ r. some (s ++ r)) >>= λ r. some (c ∷ r)) ≡ (m >>= λ r. some (c ∷ s ++ r))
bind_more none c s = refl
bind_more (some r) c s = refl

not_special : (c : ℕ) (x y : Option (List ℕ)) → c ≢ 37 → (if c == 37 then x else y) ≡ y
not_special c x y h = ground arith

print_from-plain :
    (nested : List ℕ → Option (List ℕ)) (s t : List ℕ) (args : List Arg)
    → IsPlain s
    → print_from nested (s ++ t) 0 args ≡ (print_from nested t 0 args >>= λ r. some (s ++ r))
unfolding print_from
print_from-plain nested [] t args h = bind_nothing (print_from nested t 0 args)
print_from-plain nested (c ∷ s) t args h =
    not_special c _ _ h.0
    ∙ ap (λ m. m >>= λ r. some (c ∷ r)) (print_from-plain nested s t args h.1)
    ∙ bind_more (print_from nested t 0 args) c s

-- Text without `%` in front of a format is sent as it stands, before what the rest of the format
-- sends; if the rest is undefined, so is the whole.
serial_print-plain :
    (s t : List ℕ) (args : List Arg)
    → IsPlain s
    → serial_print (s ++ t) args ≡ (serial_print t args >>= λ r. some (s ++ r))
unfolding serial_print
serial_print-plain s t args h = print_from-plain _ s t args h

serial_put_number-suc :
    (n base : ℕ) → serial_put_number (suc n) base ≡ reverse (temp_digits 32 (suc n) base)
unfolding serial_put_number
serial_put_number-suc n base = ground arith

-- For base 10 and 16 the characters sent for a 32-bit number read back as the number.
read-serial_put_number :
    (num base : ℕ)
    → IsBase base
    → num < 2 ^ 32
    → read_number base 0 (serial_put_number num base) ≡ num
unfolding serial_put_number
read-serial_put_number zero base b h = omega arith
read-serial_put_number (suc n) base b h =
    ap (read_number base 0) (serial_put_number-suc n base)
    ∙ read-temp_digits 32 (suc n) base b (omega arith)
