-- ===== src/Drivers/Printf.antt =====
-- drivers/lfb/lfb.c: `kprintf` with `CHECK_AND_FLUSH` of include/drivers/lfb.h and `local_putnum`.
-- Characters are their codes. A run that C leaves undefined is `none`: an argument that is missing
-- or of the wrong sort, or a `%` at the end, behind which the loop reads past the terminator.
pub mod Digits
pub mod Buffer
pub mod Expand
use pointer_os.Base.{
  ℕ, zero, suc, ◌+◌, ◌-◌, ◌*◌, ◌/◌, ◌%◌, ◌^◌, ◌≤◌, ◌<◌, min, bit_and, bit_or, bit_xor, ◌≡◌, refl,
  sym, ap, ◌∙◌, fun_ext, ◌≢◌, ◌↔◌, ◌⊎◌, inl, inr, Bool, true, false, ◌&&◌, ◌||◌, not, Option, none,
  some, List, [], ◌∷◌, ◌++◌, map, reverse, append_assoc, append-nil, arith, ltb, leb, ◌==◌,
  if◌then◌else◌, ltb→lt, lt→ltb, ==_iff, Bool-cases, Option-cases, ◌>>=◌, length, get_elem?, take,
  drop, length-append, update, update_self, update_ne, byte_bit, byte_bit-set, byte_bit-clear,
  set-lt, clear-lt, each_below, each_below-at, dec_lt, add64, sub64,
}

-- `digits[d]`
abbrev pub digit : ℕ → ℕ
digit d = if ltb d 10 then 48 + d else 87 + d

-- `temp[j++] = digits[num % base]`, lowest digit first, with `rounds` places left in `temp`.
unfoldable pub temp_digits : ℕ → ℕ → ℕ → List ℕ
temp_digits zero num base = []
temp_digits (suc rounds) num base =
    let rest = temp_digits rounds (num / base) base in
    if num == 0 then [] else digit (num % base) ∷ rest

-- What `local_putnum` stores in `buf`.
unfoldable pub local_putnum : ℕ → ℕ → ℕ → List ℕ
local_putnum max_len num base =
    if num == 0 && ltb 0 max_len then 48 ∷ [] else take max_len (reverse (temp_digits 64 num base))

-- `local_buf` up to `idx`, and the calls of `klog_write` so far.
pub record Out : Type 0 where
  pub buf : List ℕ
  pub written : List (List ℕ)

abbrev pub flush : Out → Out
flush o = record { buf = []; written = o.written ++ o.buf ∷ [] }

-- `CHECK_AND_FLUSH`
abbrev pub check_and_flush : Out → Out
check_and_flush o = if leb 255 (length o.buf) then flush o else o

abbrev pub push : Out → ℕ → Out
push o c = record o { buf = o.buf ++ c ∷ [] }

abbrev pub put_char : Out → ℕ → Out
put_char o c = push (check_and_flush o) c

-- The loop of `%s`.
pub put_text : Out → List ℕ → Out
put_text o [] = o
put_text o (c ∷ s) = put_text (put_char o c) s

unfoldable pub put_number : Out → ℕ → ℕ → Out
put_number o num base =
    let o = if ltb 221 (length o.buf) then flush o else o in
    record o { buf = o.buf ++ local_putnum 255 num base }

unfoldable pub put_hex : Out → ℕ → Out
put_hex o num = put_number (put_char (put_char o 48) 120) num 16

-- `(uint64_t)i` for a negative `int` after `i = -i`, given its 32 bits. The least `int` stays what
-- it is, as on the machine.
abbrev pub negated : ℕ → ℕ
negated i = if i == 2 ^ 31 then 2 ^ 64 - 2 ^ 31 else 2 ^ 32 - i

unfoldable pub put_int : Out → ℕ → Out
put_int o i =
    if ltb i (2 ^ 31) then put_number o i 10 else put_number (put_char o 45) (negated i) 10

-- A variable argument: a string, or a number in a 64-bit slot.
pub data Arg : Type 0 where
  text : List ℕ → Arg
  word : ℕ → Arg

-- The cases of the `switch`, and none of them.
pub data Directive : Type 0 where
  a_string an_int a_hex a_long a_pointer a_percent nothing : Directive

-- `*(p+1) == 'l' && *(p+2) == 'x'`
abbrev pub is_lx : List ℕ → Bool
is_lx (a ∷ b ∷ rest) = a == 108 && b == 120
is_lx _ = false

abbrev pub directive_of : ℕ → List ℕ → Directive
directive_of d rest =
    if d == 115
    then a_string
    else if d == 100
    then an_int
    else if d == 120
    then a_hex
    else if d == 108
    then (if is_lx rest then a_long else nothing)
    else if d == 112
    then a_pointer
    else if d == 37
    then a_percent
    else nothing

-- The directive behind a `%`.
abbrev pub next_directive : List ℕ → Directive
next_directive [] = nothing
next_directive (d ∷ rest) = directive_of d rest

-- How far `p` moves over the directive.
abbrev pub width : Directive → ℕ
width a_long = 3
width _ = 1

pub perform : Directive → List Arg → Out → Option (List Arg × Out)
perform a_string (text s ∷ args) o = some (args, put_text o s)
perform an_int (word w ∷ args) o = some (args, put_int o (w % 2 ^ 32))
perform a_hex (word w ∷ args) o = some (args, put_hex o (w % 2 ^ 32))
perform a_long (word w ∷ args) o = some (args, put_hex o (w % 2 ^ 64))
perform a_pointer (word w ∷ args) o = some (args, put_hex o (w % 2 ^ 64))
perform a_percent args o = some (args, push o 37)
perform nothing args o = some (args, o)
perform _ _ o = none

-- The loop over the format; `skip` characters of it belong to the last directive.
pub kprintf_from : List ℕ → ℕ → List Arg → Out → Option Out
kprintf_from [] zero args o = some o
kprintf_from [] (suc skip) args o = none
kprintf_from (c ∷ rest) (suc skip) args o = kprintf_from rest skip args o
kprintf_from (c ∷ rest) zero args o =
    let plain = kprintf_from rest 0 args (put_char o c) in
    let special = λ (d : Directive).
      perform d args (check_and_flush o) >>= λ r. kprintf_from rest (width d) r.0 r.1 in
    if c == 37 then special (next_directive rest) else plain

-- The texts given to `klog_write`, in order.
unfoldable pub kprintf : List ℕ → List Arg → Option (List (List ℕ))
unfolding kprintf_from
kprintf format args = kprintf_from format 0 args (record { buf = []; written = [] }) >>= λ o.
    some (if ltb 0 (length o.buf) then (flush o).written else o.written)
