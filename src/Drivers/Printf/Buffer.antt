-- ===== src/Drivers/Printf/Buffer.antt =====
-- What each step of `kprintf` puts into its buffer.
use pointer_os.Base.{
  ℕ, suc, ◌^◌, ◌≤◌, ◌<◌, ◌≡◌, refl, sym, ap, ◌∙◌, Bool, true, false, List, [], ◌∷◌, ◌++◌,
  append_assoc, append-nil, arith, ltb, leb, if◌then◌else◌, length, length-append,
}
use pointer_os.Drivers.Printf.{
  local_putnum, Out, flush, check_and_flush, push, put_char, put_text, put_number, put_hex, put_int,
  negated,
}
use pointer_os.Drivers.Printf.Digits.{decimal, hexadecimal, IsBase, read-local_putnum}

abbrev pub number : ℕ → ℕ → List ℕ
number num base = local_putnum 255 num base

abbrev pub int_text : ℕ → List ℕ
int_text i = if ltb i (2 ^ 31) then number i 10 else 45 ∷ number (negated i) 10

abbrev pub concat : List (List ℕ) → List ℕ
concat [] = []
concat (s ∷ ss) = s ++ concat ss

-- Every piece fits the buffer of 256 bytes with one to spare.
abbrev pub Short : List (List ℕ) → Type 0
Short [] = Unit
Short (s ∷ ss) = (length s ≤ 255) × Short ss

abbrev pub so_far : Out → List ℕ
so_far o = concat o.written ++ o.buf

-- From `o` to `o'` the text `s` is put, and `o'` has at most `n` characters in its buffer.
abbrev pub Put : Out → Out → List ℕ → ℕ → Type 0
Put o o' s n = (so_far o' ≡ so_far o ++ s) × Short o'.written × (length o'.buf ≤ n)

concat-append : (ss ts : List (List ℕ)) → concat (ss ++ ts) ≡ concat ss ++ concat ts
concat-append [] ts = refl
concat-append (s ∷ ss) ts =
    ap (λ t. s ++ t) (concat-append ss ts) ∙ sym (append_assoc s (concat ss) (concat ts))

Short-snoc : (ss : List (List ℕ)) (s : List ℕ) → Short ss → length s ≤ 255 → Short (ss ++ s ∷ [])
Short-snoc [] s h l = (l, tt)
Short-snoc (t ∷ ss) s h l = (h.0, Short-snoc ss s h.1 l)

pub then-Put :
    (o o' o'' : Out) (s t : List ℕ) (m n : ℕ) → Put o o' s m → Put o' o'' t n → Put o o'' (s ++ t) n
then-Put o o' o'' s t m n h k = (k.0 ∙ ap (λ r. r ++ t) h.0 ∙ append_assoc (so_far o) s t, k.1, k.2)

pub flush-Put : (o : Out) → Short o.written → length o.buf ≤ 255 → Put o (flush o) [] 0
flush-Put o h l = (simp (concat-append, append-nil), Short-snoc o.written o.buf h l, omega arith)

flush_if-Put :
    (o : Out) (b : Bool) (n : ℕ)
    → Short o.written
    → length o.buf ≤ 255
    → (b ≡ false → length o.buf ≤ n)
    → Put o (if b then flush o else o) [] n
flush_if-Put o true n h l k = let done = flush-Put o h l in (done.0, done.1, omega (arith, done.2))
flush_if-Put o false n h l k = (sym (append-nil (so_far o)), h, k refl)

pub check-Put : (o : Out) → Short o.written → length o.buf ≤ 255 → Put o (check_and_flush o) [] 254
check-Put o h l = flush_if-Put o (leb 255 (length o.buf)) 254 h l (λ below. ground arith)

pub push-Put :
    (o : Out) (c n : ℕ) → Short o.written → length o.buf ≤ n → Put o (push o c) (c ∷ []) (suc n)
push-Put o c n h l = (
  sym (append_assoc (concat o.written) o.buf (c ∷ [])),
  h,
  omega (arith, length-append o.buf (c ∷ [])),
)

pub put_char-Put :
    (o : Out) (c : ℕ) → Short o.written → length o.buf ≤ 255 → Put o (put_char o c) (c ∷ []) 255
put_char-Put o c h l =
    let checked = check-Put o h l in
    then-Put o (check_and_flush o) (put_char o c) [] (c ∷ []) 254 255 checked
      (push-Put (check_and_flush o) c 254 checked.1 checked.2)

pub put_text-Put :
    (s : List ℕ) (o : Out) → Short o.written → length o.buf ≤ 255 → Put o (put_text o s) s 255
unfolding put_text
put_text-Put [] o h l = (sym (append-nil (so_far o)), h, l)
put_text-Put (c ∷ s) o h l =
    let one = put_char-Put o c h l in
    then-Put o (put_char o c) (put_text (put_char o c) s) (c ∷ []) s 255 255 one
      (put_text-Put s (put_char o c) one.1 one.2)

put_number-Put :
    (o : Out) (num base : ℕ)
    → IsBase base
    → num < 2 ^ 64
    → Short o.written
    → length o.buf ≤ 255
    → Put o (put_number o num base) (number num base) 255
unfolding put_number
put_number-Put o num base b small h l =
    let room = if ltb 221 (length o.buf) then flush o else o in
    let made = flush_if-Put o (ltb 221 (length o.buf)) 221 h l (λ below. ground arith) in
    let few = (read-local_putnum num base b small).1 in
    then-Put o room (put_number o num base) [] (number num base) 221 255 made (
      sym (append_assoc (concat room.written) room.buf (number num base)),
      made.1,
      omega (arith, length-append room.buf (number num base), few, made.2),
    )

pub put_hex-Put :
    (o : Out) (num : ℕ)
    → num < 2 ^ 64
    → Short o.written
    → length o.buf ≤ 255
    → Put o (put_hex o num) (48 ∷ 120 ∷ number num 16) 255
unfolding put_hex
put_hex-Put o num small h l =
    let o1 = put_char o 48 in
    let o2 = put_char o1 120 in
    let zero_put = put_char-Put o 48 h l in
    let x_put = put_char-Put o1 120 zero_put.1 zero_put.2 in
    then-Put o o1 (put_hex o num) (48 ∷ []) (120 ∷ number num 16) 255 255 zero_put (
      then-Put o1 o2 (put_hex o num) (120 ∷ []) (number num 16) 255 255 x_put
        (put_number-Put o2 num 16 hexadecimal small x_put.1 x_put.2))

signed-Put :
    (o : Out) (i : ℕ) (b : Bool)
    → i < 2 ^ 64
    → negated i < 2 ^ 64
    → Short o.written
    → length o.buf ≤ 255
    → Put o
        (if b then put_number o i 10 else put_number (put_char o 45) (negated i) 10)
        (if b then number i 10 else 45 ∷ number (negated i) 10)
        255
signed-Put o i true small small' h l = put_number-Put o i 10 decimal small h l
signed-Put o i false small small' h l =
    let sign = put_char-Put o 45 h l in
    then-Put o (put_char o 45) (put_number (put_char o 45) (negated i) 10) (45 ∷ [])
      (number (negated i) 10) 255 255 sign
      (put_number-Put (put_char o 45) (negated i) 10 decimal small' sign.1 sign.2)

pub put_int-Put :
    (o : Out) (i : ℕ)
    → i < 2 ^ 32
    → Short o.written
    → length o.buf ≤ 255
    → Put o (put_int o i) (int_text i) 255
unfolding put_int
put_int-Put o i small h l = signed-Put o i (ltb i (2 ^ 31)) (omega arith) (ground arith) h l
