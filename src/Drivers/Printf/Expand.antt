-- ===== src/Drivers/Printf/Expand.antt =====
-- What `kprintf` writes: the text of the format, in pieces that fit the buffer.
use pointer_os.Base.{
  ℕ, zero, suc, ◌%◌, ◌^◌, ◌≤◌, ◌≡◌, refl, sym, ap, ◌∙◌, Bool, true, false, Option, none, some, List,
  [], ◌∷◌, ◌++◌, append-nil, arith, ltb, ◌==◌, if◌then◌else◌, ◌>>=◌, length,
}
use mathlib.Core.Path.{subst}
use pointer_os.Drivers.Printf.{
  Out, flush, check_and_flush, put_char, Arg, text, word, Directive, a_string, an_int, a_hex,
  a_long, a_pointer, a_percent, nothing, next_directive, width, perform, kprintf_from, kprintf,
}
use pointer_os.Drivers.Printf.Buffer.{
  number, int_text, concat, Short, so_far, Put, flush-Put, then-Put, check-Put, push-Put,
  put_char-Put, put_text-Put, put_int-Put, put_hex-Put,
}

-- The text of a directive, and the arguments that are left.
abbrev pub directive_text : Directive → List Arg → Option (List Arg × List ℕ)
directive_text a_string (text s ∷ args) = some (args, s)
directive_text an_int (word w ∷ args) = some (args, int_text (w % 2 ^ 32))
directive_text a_hex (word w ∷ args) = some (args, 48 ∷ 120 ∷ number (w % 2 ^ 32) 16)
directive_text a_long (word w ∷ args) = some (args, 48 ∷ 120 ∷ number (w % 2 ^ 64) 16)
directive_text a_pointer (word w ∷ args) = some (args, 48 ∷ 120 ∷ number (w % 2 ^ 64) 16)
directive_text a_percent args = some (args, 37 ∷ [])
directive_text nothing args = some (args, [])
directive_text _ _ = none

-- The text of a format, without a buffer.
unfoldable pub expand : List ℕ → ℕ → List Arg → Option (List ℕ)
expand [] zero args = some []
expand [] (suc skip) args = none
expand (c ∷ rest) (suc skip) args = expand rest skip args
expand (c ∷ rest) zero args =
    let plain = expand rest 0 args >>= λ s. some (c ∷ s) in
    let special = λ (d : Directive).
      directive_text d args >>= λ r. expand rest (width d) r.0 >>= λ s. some (r.1 ++ s) in
    if c == 37 then special (next_directive rest) else plain

-- A directive and its text succeed together, with the same arguments left.
abbrev Did : Out → Option (List Arg × Out) → Option (List Arg × List ℕ) → Type 0
Did o (some (args, o')) (some (args', s)) = (args ≡ args') × Put o o' s 255
Did o none none = Unit
Did o _ _ = ⊥

perform-Did :
    (d : Directive) (args : List Arg) (o : Out)
    → Short o.written
    → length o.buf ≤ 254
    → Did o (perform d args o) (directive_text d args)
unfolding perform
perform-Did a_string (text s ∷ args) o h l = (refl, put_text-Put s o h (omega arith))
perform-Did a_string (word w ∷ args) o h l = tt
perform-Did a_string [] o h l = tt
perform-Did an_int (word w ∷ args) o h l =
    (refl, put_int-Put o (w % 2 ^ 32) (omega arith) h (omega arith))
perform-Did an_int (text s ∷ args) o h l = tt
perform-Did an_int [] o h l = tt
perform-Did a_hex (word w ∷ args) o h l =
    (refl, put_hex-Put o (w % 2 ^ 32) (omega arith) h (omega arith))
perform-Did a_hex (text s ∷ args) o h l = tt
perform-Did a_hex [] o h l = tt
perform-Did a_long (word w ∷ args) o h l =
    (refl, put_hex-Put o (w % 2 ^ 64) (omega arith) h (omega arith))
perform-Did a_long (text s ∷ args) o h l = tt
perform-Did a_long [] o h l = tt
perform-Did a_pointer (word w ∷ args) o h l =
    (refl, put_hex-Put o (w % 2 ^ 64) (omega arith) h (omega arith))
perform-Did a_pointer (text s ∷ args) o h l = tt
perform-Did a_pointer [] o h l = tt
perform-Did a_percent args o h l = (refl, push-Put o 37 254 h l)
perform-Did nothing args o h l = (refl, (sym (append-nil (so_far o)), h, omega arith))

-- The run and the plain expansion of the format both go wrong or both succeed, and then the run has
-- put the text.
abbrev Ran : Out → Option Out → Option (List ℕ) → Type 0
Ran o (some o') (some s) = Put o o' s 255
Ran o none none = Unit
Ran o _ _ = ⊥

Ran-then :
    (o o1 : Out) (t : List ℕ) (n : ℕ) (r : Option Out) (e : Option (List ℕ))
    → Put o o1 t n
    → Ran o1 r e
    → Ran o r (e >>= λ s. some (t ++ s))
Ran-then o o1 t n (some o') (some s) h k = then-Put o o1 o' t s n 255 h k
Ran-then o o1 t n none none h k = tt
Ran-then o o1 t n none (some s) h k = absurd k
Ran-then o o1 t n (some o') none h k = absurd k

Ran-directive :
    (o o1 : Out) (d : Option (List Arg × Out)) (t : Option (List Arg × List ℕ))
    (run : List Arg → Out → Option Out) (text_of : List Arg → Option (List ℕ))
    → Put o o1 [] 254
    → Did o1 d t
    → ((args : List Arg) (o2 : Out)
        → Short o2.written
        → length o2.buf ≤ 255
        → Ran o2 (run args o2) (text_of args))
    → Ran o (d >>= λ r. run r.0 r.1) (t >>= λ r. text_of r.0 >>= λ s. some (r.1 ++ s))
Ran-directive o o1 (some (args, o2)) (some (args', s)) run text_of checked h k =
    Ran-then o o2 s 255 (run args o2) (text_of args') (then-Put o o1 o2 [] s 254 255 checked h.1)
      (subst (λ (a : List Arg). Ran o2 (run args o2) (text_of a)) h.0 (k args o2 h.1.1 h.1.2))
Ran-directive o o1 none none run text_of checked h k = tt
Ran-directive o o1 none (some _) run text_of checked h k = absurd h
Ran-directive o o1 (some _) none run text_of checked h k = absurd h

Ran-if :
    (o : Out) (b : Bool) (r r' : Option Out) (e e' : Option (List ℕ))
    → Ran o r e
    → Ran o r' e'
    → Ran o (if b then r else r') (if b then e else e')
Ran-if o true r r' e e' h k = h
Ran-if o false r r' e e' h k = k

kprintf_from-Ran :
    (format : List ℕ) (skip : ℕ) (args : List Arg) (o : Out)
    → Short o.written
    → length o.buf ≤ 255
    → Ran o (kprintf_from format skip args o) (expand format skip args)
unfolding kprintf_from expand
kprintf_from-Ran [] zero args o h l = (sym (append-nil (so_far o)), h, l)
kprintf_from-Ran [] (suc skip) args o h l = tt
kprintf_from-Ran (c ∷ rest) (suc skip) args o h l = kprintf_from-Ran rest skip args o h l
kprintf_from-Ran (c ∷ rest) zero args o h l =
    let checked = check-Put o h l in
    let d = next_directive rest in
    let one = put_char-Put o c h l in
    Ran-if o (c == 37) _ _ _ _
      (Ran-directive o (check_and_flush o) (perform d args (check_and_flush o))
        (directive_text d args) (kprintf_from rest (width d)) (expand rest (width d)) checked
        (perform-Did d args (check_and_flush o) checked.1 checked.2)
        (kprintf_from-Ran rest (width d)))
      (Ran-then o (put_char o c) (c ∷ []) 255 (kprintf_from rest 0 args (put_char o c))
        (expand rest 0 args) one (kprintf_from-Ran rest 0 args (put_char o c) one.1 one.2))

-- The pieces that `kprintf` writes make up the text of the format, each of them short.
abbrev pub Pieces : Option (List (List ℕ)) → Option (List ℕ) → Type 0
Pieces (some ss) (some s) = (concat ss ≡ s) × Short ss
Pieces none none = Unit
Pieces _ _ = ⊥

last_flush-Pieces :
    (o : Out) (s : List ℕ) (b : Bool)
    → (b ≡ false → o.buf ≡ [])
    → so_far o ≡ s
    → Short o.written
    → length o.buf ≤ 255
    → Pieces (some (if b then (flush o).written else o.written)) (some s)
last_flush-Pieces o s true e h k l =
    let done = flush-Put o k l in
    (
      sym (append-nil (concat (o.written ++ o.buf ∷ []))) ∙ done.0 ∙ append-nil (so_far o) ∙ h,
      done.1,
    )
last_flush-Pieces o s false e h k l =
    (sym (append-nil (concat o.written)) ∙ ap (λ r. concat o.written ++ r) (sym (e refl)) ∙ h, k)

no_length : (s : List ℕ) → ltb 0 (length s) ≡ false → s ≡ []
no_length [] h = refl
no_length (c ∷ s) h = absurd (ground arith)

Pieces-Ran :
    (r : Option Out) (e : Option (List ℕ))
    → Ran (record { buf = []; written = [] }) r e
    → Pieces (r >>= λ o. some (if ltb 0 (length o.buf) then (flush o).written else o.written)) e
Pieces-Ran (some o) (some s) h =
    last_flush-Pieces o s (ltb 0 (length o.buf)) (no_length o.buf) h.0 h.1 h.2
Pieces-Ran none none h = tt
Pieces-Ran none (some s) h = absurd h
Pieces-Ran (some o) none h = absurd h

-- `kprintf` succeeds if and only if the format and its arguments have a text. The pieces that it
-- then gives to `klog_write`, one after another, are that text, and none is longer than 255 bytes.
pub kprintf-Pieces :
    (format : List ℕ) (args : List Arg) → Pieces (kprintf format args) (expand format 0 args)
unfolding kprintf
kprintf-Pieces format args =
    Pieces-Ran (kprintf_from format 0 args (record { buf = []; written = [] }))
      (expand format 0 args)
      (kprintf_from-Ran format 0 args (record { buf = []; written = [] }) tt (omega arith))
