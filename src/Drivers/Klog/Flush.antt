-- ===== src/Drivers/Klog/Flush.antt =====
-- `klog_flush_to_screen` prints the characters that the log holds.
use pointer_os.Base.{
  ℕ, zero, suc, ◌+◌, ◌-◌, ◌%◌, ◌≤◌, ◌<◌, ◌≡◌, refl, ap, ◌∙◌, ◌≢◌, inl, inr, true, false, ◌||◌,
  Option, none, some, List, [], ◌∷◌, ◌++◌, append-nil, arith, ltb, ◌==◌, if◌then◌else◌, Bool-cases,
  ◌>>=◌, length, drop, update_ne, add64, sub64,
}
use mathlib.Core.Path.{subst}
use pointer_os.Kernel.Spinlock.{Cpu}
use pointer_os.Drivers.Klog.{
  Klog, drop_text, catch_up, print_entry, flush_from, klog_flush_to_screen, with_read_lock,
  flush-with_read_lock,
}
use pointer_os.Drivers.Klog.Write.{char_at, Holds}

char_at-drop : (n : ℕ) (p : List ℕ) (i : ℕ) → char_at (drop n p) i ≡ char_at p (n + i)
char_at-drop zero p i = ap (char_at p) (omega arith)
char_at-drop (suc n) [] i = refl
char_at-drop (suc n) (x ∷ p) i =
    let next : suc n + i ≡ suc (n + i) = omega arith in rw next (char_at-drop n p i)

length-drop : (n : ℕ) (p : List ℕ) → length (drop n p) ≡ length p - n
length-drop zero p = omega arith
length-drop (suc n) [] = omega arith
length-drop (suc n) (x ∷ p) = omega (arith, length-drop n p)

-- The oldest characters are given up when more than 4096 have come together.
drop_old :
    (k : Klog) (p : List ℕ)
    → Holds k p
    → 4096 < length p
    → Holds (record k { klog_tail = sub64 k.klog_head 4096 }) (drop (length p - 4096) p)
drop_old k p holds many =
    let n = length p - 4096 in
    let split : n + 4096 ≡ length p = omega arith in
    record {
      there = holds.there;
      head = holds.head;
      tail = omega arith;
      count = omega (arith, holds.head, holds.tail, holds.count, length-drop n p);
      write_lock = holds.write_lock;
      read_lock = holds.read_lock;
      stored = λ i hi recent.
          let slot : (sub64 k.klog_head 4096 + i) % 4096 ≡ (k.klog_tail + (n + i)) % 4096 =
            omega (arith, holds.head, holds.tail, holds.count, split) in
          rw (slot, char_at-drop n p i)
            (holds.stored (n + i) (omega (arith, length-drop n p)) (omega arith));
    }

-- One character is printed.
print_one :
    (k : Klog) (x : ℕ) (p : List ℕ)
    → Holds k (x ∷ p)
    → length (x ∷ p) ≤ 4096
    → Holds (print_entry k) p
print_one k x p holds few = record {
  there = holds.there;
  head = holds.head;
  tail = omega arith;
  count = omega (arith, holds.head, holds.tail, holds.count);
  write_lock = holds.write_lock;
  read_lock = holds.read_lock;
  stored = λ i hi recent.
      let slot : (add64 k.klog_tail 1 + i) % 4096 ≡ (k.klog_tail + suc i) % 4096 = omega arith in
      let other : (k.klog_tail + suc i) % 4096 ≢ k.klog_tail % 4096 =
        λ e. absurd (omega (arith, e)) in
      rw slot (
        update_ne k.klog_buffer (k.klog_tail % 4096) _ ((k.klog_tail + suc i) % 4096) other
        ∙ holds.stored (suc i) (omega arith) (omega arith));
}

-- What a flush prints.
abbrev pub printed : List ℕ → List ℕ
printed p = if ltb 4096 (length p) then drop_text ++ drop (length p - 4096) p else p

-- A round of the flush after its start.
abbrev pub round : ℕ → Klog × List ℕ → Option (Klog × List ℕ)
round fuel (k, mark) =
    let entry = k.klog_buffer (k.klog_tail % 4096) in
    let rest = flush_from fuel (print_entry k) >>= λ r. some (r.0, mark ++ entry.c ∷ r.1) in
    let taken = if k.klog_write_lock.lock == 0 then rest else none in
    if k.klog_tail == k.klog_head || entry.ready == 0 then some (k, mark) else taken

pub flush_from-round : (fuel : ℕ) (k : Klog) → flush_from (suc fuel) k ≡ round fuel (catch_up k)
unfolding flush_from
flush_from-round fuel k = refl

few_kept : (k : Klog) (p : List ℕ) → Holds k p → length p ≤ 4096 → catch_up k ≡ (k, [])
few_kept k p holds few =
    let small : ltb 4096 (sub64 k.klog_head k.klog_tail) ≡ false = ground (arith, holds.count) in
    rw small refl

flush_from-prints :
    (p : List ℕ) (fuel : ℕ) (k k1 : Klog) (mark : List ℕ)
    → catch_up k ≡ (k1, mark)
    → Holds k1 p
    → length p ≤ 4096
    → length p < fuel
    → (k' : Klog) × (flush_from fuel k ≡ some (k', mark ++ p)) × Holds k' []
flush_from-prints p zero k k1 mark start holds few enough = absurd (omega arith)
flush_from-prints [] (suc fuel) k k1 mark start holds few enough =
    let empty : (k1.klog_tail == k1.klog_head) ≡ true =
      let e : k1.klog_tail ≡ k1.klog_head = omega (arith, holds.head, holds.tail, holds.count) in
      ground arith in
    (k1, flush_from-round fuel k ∙ ap (round fuel) start ∙ rw (empty, append-nil mark) refl, holds)
flush_from-prints (x ∷ p) (suc fuel) k k1 mark start holds few enough =
    let some_left : (k1.klog_tail == k1.klog_head) ≡ false =
      let ne : k1.klog_tail ≢ k1.klog_head = λ e. absurd (omega (arith, e, holds.count)) in
      ground arith in
    let oldest : k1.klog_buffer (k1.klog_tail % 4096) ≡ record { c = x; ready = 1 } =
      subst (λ (q : ℕ). k1.klog_buffer q ≡ record { c = x; ready = 1 }) (omega arith)
        (holds.stored 0 (omega arith) (omega arith)) in
    let its_char : (k1.klog_buffer (k1.klog_tail % 4096)).c ≡ x = ap (λ e. e.c) oldest in
    let is_ready : ((k1.klog_buffer (k1.klog_tail % 4096)).ready == 0) ≡ false =
      ap (λ e. e.ready == 0) oldest in
    let unlocked : (k1.klog_write_lock.lock == 0) ≡ true = ground (arith, holds.write_lock) in
    let k2 = print_entry k1 in
    let holds2 = print_one k1 x p holds few in
    let (k', rest, holds') =
      flush_from-prints p fuel k2 k2 [] (few_kept k2 p holds2 (omega arith)) holds2 (omega arith)
        (omega arith) in
    (
      k',
      flush_from-round fuel k
          ∙ ap (round fuel) start
          ∙ rw (some_left, is_ready, unlocked, rest)
              (ap (λ (t : ℕ). some (k', mark ++ t ∷ p)) its_char),
      holds',
    )

read_lock_back :
    (k : Klog) → Holds k [] → Holds (record k { klog_read_lock = record { lock = 0 } }) []
read_lock_back k holds = record {
  there = holds.there;
  head = holds.head;
  tail = holds.tail;
  count = holds.count;
  write_lock = holds.write_lock;
  read_lock = refl;
  stored = λ i hi. absurd (omega arith);
}

-- A flush prints what is in the log, or the mark and the last 4096 characters, and empties it.
pub klog_flush_to_screen-Holds :
    (cpu : Cpu) (k : Klog) (p : List ℕ)
    → Holds k p
    → (k' : Klog) × (klog_flush_to_screen 4097 cpu k ≡ some (cpu, k', printed p)) × Holds k' []
klog_flush_to_screen-Holds cpu k p holds = elim (Bool-cases (ltb 4096 (length p))) [
  | inl many ↦
      let n = length p - 4096 in
      let k1 : Klog = record k { klog_tail = sub64 k.klog_head 4096 } in
      let far : ltb 4096 (sub64 k.klog_head k.klog_tail) ≡ true = ground (arith, holds.count) in
      let start : catch_up k ≡ (k1, drop_text) = rw far refl in
      let short : length (drop n p) ≤ 4096 = omega (arith, length-drop n p) in
      let (k', run, holds') =
        flush_from-prints (drop n p) 4097 k k1 drop_text start (drop_old k p holds (ground arith))
          short (omega (arith, short)) in
      (
        record k' { klog_read_lock = record { lock = 0 } },
        rw many (
            flush-with_read_lock 4097 cpu k holds.there holds.read_lock
            ∙ ap (with_read_lock cpu) run),
        read_lock_back k' holds',
      )
  | inr few ↦
      let (k', run, holds') =
        flush_from-prints p 4097 k k [] (few_kept k p holds (ground arith)) holds (ground arith)
          (ground arith) in
      (
        record k' { klog_read_lock = record { lock = 0 } },
        rw few (
            flush-with_read_lock 4097 cpu k holds.there holds.read_lock
            ∙ ap (with_read_lock cpu) run),
        read_lock_back k' holds',
      )
]
