-- ===== src/Drivers/Klog/Events.antt =====
-- `klog_write` under interrupts: between the reservation and each of the stores other writers and
-- flushes can come.
use pointer_os.Base.{
  ℕ, zero, suc, ◌+◌, ◌≤◌, ◌<◌, ◌≡◌, refl, ap, ◌∙◌, Bool, true, false, ◌&&◌, not, Option, none, some,
  List, [], ◌∷◌, ◌++◌, map, arith, ltb, leb, ◌==◌, if◌then◌else◌, ◌>>=◌, length, take, add64, sub64,
}
use mathlib.Core.Path.{subst}
use pointer_os.Kernel.Spinlock.{Cpu, spin_lock_irqrestore}
use pointer_os.Drivers.Klog.{
  Klog, reserve, store_char, store_chars, klog_write, klog_flush_to_screen, free_lock,
}
use pointer_os.Drivers.Klog.Cells.{
  Cell, waiting, stored, cell_at, store_cell, HasCells, reserved-HasCells, stored-HasCells,
}
use pointer_os.Drivers.Klog.Interrupts.{prefix, rest_of, klog_flush_to_screen-prefix}

-- What can happen to the log between two instructions of a writer: a writer reserves room for a text,
-- stores a character at its position, or the log is flushed.
pub data Event : Type 0 where
  reserves : List ℕ → Event
  stores : ℕ → ℕ → Event
  flushes : Event

pub run_events : List Event → Cpu → Klog → Option (Klog × List ℕ)
run_events [] cpu k = some (k, [])
run_events (reserves s ∷ es) cpu k = reserve cpu k (length s) >>= λ r. run_events es r.0 r.1
run_events (stores pos c ∷ es) cpu k =
    run_events es cpu (record k { klog_buffer = store_char k.klog_buffer pos c })
run_events (flushes ∷ es) cpu k = klog_flush_to_screen 4097 cpu k >>= λ r.
    run_events es r.0 r.1 >>= λ later. some (later.0, r.2 ++ later.1)

abbrev pub waits_for : Cell → ℕ → Bool
waits_for (waiting d) c = d == c
waits_for (stored d) c = false

-- The same on the places, of which the first has position `first`. `none`: more than 4096 characters
-- would be reserved and not printed, or a store is not the one that a reserved place waits for.
abbrev pub replay_events : List Event → ℕ → List Cell → Option (List Cell × List ℕ)
replay_events [] first q = some (q, [])
replay_events (reserves s ∷ es) first q =
    let later = replay_events es first (q ++ map waiting s) in
    if leb (length q + length s) 4096 then later else none
replay_events (stores pos c ∷ es) first q =
    let j = sub64 pos first in
    let later = replay_events es first (store_cell q j c) in
    if ltb j (length q) && waits_for (cell_at q j) c then later else none
replay_events (flushes ∷ es) first q =
    replay_events es (add64 first (length (prefix q))) (rest_of q) >>= λ later.
    some (later.0, prefix q ++ later.1)

abbrev Follows : List Event → Cpu → Klog → Option (List Cell × List ℕ) → Type 0
Follows es cpu k none = Unit
Follows es cpu k (some (q', out)) =
    (k' : Klog) × (run_events es cpu k ≡ some (k', out)) × HasCells k' q'

Follows-stop :
    (b : Bool) (es : List Event) (cpu : Cpu) (k : Klog) (m : Option (List Cell × List ℕ))
    → (b ≡ true → Follows es cpu k m)
    → Follows es cpu k (if b then m else none)
Follows-stop true es cpu k m h = h refl
Follows-stop false es cpu k m h = tt

Follows-step :
    (e : Event) (es : List Event) (cpu : Cpu) (k k1 : Klog) (m : Option (List Cell × List ℕ))
    → run_events (e ∷ es) cpu k ≡ run_events es cpu k1
    → Follows es cpu k1 m
    → Follows (e ∷ es) cpu k m
Follows-step e es cpu k k1 none same h = tt
Follows-step e es cpu k k1 (some (q', out)) same (k', run, has) = (k', same ∙ run, has)

Follows-flush :
    (es : List Event) (cpu : Cpu) (k k1 : Klog) (text : List ℕ) (m : Option (List Cell × List ℕ))
    → klog_flush_to_screen 4097 cpu k ≡ some (cpu, k1, text)
    → Follows es cpu k1 m
    → Follows (flushes ∷ es) cpu k (m >>= λ later. some (later.0, text ++ later.1))
unfolding run_events
Follows-flush es cpu k k1 text none flushed h = tt
Follows-flush es cpu k k1 text (some (q', out)) flushed (k', run, has) =
    (k', rw (flushed, run) refl, has)

reserve_free :
    (cpu : Cpu) (k : Klog) (len : ℕ)
    → k.klog_write_lock.lock ≡ 0
    → reserve cpu k len
      ≡ some (
        cpu,
        record k { klog_head = add64 k.klog_head len; klog_write_lock = record { lock = 0 } },
        k.klog_head,
      )
unfolding spin_lock_irqrestore
reserve_free cpu k len free = rw (free_lock cpu k.klog_write_lock free) refl

run_events-Follows :
    (es : List Event) (cpu : Cpu) (k : Klog) (q : List Cell)
    → HasCells k q
    → Follows es cpu k (replay_events es k.klog_tail q)
unfolding run_events
run_events-Follows [] cpu k q has = (k, refl, has)
run_events-Follows (reserves s ∷ es) cpu k q has =
    let k1 : Klog = record k {
      klog_head = add64 k.klog_head (length s);
      klog_write_lock = record { lock = 0 };
    } in
    Follows-stop (leb (length q + length s) 4096) (reserves s ∷ es) cpu k
      (replay_events es k.klog_tail (q ++ map waiting s))
      (λ room.
        Follows-step (reserves s) es cpu k k1 (replay_events es k.klog_tail (q ++ map waiting s))
          (rw (reserve_free cpu k (length s) has.write_lock) refl)
          (run_events-Follows es cpu k1 (q ++ map waiting s)
            (reserved-HasCells k q s has (ground arith))))
run_events-Follows (stores pos c ∷ es) cpu k q has =
    let j = sub64 pos k.klog_tail in
    let k1 : Klog = record k { klog_buffer = store_char k.klog_buffer pos c } in
    Follows-stop (ltb j (length q) && waits_for (cell_at q j) c) (stores pos c ∷ es) cpu k
      (replay_events es k.klog_tail (store_cell q j c))
      (λ allowed.
        let inside : j < length q = ground arith in
        Follows-step (stores pos c) es cpu k k1 (replay_events es k.klog_tail (store_cell q j c))
          refl
          (run_events-Follows es cpu k1 (store_cell q j c)
            (stored-HasCells k q j c pos has inside (omega (arith, has.tail)))))
run_events-Follows (flushes ∷ es) cpu k q has =
    let (k1, flushed, has1, moved) = klog_flush_to_screen-prefix cpu k q has in
    Follows-flush es cpu k k1 (prefix q) _ flushed (
      subst (λ (first : ℕ). Follows es cpu k1 (replay_events es first (rest_of q))) moved
        (run_events-Follows es cpu k1 (rest_of q) has1))

-- Writers reserve room and store their characters, one at a time and in any order between each other,
-- and flushes come at any point between. At first the buffer is there, the locks are free, and no entry
-- is ready but those whose character is stored and not printed. As long as no more than 4096 characters
-- are reserved and not printed, all of this returns and prints what the queue of places prints: each
-- flush the characters in the order of the reservations, up to the first that is not stored yet, and
-- each of them once.
pub run_events-HasCells :
    (es : List Event) (cpu : Cpu) (k : Klog) (q q' : List Cell) (out : List ℕ)
    → HasCells k q
    → replay_events es k.klog_tail q ≡ some (q', out)
    → (k' : Klog) × (run_events es cpu k ≡ some (k', out)) × HasCells k' q'
run_events-HasCells es cpu k q q' out has replayed =
    subst (Follows es cpu k) replayed (run_events-Follows es cpu k q has)

-- The events of a call of `klog_write`.
abbrev stores_of : ℕ → List ℕ → List Event
stores_of pos [] = []
stores_of pos (x ∷ s) = stores pos x ∷ stores_of (add64 pos 1) s

run_events-stores_of :
    (s : List ℕ) (cpu : Cpu) (k : Klog) (pos : ℕ)
    → run_events (stores_of pos s) cpu k
      ≡ some (record k { klog_buffer = store_chars k.klog_buffer pos s }, [])
unfolding run_events store_chars
run_events-stores_of [] cpu k pos = refl
run_events-stores_of (x ∷ s) cpu k pos =
    run_events-stores_of s cpu (record k { klog_buffer = store_char k.klog_buffer pos x })
      (add64 pos 1)

take_whole : (s : List ℕ) (n : ℕ) → length s ≤ n → take n s ≡ s
take_whole [] zero h = refl
take_whole [] (suc n) h = refl
take_whole (x ∷ s) zero h = absurd (omega arith)
take_whole (x ∷ s) (suc n) h = ap (λ t. x ∷ t) (take_whole s n (omega arith))

-- A call that nothing interrupts does what `klog_write` does.
run_events-klog_write :
    (s : List ℕ) (cpu : Cpu) (k : Klog)
    → k.allocated ≡ true
    → k.klog_write_lock.lock ≡ 0
    → 0 < length s
    → length s ≤ 4096
    → run_events (reserves s ∷ stores_of k.klog_head s) cpu k
      ≡ (klog_write cpu k s >>= λ r. some (r.1, []))
unfolding run_events klog_write
run_events-klog_write s cpu k there free some_chars short =
    let whole : take 4096 s ≡ s = take_whole s 4096 short in
    let present : not k.allocated ≡ false = ap not there in
    let more : (length s == 0) ≡ false = ground arith in
    rw (whole, present, more, reserve_free cpu k (length s) free)
      (run_events-stores_of s cpu _ k.klog_head)
