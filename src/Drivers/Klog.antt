-- ===== src/Drivers/Klog.antt =====
-- drivers/lfb/klog.c: the ring of the kernel log. The head and the tail count characters in 64 bits.
-- A lock that is held is never given back, which is `none`.
pub mod Cells
pub mod Events
pub mod Flush
pub mod Interrupts
pub mod Queue
pub mod Write
use pointer_os.Base.{
  ℕ, zero, suc, ◌+◌, ◌%◌, ◌^◌, ◌≤◌, ◌<◌, ◌≡◌, refl, ap, ◌∙◌, ◌≢◌, ◌⊎◌, inl, inr, Bool, true, false,
  ◌||◌, not, Option, none, some, List, [], ◌∷◌, ◌++◌, arith, ltb, ◌==◌, if◌then◌else◌, ◌>>=◌,
  length, take, update, add64, sub64,
}
use pointer_os.Kernel.Spinlock.{cli, Cpu, Spinlock, spin_lock_irqsave, spin_lock_irqrestore}

-- `log_entry_t`
pub record LogEntry : Type 0 where
  pub c : ℕ
  pub ready : ℕ

-- The file's variables. `allocated` says that the pointer `klog_buffer` is not `NULL`.
pub record Klog : Type 0 where
  pub allocated : Bool
  pub klog_buffer : ℕ → LogEntry
  pub klog_head : ℕ
  pub klog_tail : ℕ
  pub klog_write_lock : Spinlock
  pub klog_read_lock : Spinlock

-- The first part of `klog_write`, with interrupts off: room for `len` characters, from the position
-- that is the result.
abbrev pub reserve : Cpu → Klog → ℕ → Option (Cpu × Klog × ℕ)
reserve cpu k len = spin_lock_irqsave cpu k.klog_write_lock >>= λ taken.
    let released = spin_lock_irqrestore taken.0 taken.1 taken.2 in
    some (
      released.0,
      record k { klog_head = add64 k.klog_head len; klog_write_lock = released.1 },
      k.klog_head,
    )

-- A round of its loop, between which the thread can be interrupted.
abbrev pub store_char : (ℕ → LogEntry) → ℕ → ℕ → ℕ → LogEntry
store_char buffer pos x = update buffer (pos % 4096) (record { c = x; ready = 1 })

-- The loop of `klog_write` from position `pos`.
pub store_chars : (ℕ → LogEntry) → ℕ → List ℕ → ℕ → LogEntry
store_chars buffer pos [] = buffer
store_chars buffer pos (x ∷ s) = store_chars (store_char buffer pos x) (add64 pos 1) s

-- A call that is not interrupted. The length is capped at 4096.
unfoldable pub klog_write : Cpu → Klog → List ℕ → Option (Cpu × Klog)
klog_write cpu k s =
    let s = take 4096 s in
    let write = reserve cpu k (length s) >>= λ r.
    some (r.0, record r.1 { klog_buffer = store_chars r.1.klog_buffer r.2 s }) in
    if not k.allocated || length s == 0 then some (cpu, k) else write

-- `[drop]`
abbrev pub drop_text : List ℕ
drop_text = 91 ∷ 100 ∷ 114 ∷ 111 ∷ 112 ∷ 93 ∷ []

-- The start of a round: a tail that lags too far behind is moved, and the mark is printed.
abbrev pub catch_up : Klog → Klog × List ℕ
catch_up k =
    if ltb 4096 (sub64 k.klog_head k.klog_tail)
    then (record k { klog_tail = sub64 k.klog_head 4096 }, drop_text)
    else (k, [])

-- The entry at the tail is printed and marked as free.
abbrev pub print_entry : Klog → Klog
print_entry k =
    let pos = k.klog_tail % 4096 in
    record k {
      klog_buffer = update k.klog_buffer pos (record (k.klog_buffer pos) { ready = 0 });
      klog_tail = add64 k.klog_tail 1;
    }

-- The `while` loop, which takes the write lock and gives it back for each character. The result is what is printed; `none` means that the fuel ran out.
pub flush_from : ℕ → Klog → Option (Klog × List ℕ)
flush_from zero k = none
flush_from (suc fuel) k =
    let start = catch_up k in
    let k' = start.0 in
    let entry = k'.klog_buffer (k'.klog_tail % 4096) in
    let rest = flush_from fuel (print_entry k') >>= λ r. some (r.0, start.1 ++ entry.c ∷ r.1) in
    let taken = if k'.klog_write_lock.lock == 0 then rest else none in
    if k'.klog_tail == k'.klog_head || entry.ready == 0 then some (k', start.1) else taken

unfoldable pub klog_flush_to_screen : ℕ → Cpu → Klog → Option (Cpu × Klog × List ℕ)
unfolding flush_from
klog_flush_to_screen fuel cpu k =
    let flushed = spin_lock_irqsave cpu k.klog_read_lock >>= λ taken. flush_from fuel k >>= λ r.
    let released = spin_lock_irqrestore taken.0 taken.1 taken.2 in
    some (released.0, record (r.0) { klog_read_lock = released.1 }, r.1) in
    if k.allocated then flushed else some (cpu, k, [])

-- The log is empty, or the oldest character is still being written.
abbrev IsDone : Klog → Type 0
IsDone k = (k.klog_tail ≡ k.klog_head) ⊎ ((k.klog_buffer (k.klog_tail % 4096)).ready ≡ 0)

abbrev pub lag : Klog → ℕ
lag k = sub64 k.klog_head k.klog_tail

lag-catch_up :
    (k : Klog)
    → k.klog_head < 2 ^ 64
    → k.klog_tail < 2 ^ 64
    → ((catch_up k).0.klog_tail < 2 ^ 64)
      × ((catch_up k).0.klog_head ≡ k.klog_head)
      × (lag (catch_up k).0 ≤ 4096)
      × (lag (catch_up k).0 ≤ lag k)
      × ((catch_up k).0.klog_write_lock.lock ≡ k.klog_write_lock.lock)
lag-catch_up k h t = ground arith

lag-print_entry :
    (k : Klog)
    → k.klog_head < 2 ^ 64
    → k.klog_tail < 2 ^ 64
    → k.klog_tail ≢ k.klog_head
    → lag (print_entry k) + 1 ≡ lag k
lag-print_entry k h t ne = ground arith

stop_or_go :
    (k : Klog) (b : Bool)
    → b ≡ (k.klog_tail == k.klog_head || (k.klog_buffer (k.klog_tail % 4096)).ready == 0)
    → ((b ≡ true) × IsDone k) ⊎ ((b ≡ false) × (k.klog_tail ≢ k.klog_head))
stop_or_go k true h = inl (refl, ground arith)
stop_or_go k false h = inr (refl, ground arith)

free_go :
    (k : Klog) (m : Option (Klog × List ℕ))
    → k.klog_write_lock.lock ≡ 0
    → (if k.klog_write_lock.lock == 0 then m else none) ≡ m
free_go k m w = ground arith

flush_from-ends :
    (fuel : ℕ) (k : Klog)
    → k.klog_head < 2 ^ 64
    → k.klog_tail < 2 ^ 64
    → k.klog_write_lock.lock ≡ 0
    → lag (catch_up k).0 < fuel
    → (k' : Klog) × (out : List ℕ) × (flush_from fuel k ≡ some (k', out))
      × IsDone k'
      × (k'.klog_head ≡ k.klog_head)
unfolding flush_from
flush_from-ends zero k h t w enough = absurd (omega arith)
flush_from-ends (suc fuel) k h t w enough =
    let k1 = (catch_up k).0 in
    let mark = (catch_up k).1 in
    let entry = k1.klog_buffer (k1.klog_tail % 4096) in
    let caught = lag-catch_up k h t in
    let h1 : k1.klog_head < 2 ^ 64 = omega (arith, caught.1) in
    let w1 : k1.klog_write_lock.lock ≡ 0 = caught.4 ∙ w in
    let printed : Option (Klog × List ℕ) =
      flush_from fuel (print_entry k1) >>= λ r. some (r.0, mark ++ entry.c ∷ r.1) in
    let go : Option (Klog × List ℕ) = if k1.klog_write_lock.lock == 0 then printed else none in
    let stop : Option (Klog × List ℕ) = some (k1, mark) in
    let b = k1.klog_tail == k1.klog_head || entry.ready == 0 in
    elim (stop_or_go k1 b refl) [
      | inl (e, done) ↦ (k1, mark, ap (λ (b : Bool). if b then stop else go) e, done, caught.1)
      | inr (e, ne) ↦
          let closer = lag-print_entry k1 h1 caught.0 ne in
          let k2 = print_entry k1 in
          let next = lag-catch_up k2 h1 (omega arith) in
          let rest = flush_from-ends fuel k2 h1 (omega arith) w1 (omega (arith, closer, next.3)) in
          (
            rest.0,
            mark ++ entry.c ∷ rest.1,
            ap (λ (b : Bool). if b then stop else go) e
                ∙ free_go k1 printed w1
                ∙ ap (λ (m : Option (Klog × List ℕ)). m >>= λ r. some (r.0, mark ++ entry.c ∷ r.1))
                    rest.2,
            rest.3,
            rest.4 ∙ caught.1,
          )
    ]

pub free_lock :
    (cpu : Cpu) (l : Spinlock)
    → l.lock ≡ 0
    → spin_lock_irqsave cpu l ≡ some (cli cpu, record { lock = 1 }, cpu.rflags)
unfolding spin_lock_irqsave
free_lock cpu l h = ground arith

abbrev pub with_read_lock : Cpu → Option (Klog × List ℕ) → Option (Cpu × Klog × List ℕ)
with_read_lock cpu m =
    m >>= λ r. some (cpu, record (r.0) { klog_read_lock = record { lock = 0 } }, r.1)

pub flush-with_read_lock :
    (fuel : ℕ) (cpu : Cpu) (k : Klog)
    → k.allocated ≡ true
    → k.klog_read_lock.lock ≡ 0
    → klog_flush_to_screen fuel cpu k ≡ with_read_lock cpu (flush_from fuel k)
unfolding klog_flush_to_screen spin_lock_irqrestore
flush-with_read_lock fuel cpu k there r = rw there (simp (free_lock cpu k.klog_read_lock r))

-- With a buffer and both locks free, 4097 rounds are enough for `klog_flush_to_screen` at any head and tail. It
-- ends with the log empty or at a character that is still being written, does not move the head,
-- and gives the processor's flags and the read lock back.
klog_flush_to_screen-IsDone :
    (cpu : Cpu) (k : Klog)
    → k.allocated ≡ true
    → k.klog_head < 2 ^ 64
    → k.klog_tail < 2 ^ 64
    → k.klog_write_lock.lock ≡ 0
    → k.klog_read_lock.lock ≡ 0
    → (k' : Klog) × (out : List ℕ) × (klog_flush_to_screen 4097 cpu k ≡ some (cpu, k', out))
      × IsDone k'
      × (k'.klog_head ≡ k.klog_head)
      × (k'.klog_read_lock.lock ≡ 0)
klog_flush_to_screen-IsDone cpu k there h t w r =
    let ends = flush_from-ends 4097 k h t w (omega (arith, (lag-catch_up k h t).2)) in
    (
      record (ends.0) { klog_read_lock = record { lock = 0 } },
      ends.1,
      flush-with_read_lock 4097 cpu k there r ∙ ap (with_read_lock cpu) ends.2,
      ends.3,
      ends.4,
      refl,
    )
