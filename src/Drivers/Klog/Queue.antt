-- ===== src/Drivers/Klog/Queue.antt =====
-- The log as a queue of characters, for calls that are not interrupted.
use pointer_os.Base.{
  ℕ, ◌+◌, ◌^◌, ◌<◌, ◌≡◌, refl, Option, some, List, [], ◌∷◌, ◌++◌, arith, ◌>>=◌, length, take,
  length-append,
}
use pointer_os.Kernel.Spinlock.{Cpu}
use pointer_os.Drivers.Klog.{Klog, klog_write, klog_flush_to_screen}
use pointer_os.Drivers.Klog.Write.{Holds, klog_write-Holds}
use pointer_os.Drivers.Klog.Flush.{printed, klog_flush_to_screen-Holds}

-- Calls of the log, and what they print.
pub data Call : Type 0 where
  write : List ℕ → Call
  flush : Call

pub run : List Call → Cpu → Klog → Option (Klog × List ℕ)
run [] cpu k = some (k, [])
run (write s ∷ calls) cpu k = klog_write cpu k s >>= λ r. run calls r.0 r.1
run (flush ∷ calls) cpu k = klog_flush_to_screen 4097 cpu k >>= λ r.
    run calls r.0 r.1 >>= λ later. some (later.0, r.2 ++ later.1)

-- The same calls on a queue.
abbrev replay : List Call → List ℕ → List ℕ × List ℕ
replay [] p = (p, [])
replay (write s ∷ calls) p = replay calls (p ++ take 4096 s)
replay (flush ∷ calls) p = ((replay calls []).0, printed p ++ (replay calls []).1)

-- All that the calls write.
abbrev volume : List Call → ℕ
volume [] = 0
volume (write s ∷ calls) = length (take 4096 s) + volume calls
volume (flush ∷ calls) = volume calls

-- For calls that run to their end one after the other: from a log with free locks that holds the characters `p`, any sequence of writes and flushes
-- returns, prints what the queue prints, and leaves what the queue leaves: a write appends its first
-- 4096 characters, and a flush prints and removes all, or the mark and the last 4096 where there are
-- more. The characters count less than 2^64.
run_refines :
    (calls : List Call) (cpu : Cpu) (k : Klog) (p : List ℕ)
    → Holds k p
    → length p + volume calls < 2 ^ 64
    → (k' : Klog) × (run calls cpu k ≡ some (k', (replay calls p).1)) × Holds k' (replay calls p).0
unfolding run
run_refines [] cpu k p holds room = (k, refl, holds)
run_refines (write s ∷ calls) cpu k p holds room =
    let (k1, wrote, holds1) = klog_write-Holds cpu k p s holds (omega arith) in
    let (k', rest, holds') =
      run_refines calls cpu k1 (p ++ take 4096 s) holds1
        (omega (arith, length-append {0} p (take 4096 s))) in
    (k', rw wrote rest, holds')
run_refines (flush ∷ calls) cpu k p holds room =
    let (k1, flushed, holds1) = klog_flush_to_screen-Holds cpu k p holds in
    let (k', rest, holds') = run_refines calls cpu k1 [] holds1 (omega arith) in
    (k', rw (flushed, rest) refl, holds')
