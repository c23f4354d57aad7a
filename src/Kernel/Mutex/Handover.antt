-- ===== src/Kernel/Mutex/Handover.antt =====
-- `mutex_lock` and `mutex_unlock` against a flag and a list of waiters.
use pointer_os.Base.{
  ℕ, ◌≡◌, refl, sym, ◌≢◌, true, false, some, List, [], ◌∷◌, ◌++◌, arith, ◌==◌, if◌then◌else◌, drop,
}
use pointer_os.Links.Member.{◌∉◌, last_or, ne-last_or, last_or-snoc, Distinct-snoc}
use mathlib.Core.Path.{subst}
use pointer_os.Kernel.Spinlock.{Cpu, cli, interrupts_on, spin_lock_irqsave, spin_lock_irqrestore}
use pointer_os.Kernel.Thread.{ready, blocked, set_state}
use pointer_os.Kernel.Thread.Ring.{IsReady, IsRing-cong}
use pointer_os.Kernel.Mutex.{
  Sync, acquired, yields, set_next_blocked, block_current, mutex_lock, mutex_unlock,
}
use pointer_os.Kernel.Mutex.Waiters.{Queue, IsWaiting, Queue-frame, Queue-snoc}

abbrev pub Waits : Sync → List ℕ → Type 0
Waits s ws = IsWaiting s.threads.thread s.mutex ws

-- With the spinlock free, `mutex_lock` on a mutex that is not locked locks it, gives the flags of
-- the processor and the spinlock back as they were, and touches no thread.
pub mutex_lock_free :
    (s : Sync)
    → s.mutex.lock.lock ≡ 0
    → s.mutex.locked ≡ 0
    → mutex_lock s ≡ some (record s { mutex = record (s.mutex) { locked = 1 } }, acquired)
unfolding mutex_lock spin_lock_irqsave spin_lock_irqrestore
mutex_lock_free s free unlocked = ground arith

block_current-blocked :
    (s : Sync) → ((block_current s).threads.thread s.threads.current_thread).state ≡ blocked
unfolding block_current
block_current-blocked s = ground arith

block_current_rest :
    (s : Sync)
    → ((block_current s).mutex.locked ≡ s.mutex.locked)
      × ((block_current s).mutex.lock.lock ≡ 0)
      × ((block_current s).cpu ≡ s.cpu)
unfolding block_current
block_current_rest s = ground arith

interrupts_off : (c : Cpu) → interrupts_on (cli c) ≡ false
unfolding cli
interrupts_off c = ground arith

-- The state after the current thread was put behind other waiters.
abbrev behind : Sync → Sync
behind s =
    let t = s.threads.current_thread in
    let f = set_next_blocked (set_state (s.threads.thread) t blocked) t 0 in
    record s {
      threads = record (s.threads) { thread = set_next_blocked f s.mutex.blocked_tail t };
      mutex = record (s.mutex) { blocked_tail = t; lock = record { lock = 0 } };
    }

block_behind : (s : Sync) → s.mutex.blocked_head ≢ 0 → block_current s ≡ behind s
unfolding block_current
block_behind s some_head = ground arith

block_current-Waits :
    (s : Sync) (ws : List ℕ)
    → Waits s ws
    → s.threads.current_thread ≢ 0
    → s.threads.current_thread ∉ ws
    → Waits (block_current s) (ws ++ s.threads.current_thread ∷ [])
unfolding block_current
block_current-Waits s [] w live out =
    let none_yet : s.mutex.blocked_head ≡ 0 = w.queue in
    record { queue = (ground arith, live, ground arith); tail = ground arith; distinct = (tt, tt) }
block_current-Waits s (x ∷ xs) w live out =
    let t = s.threads.current_thread in
    let some_head : s.mutex.blocked_head ≢ 0 = rw w.queue.0 w.queue.1 in
    let ne : t ≢ last_or x xs = ne-last_or t x xs out.0 out.1 in
    rw (block_behind s some_head) (record {
      queue =
          Queue-snoc s.threads.thread ((behind s).threads.thread) s.mutex.blocked_head x xs t live
            w.distinct out (λ c. ground (arith, w.tail)) w.queue;
      tail = rw (last_or-snoc x xs t);
      distinct = Distinct-snoc (x ∷ xs) t w.distinct out;
    })

-- With the spinlock free, `mutex_lock` on a locked mutex puts the current thread, if it is no
-- waiter, behind the waiters, blocks it and yields. The mutex stays locked and the spinlock is
-- free again, but interrupts are off: the flags that were saved are not restored.
pub mutex_lock-Waits :
    (s : Sync) (ws : List ℕ)
    → s.mutex.lock.lock ≡ 0
    → s.mutex.locked ≢ 0
    → Waits s ws
    → s.threads.current_thread ≢ 0
    → s.threads.current_thread ∉ ws
    → (s' : Sync) × (mutex_lock s ≡ some (s', yields))
      × Waits s' (ws ++ s.threads.current_thread ∷ [])
      × ((s'.threads.thread s.threads.current_thread).state ≡ blocked)
      × (s'.mutex.locked ≡ s.mutex.locked)
      × (s'.mutex.lock.lock ≡ 0)
      × (interrupts_on s'.cpu ≡ false)
unfolding mutex_lock spin_lock_irqsave spin_lock_irqrestore
mutex_lock-Waits s ws free held w live out =
    let unheld : (s.mutex.lock.lock == 0) ≡ true = ground arith in
    let taken : (s.mutex.locked == 0) ≡ false = ground arith in
    let s1 : Sync = record s {
      cpu = cli (s.cpu);
      mutex = record (s.mutex) { lock = record { lock = 1 } };
    } in
    let w1 : Waits s1 ws = record { queue = w.queue; tail = w.tail; distinct = w.distinct } in
    (
      block_current s1,
      rw (unheld, taken),
      block_current-Waits s1 ws w1 live out,
      block_current-blocked s1,
      (block_current_rest s1).0,
      (block_current_rest s1).1,
      rw (block_current_rest s1).2 (interrupts_off s.cpu),
    )

-- The state after the first waiter was woken.
abbrev handed : Sync → Sync
handed s =
    let f = s.threads.thread in
    let wake = s.mutex.blocked_head in
    let rest = (f wake).next_blocked in
    record s {
      threads = record (s.threads) { thread = set_next_blocked (set_state f wake ready) wake 0 };
      mutex = record (s.mutex) {
        lock = record { lock = 0 };
        blocked_head = rest;
        blocked_tail = if rest == 0 then 0 else s.mutex.blocked_tail;
      };
    }

mutex_unlock-handed :
    (s : Sync) → s.mutex.lock.lock ≡ 0 → s.mutex.blocked_head ≢ 0 → mutex_unlock s ≡ some (handed s)
unfolding mutex_unlock spin_lock_irqsave spin_lock_irqrestore
mutex_unlock-handed s free some_head = ground arith

handed-Waits : (s : Sync) (x : ℕ) (xs : List ℕ) → Waits s (x ∷ xs) → Waits (handed s) xs
handed-Waits s x [] w =
    let e : s.mutex.blocked_head ≡ x = w.queue.0 in
    let end : (s.threads.thread x).next_blocked ≡ 0 = w.queue.2 in
    record { queue = rw e end; tail = rw (e, end); distinct = tt }
handed-Waits s x (y ∷ ys) w =
    let e : s.mutex.blocked_head ≡ x = w.queue.0 in
    let f = s.threads.thread in
    let b = s.mutex.blocked_head in
    let q : Queue f (f b).next_blocked (y ∷ ys) = rw e w.queue.2 in
    let out : b ∉ (y ∷ ys) = subst (λ c. c ∉ (y ∷ ys)) (sym e) w.distinct.0 in
    let more : (f b).next_blocked ≢ 0 = rw q.0 q.1 in
    record {
      queue =
          Queue-frame f ((handed s).threads.thread) b (f b).next_blocked (y ∷ ys)
            (λ c ne. ground arith) out q;
      tail = ground (arith, w.tail);
      distinct = w.distinct.1;
    }

-- The mutex is free if nobody waited; else the first waiter is ready and the mutex stays locked.
abbrev pub HandedTo : Sync → Sync → List ℕ → Type 0
HandedTo s s' [] = s'.mutex.locked ≡ 0
HandedTo s s' (t ∷ rest) =
    ((s'.threads.thread t).state ≡ ready) × (s'.mutex.locked ≡ s.mutex.locked)

-- With the spinlock free, `mutex_unlock` without waiters unlocks the mutex; with waiters it keeps
-- the mutex locked for the first of them, which becomes ready, and leaves the others waiting in
-- their order. The flags and the spinlock are given back as they were.
pub mutex_unlock_hands_over :
    (s : Sync) (ws : List ℕ)
    → s.mutex.lock.lock ≡ 0
    → Waits s ws
    → (s' : Sync) × (mutex_unlock s ≡ some s')
      × (s'.cpu ≡ s.cpu)
      × (s'.mutex.lock.lock ≡ 0)
      × Waits s' (drop 1 ws)
      × HandedTo s s' ws
unfolding mutex_unlock spin_lock_irqsave spin_lock_irqrestore
mutex_unlock_hands_over s [] free w =
    let none_yet : s.mutex.blocked_head ≡ 0 = w.queue in
    let unheld : (s.mutex.lock.lock == 0) ≡ true = ground arith in
    let nobody : (s.mutex.blocked_head == 0) ≡ true = ground arith in
    (
      record s { mutex = record (s.mutex) { lock = record { lock = 0 }; locked = 0 } },
      rw (unheld, nobody),
      refl,
      refl,
      record { queue = w.queue; tail = w.tail; distinct = tt },
      refl,
    )
mutex_unlock_hands_over s (x ∷ xs) free w =
    let e : s.mutex.blocked_head ≡ x = w.queue.0 in
    let some_head : s.mutex.blocked_head ≢ 0 = rw e w.queue.1 in
    (
      handed s,
      mutex_unlock-handed s free some_head,
      refl,
      refl,
      handed-Waits s x xs w,
      (ground (arith, e), refl),
    )

-- `mutex_unlock` does not put the thread that it wakes back into the ready list: a waiter that the
-- scheduler took out of the ring becomes ready, and the ring is the same as before, without it.
pub mutex_unlock_loses_waiter :
    (s : Sync) (t : ℕ) (rest xs : List ℕ)
    → s.mutex.lock.lock ≡ 0
    → Waits s (t ∷ rest)
    → IsReady s.threads xs
    → t ∉ xs
    → (s' : Sync) × (mutex_unlock s ≡ some s')
      × ((s'.threads.thread t).state ≡ ready)
      × IsReady s'.threads xs
mutex_unlock_loses_waiter s t rest xs free w ring out =
    let e : s.mutex.blocked_head ≡ t = w.queue.0 in
    let some_head : s.mutex.blocked_head ≢ 0 = rw e w.queue.1 in
    (
      handed s,
      mutex_unlock-handed s free some_head,
      ground (arith, e),
      IsRing-cong s.threads.thread ((handed s).threads.thread) s.threads.ready_list_head xs
          (λ c. ground arith) (λ c. ground arith) ring,
    )
