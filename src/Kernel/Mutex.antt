-- ===== src/Kernel/Mutex.antt =====
-- kernel/mutex.c: a lock that hands itself to its waiters in order. A waiter is a thread, and the
-- waiters are linked through `next_blocked`.
pub mod Waiters
pub mod Handover
use pointer_os.Base.{ℕ, Option, some, ◌==◌, if◌then◌else◌, ◌>>=◌, update}
use pointer_os.Kernel.Spinlock.{Cpu, Spinlock, spin_lock_irqsave, spin_lock_irqrestore}
use pointer_os.Kernel.Thread.{ready, blocked, Thread, Threads, set_state}

-- `mutex_t`
pub record Mutex : Type 0 where
  pub lock : Spinlock
  pub locked : ℕ
  pub blocked_head : ℕ
  pub blocked_tail : ℕ

unfoldable pub mutex_init : Mutex
mutex_init = record { lock = record { lock = 0 }; locked = 0; blocked_head = 0; blocked_tail = 0 }

-- What the two functions read and write.
pub record Sync : Type 0 where
  pub cpu : Cpu
  pub threads : Threads
  pub mutex : Mutex

-- `mutex_lock` either returns at once, or ends in `yield`: the scheduler runs next.
pub data Wait : Type 0 where
  acquired yields : Wait

abbrev pub set_next_blocked : (ℕ → Thread) → ℕ → ℕ → ℕ → Thread
set_next_blocked f t p = update f t (record (f t) { next_blocked = p })

-- The current thread goes to the end of the waiters. `__atomic_clear` gives the spinlock back, and
-- `rflags` is not restored.
pub block_current : Sync → Sync
block_current s =
    let t = s.threads.current_thread in
    let m = s.mutex in
    let f = set_next_blocked (set_state (s.threads.thread) t blocked) t 0 in
    if m.blocked_head == 0
    then record s {
      threads = record (s.threads) { thread = f };
      mutex = record m { blocked_head = t; blocked_tail = t; lock = record { lock = 0 } };
    }
    else record s {
      threads = record (s.threads) { thread = set_next_blocked f m.blocked_tail t };
      mutex = record m { blocked_tail = t; lock = record { lock = 0 } };
    }

-- `none`: the spinlock is held and never given back.
unfoldable pub mutex_lock : Sync → Option (Sync × Wait)
unfolding block_current
mutex_lock s = spin_lock_irqsave s.cpu s.mutex.lock >>= λ taken.
    let s1 = record s { cpu = taken.0; mutex = record (s.mutex) { lock = taken.1 } } in
    let released = spin_lock_irqrestore taken.0 taken.1 taken.2 in
    if s.mutex.locked == 0
    then some (
      record s1 { cpu = released.0; mutex = record (s.mutex) { locked = 1; lock = released.1 } },
      acquired,
    )
    else some (block_current s1, yields)

unfoldable pub mutex_unlock : Sync → Option Sync
mutex_unlock s = spin_lock_irqsave s.cpu s.mutex.lock >>= λ taken.
    let released = spin_lock_irqrestore taken.0 taken.1 taken.2 in
    let m = record (s.mutex) { lock = released.1 } in
    let wake = m.blocked_head in
    let f = s.threads.thread in
    let rest = (f wake).next_blocked in
    let m' =
      if rest == 0
      then record m { blocked_head = 0; blocked_tail = 0 }
      else record m { blocked_head = rest } in
    if wake == 0
    then some (record s { cpu = released.0; mutex = record m { locked = 0 } })
    else some (record s {
      cpu = released.0;
      threads = record (s.threads) { thread = set_next_blocked (set_state f wake ready) wake 0 };
      mutex = m';
    })
