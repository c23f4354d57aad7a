-- ===== src/Kernel/Spinlock.antt =====
-- kernel/spinlock.c on the one processor that the kernel starts, with the flag instructions of
-- arch/x86_64/inlineasm.c. A test-and-set that finds the lock taken spins with interrupts off, so
-- nothing can release it: the run does not return, which is `none`.
use pointer_os.Base.{
  ℕ, ◌+◌, ◌-◌, ◌*◌, ◌/◌, ◌%◌, ◌≡◌, Bool, false, Option, none, some, arith, ◌==◌, if◌then◌else◌,
  ◌>>=◌,
}

-- `rflags` of the processor. Bit 9 is the interrupt flag.
pub record Cpu : Type 0 where
  pub rflags : ℕ

abbrev pub interrupts_on : Cpu → Bool
interrupts_on c = c.rflags / 512 % 2 == 1

-- `cli` and `sti` clear and set bit 9.
unfoldable pub cli : Cpu → Cpu
cli c = record { rflags = c.rflags - c.rflags / 512 % 2 * 512 }

unfoldable pub sti : Cpu → Cpu
sti c = record { rflags = c.rflags - c.rflags / 512 % 2 * 512 + 512 }

-- `spinlock_t`
pub record Spinlock : Type 0 where
  pub lock : ℕ

unfoldable pub spin_lock_irqsave : Cpu → Spinlock → Option (Cpu × Spinlock × ℕ)
spin_lock_irqsave c l =
    let rflags = c.rflags in if l.lock == 0 then some (cli c, record { lock = 1 }, rflags) else none

unfoldable pub spin_lock_irqrestore : Cpu → Spinlock → ℕ → Cpu × Spinlock
spin_lock_irqrestore c l rflags = (record { rflags = rflags }, record { lock = 0 })

-- What is seen while the lock is held, and the processor and the lock after it is given back.
abbrev take_and_give_back : Cpu → Spinlock → Option (Bool × ℕ × Cpu × Spinlock)
take_and_give_back c l = spin_lock_irqsave c l >>= λ t.
    let (c', l') = spin_lock_irqrestore t.0 t.1 t.2 in some (interrupts_on t.0, t.1.lock, c', l')

-- The lock is taken if and only if it is free. While it is held interrupts are off and its word is
-- 1, and giving it back with the flags that were saved leaves the processor as it was and the lock
-- free. If the lock is held, the run does not return.
irqsave-irqrestore :
    (c : Cpu) (l : Spinlock)
    → take_and_give_back c l
      ≡ (if l.lock == 0 then some (false, 1, c, record { lock = 0 }) else none)
unfolding spin_lock_irqsave spin_lock_irqrestore cli
irqsave-irqrestore c l = ground arith
