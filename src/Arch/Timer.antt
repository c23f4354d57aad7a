-- ===== src/Arch/Timer.antt =====
-- arch/x86_64/drivers/timers: the interval timer and the timer of the local interrupt controller,
-- with the local controller's own registers from arch/x86_64/apic/lapic.c.
use pointer_os.Base.{
  ℕ, zero, suc, ◌+◌, ◌-◌, ◌*◌, ◌/◌, ◌%◌, ◌^◌, ◌≤◌, ◌<◌, bit_or, ◌≡◌, inl, inr, List, [], ◌∷◌, arith,
  ltb, ◌==◌, if◌then◌else◌, Bool-cases, add64,
}
use pointer_os.Arch.Ioapic.{Iso, ioapic_set_irq}
use pointer_os.Arch.Idt.{set_irq_handler}

-- `outb(port, value)`, in order.
abbrev pub Writes : Type 0
Writes = List (ℕ × ℕ)

-- The variables of pit.c.
pub record Pit : Type 0 where
  pub ticks : ℕ
  pub division : ℕ

-- A divisor is written low byte first.
abbrev program : ℕ → ℕ → Writes
program mode value = (0x43, mode) ∷ (0x40, value % 256) ∷ (0x40, value / 256 % 256) ∷ []

-- The timer, what is written, the handlers of the lines, and the redirection entries. `handler` is the
-- address of `PIT_handler`, and the frequency is not 0.
unfoldable pub init_pit : ℕ → (ℕ → ℕ) → (ℕ → ℕ) → List Iso → ℕ → Pit × Writes × (ℕ → ℕ) × (ℕ → ℕ)
init_pit handler handlers registers iso_list freq =
    let division = 1193180 / freq in
    (
      record { ticks = 0; division = division },
      program 0x36 division,
      set_irq_handler handlers 0 handler,
      ioapic_set_irq registers iso_list 0 32 0,
    )

unfoldable pub pit_handler : Pit → Pit
pit_handler p = record p { ticks = add64 p.ticks 1 }

-- The waits of `pit_wait_ms`, each of 16 bits, with `total_ticks` left.
waits_from : ℕ → ℕ → List ℕ
waits_from zero total_ticks = []
waits_from (suc fuel) total_ticks =
    let wait = if ltb 0xFFFF total_ticks then 0xFFFF else total_ticks in
    let rest = waits_from fuel (total_ticks - wait) in if total_ticks == 0 then [] else wait ∷ rest

-- Each wait takes at least one of the 2^32 ticks that there can be, and all but the last take 0xFFFF.
unfoldable pub pit_waits : ℕ → List ℕ
unfolding waits_from
pit_waits ms = waits_from 65538 (ms * 1193 % 2 ^ 32)

-- What `init_lapic_timer` writes, with the count that is read after 10 ms; `%` is the width of a
-- product of `uint32_t`.
unfoldable pub init_lapic_timer : ℕ → ℕ → ℕ → Writes
init_lapic_timer vector ms current =
    let ticks_per_ms = (0xFFFFFFFF - current) / 10 in
    (0x3E0, 3)
    ∷ (0x320, 2 ^ 16)
    ∷ (0x380, 0xFFFFFFFF)
    ∷ (0x320, bit_or vector (2 ^ 17))
    ∷ (0x380, ticks_per_ms * ms % 2 ^ 32)
    ∷ []

-- The register IA32_APIC_MSR, and the writes to the local controller.
unfoldable pub init_lapic : ℕ → ℕ × Writes
init_lapic base = (bit_or base (2 ^ 11), (0xF0, 0x1FF) ∷ (0x80, 0) ∷ [])

abbrev sum : List ℕ → ℕ
sum [] = 0
sum (w ∷ ws) = w + sum ws

-- Each wait is a positive word of 16 bits.
abbrev AreWaits : List ℕ → Type 0
AreWaits [] = Unit
AreWaits (w ∷ ws) = (0 < w) × (w < 2 ^ 16) × AreWaits ws

waits_from-sum :
    (fuel total_ticks : ℕ)
    → total_ticks ≤ fuel * 0xFFFF
    → (sum (waits_from fuel total_ticks) ≡ total_ticks) × AreWaits (waits_from fuel total_ticks)
unfolding waits_from
waits_from-sum zero total_ticks enough = (omega arith, tt)
waits_from-sum (suc fuel) total_ticks enough = elim (Bool-cases (total_ticks == 0)) [
  | inl over ↦ rw over (ground arith, tt)
  | inr more ↦ elim (Bool-cases (ltb 0xFFFF total_ticks)) [
    | inl long ↦
        let (adds, waits) = waits_from-sum fuel (total_ticks - 0xFFFF) (ground arith) in
        rw (more, long) (ground (arith, adds), (omega arith, omega arith, waits))
    | inr short ↦
        let (adds, waits) = waits_from-sum fuel (total_ticks - total_ticks) (ground arith) in
        rw (more, short) (ground (arith, adds), (ground arith, ground arith, waits))
  ]
]

-- The waits of `pit_wait_ms` add up to the ticks of the time, in 32 bits, and each of them is a count
-- that the timer takes.
pit_waits-sum : (ms : ℕ) → (sum (pit_waits ms) ≡ ms * 1193 % 2 ^ 32) × AreWaits (pit_waits ms)
unfolding pit_waits
pit_waits-sum ms = waits_from-sum 65538 (ms * 1193 % 2 ^ 32) (omega arith)
