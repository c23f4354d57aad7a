-- ===== src/Arch/TimerTests.antt =====
-- The timers at 10 Hz and with a period of a millisecond.
use pointer_os.Base.{◌-◌, ◌≡◌, refl, [], ◌∷◌}
use pointer_os.Arch.Idt.{set_irq_handler}
use pointer_os.Arch.Timer.{init_pit, pit_handler, pit_waits, init_lapic_timer, init_lapic}

wait_runs : (pit_waits 100 ≡ 65535 ∷ 53765 ∷ []) × (pit_waits 0 ≡ [])
unfolding pit_waits
wait_runs = (refl, refl)

pit_runs :
    let r = init_pit 7000 (λ n. 0) (λ n. 0) [] 10 in
    ((pit_handler r.0).ticks ≡ 1)
    × (r.1 ≡ (0x43, 0x36) ∷ (0x40, 0x16) ∷ (0x40, 0xd2) ∷ [])
    × (r.2 0 ≡ 7000)
unfolding init_pit pit_handler set_irq_handler
pit_runs = (refl, refl, refl)

lapic_runs :
    (init_lapic_timer 0xEF 1 (0xFFFFFFFF - 625000)
      ≡ (0x3E0, 3)
        ∷ (0x320, 0x10000)
        ∷ (0x380, 0xFFFFFFFF)
        ∷ (0x320, 0x200EF)
        ∷ (0x380, 62500)
        ∷ [])
    × ((init_lapic 0xFEE00100).0 ≡ 0xFEE00900)
unfolding init_lapic_timer init_lapic
lapic_runs = (refl, refl)
