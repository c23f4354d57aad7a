-- ===== src/Arch/Tests.antt =====
-- Tables and interrupt sources.
use pointer_os.Base.{ℕ, ◌+◌, ◌*◌, ◌≡◌, ◌≢◌, List, [], ◌∷◌, arith}
use pointer_os.Arch.Idt.{Idt, init_idt, gate_handler, init_idt_lem}
use pointer_os.Arch.Gdt.{Descriptor, set_tss_gate, limit_of, long_base_of, set_tss_gate_lem}
use pointer_os.Arch.Ioapic.{Iso, get_gsi_for_irq, ioapic_set_irq, ioapic_set_irq_lem}

abbrev no_gates : Idt
no_gates = record {
  limit = 0;
  base = 0;
  entries = λ v. record {
    offset_1 = 0;
    selector = 0;
    ist = 0;
    flags = 0;
    offset_2 = 0;
    offset_3 = 0;
    reserved = 0;
  };
}

-- Stubs of 16 bytes each in the kernel's half of the address space.
abbrev stubs : ℕ → ℕ
stubs v = 0xffff_ffff_8010_0000 + 16 * v

init_idt_lem_example :
    let idt =
      (init_idt stubs stubs 0xffff_ffff_8020_0000 0xffff_ffff_8030_0000 1 no_gates 4096).1 in
    let g = idt.entries 33 in
    (gate_handler g ≡ 0xffff_ffff_8010_0010) × (g.flags ≡ 0x8E) × (g.ist ≡ 0)
init_idt_lem_example =
    init_idt_lem stubs stubs 0xffff_ffff_8020_0000 0xffff_ffff_8030_0000 1 no_gates 4096 33
      (omega arith) (omega arith)

abbrev no_segments : ℕ → Descriptor
no_segments v = record {
  limit_low = 0;
  base_low = 0;
  base_mid = 0;
  access = 0;
  limit_high_flags = 0;
  base_high = 0;
}

set_tss_gate_lem_example :
    let e = set_tss_gate no_segments 5 0xffff_ffff_8012_3456 103 in
    (long_base_of (e 5) (e 6) ≡ 0xffff_ffff_8012_3456)
    × (limit_of (e 5) ≡ 103)
    × ((j : ℕ) → j ≢ 5 → j ≢ 6 → e j ≡ no_segments j)
set_tss_gate_lem_example = set_tss_gate_lem no_segments 5 0xffff_ffff_8012_3456 103 (omega arith)

-- The timer's line 0 arrives as source 2, active low and level triggered.
abbrev overrides : List Iso
overrides = record { irq_source = 0; gsi = 2; flags = 10 } ∷ []

ioapic_set_irq_lem_example :
    let r = ioapic_set_irq (λ n. 0) overrides 0 32 1 in
    (2 ≡ get_gsi_for_irq overrides 0)
    × (r 20 ≡ 0xa020)
    × (r 21 ≡ 0x100_0000)
    × ((j : ℕ) → j ≢ 20 → j ≢ 21 → r j ≡ 0)
ioapic_set_irq_lem_example =
    ioapic_set_irq_lem (λ n. 0) overrides 0 32 1 (omega arith) (omega arith)
