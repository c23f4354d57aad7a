-- ===== src/Arch/Idt.antt =====
-- arch/x86_64/idt/idt.c: the gates of the interrupt descriptor table and the dispatch of interrupts.
-- The stubs and handlers in assembly are addresses, parameters of `init_idt`.
use pointer_os.Base.{
  ℕ, zero, suc, ◌+◌, ◌-◌, ◌*◌, ◌/◌, ◌%◌, ◌^◌, ◌≤◌, ◌<◌, ◌≡◌, ap, ◌∙◌, Bool, ◌&&◌, ◌||◌, List, [],
  ◌∷◌, ◌++◌, arith, ltb, leb, ◌==◌, if◌then◌else◌, update,
}

-- `struct idt_entry_struct`
pub record Gate : Type 0 where
  pub offset_1 : ℕ
  pub selector : ℕ
  pub ist : ℕ
  pub flags : ℕ
  pub offset_2 : ℕ
  pub offset_3 : ℕ
  pub reserved : ℕ

unfoldable pub gate_of : ℕ → ℕ → ℕ → Gate
gate_of handler flags ist = record {
  offset_1 = handler % 2 ^ 16;
  selector = 8;
  ist = ist % 8;
  flags = flags;
  offset_2 = handler / 2 ^ 16 % 2 ^ 16;
  offset_3 = handler / 2 ^ 32 % 2 ^ 32;
  reserved = 0;
}

-- `vector` is a `uint8_t`.
abbrev pub set_idt_gate : (ℕ → Gate) → ℕ → ℕ → ℕ → ℕ → ℕ → Gate
set_idt_gate entries vector handler flags ist =
    update entries (vector % 256) (gate_of handler flags ist)

-- A loop that sets `count` gates from `vector` on.
pub set_gates : (ℕ → Gate) → (ℕ → ℕ) → ℕ → ℕ → ℕ → ℕ → Gate
set_gates entries stub flags vector zero = entries
set_gates entries stub flags vector (suc count) =
    set_gates (set_idt_gate entries vector (stub vector) flags 0) stub flags (vector + 1) count

-- `idt_ptr` and `idt_entries`
pub record Idt : Type 0 where
  pub limit : ℕ
  pub base : ℕ
  pub entries : ℕ → Gate

-- The ports that `remap_PIC` writes, with the bytes.
abbrev pub remap_pic : List (ℕ × ℕ)
remap_pic =
    (0x20, 0x11)
    ∷ (0xA0, 0x11)
    ∷ (0x21, 0x20)
    ∷ (0xA1, 0x28)
    ∷ (0x21, 0x04)
    ∷ (0xA1, 0x02)
    ∷ (0x21, 0x01)
    ∷ (0xA1, 0x01)
    ∷ (0x21, 0xFF)
    ∷ (0xA1, 0xFF)
    ∷ []

module _ (isr_stub_table irq_stub_table : ℕ → ℕ)
    (yield_handler lapic_timer_handler isr255 : ℕ) where
  -- The port writes, and the table that `lidt` loads.
  unfoldable pub init_idt : Idt → ℕ → List (ℕ × ℕ) × Idt
  init_idt s entries_at =
      let e = set_gates (s.entries) (λ v. 0) 0 0 256 in
      let e = set_gates e isr_stub_table 0x8E 0 8 in
      let e = set_idt_gate e 8 (isr_stub_table 8) 0x8E 1 in
      let e = set_gates e isr_stub_table 0x8E 9 23 in
      let e = set_gates e (λ v. irq_stub_table (v - 32)) 0x8E 32 16 in
      let e = set_idt_gate e 0x81 yield_handler 0x8E 0 in
      let e = set_idt_gate e 0xEF lapic_timer_handler 0x8E 0 in
      let e = set_idt_gate e 255 isr255 0x8E 0 in
      (remap_pic, record { limit = 16 * 256 - 1; base = entries_at; entries = e })

-- What an interrupt does: a line on the serial port for an exception, the page fault handler, the
-- call of a handler by its address, and the end of interrupt to the local APIC.
pub data Effect : Type 0 where
  prints_exception : ℕ → Effect
  page_fault : Effect
  calls : ℕ → Effect
  lapic_eoi : Effect

abbrev pub isr_handler : ℕ → List Effect
isr_handler int_no = prints_exception int_no ∷ (if int_no == 0x0e then page_fault ∷ [] else [])

abbrev pub irq_handler : (ℕ → ℕ) → ℕ → List Effect
irq_handler irq_handlers int_no = calls (irq_handlers (int_no - 32)) ∷ lapic_eoi ∷ []

unfoldable pub exception_handler : (ℕ → ℕ) → ℕ → List Effect
exception_handler irq_handlers int_no =
    (if ltb int_no 32 then isr_handler int_no else [])
    ++ (if ltb 31 int_no && ltb int_no 48 then irq_handler irq_handlers int_no else [])
    ++ (if int_no == 255 then lapic_eoi ∷ [] else [])

unfoldable pub set_irq_handler : (ℕ → ℕ) → ℕ → ℕ → ℕ → ℕ
set_irq_handler irq_handlers num handler = update irq_handlers num handler

unfoldable pub delete_irq_handler : (ℕ → ℕ) → ℕ → ℕ → ℕ
delete_irq_handler irq_handlers num = update irq_handlers num 0

-- The address to which a gate leads.
abbrev pub gate_handler : Gate → ℕ
gate_handler g = g.offset_1 + g.offset_2 * 2 ^ 16 + g.offset_3 * 2 ^ 32

one_more :
    (entries : ℕ → Gate) (stub : ℕ → ℕ) (flags vector count j : ℕ)
    → vector < 256
    → (if leb (vector + 1) j && ltb j (vector + 1 + count)
        then gate_of (stub j) flags 0
        else set_idt_gate entries vector (stub vector) flags 0 j)
      ≡ (if leb vector j && ltb j (vector + suc count) then gate_of (stub j) flags 0 else entries j)
one_more entries stub flags vector count j h = grind arith

set_gates-at :
    (entries : ℕ → Gate) (stub : ℕ → ℕ) (flags vector count j : ℕ)
    → vector + count ≤ 256
    → set_gates entries stub flags vector count j
      ≡ (if leb vector j && ltb j (vector + count) then gate_of (stub j) flags 0 else entries j)
unfolding set_gates
set_gates-at entries stub flags vector zero j h = ground arith
set_gates-at entries stub flags vector (suc count) j h =
    let rest =
      set_gates-at (set_idt_gate entries vector (stub vector) flags 0) stub flags (vector + 1) count
        j (omega arith) in
    rest ∙ one_more entries stub flags vector count j (omega arith)

gate_handler-gate_of :
    (handler flags ist : ℕ) → handler < 2 ^ 64 → gate_handler (gate_of handler flags ist) ≡ handler
unfolding gate_of
gate_handler-gate_of handler flags ist h = omega arith

-- The address, the flags and the interrupt stack of each vector.
module _ (isr_stub_table irq_stub_table : ℕ → ℕ)
    (yield_handler lapic_timer_handler isr255 : ℕ) where
  abbrev pub entry_point : ℕ → ℕ
  entry_point v =
      if ltb v 32
      then isr_stub_table v
      else if ltb v 48
      then irq_stub_table (v - 32)
      else if v == 0x81
      then yield_handler
      else if v == 0xEF
      then lapic_timer_handler
      else if v == 255
      then isr255
      else 0

  abbrev pub is_present : ℕ → Bool
  is_present v = ltb v 48 || v == 0x81 || v == 0xEF || v == 255

  init_idt-gates :
      (s : Idt) (entries_at v : ℕ)
      → v < 256
      → (init_idt isr_stub_table irq_stub_table yield_handler lapic_timer_handler isr255 s
            entries_at).1.entries
          v
        ≡ gate_of (entry_point v) (if is_present v then 0x8E else 0) (if v == 8 then 1 else 0)
  unfolding init_idt
  init_idt-gates s entries_at v h =
      let e1 = set_gates (s.entries) (λ v. 0) 0 0 256 in
      let e2 = set_gates e1 isr_stub_table 0x8E 0 8 in
      let e3 = set_idt_gate e2 8 (isr_stub_table 8) 0x8E 1 in
      let e4 = set_gates e3 isr_stub_table 0x8E 9 23 in
      let a1 = set_gates-at (s.entries) (λ v. 0) 0 0 256 v (omega arith) in
      let a2 = set_gates-at e1 isr_stub_table 0x8E 0 8 v (omega arith) in
      let a4 = set_gates-at e3 isr_stub_table 0x8E 9 23 v (omega arith) in
      let a5 = set_gates-at e4 (λ v. irq_stub_table (v - 32)) 0x8E 32 16 v (omega arith) in
      grind (arith, a1, a2, a4, a5)

  -- After `init_IDT` the gate of every vector leads to its stub or handler, if that is an address of
  -- 64 bits. It is a present interrupt gate for the vectors below 48 and for 0x81, 0xEF and 255,
  -- and an empty one for the others, and only the double fault, 8, has a stack of its own.
  pub init_idt_lem :
      (s : Idt) (entries_at v : ℕ)
      → v < 256
      → entry_point v < 2 ^ 64
      → let idt =
          (init_idt isr_stub_table irq_stub_table yield_handler lapic_timer_handler isr255 s
            entries_at).1 in
        let g = idt.entries v in
        (gate_handler g ≡ entry_point v)
        × (g.flags ≡ (if is_present v then 0x8E else 0))
        × (g.ist ≡ (if v == 8 then 1 else 0))
  unfolding gate_of
  init_idt_lem s entries_at v h small =
      let g = init_idt-gates s entries_at v h in
      (
        ap gate_handler g
            ∙ gate_handler-gate_of (entry_point v) (if is_present v then 0x8E else 0)
                (if v == 8 then 1 else 0) small,
        ap (λ (x : Gate). x.flags) g,
        ap (λ (x : Gate). x.ist) g ∙ ground arith,
      )

-- After `setIRQHandler` the interrupt of that line calls the handler and then ends the interrupt,
-- and every other interrupt does what it did.
exception_handler-set_irq_handler :
    (irq_handlers : ℕ → ℕ) (num handler int_no : ℕ)
    → num < 16
    → exception_handler (set_irq_handler irq_handlers num handler) int_no ≡ (
        if int_no == 32 + num
        then calls handler ∷ lapic_eoi ∷ []
        else exception_handler irq_handlers int_no)
unfolding exception_handler set_irq_handler
exception_handler-set_irq_handler irq_handlers num handler int_no h = ground arith
