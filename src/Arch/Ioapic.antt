-- ===== src/Arch/Ioapic.antt =====
-- arch/x86_64/apic/ioapic.c, and `save_iso` of arch/x86_64/apic/acpi.c: interrupt sources with the
-- overrides of the firmware. A register of the controller is reached through the pair of a selector
-- and a window; the registers are a function from their number.
use pointer_os.Base.{
  ℕ, ◌+◌, ◌*◌, ◌/◌, ◌%◌, ◌^◌, ◌<◌, ◌≡◌, refl, sym, ◌≢◌, inl, inr, Option, none, some, List, [], ◌∷◌,
  ◌++◌, arith, ltb, ◌==◌, if◌then◌else◌, Bool-cases, length, update,
}

-- The fields of `struct MADT_ISO` that are read.
pub record Iso : Type 0 where
  pub irq_source : ℕ
  pub gsi : ℕ
  pub flags : ℕ

-- `iso_list` up to `iso_count`. The message on overflow is left out.
unfoldable pub save_iso : List Iso → Iso → List Iso
save_iso iso_list iso = if ltb (length iso_list) 16 then iso_list ++ iso ∷ [] else iso_list

unfoldable pub get_gsi_for_irq : List Iso → ℕ → ℕ
get_gsi_for_irq [] irq = irq
get_gsi_for_irq (iso ∷ rest) irq =
    let later = get_gsi_for_irq rest irq in if iso.irq_source == irq then iso.gsi else later

-- The loop of `ioapic_set_irq`: `gsi` and `flags`.
pub find_override : List Iso → ℕ → ℕ × ℕ
find_override [] irq = (irq, 0)
find_override (iso ∷ rest) irq =
    let later = find_override rest irq in
    if iso.irq_source == irq then (iso.gsi, iso.flags) else later

abbrev pub write_ioapic : (ℕ → ℕ) → ℕ → ℕ → ℕ → ℕ
write_ioapic registers reg value = update registers reg value

-- The vector is a byte, so that `|` with a higher bit adds it.
unfoldable pub ioapic_set_irq : (ℕ → ℕ) → List Iso → ℕ → ℕ → ℕ → ℕ → ℕ
ioapic_set_irq registers iso_list irq vector cpu_id =
    let found = find_override iso_list irq in
    let flags = found.1 in
    let low = if flags / 2 % 2 == 1 then vector + 2 ^ 13 else vector in
    let low = if flags / 8 % 2 == 1 then low + 2 ^ 15 else low in
    let reg = (0x10 + found.0 * 2) % 2 ^ 32 in
    let registers = write_ioapic registers reg low in
    write_ioapic registers ((reg + 1) % 2 ^ 32) (cpu_id * 2 ^ 24 % 2 ^ 32)

-- The first override of an interrupt source.
abbrev pub override_of : List Iso → ℕ → Option Iso
override_of [] irq = none
override_of (iso ∷ rest) irq = if iso.irq_source == irq then some iso else override_of rest irq

-- The number and the flags that it gives, or the source's own number and no flags.
abbrev pub overridden : ℕ → Option Iso → ℕ × ℕ
overridden irq none = (irq, 0)
overridden irq (some iso) = (iso.gsi, iso.flags)

find_override-override_of :
    (iso_list : List Iso) (irq : ℕ)
    → find_override iso_list irq ≡ overridden irq (override_of iso_list irq)
unfolding find_override
find_override-override_of [] irq = refl
find_override-override_of (iso ∷ rest) irq = elim (Bool-cases (iso.irq_source == irq)) [
  | inl here ↦ rw here refl
  | inr other ↦ rw other (find_override-override_of rest irq)
]

get_gsi_for_irq-override_of :
    (iso_list : List Iso) (irq : ℕ)
    → get_gsi_for_irq iso_list irq ≡ (overridden irq (override_of iso_list irq)).0
unfolding get_gsi_for_irq
get_gsi_for_irq-override_of [] irq = refl
get_gsi_for_irq-override_of (iso ∷ rest) irq = elim (Bool-cases (iso.irq_source == irq)) [
  | inl here ↦ rw here refl
  | inr other ↦ rw other (get_gsi_for_irq-override_of rest irq)
]

-- The low word of an entry with a vector, from bits 1 and 3 of the flags: active low, and level
-- triggered.
abbrev pub entry_word : ℕ → ℕ → ℕ
entry_word vector flags = vector + flags / 2 % 2 * 2 ^ 13 + flags / 8 % 2 * 2 ^ 15

-- The entry that is set is the one of the number that the first override of the source gives, or of
-- the source's own, which is also what `get_gsi_for_irq` says; its register number wraps around in
-- 32 bits. Its low word is the vector with bit 13 for active low and bit 15 for level triggered, as
-- the override has it, its high word names the processor, and no other register changes.
pub ioapic_set_irq_lem :
    (registers : ℕ → ℕ) (iso_list : List Iso) (irq vector cpu_id : ℕ)
    → vector < 256
    → cpu_id < 256
    → let (gsi, flags) = overridden irq (override_of iso_list irq) in
      let entry = (0x10 + gsi * 2) % 2 ^ 32 in
      let r = ioapic_set_irq registers iso_list irq vector cpu_id in
      (gsi ≡ get_gsi_for_irq iso_list irq)
      × (r entry ≡ entry_word vector flags)
      × (r (entry + 1) ≡ cpu_id * 2 ^ 24)
      × ((j : ℕ) → j ≢ entry → j ≢ entry + 1 → r j ≡ registers j)
unfolding ioapic_set_irq
ioapic_set_irq_lem registers iso_list irq vector cpu_id h k =
    rw (find_override-override_of iso_list irq) (
      sym (get_gsi_for_irq-override_of iso_list irq),
      ground arith,
      ground arith,
      λ j ne_low ne_high. ground arith,
    )
