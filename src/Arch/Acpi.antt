-- ===== src/Arch/Acpi.antt =====
-- arch/x86_64/apic/acpi.c: the firmware tables, in the memory of bytes that the direct mapping shows.
pub mod Madt
pub mod Tables
use pointer_os.Base.{
  ℕ, zero, suc, ◌+◌, ◌*◌, ◌/◌, ◌%◌, ◌^◌, Bool, true, false, Option, none, some, List, [], ltb, ◌==◌,
  if◌then◌else◌, ◌>>=◌, add64, sub64,
}
use pointer_os.Libc.{Memory, same, memcmp}
use pointer_os.Boot.{read16, read32, read64, direct_offset, next_tag, first_tag_at}
use pointer_os.Arch.Ioapic.{Iso, save_iso}

-- The file's variables; `iso_list` is the list up to `iso_count`.
pub record Acpi : Type 0 where
  pub lapic_paddr : ℕ
  pub ioapic_paddr : ℕ
  pub iso_list : List Iso

-- The table that entry `i` of the list at `ptrs` leads to.
abbrev pub table_at : Memory → ℕ → Bool → ℕ → ℕ
table_at m ptrs is_xsdt i =
    add64 (if is_xsdt then read64 m (ptrs + 8 * i) else read32 m (ptrs + 4 * i)) direct_offset

-- `memcmp(h->Signature, "APIC", 4) == 0`, with the text at address `text`.
abbrev pub is_madt : Memory → ℕ → ℕ → Bool
is_madt m text h = elim (memcmp m h text 4) [ same ↦ true | _ ↦ false ]

-- The loop of `find_madt` from entry `i`; 0 is `NULL`.
pub find_from : Memory → ℕ → ℕ → Bool → ℕ → ℕ → ℕ
find_from m text ptrs is_xsdt zero i = 0
find_from m text ptrs is_xsdt (suc rounds) i =
    let h = table_at m ptrs is_xsdt i in
    let rest = find_from m text ptrs is_xsdt rounds (i + 1) in if is_madt m text h then h else rest

-- The rounds of a loop up to an `int` that is given a word of 64 bits.
abbrev pub int_rounds : ℕ → ℕ
int_rounds n = if ltb (n % 2 ^ 32) (2 ^ 31) then n % 2 ^ 32 else 0

-- `entries`, with a header of 36 bytes before them.
unfoldable pub entry_count : Memory → ℕ → Bool → ℕ
entry_count m sdt is_xsdt = int_rounds (sub64 (read32 m (sdt + 4)) 36 / (if is_xsdt then 8 else 4))

unfoldable pub find_madt : Memory → ℕ → ℕ → Bool → ℕ
unfolding find_from
find_madt m text sdt_phys is_xsdt =
    let sdt = add64 sdt_phys direct_offset in
    find_from m text (sdt + 36) is_xsdt (entry_count m sdt is_xsdt) 0

-- The fields of `struct MADT_ISO` at `entry`.
abbrev pub iso_at : Memory → ℕ → Iso
iso_at m entry = record {
  irq_source = m (entry + 3);
  gsi = read32 m (entry + 4);
  flags = read16 m (entry + 8);
}

-- The `switch` of `parse_madt`.
abbrev pub parse_entry : Memory → Acpi → ℕ → Acpi
parse_entry m a entry =
    if m entry == 1
    then record a { ioapic_paddr = read32 m (entry + 4) }
    else if m entry == 2
    then record a { iso_list = save_iso a.iso_list (iso_at m entry) }
    else a

-- The loop of `parse_madt` at `ptr`. `none` means that the fuel ran out.
pub parse_entries : ℕ → Memory → Acpi → ℕ → ℕ → Option Acpi
parse_entries zero m a end ptr = none
parse_entries (suc fuel) m a end ptr =
    let rest = parse_entries fuel m (parse_entry m a ptr) end (add64 ptr (m (ptr + 1))) in
    if ltb ptr end then rest else some a

unfoldable pub parse_madt : ℕ → Memory → Acpi → ℕ → Option Acpi
unfolding parse_entries
parse_madt fuel m a madt =
    parse_entries fuel m (record a { lapic_paddr = read32 m (madt + 36) })
      (add64 madt (read32 m (madt + 4))) (add64 madt 44)

-- The loop of `parse_acpi`: the value of `madt` behind it, which is `unset` where no tag sets it.
pub find_acpi : ℕ → Memory → ℕ → ℕ → ℕ → Option ℕ
find_acpi zero m text unset tag = none
find_acpi (suc fuel) m text unset tag =
    let rest = find_acpi fuel m text unset (next_tag m tag) in
    if read32 m tag == 0
    then some unset
    else if read32 m tag == 15
    then some (find_madt m text (read64 m (tag + 32)) true)
    else if read32 m tag == 14
    then some (find_madt m text (read32 m (tag + 24)) false)
    else rest

unfoldable pub parse_acpi : ℕ → Memory → ℕ → ℕ → Acpi → ℕ → Option Acpi
unfolding find_acpi
parse_acpi fuel m text unset a boot_info =
    find_acpi fuel m text unset (first_tag_at direct_offset boot_info) >>= λ madt.
    parse_madt fuel m a madt
