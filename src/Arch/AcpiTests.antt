-- ===== src/Arch/AcpiTests.antt =====
-- A root table with one entry, and a table of interrupt controllers with one controller and one
-- override.
use pointer_os.Base.{
  ℕ, ◌+◌, ◌-◌, ◌≡◌, refl, false, Option, none, some, List, [], ◌∷◌, arith, ltb, if◌then◌else◌,
  get_elem?, add64,
}
use pointer_os.Libc.{Memory, memcmp}
use pointer_os.Boot.{direct_offset, first_tag_at}
use pointer_os.Arch.Ioapic.{get_gsi_for_irq, save_iso}
use pointer_os.Arch.Acpi.{Acpi, find_madt, entry_count, parse_acpi, parse_madt, table_at}
use pointer_os.Arch.Acpi.Madt.{madt_read, parse_acpi-madt_read}
use pointer_os.Arch.Acpi.Tables.{FirstSigned, find_madt-FirstSigned}

abbrev byte_of : List ℕ → ℕ → ℕ
byte_of bs i = elim (get_elem? bs i) [ some b ↦ b | none ↦ 0 ]

abbrev tag_bytes : List ℕ
tag_bytes =
    14 ∷ 0 ∷ 0 ∷ 0 ∷ 28 ∷ 0 ∷ 0 ∷ 0 ∷ 0 ∷ 0 ∷ 0 ∷ 0 ∷ 0 ∷ 0 ∷ 0 ∷ 0 ∷ 0 ∷ 0 ∷ 0 ∷ 0 ∷ 0 ∷ 0 ∷ 0 ∷ 0
    ∷ 0 ∷ 32 ∷ 0 ∷ 0 ∷ 0 ∷ 0 ∷ 0 ∷ 0 ∷ []

abbrev rsdt_bytes : List ℕ
rsdt_bytes =
    0 ∷ 0 ∷ 0 ∷ 0 ∷ 40 ∷ 0 ∷ 0 ∷ 0 ∷ 0 ∷ 0 ∷ 0 ∷ 0 ∷ 0 ∷ 0 ∷ 0 ∷ 0 ∷ 0 ∷ 0 ∷ 0 ∷ 0 ∷ 0 ∷ 0 ∷ 0 ∷ 0
    ∷ 0 ∷ 0 ∷ 0 ∷ 0 ∷ 0 ∷ 0 ∷ 0 ∷ 0 ∷ 0 ∷ 0 ∷ 0 ∷ 0 ∷ 0 ∷ 48 ∷ 0 ∷ 0 ∷ []

abbrev madt_bytes : List ℕ
madt_bytes =
    65 ∷ 80 ∷ 73 ∷ 67 ∷ 66 ∷ 0 ∷ 0 ∷ 0 ∷ 0 ∷ 0 ∷ 0 ∷ 0 ∷ 0 ∷ 0 ∷ 0 ∷ 0 ∷ 0 ∷ 0 ∷ 0 ∷ 0 ∷ 0 ∷ 0 ∷ 0
    ∷ 0 ∷ 0 ∷ 0 ∷ 0 ∷ 0 ∷ 0 ∷ 0 ∷ 0 ∷ 0 ∷ 0 ∷ 0 ∷ 0 ∷ 0 ∷ 0 ∷ 0 ∷ 224 ∷ 254 ∷ 0 ∷ 0 ∷ 0 ∷ 0 ∷ 1 ∷ 12
    ∷ 0 ∷ 0 ∷ 0 ∷ 0 ∷ 192 ∷ 254 ∷ 0 ∷ 0 ∷ 0 ∷ 0 ∷ 2 ∷ 10 ∷ 0 ∷ 0 ∷ 2 ∷ 0 ∷ 0 ∷ 0 ∷ 10 ∷ 0 ∷ []

-- The signature stands at 16, the tags at 0x1008, the root table at 0x2000 and the other at 0x3000.
abbrev firmware : Memory
firmware a =
    let p = a - direct_offset in
    if ltb a 0x100
    then byte_of madt_bytes (a - 16)
    else if ltb p 0x2000
    then byte_of tag_bytes (p - 0x1008)
    else if ltb p 0x3000
    then byte_of rsdt_bytes (p - 0x2000)
    else byte_of madt_bytes (p - 0x3000)

find_madt-FirstSigned_example :
    FirstSigned firmware 16
      (table_at firmware (add64 0x2000 direct_offset + 36) false)
      1
      (find_madt firmware 16 0x2000 false)
find_madt-FirstSigned_example =
    find_madt-FirstSigned firmware 16 0x2000 false (omega arith) (omega arith)

finds_madt : find_madt firmware 16 0x2000 false ≡ 0x3000 + direct_offset
unfolding find_madt memcmp entry_count
finds_madt = refl

abbrev nothing_known : Acpi
nothing_known = record { lapic_paddr = 0; ioapic_paddr = 0; iso_list = [] }

abbrev one_tag : List ℕ
one_tag = first_tag_at direct_offset 0x1000 ∷ []

abbrev two_entries : List ℕ
two_entries = (direct_offset + 0x302c) ∷ (direct_offset + 0x3038) ∷ []

parse_acpi-madt_read_example :
    parse_acpi 9 firmware 16 0 nothing_known 0x1000
    ≡ some (madt_read firmware nothing_known (direct_offset + 0x3000) two_entries)
unfolding find_madt memcmp entry_count
parse_acpi-madt_read_example =
    parse_acpi-madt_read one_tag two_entries firmware 16 0 nothing_known 0x1000 9
      (refl, (λ e. absurd (omega (arith, e))), refl)
      (refl, omega arith, (refl, omega arith, omega arith)) (omega arith) (omega arith)
      (omega arith)

abbrev line_of : Option Acpi → ℕ
line_of (some a) = get_gsi_for_irq a.iso_list 0
line_of none = 0

moves_timer : line_of (parse_acpi 9 firmware 16 0 nothing_known 0x1000) ≡ 2
unfolding parse_acpi parse_madt find_madt memcmp entry_count get_gsi_for_irq save_iso
moves_timer = refl
