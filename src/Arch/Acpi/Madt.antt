-- ===== src/Arch/Acpi/Madt.antt =====
-- What `parse_madt` and `parse_acpi` make of a list of entries and a list of tags.
use pointer_os.Base.{
  ℕ, zero, suc, ◌+◌, ◌≤◌, ◌<◌, ◌≡◌, refl, sym, ap, ◌∙◌, inl, inr, true, false, some, List, [], ◌∷◌,
  ◌++◌, append_assoc, append-nil, arith, ltb, ◌==◌, if◌then◌else◌, Bool-cases, length, take,
  length-append, add64,
}
use pointer_os.Libc.{Memory}
use pointer_os.Boot.{read32, read64, direct_offset, next_tag, first_tag_at, TagsAt}
use pointer_os.Arch.Ioapic.{Iso, save_iso}
use pointer_os.Arch.Acpi.{
  Acpi, find_madt, iso_at, parse_entry, parse_entries, parse_madt, find_acpi, parse_acpi,
}

-- From `ptr` on stand the entries `es`, the last of which ends at `end` or behind it.
abbrev pub EntriesAt : Memory → ℕ → ℕ → List ℕ → Type 0
EntriesAt m end ptr [] = end ≤ ptr
EntriesAt m end ptr (e ∷ es) = (ptr ≡ e) × (e < end) × EntriesAt m end (add64 e (m (e + 1))) es

-- The interrupt source overrides among the entries.
abbrev pub overrides_of : Memory → List ℕ → List Iso
overrides_of m [] = []
overrides_of m (e ∷ es) =
    let rest = overrides_of m es in if m e == 2 then iso_at m e ∷ rest else rest

-- The address in the last entry of an interrupt controller, or `unchanged`.
abbrev pub last_ioapic : Memory → ℕ → List ℕ → ℕ
last_ioapic m unchanged [] = unchanged
last_ioapic m unchanged (e ∷ es) =
    last_ioapic m (if m e == 1 then read32 m (e + 4) else unchanged) es

-- What the entries make of the variables.
abbrev pub entries_read : Memory → Acpi → List ℕ → Acpi
entries_read m a es = record a {
  ioapic_paddr = last_ioapic m a.ioapic_paddr es;
  iso_list = take 16 (a.iso_list ++ overrides_of m es);
}

module _ {ℓ} {A : Type ℓ} where
  take-prefix : (xs ys : List A) (n : ℕ) → length xs ≡ n → take n (xs ++ ys) ≡ xs
  take-prefix [] ys zero h = refl
  take-prefix [] ys (suc n) h = absurd (omega (arith, h))
  take-prefix (x ∷ xs) ys zero h = absurd (omega (arith, h))
  take-prefix (x ∷ xs) ys (suc n) h = ap (λ l. x ∷ l) (take-prefix xs ys n (omega (arith, h)))

  take-short : (xs : List A) (n : ℕ) → length xs ≤ n → take n xs ≡ xs
  take-short [] zero h = refl
  take-short [] (suc n) h = refl
  take-short (x ∷ xs) zero h = absurd (omega (arith, h))
  take-short (x ∷ xs) (suc n) h = ap (λ l. x ∷ l) (take-short xs n (omega (arith, h)))

-- At most 16 overrides are kept, and those that came first.
take-save_iso :
    (l : List Iso) (iso : Iso) (rest : List Iso)
    → length l ≤ 16
    → (take 16 (save_iso l iso ++ rest) ≡ take 16 (l ++ iso ∷ rest))
      × (length (save_iso l iso) ≤ 16)
unfolding save_iso
take-save_iso l iso rest room = elim (Bool-cases (ltb (length l) 16)) [
  | inl more ↦ rw more (
    ap (take 16) (append_assoc l (iso ∷ []) rest),
    ground (arith, length-append {0} l (iso ∷ [])),
  )
  | inr full ↦
      let sixteen : length l ≡ 16 = ground arith in
      rw full (take-prefix l rest 16 sixteen ∙ sym (take-prefix l (iso ∷ rest) 16 sixteen), room)
]

entries_read-parse_entry :
    (m : Memory) (a : Acpi) (e : ℕ) (es : List ℕ)
    → length a.iso_list ≤ 16
    → (entries_read m (parse_entry m a e) es ≡ entries_read m a (e ∷ es))
      × (length (parse_entry m a e).iso_list ≤ 16)
entries_read-parse_entry m a e es room = elim (Bool-cases (m e == 1)) [
  | inl ioapic ↦ let plain : (m e == 2) ≡ false = ground arith in rw (ioapic, plain) (refl, room)
  | inr other ↦ elim (Bool-cases (m e == 2)) [
    | inl override ↦
        let (same, small) = take-save_iso a.iso_list (iso_at m e) (overrides_of m es) room in
        rw (other, override)
          (
            ap (λ l. record a { ioapic_paddr = last_ioapic m a.ioapic_paddr es; iso_list = l })
                same,
            small,
          )
    | inr plain ↦ rw (other, plain) (refl, room)
  ]
]

parse_entries-entries_read :
    (es : List ℕ) (m : Memory) (a : Acpi) (end ptr fuel : ℕ)
    → EntriesAt m end ptr es
    → length es < fuel
    → length a.iso_list ≤ 16
    → parse_entries fuel m a end ptr ≡ some (entries_read m a es)
unfolding parse_entries
parse_entries-entries_read es m a end ptr zero at enough room = absurd (omega arith)
parse_entries-entries_read [] m a end ptr (suc fuel) at enough room =
    let over : ltb ptr end ≡ false = ground arith in
    rw over (
      ap (λ l. some (record a { iso_list = l }))
        (sym (
          take-short (a.iso_list ++ []) 16 (omega (arith, room, ap length (append-nil a.iso_list)))
          ∙ append-nil a.iso_list)))
parse_entries-entries_read (e ∷ es) m a end ptr (suc fuel) (here, more, rest) enough room =
    let on : ltb e end ≡ true = ground arith in
    let (same, small) = entries_read-parse_entry m a e es room in
    rw (here, on)
      (parse_entries-entries_read es m (parse_entry m a e) end (add64 e (m (e + 1))) fuel rest
          (omega arith) small
        ∙ ap some same)

-- What the table at `madt` with the entries `es` makes of the variables.
abbrev pub madt_read : Memory → Acpi → ℕ → List ℕ → Acpi
madt_read m a madt es = entries_read m (record a { lapic_paddr = read32 m (madt + 36) }) es

parse_madt-madt_read :
    (es : List ℕ) (m : Memory) (a : Acpi) (madt fuel : ℕ)
    → EntriesAt m (add64 madt (read32 m (madt + 4))) (add64 madt 44) es
    → length es < fuel
    → length a.iso_list ≤ 16
    → parse_madt fuel m a madt ≡ some (madt_read m a madt es)
unfolding parse_madt
parse_madt-madt_read es m a madt fuel at enough room =
    parse_entries-entries_read es m (record a { lapic_paddr = read32 m (madt + 36) })
      (add64 madt (read32 m (madt + 4))) (add64 madt 44) fuel at enough room

-- The table that the first tag with the firmware's root table leads to.
abbrev pub madt_of : Memory → ℕ → ℕ → List ℕ → ℕ
madt_of m text unset [] = unset
madt_of m text unset (t ∷ ts) =
    if read32 m t == 15
    then find_madt m text (read64 m (t + 32)) true
    else if read32 m t == 14
    then find_madt m text (read32 m (t + 24)) false
    else madt_of m text unset ts

find_acpi-madt_of :
    (ts : List ℕ) (m : Memory) (text unset tag fuel : ℕ)
    → TagsAt m tag ts
    → length ts < fuel
    → find_acpi fuel m text unset tag ≡ some (madt_of m text unset ts)
unfolding find_acpi
find_acpi-madt_of ts m text unset tag zero at enough = absurd (omega arith)
find_acpi-madt_of [] m text unset tag (suc fuel) at enough =
    let end : (read32 m tag == 0) ≡ true = ground arith in rw end refl
find_acpi-madt_of (t ∷ ts) m text unset tag (suc fuel) (here, more, rest) enough =
    let on : (read32 m t == 0) ≡ false = ground arith in
    elim (Bool-cases (read32 m t == 15)) [
      | inl new ↦ rw (here, on, new) refl
      | inr other ↦ elim (Bool-cases (read32 m t == 14)) [
        | inl old ↦ rw (here, on, other, old) refl
        | inr skip ↦
            rw (here, on, other, skip)
              (find_acpi-madt_of ts m text unset (next_tag m t) fuel rest (omega arith))
      ]
    ]

-- The boot tags are `ts`, and the table that the first of them with a root table leads to has the
-- entries `es`. With more rounds than tags and entries `parse_acpi` ends: the address of the local
-- controller is the table's, that of the other controller comes from the last entry of that kind,
-- and the overrides follow those that were there, in order, up to 16 of them. Without a root table
-- the table is at the value that the variable `madt` happened to have.
pub parse_acpi-madt_read :
    (ts es : List ℕ) (m : Memory) (text unset : ℕ) (a : Acpi) (boot_info fuel : ℕ)
    → TagsAt m (first_tag_at direct_offset boot_info) ts
    → (let madt = madt_of m text unset ts in
        EntriesAt m (add64 madt (read32 m (madt + 4))) (add64 madt 44) es)
    → length ts < fuel
    → length es < fuel
    → length a.iso_list ≤ 16
    → parse_acpi fuel m text unset a boot_info ≡ some (madt_read m a (madt_of m text unset ts) es)
unfolding parse_acpi
parse_acpi-madt_read ts es m text unset a boot_info fuel tags at enough_tags enough room =
    rw
      (find_acpi-madt_of ts m text unset (first_tag_at direct_offset boot_info) fuel tags
        enough_tags)
      (parse_madt-madt_read es m a (madt_of m text unset ts) fuel at enough room)
