-- ===== src/Arch/Acpi/Tables.antt =====
-- The search of `find_madt` among the tables.
use pointer_os.Base.{
  ℕ, zero, suc, ◌+◌, ◌-◌, ◌/◌, ◌^◌, ◌≤◌, ◌<◌, ◌≡◌, refl, sym, ◌⊎◌, inl, inr, Bool, true, false,
  arith, if◌then◌else◌, dec_lt, add64,
}
use pointer_os.Libc.{Memory, Order, less, same, greater, memcmp}
use pointer_os.Libc.Compare.{Agree, Compared, memcmp-Compared}
use pointer_os.Boot.{read32, direct_offset}
use pointer_os.Arch.Acpi.{table_at, is_madt, find_from, entry_count, find_madt}

-- The four bytes at `h` and at `text` are the same.
abbrev Signed : Memory → ℕ → ℕ → Type 0
Signed m text h = Agree m h text 4

-- `h` is the first of the tables with the signature, or 0 if none of them has it.
abbrev pub FirstSigned : Memory → ℕ → (ℕ → ℕ) → ℕ → ℕ → Type 0
FirstSigned m text table n h =
    ((i : ℕ) × (i < n)
      × (h ≡ table i)
      × Signed m text (table i)
      × ((j : ℕ) → j < i → ¬ Signed m text (table j)))
    ⊎ ((h ≡ 0) × ((j : ℕ) → j < n → ¬ Signed m text (table j)))

cases_of_order :
    (m : Memory) (h text : ℕ) (o : Order)
    → Compared m h text 4 o
    → let b : Bool = elim o [ same ↦ true | _ ↦ false ] in
      ((b ≡ true) × Signed m text h) ⊎ ((b ≡ false) × (¬ Signed m text h))
cases_of_order m h text same c = inl (refl, c)
cases_of_order m h text less (k, small, before, differs) =
    inr (refl, λ signed. absurd (omega (arith, differs, signed k small)))
cases_of_order m h text greater (k, small, before, differs) =
    inr (refl, λ signed. absurd (omega (arith, differs, signed k small)))

is_madt-Signed :
    (m : Memory) (text h : ℕ)
    → ((is_madt m text h ≡ true) × Signed m text h)
      ⊎ ((is_madt m text h ≡ false) × (¬ Signed m text h))
is_madt-Signed m text h = cases_of_order m h text (memcmp m h text 4) (memcmp-Compared m h text 4)

-- From entry `i` on, with those before it seen.
find_from-FirstSigned :
    (rounds i : ℕ) (m : Memory) (text ptrs : ℕ) (is_xsdt : Bool)
    → ((j : ℕ) → j < i → ¬ Signed m text (table_at m ptrs is_xsdt j))
    → FirstSigned m text
        (table_at m ptrs is_xsdt)
        (i + rounds)
        (find_from m text ptrs is_xsdt rounds i)
unfolding find_from
find_from-FirstSigned zero i m text ptrs is_xsdt before = inr (refl, λ j h. before j (omega arith))
find_from-FirstSigned (suc rounds) i m text ptrs is_xsdt before =
    elim (is_madt-Signed m text (table_at m ptrs is_xsdt i)) [
      | inl (here, signed) ↦ rw here (inl (i, omega arith, refl, signed, before))
      | inr (other, unsigned) ↦
          let next : i + suc rounds ≡ i + 1 + rounds = omega arith in
          rw (other, next)
            (find_from-FirstSigned rounds (i + 1) m text ptrs is_xsdt (λ j h. elim (dec_lt j i) [
              | yes lower ↦ before j lower
              | no here ↦ let e : j ≡ i = omega (arith, here) in rw e unsigned
            ]))
    ]

-- In a table of at least the size of a header, `find_madt` looks at each of the entries, of 8 bytes
-- each or of 4, that stand behind the header, and at no other: the result is the first table among
-- those that they lead to whose signature is the text, or `NULL` if there is none.
pub find_madt-FirstSigned :
    (m : Memory) (text sdt_phys : ℕ) (is_xsdt : Bool)
    → let sdt = add64 sdt_phys direct_offset in
      36 ≤ read32 m (sdt + 4)
      → read32 m (sdt + 4) < 2 ^ 32
      → FirstSigned m text
          (table_at m (sdt + 36) is_xsdt)
          ((read32 m (sdt + 4) - 36) / (if is_xsdt then 8 else 4))
          (find_madt m text sdt_phys is_xsdt)
unfolding find_madt entry_count
find_madt-FirstSigned m text sdt_phys is_xsdt room small =
    let sdt = add64 sdt_phys direct_offset in
    let count : 0 + entry_count m sdt is_xsdt
        ≡ (read32 m (sdt + 4) - 36) / (if is_xsdt then 8 else 4) =
      ground arith in
    rw (sym count) (
      find_from-FirstSigned (entry_count m sdt is_xsdt) 0 m text (sdt + 36) is_xsdt
        (λ j h. absurd (omega arith)))
