-- ===== src/Mm/Vmm/Map.antt =====
-- `vmm_map_page` for a page of 4096 bytes, with `vmm_get_entry` and `vmm_unmap_page` after it.
use pointer_os.Base.{
  ℕ, suc, ◌*◌, ◌/◌, ◌%◌, ◌<◌, bit_or, ◌≡◌, ap, ◌∙◌, ◌⊎◌, inl, inr, Option, some, List, [], ◌∷◌,
  arith, ◌>>=◌, length, or_page,
}
use pointer_os.Mm.Vmm.{
  Mmu, entry_at, table_of, pml4_index, pdpt_index, pd_index, pt_index, descend, store_entry,
  map_in_directory, vmm_map_page, vmm_get_entry, vmm_unmap_page,
}
use pointer_os.Mm.Vmm.Tables.{Tables}
use pointer_os.Mm.Vmm.Descend.{IsExhausted, RanOut, descend-Descends, descend-RanOut}
use pointer_os.Mm.Vmm.Path.{
  Clear, Indices, path, Leads, Reached, next-Clear, step-Reached, store-Reached,
}

-- `vaddr` leads to the entry at `at`, and the entry holds the page and the flags.
pub record Mapped (m : Mmu) (n paddr vaddr flags : ℕ) : Type 0 where
  pub level : ℕ → ℕ
  pub tables : Tables level m
  pub root : level n ≡ 4
  pub at : ℕ
  pub found : vmm_get_entry m.memory (n * 0x1000) vaddr ≡ some (at, 0)
  pub lowest : level (at / 0x1000) ≡ 1
  pub holds : m.memory at ≡ bit_or paddr (bit_or 1 flags)

-- Code that returns when no page is left.
abbrev Returns : (Mmu → Option Mmu) → Type 0
Returns next = (m : Mmu) → RanOut m → (m' : Mmu) × (next m ≡ some m') × RanOut m'

-- The last level, at frame `t`, with `pd_entry` in it.
map_in_directory-Reached :
    (t paddr vaddr flags : ℕ) (level : ℕ → ℕ) (m : Mmu)
    → Tables level m
    → level t ≡ 2
    → Clear m.memory t (pd_index vaddr ∷ [])
    → (m' : Mmu) × (map_in_directory m
          (entry_at (t * 0x1000) (pd_index vaddr))
          paddr
          vaddr
          0x1000
          flags
        ≡ some m')
      × (RanOut m'
          ⊎ Reached level m t
              (pd_index vaddr ∷ [])
              (pt_index vaddr)
              (bit_or paddr (bit_or 1 flags))
              vaddr
              m')
unfolding map_in_directory
map_in_directory-Reached t paddr vaddr flags level m tables l c =
    let i = pd_index vaddr in
    let hi : i < 512 = omega arith in
    let (m1, (run, out)) =
      descend-Descends level m tables t i flags hi (omega arith) (λ p. (c p).0) in
    let word = bit_or paddr (bit_or 1 flags) in
    let at = entry_at (table_of (m1.memory (entry_at (t * 0x1000) i))) (pt_index vaddr) in
    (
      store_entry m1 at word vaddr,
      rw run,
      elim out [
        | inl ran ↦ inl ran
        | inr went ↦ inr (
            step-Reached level m m1 t i hi went tables [] (pt_index vaddr) word vaddr _
              (store-Reached went.level' m1 (m1.memory (entry_at (t * 0x1000) i) / 0x1000)
                (pt_index vaddr) word vaddr went.tables (omega (arith, went.target)) (omega arith))
              (omega arith))
      ],
    )

map_in_directory-RanOut :
    (at paddr vaddr flags : ℕ) → Returns (λ m. map_in_directory m at paddr vaddr 0x1000 flags)
unfolding map_in_directory
map_in_directory-RanOut at paddr vaddr flags m ran =
    let (m1, run, out) = descend-RanOut m at flags ran in
    (
      store_entry m1 (entry_at (table_of (m1.memory at)) (pt_index vaddr))
          (bit_or paddr (bit_or 1 flags)) vaddr,
      rw run,
      out,
    )

-- A step at frame `t` and what goes on after it.
step-GoesOn :
    (level : ℕ → ℕ) (m : Mmu) (t i flags : ℕ) (is : List ℕ) (k word vaddr : ℕ)
    (next : ℕ → Mmu → Option Mmu)
    → i < 512
    → Indices is
    → Tables level m
    → level t ≡ suc (suc (length is))
    → Clear m.memory t (i ∷ is)
    → ((u : ℕ) → Returns (next u))
    → ((level' : ℕ → ℕ) (m' : Mmu) (u : ℕ)
        → Tables level' m'
        → level' u ≡ suc (length is)
        → Clear m'.memory u is
        → (m2 : Mmu) × (next u m' ≡ some m2) × (RanOut m2 ⊎ Reached level' m' u is k word vaddr m2))
    → (m2 : Mmu) × ((descend m (entry_at (t * 0x1000) i) flags >>= λ m1.
          next (m1.memory (entry_at (t * 0x1000) i) / 0x1000) m1)
        ≡ some m2)
      × (RanOut m2 ⊎ Reached level m t (i ∷ is) k word vaddr m2)
step-GoesOn level m t i flags is k word vaddr next hi small tables l c ends goes_on =
    let (m1, (run, out)) =
      descend-Descends level m tables t i flags hi (omega arith) (λ p. (c p).0) in
    let u = m1.memory (entry_at (t * 0x1000) i) / 0x1000 in
    elim out [
      | inl ran ↦ let (m2, run2, ran2) = ends u m1 ran in (m2, rw run run2, inl ran2)
      | inr went ↦
          let (m2, run2, out2) =
            goes_on went.level' m1 u went.tables (omega (arith, went.target))
              (next-Clear level m m1 t i hi went tables is small l c) in
          (
            m2,
            rw run run2,
            elim out2 [
              | inl ran ↦ inl ran
              | inr reached ↦ inr (
                  step-Reached level m m1 t i hi went tables is k word vaddr m2 reached
                    (omega arith))
            ],
          )
    ]

-- The code from the second level on, at frame `u`.
abbrev in_pd : ℕ → ℕ → ℕ → ℕ → Mmu → Option Mmu
in_pd paddr vaddr flags u m =
    map_in_directory m (entry_at (u * 0x1000) (pd_index vaddr)) paddr vaddr 0x1000 flags

abbrev in_pdpt : ℕ → ℕ → ℕ → ℕ → Mmu → Option Mmu
in_pdpt paddr vaddr flags u m = descend m (entry_at (u * 0x1000) (pdpt_index vaddr)) flags >>= λ m2.
    in_pd paddr vaddr flags (m2.memory (entry_at (u * 0x1000) (pdpt_index vaddr)) / 0x1000) m2

in_pdpt-RanOut : (paddr vaddr flags u : ℕ) → Returns (in_pdpt paddr vaddr flags u)
in_pdpt-RanOut paddr vaddr flags u m ran =
    let at = entry_at (u * 0x1000) (pdpt_index vaddr) in
    let (m1, run, out) = descend-RanOut m at flags ran in
    let (m2, run2, out2) =
      map_in_directory-RanOut (entry_at (m1.memory at / 0x1000 * 0x1000) (pd_index vaddr)) paddr
        vaddr flags m1 out in
    (m2, rw run run2, out2)

in_pdpt-Reached :
    (paddr vaddr flags : ℕ) (level : ℕ → ℕ) (m : Mmu) (u : ℕ)
    → Tables level m
    → level u ≡ 3
    → Clear m.memory u (pdpt_index vaddr ∷ pd_index vaddr ∷ [])
    → (m' : Mmu) × (in_pdpt paddr vaddr flags u m ≡ some m')
      × (RanOut m'
          ⊎ Reached level m u
              (pdpt_index vaddr ∷ pd_index vaddr ∷ [])
              (pt_index vaddr)
              (bit_or paddr (bit_or 1 flags))
              vaddr
              m')
in_pdpt-Reached paddr vaddr flags level m u tables l c =
    step-GoesOn level m u (pdpt_index vaddr) flags (pd_index vaddr ∷ []) (pt_index vaddr)
      (bit_or paddr (bit_or 1 flags)) vaddr (in_pd paddr vaddr flags) (omega arith) (omega arith)
      tables l c
      (λ u. map_in_directory-RanOut (entry_at (u * 0x1000) (pd_index vaddr)) paddr vaddr flags)
      (λ level' m' u. map_in_directory-Reached u paddr vaddr flags level' m')

get_entry-Leads :
    (memory : ℕ → ℕ) (n vaddr t : ℕ)
    → Leads memory n (path vaddr) t
    → vmm_get_entry memory (n * 0x1000) vaddr ≡ some (entry_at (t * 0x1000) (pt_index vaddr), 0)
unfolding vmm_get_entry
get_entry-Leads memory n vaddr t h = ground (arith, h.2.2.2)

Reached-Mapped :
    (level : ℕ → ℕ) (m m' : Mmu) (n paddr vaddr flags : ℕ)
    → level n ≡ 4
    → Reached level m n (path vaddr) (pt_index vaddr) (bit_or paddr (bit_or 1 flags)) vaddr m'
    → Mapped m' n paddr vaddr flags
Reached-Mapped level m m' n paddr vaddr flags root r =
    let in_last : entry_at (r.last * 0x1000) (pt_index vaddr) / 0x1000 ≡ r.last = omega arith in
    record {
      level = r.level';
      tables = r.tables;
      root = r.kept n (omega arith) ∙ root;
      at = entry_at (r.last * 0x1000) (pt_index vaddr);
      found = get_entry-Leads m'.memory n vaddr r.last r.leads;
      lowest = ap r.level' in_last ∙ r.lowest;
      holds = r.holds;
    }

-- With the tables in order and no huge page on the way of `vaddr`, mapping a page of 4096 bytes
-- returns, and unless no physical page is left, `vmm_get_entry` then finds the entry of `vaddr` in a
-- lowest table, the entry holds the page's address and flags, the tables are in order again, and
-- the address is flushed.
pub vmm_map_page-Mapped :
    (level : ℕ → ℕ) (m : Mmu) (n paddr vaddr flags : ℕ)
    → Tables level m
    → level n ≡ 4
    → Clear m.memory n (path vaddr)
    → (m' : Mmu) × (vmm_map_page m (n * 0x1000) paddr vaddr 0x1000 flags ≡ some m')
      × (IsExhausted m'.pmm ⊎ (Mapped m' n paddr vaddr flags × (m'.flushed ≡ vaddr ∷ m.flushed)))
unfolding vmm_map_page
vmm_map_page-Mapped level m n paddr vaddr flags tables root c =
    let word = bit_or paddr (bit_or 1 flags) in
    let (m', run, out) =
      step-GoesOn level m n (pml4_index vaddr) flags (pdpt_index vaddr ∷ pd_index vaddr ∷ [])
        (pt_index vaddr) word vaddr (in_pdpt paddr vaddr flags) (omega arith) (omega arith) tables
        root c (in_pdpt-RanOut paddr vaddr flags) (in_pdpt-Reached paddr vaddr flags) in
    (
      m',
      run,
      elim out [
        | inl ran ↦ inl ran.1
        | inr r ↦ inr (Reached-Mapped level m m' n paddr vaddr flags root r, r.flushes)
      ],
    )

unmap-Mapped :
    (m : Mmu) (n paddr vaddr flags : ℕ)
    → paddr % 0x1000 ≡ 0
    → flags < 0x1000
    → (mapped : Mapped m n paddr vaddr flags)
    → vmm_unmap_page m (n * 0x1000) vaddr ≡ (store_entry m mapped.at 0 vaddr, paddr)
unfolding vmm_unmap_page
unmap-Mapped m n paddr vaddr flags aligned small mapped =
    let low : bit_or 1 flags < 0x1000 = omega (arith, or_page 1 flags small) in
    let page : table_of (m.memory mapped.at) ≡ paddr = omega (
      arith,
      mapped.holds,
      ap (λ (e : ℕ). e / 0x1000) mapped.holds,
      or_page paddr (bit_or 1 flags) low,
    ) in
    rw (mapped.found, vmm_unmap_page) (ap (λ (p : ℕ). (store_entry m mapped.at 0 vaddr, p)) page)

-- A page that was mapped is unmapped: under the same conditions, with a page-aligned address and
-- flags below 2^12, `vmm_unmap_page` after `vmm_map_page` gives the page back, and clears the one
-- word of memory that `vmm_get_entry` found, unless the mapping ran out of physical pages.
pub vmm_unmap_page-vmm_map_page :
    (level : ℕ → ℕ) (m : Mmu) (n paddr vaddr flags : ℕ)
    → Tables level m
    → level n ≡ 4
    → Clear m.memory n (path vaddr)
    → paddr % 0x1000 ≡ 0
    → flags < 0x1000
    → (m' : Mmu) × (vmm_map_page m (n * 0x1000) paddr vaddr 0x1000 flags ≡ some m')
      × (IsExhausted m'.pmm
          ⊎ ((at : ℕ) × (vmm_get_entry m'.memory (n * 0x1000) vaddr ≡ some (at, 0))
              × (vmm_unmap_page m' (n * 0x1000) vaddr ≡ (store_entry m' at 0 vaddr, paddr))))
vmm_unmap_page-vmm_map_page level m n paddr vaddr flags tables root c aligned small =
    let (m', run, out) = vmm_map_page-Mapped level m n paddr vaddr flags tables root c in
    (
      m',
      run,
      elim out [
        | inl ran ↦ inl ran
        | inr done ↦
            inr (done.0.at, done.0.found, unmap-Mapped m' n paddr vaddr flags aligned small done.0)
      ],
    )
