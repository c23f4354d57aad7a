-- ===== src/Mm/Vmm.antt =====
-- mm/vmm.c: the page tables of four levels. The kernel reaches physical memory through its direct
-- mapping, so memory is a function from the physical address of a word of 64 bits to the word.
pub mod Tables
pub mod Descend
pub mod Map
pub mod Path
use pointer_os.Base.{
  ℕ, ◌+◌, ◌*◌, ◌/◌, ◌%◌, ◌^◌, bit_or, Bool, ◌&&◌, not, Option, none, some, List, ◌∷◌, ltb, leb,
  ◌==◌, if◌then◌else◌, ◌>>=◌, update,
}
use pointer_os.Kernel.Spinlock.{Cpu}
use pointer_os.Mm.Pmm.{Pmm, pmm_alloc_page}

-- The memory, the page allocator, and the addresses that `invalidate` flushed, the last one first.
pub record Mmu : Type 0 where
  pub memory : ℕ → ℕ
  pub cpu : Cpu
  pub pmm : Pmm
  pub flushed : List ℕ

-- `pml4_indx`, `pdpt_indx`, `pd_indx` and `pt_indx`
abbrev pub pml4_index : ℕ → ℕ
pml4_index vaddr = vaddr / 2 ^ 39 % 512

abbrev pub pdpt_index : ℕ → ℕ
pdpt_index vaddr = vaddr / 2 ^ 30 % 512

abbrev pub pd_index : ℕ → ℕ
pd_index vaddr = vaddr / 2 ^ 21 % 512

abbrev pub pt_index : ℕ → ℕ
pt_index vaddr = vaddr / 2 ^ 12 % 512

-- `&table[index]`
abbrev pub entry_at : ℕ → ℕ → ℕ
entry_at table index = table + 8 * index

-- `entry & PTE_PRESENT`, `entry & PTE_PAGE_SIZE` and `entry & PAGE_MASK_4KB`
abbrev pub is_present : ℕ → Bool
is_present entry = entry % 2 == 1

abbrev pub is_huge : ℕ → Bool
is_huge entry = entry / 128 % 2 == 1

abbrev pub table_of : ℕ → ℕ
table_of entry = entry / 0x1000 * 0x1000

-- `flags & PTE_USER`
abbrev pub is_user : ℕ → Bool
is_user flags = flags / 4 % 2 == 1

-- `memset(table, 0, PAGE_SIZE_4KB)`
abbrev pub zero_page : (ℕ → ℕ) → ℕ → ℕ → ℕ
zero_page memory table p = if leb table p && ltb p (table + 0x1000) then 0 else memory p

-- What `vmm_map_page` does at each of its upper levels, to the entry at `at`: a table that is not
-- there is allocated, one that is there becomes open to the user if the mapping is.
unfoldable pub descend : Mmu → ℕ → ℕ → Option Mmu
descend m at flags =
    let entry = m.memory at in
    let fresh = pmm_alloc_page m.cpu m.pmm >>= λ r. some (record m {
      cpu = r.0;
      pmm = r.1;
      memory = update (zero_page m.memory r.2) at (bit_or r.2 (if is_user flags then 7 else 3));
    }) in
    if is_present entry
    then some
        (if is_user flags then record m { memory = update m.memory at (bit_or entry 4) } else m)
    else fresh

-- The last store, and `invalidate`.
abbrev pub store_entry : Mmu → ℕ → ℕ → ℕ → Mmu
store_entry m at entry vaddr = record m {
  memory = update m.memory at entry;
  flushed = vaddr ∷ m.flushed;
}

-- `vmm_map_page` from the test of the page size on, in the page directory.
unfoldable pub map_in_directory : Mmu → ℕ → ℕ → ℕ → ℕ → ℕ → Option Mmu
map_in_directory m pd_entry paddr vaddr ps flags =
    let small = descend m pd_entry flags >>= λ m'.
    let pt_entry = entry_at (table_of (m'.memory pd_entry)) (pt_index vaddr) in
    some (store_entry m' pt_entry (bit_or paddr (bit_or 1 flags)) vaddr) in
    let huge = some (store_entry m pd_entry (bit_or paddr (bit_or 129 flags)) vaddr) in
    if ps == 0x1000 then small else if ps == 0x200000 then huge else some m

-- `none`: the lock of the page allocator is held and never given back.
unfoldable pub vmm_map_page : Mmu → ℕ → ℕ → ℕ → ℕ → ℕ → Option Mmu
vmm_map_page m pml4 paddr vaddr ps flags =
    let pml4_entry = entry_at pml4 (pml4_index vaddr) in
    descend m pml4_entry flags >>= λ m1.
    let pdpt_entry = entry_at (table_of (m1.memory pml4_entry)) (pdpt_index vaddr) in
    descend m1 pdpt_entry flags >>= λ m2.
    let pd_entry = entry_at (table_of (m2.memory pdpt_entry)) (pd_index vaddr) in
    map_in_directory m2 pd_entry paddr vaddr ps flags

-- The address of the entry and `*level`, or `none` for `NULL`.
unfoldable pub vmm_get_entry : (ℕ → ℕ) → ℕ → ℕ → Option (ℕ × ℕ)
vmm_get_entry memory pml4 vaddr =
    let pml4_entry = entry_at pml4 (pml4_index vaddr) in
    let pdpt_entry = entry_at (table_of (memory pml4_entry)) (pdpt_index vaddr) in
    let pd_entry = entry_at (table_of (memory pdpt_entry)) (pd_index vaddr) in
    let pt_entry = entry_at (table_of (memory pd_entry)) (pt_index vaddr) in
    if not (is_present (memory pml4_entry))
    then none
    else if is_huge (memory pml4_entry)
    then some (pml4_entry, 3)
    else if not (is_present (memory pdpt_entry))
    then none
    else if is_huge (memory pdpt_entry)
    then some (pdpt_entry, 2)
    else if not (is_present (memory pd_entry))
    then none
    else if is_huge (memory pd_entry)
    then some (pd_entry, 2)
    else some (pt_entry, 0)

unfoldable pub vmm_unmap_page : Mmu → ℕ → ℕ → Mmu × ℕ
vmm_unmap_page m pml4 vaddr = elim (vmm_get_entry m.memory pml4 vaddr) [
  | none ↦ (m, 0)
  | some (at, level) ↦ (store_entry m at 0 vaddr, table_of (m.memory at))
]
