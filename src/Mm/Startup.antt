-- ===== src/Mm/Startup.antt =====
-- What mm/vmm.c and mm/kmalloc.c do once at start-up: the direct mapping of physical memory, the page
-- attributes, and the heap.
use pointer_os.Base.{
  ℕ, zero, suc, ◌+◌, ◌*◌, ◌/◌, ◌%◌, ◌^◌, bit_or, true, Option, none, some, ltb, if◌then◌else◌,
  ◌>>=◌, update, add64,
}
use pointer_os.Libc.{Memory}
use pointer_os.Mm.Pmm.{pmm_alloc_page, pmm_alloc_pages}
use pointer_os.Mm.Vmm.{
  Mmu, pml4_index, pdpt_index, pd_index, entry_at, table_of, zero_page, descend, vmm_map_page,
}
use pointer_os.Boot.{direct_offset}
use pointer_os.Mm.Buddy.{heap_start, init_buddy}
use pointer_os.Mm.Slab.{init_slab}
use pointer_os.Mm.Kmalloc.{Kheap}
use pointer_os.Mm.MemoryMap.{highest_end}

-- The round of `vmm_init_direct_mapping` at `paddr`. Its step at the two upper levels is that of
-- `vmm_map_page` for a page of the kernel.
unfoldable pub map_direct : Mmu → ℕ → ℕ → Option Mmu
map_direct m pml4 paddr =
    let vaddr = add64 paddr direct_offset in
    let pml4_entry = entry_at pml4 (pml4_index vaddr) in
    descend m pml4_entry 0 >>= λ m1.
    let pdpt_entry = entry_at (table_of (m1.memory pml4_entry)) (pdpt_index vaddr) in
    descend m1 pdpt_entry 0 >>= λ m2.
    let pd_entry = entry_at (table_of (m2.memory pdpt_entry)) (pd_index vaddr) in
    some (record m2 { memory = update m2.memory pd_entry (bit_or paddr 131) })

-- The loop from `paddr`. `none`: the fuel ran out, or the lock of the page allocator is held.
pub direct_from : ℕ → Mmu → ℕ → ℕ → ℕ → Option Mmu
direct_from zero m pml4 max_addr paddr = none
direct_from (suc fuel) m pml4 max_addr paddr =
    let rest =
      map_direct m pml4 paddr >>= λ m'. direct_from fuel m' pml4 max_addr (add64 paddr 0x200000) in
    if ltb paddr max_addr then rest else some m

-- The tables and the new CR3.
unfoldable pub vmm_init_direct_mapping : ℕ → Mmu → ℕ → ℕ → Option (Mmu × ℕ)
unfolding direct_from
vmm_init_direct_mapping fuel m cr3 max_addr = pmm_alloc_page m.cpu m.pmm >>= λ r.
    let pml4 = r.2 in
    let cleared = zero_page m.memory pml4 in
    let m1 = record m {
      cpu = r.0;
      pmm = r.1;
      memory = update cleared (entry_at pml4 511) (cleared (entry_at cr3 511));
    } in
    direct_from fuel m1 pml4 max_addr 0 >>= λ m'. some (m', pml4)

-- The register of the page attributes, a word of 64 bits; `high` is its upper half.
unfoldable pub init_pat : ℕ → ℕ
init_pat pat =
    let low = pat % 2 ^ 32 in let high = pat / 2 ^ 32 in low + (high / 256 * 256 + 6) * 2 ^ 32

-- The tables, CR3 and the register of the page attributes.
unfoldable pub init_vmm : ℕ → Memory → Mmu → ℕ → ℕ → ℕ → Option (Mmu × ℕ × ℕ)
init_vmm fuel boot m cr3 pat boot_info = highest_end (λ e. true) fuel boot boot_info >>= λ max_addr.
    vmm_init_direct_mapping fuel m cr3 max_addr >>= λ r. some (r.0, r.1, init_pat pat)

-- The loop of `init_kheap` from page `i`.
unfoldable pub map_heap : ℕ → Mmu → ℕ → ℕ → ℕ → Option Mmu
map_heap zero m cr3 paddr i = some m
map_heap (suc rounds) m cr3 paddr i =
    vmm_map_page m cr3 (add64 paddr (i * 0x1000)) (heap_start + i * 0x1000) 0x1000 3 >>= λ m'.
    map_heap rounds m' cr3 paddr (i + 1)

-- `pmm_alloc_pages` takes no lock.
unfoldable pub init_kheap : Mmu → ℕ → Kheap → Option (Mmu × Kheap)
init_kheap m cr3 h = pmm_alloc_pages m.pmm 4096 >>= λ r.
    map_heap 4096 (record m { pmm = r.0 }) cr3 r.1 0 >>= λ m'.
    some (m', record h { heap = init_slab (record h.heap { buddy = init_buddy h.heap.buddy }) })
