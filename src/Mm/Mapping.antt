-- ===== src/Mm/Mapping.antt =====
-- The rest of mm/vmalloc.c and mm/stack.c: regions of kernel addresses and user stacks with their
-- pages.
use pointer_os.Base.{
  ℕ, zero, suc, ◌+◌, ◌/◌, Option, none, some, ◌-◌, ◌^◌, leb, ◌==◌, if◌then◌else◌, ◌>>=◌, update,
  add64, sub64,
}
use pointer_os.Mm.Kmalloc.{Kheap, kmalloc}
use pointer_os.Mm.Pmm.{pmm_alloc_page, pmm_free_page}
use pointer_os.Mm.Region.{Regions}
use pointer_os.Mm.Vmalloc.{vm_add_to_list, vm_remove_from_list}
use pointer_os.Mm.Stack.{us_add_to_list, us_remove_from_list}
use pointer_os.Mm.Vmm.{Mmu, vmm_map_page, vmm_unmap_page}

-- The heap, the lists of kernel regions and of user stacks, the page tables and the register CR3.
pub record Space : Type 0 where
  pub kheap : Kheap
  pub regions : Regions
  pub stacks : Regions
  pub mmu : Mmu
  pub cr3 : ℕ

-- `vmm_map_page(read_cr3(), pmm_alloc_page(), vaddr, PAGE_SIZE_4KB, flags)`
abbrev pub map_new_page : Mmu → ℕ → ℕ → ℕ → Option Mmu
map_new_page m cr3 vaddr flags = pmm_alloc_page m.cpu m.pmm >>= λ r.
    vmm_map_page (record m { cpu = r.0; pmm = r.1 }) cr3 r.2 vaddr 0x1000 flags

-- The loop of `vmalloc` from `j`.
unfoldable pub map_region : ℕ → Mmu → ℕ → ℕ → ℕ → Option Mmu
map_region zero m cr3 base j = some m
map_region (suc rounds) m cr3 base j =
    map_new_page m cr3 (add64 base j) 2 >>= λ m'. map_region rounds m' cr3 base (j + 0x1000)

-- The rounds of a loop whose `int` counter goes up to `size` in steps of a page. Above 2^31 it wraps
-- around there and its `uint64_t` value ends the loop; `none`: no value of the counter does.
abbrev pub page_count : ℕ → Option ℕ
page_count size =
    if leb size (2 ^ 31)
    then some ((size + 0xfff) / 0x1000)
    else if leb size (2 ^ 64 - 2 ^ 31)
    then some (2 ^ 19)
    else none

-- `vm_info_t` and `us_info_t` have 32 bytes. `none`: a lock is held, or fuel ran out in the list.
abbrev pub kmalloc_info : Space → Option (Space × ℕ)
kmalloc_info s = kmalloc s.mmu.cpu s.kheap 32 >>= λ r.
    some (record s { kheap = r.1; mmu = record s.mmu { cpu = r.0 } }, r.2)

abbrev pub set_size : Regions → ℕ → ℕ → Regions
set_size l i size = record l { node = update l.node i (record (l.node i) { size = size }) }

unfoldable pub vmalloc : ℕ → Space → ℕ → Option (Space × ℕ)
vmalloc fuel s size =
    let allocated = kmalloc_info s >>= λ r.
    let s1 = r.0 in
    let i = r.1 in
    let placed = vm_add_to_list fuel (set_size s1.regions i size) i >>= λ l.
    page_count size >>= λ rounds. map_region rounds s1.mmu s1.cr3 (l.node i).base 0 >>= λ m.
    some (record s1 { regions = l; mmu = m }, (l.node i).base) in
    if i == 0 then some (s1, 0) else placed in
    if size == 0 then some (s, 0) else allocated

unfoldable pub kernel_alloc_stack : ℕ → Space → ℕ → Option (Space × ℕ)
kernel_alloc_stack fuel s size = if size == 0 then some (s, 0) else vmalloc fuel s size

-- The loops that look for the region at `ptr`, from `current` on: its address, or 0.
pub find_region : ℕ → Regions → ℕ → ℕ → Option ℕ
find_region zero l current ptr = none
find_region (suc fuel) l current ptr =
    let rest = find_region fuel l (l.node current).next ptr in
    if current == 0 then some 0 else if (l.node current).base == ptr then some current else rest

-- One page is unmapped and given back.
abbrev pub free_page_at : Mmu → ℕ → ℕ → Mmu
free_page_at m cr3 vaddr =
    let (m', paddr) = vmm_unmap_page m cr3 vaddr in record m' { pmm = pmm_free_page m'.pmm paddr }

-- The loop of `vfree` from `j`.
pub unmap_region : ℕ → Mmu → ℕ → ℕ → ℕ → Mmu
unmap_region zero m cr3 base j = m
unmap_region (suc rounds) m cr3 base j =
    unmap_region rounds (free_page_at m cr3 (add64 base j)) cr3 base (j + 0x1000)

unfoldable pub vfree : ℕ → Space → ℕ → Option Space
vfree fuel s ptr = find_region fuel s.regions s.regions.head ptr >>= λ current.
    let region = s.regions.node current in
    let freed = page_count region.size >>= λ rounds. some (record s {
      mmu = unmap_region rounds s.mmu s.cr3 region.base 0;
      regions = vm_remove_from_list s.regions current;
    }) in
    if current == 0 then some s else freed

-- The flags are `PTE_WRITABLE | PTE_USER`.
unfoldable pub user_alloc_stack : ℕ → Space → ℕ → Option (Space × ℕ)
user_alloc_stack fuel s size =
    let allocated = kmalloc_info s >>= λ r.
    let s1 = r.0 in
    let i = r.1 in
    let placed = us_add_to_list fuel (set_size s1.stacks i size) i >>= λ l.
    map_new_page s1.mmu s1.cr3 (sub64 (l.node i).base 0x1000) 6 >>= λ m.
    some (record s1 { stacks = l; mmu = m }, (l.node i).base) in
    if i == 0 then some (s1, 0) else placed in
    if size == 0 then some (s, 0) else allocated

-- The loop of `user_free_stack` from `i`.
pub unmap_stack : ℕ → Mmu → ℕ → ℕ → ℕ → Mmu
unmap_stack zero m cr3 base i = m
unmap_stack (suc rounds) m cr3 base i =
    unmap_stack rounds (free_page_at m cr3 (sub64 base i)) cr3 base (i + 0x1000)

unfoldable pub user_free_stack : ℕ → Space → ℕ → Option Space
user_free_stack fuel s ptr = find_region fuel s.stacks s.stacks.head ptr >>= λ current.
    let region = s.stacks.node current in
    let freed = page_count region.size >>= λ rounds. some (record s {
      mmu = unmap_stack rounds s.mmu s.cr3 region.base 0;
      stacks = us_remove_from_list s.stacks current;
    }) in
    if current == 0 then some s else freed
