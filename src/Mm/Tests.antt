-- ===== src/Mm/Tests.antt =====
-- A memory of 16 pages of which some are free, and lists of two regions.
use pointer_os.Base.{
  ℕ, zero, suc, ◌+◌, ◌^◌, ◌<◌, ◌≡◌, refl, ◌≢◌, ◌⊎◌, false, ◌&&◌, not, none, some, List, [], ◌∷◌,
  ◌++◌, arith, ltb, ◌==◌, if◌then◌else◌, ◌>>=◌,
}
use pointer_os.Kernel.Spinlock.{Cpu}
use pointer_os.Kernel.Process.{Processes, create_user_process}
use pointer_os.Kernel.Process.KernelHalf.{SharesKernel, create_user_process-SharesKernel}
use pointer_os.Mm.Slab.{slab_alloc}
use pointer_os.Mm.Kmalloc.{Kheap, kmalloc, kmalloc_unlocked, cache_from}
use pointer_os.Mm.Pmm.{
  bitmap_set, Bitmap, Pmm, bitmap_test, pmm_alloc_page, pmm_alloc_pages, pmm_free_page,
}
use pointer_os.Mm.Pmm.Page.{IsTaken, IsValid, Took, pmm_alloc_page-Took, pmm_free_page_lem}
use pointer_os.Mm.Pmm.Run.{
  SearchedRun, IsFreeRun, pmm_alloc_pages-SearchedRun, pmm_alloc_pages_past_end,
}
use pointer_os.Mm.Region.{Region, Regions, remove_from_list}
use pointer_os.Mm.Region.Place.{IsList}
use pointer_os.Mm.Region.Remove.{remove_from_list-IsList}
use pointer_os.Mm.Vmalloc.{vm_add_to_list}
use pointer_os.Mm.Vmalloc.Ascending
use pointer_os.Mm.Vmalloc.Ascending.{Ascending, vm_add_to_list-Ascending}
use pointer_os.Mm.Vmm.{Mmu, store_entry, vmm_map_page, vmm_get_entry, vmm_unmap_page}
use pointer_os.Mm.Vmm.Tables.{Tables}
use pointer_os.Mm.Vmm.Descend.{IsExhausted}
use pointer_os.Mm.Vmm.Map.{Mapped, vmm_map_page-Mapped, vmm_unmap_page-vmm_map_page}
use pointer_os.Mm.Stack.{us_add_to_list}
use pointer_os.Mm.Stack.Descending
use pointer_os.Mm.Stack.Descending.{Descending, us_add_to_list-Descending}

-- Pages 3, 9 and 10 are free.
abbrev some_free : Bitmap
some_free i = if i == 0 then 0xf7 else if i == 1 then 0xf9 else 0xff

-- All eight pages are taken, and the byte behind the bitmap reads as 0.
abbrev full : Bitmap
full i = if i == 0 then 0xff else 0

abbrev pmm_with : Bitmap → ℕ → Pmm
pmm_with b total = record { bitmap = b; total_pages = total; lock = record { lock = 0 } }

some_free-IsValid : IsValid (pmm_with some_free 16)
some_free-IsValid = ((λ i. ground arith), refl)

full_bytes : (i : ℕ) → full i < 256
full_bytes i = ground arith

alloc_runs : (pmm_alloc_pages (pmm_with some_free 16) 2 >>= λ r. some r.1) ≡ some 0x9000
unfolding pmm_alloc_pages bitmap_test bitmap_set
alloc_runs = refl

pmm_alloc_page-Took_example :
    let s = pmm_with some_free 16 in
    (s' : Pmm) × (paddr : ℕ) × (pmm_alloc_page (record { rflags = 0x202 }) s
      ≡ some (record { rflags = 0x202 }, s', paddr))
    × IsValid s'
    × (s'.total_pages ≡ 16)
    × (s'.lock ≡ s.lock)
    × Took some_free 16 (s'.bitmap, paddr)
pmm_alloc_page-Took_example =
    pmm_alloc_page-Took (record { rflags = 0x202 }) (pmm_with some_free 16) some_free-IsValid

pmm_free_page_lem_example :
    let s = pmm_free_page (pmm_with some_free 16) 0x4000 in
    IsValid s
    × (s.total_pages ≡ 16)
    × ((j : ℕ) → bitmap_test s.bitmap j ≡ (not ((j == 4) && ltb j 16) && bitmap_test some_free j))
pmm_free_page_lem_example = pmm_free_page_lem (pmm_with some_free 16) 0x4000 some_free-IsValid

pmm_alloc_pages-SearchedRun_example :
    let s = pmm_with some_free 16 in
    (s' : Pmm) × (paddr : ℕ) × (pmm_alloc_pages s 2 ≡ some (s', paddr))
    × (s'.total_pages ≡ 16)
    × (s'.lock ≡ s.lock)
    × SearchedRun some_free 16 2 (s'.bitmap, paddr)
pmm_alloc_pages-SearchedRun_example =
    pmm_alloc_pages-SearchedRun (pmm_with some_free 16) 2 some_free-IsValid.0 (omega arith)
      (omega arith) (omega arith)

eight-IsTaken : (j : ℕ) → j < 8 → IsTaken full j
unfolding bitmap_test
eight-IsTaken zero h = refl
eight-IsTaken (suc zero) h = refl
eight-IsTaken (suc (suc zero)) h = refl
eight-IsTaken (suc (suc (suc zero))) h = refl
eight-IsTaken (suc (suc (suc (suc zero)))) h = refl
eight-IsTaken (suc (suc (suc (suc (suc zero))))) h = refl
eight-IsTaken (suc (suc (suc (suc (suc (suc zero)))))) h = refl
eight-IsTaken (suc (suc (suc (suc (suc (suc (suc zero))))))) h = refl
eight-IsTaken (suc (suc (suc (suc (suc (suc (suc (suc j)))))))) h = absurd (omega arith)

beyond_free : IsFreeRun full 8 2
unfolding bitmap_test
beyond_free zero h = refl
beyond_free (suc zero) h = refl
beyond_free (suc (suc j)) h = absurd (omega arith)

pmm_alloc_pages_past_end_example :
    (s' : Pmm) × (pmm_alloc_pages (pmm_with full 8) 2 ≡ some (s', 0x8000))
pmm_alloc_pages_past_end_example =
    pmm_alloc_pages_past_end (pmm_with full 8) 2 full_bytes (omega arith) (omega arith)
      (omega arith) eight-IsTaken beyond_free

-- Regions at 100 and 200 of one list, and one at 300 that is in none.
abbrev two_regions : ℕ → ℕ → ℕ → Region
two_regions first second c =
    if c == 100
    then record { base = first; size = 0x1000; next = 200; prev = 0 }
    else if c == 200
    then record { base = second; size = 0x2000; next = 0; prev = 100 }
    else record { base = 0; size = 0x3000; next = 0; prev = 0 }

abbrev kernel_regions : Regions
kernel_regions = record {
  node = two_regions 0xffff_c000_0000_0000 0xffff_c000_0000_9000;
  head = 100;
}

abbrev user_stacks : Regions
user_stacks = record { node = two_regions 0x7fff_ffff_f000 0x7fff_ffff_e000; head = 100 }

remove_from_list-IsList_example :
    let s = remove_from_list kernel_regions 100 in
    IsList s (200 ∷ [])
    × ((c : ℕ)
        → ((s.node c).base ≡ (kernel_regions.node c).base)
          × ((s.node c).size ≡ (kernel_regions.node c).size))
remove_from_list-IsList_example =
    remove_from_list-IsList kernel_regions [] 100 (200 ∷ []) (omega arith)

vm_add_to_list-Ascending_example :
    let s = kernel_regions in
    (us ws : List ℕ) × (s' : Regions) × (100 ∷ 200 ∷ [] ≡ us ++ ws)
    × (vm_add_to_list 3 s 300 ≡ some s')
    × IsList s' (us ++ 300 ∷ ws)
    × Ascending s'.node (us ++ 300 ∷ ws)
    × ((s'.node 300).base ≡ Ascending.start_behind s.node us)
    × ((c : ℕ)
        → c ≢ 300
        → ((s'.node c).base ≡ (s.node c).base) × ((s'.node c).size ≡ (s.node c).size))
vm_add_to_list-Ascending_example =
    vm_add_to_list-Ascending 3 kernel_regions 300 (100 ∷ 200 ∷ []) (omega arith) (omega arith)
      (omega arith) (omega arith) (omega arith) (omega arith)

us_add_to_list-Descending_example :
    let s = user_stacks in
    (us ws : List ℕ) × (s' : Regions) × (100 ∷ 200 ∷ [] ≡ us ++ ws)
    × (us_add_to_list 3 s 300 ≡ some s')
    × IsList s' (us ++ 300 ∷ ws)
    × Descending s'.node (us ++ 300 ∷ ws)
    × ((s'.node 300).base ≡ Descending.start_behind s.node us)
    × ((c : ℕ)
        → c ≢ 300
        → ((s'.node c).base ≡ (s.node c).base) × ((s'.node c).size ≡ (s.node c).size))
us_add_to_list-Descending_example =
    us_add_to_list-Descending 3 user_stacks 300 (100 ∷ 200 ∷ []) (omega arith) (omega arith)
      (omega arith) (omega arith) (omega arith) (omega arith)

-- An empty root at page 4, with pages 3, 9 and 10 free.
abbrev one_root : Mmu
one_root = record {
  memory = λ p. 0;
  cpu = record { rflags = 0x202 };
  pmm = pmm_with some_free 16;
  flushed = [];
}

abbrev root_level : ℕ → ℕ
root_level k = if k == 4 then 4 else 0

only_page_4 : (k : ℕ) → root_level k ≢ 0 → IsTaken some_free k
unfolding bitmap_test
only_page_4 k h = let e : k ≡ 4 = ground arith in rw e refl

one_root-Tables : Tables root_level one_root
unfolding bitmap_test
one_root-Tables = record {
  valid = some_free-IsValid;
  first = refl;
  taken = only_page_4;
  below = λ n i hi up p s. absurd (omega arith);
}

vmm_map_page-Mapped_example :
    (m' : Mmu) × (vmm_map_page one_root 0x4000 0x7000 0x400000 0x1000 6 ≡ some m')
    × (IsExhausted m'.pmm ⊎ (Mapped m' 4 0x7000 0x400000 6 × (m'.flushed ≡ 0x400000 ∷ [])))
vmm_map_page-Mapped_example =
    vmm_map_page-Mapped root_level one_root 4 0x7000 0x400000 6 one_root-Tables refl
      (λ p. absurd (omega arith))

vmm_unmap_page-vmm_map_page_example :
    (m' : Mmu) × (vmm_map_page one_root 0x4000 0x7000 0x400000 0x1000 6 ≡ some m')
    × (IsExhausted m'.pmm
        ⊎ ((at : ℕ) × (vmm_get_entry m'.memory 0x4000 0x400000 ≡ some (at, 0))
            × (vmm_unmap_page m' 0x4000 0x400000 ≡ (store_entry m' at 0 0x400000, 0x7000))))
vmm_unmap_page-vmm_map_page_example =
    vmm_unmap_page-vmm_map_page root_level one_root 4 0x7000 0x400000 6 one_root-Tables refl
      (λ p. absurd (omega arith)) (omega arith) (omega arith)

-- A heap whose caches all have the slab at 0x5000, before the scheduler runs.
abbrev ready_heap : Kheap
ready_heap = record {
  heap = record {
    buddy = record {
      block = λ p. record { prev = 0; next = 0 };
      free_areas = λ i. 0;
      metadata = λ i. record { order = 0; is_free = 0; is_slab = 0 };
    };
    slab = λ p. record {
      free_list = 0x5030;
      free_count = 2;
      total_count = 9;
      parent_cache = 1;
      prev = 0;
      next = 0;
    };
    cache = λ i. record { obj_size = 2 ^ (i + 4); slabs_partial = 0x5000; slabs_full = 0 };
    word = λ p. p + 32;
  };
  kmalloc_lock = record { lock = 0 };
  scheduler = 0;
}

abbrev boot_cpu : Cpu
boot_cpu = one_root.cpu

abbrev kmalloc_result : Cpu × Kheap × ℕ
kmalloc_result = elim (kmalloc boot_cpu ready_heap 32) [
  | some r ↦ r
  | none ↦ (boot_cpu, ready_heap, 0)
]

gives_object : kmalloc boot_cpu ready_heap 32 ≡ some (kmalloc_result.0, kmalloc_result.1, 0x5030)
unfolding kmalloc kmalloc_unlocked slab_alloc cache_from
gives_object = refl

abbrev one_process : Processes
one_process = record {
  kheap = ready_heap;
  mmu = one_root;
  process = λ p. record { pml4 = 0; pid = 0; ustacks_infos = 0 };
  next_process_id = 1;
  cr3 = 0x4000;
}

page_3_free : bitmap_test some_free 3 ≡ false
unfolding bitmap_test
page_3_free = refl

create_user_process-SharesKernel_example :
    (s' : Processes) × (create_user_process one_process ≡ some (s', 0x5030))
    × ((s'.process 0x5030).pid ≡ 1)
    × SharesKernel one_root.memory 0x4000 s'.mmu.memory (s'.process 0x5030).pml4
create_user_process-SharesKernel_example =
    create_user_process-SharesKernel root_level one_process 4 kmalloc_result.0 kmalloc_result.1
      0x5030 3 one_root-Tables refl refl gives_object (omega arith) (omega arith) page_3_free
