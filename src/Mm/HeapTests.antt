-- ===== src/Mm/HeapTests.antt =====
-- The heap as `init_buddy` and `init_slab` leave it.
use pointer_os.Base.{
  ℕ, ◌+◌, ◌^◌, ◌≤◌, ◌<◌, ◌≡◌, refl, sym, ap, ◌∙◌, ◌≢◌, ◌↔◌, ◌⊎◌, inl, inr, some, arith, ◌==◌,
  if◌then◌else◌,
}
use pointer_os.Kernel.Spinlock.{Cpu}
use mathlib.Core.Path.{subst}
use pointer_os.Mm.Buddy.Page.{address}
use pointer_os.Mm.Buddy.Free.{IsHeap, IsUsed, Covered, Within}
use pointer_os.Mm.Buddy.Alloc.{Refused, Handed, buddy_alloc-Handed}
use pointer_os.Mm.Buddy.Release.{buddy_free-IsHeap}
use pointer_os.Mm.Buddy.Init.{init_buddy-IsHeap, buddy_free-buddy_alloc}
use pointer_os.Mm.Buddy.{
  Buddy, heap_start, init_buddy, buddy_list_add, buddy_list_remove, take_block, buddy_alloc,
  buddy_free,
}
use pointer_os.Mm.Slab.{Heap, init_slab, slab_alloc, slab_create, first_object}
use pointer_os.Mm.Slab.Objects.{objects, FreeObjects, FillsPage, slab_create-FreeObjects}
use pointer_os.Mm.Kmalloc.{Kheap, kmalloc}
use pointer_os.Mm.Kmalloc.Sizes.{FitsOrder, FitsCache, HasSizes, served, kmalloc_by_size}

abbrev blank_buddy : Buddy
blank_buddy = record {
  block = λ p. record { prev = 0; next = 0 };
  free_areas = λ i. 0;
  metadata = λ i. record { order = 0; is_free = 0; is_slab = 0 };
}

abbrev blank_heap : Heap
blank_heap = record {
  buddy = init_buddy blank_buddy;
  slab = λ p. record {
    free_list = 0;
    free_count = 0;
    total_count = 0;
    parent_cache = 0;
    prev = 0;
    next = 0;
  };
  cache = λ i. record { obj_size = 0; slabs_partial = 0; slabs_full = 0 };
  word = λ p. 0;
}

first_page : (buddy_alloc (init_buddy blank_buddy) 0).1 ≡ heap_start
unfolding init_buddy buddy_list_add buddy_alloc take_block
first_page = refl

alloc_merges :
    (buddy_alloc (buddy_free (buddy_alloc (init_buddy blank_buddy) 0).0 heap_start) 12).1
    ≡ heap_start
unfolding init_buddy buddy_list_add buddy_alloc buddy_free take_block buddy_list_remove
alloc_merges = refl

-- The cache of 128 bytes has a slab, from which an object was taken.
abbrev used_heap : Heap
used_heap = record blank_heap {
  slab = λ p. record {
    free_list = 0x50b0;
    free_count = 30;
    total_count = 31;
    parent_cache = 3;
    prev = 0;
    next = 0;
  };
  cache = λ i. record {
    obj_size = 2 ^ (i + 4);
    slabs_partial = if i == 3 then 0x5000 else 0;
    slabs_full = 0;
  };
}

used_heap-HasSizes : HasSizes used_heap
used_heap-HasSizes i h = refl

abbrev used_kheap : Kheap
used_kheap = record { heap = used_heap; kmalloc_lock = record { lock = 0 }; scheduler = 1 }

abbrev a_cpu : Cpu
a_cpu = record { rflags = 0x202 }

kmalloc_by_size_example :
    let size : ℕ = 100 in
    ((size ≡ 0) × (kmalloc a_cpu used_kheap 100 ≡ some (a_cpu, used_kheap, 0)))
    ⊎ ((0 < 100)
        × (100 ≤ 2048)
        × (c : ℕ) × FitsCache 100 c
        × (kmalloc a_cpu used_kheap 100 ≡ served a_cpu used_kheap (slab_alloc used_heap c)))
    ⊎ ((2048 < 100)
        × (order : ℕ) × FitsOrder 100 order
        × (kmalloc a_cpu used_kheap 100
            ≡ some (
              a_cpu,
              record used_kheap {
                heap = record used_heap { buddy = (buddy_alloc used_heap.buddy order).0 };
              },
              (buddy_alloc used_heap.buddy order).1,
            )))
kmalloc_by_size_example = kmalloc_by_size a_cpu used_kheap 100 used_heap-HasSizes refl (omega arith)

some_page : (buddy_alloc (init_slab blank_heap).buddy 0).1 ≡ 0 → ⊥
unfolding init_slab
some_page e = absurd (omega (arith, first_page, e))

third_size : ((init_slab blank_heap).cache 2).obj_size ≡ 64
unfolding init_slab
third_size = refl

slab_create-FreeObjects_example :
    let h = init_slab blank_heap in
    let page = (buddy_alloc h.buddy 0).1 in
    let size = (h.cache 2).obj_size in
    (h' : Heap) × (n : ℕ) × (slab_create h 2 ≡ some (h', page))
    × FreeObjects h'.word (h'.slab page).free_list (objects (first_object page) size n)
    × ((h'.slab page).free_count ≡ n)
    × ((h'.slab page).total_count ≡ n)
    × ((h'.slab page).parent_cache ≡ 2)
    × FillsPage (first_object page) size n (page + 0x1000)
    × (page + 40 ≤ first_object page)
slab_create-FreeObjects_example =
    slab_create-FreeObjects (init_slab blank_heap) 2 some_page (omega (arith, third_size))
      (omega (arith, third_size))

abbrev fresh : Buddy
fresh = init_buddy blank_buddy

buddy_alloc-Handed_example :
    let (s', a) = buddy_alloc fresh 3 in IsHeap s' × (Refused fresh s' a 3 ⊎ Handed fresh s' a 3)
buddy_alloc-Handed_example =
    buddy_alloc-Handed fresh 3 (init_buddy-IsHeap blank_buddy).0 (omega arith)

first_block : (buddy_alloc fresh 3).1 ≡ heap_start
unfolding init_buddy buddy_list_add buddy_alloc take_block
first_block = refl

some_block : (buddy_alloc fresh 3).1 ≢ 0
some_block e = absurd (omega (arith, first_block, e))

buddy_free-buddy_alloc_example :
    let (s', a) = buddy_alloc fresh 3 in
    IsHeap (buddy_free s' a) × ((x : ℕ) → Covered (buddy_free s' a) x ↔ Covered fresh x)
buddy_free-buddy_alloc_example =
    buddy_free-buddy_alloc fresh 3 (init_buddy-IsHeap blank_buddy).0 (omega arith) some_block

-- The heap after its first block of 8 pages was handed out.
abbrev one_taken : Buddy
one_taken = (buddy_alloc fresh 3).0

first_handed : IsHeap one_taken × IsUsed one_taken 0 3 × ((one_taken.metadata 0).order ≡ 3)
first_handed =
    let (heap, outcome) =
      buddy_alloc-Handed fresh 3 (init_buddy-IsHeap blank_buddy).0 (omega arith) in
    elim outcome [
      | inl (nothing, same, empty) ↦ absurd (some_block nothing)
      | inr (p, at, block, entry, used, pages) ↦
          let here : p ≡ 0 = omega (arith, first_block, at) in
          (
            heap,
            subst (λ (t : ℕ). IsUsed one_taken t 3) here used,
            ap (λ (t : ℕ). (one_taken.metadata t).order) (sym here) ∙ ap (λ m. m.order) entry,
          )
    ]

buddy_free-IsHeap_example :
    let s' = buddy_free one_taken (address 0) in
    IsHeap s' × ((x : ℕ) → Covered s' x ↔ (Covered one_taken x ⊎ Within 0 3 x))
buddy_free-IsHeap_example =
    buddy_free-IsHeap one_taken 0 3 first_handed.0 first_handed.2
      (omega arith, (0, refl), omega arith) first_handed.1
