-- ===== src/Mm/Kmalloc.antt =====
-- mm/kmalloc.c: small sizes go to the slabs, large ones to the buddy allocator. `none`: the lock is
-- held and never given back, or fuel ran out.
pub mod Sizes
use pointer_os.Base.{
  ℕ, zero, suc, ◌+◌, ◌*◌, ◌%◌, ◌^◌, Option, none, some, ltb, leb, ◌==◌, if◌then◌else◌, ◌>>=◌,
}
use pointer_os.Kernel.Spinlock.{Cpu, Spinlock, spin_lock_irqsave, spin_lock_irqrestore}
use pointer_os.Mm.Buddy.{page_index, buddy_alloc, buddy_free}
use pointer_os.Mm.Slab.{Heap, slab_alloc, slab_free}

-- The heap with `kmalloc_lock` and `scheduler`, before which the lock is not taken.
pub record Kheap : Type 0 where
  pub heap : Heap
  pub kmalloc_lock : Spinlock
  pub scheduler : ℕ

-- The loop that doubles `s`, a word of 64 bits, until it holds `size`.
pub order_from : ℕ → ℕ → ℕ → ℕ → Option ℕ
order_from zero s order size = none
order_from (suc fuel) s order size =
    let rest = order_from fuel (s * 2 % 2 ^ 64) (order + 1) size in
    if ltb s size then rest else some order

-- The loop over the caches from number `i`.
unfoldable pub cache_from : ℕ → Heap → ℕ → ℕ → Option ℕ
cache_from zero h i size = none
cache_from (suc rounds) h i size =
    let rest = cache_from rounds h (i + 1) size in
    if leb size (h.cache i).obj_size then some i else rest

-- `kmalloc` under its lock.
unfoldable pub kmalloc_unlocked : Heap → ℕ → Option (Heap × ℕ)
kmalloc_unlocked h size =
    let large = order_from 60 0x1000 0 size >>= λ order.
    let r = buddy_alloc h.buddy order in some (record h { buddy = r.0 }, r.1) in
    let small : Option (Heap × ℕ) = elim (cache_from 8 h 0 size) [
      | none ↦ some (h, 0)
      | some c ↦ slab_alloc h c
    ] in
    if ltb 2048 size then large else small

unfoldable pub kfree_unlocked : Heap → ℕ → Heap
kfree_unlocked h ptr =
    if (h.buddy.metadata (page_index ptr)).is_slab == 0
    then record h { buddy = buddy_free h.buddy ptr }
    else slab_free h ptr

unfoldable pub kmalloc : Cpu → Kheap → ℕ → Option (Cpu × Kheap × ℕ)
kmalloc cpu k size =
    let plain = kmalloc_unlocked k.heap size >>= λ r. some (cpu, record k { heap = r.0 }, r.1) in
    let locked = spin_lock_irqsave cpu k.kmalloc_lock >>= λ taken.
    kmalloc_unlocked k.heap size >>= λ r.
    let released = spin_lock_irqrestore taken.0 taken.1 taken.2 in
    some (released.0, record k { heap = r.0; kmalloc_lock = released.1 }, r.1) in
    if size == 0 then some (cpu, k, 0) else if k.scheduler == 0 then plain else locked

unfoldable pub kfree : Cpu → Kheap → ℕ → Option (Cpu × Kheap)
kfree cpu k ptr =
    let plain = some (cpu, record k { heap = kfree_unlocked k.heap ptr }) in
    let locked = spin_lock_irqsave cpu k.kmalloc_lock >>= λ taken.
    let released = spin_lock_irqrestore taken.0 taken.1 taken.2 in
    some (released.0, record k { heap = kfree_unlocked k.heap ptr; kmalloc_lock = released.1 }) in
    if ptr == 0 then some (cpu, k) else if k.scheduler == 0 then plain else locked
