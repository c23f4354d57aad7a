-- ===== src/Mm/Kmalloc/Sizes.antt =====
-- Where `kmalloc` takes the memory from, by its size.
use pointer_os.Base.{
  ℕ, zero, suc, ◌+◌, ◌*◌, ◌%◌, ◌^◌, ◌≤◌, ◌<◌, ◌≡◌, refl, sym, ap, ◌∙◌, ◌≢◌, ◌⊎◌, inl, inr, true,
  false, Option, some, arith, ltb, leb, ◌==◌, Bool-cases, ◌>>=◌, dec_lt,
}
use pointer_os.Kernel.Spinlock.{Cpu, Spinlock, spin_lock_irqsave, spin_lock_irqrestore}
use native.Mathlib.Nat.{pow-suc, mul_assoc}
use pointer_os.Mm.Buddy.{buddy_alloc}
use pointer_os.Mm.Slab.{Heap, slab_alloc}
use pointer_os.Mm.Kmalloc.{Kheap, order_from, cache_from, kmalloc_unlocked, kmalloc}

-- `order` is the least with room for `size` bytes: blocks of half the size would be too small.
abbrev pub FitsOrder : ℕ → ℕ → Type 0
FitsOrder size order = (size ≤ 0x1000 * 2 ^ order) × ((order ≡ 0) ⊎ (0x1000 * 2 ^ order < 2 * size))

double_room : (s f size : ℕ) → size ≤ s * 2 ^ suc f → size ≤ s * 2 * 2 ^ f
double_room s f size h = omega (arith, ap (λ (t : ℕ). s * t) (pow-suc 2 f), mul_assoc s 2 (2 ^ f))

no_room : (s f size : ℕ) → ltb s size ≡ true → f ≡ 0 → size ≤ s * 2 ^ f → ⊥
no_room s f size more e room =
    let unit : s * 2 ^ f ≡ s = ap (λ (t : ℕ). s * 2 ^ t) e ∙ omega arith in ground arith

order_from-suc :
    (f s order size : ℕ)
    → ltb s size ≡ true
    → s * 2 % 2 ^ 64 ≡ s * 2
    → order_from (suc f) s order size ≡ order_from f (s * 2) (suc order) size
unfolding order_from
order_from-suc f s order size more whole =
    let next : order + 1 ≡ suc order = omega arith in rw (more, whole, next)

order_from-FitsOrder :
    (f s order size : ℕ)
    → size ≤ 2 ^ 63
    → size ≤ s * 2 ^ f
    → s ≡ 0x1000 * 2 ^ order
    → (order ≡ 0) ⊎ (s < 2 * size)
    → (o : ℕ) × (order_from (suc f) s order size ≡ some o) × FitsOrder size o
unfolding order_from
order_from-FitsOrder zero s order size small room e least = elim (Bool-cases (ltb s size)) [
  | inl more ↦ absurd (no_room s 0 size more refl room)
  | inr done ↦ (order, rw done, (ground arith, ground arith))
]
order_from-FitsOrder (suc f) s order size small room e least = elim (Bool-cases (ltb s size)) [
  | inl more ↦
      let below : s < size = ground arith in
      let whole : s * 2 % 2 ^ 64 ≡ s * 2 = omega arith in
      let (o, run, fits) =
        order_from-FitsOrder f (s * 2) (suc order) size small (double_room s f size room)
          (omega (arith, pow-suc 2 order)) (inr (omega arith)) in
      (o, order_from-suc (suc f) s order size more whole ∙ run, fits)
  | inr done ↦ (order, rw done, (ground arith, ground arith))
]

-- The caches have the sizes that `init_slab` gives them.
abbrev pub HasSizes : Heap → Type 0
HasSizes h = (i : ℕ) → i < 8 → (h.cache i).obj_size ≡ 2 ^ (i + 4)

-- The smallest cache that has room for `size` bytes.
abbrev pub FitsCache : ℕ → ℕ → Type 0
FitsCache size c = (c < 8) × (size ≤ 2 ^ (c + 4)) × ((c ≡ 0) ⊎ (2 ^ (c + 4) < 2 * size))

cache_from-FitsCache :
    (h : Heap) (size rounds i : ℕ)
    → HasSizes h
    → size ≤ 2048
    → i + rounds ≡ 8
    → (i ≡ 0) ⊎ (2 ^ (i + 4) < 2 * size)
    → (c : ℕ) × (cache_from rounds h i size ≡ some c) × FitsCache size c
unfolding cache_from
cache_from-FitsCache h size zero i sizes small e least =
    let last : i ≡ 8 = omega arith in
    let top : 2 ^ (i + 4) ≡ 4096 = ap (λ (k : ℕ). 2 ^ (k + 4)) last in absurd (ground arith)
cache_from-FitsCache h size (suc rounds) i sizes small e least =
    let here : (h.cache i).obj_size ≡ 2 ^ (i + 4) = sizes i (omega arith) in
    elim (Bool-cases (leb size (2 ^ (i + 4)))) [
      | inl fits ↦
          let taken : leb size (h.cache i).obj_size ≡ true = rw here fits in
          (i, rw taken refl, (omega arith, ground arith, ground arith))
      | inr more ↦
          let passed : leb size (h.cache i).obj_size ≡ false = rw here more in
          let larger : 2 ^ (i + 4) < size = ground arith in
          let shift : i + 1 + 4 ≡ suc (i + 4) = omega arith in
          let next : 2 ^ (i + 1 + 4) ≡ 2 * 2 ^ (i + 4) =
            omega (arith, pow-suc 2 (i + 4), ap (λ (k : ℕ). 2 ^ k) shift) in
          let (c, run, fits) =
            cache_from-FitsCache h size rounds (i + 1) sizes small (omega arith)
              (inr (omega arith)) in
          (c, rw passed run, fits)
    ]

kmalloc_unlocked_small :
    (h : Heap) (size : ℕ)
    → HasSizes h
    → size ≤ 2048
    → (c : ℕ) × FitsCache size c × (kmalloc_unlocked h size ≡ slab_alloc h c)
unfolding kmalloc_unlocked
kmalloc_unlocked_small h size sizes small =
    let little : ltb 2048 size ≡ false = ground arith in
    let (c, run, fits) = cache_from-FitsCache h size 8 0 sizes small refl (inl refl) in
    (c, fits, rw (little, run) refl)

kmalloc_unlocked_large :
    (h : Heap) (size : ℕ)
    → 2048 < size
    → size ≤ 2 ^ 63
    → (order : ℕ) × FitsOrder size order
      × (kmalloc_unlocked h size
          ≡ some
              (record h { buddy = (buddy_alloc h.buddy order).0 }, (buddy_alloc h.buddy order).1))
unfolding kmalloc_unlocked
kmalloc_unlocked_large h size more small =
    let large : ltb 2048 size ≡ true = ground arith in
    let (o, run, fits) =
      order_from-FitsOrder 59 0x1000 0 size small (omega arith) refl (inl refl) in
    (o, fits, rw (large, run) refl)

-- What the result of an allocation makes of the heap; the processor and the lock are as before.
abbrev pub served : Cpu → Kheap → Option (Heap × ℕ) → Option (Cpu × Kheap × ℕ)
served cpu k m = m >>= λ r. some (cpu, record k { heap = r.0 }, r.1)

kmalloc-served :
    (cpu : Cpu) (k : Kheap) (size : ℕ)
    → k.kmalloc_lock.lock ≡ 0
    → size ≢ 0
    → kmalloc cpu k size ≡ served cpu k (kmalloc_unlocked k.heap size)
unfolding kmalloc spin_lock_irqsave spin_lock_irqrestore
kmalloc-served cpu k size free some_bytes =
    let asked : (size == 0) ≡ false = ground arith in
    let open_lock : (k.kmalloc_lock.lock == 0) ≡ true = ground arith in
    let same : record { lock = 0 } ≡ k.kmalloc_lock =
      ap (λ (l : ℕ). record { lock = l }) (sym free) in
    elim (Bool-cases (k.scheduler == 0)) [
      | inl early ↦ rw (asked, early) refl
      | inr later ↦
          rw (asked, later, open_lock)
            (ap
              (λ (l : Spinlock). kmalloc_unlocked k.heap size >>= λ r.
                some (cpu, record k { heap = r.0; kmalloc_lock = l }, r.1))
              same)
    ]

-- What `kmalloc` does by the size, for caches of the sizes that `init_slab` gives them and with the
-- lock free: nothing and `NULL` for no bytes; up to 2048 bytes come from the smallest cache that has
-- room; more, up to 2^63 bytes, come as the smallest block of pages that has room. The flags of the
-- processor and the lock are as before.
pub kmalloc_by_size :
    (cpu : Cpu) (k : Kheap) (size : ℕ)
    → HasSizes k.heap
    → k.kmalloc_lock.lock ≡ 0
    → size ≤ 2 ^ 63
    → ((size ≡ 0) × (kmalloc cpu k size ≡ some (cpu, k, 0)))
      ⊎ ((0 < size)
          × (size ≤ 2048)
          × (c : ℕ) × FitsCache size c
          × (kmalloc cpu k size ≡ served cpu k (slab_alloc k.heap c)))
      ⊎ ((2048 < size)
          × (order : ℕ) × FitsOrder size order
          × (kmalloc cpu k size
              ≡ some (
                cpu,
                record k { heap = record k.heap { buddy = (buddy_alloc k.heap.buddy order).0 } },
                (buddy_alloc k.heap.buddy order).1,
              )))
unfolding kmalloc
kmalloc_by_size cpu k zero sizes free small = inl (refl, refl)
kmalloc_by_size cpu k (suc n) sizes free small =
    let run = kmalloc-served cpu k (suc n) free (λ e. absurd (omega (arith, e))) in
    elim (dec_lt 2048 (suc n)) [
      | yes large ↦
          let (order, fits, e) = kmalloc_unlocked_large k.heap (suc n) large small in
          inr (inr (large, order, fits, run ∙ ap (served cpu k) e))
      | no little ↦
          let (c, fits, e) = kmalloc_unlocked_small k.heap (suc n) sizes (omega arith) in
          inr (inl (omega arith, omega arith, c, fits, run ∙ ap (served cpu k) e))
    ]
