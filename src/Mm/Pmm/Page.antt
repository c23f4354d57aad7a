-- ===== src/Mm/Pmm/Page.antt =====
-- `pmm_alloc_page` and `pmm_free_page`.
use pointer_os.Base.{
  ℕ, zero, suc, ◌+◌, ◌*◌, ◌/◌, ◌<◌, ◌≡◌, refl, ◌⊎◌, inl, inr, true, false, ◌&&◌, ◌||◌, not, some,
  arith, ltb, leb, ◌==◌, ==_iff, Bool-cases,
}
use pointer_os.Kernel.Spinlock.{Cpu, spin_lock_irqsave, spin_lock_irqrestore}
use pointer_os.Mm.Pmm.{
  Bitmap, Pmm, page_size_4kb, bitmap_test, alloc_page_from, pmm_alloc_page, pmm_free_page,
}
use pointer_os.Mm.Pmm.Bitmap.{
  IsBytes, bitmap_test-set, bitmap_test-clr, bitmap_set-IsBytes, bitmap_clr-IsBytes,
}

abbrev pub IsTaken : Bitmap → ℕ → Type 0
IsTaken b i = bitmap_test b i ≡ true

abbrev pub IsFree : Bitmap → ℕ → Type 0
IsFree b i = bitmap_test b i ≡ false

-- The lowest free page below `total` was taken, and no other page changed.
abbrev pub TookLowest : Bitmap → ℕ → Bitmap → ℕ → Type 0
TookLowest b total b' paddr =
    (i : ℕ) × (i < total)
    × (paddr ≡ i * page_size_4kb)
    × IsFree b i
    × ((j : ℕ) → j < i → IsTaken b j)
    × ((j : ℕ) → bitmap_test b' j ≡ ((j == i) || bitmap_test b j))

-- No page below `total` was free, and nothing changed.
abbrev pub TookNone : Bitmap → ℕ → Bitmap → ℕ → Type 0
TookNone b total b' paddr = (paddr ≡ 0) × (b' ≡ b) × ((j : ℕ) → j < total → IsTaken b j)

abbrev pub Took : Bitmap → ℕ → Bitmap × ℕ → Type 0
Took b total (b', paddr) = TookLowest b total b' paddr ⊎ TookNone b total b' paddr

below-suc :
    (b : Bitmap) (i : ℕ)
    → ((j : ℕ) → j < i → IsTaken b j)
    → IsTaken b i
    → (j : ℕ) → j < i + 1
    → IsTaken b j
below-suc b i below at j h = elim (Bool-cases (j == i)) [
  | inl e ↦ rw ((==_iff _ _).0 e) at
  | inr ne ↦ below j (ground arith)
]

module _ (b : Bitmap) (bytes : IsBytes b) (total : ℕ) where
  alloc_page_from-Took :
      (rounds i : ℕ)
      → i + rounds ≡ total
      → ((j : ℕ) → j < i → IsTaken b j)
      → Took b total (alloc_page_from b rounds i)
  unfolding alloc_page_from
  alloc_page_from-Took zero i e below = inr (refl, refl, λ j h. below j (omega arith))
  alloc_page_from-Took (suc rounds) i e below = elim (Bool-cases (bitmap_test b i)) [
    | inl taken ↦
        rw taken (alloc_page_from-Took rounds (i + 1) (omega arith) (below-suc b i below taken))
    | inr free ↦ rw free (inl (i, omega arith, refl, free, below, bitmap_test-set b bytes i))
  ]

  alloc_page_from-IsBytes : (rounds i : ℕ) → IsBytes (alloc_page_from b rounds i).0
  unfolding alloc_page_from
  alloc_page_from-IsBytes zero i = bytes
  alloc_page_from-IsBytes (suc rounds) i = elim (Bool-cases (bitmap_test b i)) [
    | inl taken ↦ rw taken (alloc_page_from-IsBytes rounds (i + 1))
    | inr free ↦ rw free (bitmap_set-IsBytes b bytes i)
  ]

abbrev pub IsValid : Pmm → Type 0
IsValid s = IsBytes s.bitmap × (s.lock.lock ≡ 0)

-- With the lock free `pmm_alloc_page` returns, leaves the processor's flags and the lock as they
-- were, and either takes the lowest free page and gives its address, or finds every page taken,
-- changes nothing and gives 0.
pub pmm_alloc_page-Took :
    (c : Cpu) (s : Pmm)
    → IsValid s
    → (s' : Pmm) × (paddr : ℕ) × (pmm_alloc_page c s ≡ some (c, s', paddr))
      × IsValid s'
      × (s'.total_pages ≡ s.total_pages)
      × (s'.lock ≡ s.lock)
      × Took s.bitmap s.total_pages (s'.bitmap, paddr)
unfolding pmm_alloc_page spin_lock_irqsave spin_lock_irqrestore
pmm_alloc_page-Took c s (bytes, free) =
    let unheld : (s.lock.lock == 0) ≡ true = ground arith in
    let out = alloc_page_from s.bitmap s.total_pages 0 in
    (
      record s { bitmap = out.0; lock = record { lock = 0 } },
      out.1,
      rw unheld,
      (alloc_page_from-IsBytes s.bitmap bytes s.total_pages s.total_pages 0, refl),
      refl,
      ground arith,
      alloc_page_from-Took s.bitmap bytes s.total_pages s.total_pages 0 (omega arith)
          (λ j h. elim h [ ]),
    )

-- `pmm_free_page` makes the page of the address free, if it lies below `total_pages`; every other
-- page and every page from `total_pages` on stay as they were.
pub pmm_free_page_lem :
    (s : Pmm) (paddr : ℕ)
    → IsValid s
    → IsValid (pmm_free_page s paddr)
      × ((pmm_free_page s paddr).total_pages ≡ s.total_pages)
      × ((j : ℕ)
          → bitmap_test (pmm_free_page s paddr).bitmap j
            ≡ (not ((j == paddr / page_size_4kb) && ltb j s.total_pages) && bitmap_test s.bitmap j))
unfolding pmm_free_page
pmm_free_page_lem s paddr (bytes, free) =
    elim (Bool-cases (leb s.total_pages (paddr / page_size_4kb))) [
      | inl outside ↦ rw outside ((bytes, free), refl, λ j. ground arith)
      | inr inside ↦ elim (Bool-cases (bitmap_test s.bitmap (paddr / page_size_4kb))) [
        | inl taken ↦
            rw (inside, taken)
              (
                (bitmap_clr-IsBytes s.bitmap bytes (paddr / page_size_4kb), free),
                refl,
                λ j. ground (arith, bitmap_test-clr s.bitmap bytes (paddr / page_size_4kb) j),
              )
        | inr already ↦ rw (inside, already) ((bytes, free), refl, λ j. ground arith)
      ]
    ]
