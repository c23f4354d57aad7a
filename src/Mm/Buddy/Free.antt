-- ===== src/Mm/Buddy/Free.antt =====
-- The free blocks of the heap and their lists. Page `p` starts a free block of 2^k pages when its
-- metadata says so.
use pointer_os.Base.{ℕ, ◌+◌, ◌*◌, ◌^◌, ◌≤◌, ◌<◌, ◌≡◌, ◌≢◌, ◌⊎◌}
use pointer_os.Mm.Buddy.{Buddy}
use pointer_os.Mm.Buddy.Page.{address}

abbrev pub FreeHead : Buddy → ℕ → ℕ → Type 0
FreeHead s p k = (p < 4096) × ((s.metadata p).is_free ≢ 0) × ((s.metadata p).order ≡ k)

abbrev pub next_of : Buddy → ℕ → ℕ
next_of s p = (s.block (address p)).next

abbrev pub prev_of : Buddy → ℕ → ℕ
prev_of s p = (s.block (address p)).prev

-- `next` is `NULL` or a free block of the same order whose `prev` leads back.
abbrev pub NextLinked : Buddy → ℕ → ℕ → Type 0
NextLinked s p k =
    (next_of s p ≡ 0)
    ⊎ ((q : ℕ) × FreeHead s q k × (next_of s p ≡ address q) × (prev_of s q ≡ address p))

-- `prev` is `NULL` at the head of the list, and else a block whose `next` leads back.
abbrev pub PrevLinked : Buddy → ℕ → ℕ → Type 0
PrevLinked s p k =
    ((prev_of s p ≡ 0) × (s.free_areas k ≡ address p))
    ⊎ ((q : ℕ) × FreeHead s q k × (prev_of s p ≡ address q) × (next_of s q ≡ address p))

-- The list of an order is empty or starts with a free block that has no `prev`.
abbrev pub AreaLinked : Buddy → ℕ → Type 0
AreaLinked s k =
    (s.free_areas k ≡ 0)
    ⊎ ((q : ℕ) × FreeHead s q k × (s.free_areas k ≡ address q) × (prev_of s q ≡ 0))

abbrev pub IsAligned : ℕ → ℕ → Type 0
IsAligned p k = (q : ℕ) × (p ≡ q * 2 ^ k)

-- The block of 2^k pages from page `p` lies in the heap, where its order puts it.
abbrev pub IsBlock : ℕ → ℕ → Type 0
IsBlock p k = (k ≤ 12) × IsAligned p k × (p + 2 ^ k ≤ 4096)

-- Page `x` is one of the 2^k pages from `p`.
abbrev pub Within : ℕ → ℕ → ℕ → Type 0
Within p k x = (p ≤ x) × (x < p + 2 ^ k)

-- The free blocks are blocks of the heap, no two overlap, and their pointers form the lists.
pub record IsHeap (s : Buddy) : Type 0 where
  pub fits : (p k : ℕ) → FreeHead s p k → IsBlock p k
  pub apart : (p k q l : ℕ) → FreeHead s p k → FreeHead s q l → p < q → p + 2 ^ k ≤ q
  pub next : (p k : ℕ) → FreeHead s p k → NextLinked s p k
  pub prev : (p k : ℕ) → FreeHead s p k → PrevLinked s p k
  pub area : (k : ℕ) → k ≤ 12 → AreaLinked s k

-- Page `x` is free: it lies in a free block.
abbrev pub Covered : Buddy → ℕ → Type 0
Covered s x = (p : ℕ) × (k : ℕ) × FreeHead s p k × Within p k x

-- No page of the block is free.
abbrev pub IsUsed : Buddy → ℕ → ℕ → Type 0
IsUsed s p k = (x : ℕ) → Within p k x → Covered s x → ⊥
