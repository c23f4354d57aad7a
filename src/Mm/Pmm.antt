-- ===== src/Mm/Pmm.antt =====
-- mm/pmm.c and include/mm/pmm.h: the page bitmap, one bit for each page of 4096 bytes, set while
-- the page is taken. The bitmap is memory at `kernel_end`: an access past its end reads what lies
-- there, so it is a total function from a byte's index.
pub mod Bitmap
pub mod Page
pub mod Run
use pointer_os.Base.{
  ℕ, zero, suc, ◌+◌, ◌-◌, ◌*◌, ◌/◌, ◌%◌, ◌^◌, bit_and, bit_or, Bool, not, Option, none, some, ltb,
  leb, ◌==◌, if◌then◌else◌, ◌>>=◌, update, int64,
}
use pointer_os.Kernel.Spinlock.{Cpu, Spinlock, spin_lock_irqsave, spin_lock_irqrestore}

abbrev pub page_size_4kb : ℕ
page_size_4kb = 0x1000

abbrev pub Bitmap : Type 0
Bitmap = ℕ → ℕ

-- The file's variables `bitmap`, `total_pages` and `pmm_lock`.
pub record Pmm : Type 0 where
  pub bitmap : Bitmap
  pub total_pages : ℕ
  pub lock : Spinlock

unfoldable pub bitmap_set : Bitmap → ℕ → Bitmap
bitmap_set b bit = update b (bit / 8) (bit_or (b (bit / 8)) (2 ^ (bit % 8)))

-- `~` acts on the eight bits that the assignment keeps.
unfoldable pub bitmap_clr : Bitmap → ℕ → Bitmap
bitmap_clr b bit = update b (bit / 8) (bit_and (b (bit / 8)) (255 - 2 ^ (bit % 8)))

unfoldable pub bitmap_test : Bitmap → ℕ → Bool
bitmap_test b bit = not (bit_and (b (bit / 8)) (2 ^ (bit % 8)) == 0)

-- The loop of `pmm_alloc_page` from page `i`, with `rounds` pages left.
pub alloc_page_from : Bitmap → ℕ → ℕ → Bitmap × ℕ
alloc_page_from b zero i = (b, 0)
alloc_page_from b (suc rounds) i =
    let rest = alloc_page_from b rounds (i + 1) in
    if not (bitmap_test b i) then (bitmap_set b i, i * page_size_4kb) else rest

unfoldable pub pmm_alloc_page : Cpu → Pmm → Option (Cpu × Pmm × ℕ)
unfolding alloc_page_from
pmm_alloc_page c s = spin_lock_irqsave c s.lock >>= λ taken.
    let (b, paddr) = alloc_page_from s.bitmap s.total_pages 0 in
    let (c', l) = spin_lock_irqrestore taken.0 taken.1 taken.2 in
    some (c', record s { bitmap = b; lock = l }, paddr)

-- The inner loop of `pmm_alloc_pages`: the first `j` at which the run from `i` meets a taken page.
pub run_break : Bitmap → ℕ → ℕ → ℕ → Option ℕ
run_break b i j zero = none
run_break b i j (suc rounds) =
    let rest = run_break b i (j + 1) rounds in if bitmap_test b (i + j) then some j else rest

-- `for (j = 0; j < pages_count; j++) BITMAP_SET(i + j)`
pub set_run : Bitmap → ℕ → ℕ → Bitmap
set_run b i zero = b
set_run b i (suc count) = set_run (bitmap_set b i) (i + 1) count

-- The outer loop at page `i`, an `int` as a word of 64 bits; the product is one of `int` too. `none`
-- means that the fuel ran out.
pub alloc_pages_from : ℕ → Bitmap → ℕ → ℕ → ℕ → Option (Bitmap × ℕ)
alloc_pages_from zero b total count i = none
alloc_pages_from (suc fuel) b total count i =
    let used = alloc_pages_from fuel b total count (int64 (i + 1)) in
    let broken = λ (j : ℕ). alloc_pages_from fuel b total count (int64 (int64 (i + j) + 1)) in
    if ltb total i
    then some (b, 0)
    else if bitmap_test b i
    then used
    else elim (run_break b i 1 (count - 1)) [
      | none ↦ some (set_run b i count, int64 (i * page_size_4kb))
      | some j ↦ broken j
    ]

-- `pages_count` is the argument after its conversion to `uint64_t`, so a negative one is above
-- `total_pages`.
unfoldable pub pmm_alloc_pages : Pmm → ℕ → Option (Pmm × ℕ)
unfolding alloc_pages_from run_break set_run
pmm_alloc_pages s pages_count =
    let search_run = alloc_pages_from (s.total_pages + 2) s.bitmap s.total_pages pages_count 0 in
    if pages_count == 0
    then some (s, 0)
    else if ltb s.total_pages pages_count
    then some (s, 0)
    else search_run >>= λ r. some (record s { bitmap = r.0 }, r.1)

unfoldable pub pmm_free_page : Pmm → ℕ → Pmm
pmm_free_page s paddr =
    let bit = paddr / page_size_4kb in
    if leb s.total_pages bit
    then s
    else if not (bitmap_test s.bitmap bit)
    then s
    else record s { bitmap = bitmap_clr s.bitmap bit }
