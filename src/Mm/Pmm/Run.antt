-- ===== src/Mm/Pmm/Run.antt =====
-- `pmm_alloc_pages`: runs of pages.
use pointer_os.Base.{
  ℕ, zero, suc, ◌+◌, ◌-◌, ◌*◌, ◌^◌, ◌≤◌, ◌<◌, ◌≡◌, refl, ◌⊎◌, inl, inr, false, ◌&&◌, ◌||◌, Option,
  none, some, arith, ltb, leb, ◌==◌, ==_iff, Bool-cases, Option-cases, dec_lt, int64,
}
use native.Mathlib.Nat.{add-zero}
use pointer_os.Mm.Pmm.{
  Bitmap, Pmm, page_size_4kb, bitmap_set, bitmap_test, run_break, set_run, alloc_pages_from,
  pmm_alloc_pages,
}
use pointer_os.Mm.Pmm.Bitmap.{IsBytes, bitmap_test-set, bitmap_set-IsBytes}
use pointer_os.Mm.Pmm.Page.{IsTaken, IsFree}

abbrev pub IsFreeRun : Bitmap → ℕ → ℕ → Type 0
IsFreeRun b i count = (j : ℕ) → j < count → IsFree b (i + j)

-- One of the `count` pages from `i` on is taken.
abbrev pub IsBlocked : Bitmap → ℕ → ℕ → Type 0
IsBlocked b count i = (j : ℕ) × (j < count) × IsTaken b (i + j)

abbrev Break : Bitmap → ℕ → ℕ → ℕ → Option ℕ → Type 0
Break b i j rounds none = (k : ℕ) → j ≤ k → k < j + rounds → IsFree b (i + k)
Break b i j rounds (some m) = (j ≤ m) × (m < j + rounds) × IsTaken b (i + m)

run_break-Break : (b : Bitmap) (i j rounds : ℕ) → Break b i j rounds (run_break b i j rounds)
unfolding run_break
run_break-Break b i j zero = λ k lo hi. absurd (omega arith)
run_break-Break b i j (suc rounds) = elim (Bool-cases (bitmap_test b (i + j))) [
  | inl taken ↦ rw taken (omega arith, omega arith, taken)
  | inr free ↦
      rw free (Break-suc (run_break b i (j + 1) rounds) free (run_break-Break b i (j + 1) rounds))
]
  where
    Break-suc :
        (o : Option ℕ) → IsFree b (i + j) → Break b i (j + 1) rounds o → Break b i j (suc rounds) o
    Break-suc none free rest = λ k lo hi. elim (Bool-cases (k == j)) [
      | inl e ↦ rw ((==_iff _ _).0 e) free
      | inr ne ↦ rest k (ground arith) (omega arith)
    ]
    Break-suc (some m) free (lo, hi, taken) = (omega arith, omega arith, taken)

pub set_run-IsBytes : (b : Bitmap) (i count : ℕ) → IsBytes b → IsBytes (set_run b i count)
unfolding set_run
set_run-IsBytes b i zero bytes = bytes
set_run-IsBytes b i (suc count) bytes =
    set_run-IsBytes (bitmap_set b i) (i + 1) count (bitmap_set-IsBytes b bytes i)

bitmap_test-set_run :
    (b : Bitmap) (i count j : ℕ)
    → IsBytes b
    → bitmap_test (set_run b i count) j ≡ ((leb i j && ltb j (i + count)) || bitmap_test b j)
unfolding set_run
bitmap_test-set_run b i zero j bytes = ground arith
bitmap_test-set_run b i (suc count) j bytes = ground (
  arith,
  bitmap_test-set_run (bitmap_set b i) (i + 1) count j (bitmap_set-IsBytes b bytes i),
  bitmap_test-set b bytes i j,
)

-- The lowest run of `count` free pages that starts at most at `total` was taken.
abbrev pub TookRun : Bitmap → ℕ → ℕ → Bitmap → ℕ → Type 0
TookRun b total count b' paddr =
    (i : ℕ) × (i ≤ total)
    × (paddr ≡ i * page_size_4kb)
    × IsFreeRun b i count
    × ((k : ℕ) → k < i → IsBlocked b count k)
    × ((j : ℕ) → bitmap_test b' j ≡ ((leb i j && ltb j (i + count)) || bitmap_test b j))

abbrev pub TookNoRun : Bitmap → ℕ → ℕ → Bitmap → ℕ → Type 0
TookNoRun b total count b' paddr =
    (paddr ≡ 0) × (b' ≡ b) × ((k : ℕ) → k ≤ total → IsBlocked b count k)

abbrev pub SearchedRun : Bitmap → ℕ → ℕ → Bitmap × ℕ → Type 0
SearchedRun b total count (b', paddr) =
    TookRun b total count b' paddr ⊎ TookNoRun b total count b' paddr

module _ (b : Bitmap) (bytes : IsBytes b) (total count : ℕ) (some_page : 0 < count)
    (fits : count ≤ total) (small : total < 2 ^ 19) where
  -- A taken page within reach blocks each start up to it.
  IsBlocked-upto :
      (i j : ℕ)
      → j < count
      → IsTaken b (i + j)
      → ((k : ℕ) → k < i → IsBlocked b count k)
      → (k : ℕ) → k < i + j + 1
      → IsBlocked b count k
  IsBlocked-upto i j within taken below k h = elim (dec_lt k i) [
    | yes lt ↦ below k lt
    | no ge ↦ let e : k + (i + j - k) ≡ i + j = omega arith in (i + j - k, omega arith, rw e taken)
  ]

  -- No break in the rest of the run, and a free first page.
  FreeRun_of_none : (i : ℕ) → IsFree b i → Break b i 1 (count - 1) none → IsFreeRun b i count
  FreeRun_of_none i free rest zero h = rw add-zero free
  FreeRun_of_none i free rest (suc j) h = rest (suc j) (omega arith) (omega arith)

  alloc_pages_from-SearchedRun :
      (fuel i : ℕ)
      → total + 1 - i < fuel
      → ((k : ℕ) → k < i → IsBlocked b count k)
      → (r : Bitmap × ℕ) × (alloc_pages_from fuel b total count i ≡ some r)
        × SearchedRun b total count r
  unfolding alloc_pages_from
  alloc_pages_from-SearchedRun zero i enough below = elim enough [ ]
  alloc_pages_from-SearchedRun (suc fuel) i enough below = elim (Bool-cases (ltb total i)) [
    | inl past ↦ rw past ((b, 0), refl, inr (refl, refl, λ k h. below k (ground arith)))
    | inr on ↦
        let reached : i ≤ total = ground arith in
        elim (Bool-cases (bitmap_test b i)) [
          | inl taken ↦
              let next : int64 (i + 1) ≡ i + 1 = omega arith in
              rw (on, taken, next)
                (alloc_pages_from-SearchedRun fuel (i + 1) (omega arith)
                  λ k h. IsBlocked-upto i 0 some_page (rw add-zero taken) below k (omega arith))
          | inr free ↦ elim (Option-cases (run_break b i 1 (count - 1))) [
            | inl e ↦
                let rest : Break b i 1 (count - 1) none =
                  rw e at (run_break-Break b i 1 (count - 1)) in
                rw (on, free, e)
                  (
                    (set_run b i count, int64 (i * page_size_4kb)),
                    refl,
                    inl (
                      i,
                      reached,
                      omega arith,
                      FreeRun_of_none i free rest,
                      below,
                      λ j. bitmap_test-set_run b i count j bytes,
                    ),
                  )
            | inr (m, e) ↦
                let hit : Break b i 1 (count - 1) (some m) =
                  rw e at (run_break-Break b i 1 (count - 1)) in
                let next : int64 (int64 (i + m) + 1) ≡ i + m + 1 = omega (arith, hit.1) in
                rw (on, free, e, next)
                  (alloc_pages_from-SearchedRun fuel (i + m + 1) (omega arith)
                    (IsBlocked-upto i m (omega arith) hit.2 below))
          ]
        ]
  ]

-- With less than 2 GiB, 2^19 pages, so that the product of the page and its size is an `int`, and with
-- a count from 1 to `total_pages`, `pmm_alloc_pages` ends, and either takes the lowest run of
-- that many free pages that starts at most at page `total_pages` and gives its address, or changes
-- nothing, gives 0, and there is no such run. Nothing but the pages of the run changes.
pub pmm_alloc_pages-SearchedRun :
    (s : Pmm) (count : ℕ)
    → IsBytes s.bitmap
    → 0 < count
    → count ≤ s.total_pages
    → s.total_pages < 2 ^ 19
    → (s' : Pmm) × (paddr : ℕ) × (pmm_alloc_pages s count ≡ some (s', paddr))
      × (s'.total_pages ≡ s.total_pages)
      × (s'.lock ≡ s.lock)
      × SearchedRun s.bitmap s.total_pages count (s'.bitmap, paddr)
unfolding pmm_alloc_pages
pmm_alloc_pages-SearchedRun s count bytes pos fits small =
    let one_up : (count == 0) ≡ false = ground arith in
    let within : ltb s.total_pages count ≡ false = ground arith in
    let (r, e, searched) =
      alloc_pages_from-SearchedRun s.bitmap bytes s.total_pages count pos fits small
        (s.total_pages + 2) 0 (omega arith) (λ k h. elim h [ ]) in
    (record s { bitmap = r.0 }, r.1, rw (one_up, within, e), refl, refl, searched)

start_past_end :
    (s : Pmm) (count : ℕ) (s' : Pmm) (paddr : ℕ)
    → 0 < count
    → ((j : ℕ) → j < s.total_pages → IsTaken s.bitmap j)
    → IsFreeRun s.bitmap s.total_pages count
    → SearchedRun s.bitmap s.total_pages count (s'.bitmap, paddr)
    → paddr ≡ s.total_pages * page_size_4kb
start_past_end s count s' paddr pos full beyond (inl (i, reached, e, run, lower, after)) =
    elim (dec_lt i s.total_pages) [
      | yes lt ↦
          let first : IsFree s.bitmap i = rw add-zero at (run 0 pos) in
          let taken : IsTaken s.bitmap i = full i lt in cc
      | no ge ↦ omega arith
    ]
start_past_end s count s' paddr pos full beyond (inr (e, same, blocked)) =
    let (j, within, taken) = blocked s.total_pages (omega arith) in
    let free : IsFree s.bitmap (s.total_pages + j) = beyond j within in cc

-- The search goes on past the last page, in a memory of less than 2 GiB: if every page below `total_pages` is taken and the run
-- that starts at `total_pages` reads as free, the result is the address where the memory ends.
pub pmm_alloc_pages_past_end :
    (s : Pmm) (count : ℕ)
    → IsBytes s.bitmap
    → 0 < count
    → count ≤ s.total_pages
    → s.total_pages < 2 ^ 19
    → ((j : ℕ) → j < s.total_pages → IsTaken s.bitmap j)
    → IsFreeRun s.bitmap s.total_pages count
    → (s' : Pmm) × (pmm_alloc_pages s count ≡ some (s', s.total_pages * page_size_4kb))
pmm_alloc_pages_past_end s count bytes pos fits small full beyond =
    let (s', paddr, e, same_total, same_lock, searched) =
      pmm_alloc_pages-SearchedRun s count bytes pos fits small in
    (s', rw (e, start_past_end s count s' paddr pos full beyond searched))
