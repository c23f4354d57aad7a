-- ===== src/Mm/MemoryMap/Init.antt =====
-- The bitmap behind `init_PMM`.
use pointer_os.Base.{
  ℕ, ◌+◌, ◌-◌, ◌/◌, ◌%◌, ◌^◌, ◌≤◌, ◌<◌, ◌≡◌, refl, sym, ap, ◌∙◌, Bool, true, ◌&&◌, ◌||◌, not,
  Option, none, some, List, [], ◌∷◌, arith, ◌>>=◌, length, byte_bit-full, add64, sub64,
}
use pointer_os.Libc.{Memory, memset}
use pointer_os.Libc.Fill.{memset_lem}
use pointer_os.Boot.{kernel_offset, first_tag, TagsAt, over_tags, walk_tags-over_tags}
use pointer_os.Mm.Pmm.{Bitmap, Pmm, page_size_4kb, bitmap_test, bitmap_set}
use pointer_os.Mm.Pmm.Bitmap.{IsBytes}
use pointer_os.Mm.MemoryMap.{
  entries_of, raise, highest_end, is_available, over_pages, clear_entries, clear_available,
  init_pmm,
}
use pointer_os.Mm.MemoryMap.Ends.{all_entries, highest_end-raise, IsHighest, raise-IsHighest}
use pointer_os.Mm.MemoryMap.Pages.{
  page_steps, is_met, bitmap_set-Marks, over_pages-Marks, covers, AreSmall, clear_entries-covers,
  clear_entries-append,
}

-- Behind `memset` each page of the bitmap is taken.
memset-IsTaken :
    (b : Bitmap) (total p : ℕ)
    → p < total
    → bitmap_test (memset b 0 0xFF ((total + 7) / 8)) p ≡ true
unfolding bitmap_test
memset-IsTaken b total p h =
    let inside : p / 8 < (total + 7) / 8 = omega arith in
    let byte : memset b 0 0xFF ((total + 7) / 8) (p / 8) ≡ 255 =
      ground (arith, memset_lem b 0 0xFF ((total + 7) / 8) (p / 8)) in
    rw byte (byte_bit-full (p % 8) (omega arith))

memset-IsBytes : (b : Bitmap) (count : ℕ) → IsBytes b → IsBytes (memset b 0 0xFF count)
memset-IsBytes b count bytes i = ground (arith, memset_lem b 0 0xFF count i, bytes i)

over_tags-clear_entries :
    (m : Memory) (fuel : ℕ) (cleared : Option Bitmap) (ts : List ℕ)
    → over_tags
        (λ (c : Option Bitmap) tag. c >>= λ b. clear_entries fuel b (entries_of m tag))
        cleared
        ts
      ≡ (cleared >>= λ b. clear_entries fuel b (all_entries m ts))
unfolding clear_entries
over_tags-clear_entries m fuel none [] = refl
over_tags-clear_entries m fuel (some b) [] = refl
over_tags-clear_entries m fuel none (t ∷ ts) = over_tags-clear_entries m fuel none ts
over_tags-clear_entries m fuel (some b) (t ∷ ts) =
    over_tags-clear_entries m fuel (clear_entries fuel b (entries_of m t)) ts
    ∙ sym (clear_entries-append (entries_of m t) (all_entries m ts) fuel b)

clear_available-clear_entries :
    (fuel : ℕ) (m : Memory) (b : Bitmap) (boot_info : ℕ) (ts : List ℕ)
    → TagsAt m (first_tag boot_info) ts
    → length ts < fuel
    → clear_available fuel m b boot_info ≡ clear_entries fuel b (all_entries m ts)
unfolding clear_available
clear_available-clear_entries fuel m b boot_info ts at enough =
    ap (λ (r : Option (Option Bitmap)). r >>= λ cleared. cleared)
      (walk_tags-over_tags ts m _ (some b) (first_tag boot_info) fuel at enough)
    ∙ over_tags-clear_entries m fuel (some b) ts

init_pmm-runs :
    (fuel : ℕ) (m : Memory) (kernel_start kernel_end : ℕ) (s : Pmm) (boot_info top : ℕ)
    (b1 b2 : Bitmap)
    → highest_end is_available fuel m boot_info ≡ some top
    → (let size = (top / page_size_4kb + 7) / 8 in
        (clear_available fuel m (memset s.bitmap 0 0xFF size) boot_info ≡ some b1)
        × (over_pages bitmap_set fuel b1
              (sub64 kernel_start kernel_offset)
              (sub64 (add64 kernel_end size) kernel_offset)
            ≡ some b2))
    → init_pmm fuel m kernel_start kernel_end s boot_info
      ≡ some (record s { bitmap = b2; total_pages = top / page_size_4kb })
unfolding init_pmm
init_pmm-runs fuel m kernel_start kernel_end s boot_info top b1 b2 highest (cleared, marked) =
    rw (highest, cleared, marked) refl

-- The pages from the kernel's start to the end of the bitmap behind it.
abbrev pub is_kernel : ℕ → ℕ → ℕ → ℕ → Bool
is_kernel kernel_start kernel_end total p =
    is_met (kernel_start - kernel_offset) (kernel_end + (total + 7) / 8 - kernel_offset) p

over_pages-is_kernel :
    (fuel : ℕ) (b : Bitmap) (kernel_start kernel_end total : ℕ)
    → IsBytes b
    → kernel_offset ≤ kernel_start
    → (kernel_start ≤ kernel_end)
      × (kernel_end + (total + 7) / 8 < 2 ^ 64)
      × (page_steps kernel_start (kernel_end + (total + 7) / 8) < fuel)
    → (b' : Bitmap) × (over_pages bitmap_set fuel b
          (sub64 kernel_start kernel_offset)
          (sub64 (add64 kernel_end ((total + 7) / 8)) kernel_offset)
        ≡ some b')
      × IsBytes b'
      × ((p : ℕ)
          → bitmap_test b' p ≡ (is_kernel kernel_start kernel_end total p || bitmap_test b p))
over_pages-is_kernel fuel b kernel_start kernel_end total bytes high (order, room, few) =
    let size = (total + 7) / 8 in
    let first : sub64 kernel_start kernel_offset ≡ kernel_start - kernel_offset = omega arith in
    let last : sub64 (add64 kernel_end size) kernel_offset ≡ kernel_end + size - kernel_offset =
      omega arith in
    let (b', run, bytes', test) =
      over_pages-Marks bitmap_set true fuel b (kernel_start - kernel_offset)
        (kernel_end + size - kernel_offset) bitmap_set-Marks bytes (omega arith) (omega arith) in
    (
      b',
      ap (λ start. over_pages bitmap_set fuel b start (sub64 (add64 kernel_end size) kernel_offset))
            first
          ∙ ap (over_pages bitmap_set fuel b (kernel_start - kernel_offset)) last
          ∙ run,
      bytes',
      λ p. ground (arith, test p),
    )

marked_off : (covered taken : Bool) → taken ≡ true → (not covered && taken) ≡ not covered
marked_off covered taken h = ground arith

-- The boot tags are `ts`, each usable entry among them lies below the last page of the 64 bits, and
-- the kernel is linked in the upper 2 GB. With more rounds than tags and than pages of an entry and
-- of the kernel `init_PMM` ends: there are as many pages as lie whole below the highest end of an
-- available entry, and a page among them is free exactly if it is not the kernel's nor the bitmap's
-- and a usable entry, at 1 MB or above, has begun it.
pub init_pmm-covers :
    (ts : List ℕ) (fuel : ℕ) (m : Memory) (kernel_start kernel_end : ℕ) (s : Pmm) (boot_info : ℕ)
    → TagsAt m (first_tag boot_info) ts
    → length ts < fuel
    → IsBytes s.bitmap
    → AreSmall fuel (all_entries m ts)
    → kernel_offset ≤ kernel_start
    → (let total = raise is_available 0 (all_entries m ts) / page_size_4kb in
        (kernel_start ≤ kernel_end)
        × (kernel_end + (total + 7) / 8 < 2 ^ 64)
        × (page_steps kernel_start (kernel_end + (total + 7) / 8) < fuel))
    → (s' : Pmm) × (top : ℕ) × (init_pmm fuel m kernel_start kernel_end s boot_info ≡ some s')
      × IsBytes s'.bitmap
      × IsHighest is_available 0 (all_entries m ts) top
      × (s'.total_pages ≡ top / page_size_4kb)
      × ((p : ℕ)
          → p < s'.total_pages
          → bitmap_test s'.bitmap p ≡ (
              is_kernel kernel_start kernel_end s'.total_pages p
              || not (covers (all_entries m ts) p)))
unfolding init_pmm
init_pmm-covers ts fuel m kernel_start kernel_end s boot_info at enough bytes small high room =
    let es = all_entries m ts in
    let top = raise is_available 0 es in
    let total = top / page_size_4kb in
    let size = (total + 7) / 8 in
    let b0 = memset s.bitmap 0 0xFF size in
    let (b1, run1, bytes1, test1) =
      clear_entries-covers es fuel b0 (memset-IsBytes s.bitmap size bytes) small in
    let (b2, run2, bytes2, test2) =
      over_pages-is_kernel fuel b1 kernel_start kernel_end total bytes1 high room in
    let cleared : clear_available fuel m b0 boot_info ≡ some b1 =
      clear_available-clear_entries fuel m b0 boot_info ts at enough ∙ run1 in
    (
      record s { bitmap = b2; total_pages = total },
      top,
      init_pmm-runs fuel m kernel_start kernel_end s boot_info top b1 b2
          (highest_end-raise is_available fuel m boot_info ts at enough) (cleared, run2),
      bytes2,
      raise-IsHighest is_available 0 es,
      refl,
      λ p h.
          test2 p
          ∙ ap (λ t. is_kernel kernel_start kernel_end total p || t)
              (test1 p
                ∙ marked_off (covers es p) (bitmap_test b0 p) (memset-IsTaken s.bitmap total p h)),
    )
