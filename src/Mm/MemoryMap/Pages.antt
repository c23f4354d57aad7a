-- ===== src/Mm/MemoryMap/Pages.antt =====
-- The loops of `init_PMM` that mark pages.
use pointer_os.Base.{
  ℕ, zero, suc, ◌+◌, ◌-◌, ◌/◌, ◌^◌, ◌≤◌, ◌<◌, ◌≡◌, refl, inl, inr, Bool, true, false, ◌&&◌, ◌||◌,
  not, some, List, [], ◌∷◌, ◌++◌, arith, ltb, leb, ◌==◌, if◌then◌else◌, Bool-cases, Option-cases,
  ◌>>=◌, add64,
}
use pointer_os.Mm.Pmm.{Bitmap, page_size_4kb, bitmap_test, bitmap_set, bitmap_clr}
use pointer_os.Mm.Pmm.Bitmap.{
  IsBytes, bitmap_test-set, bitmap_set-IsBytes, bitmap_test-clr, bitmap_clr-IsBytes,
}
use pointer_os.Mm.MemoryMap.{MmapEntry, end_of, over_pages, is_usable, clear_entries}

-- The pages that a loop from `addr` to `end` meets: one for each step of 4096 bytes that is begun.
abbrev pub page_steps : ℕ → ℕ → ℕ
page_steps addr end = (end - addr + 4095) / 4096

abbrev pub is_met : ℕ → ℕ → ℕ → Bool
is_met addr end p = leb (addr / 4096) p && ltb p (addr / 4096 + page_steps addr end)

-- One use of the operation gives the bit of its page the value, and leaves the others.
abbrev pub Marks : (Bitmap → ℕ → Bitmap) → Bool → Type 0
Marks op value =
    (b : Bitmap)
    → IsBytes b
    → (i : ℕ)
    → IsBytes (op b i)
      × ((j : ℕ) → bitmap_test (op b i) j ≡ (if j == i then value else bitmap_test b j))

pub bitmap_set-Marks : Marks bitmap_set true
bitmap_set-Marks b bytes i =
    (bitmap_set-IsBytes b bytes i, λ j. ground (arith, bitmap_test-set b bytes i j))

bitmap_clr-Marks : Marks bitmap_clr false
bitmap_clr-Marks b bytes i =
    (bitmap_clr-IsBytes b bytes i, λ j. ground (arith, bitmap_test-clr b bytes i j))

pub over_pages-Marks :
    (op : Bitmap → ℕ → Bitmap) (value : Bool) (fuel : ℕ) (b : Bitmap) (addr end : ℕ)
    → Marks op value
    → IsBytes b
    → end + 4096 ≤ 2 ^ 64
    → page_steps addr end < fuel
    → (b' : Bitmap) × (over_pages op fuel b addr end ≡ some b')
      × IsBytes b'
      × ((p : ℕ) → bitmap_test b' p ≡ (if is_met addr end p then value else bitmap_test b p))
unfolding over_pages
over_pages-Marks op value zero b addr end marks bytes small enough = absurd (omega arith)
over_pages-Marks op value (suc fuel) b addr end marks bytes small enough =
    elim (Bool-cases (ltb addr end)) [
      | inr over ↦ rw over (b, refl, bytes, λ p. ground arith)
      | inl more ↦
          let below : addr < end = ground arith in
          let up : add64 addr page_size_4kb ≡ addr + 4096 = omega arith in
          let (bytes1, test1) = marks b bytes (addr / page_size_4kb) in
          let (b', run, bytes', test) =
            over_pages-Marks op value fuel (op b (addr / page_size_4kb)) (addr + 4096) end marks
              bytes1 small (omega arith) in
          rw (more, up) (b', run, bytes', λ p. ground (arith, test p, test1 p))
    ]

abbrev pub covers : List MmapEntry → ℕ → Bool
covers [] p = false
covers (e ∷ es) p = (is_usable e && is_met e.addr (end_of e) p) || covers es p

-- Each usable entry ends below the last page of the 64 bits, and has fewer pages than rounds.
abbrev pub AreSmall : ℕ → List MmapEntry → Type 0
AreSmall fuel [] = Unit
AreSmall fuel (e ∷ es) =
    (e.addr + e.len + 4096 ≤ 2 ^ 64)
    × (page_steps e.addr (e.addr + e.len) < fuel)
    × AreSmall fuel es

pub clear_entries-covers :
    (es : List MmapEntry) (fuel : ℕ) (b : Bitmap)
    → IsBytes b
    → AreSmall fuel es
    → (b' : Bitmap) × (clear_entries fuel b es ≡ some b')
      × IsBytes b'
      × ((p : ℕ) → bitmap_test b' p ≡ (not (covers es p) && bitmap_test b p))
unfolding clear_entries
clear_entries-covers [] fuel b bytes small = (b, refl, bytes, λ p. refl)
clear_entries-covers (e ∷ es) fuel b bytes (below, few, small) =
    let end : end_of e ≡ e.addr + e.len = omega arith in
    elim (Bool-cases (is_usable e)) [
      | inr other ↦
          let (b', run, bytes', test) = clear_entries-covers es fuel b bytes small in
          rw other (b', run, bytes', test)
      | inl usable ↦
          let (b1, run1, bytes1, test1) =
            over_pages-Marks bitmap_clr false fuel b e.addr (end_of e) bitmap_clr-Marks bytes
              (omega (arith, end, below)) (rw end few) in
          let (b', run, bytes', test) = clear_entries-covers es fuel b1 bytes1 small in
          rw (usable, run1) (b', run, bytes', λ p. ground (arith, test p, test1 p))
    ]

pub clear_entries-append :
    (xs ys : List MmapEntry) (fuel : ℕ) (b : Bitmap)
    → clear_entries fuel b (xs ++ ys) ≡ (clear_entries fuel b xs >>= λ b'. clear_entries fuel b' ys)
unfolding clear_entries
clear_entries-append [] ys fuel b = refl
clear_entries-append (e ∷ xs) ys fuel b =
    elim (Option-cases
      (if is_usable e then over_pages bitmap_clr fuel b e.addr (end_of e) else some b)) [
        | inl fails ↦ rw fails refl
        | inr (b', runs) ↦ rw runs (clear_entries-append xs ys fuel b')
      ]
