-- ===== src/Mm/MemoryMapTests.antt =====
-- A machine with the memory below 640 KB and 128 KB from 1 MB on, where the kernel has 3 pages.
use pointer_os.Base.{
  ℕ, ◌+◌, ◌-◌, ◌/◌, ◌<◌, ◌≡◌, refl, true, false, ◌||◌, not, none, some, List, [], ◌∷◌, map, arith,
  get_elem?,
}
use pointer_os.Libc.{Memory}
use pointer_os.Boot.{kernel_offset, first_tag}
use pointer_os.Mm.Pmm.{Pmm, page_size_4kb, bitmap_test}
use pointer_os.Mm.Pmm.Bitmap.{IsBytes}
use pointer_os.Mm.MemoryMap.{raise, is_available, init_pmm}
use pointer_os.Mm.MemoryMap.Ends.{all_entries, IsHighest}
use pointer_os.Mm.MemoryMap.Pages.{covers, AreSmall}
use pointer_os.Mm.MemoryMap.Init.{is_kernel, init_pmm-covers}

abbrev map_bytes : List ℕ
map_bytes =
    6 ∷ 0 ∷ 0 ∷ 0 ∷ 64 ∷ 0 ∷ 0 ∷ 0 ∷ 24 ∷ 0 ∷ 0 ∷ 0 ∷ 0 ∷ 0 ∷ 0 ∷ 0 ∷ 0 ∷ 0 ∷ 0 ∷ 0 ∷ 0 ∷ 0 ∷ 0 ∷ 0
    ∷ 0 ∷ 252 ∷ 9 ∷ 0 ∷ 0 ∷ 0 ∷ 0 ∷ 0 ∷ 1 ∷ 0 ∷ 0 ∷ 0 ∷ 0 ∷ 0 ∷ 0 ∷ 0 ∷ 0 ∷ 0 ∷ 16 ∷ 0 ∷ 0 ∷ 0 ∷ 0
    ∷ 0 ∷ 0 ∷ 0 ∷ 2 ∷ 0 ∷ 0 ∷ 0 ∷ 0 ∷ 0 ∷ 1 ∷ 0 ∷ 0 ∷ 0 ∷ 0 ∷ 0 ∷ 0 ∷ 0 ∷ []

abbrev boot_map : Memory
boot_map a = elim (get_elem? map_bytes (a - first_tag 0x1000)) [ some b ↦ b | none ↦ 0 ]

abbrev no_pages : Pmm
no_pages = record { bitmap = λ i. 0; total_pages = 0; lock = record { lock = 0 } }

abbrev map_tags : List ℕ
map_tags = first_tag 0x1000 ∷ []

map_tags-AreSmall : AreSmall 300 (all_entries boot_map map_tags)
map_tags-AreSmall = (omega arith, omega arith, (omega arith, omega arith, tt))

init_pmm-covers_example :
    let start = kernel_offset + 0x100000 in
    let end = kernel_offset + 0x103000 in
    (s' : Pmm) × (top : ℕ) × (init_pmm 300 boot_map start end no_pages 0x1000 ≡ some s')
    × IsBytes s'.bitmap
    × IsHighest is_available 0 (all_entries boot_map map_tags) top
    × (s'.total_pages ≡ top / page_size_4kb)
    × ((p : ℕ)
        → p < s'.total_pages
        → bitmap_test s'.bitmap p ≡ (
            is_kernel start end s'.total_pages p || not (covers (all_entries boot_map map_tags) p)))
unfolding raise
init_pmm-covers_example =
    init_pmm-covers map_tags 300 boot_map (kernel_offset + 0x100000) (kernel_offset + 0x103000)
      no_pages 0x1000 (refl, (λ e. absurd (omega (arith, e))), refl) (omega arith)
      (λ i. omega arith) map_tags-AreSmall (omega arith) (omega arith, omega arith, omega arith)

-- Of these pages those behind the kernel and its bitmap are free.
boots :
    map
      (λ p.
        is_kernel (kernel_offset + 0x100000) (kernel_offset + 0x103000) 288 p
        || not (covers (all_entries boot_map map_tags) p))
      (5 ∷ 256 ∷ 259 ∷ 260 ∷ 287 ∷ 288 ∷ [])
    ≡ true ∷ true ∷ true ∷ false ∷ false ∷ true ∷ []
boots = refl
