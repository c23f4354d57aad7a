-- ===== src/Mm/MemoryMap.antt =====
-- `init_PMM` of mm/pmm.c: the page bitmap from the boot loader's map of memory. The map does not lie
-- under the bitmap.
pub mod Ends
pub mod Init
pub mod Pages
use pointer_os.Base.{
  ℕ, zero, suc, ◌+◌, ◌*◌, ◌/◌, Bool, ◌&&◌, Option, none, some, List, [], ◌∷◌, ltb, leb, ◌==◌,
  if◌then◌else◌, ◌>>=◌, add64, sub64,
}
use pointer_os.Libc.{Memory, memset}
use pointer_os.Boot.{read32, read64, kernel_offset, first_tag, walk_tags}
use pointer_os.Mm.Pmm.{Bitmap, Pmm, page_size_4kb, bitmap_set, bitmap_clr}

-- `struct multiboot_mmap_entry`
pub record MmapEntry : Type 0 where
  pub addr : ℕ
  pub len : ℕ
  pub kind : ℕ

abbrev pub entry_in : Memory → ℕ → ℕ → MmapEntry
entry_in m tag i = record {
  addr = read64 m (tag + 16 + 24 * i);
  len = read64 m (tag + 16 + 24 * i + 8);
  kind = read32 m (tag + 16 + 24 * i + 16);
}

-- `mmap->entries[i]`, and those behind it.
abbrev pub read_entries : Memory → ℕ → ℕ → ℕ → List MmapEntry
read_entries m tag zero i = []
read_entries m tag (suc rounds) i = entry_in m tag i ∷ read_entries m tag rounds (i + 1)

-- What the loops over `num_entries` see of a tag; a tag of another type has no entries.
abbrev pub entries_of : Memory → ℕ → List MmapEntry
entries_of m tag =
    if read32 m tag == 6
    then read_entries m tag (sub64 (read32 m (tag + 4)) 16 / read32 m (tag + 8)) 0
    else []

abbrev pub end_of : MmapEntry → ℕ
end_of e = add64 e.addr e.len

-- `type == MULTIBOOT_MEMORY_AVAILABLE`
abbrev pub is_available : MmapEntry → Bool
is_available e = e.kind == 1

-- The loop over the entries that raises `maxAddr`.
unfoldable pub raise : (MmapEntry → Bool) → ℕ → List MmapEntry → ℕ
raise counts max_addr [] = max_addr
raise counts max_addr (e ∷ es) =
    raise counts (if counts e && ltb max_addr (end_of e) then end_of e else max_addr) es

-- `maxAddr` after the loop over the tags.
unfoldable pub highest_end : (MmapEntry → Bool) → ℕ → Memory → ℕ → Option ℕ
unfolding raise
highest_end counts fuel m boot_info =
    walk_tags fuel m (λ max_addr tag. raise counts max_addr (entries_of m tag)) 0
      (first_tag boot_info)

-- `for (addr; addr < end; addr += PAGE_SIZE_4KB) op(addr / PAGE_SIZE_4KB)`. `none` means that the fuel
-- ran out.
pub over_pages : (Bitmap → ℕ → Bitmap) → ℕ → Bitmap → ℕ → ℕ → Option Bitmap
over_pages op zero b addr end = none
over_pages op (suc fuel) b addr end =
    let rest = over_pages op fuel (op b (addr / page_size_4kb)) (add64 addr page_size_4kb) end in
    if ltb addr end then rest else some b

-- An entry whose pages become free.
abbrev pub is_usable : MmapEntry → Bool
is_usable e = is_available e && leb 0x100000 e.addr

pub clear_entries : ℕ → Bitmap → List MmapEntry → Option Bitmap
unfolding over_pages
clear_entries fuel b [] = some b
clear_entries fuel b (e ∷ es) =
    let cleared = over_pages bitmap_clr fuel b e.addr (end_of e) in
    (if is_usable e then cleared else some b) >>= λ b'. clear_entries fuel b' es

unfoldable pub clear_available : ℕ → Memory → Bitmap → ℕ → Option Bitmap
unfolding clear_entries
clear_available fuel m b boot_info =
    walk_tags fuel m
      (λ (cleared : Option Bitmap) tag. cleared >>= λ b'. clear_entries fuel b' (entries_of m tag))
      (some b) (first_tag boot_info)
    >>= λ cleared. cleared

-- `kernel_start` and `kernel_end` are symbols of the linker.
unfoldable pub init_pmm : ℕ → Memory → ℕ → ℕ → Pmm → ℕ → Option Pmm
init_pmm fuel m kernel_start kernel_end s boot_info =
    highest_end is_available fuel m boot_info >>= λ max_addr.
    let total = max_addr / page_size_4kb in
    let bitmap_size = (total + 7) / 8 in
    clear_available fuel m (memset s.bitmap 0 0xFF bitmap_size) boot_info >>= λ b.
    over_pages bitmap_set fuel b (sub64 kernel_start kernel_offset)
      (sub64 (add64 kernel_end bitmap_size) kernel_offset)
    >>= λ b'. some (record s { bitmap = b'; total_pages = total })
