-- ===== src/Mm/Buddy.antt =====
-- mm/buddy.c: the heap in blocks of 2^order pages. A free block holds the pointers of its list, and
-- the structs are a function from their address. The metadata of a page stands at its index.
pub mod Add
pub mod Alloc
pub mod Free
pub mod Init
pub mod Page
pub mod Partner
pub mod Release
pub mod Remove
pub mod Split
use pointer_os.Base.{
  ℕ, zero, suc, ◌+◌, ◌-◌, ◌*◌, ◌/◌, ◌%◌, ◌^◌, bit_xor, Bool, ◌&&◌, not, ltb, leb, ◌==◌,
  if◌then◌else◌, update, sub64,
}

abbrev pub heap_start : ℕ
heap_start = 0xffff_e000_0000_0000

-- `free_block_t`
pub record FreeBlock : Type 0 where
  pub prev : ℕ
  pub next : ℕ

-- `page_metadata_t`
pub record PageMetadata : Type 0 where
  pub order : ℕ
  pub is_free : ℕ
  pub is_slab : ℕ

-- The file's variables, with the memory of the free blocks.
pub record Buddy : Type 0 where
  pub block : ℕ → FreeBlock
  pub free_areas : ℕ → ℕ
  pub metadata : ℕ → PageMetadata

-- An `int`, as a word of 32 bits: from 2^31 on it is negative, and `metadata` is read outside.
abbrev pub page_index : ℕ → ℕ
page_index addr = sub64 addr heap_start / 0x1000 % 2 ^ 32

abbrev pub buddy_of : ℕ → ℕ → ℕ
buddy_of addr i = bit_xor addr (2 ^ i * 0x1000)

abbrev pub set_next : (ℕ → FreeBlock) → ℕ → ℕ → ℕ → FreeBlock
set_next f p q = update f p (record (f p) { next = q })

abbrev pub set_prev : (ℕ → FreeBlock) → ℕ → ℕ → ℕ → FreeBlock
set_prev f p q = update f p (record (f p) { prev = q })

unfoldable pub buddy_list_remove : Buddy → ℕ → ℕ → Buddy
buddy_list_remove s addr order =
    let f = s.block in
    let areas =
      if (f addr).prev == 0 then update s.free_areas order (f addr).next else s.free_areas in
    let f = if (f addr).prev == 0 then f else set_next f (f addr).prev (f addr).next in
    let f = if (f addr).next == 0 then f else set_prev f (f addr).next (f addr).prev in
    let index = page_index addr in
    record {
      block = f;
      free_areas = areas;
      metadata = update s.metadata index (record (s.metadata index) { is_free = 0 });
    }

-- `order` has four bits.
unfoldable pub buddy_list_add : Buddy → ℕ → ℕ → Buddy
buddy_list_add s addr order =
    let head = s.free_areas order in
    let f = set_next (set_prev s.block addr 0) addr head in
    let f = if head == 0 then f else set_prev f head addr in
    record {
      block = f;
      free_areas = update s.free_areas order addr;
      metadata =
          update s.metadata (page_index addr)
            (record { order = order % 16; is_free = 1; is_slab = 0 });
    }

unfoldable pub init_buddy : Buddy → Buddy
init_buddy s =
    let none_free = record s {
      free_areas = λ i. if leb i 12 then 0 else s.free_areas i;
      metadata =
          λ i. if ltb i 4096 then record { order = 0; is_free = 0; is_slab = 0 } else s.metadata i;
    } in
    buddy_list_add none_free heap_start 12

-- The inner loop of `buddy_alloc`, with `i - order` rounds left: the upper halves become free.
pub split : ℕ → Buddy → ℕ → ℕ → Buddy
split zero s addr order = s
split (suc rounds) s addr order =
    split rounds (buddy_list_add s (buddy_of addr (order + rounds)) (order + rounds)) addr order

-- What `buddy_alloc` does with the first block of `free_areas[i]`.
unfoldable pub take_block : Buddy → ℕ → ℕ → Buddy × ℕ
unfolding split
take_block s i order =
    let addr = s.free_areas i in
    let s = split (i - order) (buddy_list_remove s addr i) addr order in
    (
      record s {
        metadata =
            update s.metadata (page_index addr)
              (record { order = order % 16; is_free = 0; is_slab = 0 });
      },
      addr,
    )

-- The outer loop from `i`.
pub alloc_from : ℕ → Buddy → ℕ → ℕ → Buddy × ℕ
alloc_from zero s i order = (s, 0)
alloc_from (suc rounds) s i order =
    let rest = alloc_from rounds s (i + 1) order in
    if s.free_areas i == 0 then rest else take_block s i order

unfoldable pub buddy_alloc : Buddy → ℕ → Buddy × ℕ
unfolding alloc_from
buddy_alloc s order = alloc_from (13 - order) s order order

-- The loop of `buddy_free` at order `i`, with `12 - i` rounds left: the block and its order grow
-- while the buddy is free.
pub merge_from : ℕ → Buddy → ℕ → ℕ → Buddy × ℕ × ℕ
merge_from zero s addr i = (s, addr, i)
merge_from (suc rounds) s addr i =
    let buddy = buddy_of addr i in
    let entry = s.metadata (page_index buddy) in
    let rest =
      merge_from rounds (buddy_list_remove s buddy i) (if ltb buddy addr then buddy else addr)
        (i + 1) in
    if not (entry.is_free == 0) && entry.order == i then rest else (s, addr, i)

unfoldable pub buddy_free : Buddy → ℕ → Buddy
unfolding merge_from
buddy_free s ptr =
    let i = (s.metadata (page_index ptr)).order in
    let merged = merge_from (12 - i) s ptr i in buddy_list_add merged.0 merged.1 merged.2

unfoldable pub is_buddy_free : Buddy → ℕ → ℕ → Bool
is_buddy_free s buddy_addr order =
    let entry = s.metadata (page_index buddy_addr) in
    entry.order == order && not (entry.is_free == 0)
