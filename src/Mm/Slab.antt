-- ===== src/Mm/Slab.antt =====
-- mm/slab.c: pages of equal objects. A cache is known by its number in `kernel_caches`, a slab by
-- the address of its page, and a free object holds the address of the next one in its first word.
pub mod Objects
use pointer_os.Base.{
  ℕ, zero, suc, ◌+◌, ◌-◌, ◌*◌, ◌/◌, ◌%◌, ◌^◌, Option, none, some, ltb, leb, ◌==◌, if◌then◌else◌,
  ◌>>=◌, update,
}
use pointer_os.Mm.Buddy.{Buddy, page_index, buddy_alloc, buddy_free}

-- `slab_t`
pub record Slab : Type 0 where
  pub free_list : ℕ
  pub free_count : ℕ
  pub total_count : ℕ
  pub parent_cache : ℕ
  pub prev : ℕ
  pub next : ℕ

-- `kmem_cache_t`
pub record Cache : Type 0 where
  pub obj_size : ℕ
  pub slabs_partial : ℕ
  pub slabs_full : ℕ

-- The heap: the buddy allocator, the slabs and the caches, and the words of the free objects.
pub record Heap : Type 0 where
  pub buddy : Buddy
  pub slab : ℕ → Slab
  pub cache : ℕ → Cache
  pub word : ℕ → ℕ

-- `sizes[i]`
unfoldable pub init_slab : Heap → Heap
init_slab h = record h {
  cache = λ i.
      if ltb i 8
      then record { obj_size = 2 ^ (i + 4); slabs_partial = 0; slabs_full = 0 }
      else h.cache i;
}

-- The slabs and the head of the list afterwards. The last line of the function clears `prev` twice
-- and leaves `next`.
unfoldable pub slab_list_remove : (ℕ → Slab) → ℕ → ℕ → (ℕ → Slab) × ℕ
slab_list_remove f head p =
    let f =
      if (f p).next == 0
      then f
      else update f (f p).next (record (f (f p).next) { prev = (f p).prev }) in
    let head = if (f p).prev == 0 then (f p).next else head in
    let f =
      if (f p).prev == 0
      then f
      else update f (f p).prev (record (f (f p).prev) { next = (f p).next }) in
    (update f p (record (f p) { prev = 0 }), head)

unfoldable pub slab_list_add : (ℕ → Slab) → ℕ → ℕ → (ℕ → Slab) × ℕ
slab_list_add f head p =
    let f = update f p (record (f p) { next = head; prev = 0 }) in
    let f = if head == 0 then f else update f head (record (f head) { prev = p }) in (f, p)

abbrev pub remove_partial : Heap → ℕ → ℕ → Heap
remove_partial h c p =
    let r = slab_list_remove h.slab (h.cache c).slabs_partial p in
    record h { slab = r.0; cache = update h.cache c (record (h.cache c) { slabs_partial = r.1 }) }

abbrev pub add_partial : Heap → ℕ → ℕ → Heap
add_partial h c p =
    let r = slab_list_add h.slab (h.cache c).slabs_partial p in
    record h { slab = r.0; cache = update h.cache c (record (h.cache c) { slabs_partial = r.1 }) }

abbrev pub remove_full : Heap → ℕ → ℕ → Heap
remove_full h c p =
    let r = slab_list_remove h.slab (h.cache c).slabs_full p in
    record h { slab = r.0; cache = update h.cache c (record (h.cache c) { slabs_full = r.1 }) }

abbrev pub add_full : Heap → ℕ → ℕ → Heap
add_full h c p =
    let r = slab_list_add h.slab (h.cache c).slabs_full p in
    record h { slab = r.0; cache = update h.cache c (record (h.cache c) { slabs_full = r.1 }) }

-- The loop of `slab_create` from `curr`: the words and the count of objects. `none` means that the
-- fuel ran out.
pub link_objects : ℕ → (ℕ → ℕ) → ℕ → ℕ → ℕ → ℕ → Option ((ℕ → ℕ) × ℕ)
link_objects zero word curr size page_end count = none
link_objects (suc fuel) word curr size page_end count =
    let next = curr + size in
    let link = if leb (next + size) page_end then next else 0 in
    let rest = link_objects fuel (update word curr link) next size page_end (count + 1) in
    if leb next page_end then rest else some (word, count)

-- `sizeof(slab_t)` is 40.
abbrev pub first_object : ℕ → ℕ
first_object page = (page + 47) / 8 * 8

-- The fields of the new slab, and the mark on its page.
abbrev pub with_slab : Heap → ℕ → ℕ → ℕ → (ℕ → ℕ) → ℕ → Heap
with_slab h page c first word count =
    let index = page_index page in
    let b = h.buddy in
    record h {
      buddy = record b {
        metadata = update b.metadata index (record (b.metadata index) { is_slab = 1 });
      };
      slab = update h.slab page (record (h.slab page) {
        free_list = first;
        free_count = count;
        total_count = count;
        parent_cache = c;
      });
      word = word;
    }

-- The new slab's address, 0 for `NULL`. A page has room for at most 256 objects, so that 300 rounds
-- are enough.
unfoldable pub slab_create : Heap → ℕ → Option (Heap × ℕ)
slab_create h c =
    let (b, page) = buddy_alloc h.buddy 0 in
    let first = first_object page in
    let made = link_objects 300 h.word first (h.cache c).obj_size (page + 0x1000) 0 >>= λ r.
    some (with_slab (record h { buddy = b }) page c first r.0 r.1, page) in
    if page == 0 then some (record h { buddy = b }, 0) else made

-- `slab_alloc` with a slab in the list of the cache.
abbrev pub take_object : Heap → ℕ → Heap × ℕ
take_object h c =
    let p = (h.cache c).slabs_partial in
    let s = h.slab p in
    let obj = s.free_list in
    let s = record s {
      free_list = h.word obj;
      free_count = (s.free_count + (2 ^ 32 - 1)) % 2 ^ 32;
    } in
    let h = record h { slab = update h.slab p s } in
    (if s.free_count == 0 then add_full (remove_partial h c p) c p else h, obj)

unfoldable pub slab_alloc : Heap → ℕ → Option (Heap × ℕ)
unfolding slab_list_remove slab_list_add
slab_alloc h c =
    let with_new = slab_create h c >>= λ r.
    if r.1 == 0 then some (r.0, 0) else some (take_object (add_partial r.0 c r.1) c) in
    if (h.cache c).slabs_partial == 0 then with_new else some (take_object h c)

unfoldable pub slab_free : Heap → ℕ → Heap
unfolding slab_list_remove slab_list_add
slab_free h ptr =
    let p = ptr / 0x1000 * 0x1000 in
    let c = (h.slab p).parent_cache in
    let h1 = if (h.slab p).free_count == 0 then add_partial (remove_full h c p) c p else h in
    let s = h1.slab p in
    let h2 = record h1 {
      word = update h1.word ptr s.free_list;
      slab =
          update h1.slab p (record s { free_list = ptr; free_count = (s.free_count + 1) % 2 ^ 32 });
    } in
    let h3 = remove_partial h2 c p in
    let index = page_index ptr in
    let b = h3.buddy in
    let b = record b {
      metadata = update b.metadata index (record (b.metadata index) { is_slab = 0 });
    } in
    if ptr == 0
    then h
    else if (h2.slab p).free_count == (h2.slab p).total_count
    then record h3 { buddy = buddy_free b p }
    else h2
