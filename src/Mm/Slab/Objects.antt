-- ===== src/Mm/Slab/Objects.antt =====
-- The list of free objects in a new slab.
use pointer_os.Base.{
  ℕ, zero, suc, ◌+◌, ◌*◌, ◌≤◌, ◌<◌, ◌≡◌, refl, sym, ap, ◌∙◌, inl, inr, true, false, some, List, [],
  ◌∷◌, arith, leb, ◌==◌, if◌then◌else◌, Bool-cases, update, update_self,
}
use mathlib.Core.Path.{subst}
use native.Mathlib.Nat.{suc-mul}
use pointer_os.Mm.Buddy.{buddy_alloc}
use pointer_os.Mm.Slab.{Heap, link_objects, first_object, slab_create, with_slab}

-- The objects from `first` on, one behind another.
abbrev pub objects : ℕ → ℕ → ℕ → List ℕ
objects first size zero = []
objects first size (suc count) = first ∷ objects (first + size) size count

-- From address `p` the words of the objects lead through `ps`, the last one to `NULL`.
abbrev pub FreeObjects : (ℕ → ℕ) → ℕ → List ℕ → Type 0
FreeObjects word p [] = p ≡ 0
FreeObjects word p (q ∷ qs) = (p ≡ q) × FreeObjects word (word q) qs

link_objects-FreeObjects :
    (fuel : ℕ) (word : ℕ → ℕ) (curr size page_end count : ℕ)
    → 0 < size
    → curr ≤ page_end
    → page_end < curr + suc fuel * size
    → (word' : ℕ → ℕ) × (n : ℕ) × (link_objects (suc fuel) word curr size page_end count
        ≡ some (word', count + n))
      × (curr + n * size ≤ page_end)
      × (page_end < curr + suc n * size)
      × FreeObjects word' (if leb (curr + size) page_end then curr else 0) (objects curr size n)
      × ((a : ℕ) → a < curr → word' a ≡ word a)
unfolding link_objects
link_objects-FreeObjects zero word curr size page_end count pos start enough =
    let full : leb (curr + size) page_end ≡ false = ground arith in
    (
      word,
      0,
      rw full (ap (λ (k : ℕ). some (word, k)) (omega arith)),
      omega arith,
      omega arith,
      rw full refl,
      λ a h. refl,
    )
link_objects-FreeObjects (suc fuel) word curr size page_end count pos start enough =
    elim (Bool-cases (leb (curr + size) page_end)) [
      | inl room ↦
          let next = curr + size in
          let link = if leb (next + size) page_end then next else 0 in
          let (word', n, run, fits, filled, list, below) =
            link_objects-FreeObjects fuel (update word curr link) next size page_end (count + 1) pos
              (ground arith) (omega (arith, suc-mul (suc fuel) size)) in
          let here : word' curr ≡ link = below curr (omega arith) ∙ ground arith in
          (
            word',
            suc n,
            rw room (run ∙ ap (λ (k : ℕ). some (word', k)) (omega arith)),
            omega (arith, suc-mul n size),
            omega (arith, suc-mul (suc n) size),
            rw room (
              refl,
              subst (λ (p : ℕ). FreeObjects word' p (objects next size n)) (sym here) list,
            ),
            λ a h. below a (omega arith) ∙ ground arith,
          )
      | inr full ↦ (
        word,
        0,
        rw full (ap (λ (k : ℕ). some (word, k)) (omega arith)),
        omega arith,
        ground arith,
        rw full refl,
        λ a h. refl,
      )
    ]

-- `n` objects of `size` bytes fill the page from `first` on: one more would not fit.
abbrev pub FillsPage : ℕ → ℕ → ℕ → ℕ → Type 0
FillsPage first size n page_end = (first + n * size ≤ page_end) × (page_end < first + suc n * size)

-- When the buddy allocator has a page, the slab made of it counts all its objects as free, and its
-- list of free objects is every object of the page in order, each inside the page behind the slab's
-- own fields. It holds for the sizes that leave room for one object.
pub slab_create-FreeObjects :
    (h : Heap) (c : ℕ)
    → let page = (buddy_alloc h.buddy 0).1 in
      let size = (h.cache c).obj_size in
      ((page ≡ 0) → ⊥)
      → 16 ≤ size
      → size ≤ 2048
      → (h' : Heap) × (n : ℕ) × (slab_create h c ≡ some (h', page))
        × FreeObjects h'.word (h'.slab page).free_list (objects (first_object page) size n)
        × ((h'.slab page).free_count ≡ n)
        × ((h'.slab page).total_count ≡ n)
        × ((h'.slab page).parent_cache ≡ c)
        × FillsPage (first_object page) size n (page + 0x1000)
        × (page + 40 ≤ first_object page)
unfolding slab_create
slab_create-FreeObjects h c some_page large small =
    let page = (buddy_alloc h.buddy 0).1 in
    let size = (h.cache c).obj_size in
    let first = first_object page in
    let inside : (page + 40 ≤ first) × (first ≤ page + 47) = (omega arith, omega arith) in
    let (word', n, run, fits, filled, list, below) =
      link_objects-FreeObjects 299 h.word first size (page + 0x1000) 0 (omega arith) (omega arith)
        (omega arith) in
    let room : leb (first + size) (page + 0x1000) ≡ true = ground arith in
    let not_zero : (page == 0) ≡ false = ground arith in
    let count : 0 + n ≡ n = omega arith in
    let h' = with_slab (record h { buddy = (buddy_alloc h.buddy 0).0 }) page c first word' n in
    let own : h'.slab page ≡ record {
      free_list = first;
      free_count = n;
      total_count = n;
      parent_cache = c;
      prev = (h.slab page).prev;
      next = (h.slab page).next;
    } =
      update_self h.slab page _ in
    (
      h',
      n,
      rw (not_zero, run, count) refl,
      subst (λ (p : ℕ). FreeObjects word' p (objects first size n)) (rw (room, own) refl) list,
      ap (λ s. s.free_count) own,
      ap (λ s. s.total_count) own,
      ap (λ s. s.parent_cache) own,
      (fits, filled),
      inside.0,
    )
