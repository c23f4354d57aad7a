-- ===== src/Mm/Buddy/Init.antt =====
-- The heap after `init_buddy`, and a block that is allocated and freed again.
use pointer_os.Base.{
  ℕ, ◌≤◌, ◌<◌, ◌≡◌, refl, ap, ◌≢◌, ◌↔◌, inl, inr, true, arith, ltb, leb, if◌then◌else◌,
}
use pointer_os.Mm.Buddy.{Buddy, init_buddy, buddy_alloc, buddy_free}
use pointer_os.Mm.Buddy.Free.{FreeHead, IsHeap, IsBlock, Covered, IsUsed}
use pointer_os.Mm.Buddy.Add.{buddy_list_add-IsHeap, buddy_list_add-Covered}
use pointer_os.Mm.Buddy.Alloc.{buddy_alloc-Handed}
use pointer_os.Mm.Buddy.Release.{buddy_free-IsHeap}

abbrev no_free_blocks : Buddy → Buddy
no_free_blocks s = record s {
  free_areas = λ i. if leb i 12 then 0 else s.free_areas i;
  metadata =
      λ i. if ltb i 4096 then record { order = 0; is_free = 0; is_slab = 0 } else s.metadata i;
}

none_is_free : (s : Buddy) (p k : ℕ) → FreeHead (no_free_blocks s) p k → ⊥
none_is_free s p k (inside, free, order) =
    let low : ltb p 4096 ≡ true = ground arith in free (rw low refl)

no_free_blocks-IsHeap : (s : Buddy) → IsHeap (no_free_blocks s)
no_free_blocks-IsHeap s = record {
  fits = λ p k f. absurd (none_is_free s p k f);
  apart = λ p k q l f g h. absurd (none_is_free s p k f);
  next = λ p k f. absurd (none_is_free s p k f);
  prev = λ p k f. absurd (none_is_free s p k f);
  area = λ k h. inl (ground arith);
}

whole_heap : IsBlock 0 12
whole_heap = (omega arith, (0, refl), omega arith)

-- Every page of the heap is free after `init_buddy`.
pub init_buddy-IsHeap :
    (s : Buddy) → IsHeap (init_buddy s) × ((x : ℕ) → x < 4096 → Covered (init_buddy s) x)
unfolding init_buddy
init_buddy-IsHeap s =
    let empty = no_free_blocks-IsHeap s in
    let used : IsUsed (no_free_blocks s) 0 12 = λ x w (p, k, f, v). none_is_free s p k f in
    (
      buddy_list_add-IsHeap (no_free_blocks s) 0 12 empty whole_heap used,
      λ x h.
          (buddy_list_add-Covered (no_free_blocks s) 0 12 empty whole_heap used x).1
            (inr (omega arith, omega arith)),
    )

-- A block that `buddy_alloc` returned and that is freed at once leaves the heap in order with the same
-- free pages as before.
pub buddy_free-buddy_alloc :
    (s : Buddy) (k : ℕ)
    → IsHeap s
    → k ≤ 12
    → let (s', a) = buddy_alloc s k in
      a ≢ 0 → IsHeap (buddy_free s' a) × ((x : ℕ) → Covered (buddy_free s' a) x ↔ Covered s x)
buddy_free-buddy_alloc s k heap small some_block =
    let (heap', outcome) = buddy_alloc-Handed s k heap small in
    elim outcome [
      | inl (nothing, same, empty) ↦ absurd (some_block nothing)
      | inr (p, at, block, entry, used, pages) ↦
          let s' = (buddy_alloc s k).0 in
          let (heap'', back) =
            buddy_free-IsHeap s' p k heap' (ap (λ m. m.order) entry) block used in
          rw at (heap'', λ x. ((λ c. (pages x).1 ((back x).0 c)), λ c. (back x).1 ((pages x).0 c)))
    ]
