-- ===== src/Mm/Buddy/Release.antt =====
-- What `buddy_free` takes back.
use pointer_os.Base.{
  ℕ, zero, suc, ◌+◌, ◌-◌, ◌≡◌, refl, ◌↔◌, ◌⊎◌, inl, inr, ◌&&◌, not, arith, ◌==◌, Bool-cases,
}
use pointer_os.Mm.Buddy.{Buddy, buddy_list_remove, merge_from, buddy_free}
use pointer_os.Mm.Buddy.Page.{address, page_index-address, two_pow_pos}
use pointer_os.Mm.Buddy.Free.{FreeHead, IsHeap, IsBlock, Within, Covered, IsUsed}
use pointer_os.Mm.Buddy.Add.{buddy_list_add-IsHeap, buddy_list_add-Covered}
use pointer_os.Mm.Buddy.Remove.{
  buddy_list_remove-IsHeap, buddy_list_remove-IsUsed, buddy_list_remove-Covered,
}
use pointer_os.Mm.Buddy.Partner.{BuddyPair, partner}

-- The used block at `p` and some free ones have become the used block of 2^j pages at `a`.
abbrev pub Grown : Buddy → ℕ → ℕ → Buddy → ℕ → ℕ → Type 0
Grown s p i s' a j =
    (p' : ℕ) × (a ≡ address p')
    × IsHeap s'
    × IsBlock p' j
    × IsUsed s' p' j
    × ((x : ℕ) → (Covered s x ⊎ Within p i x) ↔ (Covered s' x ⊎ Within p' j x))

-- One round with a free buddy.
join-IsUsed :
    (s : Buddy) (p i b low : ℕ)
    → (heap : IsHeap s) → (free : FreeHead s b i) → IsUsed s p i
    → BuddyPair p i b low
    → IsUsed (buddy_list_remove s (address b) i) low (suc i)
join-IsUsed s p i b low heap free used pair x w c = elim ((pair.pages x).0 w) [
  | inl own ↦ used x own ((buddy_list_remove-Covered s b i heap free x).1 (inl c))
  | inr other ↦ buddy_list_remove-IsUsed s b i heap free x other c
]

join-Covered :
    (s : Buddy) (p i b low : ℕ)
    → (heap : IsHeap s) → (free : FreeHead s b i) → BuddyPair p i b low
    → (x : ℕ)
    → (Covered s x ⊎ Within p i x)
      ↔ (Covered (buddy_list_remove s (address b) i) x ⊎ Within low (suc i) x)
join-Covered s p i b low heap free pair x =
    let removed = buddy_list_remove-Covered s b i heap free x in
    (
      (λ c. elim c [
        | inl before ↦ elim (removed.0 before) [
          | inl after ↦ inl after
          | inr other ↦ inr ((pair.pages x).1 (inr other))
        ]
        | inr own ↦ inr ((pair.pages x).1 (inl own))
      ]),
      (λ c. elim c [
        | inl after ↦ inl (removed.1 (inl after))
        | inr w ↦ elim ((pair.pages x).0 w) [
          | inl own ↦ inr own
          | inr other ↦ inl (removed.1 (inr other))
        ]
      ]),
    )

merge_from-Grown :
    (rounds : ℕ) (s : Buddy) (p i : ℕ)
    → i + rounds ≡ 12
    → IsHeap s
    → IsBlock p i
    → IsUsed s p i
    → let (s', a, j) = merge_from rounds s (address p) i in Grown s p i s' a j
unfolding merge_from
merge_from-Grown zero s p i e heap block used =
    (p, refl, heap, block, used, λ x. ((λ c. c), λ c. c))
merge_from-Grown (suc rounds) s p i e heap block used =
    let (b, low, pair) = partner p i block (omega arith) in
    let index = page_index-address b pair.inside in
    let next : i + 1 ≡ suc i = omega arith in
    let entry = s.metadata b in
    elim (Bool-cases (not (entry.is_free == 0) && entry.order == i)) [
      | inl joins ↦
          let free : FreeHead s b i = (pair.inside, ground arith, ground arith) in
          let s' = buddy_list_remove s (address b) i in
          let (p', at, heap', block', used', same) =
            merge_from-Grown rounds s' low (suc i) (omega arith)
              (buddy_list_remove-IsHeap s b i heap free) pair.joined
              (join-IsUsed s p i b low heap free used pair) in
          rw (pair.buddy, pair.lower, index, joins, next)
            (
              p',
              at,
              heap',
              block',
              used',
              λ x. (
                (λ c. (same x).0 ((join-Covered s p i b low heap free pair x).0 c)),
                λ c. (join-Covered s p i b low heap free pair x).1 ((same x).1 c),
              ),
            )
      | inr stops ↦
          rw (pair.buddy, index, stops) (p, refl, heap, block, used, λ x. ((λ c. c), λ c. c))
    ]

-- Freeing a block in use, whose metadata has its order, keeps the heap in order, and makes the pages
-- of the block free and no others.
pub buddy_free-IsHeap :
    (s : Buddy) (p k : ℕ)
    → IsHeap s
    → (s.metadata p).order ≡ k
    → IsBlock p k
    → IsUsed s p k
    → let s' = buddy_free s (address p) in
      IsHeap s' × ((x : ℕ) → Covered s' x ↔ (Covered s x ⊎ Within p k x))
unfolding buddy_free
buddy_free-IsHeap s p k heap order block used =
    let index = page_index-address p (omega (arith, two_pow_pos k)) in
    let merged = merge_from (12 - k) s (address p) k in
    let (p', at, heap', block', used', same) =
      merge_from-Grown (12 - k) s p k (omega arith) heap block used in
    let added = buddy_list_add-Covered merged.0 p' merged.2 heap' block' used' in
    rw (index, order, at)
      (
        buddy_list_add-IsHeap merged.0 p' merged.2 heap' block' used',
        λ x. ((λ c. (same x).1 ((added x).0 c)), λ c. (added x).1 ((same x).0 c)),
      )
