-- ===== src/Mm/Buddy/Alloc.antt =====
-- What `buddy_alloc` hands out.
use pointer_os.Base.{
  ℕ, zero, suc, ◌+◌, ◌-◌, ◌%◌, ◌≤◌, ◌<◌, ◌≡◌, refl, sym, ap, ◌∙◌, ◌≢◌, ◌↔◌, ◌⊎◌, inl, inr, true,
  arith, ◌==◌, Bool-cases, update, update_self, update_ne,
}
use mathlib.Core.Path.{subst}
use pointer_os.Mm.Buddy.{
  Buddy, PageMetadata, page_index, split, buddy_list_remove, take_block, alloc_from, buddy_alloc,
}
use pointer_os.Mm.Buddy.Page.{address, page_index-address, two_pow_pos}
use pointer_os.Mm.Buddy.Free.{
  FreeHead, NextLinked, PrevLinked, IsHeap, IsBlock, Within, Covered, IsUsed,
}
use pointer_os.Mm.Buddy.Remove.{
  buddy_list_remove-IsHeap, buddy_list_remove-IsUsed, buddy_list_remove-Covered,
}
use pointer_os.Mm.Buddy.Split.{split-Shrunk, lower_half}

-- New metadata for a page that starts no free block.
module _ (s : Buddy) (p : ℕ) (m : PageMetadata) (heap : IsHeap s)
    (unused : (l : ℕ) → FreeHead s p l → ⊥) (taken : m.is_free ≡ 0) where
  abbrev marked : Buddy
  marked = record s { metadata = update s.metadata p m }

  to : (q l : ℕ) → FreeHead s q l → FreeHead marked q l
  to q l f = elim (Bool-cases (q == p)) [
    | inl same ↦ absurd (unused l (subst (λ (t : ℕ). FreeHead s t l) (the_same q same) f))
    | inr other ↦ rw other f
  ]
    where
      the_same : (q : ℕ) → (q == p) ≡ true → q ≡ p
      the_same q same = ground arith

  from : (q l : ℕ) → FreeHead marked q l → FreeHead s q l
  from q l f = elim (Bool-cases (q == p)) [
    | inl same ↦ absurd (f.1 (rw same taken))
    | inr other ↦ rw (sym (update_ne s.metadata p m q (ground arith))) f
  ]

  to-NextLinked : (q l : ℕ) → NextLinked s q l → NextLinked marked q l
  to-NextLinked q l (inl end) = inl end
  to-NextLinked q l (inr (t, f, at, back)) = inr (t, to t l f, at, back)

  to-PrevLinked : (q l : ℕ) → PrevLinked s q l → PrevLinked marked q l
  to-PrevLinked q l (inl start) = inl start
  to-PrevLinked q l (inr (t, f, at, back)) = inr (t, to t l f, at, back)

  marked-IsHeap : IsHeap marked
  marked-IsHeap = record {
    fits = λ q l f. heap.fits q l (from q l f);
    apart = λ a i b j f g. heap.apart a i b j (from a i f) (from b j g);
    next = λ q l f. to-NextLinked q l (heap.next q l (from q l f));
    prev = λ q l f. to-PrevLinked q l (heap.prev q l (from q l f));
    area = λ l up. elim (heap.area l up) [
      | inl empty ↦ inl empty
      | inr (t, f, at, start) ↦ inr (t, to t l f, at, start)
    ];
  }

  marked-Covered : (x : ℕ) → Covered s x ↔ Covered marked x
  marked-Covered x =
      ((λ (q, l, f, w). (q, l, to q l f, w)), (λ (q, l, f, w). (q, l, from q l f, w)))

-- The block of 2^k pages at `a` was free, is used now, and nothing else has changed hands.
abbrev pub Handed : Buddy → Buddy → ℕ → ℕ → Type 0
Handed s s' a k =
    (p : ℕ) × (a ≡ address p)
    × IsBlock p k
    × (s'.metadata p ≡ record { order = k; is_free = 0; is_slab = 0 })
    × IsUsed s' p k
    × ((x : ℕ) → Covered s x ↔ (Covered s' x ⊎ Within p k x))

smaller-IsBlock : (rounds p i k : ℕ) → i ≡ k + rounds → IsBlock p i → IsBlock p k
smaller-IsBlock zero p i k e block =
    let whole : i ≡ k = omega arith in subst (λ (t : ℕ). IsBlock p t) whole block
smaller-IsBlock (suc rounds) p i k e block =
    let next : i ≡ suc (k + rounds) = omega arith in
    smaller-IsBlock rounds p (k + rounds) k refl
      (lower_half p (k + rounds) (subst (λ (t : ℕ). IsBlock p t) next block))

take_block-Handed :
    (s : Buddy) (i k : ℕ)
    → IsHeap s
    → k ≤ i
    → i ≤ 12
    → s.free_areas i ≢ 0
    → let (s', a) = take_block s i k in IsHeap s' × Handed s s' a k
unfolding take_block
take_block-Handed s i k heap low up some_block = elim (heap.area i up) [
  | inl empty ↦ absurd (some_block empty)
  | inr (p, free, at, first) ↦
      let s1 = buddy_list_remove s (address p) i in
      let block = heap.fits p i free in
      let enough : i ≡ k + (i - k) = omega arith in
      let (heap2, used2, same2) =
        split-Shrunk (i - k) s1 p i k enough (buddy_list_remove-IsHeap s p i heap free) block
          (buddy_list_remove-IsUsed s p i heap free) in
      let s2 = split (i - k) s1 (address p) k in
      let m : PageMetadata = record { order = k; is_free = 0; is_slab = 0 } in
      let unused : (l : ℕ) → FreeHead s2 p l → ⊥ =
        λ l f. used2 p (omega (arith, two_pow_pos k)) (p, l, f, omega (arith, two_pow_pos l)) in
      let covered = marked-Covered s2 p m heap2 unused refl in
      let block' = smaller-IsBlock (i - k) p i k enough block in
      let index : page_index (address p) ≡ p = page_index-address p free.0 in
      let order : k % 16 ≡ k = omega arith in
      rw (at, index, order)
        (
          marked-IsHeap s2 p m heap2 unused refl,
          (
            p,
            refl,
            block',
            update_self s2.metadata p m,
            (λ x w c. used2 x w ((covered x).1 c)),
            λ x. (
              (λ c. elim ((same2 x).0 ((buddy_list_remove-Covered s p i heap free x).0 c)) [
                | inl d ↦ inl ((covered x).0 d)
                | inr w ↦ inr w
              ]),
              λ c. elim c [
                | inl d ↦
                    (buddy_list_remove-Covered s p i heap free x).1
                      ((same2 x).1 (inl ((covered x).1 d)))
                | inr w ↦ (buddy_list_remove-Covered s p i heap free x).1 ((same2 x).1 (inr w))
              ],
            ),
          ),
        )
]

-- No block of `k` or more is free, and nothing happens.
abbrev pub Refused : Buddy → Buddy → ℕ → ℕ → Type 0
Refused s s' a k = (a ≡ 0) × (s' ≡ s) × ((i : ℕ) → k ≤ i → i ≤ 12 → s.free_areas i ≡ 0)

alloc_from-Handed :
    (rounds : ℕ) (s : Buddy) (i k : ℕ)
    → IsHeap s
    → k ≤ i
    → i + rounds ≡ 13
    → ((j : ℕ) → k ≤ j → j < i → s.free_areas j ≡ 0)
    → let (s', a) = alloc_from rounds s i k in IsHeap s' × (Refused s s' a k ⊎ Handed s s' a k)
unfolding alloc_from
alloc_from-Handed zero s i k heap low e none_below =
    (heap, inl (refl, refl, λ j h up. none_below j h (omega arith)))
alloc_from-Handed (suc rounds) s i k heap low e none_below =
    elim (Bool-cases (s.free_areas i == 0)) [
      | inl empty ↦ rw empty (
          alloc_from-Handed rounds s (i + 1) k heap (omega arith) (omega arith) (λ j h up.
            elim (Bool-cases (j == i)) [
              | inl same ↦
                  let here : j ≡ i = ground arith in
                  ap (λ (t : ℕ). s.free_areas t) here ∙ ground arith
              | inr other ↦ none_below j h (ground arith)
            ]))
      | inr some_block ↦
          let (heap', handed) = take_block-Handed s i k heap low (omega arith) (ground arith) in
          rw some_block (heap', inr handed)
    ]

-- `buddy_alloc` keeps the heap in order. Either it returns `NULL`, changes nothing, and the lists of
-- this and of all larger orders are empty; or it returns a block of the order, aligned and inside the
-- heap, all of whose pages were free: the free pages afterwards are the others, and just those.
pub buddy_alloc-Handed :
    (s : Buddy) (k : ℕ)
    → IsHeap s
    → k ≤ 12
    → let (s', a) = buddy_alloc s k in IsHeap s' × (Refused s s' a k ⊎ Handed s s' a k)
unfolding buddy_alloc
buddy_alloc-Handed s k heap small =
    alloc_from-Handed (13 - k) s k k heap (omega arith) (omega arith)
      (λ j h low. absurd (omega arith))
