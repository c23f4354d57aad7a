-- ===== src/Mm/Buddy/Remove.antt =====
-- `buddy_list_remove` of a free block.
use pointer_os.Base.{
  ℕ, ◌≡◌, sym, ap, ◌∙◌, ◌≢◌, ◌↔◌, ◌⊎◌, inl, inr, arith, ltb, ◌==◌, Bool-cases, update_self,
  update_ne,
}
use mathlib.Core.Path.{subst, subst₂}
use pointer_os.Mm.Buddy.{Buddy, buddy_list_remove}
use pointer_os.Mm.Buddy.Page.{address, page_index-address}
use pointer_os.Mm.Buddy.Free.{
  FreeHead, NextLinked, PrevLinked, AreaLinked, IsHeap, Within, Covered, IsUsed, next_of, prev_of,
}

module _ (s : Buddy) (p k : ℕ) (heap : IsHeap s) (free : FreeHead s p k) where
  abbrev s' : Buddy
  s' = buddy_list_remove s (address p) k

  -- `p` is not a neighbour of `q`, or `q` takes the neighbour of `p`.
  next_else : (q : ℕ) → address q ≢ prev_of s p → next_of s' q ≡ next_of s q
  unfolding buddy_list_remove
  next_else q ne = ground arith

  next_before : (q : ℕ) → address q ≡ prev_of s p → next_of s' q ≡ next_of s p
  unfolding buddy_list_remove
  next_before q e = ground arith

  prev_else : (q : ℕ) → address q ≢ next_of s p → prev_of s' q ≡ prev_of s q
  unfolding buddy_list_remove
  prev_else q ne = ground arith

  prev_behind : (q : ℕ) → address q ≡ next_of s p → prev_of s' q ≡ prev_of s p
  unfolding buddy_list_remove
  prev_behind q e = ground arith

  area_head : prev_of s p ≡ 0 → s'.free_areas k ≡ next_of s p
  unfolding buddy_list_remove
  area_head e = ground arith

  area_kept : (l : ℕ) → prev_of s p ≢ 0 → s'.free_areas l ≡ s.free_areas l
  unfolding buddy_list_remove
  area_kept l ne = ground arith

  area_else : (l : ℕ) → l ≢ k → s'.free_areas l ≡ s.free_areas l
  unfolding buddy_list_remove
  area_else l ne = ground arith

  metadata_self : s'.metadata p ≡ record (s.metadata p) { is_free = 0 }
  unfolding buddy_list_remove
  metadata_self = rw (page_index-address p free.0) (update_self s.metadata p _)

  metadata_else : (q : ℕ) → q ≢ p → s'.metadata q ≡ s.metadata q
  unfolding buddy_list_remove
  metadata_else q ne = rw (page_index-address p free.0) (update_ne s.metadata p _ q ne)

  free_else : (q l : ℕ) → q ≢ p → FreeHead s q l → FreeHead s' q l
  free_else q l ne f = rw (metadata_else q ne) f

  -- The free blocks are the others.
  free_before : (q l : ℕ) → FreeHead s' q l → (q ≢ p) × FreeHead s q l
  free_before q l f = elim (Bool-cases (q == p)) [
    | inl same ↦
        let e : q ≡ p = ground arith in
        absurd (f.1 (ap (λ (t : ℕ). (s'.metadata t).is_free) e ∙ ap (λ m. m.is_free) metadata_self))
    | inr other ↦ let ne : q ≢ p = ground arith in (ne, rw (sym (metadata_else q ne)) f)
  ]

  same_order : (q l : ℕ) → FreeHead s q l → q ≡ p → l ≡ k
  same_order q l f e = sym f.2 ∙ ap (λ (t : ℕ). (s.metadata t).order) e ∙ free.2

  -- What `next` of block `q` says when `q` is in front of `p`, and what `prev` says behind it.
  next_of_before : (q : ℕ) → address q ≡ prev_of s p → next_of s q ≡ address p
  next_of_before q e = elim (heap.prev p k free) [
    | inl (start, at) ↦ absurd (omega (arith, start, e))
    | inr (t, f, at, forth) ↦
        let same : t ≡ q = omega (arith, at, e) in ap (λ (u : ℕ). next_of s u) (sym same) ∙ forth
  ]

  prev_of_behind : (q : ℕ) → address q ≡ next_of s p → prev_of s q ≡ address p
  prev_of_behind q e = elim (heap.next p k free) [
    | inl end ↦ absurd (omega (arith, end, e))
    | inr (t, f, at, back) ↦
        let same : t ≡ q = omega (arith, at, e) in ap (λ (u : ℕ). prev_of s u) (sym same) ∙ back
  ]

  -- The block in front of `p` leads to the one behind it, and back.
  next_bridge : (r : ℕ) → r ≢ p → address r ≡ prev_of s p → NextLinked s' r k
  next_bridge r ne here = elim (heap.next p k free) [
    | inl end ↦ inl (next_before r here ∙ end)
    | inr (t, f, at, back) ↦
        let tp : t ≢ p =
          λ e. absurd (omega (arith, ap (λ (u : ℕ). prev_of s u) e, back, here, ne)) in
        inr (t, free_else t k tp f, next_before r here ∙ at, prev_behind t (sym at) ∙ sym here)
  ]

  prev_bridge : (r : ℕ) → r ≢ p → address r ≡ next_of s p → PrevLinked s' r k
  prev_bridge r ne here = elim (heap.prev p k free) [
    | inl (start, at) ↦ inl (prev_behind r here ∙ start, area_head start ∙ sym here)
    | inr (t, f, at, forth) ↦
        let tp : t ≢ p =
          λ e. absurd (omega (arith, ap (λ (u : ℕ). next_of s u) e, forth, here, ne)) in
        inr (t, free_else t k tp f, prev_behind r here ∙ at, next_before t (sym at) ∙ sym here)
  ]

  -- The list keeps its head when that is another block.
  area_same : (l : ℕ) → s.free_areas l ≢ address p → s'.free_areas l ≡ s.free_areas l
  area_same l ne = elim (heap.prev p k free) [
    | inl (start, at) ↦ elim (Bool-cases (l == k)) [
      | inl same ↦
          let e : l ≡ k = ground arith in absurd (ne (ap (λ (t : ℕ). s.free_areas t) e ∙ at))
      | inr other ↦ let lk : l ≢ k = ground arith in area_else l lk
    ]
    | inr (t, f, at, forth) ↦ area_kept l (λ e. absurd (omega (arith, e, at)))
  ]

  next-NextLinked : (r l : ℕ) → r ≢ p → FreeHead s r l → NextLinked s r l → NextLinked s' r l
  next-NextLinked r l ne f (inl end) =
      inl (next_else r (λ e. absurd (omega (arith, next_of_before r e, end))) ∙ end)
  next-NextLinked r l ne f (inr (q, g, at, back)) = elim (Bool-cases (q == p)) [
    | inl same ↦
        let e : q ≡ p = ground arith in
        let here : address r ≡ prev_of s p = sym back ∙ ap (λ (u : ℕ). prev_of s u) e in
        subst (λ (x : ℕ). NextLinked s' r x) (sym (same_order q l g e)) (next_bridge r ne here)
    | inr other ↦
        let qp : q ≢ p = ground arith in
        inr (
          q,
          free_else q l qp g,
          next_else r (λ e. absurd (omega (arith, next_of_before r e, at, qp))) ∙ at,
          prev_else q (λ e. absurd (omega (arith, prev_of_behind q e, back, ne))) ∙ back,
        )
  ]

  prev-PrevLinked : (r l : ℕ) → r ≢ p → FreeHead s r l → PrevLinked s r l → PrevLinked s' r l
  prev-PrevLinked r l ne f (inl (start, at)) = inl (
    prev_else r (λ e. absurd (omega (arith, prev_of_behind r e, start))) ∙ start,
    area_same l (λ e. absurd (omega (arith, e, at, ne))) ∙ at,
  )
  prev-PrevLinked r l ne f (inr (q, g, at, forth)) = elim (Bool-cases (q == p)) [
    | inl same ↦
        let e : q ≡ p = ground arith in
        let here : address r ≡ next_of s p = sym forth ∙ ap (λ (u : ℕ). next_of s u) e in
        subst (λ (x : ℕ). PrevLinked s' r x) (sym (same_order q l g e)) (prev_bridge r ne here)
    | inr other ↦
        let qp : q ≢ p = ground arith in
        inr (
          q,
          free_else q l qp g,
          prev_else r (λ e. absurd (omega (arith, prev_of_behind r e, at, qp))) ∙ at,
          next_else q (λ e. absurd (omega (arith, next_of_before q e, forth, ne))) ∙ forth,
        )
  ]

  area_bridge : prev_of s p ≡ 0 → AreaLinked s' k
  area_bridge start = elim (heap.next p k free) [
    | inl end ↦ inl (area_head start ∙ end)
    | inr (t, f, at, back) ↦
        let tp : t ≢ p = λ e. absurd (omega (arith, ap (λ (u : ℕ). prev_of s u) e, back, start)) in
        inr (t, free_else t k tp f, area_head start ∙ at, prev_behind t (sym at) ∙ start)
  ]

  area-AreaLinked : (l : ℕ) → AreaLinked s l → AreaLinked s' l
  area-AreaLinked l (inl empty) = inl (area_same l (λ e. absurd (omega (arith, e, empty))) ∙ empty)
  area-AreaLinked l (inr (q, g, at, start)) = elim (Bool-cases (q == p)) [
    | inl same ↦
        let e : q ≡ p = ground arith in
        let first : prev_of s p ≡ 0 = ap (λ (u : ℕ). prev_of s u) (sym e) ∙ start in
        subst (λ (x : ℕ). AreaLinked s' x) (sym (same_order q l g e)) (area_bridge first)
    | inr other ↦
        let qp : q ≢ p = ground arith in
        inr (
          q,
          free_else q l qp g,
          area_same l (λ e. absurd (omega (arith, e, at, qp))) ∙ at,
          prev_else q (λ e. absurd (omega (arith, prev_of_behind q e, start))) ∙ start,
        )
  ]

  pub buddy_list_remove-IsHeap : IsHeap s'
  buddy_list_remove-IsHeap = record {
    fits = λ q l f. heap.fits q l (free_before q l f).1;
    apart = λ a i b j f g. heap.apart a i b j (free_before a i f).1 (free_before b j g).1;
    next = λ q l f. let (ne, g) = free_before q l f in next-NextLinked q l ne g (heap.next q l g);
    prev = λ q l f. let (ne, g) = free_before q l f in prev-PrevLinked q l ne g (heap.prev q l g);
    area = λ l up. area-AreaLinked l (heap.area l up);
  }

  -- The pages of the block are no longer free.
  pub buddy_list_remove-IsUsed : IsUsed s' p k
  buddy_list_remove-IsUsed x w (q, l, f, v) =
      let (ne, g) = free_before q l f in
      elim (Bool-cases (ltb p q)) [
        | inl lower ↦ absurd (omega (arith, heap.apart p k q l free g (ground arith)))
        | inr upper ↦ absurd (omega (arith, heap.apart q l p k g free (ground arith)))
      ]

  -- The pages that were free are those of the block and those that still are.
  pub buddy_list_remove-Covered : (x : ℕ) → Covered s x ↔ (Covered s' x ⊎ Within p k x)
  buddy_list_remove-Covered x = (
    (λ (q, l, f, w). elim (Bool-cases (q == p)) [
      | inl same ↦
          let e : q ≡ p = ground arith in
          inr (subst₂ (λ (a b : ℕ). Within a b x) e (same_order q l f e) w)
      | inr other ↦ let ne : q ≢ p = ground arith in inl (q, l, free_else q l ne f, w)
    ]),
    (λ c. elim c [ inl (q, l, f, w) ↦ (q, l, (free_before q l f).1, w) | inr w ↦ (p, k, free, w) ]),
  )

  -- No metadata but that of the block changes.
  pub buddy_list_remove_metadata : (q : ℕ) → q ≢ p → s'.metadata q ≡ s.metadata q
  buddy_list_remove_metadata = metadata_else
