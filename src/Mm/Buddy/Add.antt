-- ===== src/Mm/Buddy/Add.antt =====
-- `buddy_list_add` of a block of which no page is free.
use pointer_os.Base.{
  ℕ, ◌+◌, ◌%◌, ◌^◌, ◌≤◌, ◌<◌, ◌≡◌, refl, sym, ap, ◌∙◌, ◌≢◌, ◌↔◌, ◌⊎◌, inl, inr, arith, leb, ◌==◌,
  Bool-cases, update_self, update_ne,
}
use mathlib.Core.Path.{subst, subst₂}
use pointer_os.Mm.Buddy.{Buddy, buddy_list_add}
use pointer_os.Mm.Buddy.Page.{address, page_index-address, two_pow_pos}
use pointer_os.Mm.Buddy.Free.{
  FreeHead, NextLinked, PrevLinked, AreaLinked, IsBlock, IsHeap, Within, Covered, IsUsed, next_of,
  prev_of,
}

module _ (s : Buddy) (p k : ℕ) (heap : IsHeap s) (block : IsBlock p k) (used : IsUsed s p k) where
  abbrev s' : Buddy
  s' = buddy_list_add s (address p) k

  small : p < 4096
  small = omega (arith, two_pow_pos k)

  unused : (l : ℕ) → FreeHead s p l → ⊥
  unused l f = used p (omega (arith, two_pow_pos k)) (p, l, f, omega (arith, two_pow_pos l))

  -- A page that starts a free block is not page `p`.
  free-ne : (q l : ℕ) → FreeHead s q l → q ≢ p
  free-ne q l f e = unused l (subst (λ (t : ℕ). FreeHead s t l) e f)

  head-ne : s.free_areas k ≢ address p
  head-ne e = elim (heap.area k block.0) [
    | inl empty ↦ absurd (omega (arith, empty, e))
    | inr (q, f, at, first) ↦ free-ne q k f (omega (arith, at, e))
  ]

  next_self : next_of s' p ≡ s.free_areas k
  unfolding buddy_list_add
  next_self = ground (arith, head-ne)

  next_else : (q : ℕ) → q ≢ p → next_of s' q ≡ next_of s q
  unfolding buddy_list_add
  next_else q h = ground arith

  prev_self : prev_of s' p ≡ 0
  unfolding buddy_list_add
  prev_self = ground (arith, head-ne)

  prev_head : (q : ℕ) → q ≢ p → address q ≡ s.free_areas k → prev_of s' q ≡ address p
  unfolding buddy_list_add
  prev_head q h e = ground arith

  prev_else : (q : ℕ) → q ≢ p → address q ≢ s.free_areas k → prev_of s' q ≡ prev_of s q
  unfolding buddy_list_add
  prev_else q h ne = ground arith

  area_self : s'.free_areas k ≡ address p
  unfolding buddy_list_add
  area_self = update_self s.free_areas k (address p)

  area_else : (l : ℕ) → l ≢ k → s'.free_areas l ≡ s.free_areas l
  unfolding buddy_list_add
  area_else l ne = update_ne s.free_areas k (address p) l ne

  metadata_self : s'.metadata p ≡ record { order = k; is_free = 1; is_slab = 0 }
  unfolding buddy_list_add
  metadata_self =
      let low : k % 16 ≡ k = omega arith in
      rw (page_index-address p small, low) (update_self s.metadata p _)

  metadata_else : (q : ℕ) → q ≢ p → s'.metadata q ≡ s.metadata q
  unfolding buddy_list_add
  metadata_else q ne = rw (page_index-address p small) (update_ne s.metadata p _ q ne)

  free_self : FreeHead s' p k
  free_self = rw metadata_self (small, omega arith, refl)

  free_else : (q l : ℕ) → FreeHead s q l → FreeHead s' q l
  free_else q l f = rw (metadata_else q (free-ne q l f)) f

  -- The free blocks are the new one and the old ones.
  free-cases : (q l : ℕ) → FreeHead s' q l → ((q ≡ p) × (l ≡ k)) ⊎ ((q ≢ p) × FreeHead s q l)
  free-cases q l f = elim (Bool-cases (q == p)) [
    | inl same ↦
        let e : q ≡ p = ground arith in
        inl (e, sym f.2 ∙ ap (λ (t : ℕ). (s'.metadata t).order) e ∙ ap (λ m. m.order) metadata_self)
    | inr other ↦ let ne : q ≢ p = ground arith in inr (ne, rw (sym (metadata_else q ne)) f)
  ]

  -- The head of the list has no `prev`, and is of order `k`.
  head_has_prev :
      (q l r : ℕ) → FreeHead s q l → prev_of s q ≡ address r → address q ≢ s.free_areas k
  head_has_prev q l r g back e = elim (heap.area k block.0) [
    | inl empty ↦ absurd (omega (arith, empty, e))
    | inr (t, f, at, first) ↦
        let same : t ≡ q = omega (arith, at, e) in
        absurd (omega (arith, ap (λ (u : ℕ). prev_of s u) same, first, back))
  ]

  other_head : (q l : ℕ) → FreeHead s q l → l ≢ k → address q ≢ s.free_areas k
  other_head q l g ne e = elim (heap.area k block.0) [
    | inl empty ↦ absurd (omega (arith, empty, e))
    | inr (t, f, at, first) ↦
        let same : t ≡ q = omega (arith, at, e) in
        ne (sym g.2 ∙ ap (λ (u : ℕ). (s.metadata u).order) (sym same) ∙ f.2)
  ]

  next-NextLinked : (r l : ℕ) → FreeHead s r l → NextLinked s r l → NextLinked s' r l
  next-NextLinked r l f (inl end) = inl (next_else r (free-ne r l f) ∙ end)
  next-NextLinked r l f (inr (q, g, at, back)) =
      let qp = free-ne q l g in
      let ne : address q ≢ s.free_areas k = head_has_prev q l r g back in
      inr (q, free_else q l g, next_else r (free-ne r l f) ∙ at, prev_else q qp ne ∙ back)

  prev-PrevLinked : (r l : ℕ) → FreeHead s r l → PrevLinked s r l → PrevLinked s' r l
  prev-PrevLinked r l f (inl (start, at)) = elim (Bool-cases (l == k)) [
    | inl same ↦
        let e : l ≡ k = ground arith in
        let here : address r ≡ s.free_areas k = sym at ∙ ap (λ (t : ℕ). s.free_areas t) e in
        inr (
          p,
          subst (λ (t : ℕ). FreeHead s' p t) (sym e) free_self,
          prev_head r (free-ne r l f) here,
          next_self ∙ sym here,
        )
    | inr other ↦
        let ne : l ≢ k = ground arith in
        inl (prev_else r (free-ne r l f) (other_head r l f ne) ∙ start, area_else l ne ∙ at)
  ]
  prev-PrevLinked r l f (inr (q, g, at, forth)) = inr (
    q,
    free_else q l g,
    prev_else r (free-ne r l f) (head_has_prev r l q f at) ∙ at,
    next_else q (free-ne q l g) ∙ forth,
  )

  area-AreaLinked : (l : ℕ) → l ≢ k → AreaLinked s l → AreaLinked s' l
  area-AreaLinked l ne (inl empty) = inl (area_else l ne ∙ empty)
  area-AreaLinked l ne (inr (q, g, at, start)) = inr (
    q,
    free_else q l g,
    area_else l ne ∙ at,
    prev_else q (free-ne q l g) (other_head q l g ne) ∙ start,
  )

  next_new : NextLinked s' p k
  next_new = elim (heap.area k block.0) [
    | inl empty ↦ inl (next_self ∙ empty)
    | inr (q, f, at, first) ↦
        inr (q, free_else q k f, next_self ∙ at, prev_head q (free-ne q k f) (sym at))
  ]

  -- The new block overlaps no free block.
  apart_below : (q l : ℕ) → FreeHead s q l → q < p → q + 2 ^ l ≤ p
  apart_below q l f lower = elim (Bool-cases (leb (q + 2 ^ l) p)) [
    | inl fits ↦ ground arith
    | inr over ↦ absurd (used p (omega (arith, two_pow_pos k)) (q, l, f, ground arith))
  ]

  apart_above : (q l : ℕ) → FreeHead s q l → p < q → p + 2 ^ k ≤ q
  apart_above q l f upper = elim (Bool-cases (leb (p + 2 ^ k) q)) [
    | inl fits ↦ ground arith
    | inr over ↦ absurd (used q (ground arith) (q, l, f, omega (arith, two_pow_pos l)))
  ]

  stay_apart : (a i b j : ℕ) → FreeHead s' a i → FreeHead s' b j → a < b → a + 2 ^ i ≤ b
  stay_apart a i b j f g lower = elim (free-cases a i f) [
    | inl (e, o) ↦
        let same : 2 ^ i ≡ 2 ^ k = ap (λ (t : ℕ). 2 ^ t) o in
        elim (free-cases b j g) [
          | inl (e', o') ↦ absurd (omega (arith, e, e'))
          | inr (ne, g') ↦ omega (arith, e, same, apart_above b j g' (omega arith))
        ]
    | inr (ne, f') ↦ elim (free-cases b j g) [
      | inl (e, o) ↦ omega (arith, e, apart_below a i f' (omega arith))
      | inr (ne', g') ↦ heap.apart a i b j f' g' lower
    ]
  ]

  pub buddy_list_add-IsHeap : IsHeap s'
  buddy_list_add-IsHeap = record {
    fits = λ q l f. elim (free-cases q l f) [
      | inl (e, o) ↦ subst₂ (λ (x y : ℕ). IsBlock x y) (sym e) (sym o) block
      | inr (ne, g) ↦ heap.fits q l g
    ];
    apart = stay_apart;
    next = λ q l f. elim (free-cases q l f) [
      | inl (e, o) ↦ subst₂ (λ (x y : ℕ). NextLinked s' x y) (sym e) (sym o) next_new
      | inr (ne, g) ↦ next-NextLinked q l g (heap.next q l g)
    ];
    prev = λ q l f. elim (free-cases q l f) [
      | inl (e, o) ↦
          subst₂ (λ (x y : ℕ). PrevLinked s' x y) (sym e) (sym o) (inl (prev_self, area_self))
      | inr (ne, g) ↦ prev-PrevLinked q l g (heap.prev q l g)
    ];
    area = λ l up. elim (Bool-cases (l == k)) [
      | inl same ↦
          let e : l ≡ k = ground arith in
          subst (λ (x : ℕ). AreaLinked s' x) (sym e) (inr (p, free_self, area_self, prev_self))
      | inr other ↦ let ne : l ≢ k = ground arith in area-AreaLinked l ne (heap.area l up)
    ];
  }

  -- The free pages are those of the block and those that were free.
  pub buddy_list_add-Covered : (x : ℕ) → Covered s' x ↔ (Covered s x ⊎ Within p k x)
  buddy_list_add-Covered x = (
    (λ (q, l, f, w). elim (free-cases q l f) [
      | inl (e, o) ↦ inr (subst₂ (λ (a b : ℕ). Within a b x) e o w)
      | inr (ne, g) ↦ inl (q, l, g, w)
    ]),
    (λ c. elim c [ inl (q, l, g, w) ↦ (q, l, free_else q l g, w) | inr w ↦ (p, k, free_self, w) ]),
  )
