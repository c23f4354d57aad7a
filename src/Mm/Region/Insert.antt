-- ===== src/Mm/Region/Insert.antt =====
-- `vm_add_to_list` and `us_add_to_list`: the list with the new region in it.
use pointer_os.Base.{
  ℕ, zero, suc, ◌<◌, ◌≡◌, refl, sym, ap, ◌≢◌, inl, inr, Bool, true, false, Option, some, List, [],
  ◌∷◌, ◌++◌, arith, ◌==◌, Bool-cases, length,
}
use pointer_os.Links.Member.{◌∉◌, Distinct, first_or, last_or, notin_insert, Distinct-insert}
use pointer_os.Links.Chain.{Chain, Chain-ends}
use pointer_os.Links.Insert.{Chain-insert}
use mathlib.Core.Path.{subst}
use pointer_os.Mm.Region.{
  Region, Regions, set_next, set_prev, set_base, put_between, put_last, add_from, add_to_list,
}
use pointer_os.Mm.Region.Place.{
  next_of, prev_of, IsList, Placed, put_last-Placed, put_between-Placed,
}

module _ (start : ℕ) (behind : ℕ → ℕ → ℕ) (has_gap : ℕ → ℕ → ℕ → ℕ → Bool) where
  -- There is room for the region `i` between `a` and `b`.
  abbrev pub Gap : (ℕ → Region) → ℕ → ℕ → ℕ → Type 0
  Gap f a i b = has_gap (f a).base (f a).size (f i).size (f b).base ≡ true

  -- What the walk from `cur` over `vs` has done at its end.
  record Walked (f : ℕ → Region) (i cur : ℕ) (vs : List ℕ) (o : Option (ℕ → Region)) : Type 0 where
    us : List ℕ
    ws : List ℕ
    g : ℕ → Region
    split : vs ≡ us ++ ws
    result : o ≡ some g
    placed : Placed start behind has_gap f g (last_or cur us) i (first_or ws 0)
    gap : ws ≢ [] → Gap f (last_or cur us) i (first_or ws 0)

  add_from-Walked :
      (fuel : ℕ) (f : ℕ → Region) (i cur : ℕ) (vs : List ℕ)
      → length vs < fuel
      → cur ≢ i
      → i ∉ vs
      → 0 ∉ vs
      → Chain (next_of f) (prev_of f) cur vs 0
      → Walked f i cur vs (add_from start behind has_gap fuel f i cur (first_or vs 0))
  unfolding add_from
  add_from-Walked zero f i cur vs h ci out o ch = elim h [ ]
  add_from-Walked (suc fuel) f i cur [] h ci out o ch = record {
    us = [];
    ws = [];
    g = put_last start behind has_gap f i cur;
    split = refl;
    result = refl;
    placed = put_last-Placed start behind has_gap f i cur ci;
    gap = λ ne. absurd (ne refl);
  }
  add_from-Walked (suc fuel) f i cur (v ∷ vs) h ci (iv, out) (ov, o) (a, ch) =
      let live : v ≢ 0 = λ q. ov (sym q) in
      let more : (v == 0) ≡ false = ground arith in
      elim (Bool-cases (has_gap (f cur).base (f cur).size (f i).size (f v).base)) [
        | inl room ↦ record {
          us = [];
          ws = v ∷ vs;
          g = put_between start behind has_gap f i cur v;
          split = refl;
          result = rw (more, room);
          placed = put_between-Placed start behind has_gap f i cur v ci (λ q. iv (sym q));
          gap = λ ne. room;
        }
        | inr full ↦
            let onward : next_of f v ≡ first_or vs 0 = (Chain-ends _ _ v vs 0 ch).0 live in
            let w = add_from-Walked fuel f i v vs (omega arith) (λ q. iv (sym q)) out o ch in
            record {
              us = v ∷ w.us;
              ws = w.ws;
              g = w.g;
              split = ap (λ l. v ∷ l) w.split;
              result = rw (more, full, onward) w.result;
              placed = w.placed;
              gap = w.gap;
            }
      ]

  -- The region `i` was put into the list between `us` and `ws`, and no other region moved.
  pub record Added (s s' : Regions) (i : ℕ) (us ws : List ℕ) : Type 0 where
    pub list : IsList s' (us ++ i ∷ ws)
    pub first : us ≡ [] → ((s'.node i).base ≡ start) × (ws ≡ [])
    pub behind_last :
        us ≢ []
        → (s'.node i).base ≡ behind (s.node (last_or 0 us)).base (s.node (last_or 0 us)).size
    pub gap : us ≢ [] → ws ≢ [] → Gap s.node (last_or 0 us) i (first_or ws 0)
    pub base_old : (c : ℕ) → c ≢ i → (s'.node c).base ≡ (s.node c).base
    pub size_same : (c : ℕ) → (s'.node c).size ≡ (s.node c).size

  Added-of_Walked :
      (s : Regions) (i x : ℕ) (xs : List ℕ)
      → s.head ≡ x
      → Distinct (x ∷ xs) × 0 ∉ (x ∷ xs) × Chain (next_of s.node) (prev_of s.node) 0 (x ∷ xs) 0
      → i ≢ 0
      → i ∉ (x ∷ xs)
      → {o : Option (ℕ → Region)} (w : Walked s.node i x xs o)
      → Added s (record s { node = w.g }) i (x ∷ w.us) w.ws
  Added-of_Walked s i x xs e (d, o, ch) live out w =
      let split : x ∷ xs ≡ x ∷ w.us ++ w.ws = ap (λ l. x ∷ l) w.split in
      let d' = subst Distinct split d in
      let o' = subst (λ l. 0 ∉ l) split o in
      let out' = subst (λ l. i ∉ l) split out in
      let ch' = subst (λ l. Chain (next_of s.node) (prev_of s.node) 0 l 0) split ch in
      record {
        list = (
          e,
          Distinct-insert (x ∷ w.us) i w.ws d' out',
          notin_insert 0 (x ∷ w.us) i w.ws (λ q. live (sym q)) o',
          Chain-insert _ _ _ _ (last_or x w.us) i (first_or w.ws 0) w.placed.next_all
              w.placed.prev_all 0 (x ∷ w.us) w.ws 0 refl refl d' o' o' live live out' ch',
        );
        first = λ q. cc;
        behind_last = λ ne. w.placed.base_new;
        gap = λ ne some_right. w.gap some_right;
        base_old = w.placed.base_old;
        size_same = w.placed.size_same;
      }

  -- With more fuel than the list has regions, a region that is not in the list is put into it:
  -- first in an empty list; else behind the first region that has a gap behind it, or the last.
  pub add_to_list-Added :
      (fuel : ℕ) (s : Regions) (i : ℕ) (xs : List ℕ)
      → length xs < fuel
      → i ≢ 0
      → i ∉ xs
      → IsList s xs
      → (us ws : List ℕ) × (s' : Regions) × (xs ≡ us ++ ws)
        × (add_to_list start behind has_gap fuel s i ≡ some s')
        × Added s s' i us ws
  unfolding add_to_list
  add_to_list-Added fuel s i [] h live out (e, d, o, ch) =
      let s' : Regions = record {
        node = set_next (set_prev (set_base s.node i start) i 0) i 0;
        head = i;
      } in
      (
        [],
        [],
        s',
        refl,
        rw e,
        record {
          list = (
            refl,
            (tt, tt),
            ((λ q. live (sym q)), tt),
            (
              ((λ h. absurd (h refl)), (λ h. ground arith)),
              ((λ h. ground arith), (λ h. absurd (h refl))),
            ),
          );
          first = λ q. (ground arith, refl);
          behind_last = λ ne. absurd (ne refl);
          gap = λ ne. absurd (ne refl);
          base_old = λ c ne. ground arith;
          size_same = λ c. ground arith;
        },
      )
  add_to_list-Added fuel s i (x ∷ xs) h live (ix, out) (e, (xxs, d), (ox, o), (a, ch)) =
      let head_live : x ≢ 0 = λ q. ox (sym q) in
      let some_head : (s.head == 0) ≡ false = ground arith in
      let onward : next_of s.node x ≡ first_or xs 0 = (Chain-ends _ _ x xs 0 ch).0 head_live in
      let w = add_from-Walked fuel s.node i x xs (omega arith) (λ q. ix (sym q)) out o ch in
      let walk : add_from start behind has_gap fuel s.node i s.head (s.node s.head).next
          ≡ some w.g =
        rw (e, onward) w.result in
      (
        x ∷ w.us,
        w.ws,
        record s { node = w.g },
        ap (λ l. x ∷ l) w.split,
        rw (some_head, walk),
        Added-of_Walked s i x xs e ((xxs, d), (ox, o), (a, ch)) live (ix, out) w,
      )
