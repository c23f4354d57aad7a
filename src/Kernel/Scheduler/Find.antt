-- ===== src/Kernel/Scheduler/Find.antt =====
-- The search goes once round the ring and finds the first runnable thread.
use pointer_os.Base.{
  ℕ, zero, suc, ◌≤◌, ◌<◌, ◌≡◌, refl, sym, ◌≢◌, inl, inr, true, Option, none, some, List, [], ◌∷◌,
  ◌++◌, arith, if◌then◌else◌, Bool-cases, length, length-append,
}
use pointer_os.Links.Member.{◌∉◌, Distinct, notin-append}
use pointer_os.Links.Chain.{Chain, Chain-snoc}
use pointer_os.Kernel.Thread.{Thread}
use pointer_os.Kernel.Thread.Ring.{next_of, prev_of, IsRing}
use pointer_os.Kernel.Scheduler.{Search, found, came_back, is_runnable, find_runnable}

unfoldable pub first_runnable : (ℕ → Thread) → List ℕ → Option ℕ
first_runnable f [] = none
first_runnable f (x ∷ xs) = if is_runnable (f x).state then some x else first_runnable f xs

abbrev pub as_search : Option ℕ → Search
as_search none = came_back
as_search (some q) = found q

pub find_runnable-first_runnable :
    (f : ℕ → Thread) (fuel p : ℕ) (qs : List ℕ) (start : ℕ)
    → length qs < fuel
    → p ≢ 0
    → 0 ∉ qs
    → start ∉ qs
    → Chain (next_of f) (prev_of f) p qs start
    → find_runnable fuel f p start ≡ as_search (first_runnable f (p ∷ qs))
unfolding find_runnable first_runnable
find_runnable-first_runnable f zero p qs start h live zqs sqs ch = elim h [ ]
find_runnable-first_runnable f (suc fuel) p [] start h live zqs sqs (e, _) = ground (arith, e live)
find_runnable-first_runnable f (suc fuel) p (q ∷ qs) start h live (zq, zqs) (sq, sqs) (e, ch) =
    ground (
      arith,
      e.0 live,
      find_runnable-first_runnable f fuel q qs start (omega arith) (λ r. zq (sym r)) zqs sqs ch,
    )

pub first_runnable-cong :
    (f g : ℕ → Thread) (xs : List ℕ)
    → ((c : ℕ) → is_runnable (g c).state ≡ is_runnable (f c).state)
    → first_runnable g xs ≡ first_runnable f xs
unfolding first_runnable
first_runnable-cong f g [] h = refl
first_runnable-cong f g (x ∷ xs) h = ground (arith, h x, first_runnable-cong f g xs h)

-- A list that ends in a runnable thread has a first one.
pub first_runnable_total :
    (f : ℕ → Thread) (xs : List ℕ) (t : ℕ)
    → is_runnable (f t).state ≡ true
    → (q : ℕ) × (first_runnable f (xs ++ t ∷ []) ≡ some q)
unfolding first_runnable
first_runnable_total f [] t h = (t, rw h)
first_runnable_total f (x ∷ xs) t h = elim (Bool-cases (is_runnable (f x).state)) [
  | inl now ↦ (x, rw now)
  | inr later ↦ let (q, e) = first_runnable_total f xs t h in (q, rw later e)
]

pub first_runnable-ne :
    (f : ℕ → Thread) (xs : List ℕ) (t q : ℕ) → t ∉ xs → first_runnable f xs ≡ some q → q ≢ t
unfolding first_runnable
first_runnable-ne f [] t q out e = cc
first_runnable-ne f (x ∷ xs) t q (tx, out) e = elim (Bool-cases (is_runnable (f x).state)) [
  | inl now ↦ let e' : some x ≡ some q = rw now at e in λ r. tx (cc)
  | inr later ↦
      let e' : first_runnable f xs ≡ some q = rw later at e in first_runnable-ne f xs t q out e'
]

-- The search from the thread behind `cur` looks at `cur` last.
pub find_behind :
    (f : ℕ → Thread) (fuel cur : ℕ) (xs : List ℕ)
    → cur ≢ 0
    → cur ∉ xs
    → 0 ∉ xs
    → Distinct xs
    → Chain (next_of f) (prev_of f) cur xs cur
    → xs ≢ []
    → length xs < fuel
    → (next_of f cur ≢ 0)
      × (find_runnable fuel f (next_of f cur) (next_of f cur)
          ≡ as_search (first_runnable f (xs ++ cur ∷ [])))
find_behind f fuel cur [] live out zero_out d ch some_other enough = absurd (some_other refl)
find_behind f fuel cur (w ∷ ws) live (cw, cws) (zw, zws) (wws, d) (a, ch) some_other enough =
    let e : next_of f cur ≡ w = a.0 live in
    rw e (
      (λ q. zw (sym q)),
      find_runnable-first_runnable f fuel w (ws ++ cur ∷ []) w
          (omega (arith, length-append {0} ws (cur ∷ []))) (λ q. zw (sym q))
          (notin-append 0 ws (cur ∷ []) zws ((λ q. live (sym q)), tt))
          (notin-append w ws (cur ∷ []) wws ((λ q. cw (sym q)), tt))
          (Chain-snoc _ _ w ws cur w ch a),
    )

-- The search from the head of a ring looks at the whole ring in order.
pub find_on_ring :
    (f : ℕ → Thread) (fuel head : ℕ) (xs : List ℕ)
    → IsRing f head xs
    → xs ≢ []
    → length xs ≤ fuel
    → (head ≢ 0) × (find_runnable fuel f head head ≡ as_search (first_runnable f xs))
find_on_ring f fuel head [] r some_thread enough = absurd (some_thread refl)
find_on_ring f fuel head (x ∷ xs) (e, (xxs, d), (ox, o), ch) some_thread enough = rw e (
  (λ q. ox (sym q)),
  find_runnable-first_runnable f fuel x xs x enough (λ q. ox (sym q)) o xxs ch,
)
