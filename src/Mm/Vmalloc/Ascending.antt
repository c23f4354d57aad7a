-- ===== src/Mm/Vmalloc/Ascending.antt =====
-- The regions of `vmalloc` do not overlap.
use pointer_os.Base.{
  ℕ, ◌+◌, ◌^◌, ◌≤◌, ◌<◌, ◌≡◌, refl, sym, ◌≢◌, true, some, List, [], ◌∷◌, ◌++◌, arith, length, add64,
}
use pointer_os.Links.Member.{
  ◌∉◌, first_or, last_or, notin_left, notin_right, ne-first_or, ne-last_or,
}
use mathlib.Core.Path.{subst}
use pointer_os.Mm.Region.{Region, Regions}
use pointer_os.Mm.Region.Place.{IsList}
use pointer_os.Mm.Region.Insert.{Added, add_to_list-Added}
use pointer_os.Mm.Region.Ordered.{Ordered, Ordered-insert}
use pointer_os.Mm.Vmalloc.{vmalloc_start, region_end, fits_below, vm_add_to_list}

-- Each region ends at most where the next one starts.
abbrev pub EndsBelow : ℕ → ℕ → ℕ → ℕ → Type 0
EndsBelow b z b' z' = b + z ≤ b'

abbrev pub Ascending : (ℕ → Region) → List ℕ → Type 0
Ascending = Ordered EndsBelow

-- Behind each region of the list a region of the given size ends below 2^64.
abbrev pub Room : (ℕ → Region) → ℕ → List ℕ → Type 0
Room f size [] = Unit {0}
Room f size (x ∷ xs) = ((f x).base + (f x).size + size < 2 ^ 64) × Room f size xs

-- `VMALLOC_START`, or the end of the last of the regions before.
abbrev pub start_behind : (ℕ → Region) → List ℕ → ℕ
start_behind f [] = vmalloc_start
start_behind f (x ∷ us) = (f (last_or x us)).base + (f (last_or x us)).size

Room-at_last :
    (f : ℕ → Region) (size x : ℕ) (us ws : List ℕ)
    → Room f size (x ∷ us ++ ws)
    → (f (last_or x us)).base + (f (last_or x us)).size + size < 2 ^ 64
Room-at_last f size x [] ws (h, r) = h
Room-at_last f size x (u ∷ us) ws (h, r) = Room-at_last f size u us ws r

module _ (s s' : Regions) (i : ℕ) (live : i ≢ 0) where
  base_of_Added :
      (x : ℕ) (us ws : List ℕ)
      → Room s.node (s.node i).size (x ∷ us ++ ws)
      → Added vmalloc_start region_end fits_below s s' i (x ∷ us) ws
      → (s'.node i).base ≡ (s.node (last_or x us)).base + (s.node (last_or x us)).size
  base_of_Added x us ws room a =
      let r = Room-at_last s.node (s.node i).size x us ws room in
      let e = a.behind_last (λ q. cc) in omega arith

  ends_below_next :
      (x : ℕ) (us ws : List ℕ)
      → ws ≢ []
      → i ∉ (us ++ ws)
      → (s.node (last_or x us)).base + (s.node (last_or x us)).size + (s.node i).size < 2 ^ 64
      → (s'.node i).base ≡ (s.node (last_or x us)).base + (s.node (last_or x us)).size
      → Added vmalloc_start region_end fits_below s s' i (x ∷ us) ws
      → (s'.node i).base + (s'.node i).size ≤ (s'.node (first_or ws 0)).base
  ends_below_next x us ws some_right out r e a =
      let next = first_or ws 0 in
      let next_ne : next ≢ i = λ q. ne-first_or i ws 0 (notin_right i us ws out) live (sym q) in
      let room : fits_below (s.node (last_or x us)).base (s.node (last_or x us)).size
            (s.node i).size (s.node next).base
          ≡ true =
        a.gap (λ q. cc) some_right in
      let below : add64 (add64 (s.node (last_or x us)).base (s.node (last_or x us)).size)
            (s.node i).size
          ≤ (s.node next).base =
        ground arith in
      omega (arith, a.base_old next next_ne, a.size_same i)

  behind_of_Added :
      (us ws : List ℕ)
      → Room s.node (s.node i).size (us ++ ws)
      → Added vmalloc_start region_end fits_below s s' i us ws
      → (s'.node i).base ≡ start_behind s.node us
  behind_of_Added [] ws room a = (a.first refl).0
  behind_of_Added (x ∷ us) ws room a = base_of_Added x us ws room a

  Ascending-of_Added :
      (us ws : List ℕ)
      → i ∉ (us ++ ws)
      → Ascending s.node (us ++ ws)
      → Room s.node (s.node i).size (us ++ ws)
      → Added vmalloc_start region_end fits_below s s' i us ws
      → Ascending s'.node (us ++ i ∷ ws)
  Ascending-of_Added [] ws out order room a = rw (a.first refl).1 tt
  Ascending-of_Added (x ∷ us) ws out order room a =
      let last = last_or x us in
      let r = Room-at_last s.node (s.node i).size x us ws room in
      let e = base_of_Added x us ws room a in
      let last_ne : last ≢ i = λ q. ne-last_or i x us out.0 (notin_left i us ws out.1) (sym q) in
      Ordered-insert EndsBelow s.node s'.node i a.base_old a.size_same x us ws out
        (omega (arith, a.base_old last last_ne, a.size_same last))
        (λ some_right. ends_below_next x us ws some_right out.1 r e a) order

-- A new region is put into the list with its regions in ascending order and apart, if the address
-- space has room: the order is kept, the new region starts at `VMALLOC_START` or where the region
-- before it ends, and no other region moves.
pub vm_add_to_list-Ascending :
    (fuel : ℕ) (s : Regions) (i : ℕ) (xs : List ℕ)
    → length xs < fuel
    → i ≢ 0
    → i ∉ xs
    → IsList s xs
    → Ascending s.node xs
    → Room s.node (s.node i).size xs
    → (us ws : List ℕ) × (s' : Regions) × (xs ≡ us ++ ws)
      × (vm_add_to_list fuel s i ≡ some s')
      × IsList s' (us ++ i ∷ ws)
      × Ascending s'.node (us ++ i ∷ ws)
      × ((s'.node i).base ≡ start_behind s.node us)
      × ((c : ℕ)
          → c ≢ i
          → ((s'.node c).base ≡ (s.node c).base) × ((s'.node c).size ≡ (s.node c).size))
unfolding vm_add_to_list
vm_add_to_list-Ascending fuel s i xs h live out list order room =
    let (us, ws, s', split, run, a) =
      add_to_list-Added vmalloc_start region_end fits_below fuel s i xs h live out list in
    (
      us,
      ws,
      s',
      split,
      run,
      a.list,
      Ascending-of_Added s s' i live us ws (subst (λ l. i ∉ l) split out)
          (subst (Ascending s.node) split order) (subst (Room s.node (s.node i).size) split room) a,
      behind_of_Added s s' i live us ws (subst (Room s.node (s.node i).size) split room) a,
      (λ c ne. (a.base_old c ne, a.size_same c)),
    )
