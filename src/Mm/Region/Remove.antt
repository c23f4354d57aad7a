-- ===== src/Mm/Region/Remove.antt =====
-- `vm_remove_from_list` and `us_remove_from_list`: the list without a region.
use pointer_os.Base.{ℕ, ◌≡◌, sym, ◌≢◌, List, [], ◌∷◌, ◌++◌, arith, ◌==◌, if◌then◌else◌}
use pointer_os.Links.Member.{first_or, notin_middle, notin_drop, Distinct-drop}
use pointer_os.Links.Chain.{Chain-neighbours}
use pointer_os.Links.Unlink.{Chain-unlink}
use pointer_os.Mm.Region.{Regions, remove_from_list}
use pointer_os.Mm.Region.Place.{next_of, prev_of, IsList}

module _ (s : Regions) (i : ℕ) (live : i ≢ 0) where
  next-removed :
      (c : ℕ)
      → c ≢ 0
      → c ≢ i
      → next_of (remove_from_list s i).node c
        ≡ (if c == prev_of s.node i then next_of s.node i else next_of s.node c)
  unfolding remove_from_list
  next-removed c h ne = ground arith

  prev-removed :
      (c : ℕ)
      → c ≢ 0
      → c ≢ i
      → prev_of (remove_from_list s i).node c
        ≡ (if c == next_of s.node i then prev_of s.node i else prev_of s.node c)
  unfolding remove_from_list
  prev-removed c h ne = ground arith

  head-removed : (remove_from_list s i).head ≡ (if s.head == i then next_of s.node i else s.head)
  unfolding remove_from_list
  head-removed = ground arith

remove_same :
    (s : Regions) (i c : ℕ)
    → (((remove_from_list s i).node c).base ≡ (s.node c).base)
      × (((remove_from_list s i).node c).size ≡ (s.node c).size)
unfolding remove_from_list
remove_same s i c = ground arith

-- The head after the removal is the first region that is left.
head_left :
    (s : Regions) (us : List ℕ) (i : ℕ) (ws : List ℕ)
    → i ≢ 0
    → IsList s (us ++ i ∷ ws)
    → (remove_from_list s i).head ≡ first_or (us ++ ws) 0
head_left s [] i ws live (e, d, o, ch) =
    ground (arith, head-removed s i live, (Chain-neighbours _ _ 0 [] i ws 0 live ch).1)
head_left s (u ∷ us) i ws live (e, (uus, d), o, ch) =
    ground (arith, head-removed s i live, notin_middle u us i ws uus)

-- A region is taken out of the list wherever it stands, the others keep their order, and no region
-- changes its base or its size.
pub remove_from_list-IsList :
    (s : Regions) (us : List ℕ) (i : ℕ) (ws : List ℕ)
    → IsList s (us ++ i ∷ ws)
    → IsList (remove_from_list s i) (us ++ ws)
      × ((c : ℕ)
          → (((remove_from_list s i).node c).base ≡ (s.node c).base)
            × (((remove_from_list s i).node c).size ≡ (s.node c).size))
remove_from_list-IsList s us i ws (e, d, o, ch) =
    let live : i ≢ 0 = λ q. notin_middle 0 us i ws o (sym q) in
    (
      (
        head_left s us i ws live (e, d, o, ch),
        Distinct-drop us i ws d,
        notin_drop 0 us i ws o,
        Chain-unlink _ _ _ _ i live (next-removed s i live) (prev-removed s i live) 0 us ws 0 d o o
            ch,
      ),
      remove_same s i,
    )
