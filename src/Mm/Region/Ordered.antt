-- ===== src/Mm/Region/Ordered.antt =====
-- Regions in an order of their addresses, with a new one put between two neighbours.
use pointer_os.Base.{ℕ, ◌≡◌, sym, ◌≢◌, List, [], ◌∷◌, ◌++◌}
use pointer_os.Links.Member.{◌∉◌, first_or, last_or}
use pointer_os.Mm.Region.{Region}

-- `R b z b' z'`: the region at `b` of size `z` may stand before the one at `b'` of size `z'`.
module _ (R : ℕ → ℕ → ℕ → ℕ → Type 0) where
  abbrev pub Before : (ℕ → Region) → ℕ → ℕ → Type 0
  Before f x y = R (f x).base (f x).size (f y).base (f y).size

  abbrev pub Ordered : (ℕ → Region) → List ℕ → Type 0
  Ordered f [] = Unit {0}
  Ordered f (x ∷ []) = Unit {0}
  Ordered f (x ∷ y ∷ r) = Before f x y × Ordered f (y ∷ r)

  module _ (f g : ℕ → Region) (i : ℕ) (base_old : (c : ℕ) → c ≢ i → (g c).base ≡ (f c).base)
      (size_same : (c : ℕ) → (g c).size ≡ (f c).size) where
    Before-same : (x y : ℕ) → i ≢ x → i ≢ y → Before f x y → Before g x y
    Before-same x y ix iy h =
        rw (base_old x (λ q. ix (sym q)), base_old y (λ q. iy (sym q)), size_same x, size_same y) h

    Ordered-same : (xs : List ℕ) → i ∉ xs → Ordered f xs → Ordered g xs
    Ordered-same [] out h = tt
    Ordered-same (x ∷ []) out h = tt
    Ordered-same (x ∷ y ∷ r) (ix, (iy, out)) (h, rest) =
        (Before-same x y ix iy h, Ordered-same (y ∷ r) (iy, out) rest)

    pub Ordered-insert :
        (x : ℕ) (us ws : List ℕ)
        → i ∉ (x ∷ us ++ ws)
        → Before g (last_or x us) i
        → (ws ≢ [] → Before g i (first_or ws 0))
        → Ordered f (x ∷ us ++ ws)
        → Ordered g (x ∷ us ++ i ∷ ws)
    Ordered-insert x [] [] out left right h = (left, tt)
    Ordered-insert x [] (w ∷ ws) (ix, out) left right (h, rest) =
        (left, (right (λ q. cc), Ordered-same (w ∷ ws) out rest))
    Ordered-insert x (u ∷ us) ws (ix, (iu, out)) left right (h, rest) =
        (Before-same x u ix iu h, Ordered-insert u us ws (iu, out) left right rest)
