-- ===== src/Links/Chain.antt =====
-- The pointers that join the addresses `x ∷ ys` to a closing address `z`: `x` and `z` are 0 for a
-- null-terminated list, and both the head for a ring.
use pointer_os.Base.{ℕ, ◌≡◌, sym, ◌∙◌, ◌≢◌, List, [], ◌∷◌, ◌++◌}
use pointer_os.Links.Member.{◌∉◌, first_or, last_or}

module _ (nx pv : ℕ → ℕ) where
  -- `b` follows `a`.
  abbrev pub Adjacent : ℕ → ℕ → Type 0
  Adjacent a b = (a ≢ 0 → nx a ≡ b) × (b ≢ 0 → pv b ≡ a)

  abbrev pub Chain : ℕ → List ℕ → ℕ → Type 0
  Chain x [] z = Adjacent x z
  Chain x (y ∷ ys) z = Adjacent x y × Chain y ys z

  pub Chain-snoc :
      (x : ℕ) (ys : List ℕ) (t z : ℕ) → Chain x ys t → Adjacent t z → Chain x (ys ++ t ∷ []) z
  Chain-snoc x [] t z h k = (h, k)
  Chain-snoc x (y ∷ ys) t z (e, h) k = (e, Chain-snoc y ys t z h k)

  -- The neighbours of an address in the chain.
  pub Chain-neighbours :
      (x : ℕ) (us : List ℕ) (t : ℕ) (vs : List ℕ) (z : ℕ)
      → t ≢ 0
      → Chain x (us ++ t ∷ vs) z
      → (pv t ≡ last_or x us) × (nx t ≡ first_or vs z)
  Chain-neighbours x [] t [] z ne (e, f) = (e.1 ne, f.0 ne)
  Chain-neighbours x [] t (v ∷ vs) z ne (e, h) = (e.1 ne, h.0.0 ne)
  Chain-neighbours x (u ∷ us) t vs z ne (e, h) = Chain-neighbours u us t vs z ne h

  -- The two ends of a chain.
  pub Chain-ends :
      (x : ℕ) (ys : List ℕ) (z : ℕ)
      → Chain x ys z
      → (x ≢ 0 → nx x ≡ first_or ys z) × (z ≢ 0 → pv z ≡ last_or x ys)
  Chain-ends x [] z e = e
  Chain-ends x (y ∷ ys) z (e, h) = (e.0, (Chain-ends y ys z h).1)

-- New pointers that differ from the old ones in `next` at `a` and `t`, and in `prev` at `b` and `t`.
module _ (nx pv nx' pv' : ℕ → ℕ) (a t b : ℕ) where
  pub Chain-frame :
      ((c : ℕ) → c ≢ 0 → c ≢ t → c ≢ a → nx' c ≡ nx c)
      → ((c : ℕ) → c ≢ 0 → c ≢ t → c ≢ b → pv' c ≡ pv c)
      → (x : ℕ) (ys : List ℕ) (z : ℕ) → a ≢ x
      → a ∉ ys
      → t ≢ x
      → t ∉ ys
      → t ≢ z
      → b ∉ ys
      → b ≢ z
      → Chain nx pv x ys z
      → Chain nx' pv' x ys z
  Chain-frame N P x [] z ax ay tx ty tz by bz (e, f) = (
    (λ ne. N x ne (λ q. tx (sym q)) (λ q. ax (sym q)) ∙ e ne),
    (λ ne. P z ne (λ q. tz (sym q)) (λ q. bz (sym q)) ∙ f ne),
  )
  Chain-frame N P x (y ∷ ys) z ax (ay, ays) tx (ty, tys) tz (by, bys) bz ((e, f), h) = (
    (
      (λ ne. N x ne (λ q. tx (sym q)) (λ q. ax (sym q)) ∙ e ne),
      (λ ne. P y ne (λ q. ty (sym q)) (λ q. by (sym q)) ∙ f ne),
    ),
    Chain-frame N P y ys z ay ays ty tys tz bys bz h,
  )

module _ (nx pv : ℕ → ℕ) where
  pub Chain-split :
      (x : ℕ) (us : List ℕ) (t : ℕ) (vs : List ℕ) (z : ℕ)
      → Chain nx pv x (us ++ t ∷ vs) z
      → Chain nx pv x us t × Chain nx pv t vs z
  Chain-split x [] t vs z (e, h) = (e, h)
  Chain-split x (u ∷ us) t vs z (e, h) =
      let (front, back) = Chain-split u us t vs z h in ((e, front), back)

  pub Chain-append :
      (x : ℕ) (us : List ℕ) (t : ℕ) (vs : List ℕ) (z : ℕ)
      → Chain nx pv x us t
      → Chain nx pv t vs z
      → Chain nx pv x (us ++ t ∷ vs) z
  Chain-append x [] t vs z e h = (e, h)
  Chain-append x (u ∷ us) t vs z (e, front) h = (e, Chain-append u us t vs z front h)

  -- A ring can be read from any of its addresses.
  pub Chain-turn :
      (x : ℕ) (us : List ℕ) (t : ℕ) (vs : List ℕ)
      → Chain nx pv x (us ++ t ∷ vs) x
      → Chain nx pv t (vs ++ x ∷ us) t
  Chain-turn x us t vs h =
      let (front, back) = Chain-split x us t vs x h in Chain-append t vs x us t back front

-- A chain depends on the pointers only.
pub Chain-cong :
    (nx pv nx' pv' : ℕ → ℕ) (x : ℕ) (ys : List ℕ) (z : ℕ)
    → ((c : ℕ) → nx' c ≡ nx c)
    → ((c : ℕ) → pv' c ≡ pv c)
    → Chain nx pv x ys z
    → Chain nx' pv' x ys z
Chain-cong nx pv nx' pv' x [] z N P (e, f) = ((λ h. N x ∙ e h), (λ h. P z ∙ f h))
Chain-cong nx pv nx' pv' x (y ∷ ys) z N P ((e, f), h) =
    (((λ h. N x ∙ e h), (λ h. P y ∙ f h)), Chain-cong nx pv nx' pv' y ys z N P h)
