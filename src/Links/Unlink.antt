-- ===== src/Links/Unlink.antt =====
-- Taking an address out of a chain.
use pointer_os.Base.{ℕ, ◌≡◌, sym, ◌∙◌, ◌≢◌, List, [], ◌∷◌, ◌++◌, arith, ◌==◌, if◌then◌else◌}
use pointer_os.Links.Member.{
  ◌∉◌, Distinct, notin_left, notin_right, notin_middle, ne-first_or, ne-last_or,
}
use pointer_os.Links.Chain.{Adjacent, Chain, Chain-frame, Chain-neighbours}

module _ (nx pv nx' pv' : ℕ → ℕ) (t : ℕ) (live : t ≢ 0)
    (N : (c : ℕ) → c ≢ 0 → c ≢ t → nx' c ≡ (if c == pv t then nx t else nx c))
    (P : (c : ℕ) → c ≢ 0 → c ≢ t → pv' c ≡ (if c == nx t then pv t else pv c)) where
  N_far : (c : ℕ) → c ≢ 0 → c ≢ t → c ≢ pv t → nx' c ≡ nx c
  N_far c h k ne = ground (arith, N c h k)

  P_far : (c : ℕ) → c ≢ 0 → c ≢ t → c ≢ nx t → pv' c ≡ pv c
  P_far c h k ne = ground (arith, P c h k)

  joined : (x y : ℕ) → x ≢ t → y ≢ t → pv t ≡ x → nx t ≡ y → Adjacent nx' pv' x y
  joined x y xt yt px ny = ((λ h. ground (arith, N x h xt)), (λ h. ground (arith, P y h yt)))

  -- Two neighbours elsewhere stay neighbours.
  kept : (x y : ℕ) → x ≢ t → y ≢ t → x ≢ pv t → y ≢ nx t → Adjacent nx pv x y → Adjacent nx' pv' x y
  kept x y xt yt xa yb (e, f) = ((λ h. N_far x h xt xa ∙ e h), (λ h. P_far y h yt yb ∙ f h))

  pub Chain-unlink :
      (x : ℕ) (us vs : List ℕ) (z : ℕ)
      → Distinct (us ++ t ∷ vs)
      → x ∉ (us ++ t ∷ vs)
      → z ∉ (us ++ t ∷ vs)
      → Chain nx pv x (us ++ t ∷ vs) z
      → Chain nx' pv' x (us ++ vs) z
  Chain-unlink x [] [] z d (xt, _) (zt, _) (e, f) = joined x z xt zt (e.1 live) (f.0 live)
  Chain-unlink x [] (v ∷ vs) z ((tv, tvs), (vvs, d)) (xt, (xv, xvs)) (zt, (zv, zvs)) (e, (f, h)) =
      let px : pv t ≡ x = e.1 live in
      let ny : nx t ≡ v = f.0 live in
      (
        joined x v xt (λ q. tv (sym q)) px ny,
        Chain-frame nx pv nx' pv' (pv t) t (nx t) N_far P_far v vs z (rw px xv) (rw px xvs) tv tvs
            (λ q. zt (sym q)) (rw ny vvs) (rw ny (λ q. zv (sym q))) h,
      )
  Chain-unlink x (u ∷ us) vs z (du, d) (xu, xs) (zu, zs) (e, h) =
      let (pt, nt) = Chain-neighbours nx pv u us t vs z live h in
      let ut = notin_middle u us t vs du in
      (
        kept x u (notin_middle x us t vs xs) ut
            (rw pt (ne-last_or x u us xu (notin_left x us (t ∷ vs) xs)))
            (rw nt (ne-first_or u vs z (notin_right u us (t ∷ vs) du).1 (λ q. zu (sym q)))) e,
        Chain-unlink u us vs z d du zs h,
      )
