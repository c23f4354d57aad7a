-- ===== src/Links/Insert.antt =====
-- Putting an address into a chain, between two neighbours.
use pointer_os.Base.{ℕ, ◌≡◌, sym, ◌∙◌, ◌≢◌, List, [], ◌∷◌, ◌++◌, arith, ◌==◌, if◌then◌else◌}
use mathlib.Core.Path.{subst}
use pointer_os.Links.Member.{
  ◌∉◌, Distinct, first_or, last_or, notin_left, notin_right, ne-first_or, ne-last_or,
}
use pointer_os.Links.Chain.{Adjacent, Chain, Chain-frame}

-- `t` goes between `a` and `b`.
module _ (nx pv nx' pv' : ℕ → ℕ) (a t b : ℕ)
    (N : (c : ℕ) → c ≢ 0 → nx' c ≡ (if c == t then b else if c == a then t else nx c))
    (P : (c : ℕ) → c ≢ 0 → pv' c ≡ (if c == t then a else if c == b then t else pv c)) where
  N_far : (c : ℕ) → c ≢ 0 → c ≢ t → c ≢ a → nx' c ≡ nx c
  N_far c h k ne = ground (arith, N c h)

  P_far : (c : ℕ) → c ≢ 0 → c ≢ t → c ≢ b → pv' c ≡ pv c
  P_far c h k ne = ground (arith, P c h)

  left : a ≢ t → Adjacent nx' pv' a t
  left at = ((λ h. ground (arith, N a h)), (λ h. ground (arith, P t h)))

  right : b ≢ t → Adjacent nx' pv' t b
  right bt = ((λ h. ground (arith, N t h)), (λ h. ground (arith, P b h)))

  kept : (x y : ℕ) → x ≢ t → y ≢ t → x ≢ a → y ≢ b → Adjacent nx pv x y → Adjacent nx' pv' x y
  kept x y xt yt xa yb (e, f) = ((λ h. N_far x h xt xa ∙ e h), (λ h. P_far y h yt yb ∙ f h))

  pub Chain-insert :
      (x : ℕ) (us vs : List ℕ) (z : ℕ)
      → a ≡ last_or x us
      → b ≡ first_or vs z
      → Distinct (us ++ vs)
      → x ∉ (us ++ vs)
      → z ∉ (us ++ vs)
      → t ≢ x
      → t ≢ z
      → t ∉ (us ++ vs)
      → Chain nx pv x (us ++ vs) z
      → Chain nx' pv' x (us ++ t ∷ vs) z
  Chain-insert x [] [] z ea eb d xs zs tx tz ts h =
      let at : a ≢ t = rw ea (λ q. tx (sym q)) in
      let bt : b ≢ t = rw eb (λ q. tz (sym q)) in rw (← ea, ← eb) (left at, right bt)
  Chain-insert x [] (v ∷ vs) z ea eb (vvs, d) (xv, xvs) (zv, zvs) tx tz (tv, tvs) (e, h) =
      let at : a ≢ t = rw ea (λ q. tx (sym q)) in
      let bt : b ≢ t = rw eb (λ q. tv (sym q)) in
      let rest : Chain nx' pv' v vs z =
        Chain-frame nx pv nx' pv' a t b N_far P_far v vs z (rw ea xv) (rw ea xvs) tv tvs tz
          (rw eb vvs) (rw eb (λ q. zv (sym q))) h in
      (
        subst (λ y. Adjacent nx' pv' y t) ea (left at),
        (subst (λ y. Adjacent nx' pv' t y) eb (right bt), rest),
      )
  Chain-insert x (u ∷ us) vs z ea eb (du, d) (xu, xs) (zu, zs) tx tz (tu, ts) (e, h) = (
    kept x u (λ q. tx (sym q)) (λ q. tu (sym q))
        (rw ea (ne-last_or x u us xu (notin_left x us vs xs)))
        (rw eb (ne-first_or u vs z (notin_right u us vs du) (λ q. zu (sym q)))) e,
    Chain-insert u us vs z ea eb d du zs tu tz ts h,
  )
