-- ===== src/Kernel/Lifecycle/Frame.antt =====
-- What the pushes of `create_thread` and `create_user_thread` leave on the stack.
use pointer_os.Base.{
  ℕ, zero, suc, ◌+◌, ◌-◌, ◌*◌, ◌%◌, ◌^◌, ◌≤◌, ◌<◌, ◌≡◌, refl, ap, ◌∙◌, some, List, [], ◌∷◌, arith,
  length, get_elem?, update, update_self, update_ne, sub64,
}
use pointer_os.Kernel.Lifecycle.{push_all, zeros, frame_words}

push_all-cons :
    (v : ℕ) (vs : List ℕ) (word : ℕ → ℕ) (top : ℕ)
    → 8 ≤ top
    → top < 2 ^ 64
    → push_all word top (v ∷ vs) ≡ push_all (update word (top - 8) v) (top - 8) vs
unfolding push_all
push_all-cons v vs word top room small =
    let down : sub64 top 8 ≡ top - 8 = omega arith in
    ap (λ (t : ℕ). push_all (update word t v) t vs) down

-- What lies above the top stays.
pub push_all-above :
    (vs : List ℕ) (word : ℕ → ℕ) (top a : ℕ)
    → 8 * length vs ≤ top
    → top < 2 ^ 64
    → top ≤ a
    → (push_all word top vs).0 a ≡ word a
unfolding push_all
push_all-above [] word top a room small above = refl
push_all-above (v ∷ vs) word top a room small above =
    ap (λ r. r.0 a) (push_all-cons v vs word top (omega arith) small)
    ∙ push_all-above vs (update word (top - 8) v) (top - 8) a (omega arith) (omega arith)
        (omega arith)
    ∙ update_ne word (top - 8) v a (λ e. absurd (omega (arith, e)))

-- The values stand one below another, and the top is at the last one.
push_all-at :
    (vs : List ℕ) (word : ℕ → ℕ) (top i v : ℕ)
    → 8 * length vs ≤ top
    → top < 2 ^ 64
    → get_elem? vs i ≡ some v
    → (push_all word top vs).0 (top - 8 * suc i) ≡ v
push_all-at [] word top i v room small at = absurd (cc)
push_all-at (x ∷ vs) word top zero v room small at =
    let here : top - 8 * 1 ≡ top - 8 = omega arith in
    let same : x ≡ v = cc in
    rw here (
      ap (λ r. r.0 (top - 8)) (push_all-cons x vs word top (omega arith) small)
      ∙ push_all-above vs (update word (top - 8) x) (top - 8) (top - 8) (omega arith) (omega arith)
          (omega arith)
      ∙ update_self word (top - 8) x
      ∙ same)
push_all-at (x ∷ vs) word top (suc i) v room small at =
    let below : top - 8 * suc (suc i) ≡ (top - 8) - 8 * suc i = omega arith in
    rw below (
      ap (λ r. r.0 ((top - 8) - 8 * suc i)) (push_all-cons x vs word top (omega arith) small)
      ∙ push_all-at vs (update word (top - 8) x) (top - 8) i v (omega arith) (omega arith) at)

push_all-top :
    (vs : List ℕ) (word : ℕ → ℕ) (top : ℕ)
    → 8 * length vs ≤ top
    → top < 2 ^ 64
    → (push_all word top vs).1 ≡ top - 8 * length vs
unfolding push_all
push_all-top [] word top room small = omega arith
push_all-top (v ∷ vs) word top room small =
    ap (λ r. r.1) (push_all-cons v vs word top (omega arith) small)
    ∙ push_all-top vs (update word (top - 8) v) (top - 8) (omega arith) (omega arith)
    ∙ omega arith

-- From `rsp` on stand 15 registers, and what `iretq` takes: where to go, the code segment, the flags
-- with interrupts on, the stack pointer and its segment. The stack pointer leads to the address where
-- the function returns to, as after a call.
pub record IsFrame (word : ℕ → ℕ) (rsp entry_point code_segment stack_segment leave : ℕ)
    : Type 0 where
  pub registers : (i : ℕ) → i < 15 → word (rsp + 8 * i) ≡ 0
  pub goes_to : word (rsp + 120) ≡ entry_point
  pub code : word (rsp + 128) ≡ code_segment
  pub flags : word (rsp + 136) ≡ 0x202
  pub stack : word (rsp + 144) ≡ rsp + 160
  pub stack_kind : word (rsp + 152) ≡ stack_segment
  pub return_to : word (rsp + 160) ≡ leave
  pub aligned : (rsp + 160) % 16 ≡ 8

zeros-at : (n i : ℕ) → i < n → get_elem? (zeros n) i ≡ some 0
zeros-at zero i h = absurd (omega arith)
zeros-at (suc n) zero h = refl
zeros-at (suc n) (suc i) h = zeros-at n i (omega arith)

pub frame_words-IsFrame :
    (word : ℕ → ℕ) (top leave ss cs entry_point : ℕ)
    → 168 ≤ top
    → top < 2 ^ 64
    → top % 16 ≡ 0
    → let (word', rsp) = push_all word top (frame_words top leave ss cs entry_point) in
      IsFrame word' rsp entry_point cs ss leave × (rsp + 168 ≡ top)
frame_words-IsFrame word top leave ss cs entry_point room small aligned =
    let vs = frame_words top leave ss cs entry_point in
    let (word', rsp) = push_all word top vs in
    let down : rsp + 168 ≡ top = omega (arith, push_all-top vs word top room small) in
    let value : (i v : ℕ) → get_elem? vs i ≡ some v → word' (top - 8 * suc i) ≡ v =
      λ i v. push_all-at vs word top i v room small in
    let at : (a i v : ℕ) → a ≡ top - 8 * suc i → get_elem? vs i ≡ some v → word' a ≡ v =
      λ a i v e h. ap word' e ∙ value i v h in
    (
      record {
        registers = λ i h.
            at (rsp + 8 * i) (suc (suc (suc (suc (suc (suc (14 - i))))))) 0 (omega (arith, down))
              (zeros-at 15 (14 - i) (omega arith));
        goes_to = at (rsp + 120) 5 entry_point (omega (arith, down)) refl;
        code = at (rsp + 128) 4 cs (omega (arith, down)) refl;
        flags = at (rsp + 136) 3 0x202 (omega (arith, down)) refl;
        stack = at (rsp + 144) 2 (sub64 top 8) (omega (arith, down)) refl ∙ omega (arith, down);
        stack_kind = at (rsp + 152) 1 ss (omega (arith, down)) refl;
        return_to = at (rsp + 160) 0 leave (omega (arith, down)) refl;
        aligned = omega (arith, down);
      },
      down,
    )
