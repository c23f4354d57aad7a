-- ===== src/Mm/Buddy/Partner.antt =====
-- A block and its buddy make the block of the next order.
use pointer_os.Base.{
  ℕ, suc, ◌+◌, ◌-◌, ◌*◌, ◌/◌, ◌%◌, ◌^◌, ◌≤◌, ◌<◌, ◌≡◌, sym, ap, ◌∙◌, ◌↔◌, ◌⊎◌, inl, inr, arith, ltb,
  leb, ◌==◌, if◌then◌else◌, Bool-cases,
}
use native.Mathlib.Nat.{mul-le-mul_right, pow-suc}
use mathlib.Core.Path.{subst}
use pointer_os.Mm.Buddy.{buddy_of}
use pointer_os.Mm.Buddy.Page.{address, buddy_of_lower, buddy_of_upper, two_pow_pos, pow_sum}
use pointer_os.Mm.Buddy.Free.{IsBlock, Within}
use pointer_os.Mm.Buddy.Split.{halves, twice}

-- Block `b` is the buddy of block `p`, and `low` the lower one of them.
pub record BuddyPair (p i b low : ℕ) : Type 0 where
  pub buddy : buddy_of (address p) i ≡ address b
  pub lower : (if ltb (address b) (address p) then address b else address p) ≡ address low
  pub inside : b < 4096
  pub joined : IsBlock low (suc i)
  pub pages : (x : ℕ) → Within low (suc i) x ↔ (Within p i x ⊎ Within b i x)

aligned_fits : (q j : ℕ) → j ≤ 12 → q * 2 ^ j < 4096 → q * 2 ^ j + 2 ^ j ≤ 4096
aligned_fits q j h below =
    let sum : 12 - j + j ≡ 12 = omega arith in
    let whole : 2 ^ (12 - j) * 2 ^ j ≡ 4096 =
      sym (pow_sum (12 - j) j) ∙ ap (λ (k : ℕ). 2 ^ k) sum in
    elim (Bool-cases (leb (2 ^ (12 - j)) q)) [
      | inl over ↦
          let large : 2 ^ (12 - j) ≤ q = ground arith in
          absurd (omega (arith, whole, mul-le-mul_right (2 ^ j) large))
      | inr room ↦
          let next : q + 1 ≤ 2 ^ (12 - j) = ground arith in
          omega (arith, whole, mul-le-mul_right (2 ^ j) next)
    ]

partner_of_lower :
    (q i : ℕ)
    → i < 12
    → q * 2 * 2 ^ i < 4096
    → BuddyPair (q * 2 * 2 ^ i) i (q * 2 * 2 ^ i + 2 ^ i) (q * 2 * 2 ^ i)
partner_of_lower q i small below =
    let fits = aligned_fits q (suc i) small (omega (arith, twice q i)) in
    record {
      buddy = buddy_of_lower i q (omega arith);
      lower = ground arith;
      inside = omega (arith, fits, twice q i, pow-suc 2 i, two_pow_pos i);
      joined = (small, (q, sym (twice q i)), omega (arith, fits, twice q i));
      pages = halves (q * 2 * 2 ^ i) i;
    }

partner_of_upper :
    (q i : ℕ)
    → i < 12
    → q * 2 * 2 ^ i + 2 ^ i < 4096
    → BuddyPair (q * 2 * 2 ^ i + 2 ^ i) i (q * 2 * 2 ^ i) (q * 2 * 2 ^ i)
partner_of_upper q i small below =
    let fits = aligned_fits q (suc i) small (omega (arith, twice q i)) in
    record {
      buddy = buddy_of_upper i q (omega arith);
      lower = ground (arith, two_pow_pos i);
      inside = omega arith;
      joined = (small, (q, sym (twice q i)), omega (arith, fits, twice q i));
      pages = λ x. (
        (λ w. elim ((halves (q * 2 * 2 ^ i) i x).0 w) [ inl low ↦ inr low | inr high ↦ inl high ]),
        (λ c. elim c [
          | inl high ↦ (halves (q * 2 * 2 ^ i) i x).1 (inr high)
          | inr low ↦ (halves (q * 2 * 2 ^ i) i x).1 (inl low)
        ]),
      );
    }

pub partner : (p i : ℕ) → IsBlock p i → i < 12 → (b : ℕ) × (low : ℕ) × BuddyPair p i b low
partner p i (k, (m, e), inside) small = elim (Bool-cases (m % 2 == 0)) [
  | inl even ↦
      let q = m / 2 in
      let half : m ≡ q * 2 = ground arith in
      let here : p ≡ q * 2 * 2 ^ i = e ∙ ap (λ (t : ℕ). t * 2 ^ i) half in
      (
        q * 2 * 2 ^ i + 2 ^ i,
        q * 2 * 2 ^ i,
        subst (λ (t : ℕ). BuddyPair t i (q * 2 * 2 ^ i + 2 ^ i) (q * 2 * 2 ^ i)) (sym here)
            (partner_of_lower q i small (omega (arith, here, two_pow_pos i))),
      )
  | inr odd ↦
      let q = m / 2 in
      let half : m ≡ q * 2 + 1 = ground arith in
      let up : (q * 2 + 1) * 2 ^ i ≡ q * 2 * 2 ^ i + 2 ^ i = omega arith in
      let here : p ≡ q * 2 * 2 ^ i + 2 ^ i = e ∙ ap (λ (t : ℕ). t * 2 ^ i) half ∙ up in
      (
        q * 2 * 2 ^ i,
        q * 2 * 2 ^ i,
        subst (λ (t : ℕ). BuddyPair t i (q * 2 * 2 ^ i) (q * 2 * 2 ^ i)) (sym here)
            (partner_of_upper q i small (omega (arith, here, two_pow_pos i))),
      )
]
