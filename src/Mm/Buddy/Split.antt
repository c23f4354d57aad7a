-- ===== src/Mm/Buddy/Split.antt =====
-- The inner loop of `buddy_alloc`, which gives back the upper halves of a block.
use pointer_os.Base.{
  ℕ, zero, suc, ◌+◌, ◌*◌, ◌^◌, ◌≡◌, refl, sym, ◌∙◌, ◌↔◌, ◌⊎◌, inl, inr, arith, ltb, Bool-cases,
}
use native.Mathlib.Nat.{pow-suc}
use mathlib.Core.Path.{subst}
use pointer_os.Mm.Buddy.{Buddy, split, buddy_list_add, buddy_of}
use pointer_os.Mm.Buddy.Page.{address, buddy_of_lower}
use pointer_os.Mm.Buddy.Free.{IsHeap, IsBlock, Within, Covered, IsUsed}
use pointer_os.Mm.Buddy.Add.{buddy_list_add-IsHeap, buddy_list_add-Covered}

-- A block is its two halves.
pub halves : (p j x : ℕ) → Within p (suc j) x ↔ (Within p j x ⊎ Within (p + 2 ^ j) j x)
halves p j x = (
  (λ w. elim (Bool-cases (ltb x (p + 2 ^ j))) [
    | inl low ↦ inl (w.0, ground arith)
    | inr high ↦ inr (ground arith, omega (arith, pow-suc 2 j))
  ]),
  (λ c. elim c [
    | inl w ↦ (w.0, omega (arith, pow-suc 2 j))
    | inr w ↦ (omega arith, omega (arith, pow-suc 2 j))
  ]),
)

pub twice : (q j : ℕ) → q * 2 ^ suc j ≡ q * 2 * 2 ^ j
twice q j = rw (pow-suc 2 j) (omega arith)

pub lower_half : (p j : ℕ) → IsBlock p (suc j) → IsBlock p j
lower_half p j (small, (q, e), inside) =
    (omega arith, (q * 2, e ∙ twice q j), omega (arith, pow-suc 2 j))

pub upper_half : (p j : ℕ) → IsBlock p (suc j) → IsBlock (p + 2 ^ j) j
upper_half p j (small, (q, e), inside) =
    (omega arith, (q * 2 + 1, omega (arith, e, twice q j)), omega (arith, pow-suc 2 j))

upper_address : (p j : ℕ) → IsBlock p (suc j) → buddy_of (address p) j ≡ address (p + 2 ^ j)
upper_address p j (small, (q, e), inside) =
    let here : p ≡ q * 2 * 2 ^ j = e ∙ twice q j in rw here (buddy_of_lower j q (omega arith))

-- Of the block at `p` the pages behind the first 2^k have become free, and no others.
abbrev pub Shrunk : Buddy → ℕ → ℕ → Buddy → ℕ → Type 0
Shrunk s p i s' k =
    IsHeap s'
    × IsUsed s' p k
    × ((x : ℕ) → (Covered s x ⊎ Within p i x) ↔ (Covered s' x ⊎ Within p k x))

Shrunk-trans :
    (s : Buddy) (p i : ℕ) (s' : Buddy) (j : ℕ) (s'' : Buddy) (k : ℕ)
    → Shrunk s p i s' j
    → Shrunk s' p j s'' k
    → Shrunk s p i s'' k
Shrunk-trans s p i s' j s'' k (heap, used, same) (heap', used', same') =
    (heap', used', λ x. ((λ c. (same' x).0 ((same x).0 c)), λ c. (same x).1 ((same' x).1 c)))

half_step :
    (s : Buddy) (p j : ℕ)
    → IsHeap s
    → IsBlock p (suc j)
    → IsUsed s p (suc j)
    → Shrunk s p (suc j) (buddy_list_add s (buddy_of (address p) j) j) j
half_step s p j heap block used =
    let upper = upper_half p j block in
    let free_upper : IsUsed s (p + 2 ^ j) j = λ x w. used x ((halves p j x).1 (inr w)) in
    let covered = buddy_list_add-Covered s (p + 2 ^ j) j heap upper free_upper in
    let used' : IsUsed (buddy_list_add s (address (p + 2 ^ j)) j) p j = λ x w c.
      elim ((covered x).0 c) [
        | inl before ↦ used x ((halves p j x).1 (inl w)) before
        | inr v ↦ absurd (omega arith)
      ] in
    rw (upper_address p j block) (
      buddy_list_add-IsHeap s (p + 2 ^ j) j heap upper free_upper,
      used',
      λ x. (
        (λ c. elim c [
          | inl before ↦ inl ((covered x).1 (inl before))
          | inr w ↦ elim ((halves p j x).0 w) [
            | inl low ↦ inr low
            | inr high ↦ inl ((covered x).1 (inr high))
          ]
        ]),
        (λ c. elim c [
          | inl after ↦ elim ((covered x).0 after) [
            | inl before ↦ inl before
            | inr high ↦ inr ((halves p j x).1 (inr high))
          ]
          | inr low ↦ inr ((halves p j x).1 (inl low))
        ]),
      ),
    )

pub split-Shrunk :
    (rounds : ℕ) (s : Buddy) (p i k : ℕ)
    → i ≡ k + rounds
    → IsHeap s
    → IsBlock p i
    → IsUsed s p i
    → Shrunk s p i (split rounds s (address p) k) k
unfolding split
split-Shrunk zero s p i k e heap block used =
    let whole : k ≡ i = omega arith in
    subst (λ (t : ℕ). Shrunk s p i s t) (sym whole) (heap, used, λ x. ((λ c. c), (λ c. c)))
split-Shrunk (suc rounds) s p i k e heap block used =
    let j = k + rounds in
    let next : i ≡ suc j = omega arith in
    let block' : IsBlock p (suc j) = subst (λ (t : ℕ). IsBlock p t) next block in
    let used' : IsUsed s p (suc j) = subst (λ (t : ℕ). IsUsed s p t) next used in
    let s' = buddy_list_add s (buddy_of (address p) j) j in
    let first : Shrunk s p i s' j =
      subst (λ (t : ℕ). Shrunk s p t s' j) (sym next) (half_step s p j heap block' used') in
    let rest = split-Shrunk rounds s' p j k refl first.0 (lower_half p j block') first.1 in
    Shrunk-trans s p i s' j (split rounds s' (address p) k) k first rest
