-- ===== src/Libc/Compare.antt =====
-- What the three results of `memcmp` say of the two ranges.
use pointer_os.Base.{
  ℕ, zero, suc, ◌+◌, ◌<◌, ◌≡◌, inl, inr, false, arith, ltb, ◌==◌, if◌then◌else◌, ==_iff, Bool-cases,
}
use pointer_os.Libc.{Memory, Order, less, same, greater, memcmp_from, memcmp}

-- The first `n` bytes at `p` are those at `q`.
abbrev pub Agree : Memory → ℕ → ℕ → ℕ → Type 0
Agree m p q n = (i : ℕ) → i < n → m (p + i) ≡ m (q + i)

-- The ranges agree up to an index below `n`, where `Rel` holds of the two bytes.
abbrev pub FirstDiffers : (ℕ → ℕ → Type 0) → Memory → ℕ → ℕ → ℕ → Type 0
FirstDiffers Rel m p q n = (k : ℕ) × (k < n) × Agree m p q k × Rel (m (p + k)) (m (q + k))

abbrev pub Compared : Memory → ℕ → ℕ → ℕ → Order → Type 0
Compared m p q n same = Agree m p q n
Compared m p q n less = FirstDiffers (λ a b. a < b) m p q n
Compared m p q n greater = FirstDiffers (λ a b. b < a) m p q n

add-suc_shift : (p i : ℕ) → p + suc i ≡ p + 1 + i
add-suc_shift p i = omega arith

module _ (m : Memory) (p q : ℕ) (e : m p ≡ m q) where
  Agree-suc : (n : ℕ) → Agree m (p + 1) (q + 1) n → Agree m p q (suc n)
  Agree-suc n rest zero h = grind arith
  Agree-suc n rest (suc i) h = rw (add-suc_shift p i, add-suc_shift q i) (rest i (omega arith))

  Compared-suc : (n : ℕ) (o : Order) → Compared m (p + 1) (q + 1) n o → Compared m p q (suc n) o
  Compared-suc n same c = Agree-suc n c
  Compared-suc n less (k, lt, before, at) =
      (suc k, omega arith, Agree-suc k before, rw (add-suc_shift p k, add-suc_shift q k) at)
  Compared-suc n greater (k, lt, before, at) =
      (suc k, omega arith, Agree-suc k before, rw (add-suc_shift p k, add-suc_shift q k) at)

Compared-at_first :
    (m : Memory) (p q n : ℕ)
    → (m p == m q) ≡ false
    → Compared m p q (suc n) (if ltb (m p) (m q) then less else greater)
Compared-at_first m p q n e = elim (Bool-cases (ltb (m p) (m q))) [
  | inl lt ↦ rw lt (0, omega arith, λ i h. elim h [ ], ground arith)
  | inr ge ↦ rw ge (0, omega arith, λ i h. elim h [ ], ground arith)
]

memcmp_from-Compared : (m : Memory) (p q n : ℕ) → Compared m p q n (memcmp_from m p q n)
unfolding memcmp_from
memcmp_from-Compared m p q zero = λ i h. elim h [ ]
memcmp_from-Compared m p q (suc n) = elim (Bool-cases (m p == m q)) [
  | inl e ↦
      rw e (Compared-suc m p q ((==_iff _ _).0 e) n _ (memcmp_from-Compared m (p + 1) (q + 1) n))
  | inr e ↦ rw e (Compared-at_first m p q n e)
]

-- `memcmp` returns 0 exactly for two ranges that agree, and otherwise -1 or 1 as the first byte in
-- which they differ is smaller or greater on the left.
pub memcmp-Compared : (m : Memory) (p q n : ℕ) → Compared m p q n (memcmp m p q n)
unfolding memcmp
memcmp-Compared m p q n = memcmp_from-Compared m p q n
