-- ===== src/Mm/Region/Place.antt =====
-- Where the walk puts a new region.
use pointer_os.Base.{ℕ, ◌≡◌, ◌≢◌, Bool, List, arith, ◌==◌, if◌then◌else◌}
use pointer_os.Links.Member.{◌∉◌, Distinct, first_or}
use pointer_os.Links.Chain.{Chain}
use pointer_os.Mm.Region.{Region, Regions, put_between, put_last}

abbrev pub next_of : (ℕ → Region) → ℕ → ℕ
next_of f a = (f a).next

abbrev pub prev_of : (ℕ → Region) → ℕ → ℕ
prev_of f a = (f a).prev

-- The list from the head through the distinct structs, both ways.
abbrev pub IsList : Regions → List ℕ → Type 0
IsList s xs =
    (s.head ≡ first_or xs 0) × Distinct xs × 0 ∉ xs × Chain (next_of s.node) (prev_of s.node) 0 xs 0

module _ (start : ℕ) (behind : ℕ → ℕ → ℕ) (has_gap : ℕ → ℕ → ℕ → ℕ → Bool) where
  -- `g` is `f` with `i` put between `a` and `b`, of which `b` may be `NULL`.
  pub record Placed (f g : ℕ → Region) (a i b : ℕ) : Type 0 where
    pub base_new : (g i).base ≡ behind (f a).base (f a).size
    pub base_old : (c : ℕ) → c ≢ i → (g c).base ≡ (f c).base
    pub size_same : (c : ℕ) → (g c).size ≡ (f c).size
    pub next_all :
        (c : ℕ) → c ≢ 0 → (g c).next ≡ (if c == i then b else if c == a then i else (f c).next)
    pub prev_all :
        (c : ℕ) → c ≢ 0 → (g c).prev ≡ (if c == i then a else if c == b then i else (f c).prev)

  pub put_last-Placed :
      (f : ℕ → Region) (i a : ℕ) → a ≢ i → Placed f (put_last start behind has_gap f i a) a i 0
  unfolding put_last
  put_last-Placed f i a ai = record {
    base_new = ground arith;
    base_old = λ c ne. ground arith;
    size_same = λ c. ground arith;
    next_all = λ c live. ground arith;
    prev_all = λ c live. ground arith;
  }

  pub put_between-Placed :
      (f : ℕ → Region) (i a b : ℕ)
      → a ≢ i
      → b ≢ i
      → Placed f (put_between start behind has_gap f i a b) a i b
  unfolding put_between
  put_between-Placed f i a b ai bi = record {
    base_new = ground arith;
    base_old = λ c ne. ground arith;
    size_same = λ c. ground arith;
    next_all = λ c live. ground arith;
    prev_all = λ c live. ground arith;
  }
