-- ===== src/Mm/Vmm/Descend.antt =====
-- One level of `vmm_map_page`.
use pointer_os.Base.{
  ℕ, suc, ◌-◌, ◌*◌, ◌/◌, ◌%◌, ◌<◌, bit_or, ◌≡◌, refl, ap, ◌∙◌, ◌≢◌, ◌⊎◌, inl, inr, true, false,
  ◌||◌, some, arith, ◌==◌, if◌then◌else◌, Bool-cases, update, or_low, or_bit_7, or_page,
}
use pointer_os.Mm.Pmm.{Pmm, bitmap_test}
use pointer_os.Mm.Pmm.Page.{IsValid, IsTaken, IsFree, Took, pmm_alloc_page-Took}
use pointer_os.Mm.Vmm.{Mmu, entry_at, zero_page, is_present, is_user, descend}
use pointer_os.Mm.Vmm.Tables.{Tables, link-Tables, fresh-Tables, free-level}

-- No page is free.
abbrev pub IsExhausted : Pmm → Type 0
IsExhausted s = (j : ℕ) → j < s.total_pages → IsTaken s.bitmap j

abbrev pub RanOut : Mmu → Type 0
RanOut m = IsValid m.pmm × IsExhausted m.pmm

-- Entry `i` of frame `n` leads to a table one level below, the same as before if there was one and
-- an empty one if not, and no other word of a table changed.
pub record Went (level : ℕ → ℕ) (m : Mmu) (n i : ℕ) (m' : Mmu) : Type 0 where
  pub level' : ℕ → ℕ
  pub tables : Tables level' m'
  pub kept : (k : ℕ) → level k ≢ 0 → level' k ≡ level k
  pub present : m'.memory (entry_at (n * 0x1000) i) % 2 ≡ 1
  pub small : m'.memory (entry_at (n * 0x1000) i) / 128 % 2 ≡ 0
  pub target : suc (level' (m'.memory (entry_at (n * 0x1000) i) / 0x1000)) ≡ level n
  pub frame :
      (a : ℕ) → level (a / 0x1000) ≢ 0 → a ≢ entry_at (n * 0x1000) i → m'.memory a ≡ m.memory a
  pub old :
      m.memory (entry_at (n * 0x1000) i) % 2 ≡ 1
      → m'.memory (entry_at (n * 0x1000) i) / 0x1000 ≡ m.memory (entry_at (n * 0x1000) i) / 0x1000
  pub empty :
      m.memory (entry_at (n * 0x1000) i) % 2 ≢ 1
      → (j : ℕ) → j < 512
      → m'.memory (entry_at (m'.memory (entry_at (n * 0x1000) i) / 0x1000 * 0x1000) j) ≡ 0
  pub same_flushed : m'.flushed ≡ m.flushed

abbrev pub Descends : (ℕ → ℕ) → Mmu → ℕ → ℕ → ℕ → Mmu → Type 0
Descends level m n i flags m' =
    (descend m (entry_at (n * 0x1000) i) flags ≡ some m') × (RanOut m' ⊎ Went level m n i m')

-- The word that links a new table.
new_word :
    (f b : ℕ)
    → b < 8
    → b % 2 ≡ 1
    → (bit_or (f * 0x1000) b % 2 ≡ 1)
      × (bit_or (f * 0x1000) b / 128 % 2 ≡ 0)
      × (bit_or (f * 0x1000) b / 0x1000 ≡ f)
new_word f b h odd =
    omega
      (arith, or_low (f * 0x1000) b, or_bit_7 (f * 0x1000) b, or_page (f * 0x1000) b (omega arith))

-- An entry that becomes open to the user.
user_word :
    (e : ℕ)
    → (bit_or e 4 % 2 ≡ e % 2)
      × (bit_or e 4 / 128 % 2 ≡ e / 128 % 2)
      × (bit_or e 4 / 0x1000 ≡ e / 0x1000)
user_word e = omega (arith, or_low e 4, or_bit_7 e 4, or_page e 4 (omega arith))

module _ (level : ℕ → ℕ) (m : Mmu) (tables : Tables level m) (n i flags : ℕ) (hi : i < 512)
    (upper : 1 < level n) where
  linked :
      (v : ℕ)
      → v % 2 ≡ 1
      → v / 128 % 2 ≡ 0
      → suc (level (v / 0x1000)) ≡ level n
      → m.memory (entry_at (n * 0x1000) i) % 2 ≡ 1
      → v / 0x1000 ≡ m.memory (entry_at (n * 0x1000) i) / 0x1000
      → Went level m n i (record m { memory = update m.memory (entry_at (n * 0x1000) i) v })
  linked v odd small target there same = record {
    level' = level;
    tables = link-Tables level m tables n i v hi small target;
    kept = λ k h. refl;
    present = ground arith;
    small = ground arith;
    target = ground arith;
    frame = λ a h ne. ground arith;
    old = λ h. ground arith;
    empty = λ h. absurd (h there);
    same_flushed = refl;
  }

  descend-present :
      m.memory (entry_at (n * 0x1000) i) % 2 ≡ 1
      → m.memory (entry_at (n * 0x1000) i) / 128 % 2 ≡ 0
      → (m' : Mmu) × Descends level m n i flags m'
  unfolding descend
  descend-present p s =
      let entry = m.memory (entry_at (n * 0x1000) i) in
      let there : is_present entry ≡ true = ground arith in
      let target = tables.below n i hi upper p s in
      let word = user_word entry in
      elim (Bool-cases (is_user flags)) [
        | inl user ↦ (
          record m { memory = update m.memory (entry_at (n * 0x1000) i) (bit_or entry 4) },
          (
            rw (there, user),
            inr (
                linked (bit_or entry 4) (omega (arith, word)) (omega (arith, word))
                  (ap (λ (t : ℕ). suc (level t)) word.2 ∙ target) p word.2),
          ),
        )
        | inr kernel ↦ (
          m,
          (
            rw (there, kernel),
            inr (record {
              level' = level;
              tables = tables;
              kept = λ k h. refl;
              present = p;
              small = s;
              target = target;
              frame = λ a h ne. refl;
              old = λ h. refl;
              empty = λ h. absurd (h p);
              same_flushed = refl;
            }),
          ),
        )
      ]

  module _ (f : ℕ) (s' : Pmm) (v : IsValid s') (free : IsFree m.pmm.bitmap f)
      (now : (j : ℕ) → bitmap_test s'.bitmap j ≡ ((j == f) || bitmap_test m.pmm.bitmap j)) (b : ℕ)
      (hb : b < 8) (odd : b % 2 ≡ 1) (absent : m.memory (entry_at (n * 0x1000) i) % 2 ≢ 1) where
    fresh-Went : Went level m n i (record m {
      pmm = s';
      memory =
          update
            (zero_page m.memory (f * 0x1000))
            (entry_at (n * 0x1000) i)
            (bit_or (f * 0x1000) b);
    })
    fresh-Went =
        let word = new_word f b hb odd in
        let none_there = free-level level m tables f free in
        let level' = update level f (level n - 1) in
        let same_frame : bit_or (f * 0x1000) b / 0x1000 ≡ f = word.2 in
        let target : suc (level' (bit_or (f * 0x1000) b / 0x1000)) ≡ level' n = ground arith in
        record {
          level' = level';
          tables =
              link-Tables level' (record m { pmm = s'; memory = zero_page m.memory (f * 0x1000) })
                (fresh-Tables level m tables f (level n - 1) s' v free now) n i
                (bit_or (f * 0x1000) b) hi (omega (arith, word)) target;
          kept = λ k h. ground arith;
          present = ground arith;
          small = ground arith;
          target = ground arith;
          frame = λ a h ne. ground arith;
          old = λ h. absurd (absent h);
          empty = λ h j hj. ground arith;
          same_flushed = refl;
        }

  descend-absent :
      m.memory (entry_at (n * 0x1000) i) % 2 ≢ 1 → (m' : Mmu) × Descends level m n i flags m'
  unfolding descend
  descend-absent p =
      let (s', paddr, run, v, total, lock, took) = pmm_alloc_page-Took m.cpu m.pmm tables.valid in
      let absent : is_present (m.memory (entry_at (n * 0x1000) i)) ≡ false = ground arith in
      let bits : ℕ = if is_user flags then 7 else 3 in
      elim took [
        | inl (f, hf, e, free, below, now) ↦ (
          record m {
            pmm = s';
            memory =
                update (zero_page m.memory (f * 0x1000)) (entry_at (n * 0x1000) i)
                  (bit_or (f * 0x1000) bits);
          },
          (
            rw (absent, run, e),
            inr (fresh-Went f s' v free now bits (ground arith) (ground arith) p),
          ),
        )
        | inr (e, same, all) ↦ (
          record m {
            pmm = s';
            memory =
                update (zero_page m.memory paddr) (entry_at (n * 0x1000) i) (bit_or paddr bits);
          },
          (rw (absent, run), inl (v, λ j h. rw same (all j (omega (arith, total))))),
        )
      ]

  -- With frame `n` a table above the lowest level and no huge page at entry `i`, the step returns.
  -- If no page is left, nothing is said of what it returns but that this is so.
  pub descend-Descends :
      (m.memory (entry_at (n * 0x1000) i) % 2 ≡ 1
        → m.memory (entry_at (n * 0x1000) i) / 128 % 2 ≡ 0)
      → (m' : Mmu) × Descends level m n i flags m'
  descend-Descends small = elim (Bool-cases (is_present (m.memory (entry_at (n * 0x1000) i)))) [
    | inl there ↦
        let p : m.memory (entry_at (n * 0x1000) i) % 2 ≡ 1 = ground arith in
        descend-present p (small p)
    | inr absent ↦ descend-absent (ground arith)
  ]

-- Once no page is left, an allocation takes none.
stays_out :
    (s s' : Pmm) (paddr : ℕ)
    → IsExhausted s
    → s'.total_pages ≡ s.total_pages
    → Took s.bitmap s.total_pages (s'.bitmap, paddr)
    → IsExhausted s'
stays_out s s' paddr out total (inl (f, hf, e, free, below, now)) j h =
    absurd (ground (arith, out f hf))
stays_out s s' paddr out total (inr (e, same, all)) j h = rw same (all j (omega arith))

-- Once no page is left, the step still returns, and none is left after it.
pub descend-RanOut :
    (m : Mmu) (at flags : ℕ) → RanOut m → (m' : Mmu) × (descend m at flags ≡ some m') × RanOut m'
unfolding descend
descend-RanOut m at flags (valid, out) =
    let (s', paddr, run, v, total, lock, took) = pmm_alloc_page-Took m.cpu m.pmm valid in
    let bits : ℕ = if is_user flags then 7 else 3 in
    elim (Bool-cases (is_present (m.memory at))) [
      | inl there ↦ elim (Bool-cases (is_user flags)) [
        | inl user ↦ (
          record m { memory = update m.memory at (bit_or (m.memory at) 4) },
          rw (there, user),
          (valid, out),
        )
        | inr kernel ↦ (m, rw (there, kernel), (valid, out))
      ]
      | inr absent ↦ (
        record m { pmm = s'; memory = update (zero_page m.memory paddr) at (bit_or paddr bits) },
        rw (absent, run),
        (v, stays_out m.pmm s' paddr out total took),
      )
    ]
