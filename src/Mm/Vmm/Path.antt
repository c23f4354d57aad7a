-- ===== src/Mm/Vmm/Path.antt =====
-- The way of an address through the tables, and how a level of `vmm_map_page` extends it.
use pointer_os.Base.{
  ℕ, suc, ◌*◌, ◌/◌, ◌%◌, ◌<◌, ◌≡◌, refl, sym, ap, ◌∙◌, ◌≢◌, inl, inr, List, [], ◌∷◌, arith,
  Bool-cases, length,
}
use pointer_os.Mm.Vmm.{Mmu, entry_at, is_present, pml4_index, pdpt_index, pd_index, store_entry}
use pointer_os.Mm.Vmm.Tables.{Tables, leaf-Tables}
use pointer_os.Mm.Vmm.Descend.{Went}

-- From frame `n` along the entries `is`, as far as they are present, there is no huge page.
abbrev pub Clear : (ℕ → ℕ) → ℕ → List ℕ → Type 0
Clear memory n [] = Unit
Clear memory n (i ∷ is) =
    memory (entry_at (n * 0x1000) i) % 2 ≡ 1
    → (memory (entry_at (n * 0x1000) i) / 128 % 2 ≡ 0)
      × Clear memory (memory (entry_at (n * 0x1000) i) / 0x1000) is

abbrev pub Indices : List ℕ → Type 0
Indices [] = Unit
Indices (i ∷ is) = (i < 512) × Indices is

empty-Clear :
    (memory : ℕ → ℕ) (is : List ℕ) (t : ℕ)
    → Indices is
    → ((j : ℕ) → j < 512 → memory (entry_at (t * 0x1000) j) ≡ 0)
    → Clear memory t is
empty-Clear memory [] t small none_there = tt
empty-Clear memory (i ∷ is) t small none_there = λ p. absurd (ground (arith, none_there i small.0))

-- The entries above the lowest table.
abbrev pub path : ℕ → List ℕ
path vaddr = pml4_index vaddr ∷ pdpt_index vaddr ∷ pd_index vaddr ∷ []

-- From frame `n` the entries `is` lead to frame `t`.
abbrev pub Leads : (ℕ → ℕ) → ℕ → List ℕ → ℕ → Type 0
Leads memory n [] t = n ≡ t
Leads memory n (i ∷ is) t =
    (memory (entry_at (n * 0x1000) i) % 2 ≡ 1)
    × (memory (entry_at (n * 0x1000) i) / 128 % 2 ≡ 0)
    × Leads memory (memory (entry_at (n * 0x1000) i) / 0x1000) is t

-- From frame `n` the entries `is` lead to a lowest table, of which entry `k` holds `word`, and the
-- tables above the level of `n` are as they were.
pub record Reached (level : ℕ → ℕ) (m : Mmu) (n : ℕ) (is : List ℕ) (k word vaddr : ℕ) (m' : Mmu)
    : Type 0 where
  pub level' : ℕ → ℕ
  pub tables : Tables level' m'
  pub kept : (k : ℕ) → level k ≢ 0 → level' k ≡ level k
  pub last : ℕ
  pub leads : Leads m'.memory n is last
  pub lowest : level' last ≡ 1
  pub holds : m'.memory (entry_at (last * 0x1000) k) ≡ word
  pub frame : (a : ℕ) → level n < level (a / 0x1000) → m'.memory a ≡ m.memory a
  pub flushes : m'.flushed ≡ vaddr ∷ m.flushed

module _ (level : ℕ → ℕ) (m m' : Mmu) (n i : ℕ) (hi : i < 512) (went : Went level m n i m')
    (tables : Tables level m) where
  -- What is clear below another table stays clear.
  stays-Clear :
      (is : List ℕ) (t : ℕ)
      → Indices is
      → level t ≡ suc (length is)
      → level t < level n
      → Clear m.memory t is
      → Clear m'.memory t is
  stays-Clear [] t small l h c = tt
  stays-Clear (j ∷ is) t small l h c = λ p.
      let a = entry_at (t * 0x1000) j in
      let in_t : a / 0x1000 ≡ t = omega (arith, small.0) in
      let table : level (a / 0x1000) ≢ 0 = ground arith in
      let other : a ≢ entry_at (n * 0x1000) i =
        λ e. let alike : n ≡ t = omega (arith, small.0) in omega (arith, ap level alike) in
      let same : m'.memory a ≡ m.memory a = went.frame a table other in
      let q : m.memory a % 2 ≡ 1 = ground arith in
      let next = tables.below t j small.0 (omega arith) q (c q).0 in
      rw same
        ((c q).0, stays-Clear is (m.memory a / 0x1000) small.1 (omega arith) (omega arith) (c q).1)

  -- After the step the rest of the path is clear.
  pub next-Clear :
      (is : List ℕ)
      → Indices is
      → level n ≡ suc (suc (length is))
      → Clear m.memory n (i ∷ is)
      → Clear m'.memory (m'.memory (entry_at (n * 0x1000) i) / 0x1000) is
  next-Clear is small l c = elim (Bool-cases (is_present (m.memory (entry_at (n * 0x1000) i)))) [
    | inl there ↦
        let p : m.memory (entry_at (n * 0x1000) i) % 2 ≡ 1 = ground arith in
        let next = tables.below n i hi (omega arith) p (c p).0 in
        rw (went.old p) (
          stays-Clear is (m.memory (entry_at (n * 0x1000) i) / 0x1000) small (omega arith)
            (omega arith) (c p).1)
    | inr absent ↦
        empty-Clear m'.memory is (m'.memory (entry_at (n * 0x1000) i) / 0x1000) small
          (went.empty (ground arith))
  ]

  -- A step in front of a path.
  pub step-Reached :
      (is : List ℕ) (k word vaddr : ℕ) (m2 : Mmu)
      → Reached went.level' m' (m'.memory (entry_at (n * 0x1000) i) / 0x1000) is k word vaddr m2
      → level n ≢ 0
      → Reached level m n (i ∷ is) k word vaddr m2
  step-Reached is k word vaddr m2 r table =
      let e = entry_at (n * 0x1000) i in
      let in_n : e / 0x1000 ≡ n = omega arith in
      let kept_n = went.kept n table in
      let kept_e : went.level' (e / 0x1000) ≡ level n = ap went.level' in_n ∙ kept_n in
      let same : m2.memory e ≡ m'.memory e = r.frame e (omega (arith, went.target)) in
      record {
        level' = r.level';
        tables = r.tables;
        kept = λ k h. r.kept k (λ z. h (sym (went.kept k h) ∙ z)) ∙ went.kept k h;
        last = r.last;
        leads = rw same (went.present, went.small, r.leads);
        lowest = r.lowest;
        holds = r.holds;
        frame = λ a h.
            let there : level (a / 0x1000) ≢ 0 = omega arith in
            r.frame a (omega (arith, went.target, went.kept (a / 0x1000) there))
            ∙ went.frame a there
                (λ z. omega (arith, ap (λ (b : ℕ). level (b / 0x1000)) z, ap level in_n));
        flushes = r.flushes ∙ ap (λ (l : List ℕ). vaddr ∷ l) went.same_flushed;
      }

-- The store of the last entry.
pub store-Reached :
    (level : ℕ → ℕ) (m : Mmu) (t k word vaddr : ℕ)
    → Tables level m
    → level t ≡ 1
    → k < 512
    → Reached level m t [] k word vaddr (store_entry m (entry_at (t * 0x1000) k) word vaddr)
store-Reached level m t k word vaddr tables low hk =
    let in_t : entry_at (t * 0x1000) k / 0x1000 ≡ t = omega arith in
    let moved =
      leaf-Tables level m tables (entry_at (t * 0x1000) k) word (omega (arith, ap level in_t)) in
    record {
      level' = level;
      tables = record {
        valid = moved.valid;
        first = moved.first;
        taken = moved.taken;
        below = moved.below;
      };
      kept = λ k h. refl;
      last = t;
      leads = refl;
      lowest = low;
      holds = ground arith;
      frame = λ a h. ground (arith, ap level in_t);
      flushes = refl;
    }
