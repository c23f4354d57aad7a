-- ===== src/Mm/Vmm/Tables.antt =====
-- The tables in memory: a level for each page frame, 4 for a root and 0 for what is no table.
use pointer_os.Base.{
  ℕ, suc, ◌*◌, ◌/◌, ◌%◌, ◌≤◌, ◌<◌, ◌≡◌, ◌≢◌, inl, inr, ◌||◌, arith, ◌==◌, Bool-cases, update,
}
use pointer_os.Mm.Pmm.{Pmm, bitmap_test}
use pointer_os.Mm.Pmm.Page.{IsValid, IsTaken, IsFree}
use pointer_os.Mm.Vmm.{Mmu, entry_at, zero_page}

-- The allocator is in order, frame 0 and all tables are taken, and an entry of a table above the
-- lowest level that is present and no huge page leads to a table one level below.
pub record Tables (level : ℕ → ℕ) (m : Mmu) : Type 0 where
  pub valid : IsValid m.pmm
  pub first : IsTaken m.pmm.bitmap 0
  pub taken : (n : ℕ) → level n ≢ 0 → IsTaken m.pmm.bitmap n
  pub below :
      (n i : ℕ)
      → i < 512
      → 1 < level n
      → m.memory (entry_at (n * 0x1000) i) % 2 ≡ 1
      → m.memory (entry_at (n * 0x1000) i) / 128 % 2 ≡ 0
      → suc (level (m.memory (entry_at (n * 0x1000) i) / 0x1000)) ≡ level n

module _ (level : ℕ → ℕ) (m : Mmu) (tables : Tables level m) where
  -- An entry is linked to a table one level below.
  pub link-Tables :
      (n i v : ℕ)
      → i < 512
      → v / 128 % 2 ≡ 0
      → suc (level (v / 0x1000)) ≡ level n
      → Tables level (record m { memory = update m.memory (entry_at (n * 0x1000) i) v })
  link-Tables n i v hi small target = record {
    valid = tables.valid;
    first = tables.first;
    taken = tables.taken;
    below = λ k j hj hk p s. ground (arith, tables.below k j hj hk);
  }

  -- A store to a table of the lowest level, or to none, changes no link.
  pub leaf-Tables :
      (a v : ℕ) → level (a / 0x1000) ≤ 1 → Tables level (record m { memory = update m.memory a v })
  leaf-Tables a v low = record {
    valid = tables.valid;
    first = tables.first;
    taken = tables.taken;
    below = λ k j hj hk p s. ground (arith, tables.below k j hj hk);
  }

  -- A free frame holds no table.
  pub free-level : (f : ℕ) → IsFree m.pmm.bitmap f → level f ≡ 0
  free-level f free = elim (Bool-cases (level f == 0)) [
    | inl empty ↦ ground arith
    | inr table ↦ ground (arith, tables.taken f (ground arith))
  ]

  fresh-below :
      (f l : ℕ)
      → IsFree m.pmm.bitmap f
      → (k j : ℕ) → j < 512
      → 1 < update level f l k
      → zero_page m.memory (f * 0x1000) (entry_at (k * 0x1000) j) % 2 ≡ 1
      → zero_page m.memory (f * 0x1000) (entry_at (k * 0x1000) j) / 128 % 2 ≡ 0
      → suc (update level f l (zero_page m.memory (f * 0x1000) (entry_at (k * 0x1000) j) / 0x1000))
        ≡ update level f l k
  fresh-below f l free k j hj hk p q = elim (Bool-cases (k == f)) [
    | inl here ↦ ground arith
    | inr other ↦ ground (arith, free-level f free, tables.below k j hj (ground arith))
  ]

  -- A free frame becomes an empty table of level `l`.
  pub fresh-Tables :
      (f l : ℕ) (s : Pmm)
      → IsValid s
      → IsFree m.pmm.bitmap f
      → ((j : ℕ) → bitmap_test s.bitmap j ≡ ((j == f) || bitmap_test m.pmm.bitmap j))
      → Tables (update level f l) (record m { pmm = s; memory = zero_page m.memory (f * 0x1000) })
  fresh-Tables f l s v free now = record {
    valid = v;
    first = ground (arith, now 0, tables.first);
    taken = λ n h. ground (arith, now n, tables.taken n);
    below = fresh-below f l free;
  }
