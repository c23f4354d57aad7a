-- ===== src/Kernel/Process/KernelHalf.antt =====
-- The new root table: nothing for the user yet, and the kernel's half as in the old one.
use pointer_os.Base.{
  ℕ, zero, suc, ◌+◌, ◌-◌, ◌*◌, ◌/◌, ◌%◌, ◌≤◌, ◌<◌, ◌≡◌, refl, sym, ap, ◌∙◌, ◌≢◌, ◌⊎◌, inl, inr,
  false, ◌&&◌, none, some, arith, ltb, leb, ◌==◌, if◌then◌else◌, Bool-cases, update, update_self,
  add64,
}
use pointer_os.Kernel.Scheduler.{Process}
use pointer_os.Kernel.Spinlock.{Cpu}
use pointer_os.Kernel.Process.{
  Processes, clear_entries, copy_entries, create_user_process, half_table,
}
use pointer_os.Mm.Pmm.Page.{pmm_alloc_page-Took, IsFree}
use pointer_os.Mm.Kmalloc.{Kheap, kmalloc}
use pointer_os.Mm.Vmm.{
  Mmu, entry_at, is_present, is_huge, table_of, pml4_index, pdpt_index, pd_index, vmm_get_entry,
}
use pointer_os.Mm.Vmm.Tables.{Tables, free-level}

clear_entries_lem :
    (rounds : ℕ) (memory : ℕ → ℕ) (pml4 i a : ℕ)
    → clear_entries rounds memory pml4 i a ≡ (
        if leb (entry_at pml4 i) a && ltb a (entry_at pml4 (i + rounds)) && (a - pml4) % 8 == 0
        then 0
        else memory a)
unfolding clear_entries
clear_entries_lem zero memory pml4 i a = ground arith
clear_entries_lem (suc rounds) memory pml4 i a =
    ground (arith, clear_entries_lem rounds (update memory (entry_at pml4 i) 0) pml4 (i + 1) a)

-- The tables do not overlap.
copy_entries_lem :
    (rounds : ℕ) (memory : ℕ → ℕ) (old pml4 i a : ℕ)
    → i + rounds ≤ 512
    → (old + 0x1000 ≤ pml4) ⊎ (pml4 + 0x1000 ≤ old)
    → copy_entries rounds memory old pml4 i a ≡ (
        if leb (entry_at pml4 i) a && ltb a (entry_at pml4 (i + rounds)) && (a - pml4) % 8 == 0
        then memory (old + (a - pml4))
        else memory a)
unfolding copy_entries
copy_entries_lem zero memory old pml4 i a fits apart = ground arith
copy_entries_lem (suc rounds) memory old pml4 i a fits apart = ground (
  arith,
  copy_entries_lem rounds (update memory (entry_at pml4 i) (memory (entry_at old i))) old pml4
      (i + 1) a (omega arith) apart,
)

-- Two memories that differ in frame `f`, which is no table in the first and has the upper half of the
-- root table `n` in the second.
module _ (level : ℕ → ℕ) (m : Mmu) (tables : Tables level m) (n f : ℕ) (root : level n ≡ 4)
    (unused : level f ≡ 0) (memory' : ℕ → ℕ)
    (frame : (a : ℕ) → a / 0x1000 ≢ f → memory' a ≡ m.memory a)
    (upper : (i : ℕ)
      → 256 ≤ i
      → i < 512
      → memory' (entry_at (f * 0x1000) i) ≡ m.memory (entry_at (n * 0x1000) i)) where
  -- A table that a table of the first memory leads to is the same in both.
  same_table :
      (t i j : ℕ)
      → i < 512
      → j < 512
      → 1 < level t
      → let e = m.memory (entry_at (t * 0x1000) i) in
        e % 2 ≡ 1
        → e / 128 % 2 ≡ 0
        → suc (level (e / 0x1000)) ≡ level t
          × memory' (entry_at (table_of e) j) ≡ m.memory (entry_at (table_of e) j)
  same_table t i j hi hj low p s =
      let e = m.memory (entry_at (t * 0x1000) i) in
      let down = tables.below t i hi low p s in
      let inside : entry_at (table_of e) j / 0x1000 ≡ e / 0x1000 = omega arith in
      let other : entry_at (table_of e) j / 0x1000 ≢ f =
        λ z. absurd (omega (arith, down, unused, low, ap level (sym inside ∙ z))) in
      (down, frame (entry_at (table_of e) j) other)

  pub shared_walk :
      (vaddr : ℕ)
      → 256 ≤ pml4_index vaddr
      → m.memory (entry_at (n * 0x1000) (pml4_index vaddr)) / 128 % 2 ≡ 0
      → vmm_get_entry memory' (f * 0x1000) vaddr ≡ vmm_get_entry m.memory (n * 0x1000) vaddr
  unfolding vmm_get_entry
  shared_walk vaddr high small =
      let h4 : pml4_index vaddr < 512 = omega arith in
      let h3 : pdpt_index vaddr < 512 = omega arith in
      let h2 : pd_index vaddr < 512 = omega arith in
      let e4 = m.memory (entry_at (n * 0x1000) (pml4_index vaddr)) in
      let e3 = m.memory (entry_at (table_of e4) (pdpt_index vaddr)) in
      let e2 = m.memory (entry_at (table_of e3) (pd_index vaddr)) in
      let same4 = upper (pml4_index vaddr) high h4 in
      elim (Bool-cases (is_present e4)) [
        | inr absent4 ↦ rw (same4, absent4) refl
        | inl present4 ↦
            let thin4 : is_huge e4 ≡ false = ground arith in
            let (down3, same3) =
              same_table n (pml4_index vaddr) (pdpt_index vaddr) h4 h3 (omega arith) (ground arith)
                small in
            elim (Bool-cases (is_present e3)) [
              | inr absent3 ↦ rw (same4, present4, thin4, same3, absent3) refl
              | inl present3 ↦ elim (Bool-cases (is_huge e3)) [
                | inl huge3 ↦ rw (same4, present4, thin4, same3, present3, huge3) refl
                | inr thin3 ↦
                    let (down2, same2) =
                      same_table (e4 / 0x1000) (pdpt_index vaddr) (pd_index vaddr) h3 h2
                        (omega (arith, down3)) (ground arith) (ground arith) in
                    rw (same4, present4, thin4, same3, present3, thin3, same2) refl
              ]
            ]
      ]

-- The memory after both loops, at the entries of the table and elsewhere.
module _ (memory : ℕ → ℕ) (old pml4 : ℕ)
    (apart : (old + 0x1000 ≤ pml4) ⊎ (pml4 + 0x1000 ≤ old)) where
  filled_lower : (i : ℕ) → i < 256 → half_table memory old pml4 (entry_at pml4 i) ≡ 0
  unfolding half_table
  filled_lower i h =
      copy_entries_lem 256 (clear_entries 256 memory pml4 0) old pml4 256 (entry_at pml4 i)
        (omega arith) apart
      ∙ ground (arith, clear_entries_lem 256 memory pml4 0 (entry_at pml4 i))

  filled_upper :
      (i : ℕ)
      → 256 ≤ i
      → i < 512
      → half_table memory old pml4 (entry_at pml4 i) ≡ memory (entry_at old i)
  unfolding half_table
  filled_upper i low high =
      let offset : entry_at pml4 i - pml4 ≡ 8 * i = omega arith in
      copy_entries_lem 256 (clear_entries 256 memory pml4 0) old pml4 256 (entry_at pml4 i)
        (omega arith) apart
      ∙ ground (arith, offset, clear_entries_lem 256 memory pml4 0 (entry_at old i))

  filled_frame :
      (a : ℕ) → (a < pml4) ⊎ (pml4 + 0x1000 ≤ a) → half_table memory old pml4 a ≡ memory a
  unfolding half_table
  filled_frame a away =
      copy_entries_lem 256 (clear_entries 256 memory pml4 0) old pml4 256 a (omega arith) apart
      ∙ ground (arith, clear_entries_lem 256 memory pml4 0 a)

-- The page table at `pml4` leads nowhere from the lower half of the addresses, and from the upper half
-- to the same entries as the one at `old`, where that has no huge page in the root.
abbrev pub SharesKernel : (ℕ → ℕ) → ℕ → (ℕ → ℕ) → ℕ → Type 0
SharesKernel memory old memory' pml4 =
    ((vaddr : ℕ) → pml4_index vaddr < 256 → vmm_get_entry memory' pml4 vaddr ≡ none)
    × ((vaddr : ℕ)
        → 256 ≤ pml4_index vaddr
        → memory (entry_at old (pml4_index vaddr)) / 128 % 2 ≡ 0
        → vmm_get_entry memory' pml4 vaddr ≡ vmm_get_entry memory old vaddr)

no_lower_walk :
    (memory : ℕ → ℕ) (pml4 vaddr : ℕ)
    → memory (entry_at pml4 (pml4_index vaddr)) ≡ 0
    → vmm_get_entry memory pml4 vaddr ≡ none
unfolding vmm_get_entry
no_lower_walk memory pml4 vaddr e = rw e refl

outside : (a f : ℕ) → a / 0x1000 ≢ f → (a < f * 0x1000) ⊎ (f * 0x1000 + 0x1000 ≤ a)
outside a f other = elim (Bool-cases (ltb a (f * 0x1000))) [
  | inl low ↦ inl (ground arith)
  | inr high ↦ inr (ground arith)
]

filled-SharesKernel :
    (level : ℕ → ℕ) (m : Mmu) (n f : ℕ)
    → Tables level m
    → level n ≡ 4
    → level f ≡ 0
    → SharesKernel m.memory
        (n * 0x1000)
        (half_table m.memory (n * 0x1000) (f * 0x1000))
        (f * 0x1000)
filled-SharesKernel level m n f tables root unused =
    let ne : n ≢ f = λ e. absurd (omega (arith, root, unused, ap level e)) in
    let apart : (n * 0x1000 + 0x1000 ≤ f * 0x1000) ⊎ (f * 0x1000 + 0x1000 ≤ n * 0x1000) =
      elim (Bool-cases (ltb n f)) [
        | inl low ↦ inl (ground arith)
        | inr high ↦ inr (ground arith)
      ] in
    let memory' = half_table m.memory (n * 0x1000) (f * 0x1000) in
    (
      (λ vaddr low.
          no_lower_walk memory' (f * 0x1000) vaddr
            (filled_lower m.memory (n * 0x1000) (f * 0x1000) apart (pml4_index vaddr) low)),
      shared_walk level m tables n f root unused memory'
          (λ a other. filled_frame m.memory (n * 0x1000) (f * 0x1000) apart a (outside a f other))
          (filled_upper m.memory (n * 0x1000) (f * 0x1000) apart),
    )

-- When `kmalloc` has room for the process and a page is free, `create_user_process` returns a process
-- with the next number, whose page table shares the kernel's half with the current one and has nothing
-- in the user's half.
pub create_user_process-SharesKernel :
    (level : ℕ → ℕ) (s : Processes) (n : ℕ) (cpu : Cpu) (kheap : Kheap) (p i : ℕ)
    → Tables level s.mmu
    → level n ≡ 4
    → s.cr3 ≡ n * 0x1000
    → kmalloc s.mmu.cpu s.kheap 32 ≡ some (cpu, kheap, p)
    → p ≢ 0
    → i < s.mmu.pmm.total_pages
    → IsFree s.mmu.pmm.bitmap i
    → (s' : Processes) × (create_user_process s ≡ some (s', p))
      × ((s'.process p).pid ≡ s.next_process_id)
      × SharesKernel s.mmu.memory s.cr3 s'.mmu.memory (s'.process p).pml4
unfolding create_user_process
create_user_process-SharesKernel level s n cpu kheap p i tables root here allocated room low free =
    let (pmm', paddr, run, valid, total, lock, took) =
      pmm_alloc_page-Took cpu s.mmu.pmm tables.valid in
    elim took [
      | inl (f, inside, at, page, below, now) ↦
          let frame_0 : f ≢ 0 = λ z. absurd (ground (arith, tables.first)) in
          let some_process : (p == 0) ≡ false = ground arith in
          let some_page : (paddr == 0) ≡ false = ground arith in
          let made : Process = record {
            pml4 = paddr;
            pid = s.next_process_id;
            ustacks_infos = 0;
          } in
          let own : update s.process p made p ≡ made = update_self s.process p made in
          (
            record s {
              kheap = kheap;
              mmu = record s.mmu {
                cpu = cpu;
                pmm = pmm';
                memory = half_table s.mmu.memory s.cr3 paddr;
              };
              process = update s.process p made;
              next_process_id = add64 s.next_process_id 1;
            },
            rw (allocated, some_process, run, some_page) refl,
            ap (λ q. q.pid) own,
            rw (own, here, at)
                (filled-SharesKernel level s.mmu n f tables root
                  (free-level level s.mmu tables f page)),
          )
      | inr (e, same, all) ↦ absurd (ground (arith, all i low))
    ]
