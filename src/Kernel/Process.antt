-- ===== src/Kernel/Process.antt =====
-- kernel/scheduler/process.c: a new process and its root page table.
pub mod KernelHalf
use pointer_os.Base.{ℕ, zero, suc, ◌+◌, Option, some, ◌==◌, if◌then◌else◌, ◌>>=◌, update, add64}
use pointer_os.Kernel.Scheduler.{Process}
use pointer_os.Mm.Pmm.{pmm_alloc_page}
use pointer_os.Mm.Kmalloc.{Kheap, kmalloc, kfree}
use pointer_os.Mm.Vmm.{Mmu, entry_at}

-- What the function reads and writes: the heap, the physical memory with its pages, the processes by
-- address, `next_process_id` and the register CR3.
pub record Processes : Type 0 where
  pub kheap : Kheap
  pub mmu : Mmu
  pub process : ℕ → Process
  pub next_process_id : ℕ
  pub cr3 : ℕ

-- The loop that clears the entries of the table from number `i`.
pub clear_entries : ℕ → (ℕ → ℕ) → ℕ → ℕ → ℕ → ℕ
clear_entries zero memory pml4 i = memory
clear_entries (suc rounds) memory pml4 i =
    clear_entries rounds (update memory (entry_at pml4 i) 0) pml4 (i + 1)

-- The loop that copies entries from the old table.
pub copy_entries : ℕ → (ℕ → ℕ) → ℕ → ℕ → ℕ → ℕ → ℕ
copy_entries zero memory old pml4 i = memory
copy_entries (suc rounds) memory old pml4 i =
    copy_entries rounds (update memory (entry_at pml4 i) (memory (entry_at old i))) old pml4 (i + 1)

-- Both loops.
unfoldable pub half_table : (ℕ → ℕ) → ℕ → ℕ → ℕ → ℕ
half_table memory old pml4 = copy_entries 256 (clear_entries 256 memory pml4 0) old pml4 256

-- `process_t` has 32 bytes. `none` comes from the locks.
unfoldable pub create_user_process : Processes → Option (Processes × ℕ)
create_user_process s = kmalloc s.mmu.cpu s.kheap 32 >>= λ allocated.
    let p = allocated.2 in
    let s1 = record s { kheap = allocated.1; mmu = record s.mmu { cpu = allocated.0 } } in
    let with_table = pmm_alloc_page s1.mmu.cpu s1.mmu.pmm >>= λ taken.
    let pml4 = taken.2 in
    let given_back = kfree taken.0 s1.kheap p >>= λ freed. some (
      record s1 {
        kheap = freed.1;
        mmu = record s1.mmu { cpu = freed.0; pmm = taken.1 };
        process = update s1.process p (record { pml4 = 0; pid = 0; ustacks_infos = 0 });
      },
      0,
    ) in
    let memory = half_table s1.mmu.memory s1.cr3 pml4 in
    let created = some (
      record s1 {
        mmu = record s1.mmu { cpu = taken.0; pmm = taken.1; memory = memory };
        process =
            update s1.process p
              (record { pml4 = pml4; pid = s1.next_process_id; ustacks_infos = 0 });
        next_process_id = add64 s1.next_process_id 1;
      },
      p,
    ) in
    if pml4 == 0 then given_back else created in
    if p == 0 then some (s1, 0) else with_table
