-- ===== src/Mm/StartupTests.antt =====
-- The direct mapping of 4 MB where the pages 3, 9 and 10 are free.
use pointer_os.Base.{ℕ, ◌+◌, ◌≡◌, refl, Option, none, some, [], ◌==◌, if◌then◌else◌, ◌>>=◌}
use pointer_os.Boot.{direct_offset}
use pointer_os.Kernel.Spinlock.{spin_lock_irqsave, spin_lock_irqrestore}
use pointer_os.Mm.Pmm.{bitmap_set, bitmap_test, pmm_alloc_page}
use pointer_os.Mm.Vmm.{Mmu, descend, vmm_get_entry}
use pointer_os.Mm.Startup.{map_direct, vmm_init_direct_mapping, init_pat}

abbrev bare : Mmu
bare = record {
  memory = λ p. if p == 0x1ff8 then 0x2003 else 0;
  cpu = record { rflags = 0x202 };
  pmm = record {
    bitmap = λ i. if i == 0 then 0xf7 else if i == 1 then 0xf9 else 0xff;
    total_pages = 16;
    lock = record { lock = 0 };
  };
  flushed = [];
}

-- What the walk finds at an address, and the entry there.
abbrev found : Option (Mmu × ℕ) → ℕ → Option (ℕ × ℕ × ℕ)
found none vaddr = none
found (some (m, cr3)) vaddr =
    vmm_get_entry m.memory cr3 vaddr >>= λ e. some (e.0, e.1, m.memory e.0)

-- The second 2 MB are mapped by one large entry, and the kernel's upper entry was taken over.
maps_directly :
    let r = vmm_init_direct_mapping 3 bare 0x1000 0x400000 in
    (found r (direct_offset + 0x200000) ≡ some (0xa008, 2, 0x200083))
    × (found r (direct_offset + 0x400000) ≡ none)
    × ((r >>= λ x. some (x.0.memory 0x3ff8)) ≡ some 0x2003)
unfolding vmm_init_direct_mapping map_direct descend pmm_alloc_page bitmap_test bitmap_set
    spin_lock_irqsave spin_lock_irqrestore vmm_get_entry
maps_directly = (refl, refl, refl)

fifth_attribute : init_pat 0x0007040600070406 ≡ 0x0007040600070406
unfolding init_pat
fifth_attribute = refl
