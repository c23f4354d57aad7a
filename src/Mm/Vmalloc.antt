-- ===== src/Mm/Vmalloc.antt =====
-- mm/vmalloc.c: the list of the regions of kernel addresses, upwards from `VMALLOC_START`.
pub mod Ascending
use pointer_os.Base.{ℕ, Bool, Option, leb, add64}
use pointer_os.Mm.Region.{Regions, add_to_list, remove_from_list}

abbrev pub vmalloc_start : ℕ
vmalloc_start = 0xffff_c000_0000_0000

-- `current->base + current->size`
abbrev pub region_end : ℕ → ℕ → ℕ
region_end base size = add64 base size

-- `current->base + current->size + i->size <= next->base`
abbrev pub fits_below : ℕ → ℕ → ℕ → ℕ → Bool
fits_below base size new next_base = leb (add64 (add64 base size) new) next_base

unfoldable pub vm_add_to_list : ℕ → Regions → ℕ → Option Regions
vm_add_to_list = add_to_list vmalloc_start region_end fits_below

unfoldable pub vm_remove_from_list : Regions → ℕ → Regions
vm_remove_from_list = remove_from_list
