-- ===== src/Mm/Stack.antt =====
-- mm/stack.c: the list of user stacks, downwards from `USER_STACK_MAX`. The `base` of a stack is
-- the address just above it.
pub mod Descending
use pointer_os.Base.{ℕ, Bool, Option, leb, sub64}
use pointer_os.Mm.Region.{Regions, add_to_list, remove_from_list}

abbrev pub user_stack_max : ℕ
user_stack_max = 0x7fff_ffff_f000

-- `current->base - current->size`
abbrev pub stack_end : ℕ → ℕ → ℕ
stack_end base size = sub64 base size

-- `current->base - current->size - i->size >= next->base`
abbrev pub fits_above : ℕ → ℕ → ℕ → ℕ → Bool
fits_above base size new next_base = leb next_base (sub64 (sub64 base size) new)

unfoldable pub us_add_to_list : ℕ → Regions → ℕ → Option Regions
us_add_to_list = add_to_list user_stack_max stack_end fits_above

unfoldable pub us_remove_from_list : Regions → ℕ → Regions
us_remove_from_list = remove_from_list
