-- ===== src/Mm/Region.antt =====
-- The lists of regions that mm/vmalloc.c and mm/stack.c keep: `vm_info_t` and `us_info_t` have the
-- same fields, and their list functions the same steps. They differ in where the first region
-- starts, where one behind another starts, and in the test for a gap, which are parameters here.
pub mod Place
pub mod Insert
pub mod Remove
pub mod Ordered
use pointer_os.Base.{ℕ, zero, suc, Bool, Option, none, some, ◌==◌, if◌then◌else◌, ◌>>=◌, update}

-- `vm_info_t` and `us_info_t`
pub record Region : Type 0 where
  pub base : ℕ
  pub size : ℕ
  pub next : ℕ
  pub prev : ℕ

-- The structs by address, and the list's head.
pub record Regions : Type 0 where
  pub node : ℕ → Region
  pub head : ℕ

abbrev pub set_next : (ℕ → Region) → ℕ → ℕ → ℕ → Region
set_next f p q = update f p (record (f p) { next = q })

abbrev pub set_prev : (ℕ → Region) → ℕ → ℕ → ℕ → Region
set_prev f p q = update f p (record (f p) { prev = q })

abbrev pub set_base : (ℕ → Region) → ℕ → ℕ → ℕ → Region
set_base f p b = update f p (record (f p) { base = b })

module _ (start : ℕ) (behind : ℕ → ℕ → ℕ) (has_gap : ℕ → ℕ → ℕ → ℕ → Bool) where
  -- Between `current` and `next`.
  unfoldable pub put_between : (ℕ → Region) → ℕ → ℕ → ℕ → ℕ → Region
  put_between f i current next =
      let f = set_base f i (behind (f current).base (f current).size) in
      let f = set_next f i next in
      let f = set_prev f i current in let f = set_next f current i in set_prev f next i

  -- Behind the last region.
  unfoldable pub put_last : (ℕ → Region) → ℕ → ℕ → ℕ → Region
  put_last f i current =
      let f = set_base f i (behind (f current).base (f current).size) in
      let f = set_prev f i current in let f = set_next f i 0 in set_next f current i

  -- The `while` loop and what follows it. `none` means that the fuel ran out.
  pub add_from : ℕ → (ℕ → Region) → ℕ → ℕ → ℕ → Option (ℕ → Region)
  add_from zero f i current next = none
  add_from (suc fuel) f i current next =
      let rest = add_from fuel f i next (f next).next in
      if next == 0
      then some (put_last f i current)
      else if has_gap (f current).base (f current).size (f i).size (f next).base
      then some (put_between f i current next)
      else rest

  unfoldable pub add_to_list : ℕ → Regions → ℕ → Option Regions
  unfolding add_from
  add_to_list fuel s i =
      let walk = add_from fuel s.node i s.head (s.node s.head).next in
      if s.head == 0
      then some (record { node = set_next (set_prev (set_base s.node i start) i 0) i 0; head = i })
      else walk >>= λ f. some (record s { node = f })

-- `vm_remove_from_list` and `us_remove_from_list`.
unfoldable pub remove_from_list : Regions → ℕ → Regions
remove_from_list s i =
    let f = s.node in
    let head = if s.head == i then (f i).next else s.head in
    let f = if (f i).next == 0 then f else set_prev f (f i).next (f i).prev in
    let f = if (f i).prev == 0 then f else set_next f (f i).prev (f i).next in
    if i == 0 then s else record { node = set_prev (set_next f i 0) i 0; head = head }
