-- ===== src/Fs/Ramdisk.antt =====
-- fs/fs.c: the search for the ramdisk among the tags that the boot loader left, over a memory of bytes.
use pointer_os.Base.{
  ℕ, zero, suc, ◌+◌, ◌<◌, ◌≡◌, refl, inl, inr, Bool, true, false, Option, none, some, List, [], ◌∷◌,
  arith, ◌==◌, if◌then◌else◌, Bool-cases, length, add64,
}
use pointer_os.Libc.{Memory, same, memcmp}
use pointer_os.Boot.{read32, direct_offset, next_tag, first_tag, TagsAt}

-- `ramdisk_t`
pub record Ramdisk : Type 0 where
  pub kind : ℕ
  pub size : ℕ
  pub start : ℕ
  pub end : ℕ

-- What the module tag at `tag` says.
abbrev pub module_at : Memory → ℕ → Ramdisk
module_at m tag = record {
  kind = read32 m tag;
  size = read32 m (tag + 4);
  start = add64 (read32 m (tag + 8)) direct_offset;
  end = add64 (read32 m (tag + 12)) direct_offset;
}

-- `memcmp(module->cmdline, "ramdisk", 7) == 0`, with the text at address `text`.
abbrev pub is_ramdisk : Memory → ℕ → ℕ → Bool
is_ramdisk m text tag = elim (memcmp m (tag + 16) text 7) [ same ↦ true | _ ↦ false ]

-- How `parse_ramdisk` ends: it returns with the variable `ramdisk`, or it stops for good at the end
-- of the tags.
pub data Search : Type 0 where
  returns : Ramdisk → Search
  stops : Search

-- The loop at `tag`. `none` means that the fuel ran out.
pub parse_from : ℕ → Memory → ℕ → Ramdisk → ℕ → Option Search
parse_from zero m text r tag = none
parse_from (suc fuel) m text r tag =
    let rest = parse_from fuel m text r (next_tag m tag) in
    if read32 m tag == 0
    then some stops
    else if read32 m tag == 3
    then some (returns (if is_ramdisk m text tag then module_at m tag else r))
    else rest

unfoldable pub parse_ramdisk : ℕ → Memory → ℕ → Ramdisk → ℕ → Option Search
unfolding parse_from
parse_ramdisk fuel m text r boot_info = parse_from fuel m text r (first_tag boot_info)

-- The first module among the tags.
abbrev pub first_module : Memory → List ℕ → Option ℕ
first_module m [] = none
first_module m (t ∷ ts) = if read32 m t == 3 then some t else first_module m ts

-- What the first module makes of `ramdisk`.
abbrev pub outcome : Memory → ℕ → Ramdisk → Option ℕ → Search
outcome m text r none = stops
outcome m text r (some t) = returns (if is_ramdisk m text t then module_at m t else r)

parse_from-first_module :
    (ts : List ℕ) (m : Memory) (text : ℕ) (r : Ramdisk) (tag : ℕ) (fuel : ℕ)
    → TagsAt m tag ts
    → length ts < fuel
    → parse_from fuel m text r tag ≡ some (outcome m text r (first_module m ts))
unfolding parse_from
parse_from-first_module ts m text r tag zero at enough = absurd (omega arith)
parse_from-first_module [] m text r tag (suc fuel) at enough =
    let end : (read32 m tag == 0) ≡ true = ground arith in rw end refl
parse_from-first_module (t ∷ ts) m text r tag (suc fuel) (here, more, rest) enough =
    let on : (read32 m t == 0) ≡ false = ground arith in
    elim (Bool-cases (read32 m t == 3)) [
      | inl found ↦ rw (here, on, found) refl
      | inr other ↦
          rw (here, on, other)
            (parse_from-first_module ts m text r (next_tag m t) fuel rest (omega arith))
    ]

-- With more rounds than there are tags, `parse_ramdisk` does what the first module tag says: it takes
-- that module for the ramdisk when its command line starts with the text, leaves the variable alone
-- when it does not, and stops for good when there is no module. Later modules play no part.
pub parse_ramdisk-first_module :
    (ts : List ℕ) (m : Memory) (text : ℕ) (r : Ramdisk) (boot_info fuel : ℕ)
    → TagsAt m (first_tag boot_info) ts
    → length ts < fuel
    → parse_ramdisk fuel m text r boot_info ≡ some (outcome m text r (first_module m ts))
unfolding parse_ramdisk
parse_ramdisk-first_module ts m text r boot_info fuel at enough =
    parse_from-first_module ts m text r (first_tag boot_info) fuel at enough
