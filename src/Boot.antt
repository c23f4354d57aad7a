-- ===== src/Boot.antt =====
-- include/multiboot2.h: the tags that the boot loader leaves in memory, and the loop over them that
-- kernel functions share. The memory is one of bytes, by virtual address.
use pointer_os.Base.{
  ℕ, zero, suc, ◌+◌, ◌*◌, ◌/◌, ◌^◌, ◌<◌, ◌≡◌, refl, ◌≢◌, true, false, Option, none, some, List, [],
  ◌∷◌, arith, ◌==◌, if◌then◌else◌, length, add64,
}
use pointer_os.Libc.{Memory}

-- Little-endian fields.
abbrev pub read16 : Memory → ℕ → ℕ
read16 m a = m a + m (a + 1) * 2 ^ 8

abbrev pub read32 : Memory → ℕ → ℕ
read32 m a = read16 m a + read16 m (a + 2) * 2 ^ 16

abbrev pub read64 : Memory → ℕ → ℕ
read64 m a = read32 m a + read32 m (a + 4) * 2 ^ 32

abbrev pub kernel_offset : ℕ
kernel_offset = 0xffff_ffff_8000_0000

abbrev pub direct_offset : ℕ
direct_offset = 0xffff_8000_0000_0000

abbrev pub next_tag : Memory → ℕ → ℕ
next_tag m tag = add64 (add64 tag (read32 m (tag + 4))) 7 / 8 * 8

-- The tags stand 8 bytes behind the start of the boot information.
abbrev pub first_tag_at : ℕ → ℕ → ℕ
first_tag_at offset boot_info = add64 (add64 boot_info offset) 8

abbrev pub first_tag : ℕ → ℕ
first_tag = first_tag_at kernel_offset

-- From address `tag` on stand the tags `ts`, and behind them the end tag.
abbrev pub TagsAt : Memory → ℕ → List ℕ → Type 0
TagsAt m tag [] = read32 m tag ≡ 0
TagsAt m tag (t ∷ ts) = (tag ≡ t) × (read32 m t ≢ 0) × TagsAt m (next_tag m t) ts

module _ {ℓ} {S : Type ℓ} where
  -- `while (tag->type != MULTIBOOT_TAG_TYPE_END)` around a body that is left at the end tag only. `none`
  -- means that the fuel ran out.
  pub walk_tags : ℕ → Memory → (S → ℕ → S) → S → ℕ → Option S
  walk_tags zero m body s tag = none
  walk_tags (suc fuel) m body s tag =
      let rest = walk_tags fuel m body (body s tag) (next_tag m tag) in
      if read32 m tag == 0 then some s else rest

  -- The body on one tag after the other.
  abbrev pub over_tags : (S → ℕ → S) → S → List ℕ → S
  over_tags body s [] = s
  over_tags body s (t ∷ ts) = over_tags body (body s t) ts

  pub walk_tags-over_tags :
      (ts : List ℕ) (m : Memory) (body : S → ℕ → S) (s : S) (tag fuel : ℕ)
      → TagsAt m tag ts
      → length ts < fuel
      → walk_tags fuel m body s tag ≡ some (over_tags body s ts)
  unfolding walk_tags
  walk_tags-over_tags ts m body s tag zero at enough = absurd (omega arith)
  walk_tags-over_tags [] m body s tag (suc fuel) at enough =
      let end : (read32 m tag == 0) ≡ true = ground arith in rw end refl
  walk_tags-over_tags (t ∷ ts) m body s tag (suc fuel) (here, more, rest) enough =
      let on : (read32 m t == 0) ≡ false = ground arith in
      rw (here, on)
        (walk_tags-over_tags ts m body (body s t) (next_tag m t) fuel rest (omega arith))
