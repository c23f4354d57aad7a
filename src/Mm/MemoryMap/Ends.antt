-- ===== src/Mm/MemoryMap/Ends.antt =====
-- The highest end of the entries.
use pointer_os.Base.{
  ℕ, ◌≤◌, ◌<◌, ◌≡◌, refl, sym, ap, ◌∙◌, ◌⊎◌, inl, inr, Bool, true, ◌&&◌, some, List, [], ◌∷◌, ◌++◌,
  arith, ltb, if◌then◌else◌, Bool-cases, length,
}
use mathlib.Core.Path.{subst}
use pointer_os.Libc.{Memory}
use pointer_os.Boot.{first_tag, TagsAt, over_tags, walk_tags-over_tags}
use pointer_os.Mm.MemoryMap.{MmapEntry, entries_of, end_of, raise, highest_end}

-- The entries of all tags.
abbrev pub all_entries : Memory → List ℕ → List MmapEntry
all_entries m [] = []
all_entries m (t ∷ ts) = entries_of m t ++ all_entries m ts

raise-append :
    (counts : MmapEntry → Bool) (n : ℕ) (xs ys : List MmapEntry)
    → raise counts n (xs ++ ys) ≡ raise counts (raise counts n xs) ys
unfolding raise
raise-append counts n [] ys = refl
raise-append counts n (e ∷ xs) ys =
    raise-append counts (if counts e && ltb n (end_of e) then end_of e else n) xs ys

over_tags-raise :
    (counts : MmapEntry → Bool) (m : Memory) (n : ℕ) (ts : List ℕ)
    → over_tags (λ max_addr tag. raise counts max_addr (entries_of m tag)) n ts
      ≡ raise counts n (all_entries m ts)
unfolding raise
over_tags-raise counts m n [] = refl
over_tags-raise counts m n (t ∷ ts) =
    over_tags-raise counts m (raise counts n (entries_of m t)) ts
    ∙ sym (raise-append counts n (entries_of m t) (all_entries m ts))

pub highest_end-raise :
    (counts : MmapEntry → Bool) (fuel : ℕ) (m : Memory) (boot_info : ℕ) (ts : List ℕ)
    → TagsAt m (first_tag boot_info) ts
    → length ts < fuel
    → highest_end counts fuel m boot_info ≡ some (raise counts 0 (all_entries m ts))
unfolding highest_end
highest_end-raise counts fuel m boot_info ts at enough =
    walk_tags-over_tags ts m _ 0 (first_tag boot_info) fuel at enough
    ∙ ap some (over_tags-raise counts m 0 ts)

-- No entry that counts ends above `top`.
abbrev pub Below : (MmapEntry → Bool) → ℕ → List MmapEntry → Type 0
Below counts top [] = Unit
Below counts top (e ∷ es) = (counts e ≡ true → end_of e ≤ top) × Below counts top es

-- One of the entries that count ends at `top`, or `top` is `low`.
abbrev pub Reaches : (MmapEntry → Bool) → ℕ → ℕ → List MmapEntry → Type 0
Reaches counts low top [] = top ≡ low
Reaches counts low top (e ∷ es) = ((counts e ≡ true) × (top ≡ end_of e)) ⊎ Reaches counts low top es

Reaches-raised :
    (counts : MmapEntry → Bool) (e : MmapEntry) (low top : ℕ) (es : List MmapEntry)
    → counts e ≡ true
    → Reaches counts (end_of e) top es
    → Reaches counts low top (e ∷ es)
Reaches-raised counts e low top [] counted here = inl (counted, here)
Reaches-raised counts e low top (x ∷ es) counted (inl here) = inr (inl here)
Reaches-raised counts e low top (x ∷ es) counted (inr later) =
    elim (Reaches-raised counts e low top es counted later) [
      | inl here ↦ inl here
      | inr more ↦ inr (inr more)
    ]

-- `top` is the highest end of the entries that count, and of `low`.
abbrev pub IsHighest : (MmapEntry → Bool) → ℕ → List MmapEntry → ℕ → Type 0
IsHighest counts low es top = (low ≤ top) × Below counts top es × Reaches counts low top es

pub raise-IsHighest :
    (counts : MmapEntry → Bool) (low : ℕ) (es : List MmapEntry)
    → IsHighest counts low es (raise counts low es)
unfolding raise
raise-IsHighest counts low [] = (omega arith, tt, refl)
raise-IsHighest counts low (e ∷ es) =
    let step = λ (n : ℕ). IsHighest counts low (e ∷ es) (raise counts n es) in
    elim (Bool-cases (counts e && ltb low (end_of e))) [
      | inl higher ↦
          let (up, below, reaches) = raise-IsHighest counts (end_of e) es in
          let next : (if counts e && ltb low (end_of e) then end_of e else low) ≡ end_of e =
            rw higher refl in
          let counted : counts e ≡ true = ground arith in
          let over : low ≤ end_of e = ground arith in
          subst step (sym next) (
            omega arith,
            ((λ h. up), below),
            Reaches-raised counts e low (raise counts (end_of e) es) es counted reaches,
          )
      | inr lower ↦
          let (up, below, reaches) = raise-IsHighest counts low es in
          let next : (if counts e && ltb low (end_of e) then end_of e else low) ≡ low =
            rw lower refl in
          let under : counts e ≡ true → end_of e ≤ low = λ h. ground arith in
          subst step (sym next) (up, ((λ h. omega (arith, under h, up)), below), inr reaches)
    ]
