-- ===== src/Mm/Pmm/Bitmap.antt =====
-- The three bitmap macros against the set of taken pages.
use pointer_os.Base.{
  ℕ, ◌/◌, ◌%◌, ◌<◌, ◌≡◌, inl, inr, false, ◌&&◌, ◌||◌, not, arith, ◌==◌, ==_iff, Bool-cases,
  byte_bit-set, byte_bit-clear, set-lt, clear-lt,
}
use pointer_os.Mm.Pmm.{Bitmap, bitmap_set, bitmap_clr, bitmap_test}

-- Each element of a `uint8_t` array is a byte.
abbrev pub IsBytes : Bitmap → Type 0
IsBytes b = (i : ℕ) → b i < 256

same_page : (i j : ℕ) → (i / 8 ≡ j / 8) → (i % 8 == j % 8) ≡ (i == j)
same_page i j h = ground arith

module _ (b : Bitmap) (bytes : IsBytes b) (i : ℕ) where
  pub bitmap_set-IsBytes : IsBytes (bitmap_set b i)
  unfolding bitmap_set
  bitmap_set-IsBytes j = ground (arith, bytes j, set-lt (b (i / 8)) (i % 8) 0 (bytes (i / 8)))

  pub bitmap_clr-IsBytes : IsBytes (bitmap_clr b i)
  unfolding bitmap_clr
  bitmap_clr-IsBytes j = ground (arith, bytes j, clear-lt (b (i / 8)) (i % 8) 0 (bytes (i / 8)))

  -- After `BITMAP_SET(i)` the pages that test as taken are those before, and `i`.
  pub bitmap_test-set : (j : ℕ) → bitmap_test (bitmap_set b i) j ≡ ((j == i) || bitmap_test b j)
  unfolding bitmap_test bitmap_set
  bitmap_test-set j = elim (Bool-cases (j / 8 == i / 8)) [
    | inl e ↦
        let q : j / 8 ≡ i / 8 = (==_iff _ _).0 e in
        rw (
          e,
          q,
          byte_bit-set (b (i / 8)) (i % 8) (j % 8) (bytes (i / 8)) (omega arith) (omega arith),
          same_page j i q,
        )
    | inr e ↦ let ne : (j == i) ≡ false = ground arith in rw (e, ne)
  ]

  -- After `BITMAP_CLR(i)` the pages that test as taken are those before, without `i`.
  pub bitmap_test-clr : (j : ℕ) → bitmap_test (bitmap_clr b i) j ≡ (not (j == i) && bitmap_test b j)
  unfolding bitmap_test bitmap_clr
  bitmap_test-clr j = elim (Bool-cases (j / 8 == i / 8)) [
    | inl e ↦
        let q : j / 8 ≡ i / 8 = (==_iff _ _).0 e in
        rw (
          e,
          q,
          byte_bit-clear (b (i / 8)) (i % 8) (j % 8) (bytes (i / 8)) (omega arith) (omega arith),
          same_page j i q,
        )
    | inr e ↦ let ne : (j == i) ≡ false = ground arith in rw (e, ne)
  ]
