-- ===== src/Drivers/Klog/Write.antt =====
-- `klog_write` puts characters behind those that the log holds.
use pointer_os.Base.{
  ℕ, zero, suc, ◌+◌, ◌-◌, ◌%◌, ◌^◌, ◌≤◌, ◌<◌, ◌≡◌, refl, sym, ap, ◌∙◌, ◌≢◌, inl, inr, true, false,
  not, some, List, [], ◌∷◌, ◌++◌, append-nil, arith, ltb, ◌==◌, Bool-cases, length, take,
  length-append, update, update_self, update_ne, add64,
}
use mathlib.Core.Path.{subst}
use pointer_os.Kernel.Spinlock.{Cpu, spin_lock_irqrestore}
use pointer_os.Drivers.Klog.{LogEntry, Klog, store_chars, klog_write, lag, free_lock}

-- Character `i`, or 0 behind the end.
abbrev pub char_at : List ℕ → ℕ → ℕ
char_at [] i = 0
char_at (x ∷ xs) zero = x
char_at (x ∷ xs) (suc i) = char_at xs i

char_at-left : (p t : List ℕ) (i : ℕ) → i < length p → char_at (p ++ t) i ≡ char_at p i
char_at-left [] t i h = absurd (omega arith)
char_at-left (x ∷ p) t zero h = refl
char_at-left (x ∷ p) t (suc i) h = char_at-left p t i (omega arith)

char_at-right : (p t : List ℕ) (i : ℕ) → char_at (p ++ t) (length p + i) ≡ char_at t i
char_at-right [] t i = ap (char_at t) (omega arith)
char_at-right (x ∷ p) t i =
    let next : suc (length p) + i ≡ suc (length p + i) = omega arith in
    rw next (char_at-right p t i)

-- The buffer is there, both locks are free, and the characters `p` are in the log, of which the last 4096 are stored.
pub record Holds (k : Klog) (p : List ℕ) : Type 0 where
  pub there : k.allocated ≡ true
  pub head : k.klog_head < 2 ^ 64
  pub tail : k.klog_tail < 2 ^ 64
  pub count : lag k ≡ length p
  pub write_lock : k.klog_write_lock.lock ≡ 0
  pub read_lock : k.klog_read_lock.lock ≡ 0
  pub stored :
      (i : ℕ)
      → i < length p
      → length p ≤ i + 4096
      → k.klog_buffer ((k.klog_tail + i) % 4096) ≡ record { c = char_at p i; ready = 1 }

store_chars-else :
    (s : List ℕ) (buffer : ℕ → LogEntry) (pos q : ℕ)
    → ((j : ℕ) → j < length s → q ≢ (pos + j) % 4096)
    → store_chars buffer pos s q ≡ buffer q
unfolding store_chars
store_chars-else [] buffer pos q h = refl
store_chars-else (x ∷ s) buffer pos q h =
    store_chars-else s (update buffer (pos % 4096) (record { c = x; ready = 1 })) (add64 pos 1) q
      (λ j hj e. h (suc j) (omega arith) (omega (arith, e)))
    ∙ update_ne buffer (pos % 4096) _ q (λ e. h 0 (omega arith) (omega (arith, e)))

store_chars-at :
    (s : List ℕ) (buffer : ℕ → LogEntry) (pos i : ℕ)
    → length s ≤ 4096
    → i < length s
    → store_chars buffer pos s ((pos + i) % 4096) ≡ record { c = char_at s i; ready = 1 }
unfolding store_chars
store_chars-at [] buffer pos i h hi = absurd (omega arith)
store_chars-at (x ∷ s) buffer pos zero h hi =
    let first : (pos + 0) % 4096 ≡ pos % 4096 = omega arith in
    rw first (
      store_chars-else s (update buffer (pos % 4096) (record { c = x; ready = 1 })) (add64 pos 1)
        (pos % 4096) (λ j hj e. absurd (omega (arith, e)))
      ∙ update_self buffer (pos % 4096) _)
store_chars-at (x ∷ s) buffer pos (suc i) h hi =
    let slot : (pos + suc i) % 4096 ≡ (add64 pos 1 + i) % 4096 = omega arith in
    rw slot (
      store_chars-at s (update buffer (pos % 4096) (record { c = x; ready = 1 })) (add64 pos 1) i
        (omega arith) (omega arith))

length-take : (n : ℕ) (s : List ℕ) → length (take n s) ≤ n
length-take zero s = omega arith
length-take (suc n) [] = omega arith
length-take (suc n) (x ∷ s) = omega (arith, length-take n s)

-- The characters after a write.
module _ (k : Klog) (p t : List ℕ) (holds : Holds k p) (short : length t ≤ 4096)
    (room : length p + length t < 2 ^ 64) where
  abbrev written : ℕ → LogEntry
  written = store_chars k.klog_buffer k.klog_head t

  place : (i : ℕ) → (k.klog_tail + (length p + i)) % 4096 ≡ (k.klog_head + i) % 4096
  place i = omega (arith, holds.head, holds.tail, holds.count)

  written-old :
      (i : ℕ)
      → i < length p
      → length p + length t ≤ i + 4096
      → written ((k.klog_tail + i) % 4096) ≡ record { c = char_at (p ++ t) i; ready = 1 }
  written-old i hi recent = rw (char_at-left p t i hi) (
      store_chars-else t k.klog_buffer k.klog_head ((k.klog_tail + i) % 4096)
        (λ j hj e. absurd (omega (arith, e, place j)))
      ∙ holds.stored i hi (omega arith))

  written-new :
      (j : ℕ)
      → j < length t
      → written ((k.klog_tail + (length p + j)) % 4096)
        ≡ record { c = char_at (p ++ t) (length p + j); ready = 1 }
  written-new j hj =
      rw (place j, char_at-right p t j) (store_chars-at t k.klog_buffer k.klog_head j short hj)

  written-stored :
      (i : ℕ)
      → i < length (p ++ t)
      → length (p ++ t) ≤ i + 4096
      → written ((k.klog_tail + i) % 4096) ≡ record { c = char_at (p ++ t) i; ready = 1 }
  written-stored i hi recent =
      let total = length-append {0} p t in
      elim (Bool-cases (ltb i (length p))) [
        | inl old ↦ written-old i (ground arith) (omega (arith, total))
        | inr new ↦
            let shift : length p + (i - length p) ≡ i = ground arith in
            subst
              (λ (n : ℕ).
                written ((k.klog_tail + n) % 4096) ≡ record { c = char_at (p ++ t) n; ready = 1 })
              shift (written-new (i - length p) (omega (arith, total, shift)))
      ]

nil_of_length : (t : List ℕ) → length t ≡ 0 → t ≡ []
nil_of_length [] h = refl
nil_of_length (x ∷ t) h = absurd (omega arith)

-- A write puts its first 4096 characters behind those in the log.
pub klog_write-Holds :
    (cpu : Cpu) (k : Klog) (p s : List ℕ)
    → Holds k p
    → length p + length (take 4096 s) < 2 ^ 64
    → (k' : Klog) × (klog_write cpu k s ≡ some (cpu, k')) × Holds k' (p ++ take 4096 s)
unfolding klog_write spin_lock_irqrestore
klog_write-Holds cpu k p s holds room =
    let t = take 4096 s in
    let present : not k.allocated ≡ false = ap not holds.there in
    elim (Bool-cases (length t == 0)) [
      | inl nothing ↦ (
        k,
        rw (present, nothing) refl,
        subst (λ (u : List ℕ). Holds k (p ++ u)) (sym (nil_of_length t (ground arith)))
            (subst (Holds k) (sym (append-nil p)) holds),
      )
      | inr something ↦ (
        record k {
          klog_head = add64 k.klog_head (length t);
          klog_buffer = store_chars k.klog_buffer k.klog_head t;
          klog_write_lock = record { lock = 0 };
        },
        rw (present, something, free_lock cpu k.klog_write_lock holds.write_lock) refl,
        record {
          there = holds.there;
          head = omega arith;
          tail = holds.tail;
          count = omega (arith, holds.head, holds.tail, holds.count, length-append {0} p t);
          write_lock = refl;
          read_lock = holds.read_lock;
          stored = written-stored k p t holds (length-take 4096 s) room;
        },
      )
    ]
