-- ===== src/Drivers/Klog/Cells.antt =====
-- The log while writers are interrupted: a queue of places, each with the character that was or will be
-- stored there.
use pointer_os.Base.{
  ℕ, zero, suc, ◌+◌, ◌%◌, ◌^◌, ◌≤◌, ◌<◌, ◌≡◌, refl, sym, ◌≢◌, inl, inr, true, List, [], ◌∷◌, ◌++◌,
  map, arith, ◌==◌, ==_iff, Bool-cases, length, length-append, update_self, update_ne, add64,
}
use mathlib.Core.Path.{subst}
use pointer_os.Drivers.Klog.{LogEntry, Klog, store_char, lag}

-- A place that is reserved for a character, and one where it is stored.
pub data Cell : Type 0 where
  waiting : ℕ → Cell
  stored : ℕ → Cell

-- Place `i`; behind the end there is nothing to print.
abbrev pub cell_at : List Cell → ℕ → Cell
cell_at [] i = waiting 0
cell_at (x ∷ q) zero = x
cell_at (x ∷ q) (suc i) = cell_at q i

abbrev pub store_cell : List Cell → ℕ → ℕ → List Cell
store_cell [] j c = []
store_cell (x ∷ q) zero c = stored c ∷ q
store_cell (x ∷ q) (suc j) c = x ∷ store_cell q j c

-- The entry has the character of the place, or is not ready.
abbrev pub Agrees : Cell → LogEntry → Type 0
Agrees (waiting c) e = e.ready ≡ 0
Agrees (stored c) e = e ≡ record { c = c; ready = 1 }

-- The buffer is there, both locks are free, and the ring has the places of the queue from its tail on
-- and no other that is ready.
pub record HasCells (k : Klog) (q : List Cell) : Type 0 where
  pub there : k.allocated ≡ true
  pub head : k.klog_head < 2 ^ 64
  pub tail : k.klog_tail < 2 ^ 64
  pub count : lag k ≡ length q
  pub few : length q ≤ 4096
  pub write_lock : k.klog_write_lock.lock ≡ 0
  pub read_lock : k.klog_read_lock.lock ≡ 0
  pub places : (i : ℕ) → i < 4096 → Agrees (cell_at q i) (k.klog_buffer ((k.klog_tail + i) % 4096))

waiting-Agrees :
    (s : List ℕ) (i : ℕ) (e : LogEntry) → e.ready ≡ 0 → Agrees (cell_at (map waiting s) i) e
waiting-Agrees [] i e h = h
waiting-Agrees (x ∷ s) zero e h = h
waiting-Agrees (x ∷ s) (suc i) e h = waiting-Agrees s i e h

reserved-Agrees :
    (q : List Cell) (s : List ℕ) (i : ℕ) (e : LogEntry)
    → Agrees (cell_at q i) e
    → Agrees (cell_at (q ++ map waiting s) i) e
reserved-Agrees [] s i e h = waiting-Agrees s i e h
reserved-Agrees (x ∷ q) s zero e h = h
reserved-Agrees (x ∷ q) s (suc i) e h = reserved-Agrees q s i e h

length-store_cell : (q : List Cell) (j c : ℕ) → length (store_cell q j c) ≡ length q
length-store_cell [] j c = refl
length-store_cell (x ∷ q) zero c = refl
length-store_cell (x ∷ q) (suc j) c = omega (arith, length-store_cell q j c)

cell_at-store_cell :
    (q : List Cell) (j c : ℕ) → j < length q → cell_at (store_cell q j c) j ≡ stored c
cell_at-store_cell [] j c h = absurd (omega arith)
cell_at-store_cell (x ∷ q) zero c h = refl
cell_at-store_cell (x ∷ q) (suc j) c h = cell_at-store_cell q j c (omega arith)

cell_at-store_other :
    (q : List Cell) (j c i : ℕ) → i ≢ j → cell_at (store_cell q j c) i ≡ cell_at q i
cell_at-store_other [] j c i ne = refl
cell_at-store_other (x ∷ q) zero c zero ne = absurd (ne refl)
cell_at-store_other (x ∷ q) zero c (suc i) ne = refl
cell_at-store_other (x ∷ q) (suc j) c zero ne = refl
cell_at-store_other (x ∷ q) (suc j) c (suc i) ne =
    cell_at-store_other q j c i (λ e. ne (omega (arith, e)))

length-map_waiting : (s : List ℕ) → length (map waiting s) ≡ length s
length-map_waiting [] = refl
length-map_waiting (x ∷ s) = omega (arith, length-map_waiting s)

-- A reservation puts places for the characters at the end.
pub reserved-HasCells :
    (k : Klog) (q : List Cell) (s : List ℕ)
    → HasCells k q
    → length q + length s ≤ 4096
    → HasCells
        (record k {
          klog_head = add64 k.klog_head (length s);
          klog_write_lock = record { lock = 0 };
        })
        (q ++ map waiting s)
reserved-HasCells k q s has room =
    let total = length-append {0} q (map waiting s) in
    let added = length-map_waiting s in
    record {
      there = has.there;
      head = omega arith;
      tail = has.tail;
      count = omega (arith, has.head, has.tail, has.count, total, added);
      few = omega (arith, total, added);
      write_lock = refl;
      read_lock = has.read_lock;
      places = λ i h. reserved-Agrees q s i _ (has.places i h);
    }

-- A character is stored at its place.
pub stored-HasCells :
    (k : Klog) (q : List Cell) (j c pos : ℕ)
    → HasCells k q
    → j < length q
    → pos % 4096 ≡ (k.klog_tail + j) % 4096
    → HasCells (record k { klog_buffer = store_char k.klog_buffer pos c }) (store_cell q j c)
stored-HasCells k q j c pos has inside at =
    let same = length-store_cell q j c in
    record {
      there = has.there;
      head = has.head;
      tail = has.tail;
      count = omega (arith, has.count, same);
      few = omega (arith, has.few, same);
      write_lock = has.write_lock;
      read_lock = has.read_lock;
      places = λ i h. elim (Bool-cases (i == j)) [
        | inl e ↦
            let here : i ≡ j = (==_iff _ _).0 e in
            rw (here, cell_at-store_cell q j c inside, sym at)
              (update_self k.klog_buffer (pos % 4096) _)
        | inr ne ↦
            let other : i ≢ j = λ e. ground arith in
            rw (cell_at-store_other q j c i other) (
              subst (Agrees (cell_at q i))
                (sym (
                  update_ne k.klog_buffer (pos % 4096) _ ((k.klog_tail + i) % 4096)
                    (λ e. other (omega (arith, e, at, has.few)))))
                (has.places i h))
      ];
    }
