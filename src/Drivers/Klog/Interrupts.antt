-- ===== src/Drivers/Klog/Interrupts.antt =====
-- What a flush prints while writers are interrupted.
use pointer_os.Base.{
  ℕ, zero, suc, ◌+◌, ◌%◌, ◌≤◌, ◌<◌, ◌≡◌, refl, sym, ap, ◌∙◌, ◌≢◌, inl, inr, true, false, some, List,
  [], ◌∷◌, arith, ltb, ◌==◌, ==_iff, Bool-cases, length, update_self, update_ne, add64, sub64,
}
use mathlib.Core.Path.{subst}
use pointer_os.Kernel.Spinlock.{Cpu}
use pointer_os.Drivers.Klog.{
  Klog, catch_up, print_entry, flush_from, klog_flush_to_screen, with_read_lock,
  flush-with_read_lock,
}
use pointer_os.Drivers.Klog.Flush.{round, flush_from-round}
use pointer_os.Drivers.Klog.Cells.{Cell, waiting, stored, cell_at, Agrees, HasCells}

-- The characters before the first place where none is stored.
abbrev pub prefix : List Cell → List ℕ
prefix [] = []
prefix (waiting c ∷ q) = []
prefix (stored c ∷ q) = c ∷ prefix q

-- The places from there on.
abbrev pub rest_of : List Cell → List Cell
rest_of [] = []
rest_of (waiting c ∷ q) = waiting c ∷ q
rest_of (stored c ∷ q) = rest_of q

cell_at_end : (q : List Cell) (i : ℕ) → length q ≤ i → cell_at q i ≡ waiting 0
cell_at_end [] i h = refl
cell_at_end (x ∷ q) zero h = absurd (omega arith)
cell_at_end (x ∷ q) (suc i) h = cell_at_end q i (omega arith)

printed-HasCells :
    (k : Klog) (x : Cell) (q : List Cell) → HasCells k (x ∷ q) → HasCells (print_entry k) q
printed-HasCells k x q has = record {
  there = has.there;
  head = has.head;
  tail = omega arith;
  count = omega (arith, has.head, has.tail, has.count);
  few = omega (arith, has.few);
  write_lock = has.write_lock;
  read_lock = has.read_lock;
  places = λ i h. elim (Bool-cases (i == 4095)) [
    | inl e ↦
        let last : i ≡ 4095 = (==_iff _ _).0 e in
        let slot : (add64 k.klog_tail 1 + i) % 4096 ≡ k.klog_tail % 4096 = omega arith in
        rw (slot, cell_at_end q i (omega (arith, last, has.few)))
          (ap (λ e. e.ready) (update_self k.klog_buffer (k.klog_tail % 4096) _))
    | inr ne ↦
        let inner : suc i < 4096 = ground arith in
        let slot : (add64 k.klog_tail 1 + i) % 4096 ≡ (k.klog_tail + suc i) % 4096 = omega arith in
        rw slot (
          subst (Agrees (cell_at q i))
            (sym (
              update_ne k.klog_buffer (k.klog_tail % 4096) _ ((k.klog_tail + suc i) % 4096)
                (λ e. absurd (omega (arith, e)))))
            (has.places (suc i) inner))
  ];
}

kept_tail : (k : Klog) (q : List Cell) → HasCells k q → catch_up k ≡ (k, [])
kept_tail k q has =
    let small : ltb 4096 (sub64 k.klog_head k.klog_tail) ≡ false =
      ground (arith, has.count, has.few) in
    rw small refl

oldest_entry :
    (k : Klog) (x : Cell) (q : List Cell)
    → HasCells k (x ∷ q)
    → ((k.klog_tail == k.klog_head) ≡ false) × Agrees x (k.klog_buffer (k.klog_tail % 4096))
oldest_entry k x q has =
    let ne : k.klog_tail ≢ k.klog_head = λ e. absurd (omega (arith, e, has.count)) in
    (
      ground arith,
      subst (λ (p : ℕ). Agrees x (k.klog_buffer p)) (omega arith) (has.places 0 (omega arith)),
    )

flush_from-prefix :
    (q : List Cell) (fuel : ℕ) (k : Klog)
    → HasCells k q
    → length q < fuel
    → (k' : Klog) × (flush_from fuel k ≡ some (k', prefix q))
      × HasCells k' (rest_of q)
      × (k'.klog_tail ≡ add64 k.klog_tail (length (prefix q)))
flush_from-prefix q zero k has enough = absurd (omega arith)
flush_from-prefix [] (suc fuel) k has enough =
    let empty : (k.klog_tail == k.klog_head) ≡ true =
      let e : k.klog_tail ≡ k.klog_head = omega (arith, has.head, has.tail, has.count) in
      ground arith in
    (
      k,
      flush_from-round fuel k ∙ ap (round fuel) (kept_tail k [] has) ∙ rw empty refl,
      has,
      omega (arith, has.tail),
    )
flush_from-prefix (waiting c ∷ q) (suc fuel) k has enough =
    let (more, unready) = oldest_entry k (waiting c) q has in
    let waits : ((k.klog_buffer (k.klog_tail % 4096)).ready == 0) ≡ true =
      ground (arith, unready) in
    (
      k,
      flush_from-round fuel k
          ∙ ap (round fuel) (kept_tail k (waiting c ∷ q) has)
          ∙ rw (more, waits) refl,
      has,
      omega (arith, has.tail),
    )
flush_from-prefix (stored c ∷ q) (suc fuel) k has enough =
    let (more, oldest) = oldest_entry k (stored c) q has in
    let its_char : (k.klog_buffer (k.klog_tail % 4096)).c ≡ c = ap (λ e. e.c) oldest in
    let is_ready : ((k.klog_buffer (k.klog_tail % 4096)).ready == 0) ≡ false =
      ap (λ e. e.ready == 0) oldest in
    let unlocked : (k.klog_write_lock.lock == 0) ≡ true = ground (arith, has.write_lock) in
    let (k', later, has', moved) =
      flush_from-prefix q fuel (print_entry k) (printed-HasCells k (stored c) q has)
        (omega arith) in
    (
      k',
      flush_from-round fuel k
          ∙ ap (round fuel) (kept_tail k (stored c ∷ q) has)
          ∙ rw (more, is_ready, unlocked, later) (ap (λ (t : ℕ). some (k', t ∷ prefix q)) its_char),
      has',
      omega (arith, moved),
    )

back-HasCells :
    (k : Klog) (q : List Cell)
    → HasCells k q
    → HasCells (record k { klog_read_lock = record { lock = 0 } }) q
back-HasCells k q has = record {
  there = has.there;
  head = has.head;
  tail = has.tail;
  count = has.count;
  few = has.few;
  write_lock = has.write_lock;
  read_lock = refl;
  places = has.places;
}

pub klog_flush_to_screen-prefix :
    (cpu : Cpu) (k : Klog) (q : List Cell)
    → HasCells k q
    → (k' : Klog) × (klog_flush_to_screen 4097 cpu k ≡ some (cpu, k', prefix q))
      × HasCells k' (rest_of q)
      × (k'.klog_tail ≡ add64 k.klog_tail (length (prefix q)))
klog_flush_to_screen-prefix cpu k q has =
    let (k', run, has', moved) = flush_from-prefix q 4097 k has (omega (arith, has.few)) in
    (
      record k' { klog_read_lock = record { lock = 0 } },
      flush-with_read_lock 4097 cpu k has.there has.read_lock ∙ ap (with_read_lock cpu) run,
      back-HasCells k' (rest_of q) has',
      moved,
    )
