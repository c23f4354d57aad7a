-- ===== src/Kernel/Scheduler/Fairness.antt =====
-- Timer interrupts one after another, while every thread of the ring can run.
use pointer_os.Base.{
  ℕ, suc, ◌<◌, ◌≡◌, refl, sym, ap, ◌∙◌, inl, inr, true, false, Option, none, some, List, [], ◌∷◌,
  ◌++◌, append_assoc, append-nil, arith, ◌==◌, if◌then◌else◌, Bool-cases, length, length-append,
}
use mathlib.Core.Path.{subst}
use pointer_os.Kernel.Thread.{Thread, ThreadState, running, ready, blocked, dead, set_state}
use pointer_os.Kernel.Thread.Ring.{IsReady}
use pointer_os.Kernel.Scheduler.{
  Machine, is_off, is_runnable, returns, halts, loops, scheduler_handler,
}
use pointer_os.Kernel.Scheduler.Find.{first_runnable}
use pointer_os.Kernel.Scheduler.RoundRobin.{scheduler_handler_round_robin}

-- The machine after interrupts that find these stack pointers, if each of them returns.
pub interrupts : ℕ → List ℕ → Machine → Option Machine
interrupts fuel [] m = some m
interrupts fuel (rsp ∷ rsps) m = elim (scheduler_handler fuel m rsp) [
  | returns m' next_rsp ↦ interrupts fuel rsps m'
  | halts ↦ none
  | loops ↦ none
]

abbrev pub AreRunnable : (ℕ → Thread) → List ℕ → Type 0
AreRunnable f [] = Unit
AreRunnable f (x ∷ xs) = (is_runnable (f x).state ≡ true) × AreRunnable f xs

AreRunnable-snoc :
    (f : ℕ → Thread) (xs : List ℕ) (t : ℕ)
    → AreRunnable f xs
    → is_runnable (f t).state ≡ true
    → AreRunnable f (xs ++ t ∷ [])
AreRunnable-snoc f [] t h k = (k, tt)
AreRunnable-snoc f (x ∷ xs) t (hx, h) k = (hx, AreRunnable-snoc f xs t h k)

AreRunnable-cong :
    (f g : ℕ → Thread) (xs : List ℕ)
    → ((c : ℕ) → is_runnable (f c).state ≡ true → is_runnable (g c).state ≡ true)
    → AreRunnable f xs
    → AreRunnable g xs
AreRunnable-cong f g [] e h = tt
AreRunnable-cong f g (x ∷ xs) e (hx, h) = (e x hx, AreRunnable-cong f g xs e h)

first_runnable-next :
    (f : ℕ → Thread) (w : ℕ) (ws : List ℕ)
    → is_runnable (f w).state ≡ true
    → first_runnable f (w ∷ ws) ≡ some w
unfolding first_runnable
first_runnable-next f w ws h = rw h refl

not_off : (st : ThreadState) → is_runnable st ≡ true → is_off st ≡ false
not_off ready h = refl
not_off running h = refl
not_off blocked h = absurd (cc)
not_off dead h = absurd (cc)

-- The ring seen from its thread `cur`: the threads behind it in their order are `ws`.
abbrev pub Behind : List ℕ → ℕ → List ℕ → Type 0
Behind xs cur ws = (ys : List ℕ) × (zs : List ℕ) × (xs ≡ ys ++ cur ∷ zs) × (ws ≡ zs ++ ys)

-- The next thread sees the same ring from where it is.
Behind-next :
    (xs : List ℕ) (cur w : ℕ) (ws : List ℕ) → Behind xs cur (w ∷ ws) → Behind xs w (ws ++ cur ∷ [])
Behind-next xs cur w ws (ys, z ∷ zs, e, d) = (
  ys ++ cur ∷ [],
  zs,
  (let moved = append_assoc ys (cur ∷ []) (z ∷ zs) in cc),
  (let moved = append_assoc zs ys (cur ∷ []) in cc),
)
Behind-next xs cur w ws (y ∷ ys, [], e, d) =
    ([], ys ++ cur ∷ [], (cc), (let end = append-nil (ys ++ cur ∷ []) in cc))
Behind-next xs cur w ws ([], [], e, d) = absurd (cc)

still_runnable :
    (f g : ℕ → Thread) (next at c : ℕ)
    → (g c).state ≡ (if c == next then running else (set_state f at ready c).state)
    → is_runnable (f c).state ≡ true
    → is_runnable (g c).state ≡ true
still_runnable f g next at c e h = elim (Bool-cases (c == next)) [
  | inl chosen ↦ rw (e, chosen) refl
  | inr other ↦ elim (Bool-cases (c == at)) [
    | inl before ↦ rw (e, other, before) refl
    | inr kept ↦ rw (e, other, kept) h
  ]
]

-- One interrupt.
next_runs :
    (fuel : ℕ) (m : Machine) (rsp : ℕ) (xs : List ℕ) (cur w : ℕ) (ws : List ℕ)
    → IsReady m.threads xs
    → m.threads.current_thread ≡ cur
    → Behind xs cur (w ∷ ws)
    → AreRunnable m.threads.thread (cur ∷ w ∷ ws)
    → length (w ∷ ws) < fuel
    → (m' : Machine) × (next_rsp : ℕ) × (scheduler_handler fuel m rsp ≡ returns m' next_rsp)
      × IsReady m'.threads xs
      × (m'.threads.current_thread ≡ w)
      × AreRunnable m'.threads.thread (w ∷ ws ++ cur ∷ [])
next_runs fuel m rsp xs cur w ws ring now (ys, zs, e, d) (hc, (hw, hs)) enough =
    let f = m.threads.thread in
    let at = m.threads.current_thread in
    let ring' : IsReady m.threads (ys ++ at ∷ zs) =
      subst (IsReady m.threads) (e ∙ ap (λ (t : ℕ). ys ++ t ∷ zs) (sym now)) ring in
    let small : length (zs ++ ys) < fuel = subst (λ (l : List ℕ). length l < fuel) d enough in
    let on : is_off (f at).state ≡ false = rw now (not_off (f cur).state hc) in
    let (next, m', first, run, kept, ready', (runs, states)) =
      scheduler_handler_round_robin fuel m rsp ys zs ring' small (λ n. cc) on in
    let order : (zs ++ ys) ++ at ∷ [] ≡ w ∷ (ws ++ at ∷ []) =
      ap (λ (l : List ℕ). l ++ at ∷ []) (sym d) in
    let chosen : next ≡ w =
      let same : some next ≡ some w =
        sym first ∙ ap (first_runnable f) order ∙ first_runnable-next f w (ws ++ at ∷ []) hw in
      cc in
    (
      m',
      (if next == at then rsp else (f next).rsp),
      run,
      subst (IsReady m'.threads) (sym (e ∙ ap (λ (t : ℕ). ys ++ t ∷ zs) (sym now))) ready',
      runs ∙ chosen,
      AreRunnable-cong f m'.threads.thread (w ∷ ws ++ cur ∷ [])
          (λ c h. still_runnable f m'.threads.thread next at c (states c) h)
          (AreRunnable-snoc f (w ∷ ws) cur (hw, hs) hc),
    )

interrupts-next :
    (fuel : ℕ) (m : Machine) (rsp : ℕ) (rsps : List ℕ) (m' : Machine) (r : ℕ)
    → scheduler_handler fuel m rsp ≡ returns m' r
    → interrupts fuel (rsp ∷ rsps) m ≡ interrupts fuel rsps m'
unfolding interrupts
interrupts-next fuel m rsp rsps m' r run = rw (interrupts, run) refl

-- The threads of the ring can all run, and `cur` runs. For any other thread `t`, as many interrupts
-- as threads stand before it behind `cur`, and one more, each find a thread to switch to, whatever
-- stack pointers they save; after the last of them `t` runs, and the ring is as before.
pub every_thread_runs :
    (us : List ℕ) (fuel : ℕ) (m : Machine) (xs : List ℕ) (cur t : ℕ) (vs rsps : List ℕ)
    → IsReady m.threads xs
    → m.threads.current_thread ≡ cur
    → Behind xs cur (us ++ t ∷ vs)
    → AreRunnable m.threads.thread (cur ∷ (us ++ t ∷ vs))
    → length (us ++ t ∷ vs) < fuel
    → length rsps ≡ suc (length us)
    → (m' : Machine) × (interrupts fuel rsps m ≡ some m')
      × IsReady m'.threads xs
      × (m'.threads.current_thread ≡ t)
unfolding interrupts
every_thread_runs us fuel m xs cur t vs [] ring now b h enough count = absurd (cc)
every_thread_runs [] fuel m xs cur t vs (rsp ∷ []) ring now b h enough count =
    let (m', r, run, ring', runs, h') = next_runs fuel m rsp xs cur t vs ring now b h enough in
    (m', interrupts-next fuel m rsp [] m' r run, ring', runs)
every_thread_runs [] fuel m xs cur t vs (rsp ∷ r ∷ rsps) ring now b h enough count =
    absurd (omega arith)
every_thread_runs (u ∷ us) fuel m xs cur t vs (rsp ∷ rsps) ring now b h enough count =
    let (m1, r, run, ring1, runs1, h1) =
      next_runs fuel m rsp xs cur u (us ++ t ∷ vs) ring now b h enough in
    let turned = append_assoc us (t ∷ vs) (cur ∷ []) in
    let long : length (us ++ t ∷ (vs ++ cur ∷ [])) < fuel = omega (
      arith,
      length-append {0} us (t ∷ (vs ++ cur ∷ [])),
      length-append {0} vs (cur ∷ []),
      length-append {0} us (t ∷ vs),
    ) in
    let (m', rest, ring', runs) =
      every_thread_runs us fuel m1 xs u t (vs ++ cur ∷ []) rsps ring1 runs1
        (subst (Behind xs u) turned (Behind-next xs cur u (us ++ t ∷ vs) b))
        (subst (λ (l : List ℕ). AreRunnable m1.threads.thread (u ∷ l)) turned h1) long
        (omega arith) in
    (m', interrupts-next fuel m rsp rsps m1 r run ∙ rest, ring', runs)
