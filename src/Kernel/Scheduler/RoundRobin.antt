-- ===== src/Kernel/Scheduler/RoundRobin.antt =====
-- Which thread `scheduler_handler` switches to, and what it leaves in the threads.
use pointer_os.Base.{
  ℕ, ◌<◌, ◌≡◌, refl, sym, ap, ◌∙◌, ◌≢◌, ◌⊎◌, inl, inr, true, false, ◌||◌, Option, none, some, List,
  [], ◌∷◌, ◌++◌, append-nil, arith, ◌==◌, if◌then◌else◌, Option-cases, length, length-append,
}
use pointer_os.Links.Member.{◌∉◌, notin_comm}
use mathlib.Core.Path.{subst}
use pointer_os.Kernel.Thread.{ready, Threads, set_state}
use pointer_os.Kernel.Thread.Ring.{next_of, IsReady, IsRing-cong, ring_from, ring_two}
use pointer_os.Kernel.Scheduler.{
  Machine, is_off, is_runnable, retire, found, find_runnable, switch_to, returns, halts, pick,
  scheduler_handler,
}
use pointer_os.Kernel.Scheduler.Find.{
  first_runnable, first_runnable-cong, first_runnable_total, first_runnable-ne, find_behind,
  find_on_ring, as_search,
}
use pointer_os.Kernel.Scheduler.Pick.{
  RunsFrom, switch_to-threads, switch_to-RunsFrom, pick-found, pick-came_back, handler_runs,
}
use pointer_os.Kernel.Scheduler.Retire.{
  is_dead, requeue, retire_on, runnable_of_on, Retired, retire_off,
}

append_comm_nonempty : (ys zs : List ℕ) → zs ++ ys ≢ [] → ys ++ zs ≢ []
append_comm_nonempty [] zs ne = rw append-nil at ne
append_comm_nonempty (y ∷ ys) zs ne = λ e. cc

-- What the handler does with a blocked or dead thread, for the ring that is left and the thread
-- that runs next.
abbrev pub Retires : ℕ → Machine → ℕ → List ℕ → Option ℕ → Type 0
Retires fuel m old_rsp xs none = scheduler_handler fuel m old_rsp ≡ halts
Retires fuel m old_rsp xs (some next) =
    let s = m.threads in
    let cur = s.current_thread in
    (m' : Machine) × (scheduler_handler fuel m old_rsp ≡ returns m' (s.thread next).rsp)
    × IsReady m'.threads xs
    × RunsFrom s.thread next m'
    × (m'.threads.dead_list_head ≡ (if is_dead (s.thread cur).state then cur else s.dead_list_head))
    × ((m'.threads.thread cur).next
        ≡ (if is_dead (s.thread cur).state then s.dead_list_head else 0))

module _ (fuel : ℕ) (m : Machine) (old_rsp : ℕ) (ys zs : List ℕ)
    (ring : IsReady m.threads (ys ++ m.threads.current_thread ∷ zs))
    (enough : length (zs ++ ys) < fuel) (others : zs ++ ys ≢ []) where
  open m use {threads.{current_thread as cur, thread as f, ready_list_head as head}}

  -- The run of a thread that goes on, up to the choice of the next one.
  goes_on :
      is_off (f cur).state ≡ false
      → (next : ℕ) × (first_runnable f ((zs ++ ys) ++ cur ∷ []) ≡ some next)
        × IsReady (requeue (m.threads) cur old_rsp) (ys ++ cur ∷ zs)
        × (scheduler_handler fuel m old_rsp
            ≡ returns
                (switch_to (record m { threads = requeue (m.threads) cur old_rsp }) cur next)
                ((requeue (m.threads) cur old_rsp).thread next).rsp)
  unfolding requeue
  goes_on on =
      let s = m.threads in
      let (head_live, head_ne) = ring_two f head ys cur zs others ring in
      let s' : Threads = requeue s cur old_rsp in
      let ring' : IsReady s' (ys ++ cur ∷ zs) =
        IsRing-cong f s'.thread head (ys ++ cur ∷ zs) (λ c. ground arith) (λ c. ground arith)
          ring in
      let (live, out, zero_out, d, ch) = ring_from s'.thread head ys cur zs ring' in
      let (start_live, e) =
        find_behind s'.thread fuel cur (zs ++ ys) live out zero_out d ch others enough in
      let same_next : next_of s'.thread cur ≡ next_of f cur = ground arith in
      let live_next : next_of f cur ≢ 0 = rw (← same_next) start_live in
      let go : scheduler_handler fuel m old_rsp
          ≡ pick fuel (record m { threads = s' }) cur (next_of f cur) old_rsp =
        rw (on, retire_on (f cur).state s cur old_rsp on) at
          (handler_runs fuel m old_rsp head_live head_ne (rw on live_next)) in
      let (next, first) = first_runnable_total f (zs ++ ys) cur (runnable_of_on (f cur).state on) in
      let same_first : first_runnable s'.thread ((zs ++ ys) ++ cur ∷ [])
          ≡ first_runnable f ((zs ++ ys) ++ cur ∷ []) =
        first_runnable-cong f s'.thread ((zs ++ ys) ++ cur ∷ [])
          (λ c. ground (arith, runnable_of_on (f cur).state on)) in
      let hit : find_runnable fuel s'.thread (next_of f cur) (next_of f cur) ≡ found next =
        rw (same_next, same_first, first) at e in
      (
        next,
        first,
        ring',
        go ∙ pick-found fuel (record m { threads = s' }) cur (next_of f cur) old_rsp next hit,
      )

  -- In a ring of more than one thread, one that is interrupted while it can run on gives way to the first runnable thread behind
  -- it in the ring, itself at last. It becomes ready, its stack pointer is kept, the ring stays as
  -- it was, and the handler returns the stack pointer of the chosen thread.
  pub scheduler_handler_round_robin :
      is_off (f cur).state ≡ false
      → (next : ℕ) × (m' : Machine) × (first_runnable f ((zs ++ ys) ++ cur ∷ []) ≡ some next)
        × (scheduler_handler fuel m old_rsp
            ≡ returns m' (if next == cur then old_rsp else (f next).rsp))
        × ((m'.threads.thread cur).rsp ≡ old_rsp)
        × IsReady m'.threads (ys ++ cur ∷ zs)
        × RunsFrom (set_state f cur ready) next m'
  unfolding requeue
  scheduler_handler_round_robin on =
      let (next, first, ring', run) = goes_on on in
      let m1 : Machine = record m { threads = requeue (m.threads) cur old_rsp } in
      let m' = switch_to m1 cur next in
      let (ready', (now, states)) = switch_to-RunsFrom m1 cur next (ys ++ cur ∷ zs) ring' in
      (
        next,
        m',
        first,
        run ∙ ap (returns m') (ground arith),
        ground (arith, switch_to-threads m1 cur next),
        ready',
        (now, λ c. states c ∙ ground arith),
      )

  -- The run of a thread that leaves the ring, up to the search.
  goes_off :
      is_off (f cur).state ≡ true
      → (s' : Threads) × Retired m.threads cur (ys ++ zs) s'
        × (scheduler_handler fuel m old_rsp
            ≡ pick fuel (record m { threads = s' }) cur s'.ready_list_head old_rsp)
        × (find_runnable fuel s'.thread s'.ready_list_head s'.ready_list_head
            ≡ as_search (first_runnable f (ys ++ zs)))
  goes_off off =
      let s = m.threads in
      let (head_live, head_ne) = ring_two f head ys cur zs others ring in
      let s' = retire (f cur).state s cur old_rsp in
      let r : Retired s cur (ys ++ zs) s' =
        retire_off (f cur).state s old_rsp ys cur zs refl off ring in
      let (live, e) =
        find_on_ring s'.thread fuel s'.ready_list_head (ys ++ zs) r.left
          (append_comm_nonempty ys zs others)
          (omega (arith, length-append {0} ys zs, length-append {0} zs ys)) in
      let same : first_runnable s'.thread (ys ++ zs) ≡ first_runnable f (ys ++ zs) =
        first_runnable-cong f s'.thread (ys ++ zs) (λ c. ap is_runnable (r.states c)) in
      (
        s',
        r,
        rw off at (handler_runs fuel m old_rsp head_live head_ne (rw off live)),
        e ∙ ap as_search same,
      )

  handler_of_several :
      is_off (f cur).state ≡ true → Retires fuel m old_rsp (ys ++ zs) (first_runnable f (ys ++ zs))
  handler_of_several off =
      let (s', r, run, e) = goes_off off in
      let m1 : Machine = record m { threads = s' } in
      let out : cur ∉ (ys ++ zs) = notin_comm cur zs ys (ring_from f head ys cur zs ring).1 in
      elim (Option-cases (first_runnable f (ys ++ zs))) [
        | inl first ↦
            let halted : scheduler_handler fuel m old_rsp ≡ halts =
              run
              ∙ pick-came_back fuel m1 cur s'.ready_list_head old_rsp (rw first at e)
                  (rw (r.states cur) off) in
            subst (Retires fuel m old_rsp (ys ++ zs)) (sym first) halted
        | inr (next, first) ↦
            let m' = switch_to m1 cur next in
            let (ready', (now, states)) = switch_to-RunsFrom m1 cur next (ys ++ zs) r.left in
            let ne : next ≢ cur = first_runnable-ne f (ys ++ zs) cur next out first in
            subst (Retires fuel m old_rsp (ys ++ zs)) (sym first) (
              m',
              run
                  ∙ pick-found fuel m1 cur s'.ready_list_head old_rsp next (rw first at e)
                  ∙ ap (returns m') (r.stacks next ne),
              ready',
              (now, λ c. ground (arith, states c, r.states c)),
              ground (arith, switch_to-threads m1 cur next, r.buried),
              ground (arith, switch_to-threads m1 cur next, r.after),
            )
      ]

-- In a ring of one thread the handler does nothing.
handler_of_one :
    (fuel : ℕ) (m : Machine) (old_rsp cur : ℕ)
    → IsReady m.threads (cur ∷ [])
    → scheduler_handler fuel m old_rsp ≡ returns m old_rsp
unfolding scheduler_handler
handler_of_one fuel m old_rsp cur (here, distinct, (some_thread, end), (next, prev)) =
    let f = m.threads.thread in
    let head = m.threads.ready_list_head in
    let alone : (f cur).next ≡ cur = next (λ e. some_thread (sym e)) in
    let round : (f head).next ≡ head = rw here alone in
    let skips : (head == 0 || (f head).next == head) ≡ true = ground (arith, round) in rw skips refl

has_member : (y : ℕ) (ys zs : List ℕ) → zs ++ y ∷ ys ≢ []
has_member y ys [] = λ e. cc
has_member y ys (z ∷ zs) = λ e. cc

-- A thread that is blocked or dead leaves a ring of more than one thread. The first runnable thread of
-- the ring that is left, from its head, is switched to; if there is none, the handler halts. A dead
-- thread, and no other, is put before the list of the dead. Alone in the ring, it stays there and
-- runs on: the handler changes nothing and returns its stack pointer.
pub scheduler_handler-Retires :
    (fuel : ℕ) (m : Machine) (old_rsp : ℕ) (ys zs : List ℕ)
    → IsReady m.threads (ys ++ m.threads.current_thread ∷ zs)
    → length (zs ++ ys) < fuel
    → is_off (m.threads.thread m.threads.current_thread).state ≡ true
    → ((zs ++ ys ≢ [])
        × Retires fuel m old_rsp (ys ++ zs) (first_runnable m.threads.thread (ys ++ zs)))
      ⊎ ((zs ++ ys ≡ []) × (scheduler_handler fuel m old_rsp ≡ returns m old_rsp))
scheduler_handler-Retires fuel m old_rsp [] [] ring enough off =
    inr (refl, handler_of_one fuel m old_rsp m.threads.current_thread ring)
scheduler_handler-Retires fuel m old_rsp [] (z ∷ zs) ring enough off =
    let others : (z ∷ zs) ++ [] ≢ [] = λ e. cc in
    inl (others, handler_of_several fuel m old_rsp [] (z ∷ zs) ring enough others off)
scheduler_handler-Retires fuel m old_rsp (y ∷ ys) zs ring enough off =
    let others = has_member y ys zs in
    inl (others, handler_of_several fuel m old_rsp (y ∷ ys) zs ring enough others off)
