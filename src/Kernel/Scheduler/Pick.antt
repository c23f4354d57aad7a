-- ===== src/Kernel/Scheduler/Pick.antt =====
-- The steps of `scheduler_handler` after the search: the switch, and the halt.
use pointer_os.Base.{ℕ, ◌≡◌, refl, ◌≢◌, Bool, true, false, ◌||◌, List, arith, ◌==◌, if◌then◌else◌}
use pointer_os.Kernel.Thread.{ThreadState, running, Thread, set_state}
use pointer_os.Kernel.Thread.Ring.{next_of, IsReady, IsRing-cong}
use pointer_os.Kernel.Scheduler.{
  Machine, is_off, retire, found, came_back, find_runnable, switch_to, returns, halts, pick,
  scheduler_handler,
}

abbrev pub state_of : (ℕ → Thread) → ℕ → ThreadState
state_of f c = (f c).state

-- `next` runs now, and no other thread changed its state since `f`.
abbrev pub RunsFrom : (ℕ → Thread) → ℕ → Machine → Type 0
RunsFrom f next m =
    (m.threads.current_thread ≡ next)
    × ((c : ℕ) → (m.threads.thread c).state ≡ (if c == next then running else (f c).state))

pub switch_to-threads :
    (m : Machine) (old next : ℕ)
    → (switch_to m old next).threads ≡ record (m.threads) {
      thread = set_state (m.threads.thread) next running;
      current_thread = next;
    }
unfolding switch_to
switch_to-threads m old next = ground arith

pub switch_to-RunsFrom :
    (m : Machine) (old next : ℕ) (xs : List ℕ)
    → IsReady m.threads xs
    → IsReady (switch_to m old next).threads xs
      × RunsFrom m.threads.thread next (switch_to m old next)
switch_to-RunsFrom m old next xs r = rw (switch_to-threads m old next) (
  IsRing-cong m.threads.thread (set_state (m.threads.thread) next running) m.threads.ready_list_head
      xs (λ c. ground arith) (λ c. ground arith) r,
  (refl, λ c. ground arith),
)

pub pick-found :
    (fuel : ℕ) (m : Machine) (old start old_rsp next : ℕ)
    → find_runnable fuel m.threads.thread start start ≡ found next
    → pick fuel m old start old_rsp ≡ returns (switch_to m old next) (m.threads.thread next).rsp
unfolding pick
pick-found fuel m old start old_rsp next e = rw (e, pick)

pub pick-came_back :
    (fuel : ℕ) (m : Machine) (old start old_rsp : ℕ)
    → find_runnable fuel m.threads.thread start start ≡ came_back
    → is_off (m.threads.thread old).state ≡ true
    → pick fuel m old start old_rsp ≡ halts
unfolding pick
pick-came_back fuel m old start old_rsp e off = rw (e, off, pick)

skip_two {ℓ} :
    {A : Type ℓ} (x y z : A) (a b : Bool)
    → a ≡ false
    → b ≡ false
    → (if a then x else if b then y else z) ≡ z
skip_two x y z a b p q = ground arith

-- On a ring of more than one thread the handler comes to the search.
pub handler_runs :
    (fuel : ℕ) (m : Machine) (old_rsp : ℕ)
    → m.threads.ready_list_head ≢ 0
    → next_of m.threads.thread m.threads.ready_list_head ≢ m.threads.ready_list_head
    → let s = m.threads in
      let old = s.current_thread in
      let st = state_of s.thread old in
      let s' = retire st s old old_rsp in
      let start = if is_off st then s'.ready_list_head else next_of s.thread old in
      start ≢ 0
      → scheduler_handler fuel m old_rsp ≡ pick fuel (record m { threads = s' }) old start old_rsp
unfolding scheduler_handler
handler_runs fuel m old_rsp a b c =
    let s = m.threads in
    let old = s.current_thread in
    let st = state_of s.thread old in
    let s' = retire st s old old_rsp in
    skip_two (returns m old_rsp) (returns (record m { threads = s' }) old_rsp) _
      (s.ready_list_head == 0 || (s.thread s.ready_list_head).next == s.ready_list_head)
      ((if is_off st then s'.ready_list_head else next_of s.thread old) == 0) (ground arith)
      (ground arith)
