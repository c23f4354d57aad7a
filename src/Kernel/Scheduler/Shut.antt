-- ===== src/Kernel/Scheduler/Shut.antt =====
-- Stacks that do not grow: `page_fault_handler` maps a page only for a thread whose guard does not end
-- at the bottom of its stack, and the scheduler changes neither of the two.
use pointer_os.Base.{
  ℕ, ◌≡◌, refl, sym, inl, inr, Bool, true, false, ◌||◌, ◌==◌, if◌then◌else◌, Bool-cases, update,
}
use mathlib.Core.Path.{subst}
use pointer_os.Kernel.Thread.{
  ThreadState, ready, running, blocked, dead, Thread, Threads, set_next, set_prev, set_state,
  enqueue_thread, dequeue_thread,
}
use pointer_os.Kernel.Scheduler.{
  Machine, Outcome, returns, halts, loops, Search, found, came_back, endless, is_off, retire,
  set_rsp, find_runnable, switch_to, pick, scheduler_handler,
}
use pointer_os.Kernel.Scheduler.Pick.{switch_to-threads, pick-found}

-- The guard of each thread ends at the bottom of its user stack.
abbrev pub AreShut : (ℕ → Thread) → Type 0
AreShut f = (c : ℕ) → (f c).page_guard_max ≡ (f c).user_stack_bottom

pub update-AreShut :
    (f : ℕ → Thread) (t : ℕ) (th : Thread)
    → AreShut f
    → th.page_guard_max ≡ th.user_stack_bottom
    → AreShut (update f t th)
update-AreShut f t th h e c = elim (Bool-cases (c == t)) [
  | inl here ↦ rw here e
  | inr other ↦ rw other (h c)
]

pub enqueue_thread-AreShut :
    (s : Threads) (t : ℕ) → AreShut s.thread → AreShut (enqueue_thread s t).thread
unfolding enqueue_thread
enqueue_thread-AreShut s t h = elim (Bool-cases (s.ready_list_head == 0)) [
  | inl empty ↦
      let h1 = update-AreShut s.thread t (record (s.thread t) { next = t }) h (h t) in
      rw empty (update-AreShut _ t _ h1 (h1 t))
  | inr other ↦
      let tail = (s.thread s.ready_list_head).prev in
      let h1 = update-AreShut s.thread tail (record (s.thread tail) { next = t }) h (h tail) in
      let f1 = set_next s.thread tail t in
      let h2 = update-AreShut f1 t (record (f1 t) { prev = tail }) h1 (h1 t) in
      let f2 = set_prev f1 t tail in
      let h3 = update-AreShut f2 t (record (f2 t) { next = s.ready_list_head }) h2 (h2 t) in
      rw other (
        update-AreShut (set_next f2 t s.ready_list_head) s.ready_list_head _ h3
          (h3 s.ready_list_head))
]

detached-AreShut : (f : ℕ → Thread) (t : ℕ) → AreShut f → AreShut (set_next (set_prev f t 0) t 0)
detached-AreShut f t h =
    let h1 = update-AreShut f t (record (f t) { prev = 0 }) h (h t) in
    update-AreShut (set_prev f t 0) t _ h1 (h1 t)

dequeue_thread-AreShut :
    (s : Threads) (t : ℕ) → AreShut s.thread → AreShut (dequeue_thread s t).thread
unfolding dequeue_thread
dequeue_thread-AreShut s t h = elim (Bool-cases ((s.thread t).next == t)) [
  | inl alone ↦ rw alone (detached-AreShut s.thread t h)
  | inr other ↦
      let th = s.thread t in
      let f1 = set_next s.thread th.prev th.next in
      let h1 =
        update-AreShut s.thread th.prev (record (s.thread th.prev) { next = th.next }) h
          (h th.prev) in
      let h2 =
        update-AreShut f1 (f1 t).next (record (f1 (f1 t).next) { prev = (f1 t).prev }) h1
          (h1 (f1 t).next) in
      rw other (detached-AreShut (set_prev f1 (f1 t).next (f1 t).prev) t h2)
]

retire-AreShut :
    (st : ThreadState) (s : Threads) (old old_rsp : ℕ)
    → AreShut s.thread
    → AreShut (retire st s old old_rsp).thread
unfolding retire
retire-AreShut dead s old old_rsp h =
    let h1 = dequeue_thread-AreShut s old h in update-AreShut _ old _ h1 (h1 old)
retire-AreShut blocked s old old_rsp h =
    dequeue_thread-AreShut (record s { thread = set_rsp s.thread old old_rsp }) old
      (update-AreShut s.thread old _ h (h old))
retire-AreShut ready s old old_rsp h =
    let h1 = update-AreShut s.thread old (record (s.thread old) { rsp = old_rsp }) h (h old) in
    update-AreShut _ old _ h1 (h1 old)
retire-AreShut running s old old_rsp h =
    let h1 = update-AreShut s.thread old (record (s.thread old) { rsp = old_rsp }) h (h old) in
    update-AreShut _ old _ h1 (h1 old)

-- Where the handler returns.
abbrev pub ShutBehind : Outcome → Type 0
ShutBehind (returns m r) = AreShut m.threads.thread
ShutBehind halts = Unit
ShutBehind loops = Unit

if-ShutBehind :
    (b : Bool) (x y : Outcome) → ShutBehind x → ShutBehind y → ShutBehind (if b then x else y)
if-ShutBehind true x y h k = h
if-ShutBehind false x y h k = k

pick-ShutBehind :
    (fuel : ℕ) (m : Machine) (old start old_rsp : ℕ) (r : Search)
    → find_runnable fuel m.threads.thread start start ≡ r
    → AreShut m.threads.thread
    → ShutBehind (pick fuel m old start old_rsp)
unfolding pick
pick-ShutBehind fuel m old start old_rsp (found next) e h =
    let h1 : AreShut (switch_to m old next).threads.thread =
      rw (switch_to-threads m old next) (update-AreShut m.threads.thread next _ h (h next)) in
    subst ShutBehind (sym (pick-found fuel m old start old_rsp next e)) h1
pick-ShutBehind fuel m old start old_rsp came_back e h =
    let f = m.threads.thread in
    let on : Outcome =
      returns (record m { threads = record (m.threads) { thread = set_state f old running } })
        old_rsp in
    let run : pick fuel m old start old_rsp ≡ (if is_off (f old).state then halts else on) =
      rw (e, pick) in
    subst ShutBehind (sym run)
      (if-ShutBehind (is_off (f old).state) halts on tt (update-AreShut f old _ h (h old)))
pick-ShutBehind fuel m old start old_rsp endless e h =
    let run : pick fuel m old start old_rsp ≡ loops = rw (e, pick) in subst ShutBehind (sym run) tt

pub scheduler_handler-ShutBehind :
    (fuel : ℕ) (m : Machine) (old_rsp : ℕ)
    → AreShut m.threads.thread
    → ShutBehind (scheduler_handler fuel m old_rsp)
unfolding scheduler_handler
scheduler_handler-ShutBehind fuel m old_rsp h =
    let s = m.threads in
    let old = s.current_thread in
    let st = (s.thread old).state in
    let s' = retire st s old old_rsp in
    let start = if is_off st then s'.ready_list_head else (s.thread old).next in
    let m' : Machine = record m { threads = s' } in
    let h1 : AreShut s'.thread = retire-AreShut st s old old_rsp h in
    if-ShutBehind (s.ready_list_head == 0 || (s.thread s.ready_list_head).next == s.ready_list_head)
      (returns m old_rsp)
      (if start == 0 then returns m' old_rsp else pick fuel m' old start old_rsp) h
      (if-ShutBehind (start == 0) (returns m' old_rsp) (pick fuel m' old start old_rsp) h1 (
        pick-ShutBehind fuel m' old start old_rsp (find_runnable fuel s'.thread start start) refl
          h1))
