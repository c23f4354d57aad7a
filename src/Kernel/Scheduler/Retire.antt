-- ===== src/Kernel/Scheduler/Retire.antt =====
-- What `scheduler_handler` does with the thread that it interrupted.
use pointer_os.Base.{
  ℕ, ◌≡◌, refl, ap, ◌∙◌, ◌≢◌, Bool, true, false, List, ◌∷◌, ◌++◌, arith, if◌then◌else◌,
}
use pointer_os.Links.Member.{notin_comm}
use mathlib.Core.Bool.{false≢true}
use pointer_os.Kernel.Thread.{
  ThreadState, ready, running, blocked, dead, Thread, Threads, set_state, set_next, dequeue_thread,
}
use pointer_os.Kernel.Thread.Ring.{
  IsReady, IsRing-cong, IsRing-outside, ring_from, dead_list_head-dequeue, next-dequeue,
  dequeue_thread-IsReady,
}
use pointer_os.Kernel.Scheduler.{is_off, is_runnable, set_rsp, retire}

-- What `retire` does with a thread that can run on.
unfoldable pub requeue : Threads → ℕ → ℕ → Threads
requeue s cur old_rsp = record s { thread = set_state (set_rsp s.thread cur old_rsp) cur ready }

pub retire_on :
    (st : ThreadState) (s : Threads) (cur old_rsp : ℕ)
    → is_off st ≡ false
    → retire st s cur old_rsp ≡ requeue s cur old_rsp
unfolding retire requeue
retire_on ready s cur old_rsp on = refl
retire_on running s cur old_rsp on = refl
retire_on blocked s cur old_rsp on = cc
retire_on dead s cur old_rsp on = cc

pub runnable_of_on : (st : ThreadState) → is_off st ≡ false → is_runnable st ≡ true
runnable_of_on ready on = refl
runnable_of_on running on = refl
runnable_of_on blocked on = cc
runnable_of_on dead on = cc

abbrev pub is_dead : ThreadState → Bool
is_dead dead = true
is_dead _ = false

-- What `retire` does with a thread that is blocked or dead: it leaves the ring, and no other thread
-- changes but for the ring pointers.
pub record Retired (s : Threads) (cur : ℕ) (xs : List ℕ) (s' : Threads) : Type 0 where
  pub left : IsReady s' xs
  pub states : (c : ℕ) → (s'.thread c).state ≡ (s.thread c).state
  pub stacks : (c : ℕ) → c ≢ cur → (s'.thread c).rsp ≡ (s.thread c).rsp
  pub buried : s'.dead_list_head ≡ (if is_dead (s.thread cur).state then cur else s.dead_list_head)
  pub after : (s'.thread cur).next ≡ (if is_dead (s.thread cur).state then s.dead_list_head else 0)

pub retire_off :
    (st : ThreadState) (s : Threads) (old_rsp : ℕ) (ys : List ℕ) (cur : ℕ) (zs : List ℕ)
    → (s.thread cur).state ≡ st
    → is_off st ≡ true
    → IsReady s (ys ++ cur ∷ zs)
    → Retired s cur (ys ++ zs) (retire st s cur old_rsp)
unfolding retire
retire_off ready s old_rsp ys cur zs e off ring = absurd (false≢true off)
retire_off running s old_rsp ys cur zs e off ring = absurd (false≢true off)
retire_off blocked s old_rsp ys cur zs e off ring =
    let s1 : Threads = record s { thread = set_rsp s.thread cur old_rsp } in
    let ring1 : IsReady s1 (ys ++ cur ∷ zs) =
      IsRing-cong s.thread (s1.thread) s.ready_list_head (ys ++ cur ∷ zs) (λ c. ground arith)
        (λ c. ground arith) ring in
    let (left, same) = dequeue_thread-IsReady s1 ys cur zs ring1 in
    record {
      left = left;
      states = λ c. ap (λ (t : Thread). t.state) (same c) ∙ ground arith;
      stacks = λ c ne. ap (λ (t : Thread). t.rsp) (same c) ∙ ground arith;
      buried = ground (arith, dead_list_head-dequeue s1 cur);
      after = ground (arith, next-dequeue s1 cur);
    }
retire_off dead s old_rsp ys cur zs e off ring =
    let (left, same) = dequeue_thread-IsReady s ys cur zs ring in
    let g = (dequeue_thread s cur).thread in
    let g' = set_next g cur (dequeue_thread s cur).dead_list_head in
    let out = (ring_from s.thread s.ready_list_head ys cur zs ring).1 in
    record {
      left =
          IsRing-outside g g' cur (dequeue_thread s cur).ready_list_head (ys ++ zs)
            (λ c ne. ground arith) (notin_comm cur zs ys out) left;
      states = λ c. ground (arith, ap (λ (t : Thread). t.state) (same c));
      stacks = λ c ne. ground (arith, ap (λ (t : Thread). t.rsp) (same c));
      buried = ground arith;
      after = ground (arith, dead_list_head-dequeue s cur);
    }
