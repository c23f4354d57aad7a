-- ===== src/Kernel/Lifecycle/Guard.antt =====
-- mm/page_fault.c on what the system can come to: kernel/scheduler/thread.c, the scheduler and page
-- faults in any order.
use pointer_os.Base.{
  ℕ, ◌≡◌, sym, ◌≢◌, Bool, true, false, ◌&&◌, some, ltb, leb, if◌then◌else◌, update,
}
use mathlib.Core.Path.{subst}
use pointer_os.Kernel.Thread.{ThreadState}
use pointer_os.Kernel.Scheduler.{Machine, returns, scheduler_handler}
use pointer_os.Kernel.Scheduler.Shut.{
  AreShut, update-AreShut, ShutBehind, scheduler_handler-ShutBehind,
}
use pointer_os.Kernel.Lifecycle.{
  System, create_thread, create_user_thread, cleanup_dead_threads, thread_exit, Fault, resumes,
  exits, hangs, page_fault_handler,
}
use pointer_os.Kernel.Lifecycle.Stacks.{
  IsShut, LeavesShut, Always, create_thread-IsShut, create_user_thread-IsShut,
  cleanup_dead_threads-IsShut, thread_exit-IsShut, page_fault_handler-IsShut,
}

-- A call or an interrupt that returns. `waits` stands for what kernel/sync/mutex.c writes of a thread,
-- `schedules` for `scheduler_handler`, and `elsewhere` for what changes no thread.
pub data Step (scheduler : ℕ) (s s' : System) : Type 0 where
  creates :
      (fuel exit_at entry_point stack_size t : ℕ)
      → create_thread fuel exit_at s entry_point stack_size ≡ some (s', t)
      → Step scheduler s s'
  creates_user :
      (fuel proc entry_point kstack_size ustack_size t : ℕ)
      → create_user_thread fuel s proc entry_point kstack_size ustack_size ≡ some (s', t)
      → Step scheduler s s'
  cleans : (rounds fuel : ℕ) → cleanup_dead_threads rounds fuel s ≡ some s' → Step scheduler s s'
  ends : s' ≡ thread_exit s → Step scheduler s s'
  faults :
      (fault_address : ℕ)
      → page_fault_handler scheduler s fault_address ≡ some (resumes s')
      → Step scheduler s s'
  schedules :
      (fuel old_rsp rsp : ℕ) (m m' : Machine)
      → m.threads ≡ s.threads
      → scheduler_handler fuel m old_rsp ≡ returns m' rsp
      → s'.threads ≡ m'.threads
      → Step scheduler s s'
  waits :
      (t next_blocked : ℕ) (st : ThreadState)
      → s'.threads.thread
        ≡ update s.threads.thread t
            (record (s.threads.thread t) { state = st; next_blocked = next_blocked })
      → Step scheduler s s'
  elsewhere : s'.threads ≡ s.threads → Step scheduler s s'

pub data Reach (scheduler : ℕ) (s : System) : System → Type 0 where
  here : Reach scheduler s s
  next : {s1 s2 : System} → Reach scheduler s s1 → Step scheduler s1 s2 → Reach scheduler s s2

abbrev ResumesShut : Fault → Type 0
ResumesShut (resumes s) = IsShut s
ResumesShut (exits s) = Unit
ResumesShut hangs = Unit

not_resumed : (b : Bool) (s : System) → ResumesShut (if b then exits s else hangs)
not_resumed true s = tt
not_resumed false s = tt

Step-IsShut :
    (scheduler : ℕ) (s s' : System) → scheduler ≢ 0 → IsShut s → Step scheduler s s' → IsShut s'
Step-IsShut scheduler s s' on h (creates fuel exit_at entry_point stack_size t runs) =
    subst (Always LeavesShut) runs (create_thread-IsShut fuel exit_at s entry_point stack_size h)
Step-IsShut scheduler s s' on h
      (creates_user fuel proc entry_point kstack_size ustack_size t runs) =
    subst (Always LeavesShut) runs
      (create_user_thread-IsShut fuel s proc entry_point kstack_size ustack_size h)
Step-IsShut scheduler s s' on h (cleans rounds fuel runs) =
    subst (Always IsShut) runs (cleanup_dead_threads-IsShut rounds fuel s h)
Step-IsShut scheduler s s' on h (ends e) = subst IsShut (sym e) (thread_exit-IsShut s h)
Step-IsShut scheduler s s' on h (faults fault_address runs) =
    let th = s.threads.thread s.threads.current_thread in
    subst (Always ResumesShut) runs (
      subst (Always ResumesShut) (sym (page_fault_handler-IsShut scheduler s fault_address on h)) (
        not_resumed (ltb fault_address th.page_guard_max && leb th.page_guard_min fault_address)
          (thread_exit s)))
Step-IsShut scheduler s s' on h (schedules fuel old_rsp rsp m m' from runs to) =
    let h1 : AreShut m.threads.thread = subst (λ ths. AreShut ths.thread) (sym from) h in
    subst (λ ths. AreShut ths.thread) (sym to)
      (subst ShutBehind runs (scheduler_handler-ShutBehind fuel m old_rsp h1))
Step-IsShut scheduler s s' on h (waits t next_blocked st e) =
    subst AreShut (sym e) (update-AreShut s.threads.thread t _ h (h t))
Step-IsShut scheduler s s' on h (elsewhere e) = subst (λ ths. AreShut ths.thread) (sym e) h

Reach-IsShut :
    {scheduler : ℕ} {s s' : System} → scheduler ≢ 0 → IsShut s → Reach scheduler s s' → IsShut s'
Reach-IsShut on h here = h
Reach-IsShut on h (next {s1} {s2} r st) = Step-IsShut _ s1 s2 on (Reach-IsShut on h r) st

-- User stacks never grow. Take a system in which the guard of each thread ends at the bottom of its
-- user stack (as with threads that are all zero), and let threads be created for the kernel and for
-- users, be scheduled, wait and be woken, fault, exit and be cleaned up, in any order, with the scheduler
-- on: a page fault of whichever thread runs then ends the thread if the address lies in its guard page,
-- and otherwise ends in `for(;;)`.
pub page_fault_handler-Reach :
    (scheduler : ℕ) (s s' : System) (fault_address : ℕ)
    → scheduler ≢ 0
    → IsShut s
    → Reach scheduler s s'
    → let th = s'.threads.thread s'.threads.current_thread in
      page_fault_handler scheduler s' fault_address
      ≡ some (
          if ltb fault_address th.page_guard_max && leb th.page_guard_min fault_address
          then exits (thread_exit s')
          else hangs)
page_fault_handler-Reach scheduler s s' fault_address on h r =
    page_fault_handler-IsShut scheduler s' fault_address on (Reach-IsShut on h r)
