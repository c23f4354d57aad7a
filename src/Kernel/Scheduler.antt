-- ===== src/Kernel/Scheduler.antt =====
-- kernel/scheduler/scheduler.c: `scheduler_handler`, which the timer interrupt and `yield` call
-- with the stack pointer of the thread that they interrupted.
pub mod Find
pub mod Fairness
pub mod Pick
pub mod Retire
pub mod Shut
pub mod RoundRobin
pub mod AddressSpace
use pointer_os.Base.{ℕ, zero, suc, Bool, true, false, ◌||◌, ◌==◌, if◌then◌else◌, update}
use pointer_os.Kernel.Thread.{
  ThreadState, ready, running, blocked, dead, Thread, Threads, set_next, set_state, dequeue_thread,
}

-- `process_t`
pub record Process : Type 0 where
  pub pml4 : ℕ
  pub pid : ℕ
  pub ustacks_infos : ℕ

-- What the handler reads and writes: the threads, the processes by address, `us_list_head` of
-- mm/stack.c, the register CR3, `tss.rsp0`, `sstacks.kernel_rsp` and the MSR that
-- `init_kernel_gs_base` sets to the address of `sstacks`.
pub record Machine : Type 0 where
  pub threads : Threads
  pub process : ℕ → Process
  pub us_list_head : ℕ
  pub cr3 : ℕ
  pub tss_rsp0 : ℕ
  pub kernel_rsp : ℕ
  pub kernel_gs_base : ℕ
  pub sstacks_at : ℕ

abbrev pub is_off : ThreadState → Bool
is_off dead = true
is_off blocked = true
is_off _ = false

abbrev pub is_runnable : ThreadState → Bool
is_runnable ready = true
is_runnable running = true
is_runnable _ = false

abbrev pub set_rsp : (ℕ → Thread) → ℕ → ℕ → ℕ → Thread
set_rsp f t rsp = update f t (record (f t) { rsp = rsp })

-- The three branches on the state of the interrupted thread.
unfoldable pub retire : ThreadState → Threads → ℕ → ℕ → Threads
retire dead s old old_rsp =
    let s = dequeue_thread s old in
    record s { thread = set_next s.thread old s.dead_list_head; dead_list_head = old }
retire blocked s old old_rsp =
    dequeue_thread (record s { thread = set_rsp s.thread old old_rsp }) old
retire _ s old old_rsp = record s { thread = set_state (set_rsp s.thread old old_rsp) old ready }

pub data Search : Type 0 where
  found : ℕ → Search
  came_back : Search
  endless : Search

-- The `while` loop. `endless` means that the fuel ran out.
unfoldable pub find_runnable : ℕ → (ℕ → Thread) → ℕ → ℕ → Search
find_runnable zero f next start = endless
find_runnable (suc fuel) f next start =
    let rest = find_runnable fuel f (f next).next start in
    if is_runnable (f next).state
    then found next
    else if (f next).next == start
    then came_back
    else rest

-- `us_list_head` and CR3 follow the process, if it changes.
pub switch_process : Machine → ℕ → ℕ → Machine
switch_process m old next =
    let p = (m.threads.thread old).process in
    let q = (m.threads.thread next).process in
    if p == q
    then m
    else let m = if p == 0 then m else record m {
      process = update m.process p (record (m.process p) { ustacks_infos = m.us_list_head });
    } in
      if q == 0
      then record m { us_list_head = 0 }
      else record m { us_list_head = (m.process q).ustacks_infos; cr3 = (m.process q).pml4 }

-- From `next_thread->state = RUNNING` to the end.
unfoldable pub switch_to : Machine → ℕ → ℕ → Machine
unfolding switch_process
switch_to m old next =
    let s = m.threads in
    let m = record m {
      threads = record s { thread = set_state s.thread next running; current_thread = next };
    } in
    let m = switch_process m old next in
    let t = m.threads.thread next in
    let m = if t.process == 0 then m else record m { kernel_gs_base = m.sstacks_at } in
    record m { tss_rsp0 = t.kernel_stack_top; kernel_rsp = t.kernel_stack_top }

-- The handler returns a stack pointer, or stops in `for(;;)`; `loops` means that the fuel ran out.
pub data Outcome : Type 0 where
  returns : Machine → ℕ → Outcome
  halts : Outcome
  loops : Outcome

-- The search from `start`, and what follows it.
unfoldable pub pick : ℕ → Machine → ℕ → ℕ → ℕ → Outcome
unfolding find_runnable switch_to
pick fuel m old start old_rsp =
    let f = m.threads.thread in
    elim (find_runnable fuel f start start) [
      | found next ↦ returns (switch_to m old next) (f next).rsp
      | came_back ↦
          if is_off (f old).state
          then halts
          else returns
              (record m { threads = record (m.threads) { thread = set_state f old running } })
              old_rsp
      | endless ↦ loops
    ]

unfoldable pub scheduler_handler : ℕ → Machine → ℕ → Outcome
unfolding retire pick
scheduler_handler fuel m old_rsp =
    let s = m.threads in
    let old = s.current_thread in
    let st = (s.thread old).state in
    let s' = retire st s old old_rsp in
    let start = if is_off st then s'.ready_list_head else (s.thread old).next in
    let m' = record m { threads = s' } in
    if s.ready_list_head == 0 || (s.thread s.ready_list_head).next == s.ready_list_head
    then returns m old_rsp
    else if start == 0
    then returns m' old_rsp
    else pick fuel m' old start old_rsp
