-- ===== src/Kernel/Tests.antt =====
-- A kernel with three threads at 100, 200 and 300, of which 100 runs and 300 belongs to the process
-- at 1000, and a mutex that 100 holds and 400 waits for.
use pointer_os.Base.{ℕ, ◌≡◌, refl, ◌≢◌, ◌⊎◌, false, some, List, [], ◌∷◌, arith, ◌==◌, if◌then◌else◌}
use pointer_os.Kernel.Spinlock.{interrupts_on}
use pointer_os.Kernel.Thread.{
  ThreadState, ready, running, blocked, dead, Thread, Threads, set_state, enqueue_thread,
  dequeue_thread,
}
use pointer_os.Kernel.Thread.Ring.{
  IsReady, SamePayload, enqueue_thread-IsReady, dequeue_thread-IsReady,
}
use pointer_os.Kernel.Scheduler.{Machine, returns, halts, loops, scheduler_handler}
use pointer_os.Kernel.Scheduler.Fairness.{interrupts, every_thread_runs}
use pointer_os.Kernel.Scheduler.Find.{first_runnable}
use pointer_os.Kernel.Scheduler.Pick.{RunsFrom}
use pointer_os.Kernel.Scheduler.RoundRobin.{
  Retires, scheduler_handler_round_robin, scheduler_handler-Retires,
}
use pointer_os.Kernel.Scheduler.AddressSpace.{
  InAddressSpace, stack_list, scheduler_handler_isolates,
}
use pointer_os.Kernel.Mutex.{Sync, yields, mutex_lock, mutex_unlock}
use pointer_os.Kernel.Mutex.Handover.{
  Waits, HandedTo, mutex_lock-Waits, mutex_unlock_hands_over, mutex_unlock_loses_waiter,
}

abbrev thread_with : ThreadState → ℕ → ℕ → ℕ → Thread
thread_with st process prev next = record {
  rsp = 7;
  tid = 1;
  state = st;
  kernel_stack_top = 5000;
  kernel_stack_bottom = 4000;
  kernel_stack_size = 1000;
  user_stack_top = 0;
  user_stack_bottom = 0;
  user_stack_size = 0;
  page_guard_min = 0;
  page_guard_max = 0;
  process = process;
  prev = prev;
  next = next;
  next_blocked = 0;
}

abbrev three : ThreadState → ℕ → Thread
three st c =
    if c == 100
    then thread_with st 0 300 200
    else if c == 200
    then thread_with ready 0 100 300
    else if c == 300
    then thread_with ready 1000 200 100
    else thread_with blocked 0 0 0

abbrev threads_in : ThreadState → Threads
threads_in st = record {
  thread = three st;
  current_thread = 100;
  ready_list_head = 100;
  dead_list_head = 0;
}

abbrev machine_in : ThreadState → Machine
machine_in st = record {
  threads = threads_in st;
  process = λ p. record { pml4 = 77; pid = 1; ustacks_infos = 88 };
  us_list_head = 0;
  cr3 = 66;
  tss_rsp0 = 0;
  kernel_rsp = 0;
  kernel_gs_base = 0;
  sstacks_at = 9000;
}

threads_in-IsReady : (st : ThreadState) → IsReady (threads_in st) (100 ∷ 200 ∷ 300 ∷ [])
threads_in-IsReady st = omega arith

-- The mutex is held by 100, and 400 waits.
abbrev sync_now : Sync
sync_now = record {
  cpu = record { rflags = 0x202 };
  threads = threads_in running;
  mutex = record { lock = record { lock = 0 }; locked = 1; blocked_head = 400; blocked_tail = 400 };
}

sync_now-Waits : Waits sync_now (400 ∷ [])
sync_now-Waits = record { queue = omega arith; tail = refl; distinct = omega arith }

enqueue_thread-IsReady_example :
    let s = threads_in running in
    IsReady (enqueue_thread s 400) (100 ∷ 200 ∷ 300 ∷ 400 ∷ [])
    × SamePayload s.thread (enqueue_thread s 400).thread
enqueue_thread-IsReady_example =
    enqueue_thread-IsReady (threads_in running) 400 (100 ∷ 200 ∷ 300 ∷ []) (omega arith)
      (omega arith) (threads_in-IsReady running)

dequeue_thread-IsReady_example :
    let s = threads_in running in
    IsReady (dequeue_thread s 100) (200 ∷ 300 ∷ [])
    × SamePayload s.thread (dequeue_thread s 100).thread
dequeue_thread-IsReady_example =
    dequeue_thread-IsReady (threads_in running) [] 100 (200 ∷ 300 ∷ []) (threads_in-IsReady running)

scheduler_handler_round_robin_example :
    let m = machine_in running in
    let f = m.threads.thread in
    (next : ℕ) × (m' : Machine) × (first_runnable f (200 ∷ 300 ∷ 100 ∷ []) ≡ some next)
    × (scheduler_handler 3 m 6 ≡ returns m' (if next == 100 then 6 else (f next).rsp))
    × ((m'.threads.thread 100).rsp ≡ 6)
    × IsReady m'.threads (100 ∷ 200 ∷ 300 ∷ [])
    × RunsFrom (set_state f 100 ready) next m'
scheduler_handler_round_robin_example =
    scheduler_handler_round_robin 3 (machine_in running) 6 [] (200 ∷ 300 ∷ [])
      (threads_in-IsReady running) (omega arith) (λ e. cc) refl

scheduler_handler-Retires_example :
    let others : List ℕ = 200 ∷ 300 ∷ [] in
    ((others ≢ [])
      × Retires 3
          (machine_in dead)
          6
          (200 ∷ 300 ∷ [])
          (first_runnable (three dead) (200 ∷ 300 ∷ [])))
    ⊎ ((others ≡ []) × (scheduler_handler 3 (machine_in dead) 6 ≡ returns (machine_in dead) 6))
scheduler_handler-Retires_example =
    scheduler_handler-Retires 3 (machine_in dead) 6 [] (200 ∷ 300 ∷ []) (threads_in-IsReady dead)
      (omega arith) refl

-- The kernel's thread 200 runs, and the thread 300 of a process is next.
abbrev before_user : Machine
before_user = record (machine_in running) {
  threads = record (threads_in running) { current_thread = 200 };
}

abbrev after_user : Machine
unfolding scheduler_handler
after_user = elim (scheduler_handler 3 before_user 6) [
  | returns m rsp ↦ m
  | halts ↦ before_user
  | loops ↦ before_user
]

switch_runs :
    (scheduler_handler 3 before_user 6 ≡ returns after_user 7)
    × (after_user.cr3 ≡ 77)
    × (after_user.us_list_head ≡ 88)
unfolding scheduler_handler
switch_runs = (refl, refl, refl)

scheduler_handler_isolates_example :
    InAddressSpace after_user
    × ((p : ℕ) → p ≢ 0 → stack_list after_user p ≡ stack_list before_user p)
    × ((p : ℕ) → (after_user.process p).pml4 ≡ (before_user.process p).pml4)
scheduler_handler_isolates_example =
    scheduler_handler_isolates 3 before_user 6 7 after_user switch_runs.0 (λ h. absurd (h refl))

mutex_lock-Waits_example :
    (s' : Sync) × (mutex_lock sync_now ≡ some (s', yields))
    × Waits s' (400 ∷ 100 ∷ [])
    × ((s'.threads.thread 100).state ≡ blocked)
    × (s'.mutex.locked ≡ 1)
    × (s'.mutex.lock.lock ≡ 0)
    × (interrupts_on s'.cpu ≡ false)
mutex_lock-Waits_example =
    mutex_lock-Waits sync_now (400 ∷ []) refl (omega arith) sync_now-Waits (omega arith)
      (omega arith)

mutex_unlock_hands_over_example :
    (s' : Sync) × (mutex_unlock sync_now ≡ some s')
    × (s'.cpu ≡ sync_now.cpu)
    × (s'.mutex.lock.lock ≡ 0)
    × Waits s' []
    × HandedTo sync_now s' (400 ∷ [])
mutex_unlock_hands_over_example = mutex_unlock_hands_over sync_now (400 ∷ []) refl sync_now-Waits

mutex_unlock_loses_waiter_example :
    (s' : Sync) × (mutex_unlock sync_now ≡ some s')
    × ((s'.threads.thread 400).state ≡ ready)
    × IsReady s'.threads (100 ∷ 200 ∷ 300 ∷ [])
mutex_unlock_loses_waiter_example =
    mutex_unlock_loses_waiter sync_now 400 [] (100 ∷ 200 ∷ 300 ∷ []) refl sync_now-Waits
      (threads_in-IsReady running) (omega arith)

-- 300 runs after two interrupts.
every_thread_runs_example :
    (m' : Machine) × (interrupts 3 (6 ∷ 8 ∷ []) (machine_in running) ≡ some m')
    × IsReady m'.threads (100 ∷ 200 ∷ 300 ∷ [])
    × (m'.threads.current_thread ≡ 300)
every_thread_runs_example =
    every_thread_runs (200 ∷ []) 3 (machine_in running) (100 ∷ 200 ∷ 300 ∷ []) 100 300 []
      (6 ∷ 8 ∷ []) (threads_in-IsReady running) refl ([], 200 ∷ 300 ∷ [], refl, refl)
      (refl, (refl, (refl, tt))) (omega arith) refl
