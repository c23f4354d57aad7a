-- ===== src/Kernel/Scheduler/AddressSpace.antt =====
-- A switch of threads takes the address space and the list of user stacks with it.
use pointer_os.Base.{
  ℕ, ◌≡◌, refl, ap, ◌∙◌, ◌≢◌, inl, inr, ◌||◌, arith, ◌==◌, if◌then◌else◌, Bool-cases,
}
use pointer_os.Kernel.Thread.{
  ThreadState, ready, running, blocked, dead, Thread, Threads, set_state,
}
use pointer_os.Kernel.Thread.Ring.{dequeue_thread-SamePayload, current_thread-dequeue}
use pointer_os.Kernel.Scheduler.Pick.{pick-found}
use pointer_os.Kernel.Scheduler.{
  Machine, is_off, set_rsp, retire, Search, found, came_back, endless, find_runnable, switch_to,
  returns, halts, loops, pick, scheduler_handler,
}

-- The process of the thread that runs, 0 for a thread of the kernel.
abbrev pub process_now : Machine → ℕ
process_now m = (m.threads.thread m.threads.current_thread).process

-- CR3 holds the page table of the process that runs, if one does.
abbrev pub InAddressSpace : Machine → Type 0
InAddressSpace m = process_now m ≢ 0 → m.cr3 ≡ (m.process (process_now m)).pml4

-- The head of the user stacks of a process: `us_list_head` while it runs, else kept in it.
abbrev pub stack_list : Machine → ℕ → ℕ
stack_list m p = if p == process_now m then m.us_list_head else (m.process p).ustacks_infos

record Keeps (m m' : Machine) : Type 0 where
  space : InAddressSpace m → InAddressSpace m'
  stacks : (p : ℕ) → p ≢ 0 → stack_list m' p ≡ stack_list m p
  tables : (p : ℕ) → (m'.process p).pml4 ≡ (m.process p).pml4

switch_to-Keeps : (m : Machine) (next : ℕ) → Keeps m (switch_to m m.threads.current_thread next)
unfolding switch_to
switch_to-Keeps m next = record {
  space = λ h. ground arith;
  stacks = λ p live. ground arith;
  tables = λ p. ground arith;
}

-- The machine with other threads, of which none changed its process.
threads-Keeps :
    (m : Machine) (s : Threads)
    → s.current_thread ≡ m.threads.current_thread
    → ((c : ℕ) → (s.thread c).process ≡ (m.threads.thread c).process)
    → Keeps m (record m { threads = s })
threads-Keeps m s now same =
    let same_process : process_now (record m { threads = s }) ≡ process_now m =
      rw now (same m.threads.current_thread) in
    record {
      space = λ h. rw same_process h;
      stacks = λ p live. rw same_process;
      tables = λ p. refl;
    }

retire_same :
    (st : ThreadState) (s : Threads) (old old_rsp : ℕ)
    → ((retire st s old old_rsp).current_thread ≡ s.current_thread)
      × ((c : ℕ) → ((retire st s old old_rsp).thread c).process ≡ (s.thread c).process)
unfolding retire
retire_same ready s old old_rsp = (refl, λ c. ground arith)
retire_same running s old old_rsp = (refl, λ c. ground arith)
retire_same blocked s old old_rsp =
    let s1 : Threads = record s { thread = set_rsp s.thread old old_rsp } in
    (
      current_thread-dequeue s1 old,
      λ c. ap (λ (t : Thread). t.process) (dequeue_thread-SamePayload s1 old c) ∙ ground arith,
    )
retire_same dead s old old_rsp = (
  current_thread-dequeue s old,
  λ c. ground (arith, ap (λ (t : Thread). t.process) (dequeue_thread-SamePayload s old c)),
)

Keeps-refl : (m : Machine) → Keeps m m
Keeps-refl m = record { space = λ h. h; stacks = λ p live. refl; tables = λ p. refl }

Keeps-trans : {m m' m'' : Machine} → Keeps m m' → Keeps m' m'' → Keeps m m''
Keeps-trans a b = record {
  space = λ h. b.space (a.space h);
  stacks = λ p live. b.stacks p live ∙ a.stacks p live;
  tables = λ p. b.tables p ∙ a.tables p;
}

halts≢returns : (m : Machine) (rsp : ℕ) → halts ≢ returns m rsp
halts≢returns m rsp e = cc

loops≢returns : (m : Machine) (rsp : ℕ) → loops ≢ returns m rsp
loops≢returns m rsp e = cc

pick-Keeps :
    (fuel : ℕ) (m : Machine) (start old_rsp rsp : ℕ) (m' : Machine) (r : Search)
    → find_runnable fuel m.threads.thread start start ≡ r
    → pick fuel m m.threads.current_thread start old_rsp ≡ returns m' rsp
    → Keeps m m'
unfolding pick
pick-Keeps fuel m start old_rsp rsp m' (found next) q e =
    let done : switch_to m m.threads.current_thread next ≡ m' =
      cc (pick-found fuel m m.threads.current_thread start old_rsp next q) in
    rw (← done) (switch_to-Keeps m next)
pick-Keeps fuel m start old_rsp rsp m' came_back q e =
    let old = m.threads.current_thread in
    let f = m.threads.thread in
    let m1 : Machine = record m {
      threads = record (m.threads) { thread = set_state f old running };
    } in
    elim (Bool-cases (is_off (f old).state)) [
      | inl off ↦
          let stopped : halts ≡ returns m' rsp = rw (q, off, pick) at e in
          absurd (halts≢returns m' rsp stopped)
      | inr on ↦
          let stays : returns m1 old_rsp ≡ returns m' rsp = rw (q, on, pick) at e in
          let done : m1 ≡ m' = cc in
          rw (← done) (threads-Keeps m (m1.threads) refl (λ c. ground arith))
    ]
pick-Keeps fuel m start old_rsp rsp m' endless q e =
    let ran_out : loops ≡ returns m' rsp = rw (q, pick) at e in
    absurd (loops≢returns m' rsp ran_out)

handler-Keeps :
    (fuel : ℕ) (m : Machine) (old_rsp rsp : ℕ) (m' : Machine)
    → scheduler_handler fuel m old_rsp ≡ returns m' rsp
    → Keeps m m'
unfolding scheduler_handler
handler-Keeps fuel m old_rsp rsp m' e =
    let s = m.threads in
    let old = s.current_thread in
    let st = (s.thread old).state in
    let s' = retire st s old old_rsp in
    let m1 : Machine = record m { threads = s' } in
    let start = if is_off st then s'.ready_list_head else (s.thread old).next in
    let (now, same) = retire_same st s old old_rsp in
    let retired : Keeps m m1 = threads-Keeps m s' now same in
    elim (Bool-cases
      (s.ready_list_head == 0 || (s.thread s.ready_list_head).next == s.ready_list_head)) [
        | inl alone ↦
            let e' : returns m old_rsp ≡ returns m' rsp = rw alone at e in
            let done : m ≡ m' = cc in rw (← done) (Keeps-refl m)
        | inr others ↦ elim (Bool-cases (start == 0)) [
          | inl nobody ↦
              let e' : returns m1 old_rsp ≡ returns m' rsp = rw (others, nobody) at e in
              let done : m1 ≡ m' = cc in rw (← done) retired
          | inr somebody ↦
              let e' : pick fuel m1 old start old_rsp ≡ returns m' rsp =
                rw (others, somebody) at e in
              let e'' : pick fuel m1 m1.threads.current_thread start old_rsp ≡ returns m' rsp =
                rw now e' in
              Keeps-trans retired (pick-Keeps fuel m1 start old_rsp rsp m' _ refl e'')
        ]
      ]

-- Whenever `scheduler_handler` returns, CR3 holds the page table of the process that runs, if it
-- did before; each process has the list of user stacks that it had, be it running or not; and no
-- process changed its page table.
pub scheduler_handler_isolates :
    (fuel : ℕ) (m : Machine) (old_rsp rsp : ℕ) (m' : Machine)
    → scheduler_handler fuel m old_rsp ≡ returns m' rsp
    → InAddressSpace m
    → InAddressSpace m'
      × ((p : ℕ) → p ≢ 0 → stack_list m' p ≡ stack_list m p)
      × ((p : ℕ) → (m'.process p).pml4 ≡ (m.process p).pml4)
scheduler_handler_isolates fuel m old_rsp rsp m' e h =
    let k = handler-Keeps fuel m old_rsp rsp m' e in (k.space h, k.stacks, k.tables)
