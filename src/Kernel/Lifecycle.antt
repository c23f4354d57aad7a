-- ===== src/Kernel/Lifecycle.antt =====
-- kernel/scheduler/thread.c: threads from their creation to their end, and mm/page_fault.c, which
-- ends them. `none`: a lock is held and never given back, or fuel ran out in a list of regions.
pub mod Create
pub mod Frame
pub mod Stacks
pub mod Guard
use pointer_os.Base.{
  ℕ, zero, suc, ◌*◌, ◌/◌, ◌&&◌, ◌||◌, not, Option, none, some, List, [], ◌∷◌, ltb, leb, ◌==◌,
  if◌then◌else◌, ◌>>=◌, update, add64, sub64,
}
use pointer_os.Kernel.Spinlock.{Cpu, cli, sti}
use pointer_os.Kernel.Thread.{ready, dead, Thread, Threads, set_state, enqueue_thread}
use pointer_os.Kernel.Scheduler.{Process}
use pointer_os.Mm.Kmalloc.{Kheap, kmalloc, kfree}
use pointer_os.Mm.Mapping.{
  Space, map_new_page, kernel_alloc_stack, user_alloc_stack, user_free_stack,
}

-- The memory managers, the threads and processes, `next_thread_id`, and the words on the stacks:
-- those of the kernel by address, those of user programs by root table and address.
pub record System : Type 0 where
  pub space : Space
  pub threads : Threads
  pub process : ℕ → Process
  pub next_thread_id : ℕ
  pub kernel_word : ℕ → ℕ
  pub user_word : ℕ → ℕ → ℕ

-- `memset(t, 0, sizeof(thread_t))`; `READY` is 0.
abbrev pub empty_thread : Thread
empty_thread = record {
  rsp = 0;
  tid = 0;
  state = ready;
  kernel_stack_top = 0;
  kernel_stack_bottom = 0;
  kernel_stack_size = 0;
  user_stack_top = 0;
  user_stack_bottom = 0;
  user_stack_size = 0;
  page_guard_min = 0;
  page_guard_max = 0;
  process = 0;
  prev = 0;
  next = 0;
  next_blocked = 0;
}

-- `stack_top--; *stack_top = value;` for each value.
pub push_all : (ℕ → ℕ) → ℕ → List ℕ → (ℕ → ℕ) × ℕ
push_all word top [] = (word, top)
push_all word top (v ∷ vs) = push_all (update word (sub64 top 8) v) (sub64 top 8) vs

abbrev pub zeros : ℕ → List ℕ
zeros zero = []
zeros (suc n) = 0 ∷ zeros n

-- What `create_thread` and `create_user_thread` push from the aligned top on: where the thread goes
-- when its function returns, the frame of `iretq`, and 15 registers.
abbrev pub frame_words : ℕ → ℕ → ℕ → ℕ → ℕ → List ℕ
frame_words top leave stack_segment code_segment entry_point =
    leave ∷ stack_segment ∷ sub64 top 8 ∷ 0x202 ∷ code_segment ∷ entry_point ∷ zeros 15

abbrev pub set_thread : System → ℕ → Thread → System
set_thread s t th = record s {
  threads = record s.threads { thread = update s.threads.thread t th };
}

abbrev pub set_heap : System → Cpu × Kheap → System
set_heap s h = record s {
  space = record s.space { kheap = h.1; mmu = record s.space.mmu { cpu = h.0 } };
}

-- `thread_t` has 120 bytes.
abbrev pub kmalloc_thread : System → Option (System × ℕ)
kmalloc_thread s = kmalloc s.space.mmu.cpu s.space.kheap 120 >>= λ r.
    let s1 = set_heap s (r.0, r.1) in
    some (if r.2 == 0 then s1 else set_thread s1 r.2 empty_thread, r.2)

abbrev pub kfree_in : System → ℕ → Option System
kfree_in s ptr = kfree s.space.mmu.cpu s.space.kheap ptr >>= λ h. some (set_heap s h)

-- `create_thread` from the fields of the stack on; `exit_at` is the address of `thread_exit`.
unfoldable pub start_thread : ℕ → System → ℕ → ℕ → ℕ → ℕ → System
start_thread exit_at s t stack_mem entry_point stack_size =
    let top = add64 stack_mem stack_size / 16 * 16 in
    let pushed = push_all s.kernel_word top (frame_words top exit_at 0x10 0x08 entry_point) in
    let s1 = set_thread s t (record (s.threads.thread t) {
      kernel_stack_bottom = stack_mem;
      kernel_stack_top = add64 stack_mem stack_size;
      kernel_stack_size = stack_size;
      rsp = pushed.1;
      tid = s.next_thread_id;
      state = ready;
      next = 0;
      prev = 0;
    }) in
    record s1 {
      kernel_word = pushed.0;
      next_thread_id = add64 s.next_thread_id 1;
      threads = enqueue_thread s1.threads t;
    }

unfoldable pub create_thread : ℕ → ℕ → System → ℕ → ℕ → Option (System × ℕ)
create_thread fuel exit_at s entry_point stack_size = kmalloc_thread s >>= λ allocated.
    let s1 = allocated.0 in
    let t = allocated.1 in
    let with_stack = kernel_alloc_stack fuel s1.space stack_size >>= λ stack.
    let s2 = record s1 { space = stack.0 } in
    let given_back = kfree_in s2 t >>= λ s3. some (s3, 0) in
    if stack.1 == 0
    then given_back
    else some (start_thread exit_at s2 t stack.1 entry_point stack_size, t) in
    if t == 0 then some (s1, 0) else with_stack

-- The list of user stacks and CR3 become those of the process at `proc`; the old ones are kept.
abbrev pub enter_process : System → ℕ → System
enter_process s proc =
    let p = s.process proc in
    record s {
      space = record s.space {
        stacks = record s.space.stacks { head = p.ustacks_infos };
        cr3 = p.pml4;
      };
    }

-- The process keeps its list, and the list and CR3 are those of `before` again.
abbrev pub leave_process : System → ℕ → System → System
leave_process s proc before =
    let p = s.process proc in
    record s {
      process = update s.process proc (record p { ustacks_infos = s.space.stacks.head });
      space = record s.space {
        stacks = record s.space.stacks { head = before.space.stacks.head };
        cr3 = before.space.cr3;
      };
    }

-- `create_user_thread` from the pushes on.
unfoldable pub start_user_thread : System → System → ℕ → ℕ → ℕ → ℕ → ℕ → ℕ → ℕ → System
start_user_thread s before t proc kernel_mem user_mem entry_point kstack_size ustack_size =
    let root = s.space.cr3 in
    let top = user_mem / 16 * 16 in
    let pushed = push_all (s.user_word root) top (frame_words top 0x300000 0x1b 0x23 entry_point) in
    let s1 = leave_process s proc before in
    let s2 = set_thread s1 t (record (s1.threads.thread t) {
      kernel_stack_bottom = kernel_mem;
      kernel_stack_top = add64 kernel_mem kstack_size;
      kernel_stack_size = kstack_size;
      user_stack_bottom = user_mem;
      user_stack_top = add64 user_mem ustack_size;
      user_stack_size = ustack_size;
      page_guard_max = user_mem;
      page_guard_min = sub64 user_mem 0x1000;
      rsp = pushed.1;
      tid = s1.next_thread_id;
      state = ready;
      next = 0;
      prev = 0;
    }) in
    record s2 {
      user_word = update s1.user_word root pushed.0;
      next_thread_id = add64 s1.next_thread_id 1;
      threads = enqueue_thread s2.threads t;
    }

unfoldable pub create_user_thread : ℕ → System → ℕ → ℕ → ℕ → ℕ → Option (System × ℕ)
create_user_thread fuel s proc entry_point kstack_size ustack_size =
    kmalloc_thread s >>= λ allocated.
    let s1 = allocated.0 in
    let t = allocated.1 in
    let with_stack = kernel_alloc_stack fuel s1.space kstack_size >>= λ stack.
    let s2 = record s1 { space = stack.0 } in
    let given_back = kfree_in s2 t >>= λ s3. some (s3, 0) in
    let s3 = set_thread s2 t (record (s2.threads.thread t) { process = proc }) in
    let entered = enter_process s3 proc in
    let started = user_alloc_stack fuel entered.space ustack_size >>= λ user_stack. some (
      start_user_thread (record entered { space = user_stack.0 }) s3 t proc stack.1 user_stack.1
          entry_point kstack_size ustack_size,
      t,
    ) in
    if stack.1 == 0 then given_back else started in
    if t == 0 then some (s1, 0) else with_stack

-- The user stack of a thread is freed in the address space of its process.
abbrev pub free_user_stack : ℕ → System → Thread → Option System
free_user_stack fuel s th =
    let entered = enter_process s th.process in
    user_free_stack fuel entered.space th.user_stack_bottom >>= λ space.
    some (leave_process (record entered { space = space }) th.process s)

unfoldable pub destroy_thread : ℕ → System → ℕ → Option System
destroy_thread fuel s t =
    let th = s.threads.thread t in
    let destroyed =
      (if th.kernel_stack_bottom == 0 then some s else kfree_in s th.kernel_stack_bottom) >>= λ s1.
      (if th.user_stack_bottom == 0 || th.process == 0 then some s1 else free_user_stack fuel s1 th)
      >>= λ s2. kfree_in s2 t in
    if t == 0 then some s else destroyed

-- The loop of `cleanup_dead_threads` from `t`.
pub destroy_from : ℕ → ℕ → System → ℕ → Option System
destroy_from zero fuel s t = none
destroy_from (suc rounds) fuel s t =
    let next_dead = (s.threads.thread t).next in
    let rest = destroy_thread fuel s t >>= λ s'. destroy_from rounds fuel s' next_dead in
    if t == 0 then some s else rest

abbrev pub set_cpu : System → Cpu → System
set_cpu s cpu = record s { space = record s.space { mmu = record s.space.mmu { cpu = cpu } } }

unfoldable pub cleanup_dead_threads : ℕ → ℕ → System → Option System
unfolding destroy_from
cleanup_dead_threads rounds fuel s =
    let t = s.threads.dead_list_head in
    let s1 = set_cpu s (cli s.space.mmu.cpu) in
    let s2 = record s1 { threads = record s1.threads { dead_list_head = 0 } } in
    destroy_from rounds fuel (set_cpu s2 (sti s2.space.mmu.cpu)) t

-- `thread_exit` up to its `yield`, after which `scheduler_handler` runs.
unfoldable pub thread_exit : System → System
thread_exit s =
    let s1 = set_cpu s (cli s.space.mmu.cpu) in
    let th = s1.threads in
    record s1 { threads = record th { thread = set_state th.thread th.current_thread dead } }

-- How a page fault ends: the thread goes on, it has exited and yields, or the processor stays in
-- `for(;;)`.
pub data Fault : Type 0 where
  resumes : System → Fault
  exits : System → Fault
  hangs : Fault

-- The guard page is mapped, and the next one becomes the guard page.
abbrev pub expand_stack : System → Option System
expand_stack s =
    let t = s.threads.current_thread in
    let th = s.threads.thread t in
    map_new_page s.space.mmu s.space.cr3 th.page_guard_min 6 >>= λ m. some (
      set_thread (record s { space = record s.space { mmu = m } }) t
        (record th {
          page_guard_max = sub64 th.page_guard_max 0x1000;
          page_guard_min = sub64 th.page_guard_min 0x1000;
        }))

-- `scheduler` is the variable of scheduler.c, and `fault_address` is read from CR2.
unfoldable pub page_fault_handler : ℕ → System → ℕ → Option Fault
unfolding thread_exit
page_fault_handler scheduler s fault_address =
    let th = s.threads.thread s.threads.current_thread in
    let expanded = expand_stack s >>= λ s'. some (resumes s') in
    let in_guard = ltb fault_address th.page_guard_max && leb th.page_guard_min fault_address in
    if scheduler == 0 || not in_guard
    then some hangs
    else if th.page_guard_max == th.user_stack_bottom
    then some (exits (thread_exit s))
    else expanded
