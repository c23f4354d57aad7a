-- ===== src/Kernel/LifecycleTests.antt =====
-- A system with one ready thread at 100 and two dead ones at 200 and 300.
use pointer_os.Base.{
  ℕ, ◌+◌, ◌^◌, ◌≡◌, refl, inl, inr, none, some, [], ◌∷◌, arith, ◌==◌, if◌then◌else◌, Bool-cases,
  sub64,
}
use pointer_os.Kernel.Lifecycle.Guard.{here, next, schedules, page_fault_handler-Reach}
use pointer_os.Kernel.Lifecycle.Stacks.{IsShut}
use pointer_os.Mm.Mapping.{user_alloc_stack}
use pointer_os.Mm.Stack.{us_add_to_list}
use pointer_os.Kernel.Thread.{enqueue_thread}
use pointer_os.Kernel.Lifecycle.{create_user_thread, start_user_thread}
use pointer_os.Kernel.Scheduler.{
  Machine, returns, halts, loops, scheduler_handler, retire, pick, find_runnable, switch_to,
}
use pointer_os.Kernel.Syscall.{syscall_handler, init_syscalls, init_kernel_gs_base}
use pointer_os.Kernel.Spinlock.{Cpu, spin_lock_irqsave, spin_lock_irqrestore}
use pointer_os.Kernel.Thread.{dead, Thread}
use pointer_os.Kernel.Thread.Ring.{IsReady}
use pointer_os.Kernel.Lifecycle.{
  System, set_heap, empty_thread, create_thread, start_user_thread, page_fault_handler, thread_exit,
  exits,
}
use pointer_os.Kernel.Lifecycle.Create.{IsStarted, create_thread-IsStarted}
use pointer_os.Mm.Slab.{slab_alloc}
use pointer_os.Mm.Kmalloc.{Kheap, kmalloc, kmalloc_unlocked, cache_from}
use pointer_os.Mm.Pmm.{Bitmap, pmm_alloc_page, bitmap_test, bitmap_set}
use pointer_os.Mm.Region.{add_to_list}
use pointer_os.Mm.Vmalloc.{vm_add_to_list}
use pointer_os.Mm.Vmm.{vmm_map_page, descend, map_in_directory}
use pointer_os.Mm.Mapping.{Space, kernel_alloc_stack, vmalloc, map_region}

abbrev small_heap : Kheap
small_heap = record {
  heap = record {
    buddy = record {
      block = λ p. record { prev = 0; next = 0 };
      free_areas = λ i. 0;
      metadata = λ i. record { order = 0; is_free = 0; is_slab = 0 };
    };
    slab = λ p. record {
      free_list = 0x5030;
      free_count = 5;
      total_count = 9;
      parent_cache = 3;
      prev = 0;
      next = 0;
    };
    cache = λ i. record { obj_size = 2 ^ (i + 4); slabs_partial = 0x5000; slabs_full = 0 };
    word = λ p. p + 128;
  };
  kmalloc_lock = record { lock = 0 };
  scheduler = 0;
}

-- Pages 5 to 15 are free.
abbrev upper_free : Bitmap
upper_free i = if i == 0 then 0x1f else 0

abbrev small_space : Space
small_space = record {
  kheap = small_heap;
  regions = record { node = λ p. record { base = 0; size = 0; prev = 0; next = 0 }; head = 0 };
  stacks = record { node = λ p. record { base = 0; size = 0; prev = 0; next = 0 }; head = 0 };
  mmu = record {
    memory = λ p. 0;
    cpu = record { rflags = 0x202 };
    pmm = record { bitmap = upper_free; total_pages = 16; lock = record { lock = 0 } };
    flushed = [];
  };
  cr3 = 0x4000;
}

abbrev three_threads : ℕ → Thread
three_threads c =
    if c == 100
    then record empty_thread { next = 100; prev = 100 }
    else if c == 200
    then record empty_thread { state = dead; next = 300 }
    else empty_thread

abbrev small_system : System
small_system = record {
  space = small_space;
  threads = record {
    thread = three_threads;
    current_thread = 100;
    ready_list_head = 100;
    dead_list_head = 200;
  };
  process = λ p. record { pml4 = 0; pid = 0; ustacks_infos = 0 };
  next_thread_id = 7;
  kernel_word = λ a. 0;
  user_word = λ r a. 0;
}

abbrev given_thread : Cpu × Kheap × ℕ
given_thread = elim (kmalloc small_space.mmu.cpu small_heap 120) [
  | some r ↦ r
  | none ↦ (small_space.mmu.cpu, small_heap, 0)
]

gives_thread :
    kmalloc small_space.mmu.cpu small_heap 120 ≡ some (given_thread.0, given_thread.1, 0x5030)
unfolding kmalloc kmalloc_unlocked slab_alloc cache_from
gives_thread = refl

abbrev given_stack : Space × ℕ
given_stack =
    elim (kernel_alloc_stack 3 (set_heap small_system (given_thread.0, given_thread.1)).space
      0x1000) [ some r ↦ r | none ↦ (small_space, 0) ]

gives_stack :
    kernel_alloc_stack 3 (set_heap small_system (given_thread.0, given_thread.1)).space 0x1000
    ≡ some (given_stack.0, 0xffff_c000_0000_0000)
unfolding kmalloc kmalloc_unlocked slab_alloc cache_from kernel_alloc_stack vmalloc vm_add_to_list
    add_to_list map_region vmm_map_page descend map_in_directory pmm_alloc_page bitmap_test
    bitmap_set spin_lock_irqsave spin_lock_irqrestore
gives_stack = refl

create_thread-IsStarted_example :
    (s' : System) × (create_thread 3 0x9999 small_system 0x1234 0x1000 ≡ some (s', 0x5030))
    × IsReady s'.threads (100 ∷ 0x5030 ∷ [])
    × IsStarted s' 0x5030 7 0x1234 0x9999 0xffff_c000_0000_0000 (0xffff_c000_0000_0000 + 0x1000)
create_thread-IsStarted_example =
    create_thread-IsStarted 3 0x9999 small_system 0x1234 0x1000 0x5030 0xffff_c000_0000_0000
      (100 ∷ []) given_thread.0 given_thread.1 given_stack.0 gives_thread (omega arith) gives_stack
      (omega arith) (omega arith) (omega arith) (omega arith) (omega arith)

abbrev user_started : System × ℕ
user_started = elim (create_user_thread 3 small_system 600 0x8000 0x1000 0x1000) [
  | some r ↦ r
  | none ↦ (small_system, 0)
]

starts_user :
    (create_user_thread 3 small_system 600 0x8000 0x1000 0x1000 ≡ some (user_started.0, 0x5030))
unfolding create_user_thread start_user_thread kmalloc kmalloc_unlocked slab_alloc cache_from
    kernel_alloc_stack vmalloc vm_add_to_list add_to_list map_region vmm_map_page descend
    map_in_directory pmm_alloc_page bitmap_test bitmap_set spin_lock_irqsave spin_lock_irqrestore
    user_alloc_stack us_add_to_list enqueue_thread
starts_user = refl

-- A kernel thread at 100, which runs, and a user thread at 400, whose stack ends at 0x7fff_f000.
abbrev two_threads : ℕ → Thread
two_threads c =
    if c == 100
    then record empty_thread { next = 400; prev = 400 }
    else if c == 400
    then record empty_thread {
      next = 100;
      prev = 100;
      user_stack_bottom = 0x7fff_f000;
      page_guard_max = 0x7fff_f000;
      page_guard_min = 0x7fff_e000;
    }
    else empty_thread

abbrev two_system : System
two_system = record small_system {
  threads = record small_system.threads { thread = two_threads; dead_list_head = 0 };
}

abbrev machine : Machine
machine = record {
  threads = two_system.threads;
  process = two_system.process;
  us_list_head = 0;
  cr3 = 0x4000;
  tss_rsp0 = 0;
  kernel_rsp = 0;
  kernel_gs_base = 0;
  sstacks_at = 0x7000;
}

abbrev switched : Machine × ℕ
switched = elim (scheduler_handler 3 machine 0x6000) [
  | returns m r ↦ (m, r)
  | halts ↦ (machine, 0)
  | loops ↦ (machine, 0)
]

switches : scheduler_handler 3 machine 0x6000 ≡ returns switched.0 switched.1
unfolding scheduler_handler retire pick find_runnable switch_to
switches = refl

abbrev user_runs : System
user_runs = record two_system { threads = switched.0.threads }

two_system-IsShut : IsShut two_system
two_system-IsShut c = elim (Bool-cases (c == 100)) [
  | inl at_100 ↦ rw at_100 refl
  | inr other ↦ elim (Bool-cases (c == 400)) [
    | inl at_400 ↦ rw (other, at_400) refl
    | inr far ↦ rw (other, far) refl
  ]
]

-- The user thread is created by the thread at 100 in the first system: its guard page lies below it.
new_guard :
    let th = user_started.0.threads.thread 0x5030 in
    (th.page_guard_max ≡ th.user_stack_bottom)
    × (th.page_guard_min ≡ sub64 th.user_stack_bottom 0x1000)
unfolding create_user_thread start_user_thread kmalloc kmalloc_unlocked slab_alloc cache_from
    kernel_alloc_stack vmalloc vm_add_to_list add_to_list map_region vmm_map_page descend
    map_in_directory pmm_alloc_page bitmap_test bitmap_set spin_lock_irqsave spin_lock_irqrestore
    user_alloc_stack us_add_to_list enqueue_thread
new_guard = (refl, refl)

-- The timer interrupts the thread at 100, the user thread runs, and it reaches below its
-- stack.
page_fault_handler-Reach_example :
    page_fault_handler 1 user_runs 0x7fff_eff8 ≡ some (exits (thread_exit user_runs))
unfolding scheduler_handler retire pick find_runnable switch_to
page_fault_handler-Reach_example =
    page_fault_handler-Reach 1 two_system user_runs 0x7fff_eff8 (omega arith) two_system-IsShut
      (next here (schedules 3 0x6000 switched.1 machine switched.0 refl switches refl))

exit_call : ((syscall_handler small_system 60).threads.thread 100).state ≡ dead
unfolding syscall_handler thread_exit
exit_call = refl

call_registers :
    let msr = init_syscalls (λ n. 0x500) 0xffff_ffff_8010_0000 0xffff_ffff_8020_0000 in
    (msr 0xC0000080 ≡ 0x501)
    × (msr 0xC0000081 ≡ 0x0010_0008_0000_0000)
    × (msr 0xC0000102 ≡ 0xffff_ffff_8020_0000)
unfolding init_syscalls init_kernel_gs_base
call_registers = (refl, refl, refl)
