-- ===== src/Kernel/Lifecycle/Stacks.antt =====
-- User stacks that do not grow: mm/page_fault.c maps a page only for a thread whose guard does not end
-- at the bottom of its stack, and here is what the functions that write threads make of the two.
use pointer_os.Base.{
  ℕ, zero, suc, ◌≡◌, refl, ◌≢◌, inl, inr, Bool, true, false, ◌&&◌, ◌||◌, Option, none, some, arith,
  ltb, leb, ◌==◌, if◌then◌else◌, Bool-cases, ◌>>=◌,
}
use pointer_os.Kernel.Thread.{dead}
use pointer_os.Kernel.Scheduler.Shut.{AreShut, update-AreShut, enqueue_thread-AreShut}
use pointer_os.Mm.Kmalloc.{kmalloc, kfree}
use pointer_os.Mm.Mapping.{kernel_alloc_stack, user_alloc_stack, user_free_stack}
use pointer_os.Kernel.Lifecycle.{
  System, empty_thread, set_thread, set_heap, kmalloc_thread, kfree_in, start_thread, create_thread,
  enter_process, start_user_thread, create_user_thread, destroy_thread, destroy_from,
  cleanup_dead_threads, thread_exit, exits, hangs, page_fault_handler,
}

-- Of a system: of each thread, the guard ends at the bottom of the user stack.
abbrev pub IsShut : System → Type 0
IsShut s = AreShut s.threads.thread

abbrev pub LeavesShut : System × ℕ → Type 0
LeavesShut r = IsShut r.0

-- What is returned has the property, if anything is.
abbrev pub Always {ℓ} : {A : Type ℓ} → (A → Type 0) → Option A → Type 0
Always P none = Unit
Always P (some x) = P x

Always-bind {ℓ κ} :
    {A : Type ℓ} {B : Type κ} (P : A → Type 0) (Q : B → Type 0) (m : Option A) (g : A → Option B)
    → Always P m
    → ((x : A) → P x → Always Q (g x))
    → Always Q (m >>= g)
Always-bind P Q none g h k = tt
Always-bind P Q (some x) g h k = k x h

Always-then {ℓ κ} :
    {A : Type ℓ} {B : Type κ} (Q : B → Type 0) (m : Option A) (g : A → Option B)
    → ((x : A) → Always Q (g x))
    → Always Q (m >>= g)
Always-then Q none g k = tt
Always-then Q (some x) g k = k x

if_holds {ℓ} :
    {A : Type ℓ} (P : A → Type 0) (b : Bool) (x y : A) → P x → P y → P (if b then x else y)
if_holds P true x y h k = h
if_holds P false x y h k = k

kmalloc_thread-IsShut : (s : System) → IsShut s → Always LeavesShut (kmalloc_thread s)
kmalloc_thread-IsShut s h =
    Always-then LeavesShut (kmalloc s.space.mmu.cpu s.space.kheap 120) _ (λ r.
      let s1 = set_heap s (r.0, r.1) in
      if_holds IsShut (r.2 == 0) s1 (set_thread s1 r.2 empty_thread) h
        (update-AreShut s.threads.thread r.2 empty_thread h refl))

kfree_in-IsShut : (s : System) (ptr : ℕ) → IsShut s → Always IsShut (kfree_in s ptr)
kfree_in-IsShut s ptr h = Always-then IsShut (kfree s.space.mmu.cpu s.space.kheap ptr) _ (λ r. h)

start_thread-IsShut :
    (exit_at : ℕ) (s : System) (t stack_mem entry_point stack_size : ℕ)
    → IsShut s
    → IsShut (start_thread exit_at s t stack_mem entry_point stack_size)
unfolding start_thread
start_thread-IsShut exit_at s t stack_mem entry_point stack_size h =
    enqueue_thread-AreShut _ t (update-AreShut s.threads.thread t _ h (h t))

given_back-IsShut :
    (s : System) (t : ℕ) → IsShut s → Always LeavesShut (kfree_in s t >>= λ s'. some (s', 0))
given_back-IsShut s t h =
    Always-bind IsShut LeavesShut (kfree_in s t) _ (kfree_in-IsShut s t h) (λ s' h'. h')

pub create_thread-IsShut :
    (fuel exit_at : ℕ) (s : System) (entry_point stack_size : ℕ)
    → IsShut s
    → Always LeavesShut (create_thread fuel exit_at s entry_point stack_size)
unfolding create_thread
create_thread-IsShut fuel exit_at s entry_point stack_size h =
    Always-bind LeavesShut LeavesShut (kmalloc_thread s) _ (kmalloc_thread-IsShut s h) (λ r h1.
      if_holds (Always LeavesShut) (r.1 == 0) _ _ h1 (
        Always-then LeavesShut (kernel_alloc_stack fuel (r.0).space stack_size) _ (λ stack.
          let s2 = record r.0 { space = stack.0 } in
          if_holds (Always LeavesShut) (stack.1 == 0) _ _ (given_back-IsShut s2 r.1 h1)
            (start_thread-IsShut exit_at s2 r.1 stack.1 entry_point stack_size h1))))

start_user_thread-IsShut :
    (s before : System) (t proc kernel_mem user_mem entry_point kstack_size ustack_size : ℕ)
    → IsShut s
    → IsShut
        (start_user_thread s before t proc kernel_mem user_mem entry_point kstack_size ustack_size)
unfolding start_user_thread
start_user_thread-IsShut s before t proc kernel_mem user_mem entry_point kstack_size ustack_size h =
    enqueue_thread-AreShut _ t (update-AreShut s.threads.thread t _ h refl)

pub create_user_thread-IsShut :
    (fuel : ℕ) (s : System) (proc entry_point kstack_size ustack_size : ℕ)
    → IsShut s
    → Always LeavesShut (create_user_thread fuel s proc entry_point kstack_size ustack_size)
unfolding create_user_thread
create_user_thread-IsShut fuel s proc entry_point kstack_size ustack_size h =
    Always-bind LeavesShut LeavesShut (kmalloc_thread s) _ (kmalloc_thread-IsShut s h) (λ r h1.
      if_holds (Always LeavesShut) (r.1 == 0) _ _ h1 (
        Always-then LeavesShut (kernel_alloc_stack fuel (r.0).space kstack_size) _ (λ stack.
          let s2 = record r.0 { space = stack.0 } in
          let h2 =
            update-AreShut s2.threads.thread r.1 (record (s2.threads.thread r.1) { process = proc })
              h1 (h1 r.1) in
          let s3 = set_thread s2 r.1 (record (s2.threads.thread r.1) { process = proc }) in
          let entered = enter_process s3 proc in
          if_holds (Always LeavesShut) (stack.1 == 0) _ _ (given_back-IsShut s2 r.1 h1) (
            Always-then LeavesShut (user_alloc_stack fuel entered.space ustack_size) _
              (λ user_stack.
                start_user_thread-IsShut (record entered { space = user_stack.0 }) s3 r.1 proc
                  stack.1 user_stack.1 entry_point kstack_size ustack_size h2)))))

destroy_thread-IsShut :
    (fuel : ℕ) (s : System) (t : ℕ) → IsShut s → Always IsShut (destroy_thread fuel s t)
unfolding destroy_thread
destroy_thread-IsShut fuel s t h =
    let th = s.threads.thread t in
    if_holds (Always IsShut) (t == 0) _ _ h (
      Always-bind IsShut IsShut _ _
        (if_holds (Always IsShut) (th.kernel_stack_bottom == 0) _ _ h
          (kfree_in-IsShut s th.kernel_stack_bottom h))
        (λ s1 h1.
          Always-bind IsShut IsShut _ _
            (if_holds (Always IsShut) (th.user_stack_bottom == 0 || th.process == 0) _ _ h1 (
              Always-then IsShut
                (user_free_stack fuel (enter_process s1 th.process).space th.user_stack_bottom) _
                (λ space. h1)))
            (λ s2 h2. kfree_in-IsShut s2 t h2)))

destroy_from-IsShut :
    (rounds fuel : ℕ) (s : System) (t : ℕ) → IsShut s → Always IsShut (destroy_from rounds fuel s t)
unfolding destroy_from
destroy_from-IsShut zero fuel s t h = tt
destroy_from-IsShut (suc rounds) fuel s t h = if_holds (Always IsShut) (t == 0) _ _ h (
    Always-bind IsShut IsShut (destroy_thread fuel s t) _ (destroy_thread-IsShut fuel s t h)
      (λ s' h'. destroy_from-IsShut rounds fuel s' (s.threads.thread t).next h'))

pub cleanup_dead_threads-IsShut :
    (rounds fuel : ℕ) (s : System) → IsShut s → Always IsShut (cleanup_dead_threads rounds fuel s)
unfolding cleanup_dead_threads
cleanup_dead_threads-IsShut rounds fuel s h =
    destroy_from-IsShut rounds fuel _ s.threads.dead_list_head h

pub thread_exit-IsShut : (s : System) → IsShut s → IsShut (thread_exit s)
unfolding thread_exit
thread_exit-IsShut s h =
    let t = s.threads.current_thread in
    update-AreShut s.threads.thread t (record (s.threads.thread t) { state = dead }) h (h t)

pub page_fault_handler-IsShut :
    (scheduler : ℕ) (s : System) (fault_address : ℕ)
    → scheduler ≢ 0
    → IsShut s
    → let th = s.threads.thread s.threads.current_thread in
      page_fault_handler scheduler s fault_address
      ≡ some (
          if ltb fault_address th.page_guard_max && leb th.page_guard_min fault_address
          then exits (thread_exit s)
          else hangs)
unfolding page_fault_handler
page_fault_handler-IsShut scheduler s fault_address on h =
    let th = s.threads.thread s.threads.current_thread in
    let started : (scheduler == 0) ≡ false = ground arith in
    let shut = h s.threads.current_thread in
    let same : (th.page_guard_max == th.user_stack_bottom) ≡ true = ground arith in
    elim (Bool-cases (ltb fault_address th.page_guard_max && leb th.page_guard_min fault_address)) [
      | inl guard ↦ rw (started, guard, same) refl
      | inr other ↦ rw (started, other) refl
    ]
