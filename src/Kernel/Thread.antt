-- ===== src/Kernel/Thread.antt =====
-- kernel/scheduler/thread.c: the ring of threads that the scheduler goes round. The threads are
-- structs in memory, a total function from the address.
pub mod Ring
use pointer_os.Base.{
  ℕ, zero, suc, ◌+◌, ◌-◌, ◌*◌, ◌/◌, ◌%◌, ◌^◌, ◌≤◌, ◌<◌, min, bit_and, bit_or, bit_xor, ◌≡◌, refl,
  sym, ap, ◌∙◌, fun_ext, ◌≢◌, ◌↔◌, ◌⊎◌, inl, inr, Bool, true, false, ◌&&◌, ◌||◌, not, Option, none,
  some, List, [], ◌∷◌, ◌++◌, map, reverse, append_assoc, append-nil, arith, ltb, leb, ◌==◌,
  if◌then◌else◌, ltb→lt, lt→ltb, ==_iff, Bool-cases, Option-cases, ◌>>=◌, length, get_elem?, take,
  drop, length-append, update, update_self, update_ne, byte_bit, byte_bit-set, byte_bit-clear,
  set-lt, clear-lt, each_below, each_below-at, dec_lt, add64, sub64, or_low, bit_or-zero, or_bit_2,
  or_bit_7, or_page, xor_up, xor_down,
}

-- `thread_state_t`
pub data ThreadState : Type 0 where
  ready running blocked dead : ThreadState

-- `thread_t`. `process` and the thread pointers are addresses, 0 for `NULL`.
pub record Thread : Type 0 where
  pub rsp : ℕ
  pub tid : ℕ
  pub state : ThreadState
  pub kernel_stack_top : ℕ
  pub kernel_stack_bottom : ℕ
  pub kernel_stack_size : ℕ
  pub user_stack_top : ℕ
  pub user_stack_bottom : ℕ
  pub user_stack_size : ℕ
  pub page_guard_min : ℕ
  pub page_guard_max : ℕ
  pub process : ℕ
  pub prev : ℕ
  pub next : ℕ
  pub next_blocked : ℕ

-- The variables of thread.c, with the memory that holds the threads.
pub record Threads : Type 0 where
  pub thread : ℕ → Thread
  pub current_thread : ℕ
  pub ready_list_head : ℕ
  pub dead_list_head : ℕ

-- `t->next = p` and the like.
abbrev pub set_next : (ℕ → Thread) → ℕ → ℕ → ℕ → Thread
set_next f t p = update f t (record (f t) { next = p })

abbrev pub set_prev : (ℕ → Thread) → ℕ → ℕ → ℕ → Thread
set_prev f t p = update f t (record (f t) { prev = p })

abbrev pub set_state : (ℕ → Thread) → ℕ → ThreadState → ℕ → Thread
set_state f t st = update f t (record (f t) { state = st })

unfoldable pub enqueue_thread : Threads → ℕ → Threads
enqueue_thread s t =
    if s.ready_list_head == 0
    then record s { thread = set_prev (set_next s.thread t t) t t; ready_list_head = t }
    else let tail = (s.thread s.ready_list_head).prev in
      let f = set_next s.thread tail t in
      let f = set_prev f t tail in
      let f = set_next f t s.ready_list_head in record s { thread = set_prev f s.ready_list_head t }

-- The last assignment of `dequeue_thread`: `t->next = t->prev = NULL`.
abbrev detach : (ℕ → Thread) → ℕ → ℕ → Thread
detach f t = set_next (set_prev f t 0) t 0

unfoldable pub dequeue_thread : Threads → ℕ → Threads
dequeue_thread s t =
    let th = s.thread t in
    if th.next == t
    then record s { thread = detach s.thread t; ready_list_head = 0 }
    else let f = set_next s.thread th.prev th.next in
      let f = set_prev f (f t).next (f t).prev in
      record s {
        thread = detach f t;
        ready_list_head = if s.ready_list_head == t then (f t).next else s.ready_list_head;
      }
