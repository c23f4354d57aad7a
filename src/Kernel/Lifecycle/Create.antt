-- ===== src/Kernel/Lifecycle/Create.antt =====
-- A thread that `create_thread` starts.
use pointer_os.Base.{
  ℕ, ◌+◌, ◌*◌, ◌/◌, ◌^◌, ◌≤◌, ◌<◌, ◌≡◌, refl, sym, ap, ◌∙◌, ◌≢◌, false, some, List, [], ◌∷◌, ◌++◌,
  arith, ◌==◌, update_self, update_ne, add64,
}
use pointer_os.Links.Member.{◌∉◌}
use mathlib.Core.Path.{subst}
use pointer_os.Kernel.Spinlock.{Cpu}
use pointer_os.Kernel.Thread.{ready, Thread, enqueue_thread}
use pointer_os.Kernel.Thread.Ring.{IsReady, IsRing-outside, enqueue_thread-IsReady}
use pointer_os.Kernel.Lifecycle.{
  System, set_thread, set_heap, empty_thread, push_all, frame_words, start_thread, create_thread,
}
use pointer_os.Kernel.Lifecycle.Frame.{IsFrame, frame_words-IsFrame}
use pointer_os.Mm.Kmalloc.{Kheap, kmalloc}
use pointer_os.Mm.Mapping.{Space, kernel_alloc_stack}

-- The thread at `t` is ready to be switched to: it starts at `entry_point` on its own stack, from `mem`
-- to `limit`, and its function returns to `leave`.
pub record IsStarted (s : System) (t tid entry_point leave mem limit : ℕ) : Type 0 where
  pub state : (s.threads.thread t).state ≡ ready
  pub number : (s.threads.thread t).tid ≡ tid
  pub frame : IsFrame s.kernel_word (s.threads.thread t).rsp entry_point 0x08 0x10 leave
  pub low : mem ≤ (s.threads.thread t).rsp
  pub high : (s.threads.thread t).rsp + 168 ≤ limit

start_thread-IsStarted :
    (exit_at : ℕ) (s : System) (t mem entry_point size : ℕ) (xs : List ℕ)
    → t ≢ 0
    → 184 ≤ size
    → mem + size < 2 ^ 64
    → t ∉ xs
    → IsReady s.threads xs
    → let s' = start_thread exit_at s t mem entry_point size in
      IsReady s'.threads (xs ++ t ∷ [])
      × IsStarted s' t s.next_thread_id entry_point exit_at mem (mem + size)
unfolding start_thread
start_thread-IsStarted exit_at s t mem entry_point size xs live large small out ring =
    let top = add64 mem size / 16 * 16 in
    let (frame, down) =
      frame_words-IsFrame s.kernel_word top exit_at 0x10 0x08 entry_point (omega arith)
        (omega arith) (omega arith) in
    let pushed = push_all s.kernel_word top (frame_words top exit_at 0x10 0x08 entry_point) in
    let made : Thread = record (s.threads.thread t) {
      kernel_stack_bottom = mem;
      kernel_stack_top = add64 mem size;
      kernel_stack_size = size;
      rsp = pushed.1;
      tid = s.next_thread_id;
      state = ready;
      next = 0;
      prev = 0;
    } in
    let s1 = set_thread s t made in
    let ring1 : IsReady s1.threads xs =
      IsRing-outside s.threads.thread s1.threads.thread t s.threads.ready_list_head xs
        (λ c ne. update_ne s.threads.thread t made c ne) out ring in
    let (ring', payload) = enqueue_thread-IsReady s1.threads t xs live out ring1 in
    let own : s1.threads.thread t ≡ made = update_self s.threads.thread t made in
    let th' = (enqueue_thread s1.threads t).thread t in
    let kept = payload t ∙ own in
    let same_rsp : th'.rsp ≡ pushed.1 = ap (λ th. th.rsp) kept in
    (
      ring',
      record {
        state = ap (λ th. th.state) kept;
        number = ap (λ th. th.tid) kept;
        frame =
            subst (λ (r : ℕ). IsFrame pushed.0 r entry_point 0x08 0x10 exit_at) (sym same_rsp)
              frame;
        low = omega (arith, same_rsp, down);
        high = omega (arith, same_rsp, down);
      },
    )

-- When `kmalloc` gives room at `t` and `kernel_alloc_stack` a stack at `mem`, of at least 184 bytes,
-- `create_thread` returns `t`, which was not in the ring: it stands at the end of the ring, ready,
-- with the next number, and a frame at the top of its own stack from which `iretq` starts it at its
-- function, with interrupts on and `thread_exit` to return to.
pub create_thread-IsStarted :
    (fuel exit_at : ℕ) (s : System) (entry_point size t mem : ℕ) (xs : List ℕ) (cpu : Cpu)
    (kheap : Kheap) (space : Space)
    → kmalloc s.space.mmu.cpu s.space.kheap 120 ≡ some (cpu, kheap, t)
    → t ≢ 0
    → kernel_alloc_stack fuel (set_heap s (cpu, kheap)).space size ≡ some (space, mem)
    → mem ≢ 0
    → 184 ≤ size
    → mem + size < 2 ^ 64
    → t ∉ xs
    → IsReady s.threads xs
    → (s' : System) × (create_thread fuel exit_at s entry_point size ≡ some (s', t))
      × IsReady s'.threads (xs ++ t ∷ [])
      × IsStarted s' t s.next_thread_id entry_point exit_at mem (mem + size)
unfolding create_thread
create_thread-IsStarted fuel exit_at s entry_point size t mem xs cpu kheap space given live stack
      some_stack large small out ring =
    let s1 = set_thread (set_heap s (cpu, kheap)) t empty_thread in
    let s2 = record s1 { space = space } in
    let some_thread : (t == 0) ≡ false = ground arith in
    let mem_given : (mem == 0) ≡ false = ground arith in
    let ring2 : IsReady s2.threads xs =
      IsRing-outside s.threads.thread s2.threads.thread t s.threads.ready_list_head xs
        (λ c ne. update_ne s.threads.thread t empty_thread c ne) out ring in
    let (ring', started) =
      start_thread-IsStarted exit_at s2 t mem entry_point size xs live large small out ring2 in
    (
      start_thread exit_at s2 t mem entry_point size,
      rw (given, some_thread, stack, mem_given) refl,
      ring',
      started,
    )
