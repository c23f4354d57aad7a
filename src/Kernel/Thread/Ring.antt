-- ===== src/Kernel/Thread/Ring.antt =====
-- The ready list is a ring: `enqueue_thread` and `dequeue_thread` against a list of addresses.
use pointer_os.Base.{
  ℕ, ◌≡◌, refl, sym, ap, ◌∙◌, ◌≢◌, List, [], ◌∷◌, ◌++◌, append-nil, arith, ◌==◌, if◌then◌else◌,
}
use pointer_os.Links.Member.{
  ◌∉◌, Distinct, last_or, notin_right, notin_middle, notin_drop, notin_insert, notin-append,
  Distinct-insert, Distinct-drop, notin_of_Distinct, ne-first_or, ne-last_or, notin_comm,
  Distinct-comm,
}
use pointer_os.Links.Chain.{
  Chain, Chain-neighbours, Chain-ends, Chain-snoc, Chain-cong, Chain-frame, Chain-turn,
}
use pointer_os.Links.Insert.{Chain-insert}
use pointer_os.Links.Unlink.{Chain-unlink}
use pointer_os.Kernel.Thread.{Thread, Threads, enqueue_thread, dequeue_thread}

abbrev pub next_of : (ℕ → Thread) → ℕ → ℕ
next_of f a = (f a).next

abbrev pub prev_of : (ℕ → Thread) → ℕ → ℕ
prev_of f a = (f a).prev

-- From `head` the `next` pointers lead through the distinct threads of the list and back, and the
-- `prev` pointers the other way round.
abbrev pub IsRing : (ℕ → Thread) → ℕ → List ℕ → Type 0
IsRing f head [] = head ≡ 0
IsRing f head (x ∷ xs) =
    (head ≡ x) × Distinct (x ∷ xs) × 0 ∉ (x ∷ xs) × Chain (next_of f) (prev_of f) x xs x

abbrev pub IsReady : Threads → List ℕ → Type 0
IsReady s xs = IsRing s.thread s.ready_list_head xs

-- Nothing but the ring pointers differs.
abbrev pub SamePayload : (ℕ → Thread) → (ℕ → Thread) → Type 0
SamePayload f g = (c : ℕ) → record (g c) { next = (f c).next; prev = (f c).prev } ≡ f c

-- The pointers after `enqueue_thread` on a ring that is not empty.
module _ (s : Threads) (t : ℕ) (some_head : s.ready_list_head ≢ 0) where
  abbrev old_tail : ℕ
  old_tail = (s.thread s.ready_list_head).prev

  abbrev enqueued : ℕ → Thread
  enqueued = (enqueue_thread s t).thread

  enqueued_head : (enqueue_thread s t).ready_list_head ≡ s.ready_list_head
  unfolding enqueue_thread
  enqueued_head = ground arith

  next-enqueued :
      (c : ℕ)
      → old_tail ≢ t
      → next_of enqueued c
        ≡ (if c == t then s.ready_list_head else if c == old_tail then t else next_of s.thread c)
  unfolding enqueue_thread
  next-enqueued c ne = ground arith

  prev-enqueued :
      (c : ℕ)
      → s.ready_list_head ≢ t
      → prev_of enqueued c
        ≡ (if c == t then old_tail else if c == s.ready_list_head then t else prev_of s.thread c)
  unfolding enqueue_thread
  prev-enqueued c ne = ground arith

pub enqueue_thread-SamePayload :
    (s : Threads) (t : ℕ) → SamePayload s.thread (enqueue_thread s t).thread
unfolding enqueue_thread
enqueue_thread-SamePayload s t c = ground arith

-- `enqueue_thread` puts a thread that is not in the ring at its end, just before the head, and
-- changes nothing of any thread but the ring pointers.
pub enqueue_thread-IsReady :
    (s : Threads) (t : ℕ) (xs : List ℕ)
    → t ≢ 0
    → t ∉ xs
    → IsReady s xs
    → IsReady (enqueue_thread s t) (xs ++ t ∷ []) × SamePayload s.thread (enqueue_thread s t).thread
unfolding enqueue_thread
enqueue_thread-IsReady s t [] live out e = (
  (ground arith, (tt, tt), ((λ q. live (sym q)), tt), ((λ h. ground arith), (λ h. ground arith))),
  enqueue_thread-SamePayload s t,
)
enqueue_thread-IsReady s t (x ∷ xs) live (tx, txs) (e, (xxs, d), (zx, zxs), ch) =
    let head_live : s.ready_list_head ≢ 0 = ground arith in
    let tail_is : old_tail s t head_live ≡ last_or x xs =
      rw e ((Chain-ends _ _ x xs x ch).1 (λ q. zx (sym q))) in
    let ring : Chain (next_of (enqueue_thread s t).thread) (prev_of (enqueue_thread s t).thread) x
        (xs ++ t ∷ []) x =
      Chain-insert (next_of s.thread) (prev_of s.thread) _ _ (old_tail s t head_live) t
        s.ready_list_head
        (λ c h. next-enqueued s t head_live c (rw tail_is (λ q. ne-last_or t x xs tx txs (sym q))))
        (λ c h. prev-enqueued s t head_live c (rw e (λ q. tx (sym q)))) x xs [] x tail_is e
        (rw append-nil d) (rw append-nil xxs) (rw append-nil xxs) tx tx (rw append-nil txs)
        (rw append-nil ch) in
    (
      (
        enqueued_head s t head_live ∙ e,
        (
          notin-append x xs (t ∷ []) xxs ((λ q. tx (sym q)), tt),
          Distinct-insert xs t [] (rw append-nil d) (rw append-nil txs),
        ),
        (zx, notin-append 0 xs (t ∷ []) zxs ((λ q. live (sym q)), tt)),
        ring,
      ),
      enqueue_thread-SamePayload s t,
    )

-- The pointers after `dequeue_thread` of a thread that is not alone.
module _ (s : Threads) (t : ℕ) (others : (s.thread t).next ≢ t) where
  abbrev dequeued : ℕ → Thread
  dequeued = (dequeue_thread s t).thread

  next-dequeued :
      (c : ℕ)
      → c ≢ 0
      → c ≢ t
      → next_of dequeued c
        ≡ (if c == prev_of s.thread t then next_of s.thread t else next_of s.thread c)
  unfolding dequeue_thread
  next-dequeued c live ne = ground arith

  prev-dequeued :
      (c : ℕ)
      → c ≢ 0
      → c ≢ t
      → prev_of dequeued c
        ≡ (if c == next_of s.thread t then prev_of s.thread t else prev_of s.thread c)
  unfolding dequeue_thread
  prev-dequeued c live ne = ground arith

  dequeued_head :
      (dequeue_thread s t).ready_list_head
      ≡ (if s.ready_list_head == t then next_of s.thread t else s.ready_list_head)
  unfolding dequeue_thread
  dequeued_head = ground arith

pub dequeue_thread-SamePayload :
    (s : Threads) (t : ℕ) → SamePayload s.thread (dequeue_thread s t).thread
unfolding dequeue_thread
dequeue_thread-SamePayload s t c = ground arith

dequeued_alone :
    (s : Threads) (t : ℕ) → (s.thread t).next ≡ t → (dequeue_thread s t).ready_list_head ≡ 0
unfolding dequeue_thread
dequeued_alone s t e = ground arith

-- `dequeue_thread` takes a thread out of the ring, wherever it stands in it, keeps the others in
-- their order, and changes nothing of any thread but the ring pointers. If it was the head, the
-- next one becomes the head.
pub dequeue_thread-IsReady :
    (s : Threads) (ys : List ℕ) (t : ℕ) (zs : List ℕ)
    → IsReady s (ys ++ t ∷ zs)
    → IsReady (dequeue_thread s t) (ys ++ zs) × SamePayload s.thread (dequeue_thread s t).thread
unfolding dequeue_thread
dequeue_thread-IsReady s [] t [] (e, d, (zt, _), ch) =
    (dequeued_alone s t (ch.0 (λ q. zt (sym q))), dequeue_thread-SamePayload s t)
dequeue_thread-IsReady s [] t (z ∷ zs) (e, ((tz, tzs), (zzs, d)), (zt, (oz, ozs)), (a, ch)) =
    let live : t ≢ 0 = λ q. zt (sym q) in
    let ne : next_of s.thread t ≢ t = λ q. tz (sym q ∙ a.0 live) in
    let turned : Chain (next_of s.thread) (prev_of s.thread) z (zs ++ t ∷ []) z =
      Chain-snoc _ _ z zs t z ch a in
    let ring : Chain (next_of (dequeue_thread s t).thread) (prev_of (dequeue_thread s t).thread) z
        (zs ++ []) z =
      Chain-unlink _ _ _ _ t live (next-dequeued s t ne) (prev-dequeued s t ne) z zs [] z
        (Distinct-insert zs t [] (rw append-nil d) (rw append-nil tzs))
        (notin_insert z zs t [] (λ q. tz (sym q)) (rw append-nil zzs))
        (notin_insert z zs t [] (λ q. tz (sym q)) (rw append-nil zzs)) turned in
    (
      (ground (arith, dequeued_head s t ne, a.0 live), (zzs, d), (oz, ozs), rw append-nil at ring),
      dequeue_thread-SamePayload s t,
    )
dequeue_thread-IsReady s (y ∷ ys) t zs (e, (yys, d), (oy, oys), ch) =
    let live : t ≢ 0 = λ q. notin_middle 0 ys t zs oys (sym q) in
    let yt : y ≢ t = notin_middle y ys t zs yys in
    let ty : t ∉ (ys ++ zs) = notin_of_Distinct ys t zs d in
    let ne : next_of s.thread t ≢ t = λ q.
      ne-first_or t zs y (notin_right t ys zs ty) (λ r. yt (sym r))
        (sym q ∙ (Chain-neighbours _ _ y ys t zs y live ch).1) in
    (
      (
        ground (arith, dequeued_head s t ne),
        (notin_drop y ys t zs yys, Distinct-drop ys t zs d),
        (oy, notin_drop 0 ys t zs oys),
        Chain-unlink _ _ _ _ t live (next-dequeued s t ne) (prev-dequeued s t ne) y ys zs y d yys
            yys ch,
      ),
      dequeue_thread-SamePayload s t,
    )

pub IsRing-cong :
    (f g : ℕ → Thread) (head : ℕ) (xs : List ℕ)
    → ((c : ℕ) → next_of g c ≡ next_of f c)
    → ((c : ℕ) → prev_of g c ≡ prev_of f c)
    → IsRing f head xs
    → IsRing g head xs
IsRing-cong f g head [] N P r = r
IsRing-cong f g head (x ∷ xs) N P (e, d, o, ch) = (e, d, o, Chain-cong _ _ _ _ x xs x N P ch)

-- A change to a thread outside leaves a ring alone.
pub IsRing-outside :
    (f g : ℕ → Thread) (t head : ℕ) (xs : List ℕ)
    → ((c : ℕ) → c ≢ t → g c ≡ f c)
    → t ∉ xs
    → IsRing f head xs
    → IsRing g head xs
IsRing-outside f g t head [] same out r = r
IsRing-outside f g t head (x ∷ xs) same (tx, txs) (e, d, o, ch) = (
  e,
  d,
  o,
  Chain-frame _ _ _ _ t t t (λ c h k _. ap (λ (th : Thread). th.next) (same c k))
      (λ c h k _. ap (λ (th : Thread). th.prev) (same c k)) x xs x tx txs tx txs tx txs tx ch,
)

-- The ring as it is met from one of its threads.
pub ring_from :
    (f : ℕ → Thread) (head : ℕ) (ys : List ℕ) (t : ℕ) (zs : List ℕ)
    → IsRing f head (ys ++ t ∷ zs)
    → (t ≢ 0)
      × t ∉ (zs ++ ys)
      × 0 ∉ (zs ++ ys)
      × Distinct (zs ++ ys)
      × Chain (next_of f) (prev_of f) t (zs ++ ys) t
ring_from f head [] t zs (e, (tzs, d), (zt, zzs), ch) =
    ((λ q. zt (sym q)), rw append-nil tzs, rw append-nil zzs, rw append-nil d, rw append-nil ch)
ring_from f head (y ∷ ys) t zs (e, (yys, d), (oy, oys), ch) = (
  (λ q. notin_middle 0 ys t zs oys (sym q)),
  notin_comm t (y ∷ ys) zs ((λ q. notin_middle y ys t zs yys (sym q)), notin_of_Distinct ys t zs d),
  notin_comm 0 (y ∷ ys) zs (oy, notin_drop 0 ys t zs oys),
  Distinct-comm (y ∷ ys) zs (notin_drop y ys t zs yys, Distinct-drop ys t zs d),
  Chain-turn _ _ y ys t zs ch,
)

-- A ring of more than one thread has a head that is not its own successor.
pub ring_two :
    (f : ℕ → Thread) (head : ℕ) (ys : List ℕ) (t : ℕ) (zs : List ℕ)
    → zs ++ ys ≢ []
    → IsRing f head (ys ++ t ∷ zs)
    → (head ≢ 0) × (next_of f head ≢ head)
ring_two f head [] t [] others r = absurd (others refl)
ring_two f head [] t (z ∷ zs) others (e, ((tz, tzs), d), (zt, o), (a, ch)) =
    rw e ((λ q. zt (sym q)), (λ q. tz (sym q ∙ a.0 (λ q. zt (sym q)))))
ring_two f head (y ∷ []) t zs others (e, ((yt, yzs), d), (oy, o), (a, ch)) =
    rw e ((λ q. oy (sym q)), (λ q. yt (sym q ∙ a.0 (λ q. oy (sym q)))))
ring_two f head (y ∷ u ∷ ys) t zs others (e, ((yu, yys), d), (oy, o), (a, ch)) =
    rw e ((λ q. oy (sym q)), (λ q. yu (sym q ∙ a.0 (λ q. oy (sym q)))))

pub dead_list_head-dequeue :
    (s : Threads) (t : ℕ) → (dequeue_thread s t).dead_list_head ≡ s.dead_list_head
unfolding dequeue_thread
dead_list_head-dequeue s t = ground arith

pub current_thread-dequeue :
    (s : Threads) (t : ℕ) → (dequeue_thread s t).current_thread ≡ s.current_thread
unfolding dequeue_thread
current_thread-dequeue s t = ground arith

pub next-dequeue : (s : Threads) (t : ℕ) → ((dequeue_thread s t).thread t).next ≡ 0
unfolding dequeue_thread
next-dequeue s t = ground arith
