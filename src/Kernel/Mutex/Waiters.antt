-- ===== src/Kernel/Mutex/Waiters.antt =====
-- The waiters of a mutex as a list of threads.
use pointer_os.Base.{ℕ, ◌≡◌, sym, ◌≢◌, List, [], ◌∷◌, ◌++◌, arith, ◌==◌, if◌then◌else◌}
use pointer_os.Links.Member.{◌∉◌, Distinct, last_or, ne-last_or}
use pointer_os.Kernel.Thread.{Thread}
use pointer_os.Kernel.Mutex.{Mutex}

-- The `next_blocked` pointers lead from the head through the list to `NULL`.
abbrev pub Queue : (ℕ → Thread) → ℕ → List ℕ → Type 0
Queue f head [] = head ≡ 0
Queue f head (x ∷ xs) = (head ≡ x) × (x ≢ 0) × Queue f (f x).next_blocked xs

pub record IsWaiting (f : ℕ → Thread) (m : Mutex) (ws : List ℕ) : Type 0 where
  pub queue : Queue f m.blocked_head ws
  pub tail : m.blocked_tail ≡ last_or 0 ws
  pub distinct : Distinct ws

-- Threads outside of the list do not matter.
pub Queue-frame :
    (f g : ℕ → Thread) (t head : ℕ) (xs : List ℕ)
    → ((c : ℕ) → c ≢ t → (g c).next_blocked ≡ (f c).next_blocked)
    → t ∉ xs
    → Queue f head xs
    → Queue g head xs
Queue-frame f g t head [] same out q = q
Queue-frame f g t head (x ∷ xs) same (tx, out) (e, live, q) =
    (e, live, Queue-frame f g t (g x).next_blocked xs same out (rw (same x (λ r. tx (sym r))) q))

-- Linking `t` behind the last waiter.
pub Queue-snoc :
    (f g : ℕ → Thread) (head x : ℕ) (xs : List ℕ) (t : ℕ)
    → t ≢ 0
    → Distinct (x ∷ xs)
    → t ∉ (x ∷ xs)
    → ((c : ℕ)
        → (g c).next_blocked
          ≡ (if c == last_or x xs then t else if c == t then 0 else (f c).next_blocked))
    → Queue f head (x ∷ xs)
    → Queue g head (x ∷ xs ++ t ∷ [])
Queue-snoc f g head x [] t live d (tx, _) N (e, xl, q) =
    (e, xl, (ground (arith, N x), live, ground (arith, N t)))
Queue-snoc f g head x (y ∷ xs) t live (xy, d) (tx, ts) N (e, xl, q) =
    let ne : x ≢ last_or y xs = ne-last_or x y xs xy.0 xy.1 in
    let same : (g x).next_blocked ≡ (f x).next_blocked = ground (arith, N x) in
    (e, xl, rw same (Queue-snoc f g (f x).next_blocked y xs t live d ts N q))
