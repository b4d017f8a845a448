-- ===== src/Common/ThreadPool/Drain.antt =====
-- What is accepted is taken, in order, before a worker returns.
use chat_system_cpp_chat_ser.Base.{
  ℕ, ◌≡◌, refl, sym, ap, subst, ◌∙◌, ◌≢◌, inl, inr, Bool, true, false, not, ◌||◌, List, [], ◌∷◌,
  ◌++◌, append_assoc, append-nil, arith, Bool-cases, nat_beq, nat_eq, is_empty, bytes_eq,
}
use chat_system_cpp_chat_ser.Common.ThreadPool.{
  WorkerAt, acquiring, inside, blocked, running, exited, Lock, free, testing, must_wait, chosen,
  rechecking, pushing, Pool, set, wake, Step, calls, is_refused, goes_on, enters, is_refused_late,
  stays, pushes, notifies_one, notifies_nobody, acquires, finds_false, finds_true, waits, returns,
  continues, takes, finishes, flags, notifies_all, joins, wakes, Reach, here, next, woken,
}

false≢true : false ≢ true
false≢true e = cc

abbrev FifoHolds : Pool → Type 0
FifoHolds s = s.accepted ≡ s.taken ++ s.queue

Step-FifoHolds : {n : ℕ} {s t : Pool} → Step n s t → FifoHolds s → FifoHolds t
Step-FifoHolds (pushes s j task l) h =
    ap (λ xs. xs ++ task ∷ []) h ∙ append_assoc s.taken s.queue (task ∷ [])
Step-FifoHolds (takes s i task rest l q) h =
    h ∙ ap (λ xs. s.taken ++ xs) q ∙ sym (append_assoc s.taken (task ∷ []) rest)
Step-FifoHolds (calls s j task e) h = h
Step-FifoHolds (is_refused s j task e f) h = h
Step-FifoHolds (goes_on s j task e f) h = h
Step-FifoHolds (enters s j task e l) h = h
Step-FifoHolds (is_refused_late s j task l f) h = h
Step-FifoHolds (stays s j task l f) h = h
Step-FifoHolds (notifies_one s j i e few b) h = h
Step-FifoHolds (notifies_nobody s j e b) h = h
Step-FifoHolds (acquires s i few e l) h = h
Step-FifoHolds (finds_false s i l b) h = h
Step-FifoHolds (finds_true s i l b) h = h
Step-FifoHolds (waits s i l) h = h
Step-FifoHolds (returns s i l q f) h = h
Step-FifoHolds (continues s i l q f) h = h
Step-FifoHolds (finishes s i task e) h = h
Step-FifoHolds (flags s e) h = h
Step-FifoHolds (notifies_all s e) h = h
Step-FifoHolds (joins s e all) h = h

-- The tasks accepted are the tasks taken and then those in the queue.
pub accepted_lem : {n : ℕ} {s : Pool} → Reach n s → s.accepted ≡ s.taken ++ s.queue
accepted_lem here = refl
accepted_lem (next r step) = Step-FifoHolds step (accepted_lem r)
accepted_lem (woken r (wakes s i e)) = accepted_lem r

-- The predicate of `wait` that was true is still true.
abbrev Chosen : Bool → List ℕ → Lock → Type 0
Chosen stopping queue (chosen i) = (stopping || not (is_empty queue)) ≡ true
Chosen stopping queue free = Unit {0}
Chosen stopping queue (testing i) = Unit {0}
Chosen stopping queue (must_wait i) = Unit {0}
Chosen stopping queue (rechecking j task) = Unit {0}
Chosen stopping queue (pushing j task) = Unit {0}

Chosen-stopping : (queue : List ℕ) (lock : Lock) → Chosen true queue lock
Chosen-stopping queue free = tt
Chosen-stopping queue (testing i) = tt
Chosen-stopping queue (must_wait i) = tt
Chosen-stopping queue (chosen i) = refl
Chosen-stopping queue (rechecking j task) = tt
Chosen-stopping queue (pushing j task) = tt

abbrev pub NotPushing : Lock → Type 0
NotPushing (pushing j task) = ⊥
NotPushing free = Unit {0}
NotPushing (testing i) = Unit {0}
NotPushing (must_wait i) = Unit {0}
NotPushing (chosen i) = Unit {0}
NotPushing (rechecking j task) = Unit {0}

-- When a worker has returned, the pool stops, the queue is empty, and no push is under way.
abbrev Quiet : Pool → Type 0
Quiet s =
    (i : ℕ)
    → s.workers i ≡ exited
    → (s.stopping ≡ true) × ((is_empty s.queue ≡ true) × NotPushing s.lock)

abbrev Inv : Pool → Type 0
Inv s = Chosen s.stopping s.queue s.lock × Quiet s

abbrev is_exited : WorkerAt → Bool
is_exited exited = true
is_exited acquiring = false
is_exited inside = false
is_exited blocked = false
is_exited (running task) = false

set-keeps :
    (f : ℕ → WorkerAt) (i : ℕ) (x : WorkerAt) (k : ℕ)
    → is_exited x ≡ false
    → set f i x k ≡ exited
    → f k ≡ exited
unfolding set
set-keeps f i x k h e = elim (Bool-cases (nat_beq k i)) [
  | inl same ↦ ground (arith, ap is_exited e, h)
  | inr other ↦ ground (arith, e)
]

wake-exited : (w : WorkerAt) → wake w ≡ exited → w ≡ exited
unfolding wake
wake-exited exited e = refl
wake-exited blocked e = absurd (false≢true (ap is_exited e))
wake-exited acquiring e = absurd (false≢true (ap is_exited e))
wake-exited inside e = absurd (false≢true (ap is_exited e))
wake-exited (running task) e = absurd (false≢true (ap is_exited e))

-- The step leaves the lock with one who does not push.
unlocked : (s : Pool) (lock : Lock) → Quiet s → NotPushing lock → Quiet (record s { lock = lock })
unlocked s lock q np i e = let (st, (em, _)) = q i e in (st, (em, np))

-- A worker goes somewhere else than out.
moved :
    (s : Pool) (i : ℕ) (x : WorkerAt)
    → Quiet s
    → is_exited x ≡ false
    → Quiet (record s { workers = set s.workers i x })
moved s i x q h k e = q k (set-keeps s.workers i x k h e)

Step-Inv : {n : ℕ} {s t : Pool} → Step n s t → Inv s → Inv t
Step-Inv (calls s j task e) h = h
Step-Inv (is_refused s j task e f) h = h
Step-Inv (goes_on s j task e f) h = h
Step-Inv (enters s j task e l) (c, q) = (tt, unlocked s (rechecking j task) q tt)
Step-Inv (is_refused_late s j task l f) (c, q) = (tt, unlocked s free q tt)
Step-Inv (stays s j task l f) (c, q) = (tt, λ i e. absurd (false≢true (sym f ∙ (q i e).0)))
Step-Inv (pushes s j task l) (c, q) = (tt, λ i e. absurd (subst NotPushing l (q i e).1.1))
Step-Inv (notifies_one s j i e few b) (c, q) = (c, moved s i acquiring q refl)
Step-Inv (notifies_nobody s j e b) h = h
Step-Inv (acquires s i few e l) (c, q) =
    (tt, moved (record s { lock = testing i }) i inside (unlocked s (testing i) q tt) refl)
Step-Inv (finds_false s i l b) (c, q) = (tt, unlocked s (must_wait i) q tt)
Step-Inv (finds_true s i l b) (c, q) = (b, unlocked s (chosen i) q tt)
Step-Inv (waits s i l) (c, q) =
    (tt, moved (record s { lock = free }) i blocked (unlocked s free q tt) refl)
Step-Inv (returns s i l em st) (c, q) = (tt, λ k e. (st, (em, tt)))
Step-Inv (continues s i l em st) (c, q) =
    (tt, moved (record s { lock = free }) i acquiring (unlocked s free q tt) refl)
Step-Inv (takes s i task rest l queued) (c, q) = (
  tt,
  λ k e. absurd (
      false≢true
        (sym (ap is_empty queued) ∙ (q k (set-keeps s.workers i (running task) k refl e)).1.0)),
)
Step-Inv (finishes s i task e) (c, q) = (c, moved s i acquiring q refl)
Step-Inv (flags s e) (c, q) =
    (Chosen-stopping s.queue s.lock, λ i x. let (st, rest) = q i x in (refl, rest))
Step-Inv (notifies_all s e) (c, q) = (c, λ i x. q i (wake-exited (s.workers i) x))
Step-Inv (joins s e all) h = h

Reach-Inv : {n : ℕ} {s : Pool} → Reach n s → Inv s
Reach-Inv here = (tt, λ i e. absurd (false≢true (ap is_exited e)))
Reach-Inv (next r step) = Step-Inv step (Reach-Inv r)
Reach-Inv (woken r (wakes s i e)) = let (c, q) = Reach-Inv r in (c, moved s i acquiring q refl)

nothing_left : (xs : List ℕ) → is_empty xs ≡ true → xs ≡ []
nothing_left [] e = refl
nothing_left (x ∷ xs) e = absurd (false≢true e)

-- Once a worker has returned, all that was ever accepted has been taken, and nothing can be
-- accepted any more.
pub drained :
    {n : ℕ} {s : Pool}
    → Reach n s
    → (i : ℕ) → s.workers i ≡ exited
    → (s.accepted ≡ s.taken) × ((s.stopping ≡ true) × NotPushing s.lock)
drained {s} r i e =
    let (st, (em, np)) = (Reach-Inv r).1 i e in
    (
      accepted_lem r ∙ ap (λ xs. s.taken ++ xs) (nothing_left s.queue em) ∙ append-nil s.taken,
      (st, np),
    )

-- A worker that found the predicate true and the queue empty is told to stop: the loop's `continue`
-- is never reached.
pub never_continues :
    {n : ℕ} {s : Pool}
    → Reach n s
    → (i : ℕ) → s.lock ≡ chosen i
    → is_empty s.queue ≡ true
    → s.stopping ≡ true
never_continues {s} r i l em =
    let c = subst (Chosen s.stopping s.queue) l (Reach-Inv r).0 in ground (arith, c, em)
