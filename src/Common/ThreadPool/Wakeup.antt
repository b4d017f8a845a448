-- ===== src/Common/ThreadPool/Wakeup.antt =====
-- `shutdown` sets `stopping_` without the lock, and what a worker makes of it that is about to wait.
use chat_system_cpp_chat_ser.Base.{
  ℕ, ◌<◌, ◌≡◌, refl, sym, ap, subst, ◌∙◌, ◌≢◌, inl, inr, Bool, true, false, List, [], ◌∷◌, ◌++◌,
  arith, Bool-cases, nat_beq, nat_eq, bytes_eq,
}
use chat_system_cpp_chat_ser.Common.ThreadPool.{
  WorkerAt, acquiring, inside, blocked, running, exited, CallerAt, away, called, wanting,
  submitting, notifying, Lock, free, testing, must_wait, chosen, rechecking, pushing, CloserAt,
  serving, flagged, joining, closed, Pool, set, wake, new_pool, Step, calls, is_refused, goes_on,
  enters, is_refused_late, stays, pushes, notifies_one, notifies_nobody, acquires, finds_false,
  finds_true, waits, returns, continues, takes, finishes, flags, notifies_all, joins, Reach, here,
  next, Run, stop, more,
}

-- The lock is not with the worker, nor with one who pushes.
abbrev Elsewhere : ℕ → Lock → Type 0
Elsewhere w free = Unit {0}
Elsewhere w (testing i) = nat_beq w i ≡ false
Elsewhere w (must_wait i) = nat_beq w i ≡ false
Elsewhere w (chosen i) = nat_beq w i ≡ false
Elsewhere w (rechecking j task) = Unit {0}
Elsewhere w (pushing j task) = ⊥

-- The shutdown waits for its workers, and one of them waits for a notification that no one is going
-- to give.
pub record IsStuck (w : ℕ) (s : Pool) : Type 0 where
  pub blocked_still : s.workers w ≡ blocked
  pub stops : s.stopping ≡ true
  pub joins_now : s.closer ≡ joining
  pub elsewhere : Elsewhere w s.lock
  pub no_notice : (j : ℕ) → s.callers j ≢ notifying

-- The worker has tested the predicate; then comes all of `shutdown` but the joins; then it waits.
unfoldable pub stuck_pool : ℕ → Pool
unfolding set wake
stuck_pool w = record {
  stopping = true;
  lock = free;
  queue = [];
  workers = set (λ i. wake (set (λ k. acquiring) w inside i)) w blocked;
  callers = λ j. away;
  closer = joining;
  accepted = [];
  taken = [];
}

stuck_pool-Reach : (n w : ℕ) → w < n → Reach n (stuck_pool w)
unfolding stuck_pool
stuck_pool-Reach n w few =
    let s1 = record new_pool { lock = testing w; workers = set (λ k. acquiring) w inside } in
    let s2 = record s1 { lock = must_wait w } in
    let s3 = record s2 { stopping = true; closer = flagged } in
    let s4 = record s3 { closer = joining; workers = λ i. wake (s3.workers i) } in
    next
      (next
        (next (next (next here (acquires new_pool w few refl refl)) (finds_false s1 w refl refl))
          (flags s2 refl))
        (notifies_all s3 refl))
      (waits s4 w refl)

set-same {ℓ} : {A : Type ℓ} (f : ℕ → A) (i : ℕ) (x : A) → set f i x i ≡ x
unfolding set
set-same f i x = ground arith

clash : false ≢ true
clash e = cc

abbrev is_notifying : CallerAt → Bool
is_notifying notifying = true
is_notifying away = false
is_notifying (called task) = false
is_notifying (wanting task) = false
is_notifying submitting = false

abbrev is_blocked : WorkerAt → Bool
is_blocked blocked = true
is_blocked acquiring = false
is_blocked inside = false
is_blocked (running task) = false
is_blocked exited = false

stuck_pool-IsStuck : (w : ℕ) → IsStuck w (stuck_pool w)
unfolding stuck_pool
stuck_pool-IsStuck w = record {
  blocked_still = set-same (λ i. wake (set (λ k. acquiring) w inside i)) w blocked;
  stops = refl;
  joins_now = refl;
  elsewhere = tt;
  no_notice = λ j e. clash (ap is_notifying e);
}

set-other {ℓ} : {A : Type ℓ} (f : ℕ → A) (i w : ℕ) (x : A) → nat_beq w i ≡ false → set f i x w ≡ f w
unfolding set
set-other f i w x h = rw (h, set) refl

set-here {ℓ} : {A : Type ℓ} (f : ℕ → A) (i w : ℕ) (x : A) → nat_beq w i ≡ true → set f i x w ≡ x
unfolding set
set-here f i w x h = rw (h, set) refl

-- A worker that is not blocked is another one.
other_worker :
    (s : Pool) (w i : ℕ) → IsStuck w s → is_blocked (s.workers i) ≡ false → nat_beq w i ≡ false
other_worker s w i h e = elim (Bool-cases (nat_beq w i)) [
  | inl same ↦
      let at : w ≡ i = ground (arith, same) in
      absurd (clash (sym e ∙ ap is_blocked (ap s.workers (sym at) ∙ h.blocked_still)))
  | inr other ↦ other
]

-- The lock and the state of another worker change.
worker_moves :
    (s : Pool) (w i : ℕ) (x : WorkerAt) (lock : Lock) (queue taken : List ℕ)
    → IsStuck w s
    → nat_beq w i ≡ false
    → Elsewhere w lock
    → IsStuck w
        (record s { lock = lock; workers = set s.workers i x; queue = queue; taken = taken })
worker_moves s w i x lock queue taken h other e = record {
  blocked_still = set-other s.workers i w x other ∙ h.blocked_still;
  stops = h.stops;
  joins_now = h.joins_now;
  elsewhere = e;
  no_notice = h.no_notice;
}

-- A caller goes on without a notification.
caller_moves :
    (s : Pool) (w j : ℕ) (x : CallerAt) (lock : Lock)
    → IsStuck w s
    → is_notifying x ≡ false
    → Elsewhere w lock
    → IsStuck w (record s { lock = lock; callers = set s.callers j x })
caller_moves s w j x lock h quiet e = record {
  blocked_still = h.blocked_still;
  stops = h.stops;
  joins_now = h.joins_now;
  elsewhere = e;
  no_notice = λ k n. elim (Bool-cases (nat_beq k j)) [
    | inl same ↦ clash (sym quiet ∙ ap is_notifying (sym (set-here s.callers j k x same) ∙ n))
    | inr other ↦ h.no_notice k (sym (set-other s.callers j k x other) ∙ n)
  ];
}

abbrev has_flag : CloserAt → Bool
has_flag serving = false
has_flag flagged = false
has_flag joining = true
has_flag closed = true

Step-IsStuck : {n w : ℕ} {s t : Pool} → w < n → Step n s t → IsStuck w s → IsStuck w t
Step-IsStuck {w} few (calls s j task e) h =
    caller_moves s w j (called task) s.lock h refl h.elsewhere
Step-IsStuck {w} few (is_refused s j task e f) h = caller_moves s w j away s.lock h refl h.elsewhere
Step-IsStuck {w} few (goes_on s j task e f) h = absurd (clash (sym f ∙ h.stops))
Step-IsStuck {w} few (enters s j task e l) h =
    caller_moves s w j submitting (rechecking j task) h refl tt
Step-IsStuck {w} few (is_refused_late s j task l f) h = caller_moves s w j away free h refl tt
Step-IsStuck {w} few (stays s j task l f) h = absurd (clash (sym f ∙ h.stops))
Step-IsStuck {w} few (pushes s j task l) h = absurd (subst (Elsewhere w) l h.elsewhere)
Step-IsStuck {w} few (notifies_one s j i e small b) h = absurd (h.no_notice j e)
Step-IsStuck {w} few (notifies_nobody s j e b) h = absurd (h.no_notice j e)
Step-IsStuck {w} few (acquires s i small e l) h =
    let other = other_worker s w i h (ap is_blocked e) in
    worker_moves s w i inside (testing i) s.queue s.taken h other other
Step-IsStuck {w} few (finds_false s i l b) h = record {
  blocked_still = h.blocked_still;
  stops = h.stops;
  joins_now = h.joins_now;
  elsewhere = subst (Elsewhere w) l h.elsewhere;
  no_notice = h.no_notice;
}
Step-IsStuck {w} few (finds_true s i l b) h = record {
  blocked_still = h.blocked_still;
  stops = h.stops;
  joins_now = h.joins_now;
  elsewhere = subst (Elsewhere w) l h.elsewhere;
  no_notice = h.no_notice;
}
Step-IsStuck {w} few (waits s i l) h =
    worker_moves s w i blocked free s.queue s.taken h (subst (Elsewhere w) l h.elsewhere) tt
Step-IsStuck {w} few (returns s i l em st) h =
    worker_moves s w i exited free s.queue s.taken h (subst (Elsewhere w) l h.elsewhere) tt
Step-IsStuck {w} few (continues s i l em st) h =
    worker_moves s w i acquiring free s.queue s.taken h (subst (Elsewhere w) l h.elsewhere) tt
Step-IsStuck {w} few (takes s i task rest l queued) h =
    worker_moves s w i (running task) free rest (s.taken ++ task ∷ []) h
      (subst (Elsewhere w) l h.elsewhere) tt
Step-IsStuck {w} few (finishes s i task e) h =
    worker_moves s w i acquiring s.lock s.queue s.taken h (other_worker s w i h (ap is_blocked e))
      h.elsewhere
Step-IsStuck {w} few (flags s e) h = absurd (clash (ap has_flag (sym e ∙ h.joins_now)))
Step-IsStuck {w} few (notifies_all s e) h = absurd (clash (ap has_flag (sym e ∙ h.joins_now)))
Step-IsStuck {w} few (joins s e all) h =
    absurd (clash (sym (ap is_blocked (all w few)) ∙ ap is_blocked h.blocked_still))

Run-IsStuck : {n w : ℕ} {s t : Pool} → w < n → IsStuck w s → Run n s t → IsStuck w t
Run-IsStuck few h stop = h
Run-IsStuck few h (more r step) = Step-IsStuck few step (Run-IsStuck few h r)

-- For each worker there is a run of the pool in which the worker tests the predicate, `shutdown`
-- runs up to its joins, and from then on the worker stays blocked and `shutdown` does not return,
-- whatever the threads do, unless a wait ends by itself.
pub lost_wakeup :
    (n w : ℕ)
    → w < n
    → (s : Pool) × (Reach n s
        × ((t : Pool) → Run n s t → (t.workers w ≡ blocked) × (t.closer ≡ joining)))
lost_wakeup n w few = (
  stuck_pool w,
  (
    stuck_pool-Reach n w few,
    λ t r.
        let h = Run-IsStuck {w = w} few (stuck_pool-IsStuck w) r in (h.blocked_still, h.joins_now),
  ),
)
