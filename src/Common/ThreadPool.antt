-- ===== src/Common/ThreadPool.antt =====
-- src/common/thread_pool.cpp: the threads as a step relation. A step is what a thread does between
-- two points at which another one can come in; `stopping_` is read and written outside the lock
-- too. Tasks are numbers, and a task that throws ends like one that returns.
pub mod Drain
pub mod Wakeup
use chat_system_cpp_chat_ser.Base.{
  ℕ, ◌<◌, ◌≡◌, ◌≢◌, Bool, true, false, not, ◌||◌, List, [], ◌∷◌, ◌++◌, if◌then◌else◌, nat_beq,
  nat_eq, is_empty, bytes_eq,
}

-- Where the body of `worker_loop` stands: before it takes the lock (at its top, or woken up), with
-- the lock, blocked in `cv_.wait`, in a task, or returned.
pub data WorkerAt : Type 0 where
  acquiring : WorkerAt
  inside : WorkerAt
  blocked : WorkerAt
  running : ℕ → WorkerAt
  exited : WorkerAt

-- Where a thread stands that calls `submit`: outside, before the first test, before the lock, with
-- the lock, or before `notify_one`.
pub data CallerAt : Type 0 where
  away : CallerAt
  called : ℕ → CallerAt
  wanting : ℕ → CallerAt
  submitting : CallerAt
  notifying : CallerAt

-- Who has `mu_`, and how far the holder is: a worker before the predicate of `wait`, after it was
-- false, and after it was true; a caller before the second test, and before the push.
pub data Lock : Type 0 where
  free : Lock
  testing : ℕ → Lock
  must_wait : ℕ → Lock
  chosen : ℕ → Lock
  rechecking : ℕ → ℕ → Lock
  pushing : ℕ → ℕ → Lock

-- Where `shutdown` stands: not called, before `notify_all`, before the joins, or returned.
pub data CloserAt : Type 0 where
  serving : CloserAt
  flagged : CloserAt
  joining : CloserAt
  closed : CloserAt

-- `accepted` and `taken` keep the tasks that were pushed and popped, in this order.
pub record Pool : Type 0 where
  pub stopping : Bool
  pub lock : Lock
  pub queue : List ℕ
  pub workers : ℕ → WorkerAt
  pub callers : ℕ → CallerAt
  pub closer : CloserAt
  pub accepted : List ℕ
  pub taken : List ℕ

unfoldable pub set {ℓ} : {A : Type ℓ} → (ℕ → A) → ℕ → A → ℕ → A
set f i x j = if nat_beq j i then x else f j

unfoldable pub wake : WorkerAt → WorkerAt
wake blocked = acquiring
wake acquiring = acquiring
wake inside = inside
wake (running task) = running task
wake exited = exited

-- The constructor, when the threads have started.
abbrev pub new_pool : Pool
new_pool = record {
  stopping = false;
  lock = free;
  queue = [];
  workers = λ i. acquiring;
  callers = λ j. away;
  closer = serving;
  accepted = [];
  taken = [];
}

-- The steps of a pool of n workers.
pub data Step (n : ℕ) : Pool → Pool → Type 0 where
  -- submit
  calls :
      (s : Pool) (j task : ℕ)
      → s.callers j ≡ away
      → Step n s (record s { callers = set s.callers j (called task) })
  is_refused :
      (s : Pool) (j task : ℕ)
      → s.callers j ≡ called task
      → s.stopping ≡ true
      → Step n s (record s { callers = set s.callers j away })
  goes_on :
      (s : Pool) (j task : ℕ)
      → s.callers j ≡ called task
      → s.stopping ≡ false
      → Step n s (record s { callers = set s.callers j (wanting task) })
  enters :
      (s : Pool) (j task : ℕ)
      → s.callers j ≡ wanting task
      → s.lock ≡ free
      → Step n s (record s { lock = rechecking j task; callers = set s.callers j submitting })
  is_refused_late :
      (s : Pool) (j task : ℕ)
      → s.lock ≡ rechecking j task
      → s.stopping ≡ true
      → Step n s (record s { lock = free; callers = set s.callers j away })
  stays :
      (s : Pool) (j task : ℕ)
      → s.lock ≡ rechecking j task
      → s.stopping ≡ false
      → Step n s (record s { lock = pushing j task })
  pushes :
      (s : Pool) (j task : ℕ)
      → s.lock ≡ pushing j task
      → Step n s (record s {
        lock = free;
        queue = s.queue ++ task ∷ [];
        accepted = s.accepted ++ task ∷ [];
        callers = set s.callers j notifying;
      })
  notifies_one :
      (s : Pool) (j i : ℕ)
      → s.callers j ≡ notifying
      → i < n
      → s.workers i ≡ blocked
      → Step n s (record s { workers = set s.workers i acquiring; callers = set s.callers j away })
  notifies_nobody :
      (s : Pool) (j : ℕ)
      → s.callers j ≡ notifying
      → ((i : ℕ) → i < n → s.workers i ≢ blocked)
      → Step n s (record s { callers = set s.callers j away })
  -- worker_loop
  acquires :
      (s : Pool) (i : ℕ)
      → i < n
      → s.workers i ≡ acquiring
      → s.lock ≡ free
      → Step n s (record s { lock = testing i; workers = set s.workers i inside })
  finds_false :
      (s : Pool) (i : ℕ)
      → s.lock ≡ testing i
      → (s.stopping || not (is_empty s.queue)) ≡ false
      → Step n s (record s { lock = must_wait i })
  finds_true :
      (s : Pool) (i : ℕ)
      → s.lock ≡ testing i
      → (s.stopping || not (is_empty s.queue)) ≡ true
      → Step n s (record s { lock = chosen i })
  waits :
      (s : Pool) (i : ℕ)
      → s.lock ≡ must_wait i
      → Step n s (record s { lock = free; workers = set s.workers i blocked })
  returns :
      (s : Pool) (i : ℕ)
      → s.lock ≡ chosen i
      → is_empty s.queue ≡ true
      → s.stopping ≡ true
      → Step n s (record s { lock = free; workers = set s.workers i exited })
  continues :
      (s : Pool) (i : ℕ)
      → s.lock ≡ chosen i
      → is_empty s.queue ≡ true
      → s.stopping ≡ false
      → Step n s (record s { lock = free; workers = set s.workers i acquiring })
  takes :
      (s : Pool) (i task : ℕ) (rest : List ℕ)
      → s.lock ≡ chosen i
      → s.queue ≡ task ∷ rest
      → Step n s (record s {
        lock = free;
        queue = rest;
        taken = s.taken ++ task ∷ [];
        workers = set s.workers i (running task);
      })
  finishes :
      (s : Pool) (i task : ℕ)
      → s.workers i ≡ running task
      → Step n s (record s { workers = set s.workers i acquiring })
  -- shutdown
  flags :
      (s : Pool) → s.closer ≡ serving → Step n s (record s { stopping = true; closer = flagged })
  notifies_all :
      (s : Pool)
      → s.closer ≡ flagged
      → Step n s (record s { closer = joining; workers = λ i. wake (s.workers i) })
  joins :
      (s : Pool)
      → s.closer ≡ joining
      → ((i : ℕ) → i < n → s.workers i ≡ exited)
      → Step n s (record s { closer = closed })

-- A wait may also end without a notification.
pub data Spurious (n : ℕ) : Pool → Pool → Type 0 where
  wakes :
      (s : Pool) (i : ℕ)
      → s.workers i ≡ blocked
      → Spurious n s (record s { workers = set s.workers i acquiring })

pub data Reach (n : ℕ) : Pool → Type 0 where
  here : Reach n new_pool
  next : {s t : Pool} → Reach n s → Step n s t → Reach n t
  woken : {s t : Pool} → Reach n s → Spurious n s t → Reach n t

-- Steps without a wait that ends by itself.
pub data Run (n : ℕ) (s : Pool) : Pool → Type 0 where
  stop : Run n s s
  more : {t u : Pool} → Run n s t → Step n t u → Run n s u
