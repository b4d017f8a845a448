-- ===== src/Examples/Pools.antt =====
-- The thread pool and the pool of connections on short runs.
use chat_system_cpp_chat_ser.Base.{
  ℕ, ◌≤◌, ◌≡◌, refl, true, false, some, List, [], ◌∷◌, arith, nat_eq, bytes_eq,
}
use chat_system_cpp_chat_ser.Common.ThreadPool.{
  acquiring, inside, blocked, running, exited, away, called, wanting, submitting, notifying, free,
  testing, must_wait, chosen, rechecking, pushing, joining, set, new_pool, Step, calls, goes_on,
  enters, stays, pushes, acquires, finds_true, takes, finishes, flags, returns, Reach, here, next,
  Run,
}
use chat_system_cpp_chat_ser.Common.ThreadPool
use chat_system_cpp_chat_ser.Common.ThreadPool.Drain.{NotPushing, drained}
use chat_system_cpp_chat_ser.Common.ThreadPool.Wakeup.{lost_wakeup}
use chat_system_cpp_chat_ser.Db.Pool.{Attempt, Pool, empty_pool, waits_on, acquire, init}
use chat_system_cpp_chat_ser.Db.Pool.Leases
use chat_system_cpp_chat_ser.Db.Pool.Leases.{count, Clients, Steps, IsSound}
use chat_system_cpp_chat_ser.Db.Pool.Startup.{init-IsSound}
use chat_system_cpp_chat_ser.Db.Pool.Outage.{outage}

-- A caller submits task 7, the one worker takes it, and the pool is shut down.
abbrev p1 : ThreadPool.Pool
p1 = record new_pool { callers = set (λ j. away) 0 (called 7) }

abbrev p2 : ThreadPool.Pool
p2 = record p1 { callers = set p1.callers 0 (wanting 7) }

abbrev p3 : ThreadPool.Pool
p3 = record p2 { lock = rechecking 0 7; callers = set p2.callers 0 submitting }

abbrev p4 : ThreadPool.Pool
p4 = record p3 { lock = pushing 0 7 }

abbrev p5 : ThreadPool.Pool
p5 = record p4 {
  lock = free;
  queue = 7 ∷ [];
  accepted = 7 ∷ [];
  callers = set p4.callers 0 notifying;
}

abbrev p6 : ThreadPool.Pool
p6 = record p5 { lock = testing 0; workers = set p5.workers 0 inside }

abbrev p7 : ThreadPool.Pool
p7 = record p6 { lock = chosen 0 }

abbrev p8 : ThreadPool.Pool
p8 = record p7 { lock = free; queue = []; taken = 7 ∷ []; workers = set p7.workers 0 (running 7) }

abbrev p9 : ThreadPool.Pool
p9 = record p8 { workers = set p8.workers 0 acquiring }

p5-Reach : Reach 1 p5
unfolding set
p5-Reach =
    next
      (next
        (next (next (next here (calls new_pool 0 7 refl)) (goes_on p1 0 7 refl refl))
          (enters p2 0 7 refl refl))
        (stays p3 0 7 refl refl))
      (pushes p4 0 7 refl)

p9-Reach : Reach 1 p9
unfolding set
p9-Reach =
    next
      (next
        (next (next p5-Reach (acquires p5 0 (omega arith) refl refl)) (finds_true p6 0 refl refl))
        (takes p7 0 7 [] refl refl))
      (finishes p8 0 7 refl)

abbrev p10 : ThreadPool.Pool
p10 = record p9 { stopping = true; closer = ThreadPool.flagged }

abbrev p11 : ThreadPool.Pool
p11 = record p10 { lock = testing 0; workers = set p10.workers 0 inside }

abbrev p12 : ThreadPool.Pool
p12 = record p11 { lock = chosen 0 }

abbrev p13 : ThreadPool.Pool
p13 = record p12 { lock = free; workers = set p12.workers 0 exited }

p13-Reach : Reach 1 p13
unfolding set
p13-Reach =
    next
      (next (next (next p9-Reach (flags p9 refl)) (acquires p10 0 (omega arith) refl refl))
        (finds_true p11 0 refl refl))
      (returns p12 0 refl refl refl)

p13-exited : p13.workers 0 ≡ exited
unfolding set
p13-exited = refl

drained_example : (p13.accepted ≡ p13.taken) × ((p13.stopping ≡ true) × NotPushing p13.lock)
drained_example = drained p13-Reach 0 p13-exited

lost_wakeup_example :
    (s : ThreadPool.Pool) × (Reach 2 s
      × ((t : ThreadPool.Pool) → Run 2 s t → (t.workers 1 ≡ blocked) × (t.closer ≡ joining)))
lost_wakeup_example = lost_wakeup 2 1 (omega arith)

abbrev two_attempts : List Attempt
two_attempts =
    record { handle = some 5; connects = true } ∷ record { handle = some 6; connects = true } ∷ []

abbrev opened : Pool
opened = record { idle = 5 ∷ 6 ∷ []; outstanding = 0; stopping = false; shut = [] }

abbrev lent : Pool
lent = record { idle = 6 ∷ []; outstanding = 1; stopping = false; shut = [] }

one_lease :
    Steps
      (record { pool = (init true two_attempts empty_pool).0; leased = [] })
      (record { pool = lent; leased = 5 ∷ [] })
unfolding init acquire
one_lease =
    Leases.next Leases.here (Leases.acquires (record { pool = opened; leased = [] }) 5 lent refl)

at_most_once : (d : ℕ) → count d (5 ∷ 6 ∷ []) ≤ 1
unfolding count
at_most_once d = ground arith

init-IsSound_example : IsSound 2 (record { pool = lent; leased = 5 ∷ [] })
init-IsSound_example =
    init-IsSound true two_attempts (record { pool = lent; leased = 5 ∷ [] }) at_most_once one_lease

abbrev all_out : Clients
all_out = record {
  pool = record { idle = []; outstanding = 2; stopping = false; shut = [] };
  leased = 5 ∷ 6 ∷ [];
}

none_is_9 : count 9 (5 ∷ 6 ∷ []) ≡ 0
unfolding count
none_is_9 = refl

outage_example :
    (t : Clients) × (Steps all_out t × ((u : Clients) → Steps t u → acquire u.pool ≡ waits_on))
outage_example = outage all_out 9 refl refl none_is_9
