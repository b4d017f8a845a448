-- ===== src/Db/Pool/Startup.antt =====
-- `init`, and every state that clients reach after it.
use chat_system_cpp_chat_ser.Base.{
  ℕ, suc, ◌+◌, ◌≤◌, ◌≡◌, refl, Bool, true, false, Option, none, some, List, [], ◌∷◌, arith, nat_eq,
  length, length-append, bytes_eq,
}
use chat_system_cpp_chat_ser.Db.Pool.{
  Attempt, Pool, empty_pool, shut_one, connect, make_connection, push_idle, init_loop, init,
}
use chat_system_cpp_chat_ser.Db.Pool.Leases.{
  count, count-append, Clients, Steps, IsSound, Steps-IsSound,
}

abbrev with_handle : Option ℕ → List ℕ → List ℕ
with_handle none rest = rest
with_handle (some d) rest = d ∷ rest

-- The handles that the library gives, one after the other.
abbrev pub handles : List Attempt → List ℕ
handles [] = []
handles (a ∷ rest) = with_handle a.handle (handles rest)

-- What a pool has of one handle, where `later` of them are still to come.
record Within (d later size : ℕ) (p q : Pool) : Type 0 where
  once : count d q.idle ≤ count d p.idle + later
  size_of : length q.idle ≤ length p.idle + size
  none_out : q.outstanding ≡ p.outstanding

one_more :
    (d : ℕ) (handle : Option ℕ) (ok : Bool) (rest : List Attempt) (p : Pool)
    → ((q : Pool) → Within d (count d (handles rest)) (length rest) q (init_loop rest q).0)
    → Within d
        (count d (with_handle handle (handles rest)))
        (suc (length rest))
        p
        (init_loop (record { handle = handle; connects = ok } ∷ rest) p).0
unfolding init_loop make_connection connect shut_one push_idle count
one_more d none ok rest p later = record {
  once = omega arith;
  size_of = omega arith;
  none_out = refl;
}
one_more d (some c) true rest p later =
    let w = later (push_idle c p) in
    record {
      once = ground (arith, w.once, count-append d p.idle (c ∷ []));
      size_of = omega (arith, w.size_of, length-append {0} p.idle (c ∷ []));
      none_out = w.none_out;
    }
one_more d (some c) false rest p later = record {
  once = omega arith;
  size_of = omega arith;
  none_out = refl;
}

init_loop-Within :
    (d : ℕ) (attempts : List Attempt) (p : Pool)
    → Within d (count d (handles attempts)) (length attempts) p (init_loop attempts p).0
unfolding init_loop count
init_loop-Within d [] p = record { once = omega arith; size_of = omega arith; none_out = refl }
init_loop-Within d (a ∷ rest) p =
    one_more d a.handle a.connects rest p (λ q. init_loop-Within d rest q)

-- After `init`, whatever the library answered, no connection is with two clients, no more are open
-- than there were attempts, and `outstanding_` counts those with clients; the handles that the
-- library gives during `init` are pairwise different.
pub init-IsSound :
    (library_ok : Bool) (attempts : List Attempt) (t : Clients)
    → ((d : ℕ) → count d (handles attempts) ≤ 1)
    → Steps (record { pool = (init library_ok attempts empty_pool).0; leased = [] }) t
    → IsSound (length attempts) t
unfolding init count
init-IsSound true attempts t distinct r = Steps-IsSound r (record {
  once = λ d. let w = init_loop-Within d attempts empty_pool in omega (arith, w.once, distinct d);
  counted = (init_loop-Within 0 attempts empty_pool).none_out;
  bounded = omega (arith, (init_loop-Within 0 attempts empty_pool).size_of);
})
init-IsSound false attempts t distinct r =
    Steps-IsSound r (record { once = λ d. omega arith; counted = refl; bounded = omega arith })
