-- ===== src/Db/Pool.antt =====
-- src/db/mysql_pool.cpp: the connections to the server. A connection is the handle that
-- `mysql_init` gave; what the client library answers is an argument. Each operation holds `mu_`.
pub mod Leases
pub mod Outage
pub mod Startup
use chat_system_cpp_chat_ser.Base.{
  ℕ, ◌+◌, ◌-◌, Bool, true, false, Option, none, some, List, [], ◌∷◌, ◌++◌, reverse, if◌then◌else◌,
  nat_eq, bytes_eq,
}

-- What the library does when a connection is made: the handle, and whether it gets through.
pub record Attempt : Type 0 where
  pub handle : Option ℕ
  pub connects : Bool

-- `shut` keeps the handles that were closed, the last one first.
pub record Pool : Type 0 where
  pub idle : List ℕ
  pub outstanding : ℕ
  pub stopping : Bool
  pub shut : List ℕ

abbrev pub empty_pool : Pool
empty_pool = record { idle = []; outstanding = 0; stopping = false; shut = [] }

-- mysql_close
unfoldable pub shut_one : ℕ → Pool → Pool
shut_one c p = record p { shut = c ∷ p.shut }

unfoldable pub connect : Option ℕ → Bool → Pool → Option ℕ × Pool
unfolding shut_one
connect none ok p = (none, p)
connect (some c) true p = (some c, p)
connect (some c) false p = (none, shut_one c p)

-- The handle of a connection that stands, and the pool where one that does not is closed.
unfoldable pub make_connection : Attempt → Pool → Option ℕ × Pool
unfolding connect
make_connection a p = connect a.handle a.connects p

unfoldable pub push_idle : ℕ → Pool → Pool
push_idle c p = record p { idle = p.idle ++ c ∷ [] }

-- The loop of `init`, over the attempts of `pool_size` rounds.
unfoldable pub init_loop : List Attempt → Pool → Pool × Bool
unfolding make_connection push_idle
init_loop [] p = (p, true)
init_loop (a ∷ rest) p =
    let (made, p') = make_connection a p in
    elim made [ none ↦ (p', false) | some c ↦ init_loop rest (push_idle c p') ]

unfoldable pub init : Bool → List Attempt → Pool → Pool × Bool
unfolding init_loop
init library_ok attempts p = if library_ok then init_loop attempts p else (p, false)

-- A caller waits on, gets an empty lease, or gets a connection.
pub data Acquired : Type 0 where
  waits_on : Acquired
  no_lease : Acquired
  lease : ℕ → Pool → Acquired

unfoldable pub next_idle : Bool → List ℕ → Pool → Acquired
next_idle true idle p = no_lease
next_idle false [] p = waits_on
next_idle false (c ∷ idle) p = lease c (record p { idle = idle; outstanding = p.outstanding + 1 })

unfoldable pub acquire : Pool → Acquired
unfolding next_idle
acquire p = next_idle p.stopping p.idle p

-- The connection is put back, or the one that replaces it.
unfoldable pub put_back : Option ℕ × Pool → Pool
unfolding push_idle
put_back (none, p) = p
put_back (some c, p) = push_idle c p

-- What becomes of a connection, by `stopping_` and by the answer of mysql_ping.
unfoldable pub give_back : Bool → Bool → Attempt → ℕ → Pool → Pool
unfolding shut_one put_back make_connection
give_back true alive a c p = shut_one c p
give_back false true a c p = put_back (some c, p)
give_back false false a c p = put_back (make_connection a (shut_one c p))

unfoldable pub release : Bool → Attempt → ℕ → Pool → Pool
unfolding give_back
release alive a c p = give_back p.stopping alive a c (record p { outstanding = p.outstanding - 1 })

-- A lease keeps its connection until it is released; another release does nothing.
unfoldable pub end_lease : Bool → Attempt → Option ℕ → Pool → Option ℕ × Pool
unfolding release
end_lease alive attempt none p = (none, p)
end_lease alive attempt (some c) p = (none, release alive attempt c p)

-- The destructor.
unfoldable pub destroy : Pool → Pool
destroy p = record p { stopping = true; idle = []; shut = reverse p.idle ++ p.shut }
