-- ===== src/Net/Select.antt =====
-- src/net/reactor_select.cpp: the loop over what select answers.
pub mod Ready
use chat_system_cpp_chat_ser.Base.{
  ℕ, Bool, false, ◌&&◌, ◌||◌, none, some, List, [], ◌∷◌, if◌then◌else◌, nat_eq, bytes_eq,
}
use chat_system_cpp_chat_ser.Base.Map
use chat_system_cpp_chat_ser.Base.Map.{Map}
use chat_system_cpp_chat_ser.Net.Reactor.{
  Mask, Entry, Op, Reactor, operate, Clients, drain_posts, dispatch,
}

-- What select answers: an error, nothing within the second, or, for the descriptor of the posts and
-- for every other one, whether it is ready. Another thread may post or stop in between.
pub data Selected : Type 0 where
  interrupted failed timeout : Selected
  selected : Bool → (ℕ → Mask) → Selected
  other_thread : Op → Selected

abbrev pub both : Mask → Mask → Mask
both a b = record { read = a.read && b.read; write = a.write && b.write }

abbrev pub neither : Mask
neither = record { read = false; write = false }

-- FD_ISSET on the two sets that select leaves: of the descriptors that were put in, those that are
-- ready.
unfoldable pub is_set : Map ℕ Entry → (ℕ → Mask) → ℕ → Mask
is_set watched answer fd = elim (Map.find fd watched) [
  | none ↦ neither
  | some e ↦ both e.mask (answer fd)
]

-- The snapshot `ready`.
unfoldable pub snapshot : (ℕ → Mask) → Map ℕ Entry → List (ℕ × Mask)
snapshot fired [] = []
snapshot fired ((fd, e) ∷ t) =
    let rest = snapshot fired t in
    if (fired fd).read || (fired fd).write then (fd, fired fd) ∷ rest else rest

unfoldable pub call_each : Clients → List (ℕ × Mask) → Reactor → Reactor
unfolding dispatch
call_each k [] r = r
call_each k ((fd, m) ∷ rest) r = call_each k rest (dispatch k fd m r)

-- One turn; the sets are made of the table as it is before the posts are run, the snapshot after.
unfoldable pub turn : Clients → Bool → (ℕ → Mask) → Reactor → Reactor
unfolding is_set snapshot call_each drain_posts
turn k woken answer r =
    let r1 = if woken then drain_posts k r else r in
    call_each k (snapshot (is_set r.cbs answer) r1.cbs) r1

-- `stopping_` is tested before each wait.
unfoldable pub run : Clients → List Selected → Reactor → Reactor
unfolding turn operate
run k [] r = r
run k (interrupted ∷ waits) r = let rest = run k waits r in if r.stopping then r else rest
run k (failed ∷ waits) r = r
run k (timeout ∷ waits) r = let rest = run k waits r in if r.stopping then r else rest
run k (selected woken answer ∷ waits) r =
    let rest = run k waits (turn k woken answer r) in if r.stopping then r else rest
run k (other_thread op ∷ waits) r = run k waits (operate op r)
