-- ===== src/Net/Epoll.antt =====
-- src/net/reactor_epoll.cpp: the loop over what epoll_wait reports.
pub mod Loop
use chat_system_cpp_chat_ser.Base.{ℕ, Bool, ◌||◌, List, [], ◌∷◌, if◌then◌else◌, nat_eq, bytes_eq}
use chat_system_cpp_chat_ser.Net.Reactor.{
  Mask, Op, Reactor, operate, Clients, drain_posts, dispatch,
}

-- The flags of an epoll_event.
pub record Flags : Type 0 where
  pub input : Bool
  pub priority : Bool
  pub output : Bool
  pub error : Bool
  pub hang_up : Bool
  pub peer_gone : Bool

unfoldable pub mask_of : Flags → Mask
mask_of f = record {
  read = (f.input || f.priority) || (f.error || f.hang_up || f.peer_gone);
  write = f.output;
}

-- An event: the eventfd, or a descriptor with its flags. Another thread may post or stop before it
-- is looked at.
pub data Event : Type 0 where
  wake : Event
  ready : ℕ → Flags → Event
  other_thread : Op → Event

-- What epoll_wait answers.
pub data Waited : Type 0 where
  interrupted failed : Waited
  events : List Event → Waited

unfoldable pub on_event : Clients → Event → Reactor → Reactor
unfolding mask_of operate drain_posts dispatch
on_event k wake r = drain_posts k r
on_event k (ready fd flags) r = dispatch k fd (mask_of flags) r
on_event k (other_thread op) r = operate op r

unfoldable pub on_events : Clients → List Event → Reactor → Reactor
unfolding on_event
on_events k [] r = r
on_events k (e ∷ rest) r = on_events k rest (on_event k e r)

-- `stopping_` is tested before each wait.
unfoldable pub run : Clients → List Waited → Reactor → Reactor
unfolding on_events
run k [] r = r
run k (interrupted ∷ waits) r = let rest = run k waits r in if r.stopping then r else rest
run k (failed ∷ waits) r = r
run k (events es ∷ waits) r =
    let rest = run k waits (on_events k es r) in if r.stopping then r else rest
