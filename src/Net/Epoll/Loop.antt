-- ===== src/Net/Epoll/Loop.antt =====
-- What holds after any number of turns of the loop.
use chat_system_cpp_chat_ser.Base.{◌≡◌, List, [], ◌∷◌, ◌++◌, nat_eq, bytes_eq}
use chat_system_cpp_chat_ser.Net.Reactor.{Reactor, new_reactor, Clients}
use chat_system_cpp_chat_ser.Net.Reactor.Lawful.{IsLawful}
use chat_system_cpp_chat_ser.Net.Reactor.Kept.{
  Kept, unless_stopped, IsWell, IsWell-Kept, new_reactor-IsWell,
}
use chat_system_cpp_chat_ser.Net.Epoll.{
  mask_of, Event, wake, ready, other_thread, Waited, interrupted, failed, events, on_event,
  on_events, run,
}

module _ (k : Clients) (P : Reactor → Type 0) (kept : Kept k P) where
  on_events-Kept : (es : List Event) (r : Reactor) → P r → P (on_events k es r)
  unfolding on_events on_event
  on_events-Kept [] r h = h
  on_events-Kept (wake ∷ es) r h = on_events-Kept es _ (kept.drained r h)
  on_events-Kept (ready fd flags ∷ es) r h =
      on_events-Kept es _ (kept.dispatched fd (mask_of flags) r h)
  on_events-Kept (other_thread op ∷ es) r h = on_events-Kept es _ (kept.operated op r h)

  run-Kept : (ws : List Waited) (r : Reactor) → P r → P (run k ws r)
  unfolding run
  run-Kept [] r h = h
  run-Kept (interrupted ∷ ws) r h = unless_stopped P r r.stopping (run k ws r) h (run-Kept ws r h)
  run-Kept (failed ∷ ws) r h = h
  run-Kept (events es ∷ ws) r h =
      unless_stopped P r r.stopping (run k ws (on_events k es r)) h
        (run-Kept ws (on_events k es r) (on_events-Kept es r h))

-- Whatever epoll_wait reports, and whatever callbacks, closures and other threads do: the closures
-- that were posted are those that ran, in this order, and then those that still wait.
pub run-posted :
    (k : Clients) (ws : List Waited) → let r = run k ws new_reactor in r.posted ≡ r.ran ++ r.pending
run-posted k ws = (run-Kept k IsWell (IsWell-Kept k) ws new_reactor new_reactor-IsWell).0

-- Whatever epoll_wait reports, and whatever callbacks, closures and other threads do, also while a
-- batch of events is being handled: each call is of the callback that was added last for its
-- descriptor, and that has not been removed since.
pub run-calls : (k : Clients) (ws : List Waited) → IsLawful [] (run k ws new_reactor).marks
run-calls k ws = (run-Kept k IsWell (IsWell-Kept k) ws new_reactor new_reactor-IsWell).1.lawful
