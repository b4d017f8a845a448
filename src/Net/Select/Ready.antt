-- ===== src/Net/Select/Ready.antt =====
-- What holds after any number of turns of the loop, and what a turn finds ready.
use chat_system_cpp_chat_ser.Base.{ℕ, ◌≡◌, Bool, true, false, List, [], ◌∷◌, ◌++◌, nat_eq, bytes_eq}
use chat_system_cpp_chat_ser.Net.Reactor.{
  Mask, Reactor, new_reactor, Clients, drain_posts, dispatch,
}
use chat_system_cpp_chat_ser.Net.Reactor.Lawful.{IsLawful}
use chat_system_cpp_chat_ser.Net.Reactor.Kept.{
  Kept, unless_stopped, IsWell, IsWell-Kept, new_reactor-IsWell,
}
use chat_system_cpp_chat_ser.Net.Select.{
  Selected, interrupted, failed, timeout, selected, other_thread, is_set, snapshot, call_each, turn,
  run,
}

module _ (k : Clients) (P : Reactor → Type 0) (kept : Kept k P) where
  call_each-Kept : (fds : List (ℕ × Mask)) (r : Reactor) → P r → P (call_each k fds r)
  unfolding call_each
  call_each-Kept [] r h = h
  call_each-Kept ((fd, m) ∷ rest) r h =
      call_each-Kept rest (dispatch k fd m r) (kept.dispatched fd m r h)

  turn-Kept : (woken : Bool) (answer : ℕ → Mask) (r : Reactor) → P r → P (turn k woken answer r)
  unfolding turn
  turn-Kept true answer r h =
      call_each-Kept (snapshot (is_set r.cbs answer) (drain_posts k r).cbs) (drain_posts k r)
        (kept.drained r h)
  turn-Kept false answer r h = call_each-Kept (snapshot (is_set r.cbs answer) r.cbs) r h

  run-Kept : (ws : List Selected) (r : Reactor) → P r → P (run k ws r)
  unfolding run
  run-Kept [] r h = h
  run-Kept (interrupted ∷ ws) r h = unless_stopped P r r.stopping (run k ws r) h (run-Kept ws r h)
  run-Kept (failed ∷ ws) r h = h
  run-Kept (timeout ∷ ws) r h = unless_stopped P r r.stopping (run k ws r) h (run-Kept ws r h)
  run-Kept (selected woken answer ∷ ws) r h =
      unless_stopped P r r.stopping (run k ws (turn k woken answer r)) h
        (run-Kept ws (turn k woken answer r) (turn-Kept woken answer r h))
  run-Kept (other_thread op ∷ ws) r h = run-Kept ws _ (kept.operated op r h)

-- Whatever select answers, and whatever callbacks, closures and other threads do: the closures that
-- were posted are those that ran, in this order, and then those that still wait, and each call is of
-- the callback that was added last for its descriptor and that has not been removed since.
pub run_lem :
    (k : Clients) (ws : List Selected)
    → let r = run k ws new_reactor in (r.posted ≡ r.ran ++ r.pending) × IsLawful [] r.marks
run_lem k ws =
    let h = run-Kept k IsWell (IsWell-Kept k) ws new_reactor new_reactor-IsWell in (h.0, h.1.lawful)
