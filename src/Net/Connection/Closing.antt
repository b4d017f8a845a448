-- ===== src/Net/Connection/Closing.antt =====
-- A connection closes once, however its events are ordered.
mod Balance
pub use Balance.*
use chat_system_cpp_chat_ser.Base.{
  ℕ, ◌≡◌, refl, inl, inr, Bool, true, false, not, List, [], ◌∷◌, arith, if◌then◌else◌, Bool-cases,
  nat_eq, Bytes, bytes_eq,
}
use chat_system_cpp_chat_ser.Net.Connection.{
  Connection, Task, flush, deliver, schedule, Effect, Recv, Sent, after, make, on_readable,
  send_frame, try_flush, on_event, close, run_task, set_user_id, set_session_token,
}

-- Everything that may happen to a connection: the reactor calls it, or a thread uses it.
pub data Event : Type 0 where
  ready : Bool → Bool → List Recv → List Sent → Event
  sends : Bytes → Event
  closes : Event
  runs : Task → List Sent → Event
  binds_user : ℕ → Event
  binds_token : Bytes → Event

unfoldable pub handle : Event → Connection → Connection × List Effect
handle (ready r w recvs sents) c = on_event c r w recvs sents
handle (sends p) c = send_frame p c
handle closes c = close c
handle (runs t sents) c = run_task t sents c
handle (binds_user uid) c = (set_user_id uid c, [])
handle (binds_token t) c = (set_session_token t c, [])

unfoldable pub handle_all : List Event → Connection → Connection × List Effect
handle_all [] c = (c, [])
handle_all (e ∷ events) c = after (handle e c).1 (handle_all events (handle e c).0)

on_event-Balanced :
    (c : Connection) (r w : Bool) (recvs : List Recv) (sents : List Sent)
    → Balanced c (on_event c r w recvs sents)
unfolding on_event
on_event-Balanced c r w recvs sents = elim (Bool-cases c.closed) [
  | inl e ↦ simp e (quiet c)
  | inr e ↦ simp e (first (if r then on_readable c recvs else (c, [])) (reads r))
]
  where
    reads : (b : Bool) → Balanced c (if b then on_readable c recvs else (c, []))
    reads true = on_readable-Balanced c recvs
    reads false = quiet c

    first :
        (f : Connection × List Effect)
        → Balanced c f
        → Balanced c (
            if f.0.closed
            then (f.0, f.1)
            else if w
            then after f.1 (try_flush f.0 sents)
            else (f.0, f.1))
    first (d, effects) b =
        ground
          (arith, after-Balanced c (d, effects) (try_flush d sents) b (try_flush-Balanced d sents))

run_task-Balanced :
    (t : Task) (sents : List Sent) (c : Connection) → Balanced c (run_task t sents c)
unfolding run_task
run_task-Balanced flush sents c = ground (arith, try_flush-Balanced c sents)
run_task-Balanced deliver sents c = deliver_close-Balanced c
run_task-Balanced schedule sents c = schedule_close-Balanced c

pub handle-Balanced : (e : Event) (c : Connection) → Balanced c (handle e c)
unfolding handle close set_user_id set_session_token
handle-Balanced (ready r w recvs sents) c = on_event-Balanced c r w recvs sents
handle-Balanced (sends p) c = send_frame-Balanced p c
handle-Balanced closes c = schedule_close-Balanced c
handle-Balanced (runs t sents) c = run_task-Balanced t sents c
handle-Balanced (binds_user uid) c = record {
  calls = omega arith;
  posts = omega arith;
  descriptor = λ h. h;
}
handle-Balanced (binds_token t) c = record {
  calls = omega arith;
  posts = omega arith;
  descriptor = λ h. h;
}

handle_all-Balanced : (events : List Event) (c : Connection) → Balanced c (handle_all events c)
unfolding handle_all
handle_all-Balanced [] c = quiet c
handle_all-Balanced (e ∷ events) c =
    after-Balanced c (handle e c) (handle_all events (handle e c).0) (handle-Balanced e c)
      (handle_all-Balanced events (handle e c).0)

-- Whatever happens to a new connection, in whatever order: its owner is told of the close once
-- if the connection is closed by then, and otherwise never; the close is posted once if the
-- connection is closing, and otherwise never; its descriptor is open exactly until it is closed.
pub closes_once :
    (id limit : ℕ) (events : List Event)
    → let r = handle_all events (make id limit) in
      (close_calls r.1 ≡ flag r.0.closed)
      × (close_posts r.1 ≡ flag r.0.closing)
      × (r.0.fd_valid ≡ not r.0.closed)
unfolding make
closes_once id limit events =
    let b = handle_all-Balanced events (make id limit) in
    (omega (arith, b.calls), omega (arith, b.posts), b.descriptor refl)
