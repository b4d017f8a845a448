-- ===== src/Examples/Reacting.antt =====
-- The two reactors with one descriptor that removes itself.
use chat_system_cpp_chat_ser.Base.{
  ℕ, ◌≡◌, refl, true, false, List, [], ◌∷◌, ◌++◌, if◌then◌else◌, nat_beq, nat_eq, bytes_eq,
}
use chat_system_cpp_chat_ser.Base.Map
use chat_system_cpp_chat_ser.Net.Reactor.{
  Mask, Op, add, remove, post, Reactor, new_reactor, Clients,
}
use chat_system_cpp_chat_ser.Net.Reactor.Lawful.{IsLawful}
use chat_system_cpp_chat_ser.Net.Epoll
use chat_system_cpp_chat_ser.Net.Epoll.{Flags, ready, wake}
use chat_system_cpp_chat_ser.Net.Epoll.Loop.{run-posted, run-calls}
use chat_system_cpp_chat_ser.Net.Select
use chat_system_cpp_chat_ser.Net.Select.Ready.{run_lem}

abbrev behaves : ℕ → Mask → Reactor → List Op
behaves cb m r = remove 4 ∷ post 8 ∷ []

abbrev closes_up : ℕ → Reactor → List Op
closes_up task r = if nat_beq task 8 then post 9 ∷ [] else []

abbrev clients : Clients
clients = record { callback = behaves; closure = closes_up }

abbrev reading : Mask
reading = record { read = true; write = false }

abbrev input_only : Flags
input_only = record {
  input = true;
  priority = false;
  output = false;
  error = false;
  hang_up = false;
  peer_gone = false;
}

abbrev turns : List Epoll.Waited
turns =
    Epoll.events
      (Epoll.other_thread (add true 4 reading 70) ∷ ready 4 input_only ∷ ready 4 input_only ∷ [])
    ∷ Epoll.interrupted
    ∷ Epoll.events (wake ∷ [])
    ∷ []

run-posted_example : let r = Epoll.run clients turns new_reactor in r.posted ≡ r.ran ++ r.pending
run-posted_example = run-posted clients turns

run-calls_example : IsLawful [] (Epoll.run clients turns new_reactor).marks
run-calls_example = run-calls clients turns

what_is_left :
    let r = Epoll.run clients turns new_reactor in (r.ran ≡ 8 ∷ []) × (r.pending ≡ 9 ∷ [])
unfolding Epoll.run Map.find Map.insert Map.erase
what_is_left = (refl, refl)

abbrev all_ready : ℕ → Mask
all_ready fd = record { read = true; write = true }

abbrev selections : List Select.Selected
selections =
    Select.other_thread (add true 4 reading 70)
    ∷ Select.selected false all_ready
    ∷ Select.timeout
    ∷ Select.selected true all_ready
    ∷ []

run_lem_example :
    let r = Select.run clients selections new_reactor in
    (r.posted ≡ r.ran ++ r.pending) × IsLawful [] r.marks
run_lem_example = run_lem clients selections
