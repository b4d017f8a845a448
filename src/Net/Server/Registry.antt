-- ===== src/Net/Server/Registry.antt =====
-- The table of connections is exact.
use chat_system_cpp_chat_ser.Base.{
  ℕ, ◌+◌, ◌^◌, ◌≤◌, ◌<◌, ◌≡◌, refl, ap, inl, inr, Bool, true, false, not, Option, none, some, List,
  [], ◌∷◌, arith, Bool-cases, nat_beq, nat_eq, length, bytes_eq,
}
use chat_system_cpp_chat_ser.Base.Map
use chat_system_cpp_chat_ser.Base.Map.{Map, find-insert}
use chat_system_cpp_chat_ser.Base.NatSet
use chat_system_cpp_chat_ser.Net.Connection.{Connection, make, Effect}
use chat_system_cpp_chat_ser.Net.Connection.Closing.{
  Event, handle, close_calls, Balanced, handle-Balanced,
}
use chat_system_cpp_chat_ser.Net.Server.{
  Server, new_server, Accepted, arrives, again, interrupted, broken, register_connection,
  unregister_connection, accept_one, on_listen_event, has_acted, acts, conn_event,
}

-- The connection is there, and has not told its owner of a close.
abbrev pub is_open : Option Connection → Bool
is_open none = false
is_open (some c) = not c.closed

-- Every connection that is open is in the table, and no other; ids that are to come are unused.
pub record IsExact (s : Server) : Type 0 where
  pub entered : (id : ℕ) → NatSet.contains s.conns id ≡ is_open (Map.find id s.objects)
  pub unused : (id : ℕ) → s.next_id ≤ id → Map.find id s.objects ≡ none

make-open : (id limit : ℕ) → (make id limit).closed ≡ false
unfolding make
make-open id limit = refl

accept_one-IsExact : (s : Server) → s.next_id + 1 < 2 ^ 64 → IsExact s → IsExact (accept_one s).0
unfolding accept_one register_connection
accept_one-IsExact s small h = record {
  entered = λ id. ground (
    arith,
    NatSet.contains-insert s.next_id id s.conns,
    find-insert s.next_id id (make s.next_id s.max_frame) s.objects,
    h.entered id,
    make-open s.next_id s.max_frame,
  );
  unused = λ id later.
      ground (arith, find-insert s.next_id id (make s.next_id s.max_frame) s.objects, h.unused id);
}

on_listen_event-IsExact :
    (answers : List Accepted) (s : Server)
    → s.next_id + length answers < 2 ^ 64
    → IsExact s
    → IsExact (on_listen_event s answers).0
      × ((on_listen_event s answers).0.next_id ≤ s.next_id + length answers)
unfolding on_listen_event accept_one
on_listen_event-IsExact [] s small h = (h, omega arith)
on_listen_event-IsExact (arrives ∷ answers) s small h =
    let (exact, later) =
      on_listen_event-IsExact answers (accept_one s).0 (omega arith)
        (accept_one-IsExact s (omega arith) h) in
    (exact, omega (arith, later))
on_listen_event-IsExact (again ∷ answers) s small h = (h, omega arith)
on_listen_event-IsExact (interrupted ∷ answers) s small h = (h, omega arith)
on_listen_event-IsExact (broken ∷ answers) s small h = (h, omega arith)

has_acted-IsExact :
    (id : ℕ) (c : Connection) (r : Connection × List Effect) (s : Server)
    → Map.find id s.objects ≡ some c
    → Balanced c r
    → IsExact s
    → IsExact (has_acted id r s).0
unfolding has_acted unregister_connection
has_acted-IsExact id c (c', effects) s found b h =
    elim (Bool-cases (nat_beq (close_calls effects) 0)) [
      | inl quiet ↦
          let same : c'.closed ≡ c.closed = ground (arith, b.calls) in
          rw quiet (record {
            entered = λ j. ground (
              arith,
              find-insert id j c' s.objects,
              h.entered j,
              h.entered id,
              found,
              same,
              ap (λ k. Map.find k s.objects) {x = id} {y = j},
            );
            unused = λ j later.
                ground (arith, find-insert id j c' s.objects, h.unused j, h.unused id, found);
          })
      | inr told ↦
          let closed : c'.closed ≡ true = ground (arith, b.calls) in
          rw told (record {
            entered = λ j. ground (
              arith,
              NatSet.contains-erase id j s.conns,
              find-insert id j c' s.objects,
              h.entered j,
              closed,
            );
            unused = λ j later.
                ground (arith, find-insert id j c' s.objects, h.unused j, h.unused id, found);
          })
    ]

acts-IsExact :
    (id : ℕ) (e : Event) (s : Server) (o : Option Connection)
    → Map.find id s.objects ≡ o
    → IsExact s
    → IsExact (acts id e s o).0
unfolding acts
acts-IsExact id e s none found h = h
acts-IsExact id e s (some c) found h =
    has_acted-IsExact id c (handle e c) s found (handle-Balanced e c) h

-- What happens to the server while it is not stopped: the listener is ready, or a connection has an
-- event.
pub data Call : Type 0 where
  listener : List Accepted → Call
  conn : ℕ → Event → Call

unfoldable pub call : Call → Server → Server
call (listener answers) s = (on_listen_event s answers).0
call (conn id e) s = (conn_event id e s).0

unfoldable pub call_all : List Call → Server → Server
unfolding call
call_all [] s = s
call_all (c ∷ calls) s = call_all calls (call c s)

-- A bound on the connections that the calls make.
abbrev pub most : List Call → ℕ
most [] = 0
most (listener answers ∷ calls) = length answers + most calls
most (conn id e ∷ calls) = most calls

conn_event-next_id :
    (id : ℕ) (e : Event) (s : Server) (o : Option Connection)
    → (acts id e s o).0.next_id ≡ s.next_id
unfolding acts has_acted unregister_connection
conn_event-next_id id e s none = refl
conn_event-next_id id e s (some c) = elim (Bool-cases (nat_beq (close_calls (handle e c).1) 0)) [
  | inl quiet ↦ rw quiet refl
  | inr told ↦ rw told refl
]

new_server-IsExact : (max_frame : ℕ) → IsExact (new_server max_frame)
unfolding new_server
new_server-IsExact max_frame = record {
  entered = λ id. unfold NatSet.contains Map.find in refl;
  unused = λ id later. unfold Map.find in refl;
}

new_server-small :
    (calls : List Call) (max_frame : ℕ)
    → 1 + most calls < 2 ^ 64
    → (new_server max_frame).next_id + most calls < 2 ^ 64
unfolding new_server
new_server-small calls max_frame small = small

call_all-IsExact :
    (calls : List Call) (s : Server)
    → s.next_id + most calls < 2 ^ 64
    → IsExact s
    → IsExact (call_all calls s)
unfolding call_all call conn_event
call_all-IsExact [] s small h = h
call_all-IsExact (listener answers ∷ calls) s small h =
    let (exact, later) = on_listen_event-IsExact answers s (omega arith) h in
    call_all-IsExact calls (on_listen_event s answers).0 (omega (arith, later)) exact
call_all-IsExact (conn id e ∷ calls) s small h =
    call_all-IsExact calls (conn_event id e s).0
      (omega (arith, conn_event-next_id id e s (Map.find id s.objects)))
      (acts-IsExact id e s (Map.find id s.objects) refl h)

-- Until 2^64 connections have come: whatever the listener accepts and whatever happens to the
-- connections, in whatever order, a connection is in the table of the server exactly if it was
-- accepted and is not closed.
pub call_all_lem :
    (max_frame : ℕ) (calls : List Call) (id : ℕ)
    → 1 + most calls < 2 ^ 64
    → let s = call_all calls (new_server max_frame) in
      NatSet.contains s.conns id ≡ is_open (Map.find id s.objects)
call_all_lem max_frame calls id small =
    (call_all-IsExact calls (new_server max_frame) (new_server-small calls max_frame small)
        (new_server-IsExact max_frame)).entered
      id
