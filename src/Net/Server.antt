-- ===== src/Net/Server.antt =====
-- src/net/server.cpp: the listener and the connections it has accepted. A Connection object is found
-- by its id; what accept(2) answers is an argument.
pub mod Registry
use chat_system_cpp_chat_ser.Base.{
  ℕ, ◌+◌, ◌%◌, ◌^◌, Bool, true, false, Option, none, some, List, [], ◌∷◌, ◌++◌, map, if◌then◌else◌,
  nat_beq, nat_eq, length, bytes_eq,
}
use chat_system_cpp_chat_ser.Base.Map
use chat_system_cpp_chat_ser.Base.Map.{Map}
use chat_system_cpp_chat_ser.Base.NatSet
use chat_system_cpp_chat_ser.Net.Connection.{Connection, make, Effect}
use chat_system_cpp_chat_ser.Net.Connection.Closing.{Event, closes, handle, close_calls}

-- `conns` has the keys of conns_, `objects` the connections by id, and `next_id` is
-- Connection::next_id_.
pub record Server : Type 0 where
  pub listening : Bool
  pub max_frame : ℕ
  pub conns : List ℕ
  pub objects : Map ℕ Connection
  pub next_id : ℕ

unfoldable pub new_server : ℕ → Server
new_server max_frame = record {
  listening = false;
  max_frame = max_frame;
  conns = [];
  objects = [];
  next_id = 1;
}

-- What accept(2) answers: a socket, or an error.
pub data Accepted : Type 0 where
  arrives again interrupted broken : Accepted

-- The calls on the reactor and on the owner, and what a connection does, by its id.
pub data Deed : Type 0 where
  watch_listener unwatch_listener close_listener : Deed
  connected watch left : ℕ → Deed
  deed_of : ℕ → Effect → Deed

-- `valid` says whether listen_tcp gave a socket.
unfoldable pub listen : Bool → Server → Server × (List Deed × Bool)
listen false s = (record s { listening = false }, ([], false))
listen true s = (record s { listening = true }, (watch_listener ∷ [], true))

-- emplace leaves an entry that is there.
unfoldable pub register_connection : ℕ → Server → Server
register_connection id s = record s { conns = NatSet.insert id s.conns }

unfoldable pub unregister_connection : ℕ → Server → Server
unregister_connection id s = record s { conns = NatSet.erase id s.conns }

-- One socket: the connection is made, entered, announced, and handed to the reactor.
unfoldable pub accept_one : Server → Server × List Deed
unfolding register_connection
accept_one s =
    let id = s.next_id in
    let made = record s {
      objects = Map.insert id (make id s.max_frame) s.objects;
      next_id = (id + 1) % 2 ^ 64;
    } in
    (register_connection id made, connected id ∷ watch id ∷ [])

-- The loop of `on_listen_event`, with the answers that it leaves.
unfoldable pub on_listen_event : Server → List Accepted → Server × (List Deed × List Accepted)
unfolding accept_one
on_listen_event s [] = (s, ([], []))
on_listen_event s (arrives ∷ answers) =
    let (s1, deeds) = accept_one s in
    let (s2, (later, left_over)) = on_listen_event s1 answers in (s2, (deeds ++ later, left_over))
on_listen_event s (again ∷ answers) = (s, ([], answers))
on_listen_event s (interrupted ∷ answers) = (s, ([], answers))
on_listen_event s (broken ∷ answers) = (s, ([], answers))

-- What a connection has done: when it tells its owner of the close, ChatServer is told first, and
-- then the connection is taken out.
unfoldable pub has_acted : ℕ → Connection × List Effect → Server → Server × List Deed
unfolding unregister_connection
has_acted id (c, effects) s =
    let s' = record s { objects = Map.insert id c s.objects } in
    let deeds = map (deed_of id) effects in
    if nat_beq (close_calls effects) 0
    then (s', deeds)
    else (unregister_connection id s', deeds ++ left id ∷ [])

unfoldable pub acts : ℕ → Event → Server → Option Connection → Server × List Deed
unfolding has_acted
acts id e s none = (s, [])
acts id e s (some c) = has_acted id (handle e c) s

unfoldable pub conn_event : ℕ → Event → Server → Server × List Deed
unfolding acts
conn_event id e s = acts id e s (Map.find id s.objects)

-- The connections of a snapshot are closed one by one.
unfoldable pub close_each : List ℕ → Server → Server × List Deed
unfolding conn_event
close_each [] s = (s, [])
close_each (id ∷ ids) s =
    let (s1, deeds) = conn_event id closes s in
    let (s2, later) = close_each ids s1 in (s2, deeds ++ later)

unfoldable pub stop : Server → Server × List Deed
unfolding close_each
stop s =
    let first = if s.listening then unwatch_listener ∷ close_listener ∷ [] else [] in
    let (s', deeds) = close_each s.conns (record s { listening = false; conns = [] }) in
    (s', first ++ deeds)

unfoldable pub connection_count : Server → ℕ
connection_count s = length s.conns
