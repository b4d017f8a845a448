-- ===== src/Chat/Server.antt =====
-- src/chat/chat_server.cpp: what the reactor and the pool call, for all connections of the server.
-- Here a handler runs to its end before the next event; it may run after its connection has closed.
-- The workers of the pool may also interleave the calls of two handlers: Chat/Rooms/Interleaved takes
-- those on rooms one by one.
pub mod Order
pub mod Delivery
use chat_system_cpp_chat_ser.Base.{
  ℕ, ◌+◌, ◌%◌, ◌^◌, none, some, List, [], ◌∷◌, nat_eq, Bytes, bytes_eq,
}
use chat_system_cpp_chat_ser.Base.Map
use chat_system_cpp_chat_ser.Base.Map.{Map}
use chat_system_cpp_chat_ser.Base.NatSet
use chat_system_cpp_chat_ser.Db.Store.{Store, empty_store}
use chat_system_cpp_chat_ser.Chat.Presence.{Presence, nobody}
use chat_system_cpp_chat_ser.Chat.Rooms.{RoomManager, new_rooms}
use chat_system_cpp_chat_ser.Chat.Router.{Send}
use chat_system_cpp_chat_ser.Auth.Session.{SessionManager, new_manager, warm}
use chat_system_cpp_chat_ser.Net.Connection.{Connection, make}
use chat_system_cpp_chat_ser.Net.Connection
use chat_system_cpp_chat_ser.Protocol.Messages.{JsonLib}
use chat_system_cpp_chat_ser.Handlers.World.{World, Crypto, Settings, on_close}
use chat_system_cpp_chat_ser.Handlers.World
use chat_system_cpp_chat_ser.Handlers.Dispatch.{dispatch}

-- The state of ChatServer, the connections that were made, those that have closed, the id of the
-- next one, and the calls of send_frame so far, each of
-- which the connection may drop.
pub record System : Type 0 where
  pub store : Store
  pub sessions : SessionManager
  pub presence : Presence
  pub rooms : RoomManager
  pub conns : Map ℕ Connection
  pub gone : List ℕ
  pub next_conn : ℕ
  pub sent : List Send

-- A connection is accepted, a payload of it is handled by a worker, it closes. What is random and
-- the wall clock are those of the event.
pub data Event : Type 0 where
  connects : ℕ → Event
  hands : ℕ → Bytes → Crypto → Settings → Event
  closes : ℕ → ℕ → Event

-- The members that ChatServer::init makes, with the in-memory store.
unfoldable pub start : ℕ → ℕ → System
start ttl now = record {
  store = empty_store;
  sessions = warm now empty_store (new_manager ttl);
  presence = nobody;
  rooms = new_rooms;
  conns = [];
  gone = [];
  next_conn = 1;
  sent = [];
}

-- What a handler sees.
abbrev pub seen_by : Connection → System → World
seen_by c s = record {
  store = s.store;
  sessions = s.sessions;
  presence = s.presence;
  rooms = s.rooms;
  conn = c;
  sent = s.sent;
}

-- What a handler leaves behind.
abbrev pub left_by : ℕ → World → System → System
left_by id w s = record s {
  store = w.store;
  sessions = w.sessions;
  presence = w.presence;
  rooms = w.rooms;
  conns = Map.insert id w.conn s.conns;
  sent = w.sent;
}

module _ (J : JsonLib) where
  -- Net's Server::on_acceptable makes the connection; ChatServer::on_connect only logs.
  unfoldable pub on_connect : ℕ → System → System
  on_connect max_frame s = record s {
    conns = Map.insert s.next_conn (make s.next_conn max_frame) s.conns;
    next_conn = (s.next_conn + 1) % 2 ^ 64;
  }

  -- The job that on_frame submits.
  unfoldable pub on_frame : ℕ → Bytes → Crypto → Settings → System → System
  on_frame id payload K o s = elim (Map.find id s.conns) [
    | none ↦ s
    | some c ↦ left_by id (dispatch J K o payload (seen_by c s)) s
  ]

  unfoldable pub on_closed : ℕ → ℕ → System → System
  on_closed id now s = elim (Map.find id s.conns) [
    | none ↦ s
    | some c ↦
        let s' = left_by id (on_close J now (seen_by c s)) s in
        record s' { gone = NatSet.insert id s'.gone }
  ]

  unfoldable pub step : Event → System → System
  unfolding on_connect on_frame on_closed
  step (connects max_frame) = on_connect max_frame
  step (hands id payload K o) = on_frame id payload K o
  step (closes id now) = on_closed id now

  unfoldable pub run : List Event → System → System
  unfolding step
  run [] s = s
  run (e ∷ es) s = run es (step e s)
