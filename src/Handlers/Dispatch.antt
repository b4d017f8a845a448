-- ===== src/Handlers/Dispatch.antt =====
-- src/handlers/handlers.cpp: the table of the handlers, and what a payload leads to.
use chat_system_cpp_chat_ser.Base.{
  ℕ, Option, none, some, List, [], ◌∷◌, ◌++◌, if◌then◌else◌, nat_eq, is_empty, Bytes, codes,
  bytes_eq,
}
use chat_system_cpp_chat_ser.Base.Map
use chat_system_cpp_chat_ser.Protocol.Messages.{JsonLib, View, whole, parse, get_str}
use chat_system_cpp_chat_ser.Handlers.World.{
  World, Crypto, Settings, Outcome, finished, threw, k_bad_request, k_internal, refuse,
}
use chat_system_cpp_chat_ser.Handlers.Accounts.{
  handle_register, handle_login, handle_logout, handle_presence, handle_ping,
}
use chat_system_cpp_chat_ser.Handlers.Rooms.{
  handle_create_room, handle_join_room, handle_leave_room, handle_list_rooms,
}
use chat_system_cpp_chat_ser.Handlers.Conversation.{
  handle_send_dm, handle_send_room, handle_history_dm, handle_history_room,
}

pub data Request : Type 0 where
  register login logout sends_dm sends_room creates_room joins_room leaves_room lists_rooms
        asks_history_dm asks_history_room asks_presence ping :
      Request

-- The table, as the names that it holds.
abbrev pub table : List (Bytes × Request)
table =
    (codes "register", register)
    ∷ (codes "login", login)
    ∷ (codes "logout", logout)
    ∷ (codes "send_dm", sends_dm)
    ∷ (codes "send_room", sends_room)
    ∷ (codes "create_room", creates_room)
    ∷ (codes "join_room", joins_room)
    ∷ (codes "leave_room", leaves_room)
    ∷ (codes "list_rooms", lists_rooms)
    ∷ (codes "history_dm", asks_history_dm)
    ∷ (codes "history_room", asks_history_room)
    ∷ (codes "presence", asks_presence)
    ∷ (codes "ping", ping)
    ∷ []

abbrev integer_of : View → Option ℕ
integer_of (whole n) = some n
integer_of _ = none

module _ (J : JsonLib) (K : Crypto) (o : Settings) where
  unfoldable pub handle : Request → J.Value → Option ℕ → World → Outcome
  handle register = handle_register J K o
  handle login = handle_login J K o
  handle logout = handle_logout J K o
  handle sends_dm = handle_send_dm J o
  handle sends_room = handle_send_room J o
  handle creates_room = handle_create_room J o
  handle joins_room = handle_join_room J o
  handle leaves_room = handle_leave_room J o
  handle lists_rooms = handle_list_rooms J o
  handle asks_history_dm = handle_history_dm J o
  handle asks_history_room = handle_history_room J o
  handle asks_presence = handle_presence J K o
  handle ping = handle_ping J K o

  -- The try block.
  unfoldable pub guarded : Option ℕ → Outcome → World
  unfolding refuse
  guarded id (finished w) = w
  guarded id (threw w) = refuse J id k_internal (codes "internal error") w

  unfoldable pub request_id : J.Value → Option ℕ
  request_id req = elim (J.field (codes "id") req) [ none ↦ none | some v ↦ integer_of (J.view v) ]

  unfoldable pub dispatch : Bytes → World → World
  unfolding refuse guarded handle request_id
  dispatch payload w = elim (parse J payload) [
    | none ↦ refuse J none k_bad_request (codes "malformed JSON") w
    | some req ↦
        let id = request_id req in
        let type = get_str J req (codes "type") [] in
        if is_empty type
        then refuse J id k_bad_request (codes "missing 'type'") w
        else elim (Map.find type table) [
          | none ↦ refuse J id k_bad_request (codes "unknown type: " ++ type) w
          | some r ↦ guarded id (handle r req id w)
        ]
  ]
