-- ===== src/Handlers/Invariant/Dispatch.antt =====
-- Whatever a connection hands over, the shared state stays in order.
use chat_system_cpp_chat_ser.Base.{
  ℕ, suc, Option, none, [], nat_beq, nat_eq, is_empty, Bytes, codes, bytes_eq,
}
use chat_system_cpp_chat_ser.Base.Map
use chat_system_cpp_chat_ser.Chat.Presence.{Presence}
use chat_system_cpp_chat_ser.Protocol.Messages.{JsonLib, parse, get_str}
use chat_system_cpp_chat_ser.Handlers.World.{
  World, Crypto, Settings, Outcome, finished, threw, on_close,
}
use chat_system_cpp_chat_ser.Handlers.Accounts.{handle_presence, handle_presence_by}
use chat_system_cpp_chat_ser.Handlers.Rooms.{
  handle_create_room, handle_create_room_by, handle_join_room, handle_join_room_by,
  handle_leave_room, handle_leave_room_by, handle_list_rooms, handle_list_rooms_by,
}
use chat_system_cpp_chat_ser.Handlers.Conversation.{
  handle_send_dm, handle_send_dm_by, handle_send_room, handle_send_room_by, handle_history_dm,
  handle_history_dm_by, handle_history_room, handle_history_room_by,
}
use chat_system_cpp_chat_ser.Handlers.Dispatch.{
  Request, register, login, logout, sends_dm, sends_room, creates_room, joins_room, leaves_room,
  lists_rooms, asks_history_dm, asks_history_room, asks_presence, ping, handle, dispatch, guarded,
  request_id, table,
}
use chat_system_cpp_chat_ser.Handlers.Invariant.{Asker, IsOrderly, Sound}
use chat_system_cpp_chat_ser.Handlers.Invariant.Bindings.{unbind-IsOrderly, refuse-Sound}
use chat_system_cpp_chat_ser.Handlers.Invariant.Following.{
  Keeps, returning, throwing, fewer, branch, branch_option, authorized-Keeps,
}
use chat_system_cpp_chat_ser.Handlers.Invariant.Accounts.{
  handle_register-Keeps, handle_login-Keeps, handle_logout-Keeps, handle_presence_by-Keeps,
  handle_ping-Keeps,
}
use chat_system_cpp_chat_ser.Handlers.Invariant.Rooms.{
  handle_create_room_by-Keeps, handle_join_room_by-Keeps, handle_leave_room_by-Keeps,
  handle_list_rooms_by-Keeps,
}
use chat_system_cpp_chat_ser.Handlers.Invariant.Conversation.{
  handle_send_dm_by-Keeps, handle_send_room_by-Keeps, handle_history_dm_by-Keeps,
  handle_history_room_by-Keeps,
}

module _ {c : Asker} {p : Presence} (J : JsonLib) (K : Crypto) (o : Settings) {k : ℕ}
    {w : World} where
  handle-Keeps :
      (r : Request) (req : J.Value) (id : Option ℕ)
      → Sound c p (suc k) w
      → Keeps c p k (handle J K o r req id w)
  unfolding handle handle_presence handle_create_room handle_join_room handle_leave_room
      handle_list_rooms handle_send_dm handle_send_room handle_history_dm handle_history_room
  handle-Keeps register req id g = handle_register-Keeps J K o req id g
  handle-Keeps login req id g = handle_login-Keeps J K o req id g
  handle-Keeps logout req id g = handle_logout-Keeps J K o req id g
  handle-Keeps ping req id g = handle_ping-Keeps J K o req id g
  handle-Keeps sends_dm req id g =
      authorized-Keeps J K o req id (handle_send_dm_by J o req id) g
        (λ uid w' h. handle_send_dm_by-Keeps J o req id uid h)
  handle-Keeps sends_room req id g =
      authorized-Keeps J K o req id (handle_send_room_by J o req id) g
        (λ uid w' h. handle_send_room_by-Keeps J o req id uid h)
  handle-Keeps creates_room req id g =
      authorized-Keeps J K o req id (handle_create_room_by J o req id) g
        (λ uid w' h. handle_create_room_by-Keeps J o req id uid h)
  handle-Keeps joins_room req id g =
      authorized-Keeps J K o req id (handle_join_room_by J o req id) g
        (λ uid w' h. handle_join_room_by-Keeps J o req id uid h)
  handle-Keeps leaves_room req id g =
      authorized-Keeps J K o req id (handle_leave_room_by J o req id) g
        (λ uid w' h. handle_leave_room_by-Keeps J o req id uid h)
  handle-Keeps lists_rooms req id g =
      authorized-Keeps J K o req id (handle_list_rooms_by J o req id) g
        (λ uid w' h. handle_list_rooms_by-Keeps J o req id uid h)
  handle-Keeps asks_history_dm req id g =
      authorized-Keeps J K o req id (handle_history_dm_by J o req id) g
        (λ uid w' h. handle_history_dm_by-Keeps J o req id uid h)
  handle-Keeps asks_history_room req id g =
      authorized-Keeps J K o req id (handle_history_room_by J o req id) g
        (λ uid w' h. handle_history_room_by-Keeps J o req id uid h)
  handle-Keeps asks_presence req id g =
      authorized-Keeps J K o req id (handle_presence_by J K o req id) g
        (λ uid w' h. handle_presence_by-Keeps J K o req id uid h)

module _ {c : Asker} {p : Presence} (J : JsonLib) (K : Crypto) (o : Settings) {k : ℕ} where
  guarded-Sound :
      (id : Option ℕ) (out : Outcome) → Keeps c p k out → Sound c p k (guarded J K o id out)
  unfolding guarded
  guarded-Sound id (finished _) (returning g) = g
  guarded-Sound id (threw _) (throwing g) = refuse-Sound J g id _ _

module _ {c : Asker} {p : Presence} (J : JsonLib) (K : Crypto) (o : Settings) {k : ℕ}
    {w : World} where
  pub dispatch-Sound :
      (payload : Bytes) → Sound c p (suc k) w → Sound c p k (dispatch J K o payload w)
  unfolding dispatch
  dispatch-Sound payload g =
      branch_option (Sound c p k) (parse J payload) (λ e. refuse-Sound J (fewer g) none _ _)
        (λ req e.
          let id = request_id J K o req in
          let type = get_str J req (codes "type") [] in
          branch (Sound c p k) (is_empty type) (λ e. refuse-Sound J (fewer g) id _ _)
            (λ e.
              branch_option (Sound c p k) (Map.find type table)
                (λ e. refuse-Sound J (fewer g) id _ _)
                (λ r e. guarded-Sound J K o id _ (handle-Keeps J K o r req id g))))

module _ {c : Asker} {p : Presence} (J : JsonLib) {k : ℕ} {w : World} where
  pub on_close-IsOrderly : (now : ℕ) → IsOrderly c p k w → IsOrderly c p k (on_close J now w)
  unfolding on_close
  on_close-IsOrderly now g =
      branch (IsOrderly c p k) (nat_beq w.conn.user_id 0) (λ e. g)
        (λ e. unbind-IsOrderly J w.conn.user_id now g)
