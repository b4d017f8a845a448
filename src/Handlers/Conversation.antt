-- ===== src/Handlers/Conversation.antt =====
-- src/handlers/handlers.cpp: sending messages, and their history.
use chat_system_cpp_chat_ser.Base.{
  ℕ, ◌%◌, ◌^◌, true, false, ◌||◌, Option, none, some, List, [], ◌∷◌, ◌++◌, ltb, if◌then◌else◌,
  nat_beq, nat_eq, length, is_empty, Bytes, codes, bytes_eq,
}
use chat_system_cpp_chat_ser.Db.Store.{Message, find_user_by_id, history_dm, history_room}
use chat_system_cpp_chat_ser.Chat.Rooms.{is_member}
use chat_system_cpp_chat_ser.Chat.Router.{send_dm, send_room}
use chat_system_cpp_chat_ser.Protocol.Messages.{JsonLib, make_ack, get_str, get_i64, set_some}
use chat_system_cpp_chat_ser.Handlers.World.{
  World, Settings, Outcome, finished, k_bad_request, k_unauthorized, k_not_found, k_internal, send,
  refuse, authorized,
}

module _ (J : JsonLib) (o : Settings) where
  -- json d; d["msg_id"] = msg_id; d["timestamp"] = now; send(c, make_ack(id, d))
  unfoldable pub confirm : Option ℕ → ℕ → World → World
  unfolding send
  confirm id msg_id w =
      send J
        (make_ack J id (
          J.set (codes "timestamp") (J.integer o.now)
            (J.set (codes "msg_id") (J.integer msg_id) J.null)))
        w

  unfoldable pub handle_send_dm_by : J.Value → Option ℕ → ℕ → World → Outcome
  unfolding refuse confirm
  handle_send_dm_by req id sender w =
      let receiver = get_i64 J req (codes "receiver_id") 0 in
      let content = get_str J req (codes "content") [] in
      if nat_beq receiver 0 || is_empty content
      then finished (refuse J id k_bad_request (codes "receiver_id and content required") w)
      else if ltb o.max_message (length content)
      then finished (refuse J id k_bad_request (codes "content too large") w)
      else elim (find_user_by_id receiver w.store) [
        | none ↦ finished (refuse J id k_not_found (codes "receiver does not exist") w)
        | some user ↦
            let (s, (sends, msg_id)) = send_dm J sender receiver content o.now w.presence w.store in
            let w' = record w { store = s; sent = w.sent ++ sends } in
            if nat_beq msg_id 0
            then finished (refuse J id k_internal (codes "failed to persist message") w')
            else finished (confirm id msg_id w')
      ]

  unfoldable pub handle_send_dm : J.Value → Option ℕ → World → Outcome
  unfolding authorized handle_send_dm_by
  handle_send_dm req id w = authorized J req id o.now w (handle_send_dm_by req id)

  unfoldable pub handle_send_room_by : J.Value → Option ℕ → ℕ → World → Outcome
  unfolding refuse confirm
  handle_send_room_by req id sender w =
      let room = get_i64 J req (codes "room_id") 0 in
      let content = get_str J req (codes "content") [] in
      if nat_beq room 0 || is_empty content
      then finished (refuse J id k_bad_request (codes "room_id and content required") w)
      else if ltb o.max_message (length content)
      then finished (refuse J id k_bad_request (codes "content too large") w)
      else let (s, (m, (sends, msg_id))) =
          send_room J sender room content o.now w.presence w.rooms w.store in
        let w' = record w { store = s; rooms = m; sent = w.sent ++ sends } in
        if nat_beq msg_id 0
        then finished (refuse J id k_bad_request (codes "not a member of room or room missing") w')
        else finished (confirm id msg_id w')

  unfoldable pub handle_send_room : J.Value → Option ℕ → World → Outcome
  unfolding authorized handle_send_room_by
  handle_send_room req id w = authorized J req id o.now w (handle_send_room_by req id)

  -- An entry of a history: `key` is receiver_id or room_id.
  unfoldable pub entry : Bytes → Option ℕ → Message → J.Value
  entry key to m =
      let e = J.set (codes "id") (J.integer m.id) J.null in
      let e = J.set (codes "sender_id") (J.integer m.sender_id) e in
      let e = set_some J key to e in
      let e = J.set (codes "content") (J.string m.content) e in
      let e = J.set (codes "status") (J.integer m.status) e in
      J.set (codes "timestamp") (J.integer m.created_at_ms) e

  unfoldable pub dm_entries : List Message → List J.Value
  unfolding entry
  dm_entries [] = []
  dm_entries (m ∷ msgs) = entry (codes "receiver_id") m.receiver_id m ∷ dm_entries msgs

  unfoldable pub room_entries : List Message → List J.Value
  unfolding entry
  room_entries [] = []
  room_entries (m ∷ msgs) = entry (codes "room_id") m.room_id m ∷ room_entries msgs

  unfoldable pub handle_history_dm_by : J.Value → Option ℕ → ℕ → World → Outcome
  unfolding refuse send dm_entries
  handle_history_dm_by req id uid w =
      let who = get_i64 J req (codes "user_id") 0 in
      let before = get_i64 J req (codes "before_id") 0 in
      let limit = get_i64 J req (codes "limit") 50 % 2 ^ 32 in
      if nat_beq who 0
      then finished (refuse J id k_bad_request (codes "user_id required") w)
      else let msgs = history_dm uid who before limit w.store in
        let d = J.set (codes "messages") (J.array (dm_entries msgs)) J.null in
        finished (send J (make_ack J id d) w)

  unfoldable pub handle_history_dm : J.Value → Option ℕ → World → Outcome
  unfolding authorized handle_history_dm_by
  handle_history_dm req id w = authorized J req id o.now w (handle_history_dm_by req id)

  unfoldable pub handle_history_room_by : J.Value → Option ℕ → ℕ → World → Outcome
  unfolding refuse send room_entries
  handle_history_room_by req id uid w =
      let room = get_i64 J req (codes "room_id") 0 in
      let before = get_i64 J req (codes "before_id") 0 in
      let limit = get_i64 J req (codes "limit") 50 % 2 ^ 32 in
      if nat_beq room 0
      then finished (refuse J id k_bad_request (codes "room_id required") w)
      else let (m, inside) = is_member room uid w.store w.rooms in
        let w' = record w { rooms = m } in
        elim inside [
          | false ↦ finished (refuse J id k_unauthorized (codes "not a member of this room") w')
          | true ↦
              let msgs = history_room room before limit w'.store in
              let d = J.set (codes "messages") (J.array (room_entries msgs)) J.null in
              finished (send J (make_ack J id d) w')
        ]

  unfoldable pub handle_history_room : J.Value → Option ℕ → World → Outcome
  unfolding authorized handle_history_room_by
  handle_history_room req id w = authorized J req id o.now w (handle_history_room_by req id)
