-- ===== src/Handlers/Rooms.antt =====
-- src/handlers/handlers.cpp: creating, joining, leaving and listing rooms.
use chat_system_cpp_chat_ser.Base.{
  ℕ, true, false, not, ◌||◌, Option, none, some, List, [], ◌∷◌, ltb, if◌then◌else◌, nat_beq, nat_eq,
  length, is_empty, Bytes, codes, bytes_eq,
}
use chat_system_cpp_chat_ser.Db.Store.{
  Store, Room, Try, returned, raised, create_room, find_room_by_name, join_room, leave_room,
  list_rooms_for_user,
}
use chat_system_cpp_chat_ser.Chat.Rooms.{on_join, on_leave}
use chat_system_cpp_chat_ser.Protocol.Messages.{JsonLib, make_ack, get_str, get_i64}
use chat_system_cpp_chat_ser.Handlers.World.{
  World, Settings, Outcome, finished, threw, k_bad_request, k_not_found, k_internal, send, refuse,
  authorized,
}

module _ (J : JsonLib) (o : Settings) where
  -- The id of the room that was made, or of the one that has the name.
  unfoldable pub made_or_existing : Option ℕ → Bytes → Store → Try (Option ℕ)
  made_or_existing (some rid) name s = returned (some rid)
  made_or_existing none name s = elim (find_room_by_name name s) [
    | raised ↦ raised
    | returned none ↦ returned none
    | returned (some r) ↦ returned (some r.id)
  ]

  unfoldable pub enter : ℕ → ℕ → World → World
  enter rid uid w =
      let s = (join_room rid uid w.store).0 in
      record w { store = s; rooms = on_join rid uid s w.rooms }

  unfoldable pub handle_create_room_by : J.Value → Option ℕ → ℕ → World → Outcome
  unfolding refuse send made_or_existing enter
  handle_create_room_by req id uid w =
      let name = get_str J req (codes "name") [] in
      if is_empty name || ltb 128 (length name)
      then finished (refuse J id k_bad_request (codes "invalid name") w)
      else let (s, made) = create_room name o.now w.store in
        let w' = record w { store = s } in
        elim (made_or_existing made name s) [
          | raised ↦ threw w'
          | returned none ↦ finished (refuse J id k_internal (codes "create_room failed") w')
          | returned (some rid) ↦
              let d = J.set (codes "room_id") (J.integer rid) J.null in
              let d = J.set (codes "name") (J.string name) d in
              finished (send J (make_ack J id d) (enter rid uid w'))
        ]

  unfoldable pub handle_create_room : J.Value → Option ℕ → World → Outcome
  unfolding authorized handle_create_room_by
  handle_create_room req id w = authorized J req id o.now w (handle_create_room_by req id)

  -- The room that a request to join means: the id, or else the room of the name.
  unfoldable pub wanted_room : ℕ → Bytes → Store → Try ℕ
  wanted_room rid name s =
      if not (nat_beq rid 0) || is_empty name
      then returned rid
      else elim (find_room_by_name name s) [
        | raised ↦ raised
        | returned none ↦ returned rid
        | returned (some r) ↦ returned r.id
      ]

  unfoldable pub join : ℕ → ℕ → Option ℕ → World → World
  unfolding refuse send
  join rid uid id w =
      let (s, ok) = join_room rid uid w.store in
      let w' = record w { store = s } in
      elim ok [
        | false ↦ refuse J id k_internal (codes "join failed") w'
        | true ↦
            send J (make_ack J id (J.set (codes "room_id") (J.integer rid) J.null))
              (record w' { rooms = on_join rid uid s w'.rooms })
      ]

  unfoldable pub handle_join_room_by : J.Value → Option ℕ → ℕ → World → Outcome
  unfolding refuse wanted_room join
  handle_join_room_by req id uid w =
      let rid = get_i64 J req (codes "room_id") 0 in
      let name = get_str J req (codes "name") [] in
      elim (wanted_room rid name w.store) [
        | raised ↦ threw w
        | returned rid ↦
            if nat_beq rid 0
            then finished (refuse J id k_not_found (codes "room not found") w)
            else finished (join rid uid id w)
      ]

  unfoldable pub handle_join_room : J.Value → Option ℕ → World → Outcome
  unfolding authorized handle_join_room_by
  handle_join_room req id w = authorized J req id o.now w (handle_join_room_by req id)

  unfoldable pub handle_leave_room_by : J.Value → Option ℕ → ℕ → World → Outcome
  unfolding refuse send
  handle_leave_room_by req id uid w =
      let rid = get_i64 J req (codes "room_id") 0 in
      if nat_beq rid 0
      then finished (refuse J id k_bad_request (codes "room_id required") w)
      else let s = (leave_room rid uid w.store).0 in
        finished
          (send J (make_ack J id J.null) (record w { store = s; rooms = on_leave rid uid w.rooms }))

  unfoldable pub handle_leave_room : J.Value → Option ℕ → World → Outcome
  unfolding authorized handle_leave_room_by
  handle_leave_room req id w = authorized J req id o.now w (handle_leave_room_by req id)

  unfoldable pub room_entries : List Room → List J.Value
  room_entries [] = []
  room_entries (r ∷ rooms) =
      J.set (codes "created_at") (J.integer r.created_at_ms)
        (J.set (codes "name") (J.string r.name) (J.set (codes "id") (J.integer r.id) J.null))
      ∷ room_entries rooms

  unfoldable pub handle_list_rooms_by : J.Value → Option ℕ → ℕ → World → Outcome
  unfolding send room_entries
  handle_list_rooms_by req id uid w = elim (list_rooms_for_user uid w.store) [
    | raised ↦ threw w
    | returned rooms ↦
        let d = J.set (codes "rooms") (J.array (room_entries rooms)) J.null in
        finished (send J (make_ack J id d) w)
  ]

  unfoldable pub handle_list_rooms : J.Value → Option ℕ → World → Outcome
  unfolding authorized handle_list_rooms_by
  handle_list_rooms req id w = authorized J req id o.now w (handle_list_rooms_by req id)
