-- ===== src/Chat/Router.antt =====
-- src/chat/message_router.cpp: a new message is stored, and sent to connections or queued.
-- The time of the call is an argument; a call of send_frame is an entry of the list of sends.
pub mod Delivery
pub mod FanOut
use chat_system_cpp_chat_ser.Base.{
  ℕ, true, false, none, some, List, [], ◌∷◌, ◌++◌, if◌then◌else◌, nat_beq, nat_eq, is_empty, Bytes,
  bytes_eq,
}
use chat_system_cpp_chat_ser.Db.Store.{
  Store, Message, insert_dm, insert_room_msg, enqueue_undelivered, update_message_status,
  drain_undelivered,
}
use chat_system_cpp_chat_ser.Chat.Presence.{Presence, connections_of}
use chat_system_cpp_chat_ser.Chat.Rooms.{RoomManager, is_member, members_of}
use chat_system_cpp_chat_ser.Protocol.Messages.{JsonLib, make_event_message, serialize}

-- A call of send_frame: the connection and the payload.
abbrev pub Send : Type 0
Send = ℕ × Bytes

-- for (auto& c : conns) c->send_frame(event)
unfoldable pub send_all : List ℕ → Bytes → List Send
send_all [] event = []
send_all (c ∷ conns) event = (c, event) ∷ send_all conns event

module _ (J : JsonLib) where
  unfoldable pub event_of : Message → Bytes
  event_of m =
      serialize J
        (make_event_message J m.id m.sender_id m.receiver_id m.room_id m.content m.created_at_ms)

  -- The delivery of a stored message to the receiver's connections.
  unfoldable pub deliver_dm : ℕ → ℕ → Bytes → List ℕ → Store → Store × List Send
  deliver_dm id receiver event [] s = (enqueue_undelivered id receiver s, [])
  deliver_dm id receiver event (c ∷ conns) s =
      (update_message_status id 1 s, send_all (c ∷ conns) event)

  unfoldable pub send_dm : ℕ → ℕ → Bytes → ℕ → Presence → Store → Store × (List Send × ℕ)
  unfolding deliver_dm
  send_dm sender receiver content ts p s =
      let (s1, id) = insert_dm sender receiver content ts s in
      elim id [
        | none ↦ (s1, ([], 0))
        | some mid ↦
            let event =
              serialize J (make_event_message J mid sender (some receiver) none content ts) in
            let (s2, sends) = deliver_dm mid receiver event (connections_of receiver p) s1 in
            (s2, (sends ++ send_all (connections_of sender p) event, mid))
      ]

  -- The loop over the members.
  unfoldable pub fan_out : ℕ → ℕ → Bytes → Presence → List ℕ → Store → Store × List Send
  fan_out id sender event p [] s = (s, [])
  fan_out id sender event p (uid ∷ members) s = elim (is_empty (connections_of uid p)) [
    | true ↦
        fan_out id sender event p members
          (if nat_beq uid sender then s else enqueue_undelivered id uid s)
    | false ↦
        let (s', sends) = fan_out id sender event p members s in
        (s', send_all (connections_of uid p) event ++ sends)
  ]

  unfoldable pub send_room :
      ℕ → ℕ → Bytes → ℕ → Presence → RoomManager → Store → Store × (RoomManager × (List Send × ℕ))
  unfolding fan_out
  send_room sender room content ts p m s =
      let (m1, inside) = is_member room sender s m in
      elim inside [
        | false ↦ (s, (m1, ([], 0)))
        | true ↦
            let (s1, id) = insert_room_msg sender room content ts s in
            elim id [
              | none ↦ (s1, (m1, ([], 0)))
              | some mid ↦
                  let event =
                    serialize J (make_event_message J mid sender none (some room) content ts) in
                  let (m2, members) = members_of room s1 m1 in
                  let (s2, sends) = fan_out mid sender event p members s1 in
                  (s2, (m2, (sends, mid)))
            ]
      ]

  unfoldable pub replay_sends : List ℕ → List Message → List Send
  replay_sends conns [] = []
  replay_sends conns (m ∷ pending) = send_all conns (event_of m) ++ replay_sends conns pending

  -- The early returns, where nothing is pending or nobody is there, and the loop.
  unfoldable pub replay : List ℕ → List Message → List Send
  unfolding replay_sends
  replay conns [] = []
  replay [] (m ∷ pending) = []
  replay (c ∷ conns) (m ∷ pending) = replay_sends (c ∷ conns) (m ∷ pending)

  unfoldable pub replay_offline : ℕ → Presence → Store → Store × List Send
  unfolding replay
  replay_offline uid p s =
      let (s', pending) = drain_undelivered uid s in (s', replay (connections_of uid p) pending)
