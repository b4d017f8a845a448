-- ===== src/Db/Store/Talk.antt =====
-- The messages and the offline queue of the in-memory store.
use chat_system_cpp_chat_ser.Base.{
  ℕ, Bool, true, false, not, ◌&&◌, ◌||◌, Option, none, some, List, [], ◌∷◌, ◌++◌, reverse, leb,
  if◌then◌else◌, nat_beq, nat_eq, length, Bytes, bytes_eq,
}
use chat_system_cpp_chat_ser.Base.Map
use chat_system_cpp_chat_ser.Base.Map.{Map}
use chat_system_cpp_chat_ser.Db.Store.Records.{Message, Store, next_id, members_or_empty}

-- Messages.

unfoldable pub insert_dm : ℕ → ℕ → Bytes → ℕ → Store → Store × Option ℕ
insert_dm sender receiver content ts s = (
  record s {
    next_msg_id = next_id s.next_msg_id;
    messages =
        s.messages
        ++ record {
          id = s.next_msg_id;
          sender_id = sender;
          receiver_id = some receiver;
          room_id = none;
          content = content;
          status = 0;
          created_at_ms = ts;
        }
          ∷ [];
  },
  some s.next_msg_id,
)

unfoldable pub insert_room_msg : ℕ → ℕ → Bytes → ℕ → Store → Store × Option ℕ
insert_room_msg sender room content ts s = (
  record s {
    next_msg_id = next_id s.next_msg_id;
    messages =
        s.messages
        ++ record {
          id = s.next_msg_id;
          sender_id = sender;
          receiver_id = none;
          room_id = some room;
          content = content;
          status = 0;
          created_at_ms = ts;
        }
          ∷ [];
  },
  some s.next_msg_id,
)

abbrev pub is_some_eq : Option ℕ → ℕ → Bool
is_some_eq none n = false
is_some_eq (some m) n = nat_beq m n

-- A message between the two users, in either direction.
unfoldable pub matches_dm : ℕ → ℕ → Message → Bool
matches_dm a b m =
    (nat_beq m.sender_id a && is_some_eq m.receiver_id b)
    || (nat_beq m.sender_id b && is_some_eq m.receiver_id a)

unfoldable pub matches_room : ℕ → Message → Bool
matches_room r m = is_some_eq m.room_id r

-- `before && it->id >= before`
unfoldable pub too_new : ℕ → Message → Bool
too_new before m = not (nat_beq before 0) && leb before m.id

-- The loop of both history methods, over the messages from the newest on.
unfoldable pub history_loop : (Message → Bool) → ℕ → ℕ → List Message → List Message → List Message
history_loop test before lim [] out = out
history_loop test before lim (m ∷ ms) out = elim (leb lim (length out)) [
  | true ↦ out
  | false ↦
      history_loop test before lim ms
        (if too_new before m then out else if test m then out ++ m ∷ [] else out)
]

unfoldable pub history_dm : ℕ → ℕ → ℕ → ℕ → Store → List Message
history_dm a b before lim s =
    reverse (history_loop (matches_dm a b) before lim (reverse s.messages) [])

unfoldable pub history_room : ℕ → ℕ → ℕ → Store → List Message
history_room r before lim s =
    reverse (history_loop (matches_room r) before lim (reverse s.messages) [])

unfoldable pub set_status : ℕ → ℕ → List Message → List Message
set_status id st [] = []
set_status id st (m ∷ ms) =
    let rest = set_status id st ms in
    if nat_beq m.id id then record m { status = st } ∷ ms else m ∷ rest

unfoldable pub update_message_status : ℕ → ℕ → Store → Store
unfolding set_status
update_message_status id st s = record s { messages = set_status id st s.messages }

-- The offline queue.

unfoldable pub enqueue_undelivered : ℕ → ℕ → Store → Store
enqueue_undelivered mid uid s = record s {
  undelivered =
      Map.insert uid (members_or_empty (Map.find uid s.undelivered) ++ mid ∷ []) s.undelivered;
}

unfoldable pub find_message : ℕ → List Message → Option Message
find_message id [] = none
find_message id (m ∷ ms) = let rest = find_message id ms in if nat_beq m.id id then some m else rest

unfoldable pub find_messages : List ℕ → List Message → List Message
unfolding find_message
find_messages [] ms = []
find_messages (id ∷ ids) ms = elim (find_message id ms) [
  | none ↦ find_messages ids ms
  | some m ↦ m ∷ find_messages ids ms
]

unfoldable pub drain_undelivered : ℕ → Store → Store × List Message
unfolding find_messages
drain_undelivered uid s = elim (Map.find uid s.undelivered) [
  | none ↦ (s, [])
  | some ids ↦
      (record s { undelivered = Map.erase uid s.undelivered }, find_messages ids s.messages)
]
