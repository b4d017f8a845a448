-- ===== src/Db/Store/Validity.antt =====
-- The invariant of the in-memory store, and that every method keeps it.
mod Users
mod Rooms
pub use Users.*
pub use Rooms.*
use chat_system_cpp_chat_ser.Base.{
  ℕ, suc, ◌≡◌, refl, Option, none, some, List, [], ◌∷◌, ◌++◌, arith, nat_eq, Bytes, bytes_eq,
}
use chat_system_cpp_chat_ser.Base.Map
use chat_system_cpp_chat_ser.Base.NatSet
use chat_system_cpp_chat_ser.Base.Map.{Map}
use chat_system_cpp_chat_ser.Db.Store.{
  Store, Message, create_user, update_last_seen, insert_session, delete_session, create_room,
  join_room, leave_room, insert_dm, insert_room_msg, set_status, update_message_status,
  enqueue_undelivered, drain_undelivered, find_messages,
}

Ascends-snoc :
    (lo hi : ℕ) (ms : List Message) (m : Message)
    → Ascends lo ms hi
    → m.id ≡ hi
    → Ascends lo (ms ++ m ∷ []) (suc hi)
Ascends-snoc lo hi [] m h e = (omega arith, omega arith)
Ascends-snoc lo hi (x ∷ ms) m h e = (h.0, Ascends-snoc (suc x.id) hi ms m h.1 e)

Ascends-set_status :
    (lo hi id st : ℕ) (ms : List Message) → Ascends lo ms hi → Ascends lo (set_status id st ms) hi
unfolding set_status
Ascends-set_status lo hi id st [] h = h
Ascends-set_status lo hi id st (m ∷ ms) h =
    ground (arith, Ascends-set_status (suc m.id) hi id st ms h.1)

-- The calls that change the store.
pub data Call : Type 0 where
  creates_user : Bytes → Bytes → ℕ → Call
  updates_last_seen : ℕ → ℕ → Call
  inserts_session : Bytes → ℕ → ℕ → Call
  deletes_session : Bytes → Call
  creates_room : Bytes → ℕ → Call
  joins_room : ℕ → ℕ → Call
  leaves_room : ℕ → ℕ → Call
  inserts_dm : ℕ → ℕ → Bytes → ℕ → Call
  inserts_room_msg : ℕ → ℕ → Bytes → ℕ → Call
  updates_status : ℕ → ℕ → Call
  enqueues : ℕ → ℕ → Call
  drains : ℕ → Call

unfoldable pub call : Call → Store → Store
call (creates_user name hash now) s = (create_user name hash now s).0
call (updates_last_seen id ts) s = update_last_seen id ts s
call (inserts_session token uid ts) s = insert_session token uid ts s
call (deletes_session token) s = delete_session token s
call (creates_room name now) s = (create_room name now s).0
call (joins_room r u) s = (join_room r u s).0
call (leaves_room r u) s = (leave_room r u s).0
call (inserts_dm a b content ts) s = (insert_dm a b content ts s).0
call (inserts_room_msg a r content ts) s = (insert_room_msg a r content ts s).0
call (updates_status id st) s = update_message_status id st s
call (enqueues mid uid) s = enqueue_undelivered mid uid s
call (drains uid) s = (drain_undelivered uid s).0

-- Fields that the invariant does not name may change at will.
aside :
    (s t : Store)
    → IsValid s
    → t.users ≡ s.users
    → t.username_idx ≡ s.username_idx
    → t.next_user_id ≡ s.next_user_id
    → t.rooms ≡ s.rooms
    → t.room_name_idx ≡ s.room_name_idx
    → t.next_room_id ≡ s.next_room_id
    → t.room_members ≡ s.room_members
    → Ascends 1 t.messages t.next_msg_id
    → IsValid t
aside s t v a b c d e f g h = record {
  users = rw (a, b, c) v.users;
  rooms = rw (d, e, f) v.rooms;
  members = rw (g, d) v.members;
  messages = h;
}

drain_undelivered-IsValid : (uid : ℕ) (s : Store) → IsValid s → IsValid (drain_undelivered uid s).0
unfolding drain_undelivered
drain_undelivered-IsValid uid s v = go (Map.find uid s.undelivered)
  where
    go :
        (o : Option (List ℕ))
        → IsValid
            (elim o as (λ x. Store × List Message) [
              | none ↦ (s, [])
              | some ids ↦ (
                record s { undelivered = Map.erase uid s.undelivered },
                find_messages ids s.messages,
              )
            ]).0
    go none = v
    go (some ids) = aside s _ v refl refl refl refl refl refl refl v.messages

-- Every call of a method keeps a valid store valid, as long as the counters of ids have not
-- reached the end of their 64 bits.
pub call-IsValid : (c : Call) (s : Store) → HasRoom s → IsValid s → IsValid (call c s)
unfolding call insert_session delete_session insert_dm insert_room_msg update_message_status
    enqueue_undelivered
call-IsValid (creates_user name hash now) s big v = create_user-IsValid name hash now s big v
call-IsValid (updates_last_seen id ts) s big v = update_last_seen-IsValid id ts s v
call-IsValid (inserts_session token uid ts) s big v =
    aside s _ v refl refl refl refl refl refl refl v.messages
call-IsValid (deletes_session token) s big v =
    aside s _ v refl refl refl refl refl refl refl v.messages
call-IsValid (creates_room name now) s big v = create_room-IsValid name now s big v
call-IsValid (joins_room r u) s big v = join_room-IsValid r u s v
call-IsValid (leaves_room r u) s big v = leave_room-IsValid r u s v
call-IsValid (inserts_dm a b content ts) s big v = aside s _ v refl refl refl refl refl refl refl (
    rw (next_id_small s.next_msg_id big.msg_ids)
      (Ascends-snoc 1 s.next_msg_id s.messages _ v.messages refl))
call-IsValid (inserts_room_msg a r content ts) s big v =
    aside s _ v refl refl refl refl refl refl refl (
      rw (next_id_small s.next_msg_id big.msg_ids)
        (Ascends-snoc 1 s.next_msg_id s.messages _ v.messages refl))
call-IsValid (updates_status id st) s big v =
    aside s _ v refl refl refl refl refl refl refl
      (Ascends-set_status 1 s.next_msg_id id st s.messages v.messages)
call-IsValid (enqueues mid uid) s big v = aside s _ v refl refl refl refl refl refl refl v.messages
call-IsValid (drains uid) s big v = drain_undelivered-IsValid uid s v
