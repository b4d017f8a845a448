-- ===== src/Db/Store/Counters.antt =====
-- How the methods of the in-memory store use up its three counters of ids.
use chat_system_cpp_chat_ser.Base.{
  ℕ, suc, ◌+◌, ◌^◌, ◌≤◌, ◌<◌, ◌≡◌, refl, Bool, true, false, arith, nat_eq, bytes_eq,
}
use chat_system_cpp_chat_ser.Db.Store.{
  Store, create_user, update_last_seen, create_room, join_room, leave_room, insert_dm,
  insert_room_msg, update_message_status, enqueue_undelivered, drain_undelivered, insert_session,
  delete_session,
}
use chat_system_cpp_chat_ser.Db.Store.Validity.{
  HasRoom, Call, creates_user, updates_last_seen, inserts_session, deletes_session, creates_room,
  joins_room, leaves_room, inserts_dm, inserts_room_msg, updates_status, enqueues, drains, call,
  next_id_small,
}

-- `k` more ids can be drawn from each counter, and one more.
pub record Leaves (k : ℕ) (s : Store) : Type 0 where
  pub users : s.next_user_id + suc k < 2 ^ 64
  pub rooms : s.next_room_id + suc k < 2 ^ 64
  pub messages : s.next_msg_id + suc k < 2 ^ 64

pub HasRoom-Leaves : (k : ℕ) (s : Store) → Leaves k s → HasRoom s
HasRoom-Leaves k s h = record {
  user_ids = omega (arith, h.users);
  room_ids = omega (arith, h.rooms);
  msg_ids = omega (arith, h.messages);
}

-- The calls that draw no id.
abbrev pub draws_none : Call → Bool
draws_none (creates_user name hash now) = false
draws_none (creates_room name now) = false
draws_none (inserts_dm a b content ts) = false
draws_none (inserts_room_msg a r content ts) = false
draws_none _ = true

-- The calls that leave every membership as it is.
abbrev pub keeps_members : Call → Bool
keeps_members (joins_room r u) = false
keeps_members (leaves_room r u) = false
keeps_members _ = true

-- A call that draws no id leaves the counters as they are.
call-counters :
    (c : Call) (s : Store)
    → draws_none c ≡ true
    → ((call c s).next_user_id ≡ s.next_user_id)
      × ((call c s).next_room_id ≡ s.next_room_id)
      × ((call c s).next_msg_id ≡ s.next_msg_id)
unfolding call update_last_seen insert_session delete_session join_room leave_room
    update_message_status enqueue_undelivered drain_undelivered
call-counters (updates_last_seen id ts) s d = (ground arith, ground arith, ground arith)
call-counters (joins_room r u) s d = (ground arith, ground arith, ground arith)
call-counters (leaves_room r u) s d = (ground arith, ground arith, ground arith)
call-counters (drains uid) s d = (ground arith, ground arith, ground arith)
call-counters (inserts_session token uid ts) s d = (refl, refl, refl)
call-counters (deletes_session token) s d = (refl, refl, refl)
call-counters (updates_status id st) s d = (refl, refl, refl)
call-counters (enqueues mid uid) s d = (refl, refl, refl)
call-counters (creates_user name hash now) s d = cc
call-counters (creates_room name now) s d = cc
call-counters (inserts_dm a b content ts) s d = cc
call-counters (inserts_room_msg a r content ts) s d = cc

drawn_none :
    (c : Call) (s : Store)
    → draws_none c ≡ true
    → ((call c s).next_user_id ≤ suc s.next_user_id)
      × ((call c s).next_room_id ≤ suc s.next_room_id)
      × ((call c s).next_msg_id ≤ suc s.next_msg_id)
drawn_none c s d =
    let same = call-counters c s d in
    (omega (arith, same.0), omega (arith, same.1), omega (arith, same.2))

-- Any call draws one id at most from each counter.
call-draws :
    (c : Call) (s : Store)
    → HasRoom s
    → ((call c s).next_user_id ≤ suc s.next_user_id)
      × ((call c s).next_room_id ≤ suc s.next_room_id)
      × ((call c s).next_msg_id ≤ suc s.next_msg_id)
unfolding call create_user create_room insert_dm insert_room_msg
call-draws (creates_user name hash now) s big =
    (ground (arith, next_id_small s.next_user_id big.user_ids), ground arith, ground arith)
call-draws (creates_room name now) s big =
    (ground arith, ground (arith, next_id_small s.next_room_id big.room_ids), ground arith)
call-draws (inserts_dm a b content ts) s big =
    (omega arith, omega arith, omega (arith, next_id_small s.next_msg_id big.msg_ids))
call-draws (inserts_room_msg a r content ts) s big =
    (omega arith, omega arith, omega (arith, next_id_small s.next_msg_id big.msg_ids))
call-draws (updates_last_seen id ts) s big = drawn_none (updates_last_seen id ts) s refl
call-draws (inserts_session token uid ts) s big = drawn_none (inserts_session token uid ts) s refl
call-draws (deletes_session token) s big = drawn_none (deletes_session token) s refl
call-draws (joins_room r u) s big = drawn_none (joins_room r u) s refl
call-draws (leaves_room r u) s big = drawn_none (leaves_room r u) s refl
call-draws (updates_status id st) s big = drawn_none (updates_status id st) s refl
call-draws (enqueues mid uid) s big = drawn_none (enqueues mid uid) s refl
call-draws (drains uid) s big = drawn_none (drains uid) s refl

pub call-Leaves_none :
    (c : Call) (k : ℕ) (s : Store) → draws_none c ≡ true → Leaves k s → Leaves k (call c s)
call-Leaves_none c k s d h =
    let same = call-counters c s d in
    record { users = rw same.0 h.users; rooms = rw same.1 h.rooms; messages = rw same.2 h.messages }

pub call-Leaves : (c : Call) (k : ℕ) (s : Store) → Leaves (suc k) s → Leaves k (call c s)
call-Leaves c k s h =
    let draw = call-draws c s (HasRoom-Leaves (suc k) s h) in
    record {
      users = omega (arith, h.users, draw.0);
      rooms = omega (arith, h.rooms, draw.1);
      messages = omega (arith, h.messages, draw.2);
    }

-- A call that is not about members leaves every membership as it is.
pub call-room_members :
    (c : Call) (s : Store) → keeps_members c ≡ true → (call c s).room_members ≡ s.room_members
unfolding call create_user create_room update_last_seen insert_session delete_session insert_dm
    insert_room_msg update_message_status enqueue_undelivered drain_undelivered
call-room_members (creates_user name hash now) s d = ground arith
call-room_members (creates_room name now) s d = ground arith
call-room_members (updates_last_seen id ts) s d = ground arith
call-room_members (drains uid) s d = ground arith
call-room_members (joins_room r u) s d = cc
call-room_members (leaves_room r u) s d = cc
call-room_members (inserts_session token uid ts) s d = refl
call-room_members (deletes_session token) s d = refl
call-room_members (inserts_dm a b content ts) s d = refl
call-room_members (inserts_room_msg a r content ts) s d = refl
call-room_members (updates_status id st) s d = refl
call-room_members (enqueues mid uid) s d = refl

pub fewer_left : (k : ℕ) (s : Store) → Leaves (suc k) s → Leaves k s
fewer_left k s h = record {
  users = omega (arith, h.users);
  rooms = omega (arith, h.rooms);
  messages = omega (arith, h.messages);
}
