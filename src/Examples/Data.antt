-- ===== src/Examples/Data.antt =====
-- The in-memory store and the session manager on small data.
use chat_system_cpp_chat_ser.Base.{
  ℕ, ◌≡◌, none, some, [], ◌∷◌, if◌then◌else◌, nat_beq, nat_eq, codes, bytes_eq,
}
use chat_system_cpp_chat_ser.Db.Store.{
  Store, Room, Message, SessionRow, empty_store, drain_undelivered,
}
use chat_system_cpp_chat_ser.Db.Store.Queue.{drain-drain}
use chat_system_cpp_chat_ser.Auth.Session.{SessionManager}

abbrev pub hall : Room
hall = record { id = 1; name = codes "hall"; created_at_ms = 5 }

abbrev one_room : Store
one_room = record empty_store {
  next_room_id = 2;
  rooms = (1, hall) ∷ [];
  room_name_idx = (codes "hall", 1) ∷ [];
}

abbrev note : ℕ → Message
note id = record {
  id = id;
  sender_id = 1;
  receiver_id = some 2;
  room_id = none;
  content = codes "hey";
  status = 0;
  created_at_ms = 9;
}

abbrev talk : Store
talk = record empty_store { next_msg_id = 4; messages = note 1 ∷ note 2 ∷ note 3 ∷ [] }

drain-drain_example :
    (drain_undelivered 2 (drain_undelivered 2 talk).0).1
    ≡ (if nat_beq 2 2 then [] else (drain_undelivered 2 talk).1)
drain-drain_example = drain-drain 2 2 talk

abbrev hour : SessionManager
hour = record { ttl_seconds = 3600; cache = [] }

-- The row of a session that began at 1700, which the MySQL store keeps in whole seconds.
abbrev kept : SessionRow
kept = record { token = codes "t"; user_id = 4; last_active_ms = 1000 }
