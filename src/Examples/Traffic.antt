-- ===== src/Examples/Traffic.antt =====
-- Presence, room caches and the router on small data.
use chat_system_cpp_chat_ser.Base.{
  ℕ, ◌≡◌, refl, some, [], ◌∷◌, ◌++◌, map, arith, nat_eq, flatten, Bytes, codes, bytes_eq,
}
use chat_system_cpp_chat_ser.Base.Map
use chat_system_cpp_chat_ser.Base.Map.{Map}
use chat_system_cpp_chat_ser.Db.Store.{Store, Room, empty_store}
use chat_system_cpp_chat_ser.Chat.Presence.{Presence, connections_of}
use chat_system_cpp_chat_ser.Chat.Presence.Laws.{IsValid}
use chat_system_cpp_chat_ser.Chat.Router.{send_all, fan_out}
use chat_system_cpp_chat_ser.Chat.Router.Delivery.{queue, dm_row}
use chat_system_cpp_chat_ser.Chat.Router.FanOut.{queued, fan_out_lem}
use chat_system_cpp_chat_ser.Protocol.Messages.{JsonLib, text}

-- A JSON library that writes keys and values one after the other.
abbrev pub plain : JsonLib
plain = record {
  Value = Bytes;
  null = [];
  string = λ b. b;
  integer = λ n. n ∷ [];
  boolean = λ b. [];
  set = λ k v j. j ++ k ++ v;
  dump = λ j. j;
  array = λ vs. flatten vs;
  read = λ b. some b;
  field = λ k j. some j;
  view = λ v. text v;
}

abbrev pub some_online : Presence
some_online = record { map = (2, 9 ∷ 8 ∷ []) ∷ [] }

pub some_online-IsValid : IsValid some_online
unfolding Map.find
some_online-IsValid = record { slots = λ uid slot h. ground arith }

two_connections : connections_of 2 some_online ≡ 9 ∷ 8 ∷ []
unfolding connections_of Map.find
two_connections = refl

abbrev hall : Room
hall = record { id = 1; name = codes "hall"; created_at_ms = 5 }

abbrev one_room : Store
one_room = record empty_store {
  next_room_id = 2;
  rooms = (1, hall) ∷ [];
  room_name_idx = (codes "hall", 1) ∷ [];
}

hall_there : Map.find 1 one_room.rooms ≡ some hall
unfolding Map.find
hall_there = refl

abbrev waiting : Store
waiting = record empty_store {
  next_msg_id = 2;
  messages = dm_row 1 1 2 (codes "hi") 7 ∷ [];
  undelivered = (2, 1 ∷ []) ∷ [];
}

fan_out_lem_example :
    ((fan_out plain 4 1 (codes "e") some_online (1 ∷ 2 ∷ 3 ∷ []) empty_store).1
      ≡ flatten
          (map (λ uid. send_all (connections_of uid some_online) (codes "e")) (1 ∷ 2 ∷ 3 ∷ [])))
    × ((u : ℕ)
        → queue u (fan_out plain 4 1 (codes "e") some_online (1 ∷ 2 ∷ 3 ∷ []) empty_store).0
          ≡ queue u empty_store ++ queued plain 4 1 (codes "e") some_online u (1 ∷ 2 ∷ 3 ∷ []))
fan_out_lem_example = fan_out_lem plain 4 1 (codes "e") some_online (1 ∷ 2 ∷ 3 ∷ []) empty_store
