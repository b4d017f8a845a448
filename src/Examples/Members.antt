-- ===== src/Examples/Members.antt =====
-- Joins of one room by the workers.
use chat_system_cpp_chat_ser.Base.{◌≡◌, refl, true, false, some, [], ◌∷◌, nat_eq, codes, bytes_eq}
use chat_system_cpp_chat_ser.Base.Map
use chat_system_cpp_chat_ser.Base.NatSet
use chat_system_cpp_chat_ser.Db.Store.{Store, Room, empty_store, join_room, leave_room}
use chat_system_cpp_chat_ser.Db.Store
use chat_system_cpp_chat_ser.Chat.Rooms.{new_rooms, is_member, members_of, on_join, on_leave}
use chat_system_cpp_chat_ser.Chat.Rooms.Interleaved.{
  Shared, Steps, quiet, here, next, store_joins, cache_joins, asks, at_start, put, joining,
  steps-is_member,
}
use chat_system_cpp_chat_ser.Chat.Rooms.Race.{join-leave_race}

abbrev hall : Room
hall = record { id = 1; name = codes "hall"; created_at_ms = 5 }

abbrev one_room : Store
one_room = record empty_store {
  next_room_id = 2;
  rooms = (1, hall) ∷ [];
  room_name_idx = (codes "hall", 1) ∷ [];
}

hall_there : Map.find 1 one_room.rooms ≡ some hall
unfolding Map.find
hall_there = refl

-- User 4 joins; another request asks for user 5 before the cache is told.
abbrev joined_store : Shared
joined_store = record (at_start one_room) {
  store = (join_room 1 4 one_room).0;
  flight = put 1 4 joining (at_start one_room).flight;
}

abbrev asked : Shared
asked = record joined_store { rooms = (is_member 1 5 joined_store.store joined_store.rooms).0 }

abbrev joined_cache : Shared
joined_cache = record asked {
  rooms = on_join 1 4 asked.store asked.rooms;
  flight = put 1 4 quiet asked.flight;
}

the_steps : Steps (at_start one_room) joined_cache
the_steps =
    next
      (next (next here (store_joins (at_start one_room) 1 4 hall refl hall_there))
        (asks joined_store 1 5))
      (cache_joins asked 1 4 refl)

steps-is_member_example :
    ((is_member 1 4 joined_cache.store joined_cache.rooms).1
      ≡ Store.is_member 1 4 joined_cache.store)
    × (NatSet.contains (members_of 1 joined_cache.store joined_cache.rooms).1 4
        ≡ Store.is_member 1 4 joined_cache.store)
steps-is_member_example = steps-is_member one_room joined_cache 1 4 the_steps refl

join-leave_race_example :
    let s' = (leave_room 1 4 (join_room 1 4 one_room).0).0 in
    let m' = on_join 1 4 s' (on_leave 1 4 new_rooms) in
    (Store.is_member 1 4 s' ≡ false) × ((is_member 1 4 s' m').1 ≡ true)
join-leave_race_example =
    join-leave_race 1 4 one_room (leave_room 1 4 (join_room 1 4 one_room).0).0 new_rooms
