-- ===== src/Chat/Rooms/Race.antt =====
-- Two requests about the same user and room that overlap.
use chat_system_cpp_chat_ser.Base.{ℕ, ◌≡◌, ◌∙◌, true, false, arith, nat_beq_iff, nat_eq, bytes_eq}
use chat_system_cpp_chat_ser.Db.Store.{Store, Room, list_room_members, join_room, leave_room}
use chat_system_cpp_chat_ser.Db.Store
use chat_system_cpp_chat_ser.Db.Store.Accounts.{is_member-leave_room}
use chat_system_cpp_chat_ser.Chat.Rooms.{RoomManager, is_member, on_join, on_leave}
use chat_system_cpp_chat_ser.Chat.Rooms.Held.{held-on_join, is_member-loaded, contains-on_join}

-- A request joins the room in the store; another one leaves it in the store and in the cache; then
-- the first one goes on and joins in the cache. After this the user is no member in the store, and
-- is_member of the cache says that they are one, whatever the store has become by then.
pub join-leave_race :
    (r u : ℕ) (s later : Store) (m : RoomManager)
    → let s' = (leave_room r u (join_room r u s).0).0 in
      let m' = on_join r u s' (on_leave r u m) in
      (Store.is_member r u s' ≡ false) × ((is_member r u later m').1 ≡ true)
join-leave_race r u s later m =
    let s' = (leave_room r u (join_room r u s).0).0 in
    let m1 = on_leave r u m in
    (
      ground (
        arith,
        is_member-leave_room r u r u (join_room r u s).0,
        nat_beq_iff r r,
        nat_beq_iff u u,
      ),
      is_member-loaded r u later (on_join r u s' m1) (contains-on_join r u s' m1)
          ∙ held-on_join r u s' m1,
    )
