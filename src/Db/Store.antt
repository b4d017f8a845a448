-- ===== src/Db/Store.antt =====
-- include/db/repositories.h and the in-memory store of src/db/repositories.cpp (the build with
-- CHAT_NO_MYSQL). A method takes the store and returns it with the result; the wall clock is an
-- argument. Each method holds the store's mutex throughout, so that a run of the program is a
-- sequence of such calls.
mod Records
mod Talk
pub mod Accounts
pub mod Validity
pub mod Queries
pub mod Queue
pub mod Counters
pub mod Found
pub mod Pending
unfoldable pub use Records.*
unfoldable pub use Talk.*
use chat_system_cpp_chat_ser.Base.{
  ℕ, Bool, true, false, not, Option, none, some, List, [], ◌∷◌, if◌then◌else◌, ◌==◌, nat_eq, select,
  Bytes, bytes_eq,
}
use chat_system_cpp_chat_ser.Base.Map
use chat_system_cpp_chat_ser.Base.Map.{Map}
use chat_system_cpp_chat_ser.Base.NatSet

-- Users.

unfoldable pub find_user_by_id : ℕ → Store → Option User
find_user_by_id id s = Map.find id s.users

unfoldable pub find_user_by_username : Bytes → Store → Try (Option User)
find_user_by_username name s = elim (Map.find name s.username_idx) [
  | none ↦ returned none
  | some id ↦ elim (Map.find id s.users) [ none ↦ raised | some u ↦ returned (some u) ]
]

unfoldable pub create_user : Bytes → Bytes → ℕ → Store → Store × Option ℕ
create_user name hash now s = elim (Map.find name s.username_idx) [
  | some taken ↦ (s, none)
  | none ↦ (
    record s {
      next_user_id = next_id s.next_user_id;
      users =
          Map.insert s.next_user_id
            (record {
              id = s.next_user_id;
              username = name;
              password_hash = hash;
              created_at_ms = now;
              last_seen_ms = 0;
            })
            s.users;
      username_idx = Map.insert name s.next_user_id s.username_idx;
    },
    some s.next_user_id,
  )
]

unfoldable pub update_last_seen : ℕ → ℕ → Store → Store
update_last_seen id ts s = elim (Map.find id s.users) [
  | none ↦ s
  | some u ↦ record s { users = Map.insert id (record u { last_seen_ms = ts }) s.users }
]

-- Sessions.

unfoldable pub load_all_sessions : Store → List SessionRow
load_all_sessions s = s.sessions

unfoldable pub put_session : SessionRow → List SessionRow → List SessionRow
put_session r [] = r ∷ []
put_session r (x ∷ xs) =
    let rest = put_session r xs in if x.token == r.token then r ∷ xs else x ∷ rest

unfoldable pub insert_session : Bytes → ℕ → ℕ → Store → Store
unfolding put_session
insert_session token uid ts s = record s {
  sessions = put_session (record { token = token; user_id = uid; last_active_ms = ts }) s.sessions;
}

unfoldable pub delete_session : Bytes → Store → Store
delete_session token s = record s { sessions = select (λ r. not (r.token == token)) s.sessions }

-- Rooms.

unfoldable pub find_room_by_name : Bytes → Store → Try (Option Room)
find_room_by_name name s = elim (Map.find name s.room_name_idx) [
  | none ↦ returned none
  | some id ↦ elim (Map.find id s.rooms) [ none ↦ raised | some r ↦ returned (some r) ]
]

unfoldable pub find_room_by_id : ℕ → Store → Option Room
find_room_by_id id s = Map.find id s.rooms

unfoldable pub create_room : Bytes → ℕ → Store → Store × Option ℕ
create_room name now s = elim (Map.find name s.room_name_idx) [
  | some taken ↦ (s, none)
  | none ↦ (
    record s {
      next_room_id = next_id s.next_room_id;
      rooms =
          Map.insert s.next_room_id
            (record { id = s.next_room_id; name = name; created_at_ms = now }) s.rooms;
      room_name_idx = Map.insert name s.next_room_id s.room_name_idx;
    },
    some s.next_room_id,
  )
]

unfoldable pub join_room : ℕ → ℕ → Store → Store × Bool
join_room r u s = elim (Map.find r s.rooms) [
  | none ↦ (s, false)
  | some room ↦ (
    record s {
      room_members =
          Map.insert r (NatSet.insert u (members_or_empty (Map.find r s.room_members)))
            s.room_members;
    },
    true,
  )
]

unfoldable pub leave_room : ℕ → ℕ → Store → Store × Bool
leave_room r u s = elim (Map.find r s.room_members) [
  | none ↦ (s, false)
  | some m ↦ (record s { room_members = Map.insert r (NatSet.erase u m) s.room_members }, true)
]

unfoldable pub is_member : ℕ → ℕ → Store → Bool
is_member r u s = elim (Map.find r s.room_members) [ none ↦ false | some m ↦ NatSet.contains m u ]

unfoldable pub rooms_of : Map ℕ Room → ℕ → Map ℕ (List ℕ) → Try (List Room)
rooms_of rooms u [] = returned []
rooms_of rooms u ((r, m) ∷ rest) = elim (NatSet.contains m u) [
  | false ↦ rooms_of rooms u rest
  | true ↦ elim (Map.find r rooms) [
    | none ↦ raised
    | some room ↦ elim (rooms_of rooms u rest) [
      | raised ↦ raised
      | returned out ↦ returned (room ∷ out)
    ]
  ]
]

unfoldable pub list_rooms_for_user : ℕ → Store → Try (List Room)
unfolding rooms_of
list_rooms_for_user u s = rooms_of s.rooms u s.room_members

unfoldable pub list_room_members : ℕ → Store → List ℕ
list_room_members r s = members_or_empty (Map.find r s.room_members)
