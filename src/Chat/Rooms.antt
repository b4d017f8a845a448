-- ===== src/Chat/Rooms.antt =====
-- src/chat/room_manager.cpp and include/chat/room_manager.h: a cache of memberships over the store.
-- Each method holds the manager's mutex throughout.
pub mod Coherence
pub mod Held
pub mod Interleaved
pub mod Race
use chat_system_cpp_chat_ser.Base.{
  ℕ, Bool, Option, none, some, List, [], if◌then◌else◌, nat_eq, bytes_eq,
}
use chat_system_cpp_chat_ser.Base.Map
use chat_system_cpp_chat_ser.Base.Map.{Map}
use chat_system_cpp_chat_ser.Base.NatSet
use chat_system_cpp_chat_ser.Db.Store.{Store, list_room_members}

pub record RoomManager : Type 0 where
  pub cache : Map ℕ (List ℕ)
  pub loaded : List ℕ

abbrev pub new_rooms : RoomManager
new_rooms = record { cache = []; loaded = [] }

unfoldable pub ensure_loaded : ℕ → Store → RoomManager → RoomManager
ensure_loaded r s m = if NatSet.contains m.loaded r then m else record {
  cache = Map.insert r (NatSet.of_list (list_room_members r s)) m.cache;
  loaded = NatSet.insert r m.loaded;
}

abbrev pub cached : Option (List ℕ) → List ℕ
cached none = []
cached (some members) = members

unfoldable pub members_of : ℕ → Store → RoomManager → RoomManager × List ℕ
unfolding ensure_loaded
members_of r s m = let m' = ensure_loaded r s m in (m', cached (Map.find r m'.cache))

unfoldable pub is_member : ℕ → ℕ → Store → RoomManager → RoomManager × Bool
unfolding ensure_loaded
is_member r u s m =
    let m' = ensure_loaded r s m in (m', NatSet.contains (cached (Map.find r m'.cache)) u)

unfoldable pub on_join : ℕ → ℕ → Store → RoomManager → RoomManager
unfolding ensure_loaded
on_join r u s m =
    let m' = ensure_loaded r s m in
    record m' { cache = Map.insert r (NatSet.insert u (cached (Map.find r m'.cache))) m'.cache }

unfoldable pub on_leave : ℕ → ℕ → RoomManager → RoomManager
on_leave r u m = elim (Map.find r m.cache) [
  | none ↦ m
  | some members ↦ record m { cache = Map.insert r (NatSet.erase u members) m.cache }
]

unfoldable pub invalidate : ℕ → RoomManager → RoomManager
invalidate r m = record { cache = Map.erase r m.cache; loaded = NatSet.erase r m.loaded }
