-- ===== src/Chat/Rooms/Coherence.antt =====
-- The cache of memberships and the store, where they are changed one after the other.
use chat_system_cpp_chat_ser.Base.{
  ℕ, ◌≡◌, refl, ap, inl, inr, true, false, some, [], arith, Bool-cases, Option-cases, nat_eq,
  bytes_eq,
}
use chat_system_cpp_chat_ser.Base.Map
use chat_system_cpp_chat_ser.Base.Map.{Map, find-insert, find-erase}
use chat_system_cpp_chat_ser.Base.NatSet
use chat_system_cpp_chat_ser.Base.NatSet.{contains-insert, contains-erase, contains-of_list}
use chat_system_cpp_chat_ser.Db.Store.{
  Store, Room, list_room_members, members_or_empty, join_room, leave_room,
}
use chat_system_cpp_chat_ser.Db.Store
use chat_system_cpp_chat_ser.Db.Store.Accounts.{is_member-join_room, is_member-leave_room}
use chat_system_cpp_chat_ser.Chat.Rooms.{
  RoomManager, new_rooms, ensure_loaded, cached, is_member, on_join, on_leave, invalidate,
}

-- A room that is loaded has the store's members in the cache.
pub record IsCoherent (s : Store) (m : RoomManager) : Type 0 where
  pub agrees :
      (r u : ℕ)
      → NatSet.contains m.loaded r ≡ true
      → NatSet.contains (cached (Map.find r m.cache)) u ≡ Store.is_member r u s

pub new_rooms-IsCoherent : (s : Store) → IsCoherent s new_rooms
unfolding NatSet.contains
new_rooms-IsCoherent s = record { agrees = λ r u h. cc }

pub contains-nil : (u : ℕ) → NatSet.contains [] u ≡ false
unfolding NatSet.contains
contains-nil u = refl

pub contains-list_room_members :
    (r u : ℕ) (s : Store)
    → NatSet.contains (NatSet.of_list (list_room_members r s)) u ≡ Store.is_member r u s
unfolding Store.is_member list_room_members
contains-list_room_members r u s = elim (Option-cases (Map.find r s.room_members)) [
  | inl e ↦
      ground
        (arith, contains-of_list u (members_or_empty (Map.find r s.room_members)), contains-nil u)
  | inr (m, e) ↦ ground (arith, contains-of_list u (members_or_empty (Map.find r s.room_members)))
]

module _ (s : Store) (m : RoomManager) (v : IsCoherent s m) where
  ensure_loaded-IsCoherent : (r : ℕ) → IsCoherent s (ensure_loaded r s m)
  unfolding ensure_loaded
  ensure_loaded-IsCoherent r = record {
    agrees = λ q u h. ground (
      arith,
      v.agrees q u,
      contains-insert r q m.loaded,
      find-insert r q (NatSet.of_list (list_room_members r s)) m.cache,
      contains-list_room_members q u s,
      ap (λ t. NatSet.contains (NatSet.of_list (list_room_members t s)) u) {x = r} {y = q},
    );
  }

  contains-ensure_loaded : (r : ℕ) → NatSet.contains (ensure_loaded r s m).loaded r ≡ true
  unfolding ensure_loaded
  contains-ensure_loaded r = ground (arith, contains-insert r r m.loaded)

  -- Where the cache agrees with the store, it answers as the store would, and agrees afterwards.
  pub is_member-IsCoherent :
      (r u : ℕ)
      → ((is_member r u s m).1 ≡ Store.is_member r u s) × IsCoherent s (is_member r u s m).0
  unfolding is_member
  is_member-IsCoherent r u =
      let loaded = ensure_loaded-IsCoherent r in
      (loaded.agrees r u (contains-ensure_loaded r), loaded)

  -- A join of a room that exists, followed by the update of the cache, keeps the cache in
  -- agreement with the store.
  pub join-IsCoherent :
      (r u : ℕ) (room : Room)
      → Map.find r s.rooms ≡ some room
      → IsCoherent (join_room r u s).0 (on_join r u (join_room r u s).0 m)
  unfolding on_join ensure_loaded
  join-IsCoherent r u room e =
      let t = (join_room r u s).0 in
      let fresh = NatSet.of_list (list_room_members r t) in
      let loaded = cached (Map.find r m.cache) in
      record {
        agrees = λ q w h. elim (Bool-cases (NatSet.contains m.loaded r)) [
          | inl known ↦ ground (
            arith,
            known,
            v.agrees q w,
            is_member-join_room r u q w s room e,
            find-insert r q (NatSet.insert u loaded) m.cache,
            contains-insert u w loaded,
            ap (λ t. Map.find t m.cache) {x = r} {y = q},
          )
          | inr new ↦ ground (
            arith,
            new,
            v.agrees q w,
            is_member-join_room r u q w s room e,
            contains-insert r q m.loaded,
            find-insert r r fresh m.cache,
            find-insert r q fresh m.cache,
            find-insert r q (NatSet.insert u fresh) (Map.insert r fresh m.cache),
            contains-insert u w fresh,
            contains-list_room_members q w t,
            ap (λ t'. NatSet.contains (NatSet.of_list (list_room_members t' t)) w) {x = r} {y = q},
          )
        ];
      }

  -- A leave, followed by the update of the cache, keeps the cache in agreement with the store.
  pub leave-IsCoherent : (r u : ℕ) → IsCoherent (leave_room r u s).0 (on_leave r u m)
  unfolding on_leave
  leave-IsCoherent r u = record {
    agrees = λ q w h. elim (Option-cases (Map.find r m.cache)) [
      | inl none_cached ↦ ground (
        arith,
        v.agrees q w,
        is_member-leave_room r u q w s,
        contains-nil w,
        ap (λ t. Map.find t m.cache) {x = r} {y = q},
      )
      | inr (members, e) ↦ ground (
        arith,
        v.agrees q w,
        is_member-leave_room r u q w s,
        find-insert r q (NatSet.erase u members) m.cache,
        contains-erase u w members,
        ap (λ t. Map.find t m.cache) {x = r} {y = q},
      )
    ];
  }

  pub invalidate-IsCoherent : (r : ℕ) → IsCoherent s (invalidate r m)
  unfolding invalidate
  invalidate-IsCoherent r = record {
    agrees =
        λ q u h. ground (arith, v.agrees q u, contains-erase r q m.loaded, find-erase r q m.cache);
  }
