-- ===== src/Chat/Rooms/Held.antt =====
-- What each method of src/chat/room_manager.cpp does to one membership in the cache.
use chat_system_cpp_chat_ser.Base.{
  ℕ, ◌≡◌, refl, ap, inl, inr, Bool, true, false, ◌&&◌, arith, Option-cases, nat_beq, nat_beq_iff,
  nat_eq, bytes_eq,
}
use chat_system_cpp_chat_ser.Base.Map
use chat_system_cpp_chat_ser.Base.Map.{Map, find-insert, find-erase}
use chat_system_cpp_chat_ser.Base.NatSet
use chat_system_cpp_chat_ser.Base.NatSet.{contains-insert, contains-erase}
use chat_system_cpp_chat_ser.Db.Store.{Store, Room, list_room_members, join_room, leave_room}
use chat_system_cpp_chat_ser.Db.Store
use chat_system_cpp_chat_ser.Chat.Rooms.{
  RoomManager, cached, ensure_loaded, members_of, is_member, on_join, on_leave, invalidate,
}
use chat_system_cpp_chat_ser.Chat.Rooms.Coherence.{contains-list_room_members, contains-nil}

-- What is in the cache of a room.
abbrev pub held : ℕ → ℕ → RoomManager → Bool
held r u m = NatSet.contains (cached (Map.find r m.cache)) u

-- Where the room is loaded, the cache has the membership that the store has.
abbrev pub Agrees : ℕ → ℕ → Store → RoomManager → Type 0
Agrees q w s m = NatSet.contains m.loaded q ≡ true → held q w m ≡ Store.is_member q w s

module _ (r : ℕ) (s : Store) (m : RoomManager) (q w : ℕ) (v : Agrees q w s m) where
  pub ensure_loaded-Agrees : Agrees q w s (ensure_loaded r s m)
  unfolding ensure_loaded
  ensure_loaded-Agrees h = ground (
    arith,
    v,
    contains-insert r q m.loaded,
    find-insert r q (NatSet.of_list (list_room_members r s)) m.cache,
    contains-list_room_members q w s,
    ap (λ t. NatSet.contains (NatSet.of_list (list_room_members t s)) w) {x = r} {y = q},
  )

  pub on_leave-Agrees :
      (u : ℕ) → (nat_beq r q && nat_beq u w) ≡ false → Agrees q w s (on_leave r u m)
  unfolding on_leave
  on_leave-Agrees u other h = elim (Option-cases (Map.find r m.cache)) [
    | inl none_cached ↦ ground (arith, v)
    | inr (members, e) ↦ ground (
      arith,
      v,
      find-insert r q (NatSet.erase u members) m.cache,
      contains-erase u w members,
      ap (λ t. Map.find t m.cache) {x = r} {y = q},
    )
  ]

  pub invalidate-Agrees : Agrees q w s (invalidate r m)
  unfolding invalidate
  invalidate-Agrees h = ground (arith, v, contains-erase r q m.loaded, find-erase r q m.cache)

module _ (r u : ℕ) (s : Store) (m : RoomManager) where
  pub on_join-Agrees :
      (q w : ℕ)
      → (nat_beq r q && nat_beq u w) ≡ false
      → Agrees q w s m
      → Agrees q w s (on_join r u s m)
  unfolding on_join
  on_join-Agrees q w other v h =
      let m' = ensure_loaded r s m in
      let old = cached (Map.find r m'.cache) in
      ground (
        arith,
        ensure_loaded-Agrees r s m q w v,
        find-insert r q (NatSet.insert u old) m'.cache,
        contains-insert u w old,
        ap (λ t. Map.find t m'.cache) {x = r} {y = q},
      )

  pub held-on_join : held r u (on_join r u s m) ≡ true
  unfolding on_join
  held-on_join =
      let m' = ensure_loaded r s m in
      let old = cached (Map.find r m'.cache) in
      ground (
        arith,
        find-insert r r (NatSet.insert u old) m'.cache,
        contains-insert u u old,
        nat_beq_iff r r,
        nat_beq_iff u u,
      )

  pub held-on_leave : held r u (on_leave r u m) ≡ false
  unfolding on_leave
  held-on_leave = elim (Option-cases (Map.find r m.cache)) [
    | inl none_cached ↦ ground (arith, contains-nil u)
    | inr (members, e) ↦ ground (
      arith,
      find-insert r r (NatSet.erase u members) m.cache,
      contains-erase u u members,
      nat_beq_iff r r,
      nat_beq_iff u u,
    )
  ]

-- A room that was loaded is not loaded again.
contains-ensure_loaded :
    (r : ℕ) (s : Store) (m : RoomManager) → NatSet.contains (ensure_loaded r s m).loaded r ≡ true
unfolding ensure_loaded
contains-ensure_loaded r s m = ground (arith, contains-insert r r m.loaded, nat_beq_iff r r)

pub is_member-loaded :
    (r u : ℕ) (t : Store) (m : RoomManager)
    → NatSet.contains m.loaded r ≡ true
    → (is_member r u t m).1 ≡ held r u m
unfolding is_member ensure_loaded
is_member-loaded r u t m h = rw h refl

pub contains-on_join :
    (r u : ℕ) (s : Store) (m : RoomManager) → NatSet.contains (on_join r u s m).loaded r ≡ true
unfolding on_join
contains-on_join r u s m = contains-ensure_loaded r s m

-- Both questions load the room, and are answered as the store would.
pub Agrees-answers :
    (r u : ℕ) (s : Store) (m : RoomManager)
    → Agrees r u s m
    → ((is_member r u s m).1 ≡ Store.is_member r u s)
      × (NatSet.contains (members_of r s m).1 u ≡ Store.is_member r u s)
unfolding is_member members_of
Agrees-answers r u s m v =
    let e = ensure_loaded-Agrees r s m r u v (contains-ensure_loaded r s m) in (e, e)
