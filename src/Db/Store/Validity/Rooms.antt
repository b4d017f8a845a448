-- ===== src/Db/Store/Validity/Rooms.antt =====
-- The methods on rooms keep the invariant of the in-memory store.
use chat_system_cpp_chat_ser.Base.{
  ℕ, ◌≡◌, refl, sym, subst, ◌∙◌, inl, inr, Bool, true, false, Option, none, some, List, Bool-cases,
  nat_beq, nat_beq_iff, nat_eq, Bytes, bytes_eq,
}
use chat_system_cpp_chat_ser.Base.Map
use chat_system_cpp_chat_ser.Base.NatSet
use chat_system_cpp_chat_ser.Base.Map.{Map, find-insert_same, find-insert_other}
use chat_system_cpp_chat_ser.Db.Table.{added-IsIndexed}
use chat_system_cpp_chat_ser.Db.Store.{
  Store, Room, next_id, create_room, join_room, leave_room, members_or_empty,
}
use chat_system_cpp_chat_ser.Db.Store.Validity.Users.{MembersValid, IsValid, HasRoom, next_id_small}

pub create_room-IsValid :
    (name : Bytes) (now : ℕ) (s : Store)
    → HasRoom s
    → IsValid s
    → IsValid (create_room name now s).0
unfolding create_room
create_room-IsValid name now s big v = go (Map.find name s.room_name_idx) refl
  where
    row : Room
    row = record { id = s.next_room_id; name = name; created_at_ms = now }

    still_there : MembersValid s.room_members (Map.insert s.next_room_id row s.rooms)
    still_there id m h = elim (Bool-cases (nat_beq s.next_room_id id)) [
      | inl e ↦ (row, find-insert_same s.next_room_id id row s.rooms e)
      | inr e ↦
          let old = v.members id m h in
          (old.0, find-insert_other s.next_room_id id row s.rooms e ∙ old.1)
    ]

    go :
        (o : Option ℕ)
        → Map.find name s.room_name_idx ≡ o
        → IsValid
            (elim o as (λ x. Store × Option ℕ) [
              | some taken ↦ (s, none)
              | none ↦ (
                record s {
                  next_room_id = next_id s.next_room_id;
                  rooms = Map.insert s.next_room_id row s.rooms;
                  room_name_idx = Map.insert name s.next_room_id s.room_name_idx;
                },
                some s.next_room_id,
              )
            ]).0
    go (some taken) e = v
    go none e = record {
      users = v.users;
      rooms = rw (next_id_small s.next_room_id big.room_ids) (added-IsIndexed v.rooms row refl e);
      members = still_there;
      messages = v.messages;
    }

pub insert-MembersValid :
    (r : ℕ) (new : List ℕ) (members : Map ℕ (List ℕ)) (rooms : Map ℕ Room)
    → MembersValid members rooms
    → ((x : Room) × (Map.find r rooms ≡ some x))
    → MembersValid (Map.insert r new members) rooms
insert-MembersValid r new members rooms v here id m h = elim (Bool-cases (nat_beq r id)) [
  | inl e ↦ subst (λ i. (x : Room) × (Map.find i rooms ≡ some x)) ((nat_beq_iff r id).0 e) here
  | inr e ↦ v id m (sym (find-insert_other r id new members e) ∙ h)
]

pub join_room-IsValid : (r u : ℕ) (s : Store) → IsValid s → IsValid (join_room r u s).0
unfolding join_room
join_room-IsValid r u s v = go (Map.find r s.rooms) refl
  where
    new : List ℕ
    new = NatSet.insert u (members_or_empty (Map.find r s.room_members))

    go :
        (o : Option Room)
        → Map.find r s.rooms ≡ o
        → IsValid
            (elim o as (λ x. Store × Bool) [
              | none ↦ (s, false)
              | some room ↦ (record s { room_members = Map.insert r new s.room_members }, true)
            ]).0
    go none e = v
    go (some room) e = record {
      users = v.users;
      rooms = v.rooms;
      members = insert-MembersValid r new s.room_members s.rooms v.members (room, e);
      messages = v.messages;
    }

pub leave_room-IsValid : (r u : ℕ) (s : Store) → IsValid s → IsValid (leave_room r u s).0
unfolding leave_room
leave_room-IsValid r u s v = go (Map.find r s.room_members) refl
  where
    go :
        (o : Option (List ℕ))
        → Map.find r s.room_members ≡ o
        → IsValid
            (elim o as (λ x. Store × Bool) [
              | none ↦ (s, false)
              | some m ↦
                  (record s { room_members = Map.insert r (NatSet.erase u m) s.room_members }, true)
            ]).0
    go none e = v
    go (some m) e = record {
      users = v.users;
      rooms = v.rooms;
      members =
          insert-MembersValid r (NatSet.erase u m) s.room_members s.rooms v.members
            (v.members r m e);
      messages = v.messages;
    }
