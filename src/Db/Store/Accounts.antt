-- ===== src/Db/Store/Accounts.antt =====
-- Users, rooms and memberships of the in-memory store, as their callers see them.
use chat_system_cpp_chat_ser.Base.{
  ℕ, ◌≡◌, refl, sym, ap, ◌∙◌, ◌⊎◌, inl, inr, false, not, ◌&&◌, ◌||◌, none, some, List, [], ◌∷◌,
  arith, if◌then◌else◌, Bool-cases, Option-cases, nat_beq, nat_beq_iff, nat_eq, All, Bytes,
  bytes_beq, bytes_eq,
}
use chat_system_cpp_chat_ser.Base.Map
use chat_system_cpp_chat_ser.Base.Map.{Map, find-insert, find-insert_same, find-insert_other}
use chat_system_cpp_chat_ser.Base.NatSet
use chat_system_cpp_chat_ser.Base.NatSet.{contains-insert, contains-erase}
use chat_system_cpp_chat_ser.Db.Store.{
  Store, User, Room, returned, create_user, find_user_by_id, find_user_by_username,
  find_room_by_name, join_room, leave_room, is_member, rooms_of, list_rooms_for_user,
  members_or_empty, next_id,
}
use chat_system_cpp_chat_ser.Db.Store.Validity.{IsValid, MembersValid}

-- In a valid store, a user that is found by name has that name and is found by its id.
pub find_user_by_username_lem :
    (name : Bytes) (s : Store)
    → IsValid s
    → (find_user_by_username name s ≡ returned none)
      ⊎ ((u : User) × (find_user_by_username name s ≡ returned (some u))
          × (u.username ≡ name)
          × (find_user_by_id u.id s ≡ some u))
unfolding find_user_by_username find_user_by_id
find_user_by_username_lem name s v = elim (Option-cases (Map.find name s.username_idx)) [
  | inl e ↦ inl (rw (e, find_user_by_username))
  | inr (id, e) ↦
      let named = v.users.named name id e in
      let at = (v.users.indexed id named.0 named.1).0 in
      inr (named.0, ground arith, named.2, ap (λ i. Map.find i s.users) at ∙ named.1)
]

pub find_room_by_name_lem :
    (name : Bytes) (s : Store)
    → IsValid s
    → (find_room_by_name name s ≡ returned none)
      ⊎ ((r : Room) × (find_room_by_name name s ≡ returned (some r))
          × (r.name ≡ name)
          × (Map.find r.id s.rooms ≡ some r))
unfolding find_room_by_name
find_room_by_name_lem name s v = elim (Option-cases (Map.find name s.room_name_idx)) [
  | inl e ↦ inl (rw (e, find_room_by_name))
  | inr (id, e) ↦
      let named = v.rooms.named name id e in
      let at = (v.rooms.indexed id named.0 named.1).0 in
      inr (named.0, ground arith, named.2, ap (λ i. Map.find i s.rooms) at ∙ named.1)
]

username_found :
    (name : Bytes) (id : ℕ) (u : User) (t : Store)
    → Map.find name t.username_idx ≡ some id
    → Map.find id t.users ≡ some u
    → find_user_by_username name t ≡ returned (some u)
unfolding find_user_by_username
username_found name id u t e h = ground arith

username_missing :
    (name : Bytes) (t : Store)
    → Map.find name t.username_idx ≡ none
    → find_user_by_username name t ≡ returned none
unfolding find_user_by_username
username_missing name t e = ground arith

abbrev pub user_row : ℕ → Bytes → Bytes → ℕ → User
user_row id name hash now = record {
  id = id;
  username = name;
  password_hash = hash;
  created_at_ms = now;
  last_seen_ms = 0;
}

-- The store with a row added under the next id.
abbrev with_user : User → Store → Store
with_user u s = record s {
  next_user_id = next_id s.next_user_id;
  users = Map.insert s.next_user_id u s.users;
  username_idx = Map.insert u.username s.next_user_id s.username_idx;
}

find_other :
    (u : User) (s : Store) (other : Bytes)
    → IsValid s
    → bytes_beq u.username other ≡ false
    → find_user_by_username other (with_user u s) ≡ find_user_by_username other s
find_other u s other v differ = elim (Option-cases (Map.find other s.username_idx)) [
  | inl e ↦ username_missing other (with_user u s) (index ∙ e) ∙ sym (username_missing other s e)
  | inr (id, e) ↦
      let named = v.users.named other id e in
      let below = (v.users.indexed id named.0 named.1).2 in
      username_found other id named.0 (with_user u s) (index ∙ e)
        (find-insert_other s.next_user_id id u s.users (ground arith) ∙ named.1)
      ∙ sym (username_found other id named.0 s e named.1)
]
  where
    index :
        Map.find other (Map.insert u.username s.next_user_id s.username_idx)
        ≡ Map.find other s.username_idx
    index = find-insert_other u.username other s.next_user_id s.username_idx differ

-- In a valid store: creating a user under a name that is taken changes nothing and fails. Under a
-- free name it returns the next id; the new user is found under its name, and every other name
-- finds what it found before.
pub create_user_lem :
    (name hash : Bytes) (now : ℕ) (s : Store)
    → IsValid s
    → let r = create_user name hash now s in
      ((u : User) × (find_user_by_username name s ≡ returned (some u)) × (r ≡ (s, none)))
      ⊎ ((find_user_by_username name s ≡ returned none)
          × (r.1 ≡ some s.next_user_id)
          × ((other : Bytes)
              → find_user_by_username other r.0 ≡ (
                  if bytes_beq name other
                  then returned (some (user_row s.next_user_id name hash now))
                  else find_user_by_username other s)))
unfolding create_user
create_user_lem name hash now s v = elim (Option-cases (Map.find name s.username_idx)) [
  | inl e ↦
      let u = user_row s.next_user_id name hash now in
      let made : create_user name hash now s ≡ (with_user u s, some s.next_user_id) =
        rw (e, create_user) in
      inr (
        username_missing name s e,
        ap (λ r. r.1) made,
        λ other.
            ap (λ r. find_user_by_username other r.0) made
            ∙ elim (Bool-cases (bytes_beq name other)) [
              | inl same ↦ rw (same) (
                  username_found other s.next_user_id u (with_user u s)
                    (find-insert_same name other s.next_user_id s.username_idx same)
                    (find-insert_same s.next_user_id s.next_user_id u s.users
                      ((nat_beq_iff s.next_user_id s.next_user_id).1 refl)))
              | inr differ ↦ rw differ (find_other u s other v differ)
            ],
      )
  | inr (id, e) ↦
      let named = v.users.named name id e in
      inl (named.0, username_found name id named.0 s e named.1, rw (e, create_user))
]

rooms_of_returns :
    (rooms : Map ℕ Room) (u : ℕ) (members : Map ℕ (List ℕ))
    → All (λ (e : ℕ × List ℕ). (r : Room) × (Map.find e.0 rooms ≡ some r)) members
    → (out : List Room) × (rooms_of rooms u members ≡ returned out)
unfolding rooms_of
rooms_of_returns rooms u [] h = ([], refl)
rooms_of_returns rooms u ((r, m) ∷ rest) ((room, e), h) =
    let (out, k) = rooms_of_returns rooms u rest h in
    elim (Bool-cases (NatSet.contains m u)) [
      | inl inside ↦ (room ∷ out, ground arith)
      | inr outside ↦ (out, ground arith)
    ]

contains-nil : (u : ℕ) → NatSet.contains [] u ≡ false
unfolding NatSet.contains
contains-nil u = refl

IsFound : Map ℕ (List ℕ) → ℕ × List ℕ → Type 0
IsFound whole e = (m : List ℕ) × (Map.find e.0 whole ≡ some m)

IsFound-behind :
    (k : ℕ) (w : List ℕ) (whole rest : Map ℕ (List ℕ))
    → All (IsFound whole) rest
    → All (IsFound ((k, w) ∷ whole)) rest
unfolding IsFound Map.find
IsFound-behind k w whole [] h = tt
IsFound-behind k w whole ((j, x) ∷ rest) h = (
  elim (Bool-cases (nat_beq k j)) [
    | inl same ↦ (w, rw same)
    | inr differ ↦ (h.0.0, rw differ h.0.1)
  ],
  IsFound-behind k w whole rest h.1,
)

IsFound-each : (whole : Map ℕ (List ℕ)) → All (IsFound whole) whole
unfolding IsFound Map.find
IsFound-each [] = tt
IsFound-each ((k, w) ∷ rest) =
    ((w, rw ((nat_beq_iff k k).1 refl)), IsFound-behind k w rest rest (IsFound-each rest))

rooms_each :
    (whole rest : Map ℕ (List ℕ)) (rooms : Map ℕ Room)
    → MembersValid whole rooms
    → All (IsFound whole) rest
    → All (λ (e : ℕ × List ℕ). (r : Room) × (Map.find e.0 rooms ≡ some r)) rest
unfolding IsFound
rooms_each whole [] rooms v h = tt
rooms_each whole ((k, w) ∷ rest) rooms v h = (v k h.0.0 h.0.1, rooms_each whole rest rooms v h.1)

-- In a valid store the rooms of a user are listed without an exception.
pub list_rooms_for_user_returns :
    (u : ℕ) (s : Store) → IsValid s → (out : List Room) × (list_rooms_for_user u s ≡ returned out)
unfolding list_rooms_for_user
list_rooms_for_user_returns u s v =
    rooms_of_returns s.rooms u s.room_members
      (rooms_each s.room_members s.room_members s.rooms v.members (IsFound-each s.room_members))

-- After a join that the store accepts, the user is a member of the room, and every other
-- membership is as it was.
pub is_member-join_room :
    (r u r' u' : ℕ) (s : Store) (room : Room)
    → Map.find r s.rooms ≡ some room
    → is_member r' u' (join_room r u s).0 ≡ ((nat_beq r r' && nat_beq u u') || is_member r' u' s)
unfolding join_room is_member
is_member-join_room r u r' u' s room e = ground (
  arith,
  find-insert r r' (NatSet.insert u (members_or_empty (Map.find r s.room_members))) s.room_members,
  contains-insert u u' (members_or_empty (Map.find r s.room_members)),
  contains-nil u',
  ap (λ t. Map.find t s.room_members) {x = r} {y = r'},
)

-- After a leave, the user is no member of the room, and every other membership is as it was.
pub is_member-leave_room :
    (r u r' u' : ℕ) (s : Store)
    → is_member r' u' (leave_room r u s).0
      ≡ (not (nat_beq r r' && nat_beq u u') && is_member r' u' s)
unfolding leave_room is_member
is_member-leave_room r u r' u' s = elim (Option-cases (Map.find r s.room_members)) [
  | inl e ↦ ground (arith, ap (λ t. Map.find t s.room_members) {x = r} {y = r'})
  | inr (m, e) ↦ ground (
    arith,
    find-insert r r' (NatSet.erase u m) s.room_members,
    contains-erase u u' m,
    ap (λ t. Map.find t s.room_members) {x = r} {y = r'},
  )
]
