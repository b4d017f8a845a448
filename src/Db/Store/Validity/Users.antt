-- ===== src/Db/Store/Validity/Users.antt =====
-- The invariant of the in-memory store, and the methods on users.
use chat_system_cpp_chat_ser.Base.{
  ℕ, suc, ◌+◌, ◌^◌, ◌≤◌, ◌<◌, ◌≡◌, refl, ap, subst, ◌∙◌, Option, none, some, List, [], ◌∷◌, arith,
  nat_eq, Bytes, bytes_eq,
}
use chat_system_cpp_chat_ser.Base.Map
use chat_system_cpp_chat_ser.Base.Map.{Map, find-insert_same, find-insert_other}
use chat_system_cpp_chat_ser.Db.Table.{IsIndexed, added-IsIndexed, replaced-IsIndexed}
use chat_system_cpp_chat_ser.Db.Store.{
  Store, User, Room, Message, empty_store, next_id, create_user, update_last_seen,
}

-- The ids of the messages rise from `lo` on, and stay below `hi`.
abbrev pub Ascends : ℕ → List Message → ℕ → Type 0
Ascends lo [] hi = lo ≤ hi
Ascends lo (m ∷ ms) hi = (lo ≤ m.id) × Ascends (suc m.id) ms hi

abbrev pub MembersValid : Map ℕ (List ℕ) → Map ℕ Room → Type 0
MembersValid members rooms =
    (id : ℕ) (m : List ℕ) → Map.find id members ≡ some m → (r : Room) × (Map.find id rooms ≡ some r)

-- Both tables agree with their indexes, only rooms that exist have members, and the messages
-- stand in the order of their ids.
pub record IsValid (s : Store) : Type 0 where
  pub users : IsIndexed (λ (u : User). u.id) (λ u. u.username) s.users s.username_idx s.next_user_id
  pub rooms : IsIndexed (λ (r : Room). r.id) (λ r. r.name) s.rooms s.room_name_idx s.next_room_id
  pub members : MembersValid s.room_members s.rooms
  pub messages : Ascends 1 s.messages s.next_msg_id

-- The counters have not reached the end of uint64_t.
pub record HasRoom (s : Store) : Type 0 where
  pub user_ids : s.next_user_id + 1 < 2 ^ 64
  pub room_ids : s.next_room_id + 1 < 2 ^ 64
  pub msg_ids : s.next_msg_id + 1 < 2 ^ 64

pub empty_store-IsValid : IsValid empty_store
unfolding Map.find
empty_store-IsValid = record {
  users = record { named = λ n i h. cc; indexed = λ i u h. cc; positive = omega arith };
  rooms = record { named = λ n i h. cc; indexed = λ i u h. cc; positive = omega arith };
  members = λ i m h. cc;
  messages = omega arith;
}

pub next_id_small : (n : ℕ) → n + 1 < 2 ^ 64 → next_id n ≡ suc n
unfolding next_id
next_id_small n h = omega arith

pub create_user-IsValid :
    (name hash : Bytes) (now : ℕ) (s : Store)
    → HasRoom s
    → IsValid s
    → IsValid (create_user name hash now s).0
unfolding create_user
create_user-IsValid name hash now s big v = go (Map.find name s.username_idx) refl
  where
    row : User
    row = record {
      id = s.next_user_id;
      username = name;
      password_hash = hash;
      created_at_ms = now;
      last_seen_ms = 0;
    }

    go :
        (o : Option ℕ)
        → Map.find name s.username_idx ≡ o
        → IsValid
            (elim o as (λ x. Store × Option ℕ) [
              | some taken ↦ (s, none)
              | none ↦ (
                record s {
                  next_user_id = next_id s.next_user_id;
                  users = Map.insert s.next_user_id row s.users;
                  username_idx = Map.insert name s.next_user_id s.username_idx;
                },
                some s.next_user_id,
              )
            ]).0
    go (some taken) e = v
    go none e = record {
      users = rw (next_id_small s.next_user_id big.user_ids) (added-IsIndexed v.users row refl e);
      rooms = v.rooms;
      members = v.members;
      messages = v.messages;
    }

pub update_last_seen-IsValid :
    (id ts : ℕ) (s : Store) → IsValid s → IsValid (update_last_seen id ts s)
unfolding update_last_seen
update_last_seen-IsValid id ts s v = go (Map.find id s.users) refl
  where
    go :
        (o : Option User)
        → Map.find id s.users ≡ o
        → IsValid (elim o as (λ x. Store) [
          | none ↦ s
          | some u ↦ record s { users = Map.insert id (record u { last_seen_ms = ts }) s.users }
        ])
    go none e = v
    go (some u) e =
        let at : u.id ≡ id = (v.users.indexed id u e).0 in
        record {
          users =
              subst
                (λ i.
                  IsIndexed (λ (x : User). x.id) (λ x. x.username)
                    (Map.insert i (record u { last_seen_ms = ts }) s.users) s.username_idx
                    s.next_user_id)
                at
                (replaced-IsIndexed v.users (record u { last_seen_ms = ts }) u
                  (ap (λ i. Map.find i s.users) at ∙ e) refl);
          rooms = v.rooms;
          members = v.members;
          messages = v.messages;
        }
