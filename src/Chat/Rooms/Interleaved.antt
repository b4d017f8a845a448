-- ===== src/Chat/Rooms/Interleaved.antt =====
-- The calls of the handlers on the store and on src/chat/room_manager.cpp, one by one, as the
-- workers interleave them: joining and leaving a room change the store first and the cache in a
-- call of its own. A method of the cache reads the store while it holds the manager's mutex; a
-- call of the store that comes in after the reading counts as later than the method.
use chat_system_cpp_chat_ser.Base.{
  ℕ, ◌≡◌, sym, subst, ◌∙◌, inl, inr, true, false, ◌&&◌, some, arith, if◌then◌else◌, Bool-cases,
  nat_beq, nat_beq_iff, nat_eq, bytes_eq,
}
use chat_system_cpp_chat_ser.Base.Map
use chat_system_cpp_chat_ser.Base.Map.{Map, find-insert, find-erase}
use chat_system_cpp_chat_ser.Base.NatSet
use chat_system_cpp_chat_ser.Base.NatSet.{contains-insert, contains-erase}
use chat_system_cpp_chat_ser.Db.Store.{Store, Room, list_room_members, join_room, leave_room}
use chat_system_cpp_chat_ser.Db.Store
use chat_system_cpp_chat_ser.Db.Store.Accounts.{is_member-join_room, is_member-leave_room}
use chat_system_cpp_chat_ser.Db.Store.Validity.{Call, call}
use chat_system_cpp_chat_ser.Db.Store.Counters.{keeps_members, call-room_members}
use chat_system_cpp_chat_ser.Chat.Rooms.{
  RoomManager, new_rooms, cached, members_of, is_member, on_join, on_leave, invalidate,
}
use chat_system_cpp_chat_ser.Chat.Rooms.Held.{
  held, Agrees, ensure_loaded-Agrees, on_leave-Agrees, invalidate-Agrees, on_join-Agrees,
  held-on_join, held-on_leave, Agrees-answers,
}

-- Where the request about a user and a room stands: it has changed the store and not yet the cache.
pub data Flight : Type 0 where
  quiet joining leaving : Flight

pub record Shared : Type 0 where
  pub store : Store
  pub rooms : RoomManager
  pub flight : ℕ → ℕ → Flight

abbrev pub put : ℕ → ℕ → Flight → (ℕ → ℕ → Flight) → ℕ → ℕ → Flight
put r u f g q w = if nat_beq r q && nat_beq u w then f else g q w

-- One call. A request that joins or leaves begins only where none is under way for this user and
-- this room.
pub data Step : Shared → Shared → Type 0 where
  store_joins :
      (x : Shared) (r u : ℕ) (room : Room)
      → x.flight r u ≡ quiet
      → Map.find r x.store.rooms ≡ some room
      → Step x (record x { store = (join_room r u x.store).0; flight = put r u joining x.flight })
  store_leaves :
      (x : Shared) (r u : ℕ)
      → x.flight r u ≡ quiet
      → Step x (record x { store = (leave_room r u x.store).0; flight = put r u leaving x.flight })
  cache_joins :
      (x : Shared) (r u : ℕ)
      → x.flight r u ≡ joining
      → Step x (record x { rooms = on_join r u x.store x.rooms; flight = put r u quiet x.flight })
  cache_leaves :
      (x : Shared) (r u : ℕ)
      → x.flight r u ≡ leaving
      → Step x (record x { rooms = on_leave r u x.rooms; flight = put r u quiet x.flight })
  asks : (x : Shared) (r u : ℕ) → Step x (record x { rooms = (is_member r u x.store x.rooms).0 })
  lists : (x : Shared) (r : ℕ) → Step x (record x { rooms = (members_of r x.store x.rooms).0 })
  forgets : (x : Shared) (r : ℕ) → Step x (record x { rooms = invalidate r x.rooms })
  calls :
      (x : Shared) (c : Call)
      → keeps_members c ≡ true
      → Step x (record x { store = call c x.store })

pub data Steps (x : Shared) : Shared → Type 0 where
  here : Steps x x
  next : {y z : Shared} → Steps x y → Step y z → Steps x z

-- What the store says of a request that is under way, and the cache of a room that is loaded.
pub record IsSettled (x : Shared) : Type 0 where
  pub agrees :
      (r u : ℕ)
      → x.flight r u ≡ quiet
      → NatSet.contains x.rooms.loaded r ≡ true
      → NatSet.contains (cached (Map.find r x.rooms.cache)) u ≡ Store.is_member r u x.store
  pub joined : (r u : ℕ) → x.flight r u ≡ joining → Store.is_member r u x.store ≡ true
  pub left : (r u : ℕ) → x.flight r u ≡ leaving → Store.is_member r u x.store ≡ false

at_pair : (P : ℕ → ℕ → Type 0) (r u q w : ℕ) → (nat_beq r q && nat_beq u w) ≡ true → P r u → P q w
at_pair P r u q w e p =
    let a : r ≡ q = ground (arith, nat_beq_iff r q) in
    let b : u ≡ w = ground (arith, nat_beq_iff u w) in subst (λ i. P i w) a (subst (P r) b p)

module _ (x : Shared) (v : IsSettled x) (r u : ℕ) where
  store_joins-IsSettled :
      (room : Room)
      → Map.find r x.store.rooms ≡ some room
      → IsSettled
          (record x { store = (join_room r u x.store).0; flight = put r u joining x.flight })
  store_joins-IsSettled room e = record {
    agrees =
        λ q w fl h. ground (arith, fl, h, v.agrees q w, is_member-join_room r u q w x.store room e);
    joined = λ q w fl. ground (arith, fl, v.joined q w, is_member-join_room r u q w x.store room e);
    left = λ q w fl. ground (arith, fl, v.left q w, is_member-join_room r u q w x.store room e);
  }

  store_leaves-IsSettled :
      IsSettled (record x { store = (leave_room r u x.store).0; flight = put r u leaving x.flight })
  store_leaves-IsSettled = record {
    agrees = λ q w fl h. ground (arith, fl, h, v.agrees q w, is_member-leave_room r u q w x.store);
    joined = λ q w fl. ground (arith, fl, v.joined q w, is_member-leave_room r u q w x.store);
    left = λ q w fl. ground (arith, fl, v.left q w, is_member-leave_room r u q w x.store);
  }

  -- The call of the cache that ends a request: the cache is right about its pair, and about every
  -- other one if it was.
  ended-IsSettled :
      (m : RoomManager)
      → held r u m ≡ Store.is_member r u x.store
      → ((q w : ℕ)
          → (nat_beq r q && nat_beq u w) ≡ false
          → Agrees q w x.store x.rooms
          → Agrees q w x.store m)
      → IsSettled (record x { rooms = m; flight = put r u quiet x.flight })
  ended-IsSettled m own others = record {
    agrees = λ q w fl h. elim (Bool-cases (nat_beq r q && nat_beq u w)) [
      | inl e ↦ at_pair (λ i j. held i j m ≡ Store.is_member i j x.store) r u q w e own
      | inr e ↦ others q w e (v.agrees q w (ground (arith, fl))) h
    ];
    joined = λ q w fl. v.joined q w (ground (arith, fl));
    left = λ q w fl. v.left q w (ground (arith, fl));
  }

-- A call of the cache that loads or forgets.
reloaded-IsSettled :
    (x : Shared) (m : RoomManager)
    → IsSettled x
    → ((q w : ℕ) → Agrees q w x.store x.rooms → Agrees q w x.store m)
    → IsSettled (record x { rooms = m })
reloaded-IsSettled x m v keeps = record {
  agrees = λ q w fl. keeps q w (v.agrees q w fl);
  joined = v.joined;
  left = v.left;
}

calls-IsSettled :
    (x : Shared) (s : Store)
    → s.room_members ≡ x.store.room_members
    → IsSettled x
    → IsSettled (record x { store = s })
unfolding Store.is_member
calls-IsSettled x s e v = record {
  agrees = λ q w fl h. rw e (v.agrees q w fl h);
  joined = λ q w fl. rw e (v.joined q w fl);
  left = λ q w fl. rw e (v.left q w fl);
}

step-IsSettled : {x y : Shared} → IsSettled x → Step x y → IsSettled y
unfolding is_member members_of
step-IsSettled v (store_joins x r u room fl e) = store_joins-IsSettled x v r u room e
step-IsSettled v (store_leaves x r u fl) = store_leaves-IsSettled x v r u
step-IsSettled v (cache_joins x r u fl) =
    ended-IsSettled x v r u (on_join r u x.store x.rooms)
      (held-on_join r u x.store x.rooms ∙ sym (v.joined r u fl))
      (on_join-Agrees r u x.store x.rooms)
step-IsSettled v (cache_leaves x r u fl) =
    ended-IsSettled x v r u (on_leave r u x.rooms)
      (held-on_leave r u x.store x.rooms ∙ sym (v.left r u fl))
      (λ q w e a. on_leave-Agrees r x.store x.rooms q w a u e)
step-IsSettled v (asks x r u) =
    reloaded-IsSettled x _ v (λ q w. ensure_loaded-Agrees r x.store x.rooms q w)
step-IsSettled v (lists x r) =
    reloaded-IsSettled x _ v (λ q w. ensure_loaded-Agrees r x.store x.rooms q w)
step-IsSettled v (forgets x r) =
    reloaded-IsSettled x _ v (λ q w. invalidate-Agrees r x.store x.rooms q w)
step-IsSettled v (calls x c keeps) =
    calls-IsSettled x (call c x.store) (call-room_members c x.store keeps) v

-- The server at its start: nothing is loaded, and no request is under way.
abbrev pub at_start : Store → Shared
at_start s = record { store = s; rooms = new_rooms; flight = λ r u. quiet }

at_start-IsSettled : (s : Store) → IsSettled (at_start s)
unfolding NatSet.contains
at_start-IsSettled s = record {
  agrees = λ r u fl h. cc;
  joined = λ r u fl. cc;
  left = λ r u fl. cc;
}

steps-IsSettled : (s : Store) {y : Shared} → Steps (at_start s) y → IsSettled y
steps-IsSettled s here = at_start-IsSettled s
steps-IsSettled s (next before step) = step-IsSettled (steps-IsSettled s before) step

-- Whatever calls the handlers make, in whatever order the workers interleave them, as long as no
-- two requests that join or leave are under way for the same user and room: once none is under
-- way for a user and a room, the cache answers about them as the store does, both when it is asked
-- for the membership and when it is asked for the members.
pub steps-is_member :
    (s : Store) (y : Shared) (r u : ℕ)
    → Steps (at_start s) y
    → y.flight r u ≡ quiet
    → ((is_member r u y.store y.rooms).1 ≡ Store.is_member r u y.store)
      × (NatSet.contains (members_of r y.store y.rooms).1 u ≡ Store.is_member r u y.store)
steps-is_member s y r u steps fl =
    Agrees-answers r u y.store y.rooms ((steps-IsSettled s steps).agrees r u fl)
