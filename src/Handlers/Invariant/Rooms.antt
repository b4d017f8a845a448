-- ===== src/Handlers/Invariant/Rooms.antt =====
-- Creating, joining, leaving and listing rooms keep the state in order.
use chat_system_cpp_chat_ser.Base.{
  ℕ, suc, ◌≡◌, refl, sym, ap, subst, ◌∙◌, inl, inr, true, false, ◌||◌, Option, none, some, [],
  arith, ltb, Option-cases, some_inj, nat_beq, nat_beq_iff, nat_eq, length, is_empty, Bytes, codes,
  bytes_eq,
}
use chat_system_cpp_chat_ser.Base.Map
use chat_system_cpp_chat_ser.Base.Map.{find-insert_same}
use chat_system_cpp_chat_ser.Db.Store.{
  Store, Room, returned, create_room, find_room_by_name, join_room, list_rooms_for_user,
}
use chat_system_cpp_chat_ser.Db.Store.Validity.{
  IsValid, call, creates_room, joins_room, leaves_room,
}
use chat_system_cpp_chat_ser.Db.Store.Accounts.{find_room_by_name_lem}
use chat_system_cpp_chat_ser.Chat.Presence.{Presence}
use chat_system_cpp_chat_ser.Chat.Rooms.{on_join, on_leave}
use chat_system_cpp_chat_ser.Chat.Rooms.Coherence.{join-IsCoherent, leave-IsCoherent}
use chat_system_cpp_chat_ser.Protocol.Messages.{JsonLib, get_str, get_i64}
use chat_system_cpp_chat_ser.Handlers.World.{World, Settings}
use chat_system_cpp_chat_ser.Handlers.Rooms.{
  made_or_existing, enter, handle_create_room_by, wanted_room, join, handle_join_room_by,
  handle_leave_room_by, handle_list_rooms_by,
}
use chat_system_cpp_chat_ser.Handlers.Invariant.{Asker, Sound, drawn-IsOrderly, members-IsOrderly}
use chat_system_cpp_chat_ser.Handlers.Invariant.Bindings.{send-Sound, refuse-Sound}
use chat_system_cpp_chat_ser.Handlers.Invariant.Following.{
  Keeps, returning, throwing, fewer, branch, branch_option, branch_try,
}
use chat_system_cpp_chat_ser.Handlers.Invariant.Accounts.{returned_inj, none-never}

-- A room that has just been made is there.
made_there :
    (name : Bytes) (now rid : ℕ) (s : Store)
    → (create_room name now s).1 ≡ some rid
    → (room : Room) × (Map.find rid (create_room name now s).0.rooms ≡ some room)
unfolding create_room
made_there name now rid s h = elim (Option-cases (Map.find name s.room_name_idx)) [
  | inl free ↦
      let row : Room = record { id = s.next_room_id; name = name; created_at_ms = now } in
      let at : s.next_room_id ≡ rid = ground (arith, h) in
      (
        row,
        rw (create_room, free)
            (find-insert_same s.next_room_id rid row s.rooms
              ((nat_beq_iff s.next_room_id rid).1 at)),
      )
  | inr (id, taken) ↦
      let refused : (create_room name now s).1 ≡ none = rw (create_room, taken) refl in
      absurd (none-never (sym refused ∙ h))
]

-- A room that is found by name is there.
found_there :
    (name : Bytes) (s : Store) (r : Room)
    → IsValid s
    → find_room_by_name name s ≡ returned (some r)
    → Map.find r.id s.rooms ≡ some r
found_there name s r v e = elim (find_room_by_name_lem name s v) [
  | inl n ↦ absurd (none-never (returned_inj (sym n ∙ e)))
  | inr (x, at, named, found) ↦
      let same : x ≡ r = some_inj (returned_inj (sym at ∙ e)) in
      subst (λ t. Map.find t.id s.rooms ≡ some t) same found
]

-- The room that is entered is there: it has been made, or was found.
entered_there :
    (J : JsonLib) (o : Settings) (name : Bytes) (s : Store) (made : Option ℕ) (rid : ℕ)
    → IsValid s
    → ((r : ℕ) → made ≡ some r → (room : Room) × (Map.find r s.rooms ≡ some room))
    → made_or_existing J o made name s ≡ returned (some rid)
    → (room : Room) × (Map.find rid s.rooms ≡ some room)
unfolding made_or_existing
entered_there J o name s (some r) rid v new e = new rid (returned_inj e)
entered_there J o name s none rid v new e = elim (find_room_by_name_lem name s v) [
  | inl n ↦
      let nobody : made_or_existing J o none name s ≡ returned none =
        rw (made_or_existing, n) refl in
      absurd (none-never (returned_inj (sym nobody ∙ e)))
  | inr (x, at, named, found) ↦
      let it : made_or_existing J o none name s ≡ returned (some x.id) =
        rw (made_or_existing, at) refl in
      (x, subst (λ i. Map.find i s.rooms ≡ some x) (some_inj (returned_inj (sym it ∙ e))) found)
]

module _ {c : Asker} {p : Presence} (J : JsonLib) (o : Settings) {k : ℕ} {w : World} where
  enter-Sound :
      (rid uid : ℕ) (room : Room)
      → Map.find rid w.store.rooms ≡ some room
      → Sound c p k w
      → Sound c p k (enter J o rid uid w)
  unfolding enter call
  enter-Sound rid uid room there g = (
    members-IsOrderly (joins_room rid uid) (on_join rid uid (join_room rid uid w.store).0 w.rooms)
        refl tt (join-IsCoherent w.store w.rooms g.0.rooms rid uid room there) g.0,
    g.1,
  )

  join-Sound : (rid uid : ℕ) (id : Option ℕ) → Sound c p k w → Sound c p k (join J o rid uid id w)
  unfolding join enter join_room
  join-Sound rid uid id g = elim (Option-cases (Map.find rid w.store.rooms)) [
    | inl e ↦
        let no : (join_room rid uid w.store).1 ≡ false = rw (join_room, e) refl in
        let same : (join_room rid uid w.store).0 ≡ w.store = rw (join_room, e) refl in
        rw (join, no, same) (refuse-Sound J g id _ _)
    | inr (room, e) ↦
        let yes : (join_room rid uid w.store).1 ≡ true = rw (join_room, e) refl in
        rw (join, yes) (send-Sound J (enter-Sound rid uid room e g) _)
  ]

  pub handle_leave_room_by-Keeps :
      (req : J.Value) (id : Option ℕ) (uid : ℕ)
      → Sound c p (suc k) w
      → Keeps c p k (handle_leave_room_by J o req id uid w)
  unfolding handle_leave_room_by call
  handle_leave_room_by-Keeps req id uid g =
      let rid = get_i64 J req (codes "room_id") 0 in
      branch (Keeps c p k) (nat_beq rid 0) (λ e. returning (refuse-Sound J (fewer g) id _ _))
        (λ e.
          let left =
            members-IsOrderly (leaves_room rid uid) (on_leave rid uid w.rooms) refl tt
              (leave-IsCoherent w.store w.rooms g.0.rooms rid uid) (fewer g).0 in
          returning (send-Sound J (left, g.1) _))

  pub handle_list_rooms_by-Keeps :
      (req : J.Value) (id : Option ℕ) (uid : ℕ)
      → Sound c p (suc k) w
      → Keeps c p k (handle_list_rooms_by J o req id uid w)
  unfolding handle_list_rooms_by
  handle_list_rooms_by-Keeps req id uid g =
      branch_try (Keeps c p k) (list_rooms_for_user uid w.store) (λ e. throwing (fewer g))
        (λ rooms e. returning (send-Sound J (fewer g) _))

module _ {c : Asker} {p : Presence} (J : JsonLib) (o : Settings) {k : ℕ} {w : World} where
  pub handle_join_room_by-Keeps :
      (req : J.Value) (id : Option ℕ) (uid : ℕ)
      → Sound c p (suc k) w
      → Keeps c p k (handle_join_room_by J o req id uid w)
  unfolding handle_join_room_by
  handle_join_room_by-Keeps req id uid g =
      let rid = get_i64 J req (codes "room_id") 0 in
      let name = get_str J req (codes "name") [] in
      branch_try (Keeps c p k) (wanted_room J o rid name w.store) (λ e. throwing (fewer g))
        (λ r e.
          branch (Keeps c p k) (nat_beq r 0) (λ e. returning (refuse-Sound J (fewer g) id _ _))
            (λ e. returning (join-Sound J o r uid id (fewer g))))

  pub handle_create_room_by-Keeps :
      (req : J.Value) (id : Option ℕ) (uid : ℕ)
      → Sound c p (suc k) w
      → Keeps c p k (handle_create_room_by J o req id uid w)
  unfolding handle_create_room_by call
  handle_create_room_by-Keeps req id uid g =
      let name = get_str J req (codes "name") [] in
      let (s, made) = create_room name o.now w.store in
      let tried : Sound c p k (record w { store = s }) =
        (drawn-IsOrderly (creates_room name o.now) refl tt g.0, g.1) in
      branch (Keeps c p k) (is_empty name || ltb 128 (length name))
        (λ e. returning (refuse-Sound J (fewer g) id _ _))
        (λ e.
          branch_try (Keeps c p k) (made_or_existing J o made name s) (λ e. throwing tried)
            (λ found e.
              branch_option (Keeps c p k) found (λ n. returning (refuse-Sound J tried id _ _))
                (λ rid f.
                  let (room, there) =
                    entered_there J o name s made rid tried.0.store
                      (λ r h. made_there name o.now r w.store h) (e ∙ ap returned f) in
                  returning (send-Sound J (enter-Sound J o rid uid room there tried) _))))
