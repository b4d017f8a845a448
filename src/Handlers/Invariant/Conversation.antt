-- ===== src/Handlers/Invariant/Conversation.antt =====
-- Sending messages and asking for their history keep the state in order.
use chat_system_cpp_chat_ser.Base.{
  ◌<◌, arith, ℕ, suc, refl, inl, inr, ◌||◌, Option, List, [], ◌∷◌, ◌++◌, ltb, if◌then◌else◌,
  Bool-cases, nat_beq, nat_eq, length, is_empty, Bytes, codes, bytes_eq,
}
use chat_system_cpp_chat_ser.Db.Store.{
  find_user_by_id, insert_dm, insert_room_msg, enqueue_undelivered,
}
use chat_system_cpp_chat_ser.Db.Store.Counters.{HasRoom-Leaves}
use chat_system_cpp_chat_ser.Db.Store.{next_id}
use chat_system_cpp_chat_ser.Db.Store.Validity.{
  next_id_small, call, inserts_dm, inserts_room_msg, enqueues, updates_status,
}
use chat_system_cpp_chat_ser.Chat.Presence.{Presence, connections_of}
use chat_system_cpp_chat_ser.Chat.Rooms.{is_member, members_of, ensure_loaded}
use chat_system_cpp_chat_ser.Chat.Rooms.Coherence.{is_member-IsCoherent}
use chat_system_cpp_chat_ser.Chat.Router.{send_dm, deliver_dm, send_room, fan_out}
use chat_system_cpp_chat_ser.Protocol.Messages.{JsonLib, get_str, get_i64}
use chat_system_cpp_chat_ser.Handlers.World.{World, Settings}
use chat_system_cpp_chat_ser.Handlers.Conversation.{
  confirm, handle_send_dm_by, handle_send_room_by, handle_history_dm_by, handle_history_room_by,
}
use chat_system_cpp_chat_ser.Handlers.Invariant.{
  Asker, IsOrderly, Sound, aside_of, call-IsOrderly, drawn-IsOrderly, rooms-IsOrderly,
}
use chat_system_cpp_chat_ser.Handlers.Invariant.Bindings.{send-Sound, refuse-Sound}
use chat_system_cpp_chat_ser.Handlers.Invariant.Following.{
  Keeps, returning, fewer, fewer_order, branch, branch_option,
}

module _ {c : Asker} {p : Presence} (J : JsonLib) (o : Settings) where
  confirm-Sound :
      {k : ℕ} {w : World} (id : Option ℕ) (msg_id : ℕ)
      → Sound c p k w
      → Sound c p k (confirm J o id msg_id w)
  unfolding confirm
  confirm-Sound id msg_id g = send-Sound J g _

  deliver_dm-IsOrderly :
      {k : ℕ} {w : World} (mid receiver : ℕ) (event : Bytes) (conns : List ℕ)
      → mid < w.store.next_msg_id
      → IsOrderly c p k w
      → IsOrderly c p k (record w { store = (deliver_dm J mid receiver event conns w.store).0 })
  unfolding deliver_dm call
  deliver_dm-IsOrderly mid receiver event [] known g =
      call-IsOrderly (enqueues mid receiver) refl refl known g
  deliver_dm-IsOrderly mid receiver event (x ∷ conns) known g =
      call-IsOrderly (updates_status mid 1) refl refl tt g

  -- The id that is drawn for a message is below the next one.
  drawn_below :
      {k : ℕ} {w : World}
      → IsOrderly c p (suc k) w
      → w.store.next_msg_id < next_id w.store.next_msg_id
  drawn_below {k} {w} g =
      omega
        (arith, next_id_small w.store.next_msg_id (HasRoom-Leaves (suc k) w.store g.left).msg_ids)

  send_dm-IsOrderly :
      {k : ℕ} {w : World} (sender receiver : ℕ) (content : Bytes) (q : Presence)
      → IsOrderly c p (suc k) w
      → IsOrderly c p k (record w { store = (send_dm J sender receiver content o.now q w.store).0 })
  unfolding send_dm insert_dm call
  send_dm-IsOrderly sender receiver content q g =
      deliver_dm-IsOrderly _ receiver _ (connections_of receiver q) (drawn_below g)
        (drawn-IsOrderly (inserts_dm sender receiver content o.now) refl tt g)

  fan_out-IsOrderly :
      {k : ℕ} {w : World} (mid sender : ℕ) (event : Bytes) (q : Presence) (members : List ℕ)
      → mid < w.store.next_msg_id
      → IsOrderly c p k w
      → IsOrderly c p k (record w { store = (fan_out J mid sender event q members w.store).0 })
  unfolding fan_out call enqueue_undelivered
  fan_out-IsOrderly mid sender event q [] known g = g
  fan_out-IsOrderly {k} {w} mid sender event q (m ∷ members) known g =
      elim (Bool-cases (is_empty (connections_of m q))) [
        | inl away ↦
            let s = if nat_beq m sender then w.store else enqueue_undelivered mid m w.store in
            let next : IsOrderly c p k (record w { store = s }) =
              branch (λ t. IsOrderly c p k (record w { store = t })) (nat_beq m sender) (λ e. g)
                (λ e. call-IsOrderly (enqueues mid m) refl refl known g) in
            let below : mid < s.next_msg_id =
              branch (λ t. mid < t.next_msg_id) (nat_beq m sender) {x = w.store}
                {y = enqueue_undelivered mid m w.store} (λ e. known) (λ e. known) in
            rw (fan_out, away)
              (fan_out-IsOrderly {w = record w { store = s }} mid sender event q members below next)
        | inr there ↦ rw (fan_out, there) (fan_out-IsOrderly mid sender event q members known g)
      ]

  -- The state after send_room, with the room cache that it leaves.
  send_room-IsOrderly :
      {k : ℕ} {w : World} (sender room : ℕ) (content : Bytes) (q : Presence)
      → IsOrderly c p (suc k) w
      → let out = send_room J sender room content o.now q w.rooms w.store in
        IsOrderly c p k (record w { store = out.0; rooms = out.1.0 })
  unfolding send_room insert_room_msg call is_member members_of
  send_room-IsOrderly {k} {w} sender room content q g =
      let loaded = (is_member-IsCoherent w.store w.rooms g.rooms room sender).1 in
      let seen = rooms-IsOrderly (ensure_loaded room w.store w.rooms) loaded g in
      elim (Bool-cases (is_member room sender w.store w.rooms).1) [
        | inr outside ↦ rw (send_room, outside) (fewer_order seen)
        | inl inside ↦
            let drawn = drawn-IsOrderly (inserts_room_msg sender room content o.now) refl tt seen in
            let again =
              rooms-IsOrderly _ (is_member-IsCoherent _ _ drawn.rooms room sender).1 drawn in
            rw (send_room, inside) (fan_out-IsOrderly _ sender _ q _ (drawn_below seen) again)
      ]

module _ {c : Asker} {p : Presence} (J : JsonLib) (o : Settings) {k : ℕ} {w : World} where
  pub handle_send_dm_by-Keeps :
      (req : J.Value) (id : Option ℕ) (sender : ℕ)
      → Sound c p (suc k) w
      → Keeps c p k (handle_send_dm_by J o req id sender w)
  unfolding handle_send_dm_by
  handle_send_dm_by-Keeps req id sender g =
      let receiver = get_i64 J req (codes "receiver_id") 0 in
      let content = get_str J req (codes "content") [] in
      let (s, (sends, msg_id)) = send_dm J sender receiver content o.now w.presence w.store in
      let sent : Sound c p k (record w { store = s; sent = w.sent ++ sends }) = (
        aside_of _ refl refl refl refl refl
            (send_dm-IsOrderly J o sender receiver content w.presence g.0),
        g.1,
      ) in
      branch (Keeps c p k) (nat_beq receiver 0 || is_empty content)
        (λ e. returning (refuse-Sound J (fewer g) id _ _))
        (λ e.
          branch (Keeps c p k) (ltb o.max_message (length content))
            (λ e. returning (refuse-Sound J (fewer g) id _ _))
            (λ e.
              branch_option (Keeps c p k) (find_user_by_id receiver w.store)
                (λ e. returning (refuse-Sound J (fewer g) id _ _))
                (λ u e.
                  branch (Keeps c p k) (nat_beq msg_id 0)
                    (λ e. returning (refuse-Sound J sent id _ _))
                    (λ e. returning (confirm-Sound J o id msg_id sent)))))

  pub handle_history_dm_by-Keeps :
      (req : J.Value) (id : Option ℕ) (uid : ℕ)
      → Sound c p (suc k) w
      → Keeps c p k (handle_history_dm_by J o req id uid w)
  unfolding handle_history_dm_by
  handle_history_dm_by-Keeps req id uid g =
      branch (Keeps c p k) (nat_beq (get_i64 J req (codes "user_id") 0) 0)
        (λ e. returning (refuse-Sound J (fewer g) id _ _))
        (λ e. returning (send-Sound J (fewer g) _))

  pub handle_send_room_by-Keeps :
      (req : J.Value) (id : Option ℕ) (sender : ℕ)
      → Sound c p (suc k) w
      → Keeps c p k (handle_send_room_by J o req id sender w)
  unfolding handle_send_room_by
  handle_send_room_by-Keeps req id sender g =
      let room = get_i64 J req (codes "room_id") 0 in
      let content = get_str J req (codes "content") [] in
      let (s, (m, (sends, msg_id))) =
        send_room J sender room content o.now w.presence w.rooms w.store in
      let sent : Sound c p k (record w { store = s; rooms = m; sent = w.sent ++ sends }) = (
        aside_of _ refl refl refl refl refl
            (send_room-IsOrderly J o sender room content w.presence g.0),
        g.1,
      ) in
      branch (Keeps c p k) (nat_beq room 0 || is_empty content)
        (λ e. returning (refuse-Sound J (fewer g) id _ _))
        (λ e.
          branch (Keeps c p k) (ltb o.max_message (length content))
            (λ e. returning (refuse-Sound J (fewer g) id _ _))
            (λ e.
              branch (Keeps c p k) (nat_beq msg_id 0) (λ e. returning (refuse-Sound J sent id _ _))
                (λ e. returning (confirm-Sound J o id msg_id sent))))

  pub handle_history_room_by-Keeps :
      (req : J.Value) (id : Option ℕ) (uid : ℕ)
      → Sound c p (suc k) w
      → Keeps c p k (handle_history_room_by J o req id uid w)
  unfolding handle_history_room_by
  handle_history_room_by-Keeps req id uid g =
      let room = get_i64 J req (codes "room_id") 0 in
      let (m, inside) = is_member room uid w.store w.rooms in
      let seen : Sound c p k (record w { rooms = m }) = (
        rooms-IsOrderly m (is_member-IsCoherent w.store w.rooms g.0.rooms room uid).1 (fewer g).0,
        g.1,
      ) in
      branch (Keeps c p k) (nat_beq room 0) (λ e. returning (refuse-Sound J (fewer g) id _ _))
        (λ e. elim (Bool-cases inside) [
          | inl e ↦ rw e (returning (send-Sound J seen _))
          | inr e ↦ rw e (returning (refuse-Sound J seen id _ _))
        ])
