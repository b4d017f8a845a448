-- ===== src/Chat/Router/Delivery.antt =====
-- Where a message goes: to every connection of those it is for, or to their queue.
use chat_system_cpp_chat_ser.Base.{
  ℕ, ◌<◌, ◌≡◌, refl, sym, ap, ◌∙◌, none, some, List, [], ◌∷◌, ◌++◌, append_assoc, append-nil,
  nat_beq_iff, nat_eq, All, Bytes, bytes_eq,
}
use chat_system_cpp_chat_ser.Base.Map
use chat_system_cpp_chat_ser.Base.Map.{find-insert, find-insert_same}
use chat_system_cpp_chat_ser.Db.Store.{
  Store, Message, insert_dm, enqueue_undelivered, update_message_status, drain_undelivered,
  find_message, find_messages, members_or_empty,
}
use chat_system_cpp_chat_ser.Db.Store.Validity.{IsValid}
use chat_system_cpp_chat_ser.Db.Store.Queue.{drain-queue, find_messages-append, drain-drain}
use chat_system_cpp_chat_ser.Db.Store.Found.{
  find_message_last, find_messages_older, find_messages_one, find_message-set_status,
}
use chat_system_cpp_chat_ser.Chat.Presence.{Presence, connections_of}
use chat_system_cpp_chat_ser.Chat.Router.{
  send_all, event_of, deliver_dm, send_dm, replay_sends, replay, replay_offline,
}
use chat_system_cpp_chat_ser.Protocol.Messages.{JsonLib}

-- The ids that are queued for a user.
abbrev pub queue : ℕ → Store → List ℕ
queue uid s = members_or_empty (Map.find uid s.undelivered)

-- The message that insert_dm stores.
abbrev pub dm_row : ℕ → ℕ → ℕ → Bytes → ℕ → Message
dm_row id sender receiver content ts = record {
  id = id;
  sender_id = sender;
  receiver_id = some receiver;
  room_id = none;
  content = content;
  status = 0;
  created_at_ms = ts;
}

send_all-nil : (event : Bytes) → send_all [] event ≡ []
unfolding send_all
send_all-nil event = refl

module _ (J : JsonLib) where
  replay_sends-append :
      (conns : List ℕ) (xs ys : List Message)
      → replay_sends J conns (xs ++ ys) ≡ replay_sends J conns xs ++ replay_sends J conns ys
  unfolding replay_sends
  replay_sends-append conns [] ys = refl
  replay_sends-append conns (x ∷ xs) ys = rw (replay_sends-append conns xs ys, append_assoc)

  replay_sends-nobody : (xs : List Message) → replay_sends J [] xs ≡ []
  unfolding replay_sends
  replay_sends-nobody [] = refl
  replay_sends-nobody (x ∷ xs) = rw (send_all-nil, replay_sends-nobody xs)

  replay_sends_one :
      (conns : List ℕ) (m : Message) → replay_sends J conns (m ∷ []) ≡ send_all conns (event_of J m)
  unfolding replay_sends
  replay_sends_one conns m = append-nil (send_all conns (event_of J m))

  replay_lem :
      (conns : List ℕ) (pending : List Message)
      → replay J conns pending ≡ replay_sends J conns pending
  unfolding replay replay_sends
  replay_lem conns [] = refl
  replay_lem [] (m ∷ pending) = sym (replay_sends-nobody (m ∷ pending))
  replay_lem (c ∷ conns) (m ∷ pending) = refl

  -- The early returns of replay_offline send what its loop would.
  replay_offline-sends :
      (uid : ℕ) (q : Presence) (s : Store)
      → (replay_offline J uid q s).1
        ≡ replay_sends J (connections_of uid q) (drain_undelivered uid s).1
  unfolding replay_offline
  replay_offline-sends uid q s = replay_lem (connections_of uid q) (drain_undelivered uid s).1

  replay_offline-store :
      (uid : ℕ) (q : Presence) (s : Store)
      → (replay_offline J uid q s).0 ≡ (drain_undelivered uid s).0
  unfolding replay_offline
  replay_offline-store uid q s = refl

  -- A replay to a user without a connection sends nothing, and a later replay, whoever is
  -- connected then, sends nothing either: what was queued is gone.
  pub replay_offline-replay_offline :
      (uid : ℕ) (p q : Presence) (s : Store)
      → connections_of uid p ≡ []
      → ((replay_offline J uid p s).1 ≡ [])
        × ((replay_offline J uid q (replay_offline J uid p s).0).1 ≡ [])
  unfolding replay_sends
  replay_offline-replay_offline uid p q s h = (
    replay_offline-sends uid p s ∙ rw h (replay_sends-nobody (drain_undelivered uid s).1),
    replay_offline-sends uid q (replay_offline J uid p s).0
        ∙ rw (replay_offline-store uid p s, drain-drain uid uid s, (nat_beq_iff uid uid).1 refl),
  )

module _ (J : JsonLib) (sender receiver ts : ℕ) (content : Bytes) (p : Presence) (s : Store) where
  -- In a valid store, a direct message to a user without a connection is stored under the id that is returned,
  -- goes to the end of the user's queue, and is sent to the sender's own connections only.
  pub send_dm-queued :
      IsValid s
      → connections_of receiver p ≡ []
      → let mid = s.next_msg_id in
        let row = dm_row mid sender receiver content ts in
        let out = send_dm J sender receiver content ts p s in
        (out.1.1 ≡ mid)
        × (find_message mid out.0.messages ≡ some row)
        × (queue receiver out.0 ≡ queue receiver s ++ mid ∷ [])
        × (out.1.0 ≡ send_all (connections_of sender p) (event_of J row))
  unfolding send_dm deliver_dm insert_dm enqueue_undelivered event_of
  send_dm-queued v h =
      let mid = s.next_msg_id in
      let row = dm_row mid sender receiver content ts in
      rw h (
        refl,
        find_message_last 1 mid s.messages row v.messages refl,
        ap members_or_empty (
            find-insert_same receiver receiver (queue receiver s ++ mid ∷ []) s.undelivered
              ((nat_beq_iff receiver receiver).1 refl)),
        refl,
      )

  -- In a valid store, a direct message to a user with connections is stored as delivered under the id that is
  -- returned, is queued for nobody, and is sent to all connections of the user and then to all
  -- connections of the sender.
  pub send_dm-delivered :
      (c : ℕ) (conns : List ℕ)
      → IsValid s
      → connections_of receiver p ≡ c ∷ conns
      → let mid = s.next_msg_id in
        let row = dm_row mid sender receiver content ts in
        let out = send_dm J sender receiver content ts p s in
        (out.1.1 ≡ mid)
        × (find_message mid out.0.messages ≡ some (record row { status = 1 }))
        × (out.0.undelivered ≡ s.undelivered)
        × (out.1.0
            ≡ send_all (c ∷ conns) (event_of J row)
              ++ send_all (connections_of sender p) (event_of J row))
  unfolding send_dm deliver_dm insert_dm update_message_status event_of
  send_dm-delivered c conns v h =
      let mid = s.next_msg_id in
      let row = dm_row mid sender receiver content ts in
      rw h (
        refl,
        find_message-set_status mid 1 (s.messages ++ row ∷ []) row
            (find_message_last 1 mid s.messages row v.messages refl),
        refl,
        refl,
      )

  send_dm_messages :
      connections_of receiver p ≡ []
      → (send_dm J sender receiver content ts p s).0.messages
        ≡ s.messages ++ dm_row s.next_msg_id sender receiver content ts ∷ []
  unfolding send_dm deliver_dm insert_dm enqueue_undelivered
  send_dm_messages h = rw h

  -- In a valid store where the user's queue holds only ids given out before: what is replayed to
  -- a user that was sent a direct message while without a connection is what would have been
  -- replayed before, and then the message, on each of the connections the user has by then.
  pub replay_offline-send_dm :
      (q : Presence)
      → IsValid s
      → All (λ i. i < s.next_msg_id) (queue receiver s)
      → connections_of receiver p ≡ []
      → (replay_offline J receiver q (send_dm J sender receiver content ts p s).0).1
        ≡ (replay_offline J receiver q s).1
          ++ send_all
              (connections_of receiver q)
              (event_of J (dm_row s.next_msg_id sender receiver content ts))
  unfolding replay_sends find_messages
  replay_offline-send_dm q v below h =
      let mid = s.next_msg_id in
      let row = dm_row mid sender receiver content ts in
      let out = (send_dm J sender receiver content ts p s).0 in
      let sent = send_dm-queued v h in
      replay_offline-sends J receiver q out
      ∙ rw (
        replay_offline-sends,
        drain-queue receiver out,
        sent.2,
        find_messages-append,
        replay_sends-append,
        send_dm_messages h,
        find_messages_older (queue receiver s) s.messages row below,
        find_messages_one mid (s.messages ++ row ∷ []) row
            (find_message_last 1 mid s.messages row v.messages refl),
        drain-queue receiver s,
        replay_sends_one J (connections_of receiver q) row,
      )
