-- ===== src/Chat/Server/Delivery.antt =====
-- What the order of the shared state means for answers and for messages.
use chat_system_cpp_chat_ser.Base.{
  ltb, if◌then◌else◌, append-nil, append_assoc, some_inj, ◌%◌, ℕ, ◌+◌, ◌^◌, ◌<◌, ◌≡◌, refl, ap,
  subst, ◌∙◌, Bool, true, false, ◌&&◌, ◌||◌, some, List, [], ◌∷◌, ◌++◌, arith, nat_beq, nat_eq,
  length, Bytes, bytes_beq, bytes_beq_iff, bytes_eq,
}
use chat_system_cpp_chat_ser.Base.Map
use chat_system_cpp_chat_ser.Base.Map.{Map}
use chat_system_cpp_chat_ser.Base.NatSet
use chat_system_cpp_chat_ser.Db.Store.{find_message}
use chat_system_cpp_chat_ser.Chat.Presence.{Presence, connections_of}
use chat_system_cpp_chat_ser.Chat.Router.{Send, send_all, event_of, send_dm, replay_offline}
use chat_system_cpp_chat_ser.Chat.Router.Delivery.{
  dm_row, send_dm-delivered, replay_offline-send_dm,
}
use chat_system_cpp_chat_ser.Auth.Session.Owners.{validate-positive}
use chat_system_cpp_chat_ser.Net.Connection.{Connection, send_frame}
use chat_system_cpp_chat_ser.Protocol.Framing.{header, frame}
use chat_system_cpp_chat_ser.Protocol.Messages.{JsonLib}
use chat_system_cpp_chat_ser.Handlers.World.{Crypto, Settings}
use chat_system_cpp_chat_ser.Handlers.Dispatch.{dispatch}
use chat_system_cpp_chat_ser.Handlers.Replies.{HasUsers, last_to, dispatch-answers}
use chat_system_cpp_chat_ser.Chat.Server.{Event, start, seen_by, run}
use chat_system_cpp_chat_ser.Chat.Server.Order.{run-IsInOrder}

-- Whether a payload is sent to a connection.
abbrev pub reaches : ℕ → Bytes → List Send → Bool
reaches id payload [] = false
reaches id payload ((c, b) ∷ sends) =
    let rest = reaches id payload sends in (nat_beq c id && bytes_beq b payload) || rest

reaches-append :
    (id : ℕ) (payload : Bytes) (xs ys : List Send)
    → reaches id payload xs ≡ true
    → reaches id payload (xs ++ ys) ≡ true
reaches-append id payload [] ys h = cc
reaches-append id payload (x ∷ xs) ys h = ground (arith, reaches-append id payload xs ys)

reaches-send_all :
    (id : ℕ) (payload : Bytes) (conns : List ℕ)
    → NatSet.contains conns id ≡ true
    → reaches id payload (send_all conns payload) ≡ true
unfolding send_all NatSet.contains
reaches-send_all id payload [] h = cc
reaches-send_all id payload (c ∷ conns) h =
    ground (arith, reaches-send_all id payload conns, bytes_beq_iff payload payload)

nonempty :
    (conns : List ℕ) (id : ℕ)
    → NatSet.contains conns id ≡ true
    → (c : ℕ) × (rest : List ℕ) × (conns ≡ c ∷ rest)
unfolding NatSet.contains
nonempty [] id h = cc
nonempty (c ∷ rest) id h = (c, rest, refl)

last_to-split :
    (sends : List Send) (id : ℕ)
    → last_to sends ≡ some id
    → (before : List Send) × (answer : Bytes) × (sends ≡ before ++ (id, answer) ∷ [])
last_to-split [] id h = cc
last_to-split ((c, b) ∷ []) id h = ([], b, ap (λ i. (i, b) ∷ []) (some_inj h))
last_to-split (x ∷ y ∷ sends) id h =
    let (before, answer, e) = last_to-split (y ∷ sends) id h in (x ∷ before, answer, ap (◌∷◌ x) e)

-- What a call of send_frame adds to the buffer, dropped frames included.
send_frame-dropped :
    (payload : Bytes) (c : Connection)
    → (send_frame payload c).0.wbuf
      ≡ c.wbuf
        ++ (if c.closing || c.closed || ltb c.max_frame (length payload) then [] else frame payload)
unfolding send_frame frame
send_frame-dropped payload c =
    ground
      (arith, append-nil c.wbuf, append_assoc c.wbuf (header (length payload % 2 ^ 32)) payload)

module _ (J : JsonLib) (es : List Event) (ttl now : ℕ) (few : length es + 2 < 2 ^ 64) where
  -- After any events, fewer than 2^64 - 2, each handled before the next: when a connection hands
  -- over a payload, dispatch ends with a call of send_frame on that connection. As the connection
  -- is by then, this call puts the frame of the answer behind what is still to be written, unless
  -- the connection is closing or closed or the answer is over its limit: then the answer is
  -- dropped.
  pub run-answers :
      (id : ℕ) (c by_then : Connection) (payload : Bytes) (K : Crypto) (o : Settings)
      → Map.find id (run J es (start ttl now)).conns ≡ some c
      → let s = run J es (start ttl now) in
        let sends = (dispatch J K o payload (record (seen_by c s) { sent = [] })).sent in
        (before : List Send) × (answer : Bytes) × (sends ≡ before ++ (id, answer) ∷ [])
        × ((send_frame answer by_then).0.wbuf
            ≡ by_then.wbuf
              ++ (if by_then.closing || by_then.closed || ltb by_then.max_frame (length answer)
                  then []
                  else frame answer))
  run-answers id c by_then payload K o e =
      let s = run J es (start ttl now) in
      let v = run-IsInOrder J es ttl now few in
      let users : HasUsers o.now (seen_by c s) = record {
        positive = λ token i h. validate-positive token o.now s.sessions v.sessions i h;
      } in
      let last =
        dispatch-answers J K o payload (seen_by c s) users ∙ ap some (v.conns id c e).named in
      let (before, answer, split) = last_to-split _ id last in
      (before, answer, split, send_frame-dropped answer by_then)

  -- After any events, fewer than 2^64 - 2, each handled before the next: a direct message to the
  -- user of an open connection is sent to that connection, is stored as delivered, and is queued
  -- for nobody. It is sent to all connections of the user and then to all of the sender, the one
  -- that asked included.
  pub run-delivers :
      (id sender : ℕ) (c : Connection) (content : Bytes) (ts : ℕ)
      → Map.find id (run J es (start ttl now)).conns ≡ some c
      → NatSet.contains (run J es (start ttl now)).gone id ≡ false
      → nat_beq c.user_id 0 ≡ false
      → let s = run J es (start ttl now) in
        let row = dm_row s.store.next_msg_id sender c.user_id content ts in
        let out = send_dm J sender c.user_id content ts s.presence s.store in
        (reaches id (event_of J row) out.1.0 ≡ true)
        × (find_message s.store.next_msg_id out.0.messages ≡ some (record row { status = 1 }))
        × (out.0.undelivered ≡ s.store.undelivered)
        × (out.1.0
            ≡ send_all (connections_of c.user_id s.presence) (event_of J row)
              ++ send_all (connections_of sender s.presence) (event_of J row))
  run-delivers id sender c content ts e opened user =
      let s = run J es (start ttl now) in
      let v = run-IsInOrder J es ttl now few in
      let row = dm_row s.store.next_msg_id sender c.user_id content ts in
      let here = (v.conns id c e).bound opened user in
      let (x, rest, at) = nonempty (connections_of c.user_id s.presence) id here in
      let done =
        send_dm-delivered J sender c.user_id ts content s.presence s.store x rest v.store at in
      (
        rw (done.3) (
            reaches-append id _ (send_all (x ∷ rest) (event_of J row)) _ (
              reaches-send_all id _ (x ∷ rest) (subst (λ l. NatSet.contains l id ≡ true) at here))),
        done.1,
        done.2,
        rw at (done.3),
      )

  -- After any events, fewer than 2^64 - 2, each handled before the next: when a user has no
  -- connection, what is replayed to them after a direct message is what would have been replayed
  -- before it, and then the message, on each of the connections the user has by then.
  pub run-replays :
      (sender receiver : ℕ) (content : Bytes) (ts : ℕ) (later : Presence)
      → connections_of receiver (run J es (start ttl now)).presence ≡ []
      → let s = run J es (start ttl now) in
        let row = dm_row s.store.next_msg_id sender receiver content ts in
        let out = send_dm J sender receiver content ts s.presence s.store in
        (replay_offline J receiver later out.0).1
        ≡ (replay_offline J receiver later s.store).1
          ++ send_all (connections_of receiver later) (event_of J row)
  run-replays sender receiver content ts later away =
      let s = run J es (start ttl now) in
      let v = run-IsInOrder J es ttl now few in
      replay_offline-send_dm J sender receiver ts content s.presence s.store later v.store
        (v.queued receiver) away
