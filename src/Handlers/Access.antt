-- ===== src/Handlers/Access.antt =====
-- Who may do what: requests without a valid session, logging in, logging out.
use chat_system_cpp_chat_ser.Base.{
  ℕ, ◌≡◌, refl, ap, ◌∙◌, inl, inr, Bool, true, false, ◌&&◌, ◌||◌, Option, none, [], ◌∷◌, ◌++◌,
  arith, Bool-cases, nat_beq, nat_beq_iff, nat_eq, is_empty, Bytes, codes, bytes_beq_iff, bytes_eq,
}
use chat_system_cpp_chat_ser.Base.NatSet
use chat_system_cpp_chat_ser.Db.Store.{User}
use chat_system_cpp_chat_ser.Chat.Presence.{connections_of, is_online}
use chat_system_cpp_chat_ser.Chat.Presence
use chat_system_cpp_chat_ser.Chat.Presence.Laws.{IsValid, bind_lem, unbind_lem}
use chat_system_cpp_chat_ser.Auth.Session.{validate, create, revoke}
use chat_system_cpp_chat_ser.Auth.Session.Laws.{validate-revoke}
use chat_system_cpp_chat_ser.Net.Connection.{set_user_id, set_session_token}
use chat_system_cpp_chat_ser.Protocol.Messages.{JsonLib, make_error, make_ack, get_str}
use chat_system_cpp_chat_ser.Handlers.World.{
  World, Crypto, Settings, finished, k_unauthorized, send, refuse, transition, bind, unbind,
  bind_session, require_auth, authorized,
}
use chat_system_cpp_chat_ser.Handlers.Accounts.{
  log_in, handle_presence, handle_logout, forget_token, unbind_current,
}
use chat_system_cpp_chat_ser.Handlers.Rooms.{
  handle_create_room, handle_join_room, handle_leave_room, handle_list_rooms,
}
use chat_system_cpp_chat_ser.Handlers.Conversation.{
  handle_send_dm, handle_send_room, handle_history_dm, handle_history_room,
}
use chat_system_cpp_chat_ser.Handlers.Dispatch.{
  Request, register, login, logout, sends_dm, sends_room, creates_room, joins_room, leaves_room,
  lists_rooms, asks_history_dm, asks_history_room, asks_presence, ping, handle,
}

-- The requests that a user makes who has logged in.
abbrev pub needs_auth : Request → Bool
needs_auth register = false
needs_auth login = false
needs_auth logout = false
needs_auth ping = false
needs_auth _ = true

-- The world after a refusal: an error to the one who asked, and an expired session may be dropped.
pub record IsRefusal (J : JsonLib) (id : Option ℕ) (w w' : World) : Type 0 where
  pub store : w'.store ≡ w.store
  pub presence : w'.presence ≡ w.presence
  pub rooms : w'.rooms ≡ w.rooms
  pub conn : w'.conn ≡ w.conn
  pub reply :
      (message : Bytes) × (w'.sent
        ≡ w.sent ++ (w.conn.id, J.dump (make_error J id k_unauthorized message)) ∷ [])

module _ (J : JsonLib) (K : Crypto) (o : Settings) (req : J.Value) (id : Option ℕ) (w : World) where
  require_auth-IsRefusal :
      w.conn.user_id ≡ 0
      → (validate (get_str J req (codes "token") []) o.now w.sessions).1 ≡ none
      → (w' : World) × (require_auth J req id o.now w ≡ (w', 0)) × IsRefusal J id w w'
  unfolding require_auth refuse send
  require_auth-IsRefusal anonymous unknown =
      let tok = get_str J req (codes "token") [] in
      let refused = refuse J id k_unauthorized in
      let seen = record w { sessions = (validate tok o.now w.sessions).0 } in
      elim (Bool-cases (is_empty tok)) [
        | inl e ↦
            let message = codes "missing session token" in
            (
              refused message w,
              ground arith,
              record {
                store = refl;
                presence = refl;
                rooms = refl;
                conn = refl;
                reply = (message, refl);
              },
            )
        | inr e ↦
            let message = codes "invalid or expired token" in
            (
              refused message seen,
              ground arith,
              record {
                store = refl;
                presence = refl;
                rooms = refl;
                conn = refl;
                reply = (message, refl);
              },
            )
      ]

  -- A request that needs a login, on a connection that no user is bound to and with a token that
  -- is missing or not valid, changes neither the store nor presence, the room cache or the
  -- connection, and is answered with the error `unauthorized`.
  pub handle-IsRefusal :
      (r : Request)
      → needs_auth r ≡ true
      → w.conn.user_id ≡ 0
      → (validate (get_str J req (codes "token") []) o.now w.sessions).1 ≡ none
      → (w' : World) × (handle J K o r req id w ≡ finished w') × IsRefusal J id w w'
  unfolding handle handle_presence handle_create_room handle_join_room handle_leave_room
      handle_list_rooms handle_send_dm handle_send_room handle_history_dm handle_history_room
  handle-IsRefusal register n a u = cc
  handle-IsRefusal login n a u = cc
  handle-IsRefusal logout n a u = cc
  handle-IsRefusal ping n a u = cc
  handle-IsRefusal sends_dm n a u =
      let (w', e, r) = require_auth-IsRefusal a u in
      (w', rw (handle_send_dm, authorized, e) (ap (λ x. finished x.0) e), r)
  handle-IsRefusal sends_room n a u =
      let (w', e, r) = require_auth-IsRefusal a u in
      (w', rw (handle_send_room, authorized, e) (ap (λ x. finished x.0) e), r)
  handle-IsRefusal creates_room n a u =
      let (w', e, r) = require_auth-IsRefusal a u in
      (w', rw (handle_create_room, authorized, e) (ap (λ x. finished x.0) e), r)
  handle-IsRefusal joins_room n a u =
      let (w', e, r) = require_auth-IsRefusal a u in
      (w', rw (handle_join_room, authorized, e) (ap (λ x. finished x.0) e), r)
  handle-IsRefusal leaves_room n a u =
      let (w', e, r) = require_auth-IsRefusal a u in
      (w', rw (handle_leave_room, authorized, e) (ap (λ x. finished x.0) e), r)
  handle-IsRefusal lists_rooms n a u =
      let (w', e, r) = require_auth-IsRefusal a u in
      (w', rw (handle_list_rooms, authorized, e) (ap (λ x. finished x.0) e), r)
  handle-IsRefusal asks_history_dm n a u =
      let (w', e, r) = require_auth-IsRefusal a u in
      (w', rw (handle_history_dm, authorized, e) (ap (λ x. finished x.0) e), r)
  handle-IsRefusal asks_history_room n a u =
      let (w', e, r) = require_auth-IsRefusal a u in
      (w', rw (handle_history_room, authorized, e) (ap (λ x. finished x.0) e), r)
  handle-IsRefusal asks_presence n a u =
      let (w', e, r) = require_auth-IsRefusal a u in
      (w', rw (handle_presence, authorized, e) (ap (λ x. finished x.0) e), r)

module _ (J : JsonLib) (uid now : ℕ) (w : World) where
  pub bind-world :
      ((bind J uid now w).presence ≡ (Presence.bind uid w.conn.id w.presence).0)
      × ((bind J uid now w).conn ≡ w.conn)
  unfolding bind transition
  bind-world = elim (Bool-cases (Presence.bind uid w.conn.id w.presence).1) [
    | inl e ↦ (ground arith, ground arith)
    | inr e ↦ (ground arith, ground arith)
  ]

  pub unbind-world :
      ((unbind J uid now w).presence ≡ (Presence.unbind uid w.conn.id w.presence).0)
      × ((unbind J uid now w).conn ≡ w.conn)
      × ((unbind J uid now w).sessions ≡ w.sessions)
  unfolding unbind transition
  unbind-world = elim (Bool-cases (Presence.unbind uid w.conn.id w.presence).1) [
    | inl e ↦ (ground arith, ground arith, ground arith)
    | inr e ↦ (ground arith, ground arith, ground arith)
  ]

module _ (J : JsonLib) (K : Crypto) (o : Settings) (id : Option ℕ) (w : World) where
  -- Where presence is valid: a login binds the connection to the user and makes it one of the
  -- user's connections. It stays among the connections of every user it was among before, also of
  -- a user who had logged in on the same connection.
  pub log_in_lem :
      (u : User)
      → IsValid w.presence
      → ((log_in J K o id u w).conn.user_id ≡ u.id)
        × ((a d : ℕ)
            → NatSet.contains (connections_of a (log_in J K o id u w).presence) d ≡ (
                (nat_beq u.id a && nat_beq w.conn.id d)
                || NatSet.contains (connections_of a w.presence) d))
  unfolding log_in bind_session send set_user_id set_session_token
  log_in_lem u v =
      let (m, s) = create K.random_token u.id o.now w.sessions w.store in
      let ready = record w {
        sessions = m;
        store = s;
        conn = set_session_token K.random_token (set_user_id u.id w.conn);
      } in
      let made = bind-world J u.id o.now ready in
      (
        ap (λ c. c.user_id) made.1,
        λ a d.
            ap (λ p. NatSet.contains (connections_of a p) d) made.0
            ∙ (bind_lem u.id w.conn.id w.presence v).0 a d,
      )

  -- Where presence is valid: a logout leaves the connection without a user and without a token; it
  -- is no longer among the connections of the user it was bound to, and the token it had is not
  -- valid at any time.
  pub handle_logout_lem :
      (req : J.Value) (later : ℕ)
      → IsValid w.presence
      → nat_beq w.conn.user_id 0 ≡ false
      → is_empty w.conn.token ≡ false
      → (w' : World) × (handle_logout J K o req id w ≡ finished w')
        × (w'.conn.user_id ≡ 0)
        × (w'.conn.token ≡ [])
        × (NatSet.contains (connections_of w.conn.user_id w'.presence) w.conn.id ≡ false)
        × ((validate w.conn.token later w'.sessions).1 ≡ none)
  unfolding handle_logout send set_user_id set_session_token
  handle_logout_lem req later v bound known =
      let (m, s) = revoke w.conn.token w.sessions w.store in
      let revoked = record w { sessions = m; store = s } in
      let left = unbind J w.conn.user_id o.now revoked in
      let gone = unbind-world J w.conn.user_id o.now revoked in
      (
        send J (make_ack J id J.null)
            (record left { conn = set_session_token [] (set_user_id 0 left.conn) }),
        rw (handle_logout, forget_token, known, unbind_current, bound),
        refl,
        refl,
        ap (λ p. NatSet.contains (connections_of w.conn.user_id p) w.conn.id) gone.0
            ∙ (unbind_lem w.conn.user_id w.conn.id w.presence v).0 w.conn.user_id w.conn.id
            ∙ rw (
              (nat_beq_iff w.conn.user_id w.conn.user_id).1 refl,
              (nat_beq_iff w.conn.id w.conn.id).1 refl,
            ),
        ap (λ t. (validate w.conn.token later t).1) gone.2
            ∙ validate-revoke w.conn.token w.conn.token later w.sessions w.store
            ∙ rw ((bytes_beq_iff w.conn.token w.conn.token).1 refl),
      )
