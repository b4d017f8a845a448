-- ===== src/Handlers/Accounts.antt =====
-- src/handlers/handlers.cpp: registering, logging in and out, presence, ping.
use chat_system_cpp_chat_ser.Base.{
  ℕ, ◌||◌, Option, none, some, [], ltb, if◌then◌else◌, nat_beq, nat_eq, length, is_empty, Bytes,
  codes, bytes_eq,
}
use chat_system_cpp_chat_ser.Db.Store.{
  User, returned, raised, create_user, find_user_by_username, find_user_by_id,
}
use chat_system_cpp_chat_ser.Chat.Presence.{is_online}
use chat_system_cpp_chat_ser.Auth.Session.{create, revoke}
use chat_system_cpp_chat_ser.Net.Connection.{set_user_id, set_session_token}
use chat_system_cpp_chat_ser.Protocol.Messages.{JsonLib, make_ack, get_str, get_i64}
use chat_system_cpp_chat_ser.Handlers.World.{
  World, Crypto, Settings, Outcome, finished, threw, k_bad_request, k_unauthorized, k_not_found,
  k_conflict, send, refuse, unbind, bind_session, authorized,
}

module _ (J : JsonLib) (K : Crypto) (o : Settings) where
  unfoldable pub handle_register : J.Value → Option ℕ → World → Outcome
  unfolding refuse send
  handle_register req id w =
      let user = get_str J req (codes "username") [] in
      let pass = get_str J req (codes "password") [] in
      if is_empty user || is_empty pass || ltb 64 (length user) || ltb (length pass) 4
      then finished (refuse J id k_bad_request (codes "username/password invalid") w)
      else let (s, new_id) =
          create_user user (K.make_password_hash pass o.pbkdf2_iter) o.now w.store in
        let w' = record w { store = s } in
        elim new_id [
          | none ↦ finished (refuse J id k_conflict (codes "username already taken") w')
          | some uid ↦
              let d = J.set (codes "user_id") (J.integer uid) J.null in
              let d = J.set (codes "username") (J.string user) d in
              finished (send J (make_ack J id d) w')
        ]

  -- !u || !verify_password_hash(pass, u->password_hash)
  unfoldable pub credentials : Bytes → Option User → Option User
  credentials pass none = none
  credentials pass (some u) = if K.verify_password_hash pass u.password_hash then some u else none

  unfoldable pub log_in : Option ℕ → User → World → World
  unfolding bind_session send
  log_in id u w =
      let token = K.random_token in
      let (m, s) = create token u.id o.now w.sessions w.store in
      let w' = bind_session J u.id token o.now (record w { sessions = m; store = s }) in
      let d = J.set (codes "user_id") (J.integer u.id) J.null in
      let d = J.set (codes "username") (J.string u.username) d in
      let d = J.set (codes "token") (J.string token) d in
      let d = J.set (codes "ttl_s") (J.integer m.ttl_seconds) d in send J (make_ack J id d) w'

  unfoldable pub handle_login : J.Value → Option ℕ → World → Outcome
  unfolding credentials log_in refuse
  handle_login req id w =
      let user = get_str J req (codes "username") [] in
      let pass = get_str J req (codes "password") [] in
      elim (find_user_by_username user w.store) [
        | raised ↦ threw w
        | returned found ↦ elim (credentials pass found) [
          | none ↦ finished (refuse J id k_unauthorized (codes "bad credentials") w)
          | some u ↦ finished (log_in id u w)
        ]
      ]

  unfoldable pub forget_token : World → World
  forget_token w =
      if is_empty w.conn.token
      then w
      else let (m, s) = revoke w.conn.token w.sessions w.store in
        record w { sessions = m; store = s }

  unfoldable pub unbind_current : World → World
  unfolding unbind
  unbind_current w = if nat_beq w.conn.user_id 0 then w else unbind J w.conn.user_id o.now w

  unfoldable pub handle_logout : J.Value → Option ℕ → World → Outcome
  unfolding forget_token unbind_current send
  handle_logout req id w =
      let w' = unbind_current (forget_token w) in
      finished (
        send J (make_ack J id J.null)
          (record w' { conn = set_session_token [] (set_user_id 0 w'.conn) }))

  unfoldable pub handle_presence_by : J.Value → Option ℕ → ℕ → World → Outcome
  unfolding refuse send
  handle_presence_by req id uid w =
      let target = get_i64 J req (codes "user_id") 0 in
      if nat_beq target 0
      then finished (refuse J id k_bad_request (codes "user_id required") w)
      else elim (find_user_by_id target w.store) [
        | none ↦ finished (refuse J id k_not_found (codes "user not found") w)
        | some u ↦
            let d = J.set (codes "user_id") (J.integer u.id) J.null in
            let d = J.set (codes "username") (J.string u.username) d in
            let d = J.set (codes "online") (J.boolean (is_online u.id w.presence)) d in
            let d = J.set (codes "last_seen") (J.integer u.last_seen_ms) d in
            finished (send J (make_ack J id d) w)
      ]

  unfoldable pub handle_presence : J.Value → Option ℕ → World → Outcome
  unfolding authorized handle_presence_by
  handle_presence req id w = authorized J req id o.now w (handle_presence_by req id)

  unfoldable pub handle_ping : J.Value → Option ℕ → World → Outcome
  unfolding send
  handle_ping req id w =
      let d = J.set (codes "t") (J.integer o.now) J.null in
      finished (send J (J.set (codes "type") (J.string (codes "pong")) (make_ack J id d)) w)
