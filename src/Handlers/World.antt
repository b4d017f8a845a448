-- ===== src/Handlers/World.antt =====
-- src/handlers/handlers.cpp, the helpers that all handlers share, and the transition handler of
-- src/chat/chat_server.cpp. Here a handler runs to its end before another call changes the state;
-- Chat/Rooms/Interleaved takes the calls on rooms one by one.
use chat_system_cpp_chat_ser.Base.{
  ℕ, Bool, true, false, not, Option, none, some, List, [], ◌∷◌, ◌++◌, if◌then◌else◌, nat_beq,
  nat_eq, is_empty, Bytes, codes, bytes_eq,
}
use chat_system_cpp_chat_ser.Db.Store.{Store, update_last_seen}
use chat_system_cpp_chat_ser.Chat.Presence.{Presence}
use chat_system_cpp_chat_ser.Chat.Presence
use chat_system_cpp_chat_ser.Chat.Rooms.{RoomManager}
use chat_system_cpp_chat_ser.Chat.Router.{Send, replay_offline}
use chat_system_cpp_chat_ser.Auth.Session.{SessionManager, validate}
use chat_system_cpp_chat_ser.Net.Connection.{Connection, set_user_id, set_session_token}
use chat_system_cpp_chat_ser.Protocol.Messages.{JsonLib, make_error, get_str}

-- The state that the handlers share, the connection that asks, and the calls of send_frame so far.
-- A call is no frame on the wire yet: Connection's send_frame drops it where the connection is
-- closing or closed or the payload is over the limit.
pub record World : Type 0 where
  pub store : Store
  pub sessions : SessionManager
  pub presence : Presence
  pub rooms : RoomManager
  pub conn : Connection
  pub sent : List Send

-- src/auth/crypto.cpp as the handlers use it: a record of a password under a fresh salt, its test,
-- and a fresh token; what is random is drawn beforehand.
pub record Crypto : Type 0 where
  pub make_password_hash : Bytes → ℕ → Bytes
  pub verify_password_hash : Bytes → Bytes → Bool
  pub random_token : Bytes

-- The settings, and the time of the call.
pub record Settings : Type 0 where
  pub max_message : ℕ
  pub pbkdf2_iter : ℕ
  pub now : ℕ

-- A handler returns or throws; what it did before it threw is done.
pub data Outcome : Type 0 where
  finished : World → Outcome
  threw : World → Outcome

abbrev pub k_bad_request : Bytes
k_bad_request = codes "bad_request"

abbrev pub k_unauthorized : Bytes
k_unauthorized = codes "unauthorized"

abbrev pub k_not_found : Bytes
k_not_found = codes "not_found"

abbrev pub k_conflict : Bytes
k_conflict = codes "conflict"

abbrev pub k_internal : Bytes
k_internal = codes "internal_error"

module _ (J : JsonLib) where
  -- The call c->send_frame(j.dump()).
  unfoldable pub send : J.Value → World → World
  send j w = record w { sent = w.sent ++ (w.conn.id, J.dump j) ∷ [] }

  unfoldable pub refuse : Option ℕ → Bytes → Bytes → World → World
  unfolding send
  refuse id code message w = send (make_error J id code message) w

  -- The transition handler that ChatServer::init installs.
  unfoldable pub transition : ℕ → Bool → ℕ → World → World
  transition uid false now w = record w { store = update_last_seen uid now w.store }
  transition uid true now w =
      let (s, sends) = replay_offline J uid w.presence w.store in
      record w { store = s; sent = w.sent ++ sends }

  -- s->presence()->bind(uid, c), with the transition handler that it calls.
  unfoldable pub bind : ℕ → ℕ → World → World
  unfolding transition
  bind uid now w =
      let (p, came) = Presence.bind uid w.conn.id w.presence in
      let w' = record w { presence = p } in
      elim came [ false ↦ w' | true ↦ transition uid true now w' ]

  -- s->presence()->unbind(uid, c), with the transition handler that it calls.
  unfoldable pub unbind : ℕ → ℕ → World → World
  unfolding transition
  unbind uid now w =
      let (p, went) = Presence.unbind uid w.conn.id w.presence in
      let w' = record w { presence = p } in
      elim went [ false ↦ w' | true ↦ transition uid false now w' ]

  -- ChatServer::on_close, for the connection that has closed.
  unfoldable pub on_close : ℕ → World → World
  unfolding unbind
  on_close now w = if nat_beq w.conn.user_id 0 then w else unbind w.conn.user_id now w

  unfoldable pub bind_session : ℕ → Bytes → ℕ → World → World
  unfolding bind
  bind_session uid token now w =
      bind uid now (record w { conn = set_session_token token (set_user_id uid w.conn) })

  unfoldable pub require_auth : J.Value → Option ℕ → ℕ → World → World × ℕ
  unfolding refuse bind_session
  require_auth req id now w =
      if not (nat_beq w.conn.user_id 0)
      then (w, w.conn.user_id)
      else let tok = get_str J req (codes "token") [] in
        if is_empty tok
        then (refuse id k_unauthorized (codes "missing session token") w, 0)
        else let (m, info) = validate tok now w.sessions in
          let w' = record w { sessions = m } in
          elim info [
            | none ↦ (refuse id k_unauthorized (codes "invalid or expired token") w', 0)
            | some i ↦ (bind_session i.user_id tok now w', i.user_id)
          ]

  -- auto uid = require_auth(s, c, req, id); if (!uid) return;
  unfoldable pub authorized : J.Value → Option ℕ → ℕ → World → (ℕ → World → Outcome) → Outcome
  unfolding require_auth
  authorized req id now w body =
      let (w', uid) = require_auth req id now w in
      elim (nat_beq uid 0) [ true ↦ finished w' | false ↦ body uid w' ]
