-- ===== src/Handlers/Replies/Each.antt =====
-- Every handler answers the one who asked.
use chat_system_cpp_chat_ser.Base.{
  ℕ, ◌≡◌, ap, ◌∙◌, inl, inr, Option, some, arith, Bool-cases, nat_beq, nat_eq, bytes_eq,
}
use chat_system_cpp_chat_ser.Db.Store.{User}
use chat_system_cpp_chat_ser.Auth.Session.{create}
use chat_system_cpp_chat_ser.Net.Connection.{set_user_id, set_session_token}
use chat_system_cpp_chat_ser.Protocol.Messages.{JsonLib}
use chat_system_cpp_chat_ser.Handlers.World.{World, Crypto, Settings, bind, bind_session}
use chat_system_cpp_chat_ser.Handlers.Access.{bind-world, unbind-world}
use chat_system_cpp_chat_ser.Handlers.Accounts.{
  handle_register, handle_login, handle_logout, handle_presence, handle_presence_by, handle_ping,
  log_in, forget_token, unbind_current,
}
use chat_system_cpp_chat_ser.Handlers.Rooms.{
  handle_create_room, handle_create_room_by, handle_join_room, handle_join_room_by,
  handle_leave_room, handle_leave_room_by, handle_list_rooms, handle_list_rooms_by, join, enter,
}
use chat_system_cpp_chat_ser.Handlers.Conversation.{
  handle_send_dm, handle_send_dm_by, handle_send_room, handle_send_room_by, handle_history_dm,
  handle_history_dm_by, handle_history_room, handle_history_room_by, confirm,
}
use chat_system_cpp_chat_ser.Handlers.Dispatch.{
  Request, register, login, logout, sends_dm, sends_room, creates_room, joins_room, leaves_room,
  lists_rooms, asks_history_dm, asks_history_room, asks_presence, ping, handle,
}
use chat_system_cpp_chat_ser.Handlers.Replies.Last.{
  last_to, last_to-snoc, answers, HasUsers, authorized-answers,
}

module _ (J : JsonLib) (K : Crypto) (o : Settings) (req : J.Value) (id : Option ℕ) (uid : ℕ)
    (w : World) where
  handle_send_dm_by-answers : answers (handle_send_dm_by J o req id uid w) ≡ some w.conn.id
  unfolding handle_send_dm_by confirm
  handle_send_dm_by-answers = grind (arith, last_to-snoc)

  handle_send_room_by-answers : answers (handle_send_room_by J o req id uid w) ≡ some w.conn.id
  unfolding handle_send_room_by confirm
  handle_send_room_by-answers = grind (arith, last_to-snoc)

  handle_history_dm_by-answers : answers (handle_history_dm_by J o req id uid w) ≡ some w.conn.id
  unfolding handle_history_dm_by
  handle_history_dm_by-answers = grind (arith, last_to-snoc)

  handle_history_room_by-answers :
      answers (handle_history_room_by J o req id uid w) ≡ some w.conn.id
  unfolding handle_history_room_by
  handle_history_room_by-answers = grind (arith, last_to-snoc)

  handle_create_room_by-answers : answers (handle_create_room_by J o req id uid w) ≡ some w.conn.id
  unfolding handle_create_room_by enter
  handle_create_room_by-answers = grind (arith, last_to-snoc)

  handle_join_room_by-answers : answers (handle_join_room_by J o req id uid w) ≡ some w.conn.id
  unfolding handle_join_room_by join
  handle_join_room_by-answers = grind (arith, last_to-snoc)

  handle_leave_room_by-answers : answers (handle_leave_room_by J o req id uid w) ≡ some w.conn.id
  unfolding handle_leave_room_by
  handle_leave_room_by-answers = grind (arith, last_to-snoc)

  handle_list_rooms_by-answers : answers (handle_list_rooms_by J o req id uid w) ≡ some w.conn.id
  unfolding handle_list_rooms_by
  handle_list_rooms_by-answers = grind (arith, last_to-snoc)

  handle_presence_by-answers : answers (handle_presence_by J K o req id uid w) ≡ some w.conn.id
  unfolding handle_presence_by
  handle_presence_by-answers = grind (arith, last_to-snoc)

module _ (J : JsonLib) (K : Crypto) (o : Settings) (req : J.Value) (id : Option ℕ) (w : World) where
  handle_register-answers : answers (handle_register J K o req id w) ≡ some w.conn.id
  unfolding handle_register
  handle_register-answers = grind (arith, last_to-snoc)

  handle_ping-answers : answers (handle_ping J K o req id w) ≡ some w.conn.id
  unfolding handle_ping
  handle_ping-answers = grind (arith, last_to-snoc)

  forget_token-conn : (forget_token J K o w).conn ≡ w.conn
  unfolding forget_token
  forget_token-conn = ground arith

  unbind_current-conn : (unbind_current J K o w).conn ≡ w.conn
  unfolding unbind_current
  unbind_current-conn = elim (Bool-cases (nat_beq w.conn.user_id 0)) [
    | inl free ↦ ground arith
    | inr bound ↦ ground (arith, (unbind-world J w.conn.user_id o.now w).1)
  ]

  log_in-answers : (u : User) → last_to (log_in J K o id u w).sent ≡ some w.conn.id
  unfolding log_in bind_session set_user_id set_session_token
  log_in-answers u =
      let (m, s) = create K.random_token u.id o.now w.sessions w.store in
      let ready = record w {
        sessions = m;
        store = s;
        conn = set_session_token K.random_token (set_user_id u.id w.conn);
      } in
      last_to-snoc (bind J u.id o.now ready).sent _ _
      ∙ ap (λ c. some c.id) (bind-world J u.id o.now ready).1

module _ (J : JsonLib) (K : Crypto) (o : Settings) (req : J.Value) (id : Option ℕ) (w : World) where
  handle_logout-answers : answers (handle_logout J K o req id w) ≡ some w.conn.id
  unfolding handle_logout unbind_current forget_token set_user_id set_session_token
  handle_logout-answers =
      last_to-snoc (unbind_current J K o (forget_token J K o w)).sent _ _
      ∙ ap (λ c. some c.id)
          (unbind_current-conn J K o req id (forget_token J K o w)
            ∙ forget_token-conn J K o req id w)

  handle_login-answers : answers (handle_login J K o req id w) ≡ some w.conn.id
  unfolding handle_login log_in bind_session set_user_id set_session_token
  handle_login-answers = grind (arith, last_to-snoc, log_in-answers J K o req id w)

  pub handle-answers :
      (r : Request) → HasUsers o.now w → answers (handle J K o r req id w) ≡ some w.conn.id
  unfolding handle handle_presence handle_create_room handle_join_room handle_leave_room
      handle_list_rooms handle_send_dm handle_send_room handle_history_dm handle_history_room
  handle-answers register real = handle_register-answers J K o req id w
  handle-answers login real = handle_login-answers
  handle-answers logout real = handle_logout-answers
  handle-answers ping real = handle_ping-answers J K o req id w
  handle-answers sends_dm real =
      authorized-answers J o req id w (handle_send_dm_by J o req id) real
        (λ uid w' same. handle_send_dm_by-answers J K o req id uid w' ∙ ap some same)
  handle-answers sends_room real =
      authorized-answers J o req id w (handle_send_room_by J o req id) real
        (λ uid w' same. handle_send_room_by-answers J K o req id uid w' ∙ ap some same)
  handle-answers creates_room real =
      authorized-answers J o req id w (handle_create_room_by J o req id) real
        (λ uid w' same. handle_create_room_by-answers J K o req id uid w' ∙ ap some same)
  handle-answers joins_room real =
      authorized-answers J o req id w (handle_join_room_by J o req id) real
        (λ uid w' same. handle_join_room_by-answers J K o req id uid w' ∙ ap some same)
  handle-answers leaves_room real =
      authorized-answers J o req id w (handle_leave_room_by J o req id) real
        (λ uid w' same. handle_leave_room_by-answers J K o req id uid w' ∙ ap some same)
  handle-answers lists_rooms real =
      authorized-answers J o req id w (handle_list_rooms_by J o req id) real
        (λ uid w' same. handle_list_rooms_by-answers J K o req id uid w' ∙ ap some same)
  handle-answers asks_history_dm real =
      authorized-answers J o req id w (handle_history_dm_by J o req id) real
        (λ uid w' same. handle_history_dm_by-answers J K o req id uid w' ∙ ap some same)
  handle-answers asks_history_room real =
      authorized-answers J o req id w (handle_history_room_by J o req id) real
        (λ uid w' same. handle_history_room_by-answers J K o req id uid w' ∙ ap some same)
  handle-answers asks_presence real =
      authorized-answers J o req id w (handle_presence_by J K o req id) real
        (λ uid w' same. handle_presence_by-answers J K o req id uid w' ∙ ap some same)
