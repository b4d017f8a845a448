-- ===== src/Examples/Serving.antt =====
-- src/chat/chat_server.cpp on a user who registers and logs in.
use chat_system_cpp_chat_ser.Base.{
  ◌||◌, ltb, length, Bytes, ◌≡◌, refl, true, false, some, List, [], ◌∷◌, ◌++◌, arith, if◌then◌else◌,
  nat_eq, codes, bytes_beq, bytes_eq,
}
use chat_system_cpp_chat_ser.Base.Map
use chat_system_cpp_chat_ser.Base.Map.{Map}
use chat_system_cpp_chat_ser.Base.NatSet
use chat_system_cpp_chat_ser.Db.Store.{
  find_message, create_user, insert_session, put_session, find_user_by_username, next_id,
  load_all_sessions, drain_undelivered,
}
use chat_system_cpp_chat_ser.Chat.Presence
use chat_system_cpp_chat_ser.Chat.Presence.{Presence, connections_of, is_online}
use chat_system_cpp_chat_ser.Protocol.Framing.{frame}
use chat_system_cpp_chat_ser.Chat.Router.{Send, event_of, send_all, send_dm, replay_offline, replay}
use chat_system_cpp_chat_ser.Chat.Router.Delivery.{dm_row}
use chat_system_cpp_chat_ser.Auth.Session.{create, new_manager, warm, warm_rows}
use chat_system_cpp_chat_ser.Net.Connection.{
  Connection, send_frame, make, set_user_id, set_session_token,
}
use chat_system_cpp_chat_ser.Protocol.Messages.{JsonLib, parse, get_str}
use chat_system_cpp_chat_ser.Handlers.World.{
  Crypto, send, bind, unbind, bind_session, transition, on_close,
}
use chat_system_cpp_chat_ser.Handlers.Accounts.{handle_register, handle_login, credentials, log_in}
use chat_system_cpp_chat_ser.Handlers.Dispatch.{dispatch, handle, guarded, request_id}
use chat_system_cpp_chat_ser.Chat.Server.{
  Event, connects, hands, closes, start, seen_by, run, step, on_connect, on_frame, on_closed,
}
use chat_system_cpp_chat_ser.Chat.Server.Delivery.{reaches, run-answers, run-delivers, run-replays}
use chat_system_cpp_chat_ser.Examples.Requests.{settings}
use chat_system_cpp_chat_ser.Examples.Traffic.{plain}

-- A JSON library whose objects have their text as their type, and the same word in every other field.
abbrev form : JsonLib
form = record plain { field = λ k v. some (if bytes_beq k (codes "type") then v else codes "anna") }

abbrev clear : Crypto
clear = record {
  make_password_hash = λ p n. p;
  verify_password_hash = λ p h. bytes_beq p h;
  random_token = codes "t";
}

abbrev events : List Event
events =
    connects 100
    ∷ hands 1 (codes "register") clear settings
    ∷ connects 100
    ∷ hands 1 (codes "login") clear settings
    ∷ closes 2 60
    ∷ []

abbrev anna : Connection
anna = record (make 1 100) { user_id = 1; token = codes "t" }

logged_in : Map.find 1 (run form events (start 60 5)).conns ≡ some anna
unfolding run step on_connect on_frame on_closed start dispatch handle guarded request_id parse
    get_str handle_register handle_login credentials log_in bind_session bind transition create send
    create_user insert_session put_session find_user_by_username next_id warm warm_rows
    load_all_sessions new_manager make set_user_id set_session_token Presence.bind Map.find
    Map.insert replay_offline replay drain_undelivered bytes_beq
logged_in = refl

still_open : NatSet.contains (run form events (start 60 5)).gone 1 ≡ false
unfolding run step on_connect on_frame on_closed start dispatch handle guarded request_id parse
    get_str handle_register handle_login credentials log_in bind_session bind transition create send
    create_user insert_session put_session find_user_by_username next_id warm warm_rows
    load_all_sessions new_manager make set_user_id set_session_token Presence.bind Map.find
    Map.insert replay_offline replay drain_undelivered bytes_beq NatSet.contains NatSet.insert
    on_close unbind Presence.unbind
still_open = refl

-- The connection with a frame that is still to be written, and a limit of 100.
abbrev busy : Connection
busy = record anna { wbuf = frame (codes "x") }

run-answers_example :
    let s = run form events (start 60 5) in
    let sends =
      (dispatch form clear settings (codes "ping") (record (seen_by anna s) { sent = [] })).sent in
    (before : List Send) × (answer : Bytes) × (sends ≡ before ++ (1, answer) ∷ [])
    × ((send_frame answer busy).0.wbuf
        ≡ busy.wbuf
          ++ (if busy.closing || busy.closed || ltb busy.max_frame (length answer)
              then []
              else frame answer))
run-answers_example =
    run-answers form events 60 5 (omega arith) 1 anna busy (codes "ping") clear settings logged_in

run-delivers_example :
    let s = run form events (start 60 5) in
    let row = dm_row s.store.next_msg_id 7 1 (codes "hi") 70 in
    let out = send_dm form 7 1 (codes "hi") 70 s.presence s.store in
    (reaches 1 (event_of form row) out.1.0 ≡ true)
    × (find_message s.store.next_msg_id out.0.messages ≡ some (record row { status = 1 }))
    × (out.0.undelivered ≡ s.store.undelivered)
    × (out.1.0
        ≡ send_all (connections_of 1 s.presence) (event_of form row)
          ++ send_all (connections_of 7 s.presence) (event_of form row))
run-delivers_example =
    run-delivers form events 60 5 (omega arith) 1 7 anna (codes "hi") 70 logged_in still_open refl

abbrev later : Presence
later = (Presence.bind 2 9 (run form events (start 60 5)).presence).0

no_berta : connections_of 2 (run form events (start 60 5)).presence ≡ []
unfolding run step on_connect on_frame on_closed start dispatch handle guarded request_id parse
    get_str handle_register handle_login credentials log_in bind_session bind transition create send
    create_user insert_session put_session find_user_by_username next_id warm warm_rows
    load_all_sessions new_manager make set_user_id set_session_token Presence.bind Map.find
    Map.insert replay_offline replay drain_undelivered bytes_beq NatSet.contains NatSet.insert
    on_close unbind Presence.unbind connections_of
no_berta = refl

run-replays_example :
    let s = run form events (start 60 5) in
    let row = dm_row s.store.next_msg_id 1 2 (codes "hi") 70 in
    let out = send_dm form 1 2 (codes "hi") 70 s.presence s.store in
    (replay_offline form 2 later out.0).1
    ≡ (replay_offline form 2 later s.store).1
      ++ send_all (connections_of 2 later) (event_of form row)
run-replays_example = run-replays form events 60 5 (omega arith) 1 2 (codes "hi") 70 later no_berta

abbrev late : List Event
late =
    connects 100
    ∷ hands 1 (codes "register") clear settings
    ∷ closes 1 60
    ∷ hands 1 (codes "login") clear settings
    ∷ []

-- A login that is handled after its connection has closed leaves the user online.
online_after_close :
    (is_online 1 (run form late (start 60 5)).presence ≡ true)
    × (NatSet.contains (run form late (start 60 5)).gone 1 ≡ true)
unfolding run step on_connect on_frame on_closed start dispatch handle guarded request_id parse
    get_str handle_register handle_login credentials log_in bind_session bind transition create send
    create_user insert_session put_session find_user_by_username next_id warm warm_rows
    load_all_sessions new_manager make set_user_id set_session_token Presence.bind Map.find
    Map.insert replay_offline replay drain_undelivered bytes_beq NatSet.contains NatSet.insert
    on_close unbind Presence.unbind is_online
online_after_close = (refl, refl)
