-- ===== src/Examples/Requests.antt =====
-- src/handlers/handlers.cpp on small data.
use chat_system_cpp_chat_ser.Base.{
  ℕ, ◌≡◌, refl, true, false, ◌&&◌, ◌||◌, none, some, [], nat_beq, nat_eq, codes, bytes_beq,
  bytes_eq,
}
use chat_system_cpp_chat_ser.Base.Map
use chat_system_cpp_chat_ser.Base.NatSet
use chat_system_cpp_chat_ser.Db.Store.{User, empty_store}
use chat_system_cpp_chat_ser.Chat.Presence.{connections_of}
use chat_system_cpp_chat_ser.Chat.Rooms.{new_rooms}
use chat_system_cpp_chat_ser.Auth.Session.{validate}
use chat_system_cpp_chat_ser.Net.Connection.{Connection}
use chat_system_cpp_chat_ser.Protocol.Messages.{get_str}
use chat_system_cpp_chat_ser.Handlers.World.{World, Crypto, Settings, finished}
use chat_system_cpp_chat_ser.Handlers.Accounts.{log_in, handle_logout}
use chat_system_cpp_chat_ser.Handlers.Dispatch.{handle, sends_dm}
use chat_system_cpp_chat_ser.Handlers.Replies.{HasUsers}
use chat_system_cpp_chat_ser.Handlers.Access.{
  IsRefusal, handle-IsRefusal, log_in_lem, handle_logout_lem,
}
use chat_system_cpp_chat_ser.Examples.Traffic.{plain, some_online, some_online-IsValid}

abbrev visitor : Connection
visitor = record {
  id = 9;
  fd_valid = true;
  max_frame = 16;
  rbuf = [];
  reading_length = true;
  want = 4;
  wbuf = [];
  write_armed = false;
  closing = false;
  closed = false;
  user_id = 0;
  token = [];
}

abbrev pub world : World
world = record {
  store = empty_store;
  sessions = record { ttl_seconds = 60; cache = [] };
  presence = some_online;
  rooms = new_rooms;
  conn = visitor;
  sent = [];
}

abbrev fixed : Crypto
fixed = record {
  make_password_hash = λ p n. p;
  verify_password_hash = λ p h. bytes_beq p h;
  random_token = codes "t";
}

abbrev pub settings : Settings
settings = record { max_message = 100; pbkdf2_iter = 2; now = 50 }

unknown_token :
    (validate (get_str plain (codes "x") (codes "token") []) settings.now world.sessions).1 ≡ none
unfolding validate get_str Map.find
unknown_token = refl

handle-IsRefusal_example :
    (w' : World) × (handle plain fixed settings sends_dm (codes "x") (some 3) world ≡ finished w')
    × IsRefusal plain (some 3) world w'
handle-IsRefusal_example =
    handle-IsRefusal plain fixed settings (codes "x") (some 3) world sends_dm refl refl
      unknown_token

abbrev bob : User
bob = record {
  id = 4;
  username = codes "bob";
  password_hash = codes "h";
  created_at_ms = 1;
  last_seen_ms = 0;
}

log_in_lem_example :
    ((log_in plain fixed settings (some 3) bob world).conn.user_id ≡ 4)
    × ((a d : ℕ)
        → NatSet.contains
            (connections_of a (log_in plain fixed settings (some 3) bob world).presence)
            d
          ≡ ((nat_beq 4 a && nat_beq 9 d) || NatSet.contains (connections_of a some_online) d))
log_in_lem_example = log_in_lem plain fixed settings (some 3) world bob some_online-IsValid

abbrev logged_in : World
logged_in = record world { conn = record visitor { user_id = 2; token = codes "t" } }

handle_logout_lem_example :
    (w' : World) × (handle_logout plain fixed settings (codes "x") (some 3) logged_in ≡ finished w')
    × (w'.conn.user_id ≡ 0)
    × (w'.conn.token ≡ [])
    × (NatSet.contains (connections_of 2 w'.presence) 9 ≡ false)
    × ((validate (codes "t") 70 w'.sessions).1 ≡ none)
handle_logout_lem_example =
    handle_logout_lem plain fixed settings (some 3) logged_in (codes "x") 70 some_online-IsValid
      refl refl

no_sessions : HasUsers 50 world
unfolding validate Map.find
no_sessions = record { positive = λ token i h. cc }
