-- ===== src/Examples/Machine.antt =====
-- Start-up, the logger, and the descriptors on small data.
use chat_system_cpp_chat_ser.Base.{
  ◌<◌, ◌≡◌, refl, true, false, ◌&&◌, none, some, [], ◌∷◌, ◌++◌, arith, if◌then◌else◌, nat_eq, codes,
  bytes_eq,
}
use chat_system_cpp_chat_ser.Common.Config.{Config}
use chat_system_cpp_chat_ser.Common.Decimal.{to_string, write_digits}
use chat_system_cpp_chat_ser.Common.Logger.{Tm, padded, stamp, to_file, logs, warn, lifetime}
use chat_system_cpp_chat_ser.Common.Logger.Files.{lawful, lifetime-lawful}
use chat_system_cpp_chat_ser.Chat.Startup.{
  Args, Surroundings, Answers, configured, listen_address, worker_count, new_server, init, stop,
  run, the_server, the_reactor, the_workers,
}
use chat_system_cpp_chat_ser.Chat.Startup.Settings.{listen_address-configured}
use chat_system_cpp_chat_ser.Chat.Startup.Stages.{init_lem}
use chat_system_cpp_chat_ser.Net.Socket.{Listening, Connecting, listen_tcp, connect_tcp, assign}
use chat_system_cpp_chat_ser.Net.Socket.Ledger.{left_open, lists_left, held_by, sockets_lem}
use chat_system_cpp_chat_ser.Net.Wake.{
  PairAnswers, EpollAnswers, IsFresh, no_descriptors, init_select, init_epoll, shutdown_select,
  shutdown_epoll, shutdown-init,
}

abbrev args : Args
args = record { config_path = codes "c"; override_host = codes "::1"; override_port = 65616 }

abbrev surroundings : Surroundings
surroundings = record { file = λ p. some (codes "listen_port=9" ∷ []); env = λ k. none }

listen_address-configured_example :
    ((listen_address (configured surroundings args)).0 ≡ codes "::1")
    × ((listen_address (configured surroundings args)).1 ≡ 80)
listen_address-configured_example = listen_address-configured surroundings args

abbrev answers : Answers
answers = record {
  platform_ok = true;
  pool_ok = λ c. true;
  reactor_ok = true;
  hardware = 8;
  listen_ok = λ h p. false;
}

init_lem_example :
    let c : Config = record { kv = [] } in
    let (s, ok) = init answers c new_server in
    let (host, port) = listen_address c in
    (ok ≡ (true && true && true && false))
    × (s.listening ≡ (if ok then some (host, port) else none))
    × (s.workers ≡ some (worker_count 8 c))
    × (0 < worker_count 8 c)
    × (stop s ≡ the_server ∷ the_reactor ∷ the_workers ∷ [])
    × (run s ≡ true)
init_lem_example = init_lem answers (record { kv = [] })

abbrev noon : Tm
noon = record { tm_year = 126; tm_mon = 0; tm_mday = 9; tm_hour = 12; tm_min = 0; tm_sec = 7 }

stamp_of_noon : stamp noon 5 ≡ codes "2026-01-09T12:00:07.005Z"
unfolding stamp padded to_string write_digits
stamp_of_noon = refl

lifetime-lawful_example :
    lawful none (
      lifetime (
        to_file (codes "a") (some 3)
        ∷ logs warn noon 5 (codes "m")
        ∷ to_file (codes "b") none
        ∷ to_file (codes "c") (some 3)
        ∷ []))
    ≡ true
lifetime-lawful_example = lifetime-lawful (
    to_file (codes "a") (some 3)
    ∷ logs warn noon 5 (codes "m")
    ∷ to_file (codes "b") none
    ∷ to_file (codes "c") (some 3)
    ∷ [])

abbrev listening : Listening
listening = record {
  socket = some 4;
  pton = λ h. none;
  bind_ok = false;
  listen_ok = true;
  flags = some 2;
}

abbrev connecting : Connecting
connecting = record { getaddrinfo_ok = true; socket = some 5; connect_ok = false }

sockets_lem_example :
    (left_open (listen_tcp listening [] 80 9).1 [] ≡ held_by (listen_tcp listening [] 80 9).0)
    × (left_open (connect_tcp connecting).1 [] ≡ held_by (connect_tcp connecting).0)
    × (lists_left (connect_tcp connecting).1 0 ≡ 0)
    × (left_open (assign (some 4) (some 5)).1 (4 ∷ 5 ∷ []) ≡ held_by (assign (some 4) (some 5)).0.0)
sockets_lem_example = sockets_lem listening connecting [] 80 9 4 5 refl

abbrev pair : PairAnswers
pair = record {
  listener = some 3;
  bind_ok = true;
  getsockname = some 999;
  listen_ok = true;
  client = some 4;
  connect_ok = true;
  accepted = none;
  flags = 2;
}

abbrev epoll : EpollAnswers
epoll = record { epoll_create = some 3; eventfd = none; ctl_ok = true }

fresh : IsFresh pair
fresh = record {
  client = λ l c e f. ground (arith, e, f);
  accepted = λ l s e f. cc;
  pair = λ c s e f. cc;
}

shutdown-init_example :
    (left_open ((init_select true pair).1.1 ++ (shutdown_select (init_select true pair).0).1) []
      ≡ [])
    × ((shutdown_select (shutdown_select no_descriptors).0).1 ≡ [])
    × ((shutdown_epoll (shutdown_epoll no_descriptors).0).1 ≡ [])
    × (left_open ((init_epoll epoll).1.1 ++ (shutdown_epoll (init_epoll epoll).0).1) [] ≡ [])
    × ((if (init_select true pair).1.0 then [] else left_open (init_select true pair).1.1 []) ≡ [])
shutdown-init_example = shutdown-init true pair epoll no_descriptors fresh (λ e w h k. cc)
