-- ===== src/Chat/Startup/Stages.antt =====
-- How far init gets, and what stop then stops.
use chat_system_cpp_chat_ser.Base.{
  ℕ, ◌<◌, ◌≡◌, not, ◌&&◌, none, some, [], ◌∷◌, arith, if◌then◌else◌, nat_eq, bytes_eq,
}
use chat_system_cpp_chat_ser.Common.Config.{Config}
use chat_system_cpp_chat_ser.Chat.Startup.{
  new_server, Answers, mysql_config, read_settings, worker_count, listen_address, listen_stage,
  reactor_stage, init, the_server, the_reactor, the_workers, stop, run,
}

worker_count-positive : (hardware : ℕ) (c : Config) → 0 < worker_count hardware c
unfolding worker_count
worker_count-positive hardware c = ground arith

-- init succeeds exactly if the platform, the pool of connections, the reactor and the listener do,
-- in this order, and then listens on the address of the settings; otherwise it listens nowhere. There
-- are workers, at least one, as soon as the reactor is ready. What stop stops afterwards is what has
-- been made, the acceptor before the reactor and the workers last.
pub init_lem :
    (a : Answers) (c : Config)
    → let (s, ok) = init a c new_server in
      let (host, port) = listen_address c in
      (ok ≡ (a.platform_ok && a.pool_ok (mysql_config c) && a.reactor_ok && a.listen_ok host port))
      × (s.listening ≡ (if ok then some (host, port) else none))
      × (s.workers ≡ (
          if a.platform_ok && a.pool_ok (mysql_config c) && a.reactor_ok
          then some (worker_count a.hardware c)
          else none))
      × (0 < worker_count a.hardware c)
      × (stop s ≡ (
          if not (a.platform_ok && a.pool_ok (mysql_config c))
          then []
          else if a.reactor_ok
          then the_server ∷ the_reactor ∷ the_workers ∷ []
          else the_reactor ∷ []))
      × (run s ≡ (a.platform_ok && a.pool_ok (mysql_config c)))
unfolding init read_settings reactor_stage listen_stage stop run
init_lem a c = (
  ground arith,
  ground arith,
  ground arith,
  worker_count-positive a.hardware c,
  ground arith,
  ground arith,
)
