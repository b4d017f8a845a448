-- ===== src/Chat/Startup.antt =====
-- src/chat/chat_server.cpp: ChatServer's init, run and stop, and src/main.cpp. What the platform,
-- the pool of connections, the reactor and the listener answer are arguments.
pub mod Settings
pub mod Stages
use chat_system_cpp_chat_ser.Base.{
  ℕ, ◌-◌, ◌%◌, ◌^◌, max, Bool, true, false, not, ◌&&◌, ◌||◌, Option, none, some, List, [], ◌∷◌,
  ◌++◌, ltb, if◌then◌else◌, nat_beq, nat_eq, is_empty, Bytes, codes, bytes_beq, bytes_eq,
}
use chat_system_cpp_chat_ser.Common.Config.{
  Config, load_file, overlay_env, get, get_int, get_u32, set,
}
use chat_system_cpp_chat_ser.Common.Decimal.{to_string}
use chat_system_cpp_chat_ser.Common.Logger.{Level, parse_level}

pub record MysqlConfig : Type 0 where
  pub host : Bytes
  pub port : ℕ
  pub user : Bytes
  pub password : Bytes
  pub database : Bytes
  pub pool_size : ℕ

-- The members of ChatServer that init sets: the settings, whether the objects have been made, and
-- where the server listens.
pub record ChatServer : Type 0 where
  pub level : Option Level
  pub log_file : Bytes
  pub max_frame : ℕ
  pub max_message : ℕ
  pub pbkdf2_iter : ℕ
  pub db_pool : Option MysqlConfig
  pub session_ttl : Option ℕ
  pub router : Bool
  pub reactor : Bool
  pub workers : Option ℕ
  pub server : Bool
  pub listening : Option (Bytes × ℕ)

-- The initial values of the members.
abbrev pub new_server : ChatServer
new_server = record {
  level = none;
  log_file = [];
  max_frame = 65536;
  max_message = 4096;
  pbkdf2_iter = 120000;
  db_pool = none;
  session_ttl = none;
  router = false;
  reactor = false;
  workers = none;
  server = false;
  listening = none;
}

-- What the stages answer. The listener's answer may depend on where it is to listen.
pub record Answers : Type 0 where
  pub platform_ok : Bool
  pub pool_ok : MysqlConfig → Bool
  pub reactor_ok : Bool
  pub hardware : ℕ
  pub listen_ok : Bytes → ℕ → Bool

unfoldable pub mysql_config : Config → MysqlConfig
mysql_config c = record {
  host = get (codes "mysql_host") (codes "127.0.0.1") c;
  port = get_int (codes "mysql_port") 3306 c % 2 ^ 16;
  user = get (codes "mysql_user") (codes "root") c;
  password = get (codes "mysql_password") [] c;
  database = get (codes "mysql_database") (codes "chat_system") c;
  pool_size = get_u32 (codes "mysql_pool_size") 4 c;
}

-- The logger, and the limits.
unfoldable pub read_settings : Config → ChatServer → ChatServer
read_settings c s = record s {
  level = some (parse_level (get (codes "log_level") (codes "info") c));
  log_file = get (codes "log_file") [] c;
  max_frame = get_u32 (codes "max_frame_bytes") 65536 c;
  max_message = get_u32 (codes "max_message_bytes") 4096 c;
  pbkdf2_iter = get_u32 (codes "pbkdf2_iterations") 120000 c;
}

-- An int that is not positive is 0 for the session manager.
abbrev pub ttl_of : ℕ → ℕ
ttl_of word = if ltb word (2 ^ 31) then word else 0

unfoldable pub worker_count : ℕ → Config → ℕ
worker_count hardware c =
    let n = get_u32 (codes "worker_threads") 0 c in if nat_beq n 0 then max 2 hardware else n

unfoldable pub listen_address : Config → Bytes × ℕ
listen_address c =
    (get (codes "listen_host") (codes "0.0.0.0") c, get_int (codes "listen_port") 9000 c % 2 ^ 16)

unfoldable pub listen_stage : Answers → Config → ChatServer → ChatServer × Bool
unfolding worker_count listen_address
listen_stage a c s =
    let s = record s { workers = some (worker_count a.hardware c); server = true } in
    let (host, port) = listen_address c in
    if not (a.listen_ok host port)
    then (s, false)
    else (record s { listening = some (host, port) }, true)

unfoldable pub reactor_stage : Answers → Config → ChatServer → ChatServer × Bool
unfolding listen_stage
reactor_stage a c s =
    let s = record s {
      session_ttl = some (ttl_of (get_int (codes "session_ttl_seconds") 604800 c));
      router = true;
      reactor = true;
    } in
    if not a.reactor_ok then (s, false) else listen_stage a c s

unfoldable pub init : Answers → Config → ChatServer → ChatServer × Bool
unfolding read_settings mysql_config reactor_stage
init a c s =
    if not a.platform_ok
    then (s, false)
    else let s = read_settings c s in
      let mc = mysql_config c in
      let s = record s { db_pool = some mc } in
      if not (a.pool_ok mc) then (s, false) else reactor_stage a c s

-- The parts that stop tells to stop, in order.
pub data Stopped : Type 0 where
  the_server the_reactor the_workers : Stopped

abbrev pub when : Bool → Stopped → List Stopped
when true x = x ∷ []
when false x = []

abbrev pub is_made : Option ℕ → Bool
is_made none = false
is_made (some n) = true

unfoldable pub stop : ChatServer → List Stopped
stop s =
    when s.server the_server ++ when s.reactor the_reactor ++ when (is_made s.workers) the_workers

-- Whether run gets to the loop of the reactor.
unfoldable pub run : ChatServer → Bool
run s = s.reactor

pub record Args : Type 0 where
  pub config_path : Bytes
  pub override_host : Bytes
  pub override_port : ℕ

-- override_port is -1.
abbrev pub no_args : Args
no_args = record { config_path = []; override_host = []; override_port = 2 ^ 32 - 1 }

pub data Flag : Type 0 where
  asks_help takes_config takes_listen takes_port other : Flag

unfoldable pub flag_of : Bytes → Flag
flag_of a =
    if bytes_beq a (codes "--help") || bytes_beq a (codes "-h")
    then asks_help
    else if bytes_beq a (codes "--config")
    then takes_config
    else if bytes_beq a (codes "--listen")
    then takes_listen
    else if bytes_beq a (codes "--port")
    then takes_port
    else other

module _ (atoi : Bytes → ℕ) where
  -- The loop over argv; none where the usage is printed.
  unfoldable pub parse_args : List Bytes → Args → Option Args
  unfolding flag_of
  parse_args [] o = some o
  parse_args (a ∷ []) o = elim (flag_of a) [ asks_help ↦ none | _ ↦ some o ]
  parse_args (a ∷ b ∷ rest) o = elim (flag_of a) [
    | asks_help ↦ none
    | takes_config ↦ parse_args rest (record o { config_path = b })
    | takes_listen ↦ parse_args rest (record o { override_host = b })
    | takes_port ↦ parse_args rest (record o { override_port = atoi b })
    | other ↦ parse_args (b ∷ rest) o
  ]

-- The lines of a file that opens, and the environment.
pub record Surroundings : Type 0 where
  pub file : Bytes → Option (List Bytes)
  pub env : Bytes → Option Bytes

-- An int is positive.
abbrev pub positive : ℕ → Bool
positive word = not (nat_beq word 0) && ltb word (2 ^ 31)

unfoldable pub configured : Surroundings → Args → Config
configured e o =
    let c : Config = record { kv = [] } in
    let c = if is_empty o.config_path then c else (load_file (e.file o.config_path) c).0 in
    let c = overlay_env e.env c in
    let c = if is_empty o.override_host then c else set (codes "listen_host") o.override_host c in
    if positive o.override_port then set (codes "listen_port") (to_string o.override_port) c else c

-- The exit status of main, and the server where it has been made; the reactor's loop is taken to
-- end.
unfoldable pub main :
    (Bytes → ℕ) → Surroundings → Answers → List Bytes → ℕ × Option (ChatServer × Bool)
unfolding parse_args configured init
main atoi e a argv = elim (parse_args atoi argv no_args) [
  | none ↦ (0, none)
  | some o ↦ let (s, ok) = init a (configured e o) new_server in (if ok then 0 else 1, some (s, ok))
]
