-- ===== src/Chat/Startup/Settings.antt =====
-- Which of the command line, the environment and the file decides where the server listens.
use chat_system_cpp_chat_ser.Base.{
  ℕ, ◌%◌, ◌^◌, ◌≡◌, refl, ap, subst, ◌∙◌, inl, inr, true, false, some, List, [], ◌∷◌, ◌++◌,
  append-nil, arith, if◌then◌else◌, Bool-cases, nat_eq, is_empty, Bytes, codes, bytes_beq, bytes_eq,
}
use chat_system_cpp_chat_ser.Base.Map
use chat_system_cpp_chat_ser.Base.Map.{Map}
use chat_system_cpp_chat_ser.Common.Util.{to_lower, tolower, to_upper, toupper, trim_start}
use chat_system_cpp_chat_ser.Common.Config.{
  Config, load_file, overlay_env, get, get_int, set, get-set, get-overlay_env, or_default, first_of,
  one_of, keys_of, well_known,
}
use chat_system_cpp_chat_ser.Common.Numbers.{stoi, sign_and_digits}
use chat_system_cpp_chat_ser.Common.Decimal.{to_string}
use chat_system_cpp_chat_ser.Common.Decimal.RoundTrip.{stoi-to_string}
use chat_system_cpp_chat_ser.Chat.Startup.{Args, Surroundings, positive, configured, listen_address}

-- The configuration after the file, and after the environment.
abbrev pub from_file : Surroundings → Args → Config
from_file e o =
    let c : Config = record { kv = [] } in
    if is_empty o.config_path then c else (load_file (e.file o.config_path) c).0

abbrev pub from_env : Surroundings → Args → Config
from_env e o = overlay_env e.env (from_file e o)

-- The two settings have different keys.
get-set_host :
    (def v : Bytes) (c : Config) → get (codes "listen_host") def (set (codes "listen_host") v c) ≡ v
unfolding to_lower tolower bytes_beq
get-set_host def v c = get-set (codes "listen_host") (codes "listen_host") v def c

get-set_port :
    (def v : Bytes) (c : Config) → get (codes "listen_port") def (set (codes "listen_port") v c) ≡ v
unfolding to_lower tolower bytes_beq
get-set_port def v c = get-set (codes "listen_port") (codes "listen_port") v def c

host_after_port :
    (def v : Bytes) (c : Config)
    → get (codes "listen_host") def (set (codes "listen_port") v c)
      ≡ get (codes "listen_host") def c
unfolding to_lower tolower bytes_beq
host_after_port def v c = get-set (codes "listen_port") (codes "listen_host") v def c

port_after_host :
    (def v : Bytes) (c : Config)
    → get (codes "listen_port") def (set (codes "listen_host") v c)
      ≡ get (codes "listen_port") def c
unfolding to_lower tolower bytes_beq
port_after_host def v c = get-set (codes "listen_host") (codes "listen_port") v def c

stoi_nonempty : (v : Bytes) (n : ℕ) → stoi v ≡ some n → is_empty v ≡ false
unfolding stoi sign_and_digits trim_start
stoi_nonempty [] n h = cc
stoi_nonempty (x ∷ v) n h = refl

get_int_read :
    (key v : Bytes) (def n : ℕ) (c : Config)
    → get key [] c ≡ v
    → stoi v ≡ some n
    → get_int key def c ≡ n
unfolding get_int
get_int_read key v def n c e h = rw (e, stoi_nonempty v n h, h) refl

get_int_same :
    (key : Bytes) (def : ℕ) (c d : Config)
    → get key [] c ≡ get key [] d
    → get_int key def c ≡ get_int key def d
unfolding get_int
get_int_same key def c d e = rw e refl

-- The configuration with the host of the command line.
abbrev with_host : Surroundings → Args → Config
with_host e o =
    if is_empty o.override_host
    then from_env e o
    else set (codes "listen_host") o.override_host (from_env e o)

listen_host_lem :
    (e : Surroundings) (o : Args)
    → get (codes "listen_host") (codes "0.0.0.0") (configured e o) ≡ (
        if is_empty o.override_host
        then get (codes "listen_host") (codes "0.0.0.0") (from_env e o)
        else o.override_host)
unfolding configured
listen_host_lem e o = ground (
  arith,
  host_after_port (codes "0.0.0.0") (to_string o.override_port) (with_host e o),
  get-set_host (codes "0.0.0.0") o.override_host (from_env e o),
)

listen_port_lem :
    (e : Surroundings) (o : Args)
    → get_int (codes "listen_port") 9000 (configured e o) ≡ (
        if positive o.override_port
        then o.override_port
        else get_int (codes "listen_port") 9000 (from_env e o))
unfolding configured
listen_port_lem e o =
    let p = o.override_port in
    let kept =
      get_int_same (codes "listen_port") 9000 (with_host e o) (from_env e o)
        (ground (arith, port_after_host [] o.override_host (from_env e o))) in
    elim (Bool-cases (positive p)) [
      | inl given ↦
          rw (configured, given)
            (get_int_read (codes "listen_port") (to_string p) 9000 p
              (set (codes "listen_port") (to_string p) (with_host e o))
              (get-set_port [] (to_string p) (with_host e o))
              (subst (λ t. stoi t ≡ some p) (append-nil (to_string p))
                (stoi-to_string p [] (ground (arith, given)) tt)))
      | inr missing ↦ rw (configured, missing) kept
    ]

one_of_behind : (v : Bytes) (xs ys : List Bytes) → one_of v ys ≡ true → one_of v (xs ++ ys) ≡ true
one_of_behind v [] ys h = h
one_of_behind v (x ∷ xs) ys h = ground (arith, one_of_behind v xs ys h)

-- listen_host is well known, so that the environment may set it.
host_of_env :
    (e : Surroundings) (o : Args)
    → get (codes "listen_host") (codes "0.0.0.0") (from_env e o)
      ≡ or_default
          (first_of
            (e.env (codes "LISTEN_HOST"))
            (Map.find (codes "listen_host") (from_file e o).kv))
          (codes "0.0.0.0")
unfolding to_lower tolower to_upper toupper bytes_beq
host_of_env e o =
    let known : one_of (codes "listen_host") (keys_of (from_file e o).kv ++ well_known) ≡ true =
      one_of_behind (codes "listen_host") (keys_of (from_file e o).kv) well_known refl in
    get-overlay_env e.env (codes "listen_host") (codes "0.0.0.0") (from_file e o) ∙ rw known refl

-- Where a server that main has configured listens. The host of the command line comes before that
-- of the environment, and this before that of the file, a host that is empty there included; all
-- interfaces where nothing is said. A port of the command line that is positive comes before that
-- of the environment and the file; of either the lowest 16 bits count.
pub listen_address-configured :
    (e : Surroundings) (o : Args)
    → ((listen_address (configured e o)).0 ≡ (
        if is_empty o.override_host
        then or_default
            (first_of
              (e.env (codes "LISTEN_HOST"))
              (Map.find (codes "listen_host") (from_file e o).kv))
            (codes "0.0.0.0")
        else o.override_host))
      × ((listen_address (configured e o)).1
          ≡ (if positive o.override_port
              then o.override_port
              else get_int (codes "listen_port") 9000 (from_env e o))
            % 2 ^ 16)
unfolding listen_address
listen_address-configured e o =
    (listen_host_lem e o ∙ rw (host_of_env e o) refl, ap (λ n. n % 2 ^ 16) (listen_port_lem e o))
