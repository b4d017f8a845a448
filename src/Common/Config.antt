-- ===== src/Common/Config.antt =====
-- src/common/config.cpp and include/common/config.h: settings from a file and the environment.
-- An int is its 32-bit word. The lines of the file and the environment are arguments.
use chat_system_cpp_chat_ser.Base.{
  ℕ, ◌%◌, ◌^◌, ◌≡◌, refl, ap, ◌∙◌, inl, inr, Bool, true, false, ◌||◌, Option, none, some, List, [],
  ◌∷◌, ◌++◌, arith, if◌then◌else◌, Option-cases, nat_beq, nat_eq, is_empty, Bytes, codes, bytes_beq,
  bytes_beq_iff, bytes_eq,
}
use chat_system_cpp_chat_ser.Base.Map
use chat_system_cpp_chat_ser.Base.Map.{Map, find-insert}
use chat_system_cpp_chat_ser.Common.Util.{trim, to_lower, to_upper}
use chat_system_cpp_chat_ser.Common.Numbers.{stoi, stoul}

pub record Config : Type 0 where
  pub kv : Map Bytes Bytes

abbrev before : ℕ → Option (Bytes × Bytes) → Option (Bytes × Bytes)
before c none = none
before c (some (key, val)) = some (c ∷ key, val)

-- t.find('='), with the text before and behind it.
unfoldable pub cut_at : ℕ → Bytes → Option (Bytes × Bytes)
cut_at d [] = none
cut_at d (c ∷ cs) = let rest = cut_at d cs in if nat_beq c d then some ([], cs) else before c rest

-- A comment starts with '#'.
abbrev is_comment : Bytes → Bool
is_comment [] = true
is_comment (c ∷ cs) = nat_beq c 35

unfoldable pub load_line : Bytes → Config → Config
unfolding cut_at
load_line line c =
    let t = trim line in
    if is_comment t then c else elim (cut_at 61 t) [
      | none ↦ c
      | some (key, val) ↦ record c { kv = Map.insert (to_lower (trim key)) (trim val) c.kv }
    ]

unfoldable pub load_lines : List Bytes → Config → Config
unfolding load_line
load_lines [] c = c
load_lines (line ∷ lines) c = load_lines lines (load_line line c)

-- No lines where the file does not open.
unfoldable pub load_file : Option (List Bytes) → Config → Config × Bool
unfolding load_lines
load_file none c = (c, false)
load_file (some lines) c = (load_lines lines c, true)

abbrev pub well_known : List Bytes
well_known =
    codes "listen_host"
    ∷ codes "listen_port"
    ∷ codes "worker_threads"
    ∷ codes "log_level"
    ∷ codes "log_file"
    ∷ codes "mysql_host"
    ∷ codes "mysql_port"
    ∷ codes "mysql_user"
    ∷ codes "mysql_password"
    ∷ codes "mysql_database"
    ∷ codes "mysql_pool_size"
    ∷ codes "session_ttl_seconds"
    ∷ codes "pbkdf2_iterations"
    ∷ codes "max_message_bytes"
    ∷ codes "max_frame_bytes"
    ∷ []

abbrev pub keys_of : Map Bytes Bytes → List Bytes
keys_of [] = []
keys_of ((k, v) ∷ kv) = k ∷ keys_of kv

-- The environment: what getenv answers.
unfoldable pub overlay_keys : (Bytes → Option Bytes) → List Bytes → Config → Config
overlay_keys env [] c = c
overlay_keys env (key ∷ keys) c = elim (env (to_upper key)) [
  | none ↦ overlay_keys env keys c
  | some v ↦ overlay_keys env keys (record c { kv = Map.insert key v c.kv })
]

unfoldable pub overlay_env : (Bytes → Option Bytes) → Config → Config
unfolding overlay_keys
overlay_env env c = overlay_keys env (keys_of c.kv ++ well_known) c

abbrev pub or_default : Option Bytes → Bytes → Bytes
or_default none def = def
or_default (some v) def = v

unfoldable pub get : Bytes → Bytes → Config → Bytes
get key def c = or_default (Map.find (to_lower key) c.kv) def

unfoldable pub get_int : Bytes → ℕ → Config → ℕ
unfolding get
get_int key def c =
    let v = get key [] c in if is_empty v then def else elim (stoi v) [ none ↦ def | some n ↦ n ]

unfoldable pub get_u32 : Bytes → ℕ → Config → ℕ
unfolding get
get_u32 key def c =
    let v = get key [] c in
    if is_empty v then def else elim (stoul v) [ none ↦ def | some n ↦ n % 2 ^ 32 ]

-- v is one of the texts.
abbrev pub one_of : Bytes → List Bytes → Bool
one_of v [] = false
one_of v (t ∷ ts) = bytes_beq v t || one_of v ts

unfoldable pub get_bool : Bytes → Bool → Config → Bool
unfolding get
get_bool key def c =
    let v = to_lower (get key [] c) in
    if is_empty v
    then def
    else if one_of v (codes "1" ∷ codes "true" ∷ codes "yes" ∷ codes "on" ∷ [])
    then true
    else if one_of v (codes "0" ∷ codes "false" ∷ codes "no" ∷ codes "off" ∷ [])
    then false
    else def

unfoldable pub set : Bytes → Bytes → Config → Config
set k v c = record c { kv = Map.insert (to_lower k) v c.kv }

-- A setting is read back under every spelling of its key that differs in case alone; other settings
-- are as they were.
pub get-set :
    (k key v def : Bytes) (c : Config)
    → get key def (set k v c) ≡ (if bytes_beq (to_lower k) (to_lower key) then v else get key def c)
unfolding get set
get-set k key v def c = ground (arith, find-insert (to_lower k) (to_lower key) v c.kv)

-- What the environment sets, or else what is there.
abbrev pub first_of : Option Bytes → Option Bytes → Option Bytes
first_of none there = there
first_of (some v) there = some v

find-overlay_keys :
    (env : Bytes → Option Bytes) (keys : List Bytes) (key : Bytes) (c : Config)
    → Map.find key (overlay_keys env keys c).kv ≡ (
        if one_of key keys
        then first_of (env (to_upper key)) (Map.find key c.kv)
        else Map.find key c.kv)
unfolding overlay_keys
find-overlay_keys env [] key c = refl
find-overlay_keys env (k ∷ keys) key c = elim (Option-cases (env (to_upper k))) [
  | inl unset ↦ ground (
    arith,
    find-overlay_keys env keys key c,
    bytes_beq_iff key k,
    ap (λ t. env (to_upper t)) {x = key} {y = k},
  )
  | inr (v, e) ↦ ground (
    arith,
    find-overlay_keys env keys key (record c { kv = Map.insert k v c.kv }),
    find-insert k key v c.kv,
    bytes_beq_iff key k,
    bytes_beq_iff k key,
    ap (λ t. env (to_upper t)) {x = key} {y = k},
  )
]

-- After the overlay, a setting whose key is well known or stands in the configuration has the
-- value that the environment gives under the key in upper case; it is as it was where the
-- environment gives none, and so is every other setting.
pub get-overlay_env :
    (env : Bytes → Option Bytes) (key def : Bytes) (c : Config)
    → let k = to_lower key in
      get key def (overlay_env env c) ≡ (
        if one_of k (keys_of c.kv ++ well_known)
        then or_default (first_of (env (to_upper k)) (Map.find k c.kv)) def
        else get key def c)
unfolding get overlay_env
get-overlay_env env key def c =
    let k = to_lower key in
    ap (λ o. or_default o def) (find-overlay_keys env (keys_of c.kv ++ well_known) k c)
    ∙ either (one_of k (keys_of c.kv ++ well_known))
  where
    either :
        (known : Bool)
        → or_default
            (if known
              then first_of (env (to_upper (to_lower key))) (Map.find (to_lower key) c.kv)
              else Map.find (to_lower key) c.kv)
            def
          ≡ (if known
              then or_default
                  (first_of (env (to_upper (to_lower key))) (Map.find (to_lower key) c.kv))
                  def
              else or_default (Map.find (to_lower key) c.kv) def)
    either true = refl
    either false = refl
