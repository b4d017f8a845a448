-- ===== src/Examples/Joining.antt =====
-- A registration and a log-in.
use chat_system_cpp_chat_ser.Base.{
  ◌≡◌, refl, false, ◌||◌, none, some, [], ◌∷◌, arith, ltb, if◌then◌else◌, nat_eq, length, is_empty,
  Bytes, codes, bytes_beq, bytes_eq,
}
use chat_system_cpp_chat_ser.Base.Map
use chat_system_cpp_chat_ser.Db.Store.{returned, find_user_by_username}
use chat_system_cpp_chat_ser.Db.Store.Accounts.{user_row}
use chat_system_cpp_chat_ser.Db.Store.Validity.{empty_store-IsValid}
use chat_system_cpp_chat_ser.Protocol.Messages.{get_str}
use chat_system_cpp_chat_ser.Auth.Password.{pbkdf2_hmac_sha256, make_password_hash}
use chat_system_cpp_chat_ser.Handlers.World.{World, finished, k_unauthorized, refuse}
use chat_system_cpp_chat_ser.Handlers.Accounts.{handle_register, handle_login, log_in}
use chat_system_cpp_chat_ser.Handlers.Passwords.{crypto, login-register}
use chat_system_cpp_chat_ser.Examples.Traffic.{plain}
use chat_system_cpp_chat_ser.Examples.Requests.{world, settings}

no_anna :
    find_user_by_username (get_str plain (codes "anna") (codes "username") []) world.store
    ≡ returned none
unfolding find_user_by_username get_str Map.find
no_anna = refl

long_enough :
    (is_empty (get_str plain (codes "anna") (codes "username") [])
      || is_empty (get_str plain (codes "anna") (codes "password") [])
      || ltb 64 (length (get_str plain (codes "anna") (codes "username") []))
      || ltb (length (get_str plain (codes "anna") (codes "password") [])) 4)
    ≡ false
unfolding get_str
long_enough = refl

abbrev salty : Bytes
salty = 7 ∷ []

login-register_example :
    let name = get_str plain (codes "anna") (codes "username") [] in
    let pass = get_str plain (codes "anna") (codes "password") [] in
    (w' : World) × ((handle_register plain (crypto salty []) settings (codes "anna") (some 1) world
        ≡ finished w')
      × (handle_login plain (crypto salty []) settings (codes "anna") (some 2) w' ≡ (
          if bytes_beq (pbkdf2_hmac_sha256 pass salty 2 32) (pbkdf2_hmac_sha256 pass salty 2 32)
          then finished (
              log_in plain
                (crypto salty [])
                settings
                (some 2)
                (user_row 1 name (make_password_hash salty pass 2) 50)
                w')
          else finished (refuse plain (some 2) k_unauthorized (codes "bad credentials") w'))))
login-register_example =
    login-register plain settings salty [] (codes "anna") (codes "anna") (some 1) (some 2) world
      empty_store-IsValid no_anna long_enough refl refl (omega arith, tt) (omega arith)
