-- ===== src/Handlers/Passwords.antt =====
-- src/handlers/handlers.cpp with src/auth/crypto.cpp: who can log in after a registration.
use chat_system_cpp_chat_ser.Base.{
  ℕ, ◌^◌, ◌<◌, ◌≡◌, refl, sym, ap, ◌∙◌, ◌≢◌, inl, inr, true, false, ◌||◌, Option, none, some, [],
  ltb, if◌then◌else◌, Bool-cases, nat_eq, length, is_empty, Bytes, IsBytes, codes, bytes_beq,
  bytes_beq_iff, bytes_eq,
}
use chat_system_cpp_chat_ser.Protocol.Messages.{JsonLib, get_str, make_ack}
use chat_system_cpp_chat_ser.Db.Store.{
  Store, User, Try, returned, raised, create_user, find_user_by_username,
}
use chat_system_cpp_chat_ser.Db.Store.Validity.{IsValid}
use chat_system_cpp_chat_ser.Db.Store.Accounts.{create_user_lem, user_row}
use chat_system_cpp_chat_ser.Auth.Password.{
  pbkdf2_hmac_sha256, make_password_hash, verify_password_hash, make_session_token,
}
use chat_system_cpp_chat_ser.Auth.Password.RoundTrip.{verify-make}
use chat_system_cpp_chat_ser.Handlers.World.{
  World, Crypto, Settings, finished, k_unauthorized, refuse, send,
}
use chat_system_cpp_chat_ser.Handlers.Accounts.{handle_register, credentials, log_in, handle_login}

-- The functions of crypto.cpp, where `random_bytes` fills the salt and the token with these.
unfoldable pub crypto : Bytes → Bytes → Crypto
unfolding make_password_hash verify_password_hash make_session_token
crypto salt drawn = record {
  make_password_hash = make_password_hash salt;
  verify_password_hash = verify_password_hash;
  random_token = make_session_token drawn;
}

same_name : (name : Bytes) → bytes_beq name name ≡ true
same_name name = (bytes_beq_iff name name).1 refl

abbrev found_in : Try (Option User) → Option User
found_in raised = none
found_in (returned found) = found

missing : (u : User) → none ≢ some u
missing u e = cc

not_both : (u : User) → returned none ≢ returned (some u)
not_both u e = missing u (ap found_in e)

module _ (J : JsonLib) (o : Settings) (salt drawn : Bytes) where
  -- The user and the password of a request.
  abbrev name_in : J.Value → Bytes
  name_in req = get_str J req (codes "username") []

  abbrev pass_in : J.Value → Bytes
  pass_in req = get_str J req (codes "password") []

  abbrev key_of : Bytes → Bytes
  key_of pass = pbkdf2_hmac_sha256 pass salt o.pbkdf2_iter 32

  abbrev registered : J.Value → World → User
  registered req w =
      user_row w.store.next_user_id (name_in req)
        (make_password_hash salt (pass_in req) o.pbkdf2_iter) o.now

  login_found :
      (req : J.Value) (id : Option ℕ) (w : World) (u : User)
      → find_user_by_username (name_in req) w.store ≡ returned (some u)
      → handle_login J (crypto salt drawn) o req id w ≡ (
          if verify_password_hash (pass_in req) u.password_hash
          then finished (log_in J (crypto salt drawn) o id u w)
          else finished (refuse J id k_unauthorized (codes "bad credentials") w))
  unfolding handle_login credentials crypto
  login_found req id w u found =
      elim (Bool-cases (verify_password_hash (pass_in req) u.password_hash)) [
        | inl match ↦ rw (handle_login, found, match) refl
        | inr no_match ↦ rw (handle_login, found, no_match) refl
      ]

  -- The world after the answer to a registration under `uid`.
  abbrev acknowledged : J.Value → Option ℕ → World → Store → ℕ → World
  acknowledged req id w s uid =
      send J
        (make_ack J id (
          J.set (codes "username") (J.string (name_in req))
            (J.set (codes "user_id") (J.integer uid) J.null)))
        (record w { store = s })

  abbrev creates : J.Value → World → Store × Option ℕ
  creates req w =
      create_user (name_in req) (make_password_hash salt (pass_in req) o.pbkdf2_iter) o.now w.store

  register_free :
      (req : J.Value) (id : Option ℕ) (w : World) (uid : ℕ)
      → (is_empty (name_in req)
          || is_empty (pass_in req)
          || ltb 64 (length (name_in req))
          || ltb (length (pass_in req)) 4)
        ≡ false
      → (creates req w).1 ≡ some uid
      → handle_register J (crypto salt drawn) o req id w
        ≡ finished (acknowledged req id w (creates req w).0 uid)
  unfolding handle_register crypto
  register_free req id w uid fits fresh = rw (handle_register, fits, fresh) refl

  -- A request to register a free name, with a name and a password of the lengths that are asked for,
  -- is answered, and after it a request to log in under this name succeeds with the passwords that
  -- derive the same key from the salt, the one that was registered among them, and with no other.
  pub login-register :
      (req req' : J.Value) (id id' : Option ℕ) (w : World)
      → IsValid w.store
      → find_user_by_username (name_in req) w.store ≡ returned none
      → (is_empty (name_in req)
          || is_empty (pass_in req)
          || ltb 64 (length (name_in req))
          || ltb (length (pass_in req)) 4)
        ≡ false
      → name_in req' ≡ name_in req
      → is_empty salt ≡ false
      → IsBytes salt
      → o.pbkdf2_iter < 2 ^ 32
      → (w' : World) × ((handle_register J (crypto salt drawn) o req id w ≡ finished w')
          × (handle_login J (crypto salt drawn) o req' id' w' ≡ (
              if bytes_beq (key_of (pass_in req')) (key_of (pass_in req))
              then finished (log_in J (crypto salt drawn) o id' (registered req w) w')
              else finished (refuse J id' k_unauthorized (codes "bad credentials") w'))))
  unfolding send
  login-register req req' id id' w valid unknown fits same es hs small =
      elim (create_user_lem (name_in req) (make_password_hash salt (pass_in req) o.pbkdf2_iter)
        o.now w.store valid) [
          | inl (u, known, e) ↦ absurd (not_both u (sym unknown ∙ known))
          | inr (free, fresh, finds) ↦
              let hash = make_password_hash salt (pass_in req) o.pbkdf2_iter in
              let s = (create_user (name_in req) hash o.now w.store).0 in
              let w' = acknowledged req id w s w.store.next_user_id in
              let found : find_user_by_username (name_in req') w'.store
                  ≡ returned (some (registered req w)) =
                ap (λ n. find_user_by_username n s) same
                ∙ finds (name_in req)
                ∙ rw (same_name (name_in req)) refl in
              (
                w',
                (
                  register_free req id w w.store.next_user_id fits fresh,
                  login_found req' id' w' (registered req w) found
                      ∙ ap
                          (λ b.
                            if b
                            then finished (log_in J (crypto salt drawn) o id' (registered req w) w')
                            else finished
                                (refuse J id' k_unauthorized (codes "bad credentials") w'))
                          (verify-make salt (pass_in req) (pass_in req') o.pbkdf2_iter es hs small),
                ),
              )
        ]
