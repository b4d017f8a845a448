-- ===== src/Auth/Session/Owners.antt =====
-- Whose the sessions are.
use chat_system_cpp_chat_ser.Base.{
  ℕ, ◌+◌, ◌*◌, ◌≡◌, false, some, arith, nat_beq, nat_eq, Bytes, bytes_eq,
}
use chat_system_cpp_chat_ser.Base.Map
use chat_system_cpp_chat_ser.Base.Map.{Map, find-insert, find-erase}
use chat_system_cpp_chat_ser.Db.Store.{Store}
use chat_system_cpp_chat_ser.Auth.Session.{SessionInfo, SessionManager, validate, create, revoke}

-- No session is that of a user 0.
abbrev pub NamesUsers : SessionManager → Type 0
NamesUsers m =
    (token : Bytes) (i : SessionInfo)
    → Map.find token m.cache ≡ some i
    → nat_beq i.user_id 0 ≡ false

module _ (token : Bytes) (now : ℕ) (m : SessionManager) (names : NamesUsers m) where
  pub validate-NamesUsers : NamesUsers (validate token now m).0
  unfolding validate
  validate-NamesUsers t i h = ground (arith, names t i, find-erase token t m.cache)

  pub create-NamesUsers :
      (uid : ℕ) (s : Store) → nat_beq uid 0 ≡ false → NamesUsers (create token uid now m s).0
  unfolding create
  create-NamesUsers uid s real t i h = ground (
    arith,
    names t i,
    find-insert token t (record { user_id = uid; expires_at_ms = now + m.ttl_seconds * 1000 })
        m.cache,
  )

  pub revoke-NamesUsers : (s : Store) → NamesUsers (revoke token m s).0
  unfolding revoke
  revoke-NamesUsers s t i h = ground (arith, names t i, find-erase token t m.cache)

  pub validate-positive :
      (i : SessionInfo) → (validate token now m).1 ≡ some i → nat_beq i.user_id 0 ≡ false
  unfolding validate
  validate-positive i h = ground (arith, names token i)
