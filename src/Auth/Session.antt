-- ===== src/Auth/Session.antt =====
-- src/auth/session.cpp and include/auth/session.h: sessions in memory, written through to the
-- store. The token and the wall clock are arguments of the methods that draw them.
pub mod Laws
pub mod Owners
use chat_system_cpp_chat_ser.Base.{
  ℕ, ◌+◌, ◌*◌, Option, none, some, List, [], ◌∷◌, leb, if◌then◌else◌, nat_beq, nat_eq, Bytes,
  bytes_eq,
}
use chat_system_cpp_chat_ser.Base.Map
use chat_system_cpp_chat_ser.Base.Map.{Map}
use chat_system_cpp_chat_ser.Db.Store.{
  Store, SessionRow, load_all_sessions, insert_session, delete_session,
}

pub record SessionInfo : Type 0 where
  pub user_id : ℕ
  pub expires_at_ms : ℕ

pub record SessionManager : Type 0 where
  pub ttl_seconds : ℕ
  pub cache : Map Bytes SessionInfo

-- 0 stands for every ttl that is not positive.
unfoldable pub new_manager : ℕ → SessionManager
new_manager ttl = record { ttl_seconds = if nat_beq ttl 0 then 86400 else ttl; cache = [] }

-- One round of the loop of `warm`.
unfoldable pub warm_row : ℕ → SessionRow → SessionManager → SessionManager
warm_row now r m =
    let exp = r.last_active_ms + m.ttl_seconds * 1000 in
    if leb exp now then m else record m {
      cache = Map.insert r.token (record { user_id = r.user_id; expires_at_ms = exp }) m.cache;
    }

unfoldable pub warm_rows : ℕ → List SessionRow → SessionManager → SessionManager
warm_rows now [] m = m
warm_rows now (r ∷ rows) m = warm_rows now rows (warm_row now r m)

unfoldable pub warm : ℕ → Store → SessionManager → SessionManager
unfolding warm_rows warm_row
warm now s m = warm_rows now (load_all_sessions s) m

unfoldable pub create : Bytes → ℕ → ℕ → SessionManager → Store → SessionManager × Store
create token uid now m s = (
  record m {
    cache =
        Map.insert token (record { user_id = uid; expires_at_ms = now + m.ttl_seconds * 1000 })
          m.cache;
  },
  insert_session token uid now s,
)

-- An expired session is dropped.
unfoldable pub validate : Bytes → ℕ → SessionManager → SessionManager × Option SessionInfo
validate token now m = elim (Map.find token m.cache) [
  | none ↦ (m, none)
  | some info ↦
      if leb info.expires_at_ms now
      then (record m { cache = Map.erase token m.cache }, none)
      else (m, some info)
]

unfoldable pub touch : Bytes → ℕ → SessionManager → SessionManager
touch token now m = elim (Map.find token m.cache) [
  | none ↦ m
  | some info ↦ record m {
    cache = Map.insert token (record info { expires_at_ms = now + m.ttl_seconds * 1000 }) m.cache;
  }
]

unfoldable pub revoke : Bytes → SessionManager → Store → SessionManager × Store
revoke token m s = (record m { cache = Map.erase token m.cache }, delete_session token s)
