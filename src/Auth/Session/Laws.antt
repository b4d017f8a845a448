-- ===== src/Auth/Session/Laws.antt =====
-- What a session token is good for.
use chat_system_cpp_chat_ser.Base.{
  ℕ, ◌+◌, ◌*◌, ◌≤◌, ◌≡◌, refl, ap, ◌∙◌, inl, inr, false, not, Option, none, some, List, [], ◌∷◌,
  arith, leb, if◌then◌else◌, Bool-cases, nat_eq, select, All, Bytes, bytes_beq, bytes_beq_iff,
  bytes_eq,
}
use chat_system_cpp_chat_ser.Base.Map
use chat_system_cpp_chat_ser.Base.Map.{find-insert, find-erase}
use chat_system_cpp_chat_ser.Db.Store.{Store, SessionRow, delete_session, load_all_sessions}
use chat_system_cpp_chat_ser.Auth.Session.{
  SessionInfo, SessionManager, new_manager, warm_row, warm_rows, warm, create, validate, revoke,
}

-- The answer of `validate`, from what the cache holds.
abbrev pub live : ℕ → Option SessionInfo → Option SessionInfo
live now none = none
live now (some info) = if leb info.expires_at_ms now then none else some info

pub validate-live :
    (token : Bytes) (now : ℕ) (m : SessionManager)
    → (validate token now m).1 ≡ live now (Map.find token m.cache)
unfolding validate
validate-live token now m = ground arith

-- A token that was created at `now` is valid until the ttl has passed, for its user and with that
-- expiry; every other token is as valid as it was.
pub validate-create :
    (token other : Bytes) (uid now later : ℕ) (m : SessionManager) (s : Store)
    → (validate other later (create token uid now m s).0).1 ≡ (
        if bytes_beq token other
        then (if leb (now + m.ttl_seconds * 1000) later
            then none
            else some (record { user_id = uid; expires_at_ms = now + m.ttl_seconds * 1000 }))
        else (validate other later m).1)
unfolding create
validate-create token other uid now later m s = ground (
  arith,
  validate-live other later (create token uid now m s).0,
  validate-live other later m,
  find-insert token other (record { user_id = uid; expires_at_ms = now + m.ttl_seconds * 1000 })
      m.cache,
)

-- After a revoke the token is not valid at any time; every other token is as valid as it was.
pub validate-revoke :
    (token other : Bytes) (later : ℕ) (m : SessionManager) (s : Store)
    → (validate other later (revoke token m s).0).1
      ≡ (if bytes_beq token other then none else (validate other later m).1)
unfolding revoke
validate-revoke token other later m s = ground (
  arith,
  validate-live other later (revoke token m s).0,
  validate-live other later m,
  find-erase token other m.cache,
)

-- Validation changes no later answer: a token that is asked for again later, or another one, has
-- the answer that it would have had without the question.
pub validate-validate :
    (token other : Bytes) (now later : ℕ) (m : SessionManager)
    → now ≤ later
    → (validate other later (validate token now m).0).1 ≡ (validate other later m).1
unfolding validate
validate-validate token other now later m h = ground (
  arith,
  validate-live other later (validate token now m).0,
  validate-live other later m,
  find-erase token other m.cache,
  bytes_beq_iff token other,
  ap (λ t. Map.find t m.cache) {x = token} {y = other},
)

-- Rows of other tokens leave the entry of a token alone.
abbrev Absent : Bytes → List SessionRow → Type 0
Absent token = All (λ r. bytes_beq r.token token ≡ false)

find-warm_rows :
    (token : Bytes) (now : ℕ) (rows : List SessionRow) (m : SessionManager)
    → Absent token rows
    → Map.find token (warm_rows now rows m).cache ≡ Map.find token m.cache
unfolding warm_rows
find-warm_rows token now [] m h = refl
find-warm_rows token now (r ∷ rows) m h = find-warm_rows token now rows (warm_row now r m) h.1 ∙ row
  where
    row : Map.find token (warm_row now r m).cache ≡ Map.find token m.cache
    row =
        unfold warm_row in
        ground (
          arith,
          find-insert r.token token
              (record {
                user_id = r.user_id;
                expires_at_ms = r.last_active_ms + m.ttl_seconds * 1000;
              })
              m.cache,
          h.0,
        )

Absent-delete_session :
    (token : Bytes) (rows : List SessionRow)
    → Absent token (select (λ r. not (bytes_beq r.token token)) rows)
Absent-delete_session token [] = tt
Absent-delete_session token (r ∷ rows) = elim (Bool-cases (bytes_beq r.token token)) [
  | inl e ↦ rw e (Absent-delete_session token rows)
  | inr e ↦ rw e (e, Absent-delete_session token rows)
]

cache_empty : (token : Bytes) (ttl : ℕ) → Map.find token (new_manager ttl).cache ≡ none
unfolding Map.find new_manager
cache_empty token ttl = refl

-- A revoked token is not valid after a restart: a new manager that is warmed from the store of
-- the revoke does not know it.
pub validate-warm-revoke :
    (token : Bytes) (ttl start later : ℕ) (m : SessionManager) (s : Store)
    → (validate token later (warm start (revoke token m s).1 (new_manager ttl))).1 ≡ none
unfolding revoke delete_session load_all_sessions warm new_manager
validate-warm-revoke token ttl start later m s =
    let rows = select (λ r. not (bytes_beq r.token token)) s.sessions in
    validate-live token later (warm_rows start rows (new_manager ttl))
    ∙ ap (live later) (
        find-warm_rows token start rows (new_manager ttl) (Absent-delete_session token s.sessions)
        ∙ cache_empty token ttl)

-- The user that an answer names.
abbrev pub named_user : Option SessionInfo → Option ℕ
named_user none = none
named_user (some info) = some info.user_id
